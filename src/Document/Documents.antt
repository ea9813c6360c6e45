-- ===== src/Document/Documents.antt =====
-- internal/document/document.go: the documents of a repository.
use datum.Prelude.{List}
use datum.Prelude.Int.{ℤ}
use datum.Map.{Map}
use datum.Text.{Text, bytes}
use datum.Document.Reference.{Reference}
use datum.Document.Value.{Value}
use datum.Resolve.Manifest.{Position}
use datum.Matcher.{Matcher}

-- HostLabel
abbrev pub host_label : Text
host_label = bytes "datum/host"

pub record Fleet : Type 0 where
  pub name : Text
  pub exclude : List Text
  pub position : Position
  pub schema : Text

pub record HostDocument : Type 0 where
  pub name : Text
  pub labels : Map Text Text
  pub position : Position
  pub schema : Text

pub record Layer : Type 0 where
  pub name : Text
  pub precedence : ℤ
  pub matcher : Matcher
  pub position : Position
  pub schema : Text
  pub dir : Text

-- Resource; its Type and Name are the reference that Ref gives.
pub record Declared : Type 0 where
  pub ref : Reference
  pub requires : List Reference
  pub restart_on : List Reference
  pub reload_on : List Reference
  pub desired : Value
  pub position : Position
  pub schema : Text
  pub layer : Text
  pub layer_dir : Text

-- Set
pub record DocumentSet : Type 0 where
  pub fleet : Fleet
  pub hosts : List HostDocument
  pub layers : List Layer
  pub resources : List Declared
