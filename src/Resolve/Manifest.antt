-- ===== src/Resolve/Manifest.antt =====
-- internal/resolve/resolve.go: the types Manifest and Resource.
use datum.Prelude.{ℕ, List}
use datum.Text.{Text}
use datum.Document.Reference.{Reference}
use datum.Document.Value.{Value}

-- document.Position
pub record Position : Type 0 where
  pub file : Text
  pub line : ℕ

pub record Used : Type 0 where
  pub placeholder : Text
  pub value : Text

pub record Resource : Type 0 where
  pub ref : Reference
  pub desired : Value
  pub requires : List Reference
  pub restart_on : List Reference
  pub reload_on : List Reference
  pub layers : List Text
  pub layer_dir : Text
  pub used : List Used
  pub position : Position
