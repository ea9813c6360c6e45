-- ===== src/Samples/Hosts.antt =====
-- A repository with two layers, and the manifest of one host.
use datum.Prelude.{◌≡◌, refl, any, count, some, List, [], ◌∷◌, if◌then◌else◌}
use datum.Prelude.Int.{pos}
use datum.Map.{Map}
use datum.Text.{Text, text_beq, bytes}
use datum.Document.Reference.{ref_eq}
use datum.Document.Documents.{HostDocument, Layer, Declared, DocumentSet}
use datum.Matcher.{Matcher}
use datum.Resolve.Manifest.{Position}
use datum.Resolve.Substitute.{new_substituter, substitute_text}
use datum.Resolve.Substitute.Pieces.{
  Piece, literal, placeholder, is_clean, written, expand_pieces, substitute_text-written,
}
use datum.Resolve.Host.{Manifest, ResolveError, find_host, resolve_host, resolve_for}
use datum.Resolve.Host.Complete.{refs_of, declared_for, resolve_host-count}
use datum.Samples.Data.{config, at_path}

abbrev labels : Map Text Text
labels = (bytes "site", bytes "{{ host }}") ∷ []

-- A label whose value looks like a placeholder.
abbrev pieces : List Piece
pieces =
    literal (bytes "at ")
    ∷ placeholder (bytes " labels.site ")
    ∷ literal (bytes "/")
    ∷ placeholder (bytes "host")
    ∷ []

substitute_text-written_example :
    substitute_text (written pieces) (new_substituter (bytes "web1") labels)
    ≡ expand_pieces pieces (new_substituter (bytes "web1") labels)
unfolding is_clean
substitute_text-written_example =
    substitute_text-written pieces (new_substituter (bytes "web1") labels) refl

abbrev nowhere : Position
nowhere = record { file = []; line = 0 }

abbrev everyone : Matcher
everyone = record { labels = []; one_of = []; none_of = []; has_keys = []; missing = [] }

abbrev at_site : Matcher
at_site = record {
  labels = (bytes "site", bytes "north") ∷ [];
  one_of = [];
  none_of = [];
  has_keys = [];
  missing = [];
}

abbrev web1 : HostDocument
web1 = record { name = bytes "web1"; labels = labels; position = nowhere; schema = [] }

abbrev layer_of : Text → Matcher → Layer
layer_of name matcher = record {
  name = name;
  precedence = pos 0;
  matcher = matcher;
  position = nowhere;
  schema = [];
  dir = name;
}

abbrev file_in : Text → Declared
file_in layer = record {
  ref = config;
  requires = [];
  restart_on = [];
  reload_on = [];
  desired = at_path;
  position = nowhere;
  schema = [];
  layer = layer;
  layer_dir = layer;
}

-- The file is declared in the layer of every host and in that of another site.
abbrev repository : DocumentSet
repository = record {
  fleet = record { name = bytes "fleet"; exclude = []; position = nowhere; schema = [] };
  hosts = web1 ∷ [];
  layers = layer_of (bytes "base") everyone ∷ layer_of (bytes "north") at_site ∷ [];
  resources = file_in (bytes "base") ∷ file_in (bytes "north") ∷ [];
}

abbrev resolved : Manifest × List ResolveError
resolved = resolve_for repository (bytes "web1") (bytes "r1") web1

find-web1 : find_host repository.hosts (bytes "web1") ≡ some web1
unfolding find_host text_beq
find-web1 = refl

resolve-web1 : resolve_host repository (bytes "web1") (bytes "r1") ≡ some resolved
unfolding resolve_host text_beq
resolve-web1 = refl

resolve_host-count_example :
    count config (refs_of resolved.0.resources)
    ≡ (if any (declared_for repository web1 config) repository.layers then 1 else 0)
resolve_host-count_example =
    resolve_host-count repository (bytes "web1") (bytes "r1") web1 resolved.0 resolved.1 config
      find-web1 resolve-web1
