-- ===== src/Samples/Repositories.antt =====
-- Patterns, directories and references of a repository.
use datum.Prelude.{◌≡◌, ◌↔◌, ◌==◌, Bool, true, some, List, [], ◌∷◌}
use datum.Prelude.Int.{pos}
use datum.Map.{Map}
use datum.Text.{Text, text_eq, bytes}
use datum.Document.Reference.{ref_string}
use datum.Document.Names.{known_type, valid_name, parse_reference}
use datum.Document.Names.RoundTrip.{parse_reference-ref_string}
use datum.Document.Documents.{Layer}
use datum.Discover.Glob.{match_segments}
use datum.Discover.Glob.Matches.{Matches, match_segments_iff}
use datum.Discover.Collect.{nearest_layer}
use datum.Discover.Collect.Nearest.{IsNearest, nearest_layer-IsNearest}
use datum.Samples.Data.{config}

-- A segment of a pattern that stands for itself.
abbrev same_text : Text → Text → Bool
same_text pattern segment = pattern == segment

abbrev pattern : List Text
pattern = bytes "roles" ∷ bytes "**" ∷ bytes "files" ∷ []

abbrev path : List Text
path = bytes "roles" ∷ bytes "web" ∷ bytes "files" ∷ []

match_segments_iff_example :
    (match_segments same_text pattern path ≡ true) ↔ Matches same_text pattern path
match_segments_iff_example = match_segments_iff same_text pattern path

abbrev role_layer : Layer
role_layer = record {
  name = bytes "role";
  precedence = pos 0;
  matcher = record { labels = []; one_of = []; none_of = []; has_keys = []; missing = [] };
  position = record { file = bytes "roles/layer.yaml"; line = 1 };
  schema = [];
  dir = bytes "roles";
}

abbrev by_dir : Map Text Layer
by_dir = (bytes "roles", role_layer) ∷ []

nearest_layer-IsNearest_example :
    IsNearest by_dir (bytes "roles/web") (nearest_layer by_dir (bytes "roles/web"))
nearest_layer-IsNearest_example = nearest_layer-IsNearest by_dir (bytes "roles/web")

parse_reference-ref_string_example : (parse_reference (bytes "File[conf]") ≡ some config) ↔ (
    (known_type config.type ≡ true)
    × (valid_name config.name ≡ true)
    × (ref_string config ≡ bytes "File[conf]"))
parse_reference-ref_string_example = parse_reference-ref_string (bytes "File[conf]") config
