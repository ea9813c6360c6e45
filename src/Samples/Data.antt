-- ===== src/Samples/Data.antt =====
-- Example resources, edges and graphs: a package, its configuration file and its service.
use datum.Prelude.{Bool, false, List, [], ◌∷◌}
use datum.Text.{Text, bytes}
use datum.Document.Reference.{Reference}
use datum.Document.Value.{Value, end, field, fresh, plain}
use datum.Resolve.Manifest.{Resource}
use datum.Graph.{Edge, requires, restart_on, Graph}

abbrev pub nginx : Reference
nginx = record { type = bytes "Package"; name = bytes "nginx" }

abbrev pub config : Reference
config = record { type = bytes "File"; name = bytes "conf" }

abbrev pub service : Reference
service = record { type = bytes "Service"; name = bytes "nginx" }

abbrev pub refs : List Reference
refs = nginx ∷ config ∷ service ∷ []

abbrev pub edges : List Edge
edges =
    record { from = nginx; to = config; kind = requires }
    ∷ record { from = config; to = service; kind = restart_on }
    ∷ []

-- The package and the configuration wait for each other.
abbrev pub ring : List Edge
ring =
    record { from = nginx; to = config; kind = requires }
    ∷ record { from = config; to = nginx; kind = requires }
    ∷ []

abbrev pub no_fields : Value
no_fields = Value.map end fresh

abbrev pub at_path : Value
at_path = Value.map (field (bytes "path") (plain (bytes "/c")) end) fresh

abbrev pub resource : Reference → Value → List Reference → List Reference → Resource
resource ref desired needs restarts = record {
  ref = ref;
  desired = desired;
  requires = needs;
  restart_on = restarts;
  reload_on = [];
  layers = [];
  layer_dir = [];
  used = [];
  position = record { file = []; line = 0 };
}

abbrev pub manifest : List Resource
manifest =
    resource service no_fields [] (config ∷ [])
    ∷ resource config at_path (nginx ∷ []) []
    ∷ resource nginx no_fields [] []
    ∷ []

abbrev pub allows : Reference → Text → Value → Bool
allows ref target desired = false

abbrev pub graph : Graph
graph = record {
  nodes =
      (
        service,
        record { resource = resource service no_fields [] (config ∷ []); target = bytes "nginx" },
      )
      ∷ (config, record { resource = resource config at_path (nginx ∷ []) []; target = bytes "/c" })
      ∷ (nginx, record { resource = resource nginx no_fields [] []; target = bytes "nginx" })
      ∷ [];
  edges = edges;
  order = refs;
}
