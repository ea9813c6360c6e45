-- ===== src/Provider.antt =====
-- internal/provider/provider.go: the boundary between the engine and an operating system. A provider
-- is an interface here as it is there; what it reads and changes is a type `World` of its own.
use datum.Prelude.{
  ◌==◌, Bool, true, false, not, Option, none, some, List, [], ◌∷◌, contains, if◌then◌else◌,
}
use datum.Map.{Map, lookup, put}
use datum.Text.{Text, text_eq, bytes}
use datum.State.{Action}
use datum.Document.Reference.{Reference}
use datum.Document.Value
use datum.Document.Value.{Value, Fields, end, field, is_scalar, scalar_text}

pub data Trigger : Type 0 where
  no_trigger restart reload : Trigger

pub record Request : Type 0 where
  pub ref : Reference
  pub target : Text
  pub desired : Value
  pub layer_dir : Text
  pub repo_root : Text
  pub trigger : Trigger

-- The text of a value that is a scalar.
unfoldable pub scalar_of : Option Value → Option Text
unfolding is_scalar scalar_text
scalar_of none = none
scalar_of (some v) = if is_scalar v then some (scalar_text v) else none

-- Request.Field
unfoldable pub request_field : Request → Text → Option Text
unfolding scalar_of Value.lookup
request_field r name = scalar_of (Value.lookup name r.desired)

-- Request.FieldOr
unfoldable pub field_or : Request → Text → Text → Text
unfolding request_field
field_or r name fallback = elim (request_field r name) [ none ↦ fallback | some text ↦ text ]

-- Request.Present
unfoldable pub is_present : Request → Bool
unfolding field_or
is_present r = not (field_or r (bytes "state") (bytes "present") == bytes "absent")

pub record Observation : Type 0 where
  pub exists : Bool
  pub found : Text
  pub fields : Map Text Value
  pub unobservable : List Text
  pub uncorrectable : List Text
  pub desired : Value

abbrev pub has_fields : Value → Bool
has_fields (Value.map end p) = false
has_fields (Value.map (field k v rest) p) = true
has_fields _ = false

-- Observation.DesiredOr
unfoldable pub desired_or : Observation → Value → Value
desired_or o declared = if has_fields o.desired then o.desired else declared

-- Observation.CanObserve
unfoldable pub can_observe : Observation → Text → Bool
unfolding contains
can_observe o name = not (contains o.unobservable name)

-- Observation.CanCorrect
unfoldable pub can_correct : Observation → Text → Bool
unfolding contains
can_correct o name = not (contains o.uncorrectable name)

-- What Observe returns.
pub data Observed : Type 0 where
  observed : Observation → Observed
  unreadable : Text → Observed

-- What Apply returns. `overran` is an error after the action's own time limit, while the pass goes on.
pub data Applied : Type 0 where
  applied : Applied
  refused : Text → Applied
  overran : Applied

-- The interface Provider. Observe must not change anything, so it returns no new world.
pub record Provider (World : Type 0) : Type 0 where
  pub name : Text
  pub types : List Text
  pub observe : Request → World → Observed
  pub apply : Request → Action → World → Applied × World

-- Set
pub record ProviderSet (World : Type 0) : Type 0 where
  pub host : Text
  pub unserved : Map Text Text
  pub by_type : Map Text (Provider World)

module _ {World : Type 0} where
  -- The inner loop of NewSet.
  unfoldable pub serve :
      Provider World → List Text → Map Text (Provider World) → Map Text (Provider World)
  serve p [] m = m
  serve p (type_name ∷ rest) m = serve p rest (put type_name p m)

  unfoldable pub serve_all :
      List (Provider World) → Map Text (Provider World) → Map Text (Provider World)
  unfolding serve
  serve_all [] m = m
  serve_all (p ∷ ps) m = serve_all ps (serve p p.types m)

  -- NewSet
  unfoldable pub new_set : List (Provider World) → ProviderSet World
  unfolding serve_all
  new_set ps = record { host = []; unserved = []; by_type = serve_all ps [] }

  -- Set.For
  unfoldable pub provider_for : ProviderSet World → Text → Option (Provider World)
  provider_for s type_name = lookup type_name s.by_type
