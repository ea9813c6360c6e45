-- ===== src/Config.antt =====
-- internal/config: the agent's configuration, after the YAML library has filled it in.
pub mod Sizes
pub mod Durations
use datum.Prelude.{
  Eq, ◌==◌, ℕ, Bool, true, false, not, ◌&&◌, ◌||◌, Option, none, some, List, [], ◌∷◌, ◌++◌,
  contains, sort_by, if◌then◌else◌,
}
use datum.Prelude.Int.{ℤ, pos, leb_ℤ, ltb_ℤ}
use datum.Text.{Text, text_eq, text_lt, bytes}
use datum.Map.{lookup}

-- Source
pub record SourceBlock : Type 0 where
  pub url : Text
  pub branch : Text
  pub credential : Text
  pub fetch_timeout : ℤ
  pub max_repository_size : ℤ
  pub max_source_size : ℤ

-- Trust; `none` is the nil pointer
pub record TrustBlock : Type 0 where
  pub signers : Text
  pub require : Text
  pub tag_pattern : Text
  pub require_descendant : Option Bool
  pub strict_paths : Bool

-- Reconciliation
pub record ReconciliationBlock : Type 0 where
  pub mode : Text
  pub interval : ℤ
  pub splay : Option ℤ
  pub timeout : ℤ
  pub action_timeout : ℤ

-- Config; times are nanoseconds, of type int64 in the code
pub record Config : Type 0 where
  pub host : Text
  pub source : SourceBlock
  pub trust : TrustBlock
  pub reconciliation : ReconciliationBlock
  pub secrets_provider : Text
  pub secrets_path : Text
  pub listen : Text
  pub textfile : Text
  pub state : Text

-- Trust.Descendant
unfoldable pub requires_descendant : TrustBlock → Bool
requires_descendant t = elim t.require_descendant [ none ↦ true | some b ↦ b ]

-- SplayOr
unfoldable pub splay_or : ReconciliationBlock → ℤ
splay_or r = elim r.splay [ none ↦ r.interval | some splay ↦ splay ]

-- Metrics.Serving
unfoldable pub serving : Config → Bool
serving c = not (c.listen == []) && not (c.listen == bytes "none")

-- Default
abbrev pub default_settings : Config
default_settings = record {
  host = [];
  source = record {
    url = [];
    branch = bytes "main";
    credential = [];
    fetch_timeout = pos 300000000000;
    max_repository_size = pos 1073741824;
    max_source_size = pos 16777216;
  };
  trust = record {
    signers = bytes "/etc/datum/allowed-signers";
    require = bytes "signed-commit";
    tag_pattern = [];
    require_descendant = some true;
    strict_paths = false;
  };
  reconciliation = record {
    mode = bytes "enforce";
    interval = pos 1800000000000;
    splay = none;
    timeout = pos 900000000000;
    action_timeout = pos 300000000000;
  };
  secrets_provider = [];
  secrets_path = [];
  listen = bytes "127.0.0.1:10056";
  textfile = [];
  state = bytes "/var/lib/datum";
}

abbrev text_or : Text → Text → Text
text_or text default_text = if text == [] then default_text else text

-- The statements of Parse on empty strings.
unfoldable pub fill_empty : Config → Config
fill_empty c = record c {
  source = record c.source { branch = text_or c.source.branch (bytes "main") };
  trust = record c.trust {
    signers = text_or c.trust.signers (bytes "/etc/datum/allowed-signers");
    require = text_or c.trust.require (bytes "signed-commit");
  };
  reconciliation = record c.reconciliation {
    mode = text_or c.reconciliation.mode (bytes "enforce");
  };
  state = text_or c.state (bytes "/var/lib/datum");
}

-- What Validate refuses.
pub data ConfigError : Type 0 where
  no_host : ConfigError
  bad_require : Text → ConfigError
  no_tag_pattern : ConfigError
  bad_mode : Text → ConfigError
  interval_not_positive timeout_not_positive : ConfigError
  timeout_too_long : ℤ → ℤ → ConfigError
  negative_splay : ConfigError
  bad_provider : Text → ConfigError

abbrev require_values : List Text
require_values = bytes "signed-commit" ∷ bytes "signed-tag" ∷ bytes "none" ∷ []

abbrev mode_values : List Text
mode_values = bytes "enforce" ∷ bytes "observe" ∷ []

-- Validate, from the mode on
unfoldable pub validate_times : ReconciliationBlock → Option ConfigError
unfolding contains splay_or
validate_times r =
    if not (contains mode_values r.mode)
    then some (bad_mode r.mode)
    else if leb_ℤ r.interval (pos 0)
    then some interval_not_positive
    else if leb_ℤ r.timeout (pos 0)
    then some timeout_not_positive
    else if ltb_ℤ r.interval r.timeout
    then some (timeout_too_long r.timeout r.interval)
    else if ltb_ℤ (splay_or r) (pos 0)
    then some negative_splay
    else none

-- Validate; `none` is success
unfoldable pub validate_config : Config → Option ConfigError
unfolding contains validate_times
validate_config c =
    if c.host == []
    then some no_host
    else if not (contains require_values c.trust.require)
    then some (bad_require c.trust.require)
    else if c.trust.require == bytes "signed-tag" && c.trust.tag_pattern == []
    then some no_tag_pattern
    else elim (validate_times c.reconciliation) [
      | some err ↦ some err
      | none ↦
          if not (c.secrets_provider == []) && not (c.secrets_provider == bytes "file")
          then some (bad_provider c.secrets_provider)
          else none
    ]

-- Parse, of what the YAML library made of Default and the file
unfoldable pub parse_config : Config → Option Config
unfolding fill_empty validate_config
parse_config c = elim (validate_config (fill_empty c)) [
  | none ↦ some (fill_empty c)
  | some err ↦ none
]

-- The keys that unknownKeys knows, and those of their blocks; `none` is nil.
abbrev known_keys : List (Text × Option (List Text))
known_keys =
    (bytes "host", none)
    ∷ (
      bytes "source",
      some (
          bytes "url"
          ∷ bytes "branch"
          ∷ bytes "credential"
          ∷ bytes "fetchTimeout"
          ∷ bytes "maxRepositorySize"
          ∷ bytes "maxSourceSize"
          ∷ []),
    )
    ∷ (
      bytes "trust",
      some (
          bytes "signers"
          ∷ bytes "require"
          ∷ bytes "tagPattern"
          ∷ bytes "requireDescendant"
          ∷ bytes "strictPaths"
          ∷ []),
    )
    ∷ (
      bytes "reconciliation",
      some (
          bytes "mode"
          ∷ bytes "interval"
          ∷ bytes "splay"
          ∷ bytes "timeout"
          ∷ bytes "actionTimeout"
          ∷ []),
    )
    ∷ (bytes "secrets", some (bytes "provider" ∷ bytes "path" ∷ []))
    ∷ (bytes "metrics", some (bytes "listen" ∷ bytes "textfile" ∷ []))
    ∷ (bytes "state", none)
    ∷ []

-- unknownKeys, of what the YAML library made of the file, each key with those of its block; `none`
-- is a value that is no map. `quoted` prints with %q.
module _ (quoted : Text → Text) where
  unfoldable pub unknown_child : Text → List Text → Text → List Text
  unfolding contains
  unknown_child key children child =
      if contains children child
      then []
      else (bytes "unknown key " ++ quoted (key ++ bytes "." ++ child)) ∷ []

  unfoldable pub unknown_children : Text → List Text → List Text → List Text
  unfolding unknown_child
  unknown_children key children [] = []
  unknown_children key children (child ∷ block) =
      unknown_child key children child ++ unknown_children key children block

  unfoldable pub unknown_key : Text → Option (List Text) → List Text
  unfolding lookup unknown_children
  unknown_key key value = elim (lookup key known_keys) [
    | none ↦ (bytes "unknown key " ++ quoted key) ∷ []
    | some none ↦ []
    | some (some children) ↦ elim value [
      | none ↦ []
      | some block ↦ unknown_children key children block
    ]
  ]

  unfoldable pub unknown_each : List (Text × Option (List Text)) → List Text
  unfolding unknown_key
  unknown_each [] = []
  unknown_each ((key, value) ∷ raw) = unknown_key key value ++ unknown_each raw

  unfoldable pub unknown_keys : List (Text × Option (List Text)) → List Text
  unfolding unknown_each sort_by
  unknown_keys raw = sort_by text_lt (unknown_each raw)
