-- ===== src/Affected.antt =====
-- cmd/datum/affected.go: which hosts a change between two revisions reaches.
use datum.Prelude.{
  ◌==◌, ℕ, suc, not, ◌||◌, Option, none, some, List, [], ◌∷◌, ◌++◌, contains, length, sort_by,
  if◌then◌else◌,
}
use datum.Map.{Map, lookup, get_or, has, put, keys}
use datum.Text.{Text, text_eq, text_lt, bytes, join}
use datum.Document.Documents.{DocumentSet, HostDocument}
use datum.Document.Reference.{ref_string}
use datum.Document.Value.{Value, Fields, scalar, list, map, end, field}
use datum.Document.Canonical.{render}
use datum.Resolve.Manifest.{Resource}
use datum.Resolve.Host.{Manifest, resolve_host, short_digest}

-- snapshot
pub record Snapshot : Type 0 where
  pub revision : Text
  pub digests : Map Text Text
  pub manifests : Map Text Manifest
  pub hosts : List Text

-- The manifest of Host where it has no error.
unfoldable pub resolved : DocumentSet → Text → Text → Option Manifest
unfolding resolve_host
resolved set name revision = elim (resolve_host set name revision) [
  | none ↦ none
  | some (manifest, []) ↦ some manifest
  | some (manifest, err ∷ errs) ↦ none
]

-- The loop of resolveAll; `none` is an error.
unfoldable pub resolve_each :
    (sha256_hex : Text → Text) → DocumentSet → Text → List HostDocument → Snapshot → Option Snapshot
unfolding resolved put short_digest
resolve_each sha256_hex set revision [] out = some out
resolve_each sha256_hex set revision (host ∷ hosts) out = elim (resolved set host.name revision) [
  | none ↦ none
  | some manifest ↦ resolve_each sha256_hex set revision hosts (record out {
    digests = put host.name (short_digest sha256_hex manifest) out.digests;
    manifests = put host.name manifest out.manifests;
    hosts = out.hosts ++ host.name ∷ [];
  })
]

-- resolveAll
unfoldable pub resolve_all : (sha256_hex : Text → Text) → DocumentSet → Text → Option Snapshot
unfolding resolve_each sort_by
resolve_all sha256_hex set revision =
    elim (resolve_each sha256_hex set revision set.hosts
      (record { revision = revision; digests = []; manifests = []; hosts = [] })) [
        | none ↦ none
        | some out ↦ some (record out { hosts = sort_by text_lt out.hosts })
      ]

-- The loop of union over one list.
unfoldable pub unseen : List Text → List Text → List Text
unfolding contains
unseen out [] = out
unseen out (item ∷ items) = unseen (if contains out item then out else out ++ item ∷ []) items

-- union
unfoldable pub union : List Text → List Text → List Text
unfolding unseen sort_by
union a b = sort_by text_lt (unseen (unseen [] a) b)

-- The hosts that printAffected counts as changed.
unfoldable pub changed_hosts : Snapshot → Snapshot → List Text → ℕ
unfolding get_or
changed_hosts before after [] = 0
changed_hosts before after (host ∷ hosts) =
    let rest = changed_hosts before after hosts in
    if get_or before.digests host [] == get_or after.digests host [] then rest else suc rest

-- One line of printAffected, before it is aligned.
unfoldable pub host_line : Snapshot → Snapshot → Text → Text
unfolding lookup
host_line before after host = elim (lookup host before.digests) [
  | none ↦ host ++ (9 ∷ bytes "added") ++ (9 ∷ get_or after.digests host [])
  | some old ↦ elim (lookup host after.digests) [
    | none ↦ host ++ (9 ∷ bytes "removed") ++ (9 ∷ old)
    | some new ↦
        if old == new
        then host ++ (9 ∷ bytes "unchanged")
        else host ++ (9 ∷ old) ++ bytes " -> " ++ new
  ]
]

unfoldable pub host_lines : Snapshot → Snapshot → List Text → List Text
unfolding host_line
host_lines before after [] = []
host_lines before after (host ∷ hosts) = host_line before after host ∷ host_lines before after hosts

-- printAffected: how many hosts changed, how many there are, and a line for each
unfoldable pub print_affected : Snapshot → Snapshot → ℕ × (ℕ × List Text)
unfolding union changed_hosts host_lines
print_affected before after =
    let names = union before.hosts after.hosts in
    (changed_hosts before after names, (length names, host_lines before after names))

-- joinPath
unfoldable pub join_path : Text → Text → Text
join_path prefix key = if prefix == [] then key else prefix ++ bytes "." ++ key

-- The loop of flatten over what it makes of one value.
unfoldable pub put_each : Map Text Text → Map Text Text → Map Text Text
unfolding put
put_each [] out = out
put_each ((name, value) ∷ rest) out = put_each rest (put name value out)

-- flatten. A map's entries stand in the order of their keys.
unfoldable mutual
  unfolding join_path put_each render

  pub flatten : Text → Value → Map Text Text
  flatten prefix (map fields p) = flatten_fields prefix fields []
  flatten prefix (scalar text q p) = (prefix, text) ∷ []
  flatten prefix (list items p) = (prefix, render (list items p)) ∷ []

  pub flatten_fields : Text → Fields → Map Text Text → Map Text Text
  flatten_fields prefix end out = out
  flatten_fields prefix (field key v rest) out =
      flatten_fields prefix rest (put_each (flatten (join_path prefix key) v) out)

-- The keys of two maps, those of the first map first and then the others.
unfoldable pub both_keys {ℓ} : {V : Type ℓ} → Map Text V → Map Text V → List Text
unfolding keys unseen sort_by
both_keys old new = sort_by text_lt (unseen (keys old) (keys new))

-- The lines of diffFields for one name.
unfoldable pub field_line : Text → Map Text Text → Map Text Text → Text → List Text
unfolding lookup
field_line ref old_fields new_fields name =
    let start = bytes "  " ++ ref ++ (9 ∷ name) in
    elim (lookup name old_fields) [
      | none ↦ (start ++ (9 ∷ bytes "set to ") ++ get_or new_fields name []) ∷ []
      | some old ↦ elim (lookup name new_fields) [
        | none ↦ (start ++ (9 ∷ bytes "no longer set")) ∷ []
        | some new ↦ if old == new then [] else (start ++ (9 ∷ old) ++ bytes " -> " ++ new) ∷ []
      ]
    ]

unfoldable pub field_lines : Text → Map Text Text → Map Text Text → List Text → List Text
unfolding field_line
field_lines ref old new [] = []
field_lines ref old new (name ∷ names) =
    field_line ref old new name ++ field_lines ref old new names

-- diffFields
unfoldable pub diff_desired : Text → Resource → Resource → List Text
unfolding flatten both_keys field_lines
diff_desired ref before after =
    let old = flatten [] before.desired in
    let new = flatten [] after.desired in field_lines ref old new (both_keys old new)

unfoldable pub index_resources : List Resource → Map Text Resource → Map Text Resource
unfolding put ref_string
index_resources [] out = out
index_resources (resource ∷ resources) out =
    index_resources resources (put (ref_string resource.ref) resource out)

-- byRef; an absent manifest has no resources
unfoldable pub by_ref : Option Manifest → Map Text Resource
unfolding index_resources
by_ref none = []
by_ref (some m) = index_resources m.resources []

-- The lines of diffManifests for one reference, which is a key of one of the maps.
unfoldable pub resource_lines : Map Text Resource → Map Text Resource → Text → List Text
unfolding lookup diff_desired
resource_lines old_resources new_resources ref =
    let start = bytes "  " ++ ref in
    elim (lookup ref old_resources) [
      | none ↦ elim (lookup ref new_resources) [
        | none ↦ []
        | some new ↦ (start ++ (9 ∷ bytes "added") ++ (9 ∷ join (bytes ", ") new.layers)) ∷ []
      ]
      | some old ↦ elim (lookup ref new_resources) [
        | none ↦ (start ++ (9 ∷ bytes "removed") ++ (9 ∷ join (bytes ", ") old.layers)) ∷ []
        | some new ↦ diff_desired ref old new
      ]
    ]

unfoldable pub manifest_lines : Map Text Resource → Map Text Resource → List Text → List Text
unfolding resource_lines
manifest_lines old new [] = []
manifest_lines old new (ref ∷ refs) = resource_lines old new ref ++ manifest_lines old new refs

-- diffManifests
unfoldable pub diff_manifests : Option Manifest → Option Manifest → List Text
unfolding by_ref both_keys manifest_lines
diff_manifests before after =
    let old = by_ref before in let new = by_ref after in manifest_lines old new (both_keys old new)

-- printResourceDiff: the head line and the others, before they are aligned; `none` is an error
unfoldable pub print_resource_diff : Text → Snapshot → Snapshot → Option (Text × List Text)
unfolding has diff_manifests get_or
print_resource_diff host before after =
    if not (has host before.manifests || has host after.manifests)
    then none
    else some (
      host
          ++ bytes "    "
          ++ get_or before.digests host []
          ++ bytes " -> "
          ++ get_or after.digests host [],
      diff_manifests (lookup host before.manifests) (lookup host after.manifests),
    )
