-- ===== src/Samples/Changes.antt =====
-- Two revisions of a small fleet: one host changes, one comes and one goes.
use datum.Prelude.{◌≡◌, refl, [], ◌∷◌, ◌++◌}
use datum.Text.{text_eq, text_beq, text_lt, bytes}
use datum.Document.Value.{Value, map, field, end, plain, fresh}
use datum.Affected.{Snapshot, print_affected, flatten, field_lines, both_keys}

abbrev before : Snapshot
before = record {
  revision = bytes "old";
  digests = (bytes "web", bytes "1") ∷ (bytes "db", bytes "2") ∷ [];
  manifests = [];
  hosts = bytes "db" ∷ bytes "web" ∷ [];
}

abbrev after : Snapshot
after = record {
  revision = bytes "new";
  digests = (bytes "web", bytes "3") ∷ (bytes "mail", bytes "4") ∷ [];
  manifests = [];
  hosts = bytes "mail" ∷ bytes "web" ∷ [];
}

affected : print_affected before after ≡ (
  3,
  (
    3,
    (bytes "db" ++ (9 ∷ bytes "removed") ++ (9 ∷ bytes "2"))
        ∷ (bytes "mail" ++ (9 ∷ bytes "added") ++ (9 ∷ bytes "4"))
        ∷ (bytes "web" ++ (9 ∷ bytes "1") ++ bytes " -> " ++ bytes "3")
        ∷ [],
  ),
)
unfolding print_affected text_beq text_lt
affected = refl

abbrev old_desired : Value
old_desired =
    map
      (field (bytes "mode") (plain (bytes "0644"))
        (field (bytes "owner") (map (field (bytes "name") (plain (bytes "root")) end) fresh) end))
      fresh

abbrev new_desired : Value
new_desired = map (field (bytes "mode") (plain (bytes "0600")) end) fresh

flat :
    flatten [] old_desired ≡ (bytes "mode", bytes "0644") ∷ (bytes "owner.name", bytes "root") ∷ []
unfolding flatten text_beq
flat = refl

lines :
    field_lines
      (bytes "File[/a]")
      (flatten [] old_desired)
      (flatten [] new_desired)
      (both_keys (flatten [] old_desired) (flatten [] new_desired))
    ≡ (bytes "  File[/a]"
        ++ (9 ∷ bytes "mode")
        ++ (9 ∷ bytes "0644")
        ++ bytes " -> "
        ++ bytes "0600")
      ∷ (bytes "  File[/a]" ++ (9 ∷ bytes "owner.name") ++ (9 ∷ bytes "no longer set"))
      ∷ []
unfolding field_lines flatten both_keys text_beq text_lt
lines = refl
