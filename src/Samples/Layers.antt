-- ===== src/Samples/Layers.antt =====
-- Two layers that set fields of one resource.
use datum.Prelude.{true, ◌==◌, ◌≡◌, refl, ◌||◌, false, List, [], ◌∷◌, ◌++◌, contains, IsDistinct}
use datum.Prelude.Int.{pos}
use datum.Text.{Text, text_eq, text_beq, bytes}
use datum.Document.Reference.{Reference, ref_eq}
use datum.Document.Value.{
  Value, Fields, Provenance, end, field, field_at, lookup_step, scalar, is_map, is_scalar,
}
use datum.Map.{lookup}
use datum.Document.Canonical.{render}
use datum.Resolve.Merge.{Contribution, Conflict, Precedences, merge, merge_refs}
use datum.Resolve.Merge.Refs.{merge_refs-contains}
use datum.Resolve.Merge.Reported.{AllKeyed, alike_values, dotted, reported}
use datum.Resolve.Merge.Conflicts.{joined, merge-reported}
use datum.Resolve.Merge.Winner.{alike, IsSettled, merge-IsSettled}
use datum.Samples.Data.{nginx, config, service}

abbrev by : Text → Provenance
by layer = record { from = layer; displaced = [] }

abbrev precedences : Precedences
precedences = (bytes "base", pos 0) ∷ (bytes "web", pos 10) ∷ []

abbrev web : Contribution
web = record { layer = bytes "web"; precedence = pos 10 }

-- The mode of the file by the base layer, and by the web layer.
abbrev base_mode : Value
base_mode = scalar (bytes "0644") false (by (bytes "base"))

abbrev web_mode : Value
web_mode = scalar (bytes "0600") false (by [])

abbrev base_fields : Fields
base_fields =
    field (bytes "mode") base_mode
      (field (bytes "path") (scalar (bytes "/c") false (by (bytes "base"))) end)

abbrev web_fields : Fields
web_fields =
    field (bytes "mode") web_mode (field (bytes "owner") (scalar (bytes "web") false (by [])) end)

abbrev map_conflicts : List Conflict → List Text
map_conflicts [] = []
map_conflicts (c ∷ cs) = c.at ∷ map_conflicts cs

-- Another layer of the same precedence as the first, which sets the mode differently.
abbrev rival : Contribution
rival = record { layer = bytes "rival"; precedence = pos 0 }

web_fields-AllKeyed : AllKeyed (Value.map web_fields (by []))
unfolding AllKeyed field_at text_beq
web_fields-AllKeyed = (refl, tt, (refl, tt, tt))

fields-alike : alike_values (Value.map base_fields (by [])) (Value.map web_fields (by [])) ≡ true
unfolding alike_values field_at text_beq render is_map is_scalar
fields-alike = refl

config_named : (bytes "File[config]" == []) ≡ false
unfolding text_beq
config_named = refl

-- One conflict, under the path of the mode.
conflict_path :
    map_conflicts
      (merge precedences
        (bytes "File[config]")
        (Value.map base_fields (by []))
        (Value.map web_fields (by []))
        rival).1
    ≡ bytes "File[config].mode" ∷ []
unfolding merge text_beq lookup
conflict_path = refl

merge-reported_example :
    ((key : Text)
      → lookup_step key
          (merge precedences
            (bytes "File[config]")
            (Value.map base_fields (by []))
            (Value.map web_fields (by []))
            rival).0
        ≡ joined precedences
            (dotted (bytes "File[config]" ∷ key ∷ []))
            rival
            (field_at key base_fields)
            (field_at key web_fields))
    × ((merge precedences
          (bytes "File[config]")
          (Value.map base_fields (by []))
          (Value.map web_fields (by []))
          rival).1
        ≡ reported precedences
            (bytes "File[config]" ∷ [])
            (Value.map base_fields (by []))
            (Value.map web_fields (by []))
            rival)
merge-reported_example =
    merge-reported precedences (bytes "File[config]") base_fields web_fields (by []) (by []) rival
      config_named web_fields-AllKeyed fields-alike

modes-alike : alike base_mode web_mode ≡ true
unfolding is_map is_scalar render text_beq
modes-alike = refl

merge-IsSettled_example :
    IsSettled precedences
      (bytes "mode")
      base_mode
      web_mode
      rival
      (merge precedences (bytes "mode") base_mode web_mode rival)
merge-IsSettled_example =
    merge-IsSettled precedences (bytes "mode") base_mode web_mode rival modes-alike

merge_refs-contains_example :
    IsDistinct (merge_refs (nginx ∷ config ∷ []) (config ∷ service ∷ []))
    × ((x : Reference)
        → contains (merge_refs (nginx ∷ config ∷ []) (config ∷ service ∷ [])) x
          ≡ (contains (nginx ∷ config ∷ []) x || contains (config ∷ service ∷ []) x))
    × ((new : List Reference) × (merge_refs (nginx ∷ config ∷ []) (config ∷ service ∷ [])
          ≡ merge_refs (nginx ∷ config ∷ []) [] ++ new))
merge_refs-contains_example = merge_refs-contains (nginx ∷ config ∷ []) (config ∷ service ∷ [])
