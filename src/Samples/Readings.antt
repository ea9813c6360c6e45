-- ===== src/Samples/Readings.antt =====
-- A file whose mode differs from the declared one, and whose owner nothing can correct.
use datum.Prelude.{◌≡◌, ◌==◌, refl, true, false, select, [], ◌∷◌}
use datum.Text.{text_eq, text_beq, bytes}
use datum.Document.Value.{IsKeyed, Value, Fields, field_at, end, field, fresh, plain}
use datum.Provider.{Observation}
use datum.Plan.{compare}
use datum.Plan.Compared.{expected, compare-expected}
use datum.Samples.Data.{config}

abbrev owned : Fields
owned =
    field (bytes "mode") (plain (bytes "0644")) (field (bytes "owner") (plain (bytes "web")) end)

abbrev declared : Value
declared = Value.map owned fresh

abbrev reading : Observation
reading = record {
  exists = true;
  found = [];
  fields = (bytes "mode", plain (bytes "0600")) ∷ (bytes "owner", plain (bytes "root")) ∷ [];
  unobservable = [];
  uncorrectable = bytes "owner" ∷ [];
  desired = plain [];
}

declared_fields-IsKeyed : IsKeyed owned
unfolding field_at text_beq
declared_fields-IsKeyed = (refl, (refl, tt))

owner_named : (bytes "owner" == []) ≡ false
unfolding text_beq
owner_named = refl

compare-expected_example :
    select (λ d. d.name == bytes "owner") (compare config declared reading).fields
    ≡ expected config.type reading (bytes "owner") (field_at (bytes "owner") owned)
compare-expected_example =
    compare-expected config owned fresh reading (bytes "owner") declared_fields-IsKeyed owner_named
