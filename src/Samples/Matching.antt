-- ===== src/Samples/Matching.antt =====
-- An example matcher, and hosts that it selects and refuses.
use datum.Prelude.{◌≡◌, refl, true, false, some, List, [], ◌∷◌, ◌++◌, All, sort_by, any}
use datum.Map.{Map, lookup, get_or, has, keys}
use datum.Text.{Text, text_eq, bytes, text_beq}
use datum.Matcher.{Matcher, Reason, in_order, is_empty, terms, evaluate, validate}
use datum.Matcher.Evaluate.{selects, map_keys, evaluate-selects, evaluate-reasons}
use datum.Matcher.Contradictions.{is_fatal, validate-never}

-- Web hosts of the two regions that are not retired.
abbrev web : Matcher
web = record {
  labels = (bytes "role", bytes "web") ∷ [];
  one_of = (bytes "region", bytes "eu" ∷ bytes "us" ∷ []) ∷ [];
  none_of = [];
  has_keys = [];
  missing = bytes "retired" ∷ [];
}

abbrev host : Map Text Text
host = (bytes "region", bytes "eu") ∷ (bytes "role", bytes "web") ∷ []

abbrev reasons : List Reason
reasons =
    record { key = bytes "role"; value = bytes "web" }
    ∷ record { key = bytes "region"; value = bytes "eu" }
    ∷ []

evaluate-selects_example : (evaluate web host).0 ≡ selects web host
evaluate-selects_example = evaluate-selects web host

evaluate-host : evaluate web host ≡ (true, reasons)
unfolding evaluate is_empty terms keys sort_by lookup get_or has text_beq
evaluate-host = refl

evaluate-reasons_example :
    (map_keys reasons
      ≡ in_order (keys web.labels) ++ in_order (keys web.one_of) ++ in_order web.has_keys)
    × All (λ r. lookup r.key host ≡ some r.value) reasons
evaluate-reasons_example = evaluate-reasons web host reasons evaluate-host

-- A matcher that wants a label both present and absent.
abbrev torn : Matcher
torn = record web { missing = bytes "role" ∷ [] }

validate-torn : any is_fatal (validate torn) ≡ true
unfolding validate keys get_or text_beq
validate-torn = refl

validate-never_example : (evaluate torn host).0 ≡ false
validate-never_example = validate-never torn host validate-torn
