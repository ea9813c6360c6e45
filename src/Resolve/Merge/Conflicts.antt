-- ===== src/Resolve/Merge/Conflicts.antt =====
-- internal/resolve/merge.go: which conflicts a merge of two maps reports, and under which paths.
use datum.Prelude.{
  ◌==◌, ◌≡◌, refl, sym, ap, ◌∙◌, inl, inr, Bool, true, false, ◌&&◌, Option, Option-cases, none,
  some, List, [], ◌∷◌, ◌++◌, arith,
}
use datum.Text.{Text, text_eq, join}
use datum.Document.Value.{
  IsKeyed, Value, Fields, Provenance, end, field, scalar, list, map, field_at, lookup_step,
}
use datum.Resolve.Merge.{
  Contribution, Conflict, Precedences, stamp, join_field, merge, merge_fields,
}
use datum.Resolve.Merge.ByKey.{merged_at, merge-field_at, next_out}
use datum.Resolve.Merge.Winner.{merge-IsSettled}
use datum.Resolve.Merge.Reported.{
  dotted, alike_values, alike_fields, AllKeyed, KeyedFields, reported, reported_fields,
  join_field-dotted, reported_fields-cons, reported_fields-next_out, alike_at, alike_fields-cons,
  alike_fields-put,
}

-- What the round for one key reports.
abbrev round_conflicts :
    Precedences → Text → Text → Value → Contribution → Option Value → List Conflict
round_conflicts precedences path key child from none = []
round_conflicts precedences path key child from (some existing) =
    (merge precedences (join_field path key) existing child from).1

merge_fields-conflicts :
    (precedences : Precedences) (path : Text) (out : Fields) (key : Text) (child : Value)
    (rest : Fields) (from : Contribution)
    → (merge_fields precedences path out (field key child rest) from).1
      ≡ round_conflicts precedences path key child from (field_at key out)
        ++ (merge_fields precedences path
            (next_out precedences path from key child out (field_at key out))
            rest
            from).1
unfolding merge_fields
merge_fields-conflicts precedences path out key child rest from =
    elim (Option-cases (field_at key out)) [
      | inl e ↦ ground (arith, e)
      | inr (existing, e) ↦ ground (arith, e)
    ]

alike_fields-next_out :
    (precedences : Precedences) (path key : Text) (child : Value) (from : Contribution)
    (out rest : Fields)
    → field_at key rest ≡ none
    → alike_fields (next_out precedences path from key child out (field_at key out)) rest
      ≡ alike_fields out rest
alike_fields-next_out precedences path key child from out rest h =
    elim (Option-cases (field_at key out)) [
      | inl e ↦ rw e (alike_fields-put key (stamp from.layer child) out rest h)
      | inr (existing, e) ↦ rw e (
          alike_fields-put key (merge precedences (join_field path key) existing child from).0 out
            rest h)
    ]

∧-split : {a b : Bool} → (a && b) ≡ true → (a ≡ true) × (b ≡ true)
∧-split h = ground (arith, h)

ap2 {ℓ} : {A B C : Type ℓ} (f : A → B → C) {x y : A} {u v : B} → x ≡ y → u ≡ v → f x u ≡ f y v
ap2 f {x} {y} {u} {v} p q = ap (λ a. f a u) p ∙ ap (f y) q

module _ (precedences : Precedences) (from : Contribution) (root : Text)
    (named : (root == []) ≡ false) where
  mutual
    unfolding merge alike_values reported AllKeyed

    merge-conflicts :
        (keys : List Text) (old new : Value)
        → AllKeyed new
        → alike_values old new ≡ true
        → (merge precedences (dotted (root ∷ keys)) old new from).1
          ≡ reported precedences (root ∷ keys) old new from
    merge-conflicts keys (scalar text quoted p) new keyed h =
        (merge-IsSettled precedences (dotted (root ∷ keys)) (scalar text quoted p) new from h).3
    merge-conflicts keys (list items p) new keyed h =
        (merge-IsSettled precedences (dotted (root ∷ keys)) (list items p) new from h).3
    merge-conflicts keys (map olds p) (map news q) keyed h =
        merge_fields-reported keys olds news keyed h
    merge-conflicts keys (map olds p) (scalar text quoted q) keyed h = absurd (ground (arith, h))
    merge-conflicts keys (map olds p) (list items q) keyed h = absurd (ground (arith, h))

    merge_fields-reported :
        (keys : List Text) (out news : Fields)
        → KeyedFields news
        → alike_fields out news ≡ true
        → (merge_fields precedences (dotted (root ∷ keys)) out news from).1
          ≡ reported_fields precedences (root ∷ keys) out news from
    merge_fields-reported keys out end keyed h = refl
    merge_fields-reported keys out (field key child rest) keyed h =
        let path = dotted (root ∷ keys) in
        let next = next_out precedences path from key child out (field_at key out) in
        let both = ∧-split (sym (alike_fields-cons key child out rest) ∙ h) in
        merge_fields-conflicts precedences path out key child rest from
        ∙ ap2 (λ xs ys. xs ++ ys)
            (elim (Option-cases (field_at key out)) [
              | inl e ↦ rw e refl
              | inr (existing, e) ↦ rw e (
                  ap (λ (at : Text). (merge precedences at existing child from).1)
                    (join_field-dotted root keys key named)
                  ∙ merge-conflicts (keys ++ key ∷ []) existing child keyed.1
                      (sym (ap (λ o. alike_at o child) e) ∙ both.0))
            ])
            (merge_fields-reported keys next rest keyed.2
                (alike_fields-next_out precedences path key child from out rest keyed.0 ∙ both.1)
              ∙ reported_fields-next_out precedences from (root ∷ keys) path key child out rest
                  keyed.0)
        ∙ sym (reported_fields-cons precedences from (root ∷ keys) key child out rest)

KeyedFields-IsKeyed : (fields : Fields) → KeyedFields fields → IsKeyed fields
unfolding AllKeyed
KeyedFields-IsKeyed end h = tt
KeyedFields-IsKeyed (field key v rest) h = (h.0, KeyedFields-IsKeyed rest h.2)

-- What one key of the merged map holds, by what the two maps hold there.
unfoldable pub joined :
    Precedences → Text → Contribution → Option Value → Option Value → Option Value
joined precedences path from old none = old
joined precedences path from none (some child) = some (stamp from.layer child)
joined precedences path from (some existing) (some child) =
    some (merge precedences path existing child from).0

merged_at-joined :
    (precedences : Precedences) (root key : Text) (from : Contribution) (old new : Option Value)
    → (root == []) ≡ false
    → merged_at precedences root key from old new
      ≡ joined precedences (dotted (root ∷ key ∷ [])) from old new
unfolding merged_at joined join
merged_at-joined precedences root key from old none named = refl
merged_at-joined precedences root key from none (some child) named = refl
merged_at-joined precedences root key from (some existing) (some child) named =
    ap (λ (path : Text). some (merge precedences path existing child from).0)
      (join_field-dotted root [] key named)

-- Two maps merge key by key. A key of one alone keeps the old value or gets the new one with its layer
-- noted, and where both have it, it gets their two values merged. The conflicts that are reported are
-- those of each pair of values that are no maps, in the order of the new map, each under the path
-- that joins the name of the whole, which is not empty, and the keys that lead to the pair by dots.
-- The keys of each map are supposed to be distinct, and the two trees to be alike: a map meets only
-- a map, and no scalar meets a list of the same bytes.
pub merge-reported :
    (precedences : Precedences) (root : Text) (olds news : Fields) (p q : Provenance)
    (from : Contribution)
    → (root == []) ≡ false
    → AllKeyed (map news q)
    → alike_values (map olds p) (map news q) ≡ true
    → ((key : Text)
        → lookup_step key (merge precedences root (map olds p) (map news q) from).0
          ≡ joined precedences
              (dotted (root ∷ key ∷ []))
              from
              (field_at key olds)
              (field_at key news))
      × ((merge precedences root (map olds p) (map news q) from).1
          ≡ reported precedences (root ∷ []) (map olds p) (map news q) from)
unfolding AllKeyed join
merge-reported precedences root olds news p q from named keyed h = (
  λ key.
      merge-field_at precedences root olds news p q from key (KeyedFields-IsKeyed news keyed)
      ∙ merged_at-joined precedences root key from (field_at key olds) (field_at key news) named,
  merge-conflicts precedences from root named [] (map olds p) (map news q) keyed h,
)
