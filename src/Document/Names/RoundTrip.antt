-- ===== src/Document/Names/RoundTrip.antt =====
-- internal/document/names.go and document.go: references are read as they are printed.
use datum.Prelude.{
  ◌==◌, ==_iff, ℕ, ◌+◌, ◌-◌, ◌≡◌, ◌↔◌, refl, sym, ap, subst, ◌∙◌, inl, inr, Bool, true, false, not,
  ◌||◌, Bool-cases, Option-cases, none, some, some_inj, List, [], ◌∷◌, ◌++◌, append_assoc, all,
  contains, length, length-append, take, drop, drop_append, take_all, eqb, arith, if◌then◌else◌,
}
use datum.Text.{Text, text_eq, text_beq, index_byte, ends_with}
use datum.Text.Bytes.{
  lacks, index_byte-lacks, index_byte_parts, ends_with_last, ends_with_parts, ends_with-append,
  after_byte,
}
use datum.Document.Reference.{Reference, ref_string}
use datum.Document.Names.{resource_types, known_type, valid_name, parse_reference}

contains-all :
    (p : Text → Bool) (ts : List Text) (t : Text)
    → all p ts ≡ true
    → contains ts t ≡ true
    → p t ≡ true
unfolding contains
contains-all p [] t h k = absurd (ground (arith, k))
contains-all p (u ∷ ts) t h k = elim (Bool-cases (u == t)) [
  | inl e ↦ subst (λ (x : Text). p x ≡ true) ((==_iff u t).0 e) (ground (arith, h))
  | inr e ↦ contains-all p ts t (ground (arith, h)) (ground (arith, k, e))
]

-- No type has a bracket in its name, and none is empty.
known_type-lacks : (t : Text) → known_type t ≡ true → lacks b'[' t ≡ true
unfolding known_type
known_type-lacks t h = contains-all (lacks b'[') resource_types t refl h

known_type-not_empty : (t : Text) → known_type t ≡ true → not (t == []) ≡ true
unfolding known_type text_beq
known_type-not_empty t h = contains-all (λ u. not (u == [])) resource_types t refl h

-- The name between the bracket at `i` and the last byte.
abbrev name_after : Text → ℕ → Text
name_after s i = take (length (drop (i + 1) s) - 1) (drop (i + 1) s)

-- The reading of a text, from where the bracket stands.
read_at :
    (s : Text) (i : ℕ)
    → index_byte s b'[' ≡ some i
    → parse_reference s ≡ (
        if eqb i 0 || not (ends_with s b']')
        then none
        else if not (known_type (take i s)) || not (valid_name (name_after s i))
        then none
        else some (record { type = take i s; name = name_after s i }))
unfolding parse_reference
read_at s i at = rw (at, parse_reference) refl

two_tests :
    (a b c d : Bool) (x y : Reference)
    → (if a || not b then none else if not c || not d then none else some x) ≡ some y
    → (b ≡ true) × (c ≡ true) × (d ≡ true) × (x ≡ y)
two_tests true b c d x y h = cc
two_tests false false c d x y h = cc
two_tests false true false d x y h = cc
two_tests false true true false x y h = cc
two_tests false true true true x y h = (refl, refl, refl, some_inj h)

pass_tests :
    (a b c d : Bool) (x : Reference)
    → a ≡ false
    → b ≡ true
    → c ≡ true
    → d ≡ true
    → (if a || not b then none else if not c || not d then none else some x) ≡ some x
pass_tests a b c d x ha hb hc hd = rw (ha, hb, hc, hd) refl

no_bracket : (s : Text) → index_byte s b'[' ≡ none → parse_reference s ≡ none
unfolding parse_reference
no_bracket s e = rw (e, parse_reference) refl

ref_string-parts : (r : Reference) → ref_string r ≡ r.type ++ b'[' ∷ (r.name ++ b']' ∷ [])
unfolding ref_string
ref_string-parts r = simp append_assoc refl

-- Whatever ParseReference reads is the print of the reference that it gives.
read-ref_string :
    (s : Text) (r : Reference)
    → parse_reference s ≡ some r
    → (known_type r.type ≡ true) × (valid_name r.name ≡ true) × (ref_string r ≡ s)
read-ref_string s r h = elim (Option-cases (index_byte s b'[')) [
  | inl e ↦ absurd (ground (arith, h, no_bracket s e))
  | inr (i, e) ↦
      let tests = two_tests _ _ _ _ _ r (sym (read_at s i e) ∙ h) in
      let parts = index_byte_parts s b'[' i e in
      let type_part : take i s ≡ r.type = ap (λ (x : Reference). x.type) tests.3 in
      let name_part : name_after s i ≡ r.name = ap (λ (x : Reference). x.name) tests.3 in
      let after = drop (i + 1) s in
      let ends : ends_with after b']' ≡ true = after_byte b'[' after b']' refl (
        sym (ends_with-append (take i s) after b'[' b']')
        ∙ (ap (λ (t : Text). ends_with t b']') parts ∙ tests.0)) in
      (
        subst (λ (t : Text). known_type t ≡ true) type_part tests.1,
        subst (λ (t : Text). valid_name t ≡ true) name_part tests.2,
        ref_string-parts r
            ∙ (ap (λ (t : Text). t ++ b'[' ∷ (r.name ++ b']' ∷ [])) (sym type_part)
                ∙ (ap (λ (t : Text). take i s ++ b'[' ∷ (t ++ b']' ∷ [])) (sym name_part)
                    ∙ (ap (λ (t : Text). take i s ++ b'[' ∷ t) (ends_with_parts after b']' ends)
                        ∙ parts))),
      )
]

not_empty-length : (t : Text) → not (t == []) ≡ true → eqb (length t) 0 ≡ false
unfolding text_beq
not_empty-length [] h = absurd (ground (arith, h))
not_empty-length (c ∷ t) h = ground arith

name_after-printed : (t n : Text) → name_after (t ++ b'[' ∷ (n ++ b']' ∷ [])) (length t) ≡ n
name_after-printed t n =
    let rest = n ++ b']' ∷ [] in
    let short : length rest - 1 ≡ length n = omega (arith, length-append n (b']' ∷ [])) in
    rw (drop_append t (b'[' ∷ rest) 1, short) (take_all n (b']' ∷ []))

-- A reference of a known type with a valid name is read from its print.
read-printed :
    (r : Reference)
    → known_type r.type ≡ true
    → valid_name r.name ≡ true
    → parse_reference (ref_string r) ≡ some r
read-printed r known valid =
    let rest = r.name ++ b']' ∷ [] in
    let s = r.type ++ b'[' ∷ rest in
    let at = index_byte-lacks r.type rest b'[' (known_type-lacks r.type known) in
    let type_part = take_all r.type (b'[' ∷ rest) in
    let name_part = name_after-printed r.type r.name in
    let same : ◌≡◌ {A = Reference}
        (record { type = take (length r.type) s; name = name_after s (length r.type) }) r =
      rw (type_part, name_part) refl in
    let ends : ends_with s b']' ≡ true =
      ends_with-append r.type rest b'[' b']' ∙ ends_with_last (b'[' ∷ r.name) b']' in
    ap parse_reference (ref_string-parts r)
    ∙ (read_at s (length r.type) at
        ∙ (pass_tests _ _ _ _ _ (not_empty-length r.type (known_type-not_empty r.type known)) ends
              (ap known_type type_part ∙ known) (ap valid_name name_part ∙ valid)
            ∙ ap (λ (x : Reference). some x) same))

-- ParseReference reads exactly what Reference.String prints for a known type and a valid name: it
-- gives a reference for a text if and only if the type is known, the name is valid, and the text is
-- that reference's print.
pub parse_reference-ref_string :
    (s : Text) (r : Reference)
    → (parse_reference s ≡ some r)
      ↔ ((known_type r.type ≡ true) × (valid_name r.name ≡ true) × (ref_string r ≡ s))
parse_reference-ref_string s r =
    (read-ref_string s r, λ h. sym (ap parse_reference h.2) ∙ read-printed r h.0 h.1)
