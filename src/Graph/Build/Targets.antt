-- ===== src/Graph/Build/Targets.antt =====
-- internal/graph/graph.go: findDuplicateTargets leaves no two resources on one target.
use datum.Prelude.{
  ◌==◌, ==_iff, ==_refl, ◌≡◌, ◌≢◌, ◌≤◌, ◌<◌, refl, sym, ap, ◌∙◌, Bool, some, List, [], ◌∷◌, ◌++◌,
  select, length, length-sort_by, nil_of_length, count, count-append, Bool-cases, inl, inr, sort_by,
  arith, ltb,
}
use datum.Map.{Map, lookup, get_or, get_or-put, put, keys}
use datum.Text.{Text, text_eq, text_lt}
use datum.Document.Reference.{Reference, ref_eq}
use datum.Graph.{Node}
use datum.Graph.Build.{Nodes, target_key, by_target, report_duplicates, find_duplicate_targets}

abbrev Groups : Type 0
Groups = Map Text (List Reference)

by_target_mono :
    (a : Reference) (key : Text) (nodes : Nodes) (groups : Groups)
    → count a (get_or groups key []) ≤ count a (get_or (by_target nodes groups) key [])
unfolding by_target
by_target_mono a key [] groups = omega arith
by_target_mono a key ((ref, node) ∷ nodes) groups =
    let k = target_key ref node in
    let more = get_or groups k [] ++ ref ∷ [] in
    ground (
      arith,
      by_target_mono a key nodes (put k more groups),
      get_or-put k key more [] groups,
      ==_iff k key,
      count-append a (get_or groups k []) (ref ∷ []),
    )

-- Each node stands in the group of its target.
by_target-holds :
    (a : Reference) (n : Node) (nodes : Nodes) (groups : Groups)
    → lookup a nodes ≡ some n
    → 0 < count a (get_or (by_target nodes groups) (target_key a n) [])
unfolding by_target lookup count
by_target-holds a n [] groups h = cc
by_target-holds a n ((ref, node) ∷ nodes) groups h =
    let k = target_key ref node in
    let more = get_or groups k [] ++ ref ∷ [] in
    ground (
      arith,
      by_target-holds a n nodes (put k more groups),
      by_target_mono a k nodes (put k more groups),
      get_or-put k k more [] groups,
      ==_refl k,
      ==_iff ref a,
      ==_refl a,
      count-append a (get_or groups k []) (ref ∷ []),
    )

-- Two different elements make a list of two at least.
two_in :
    (a b : Reference) (xs : List Reference)
    → a ≢ b
    → 0 < count a xs
    → 0 < count b xs
    → 1 < length xs
unfolding count
two_in a b [] ne ha hb = absurd (omega arith)
two_in a b (x ∷ []) ne ha hb = ground (arith, ==_iff x a, ==_iff x b)
two_in a b (x ∷ y ∷ xs) ne ha hb = omega arith

abbrev is_shared : Text × List Reference → Bool
is_shared group = ltb 1 (length group.1)

none_shared :
    (groups : Groups) (key : Text)
    → select is_shared groups ≡ []
    → length (get_or groups key []) ≤ 1
unfolding get_or
none_shared [] key h = omega arith
none_shared ((k, refs) ∷ groups) key h = ground (arith, none_shared groups key)

no_keys : (groups : Groups) → keys groups ≡ [] → groups ≡ []
unfolding keys
no_keys [] h = refl
no_keys ((k, refs) ∷ groups) h = cc

no_report :
    (nodes : Nodes) (groups : Groups) (ks : List Text)
    → report_duplicates nodes groups ks ≡ []
    → ks ≡ []
unfolding report_duplicates
no_report nodes groups [] h = refl
no_report nodes groups (k ∷ ks) h = cc

no_duplicates :
    (nodes : Nodes) (key : Text)
    → find_duplicate_targets nodes ≡ []
    → length (get_or (by_target nodes []) key []) ≤ 1
unfolding find_duplicate_targets
no_duplicates nodes key h =
    let shared = select is_shared (by_target nodes []) in
    let sorted = no_report nodes (by_target nodes []) (sort_by text_lt (keys shared)) h in
    let empty : keys shared ≡ [] =
      nil_of_length _ (sym (length-sort_by text_lt (keys shared)) ∙ ap length sorted) in
    none_shared (by_target nodes []) key (no_keys shared empty)

-- If findDuplicateTargets reports nothing, one target of one type belongs to one resource.
pub one_owner :
    (nodes : Nodes) (a b : Reference) (na nb : Node)
    → find_duplicate_targets nodes ≡ []
    → lookup a nodes ≡ some na
    → lookup b nodes ≡ some nb
    → target_key a na ≡ target_key b nb
    → a ≡ b
one_owner nodes a b na nb h ha hb same = elim (Bool-cases (a == b)) [
  | inl e ↦ (==_iff a b).0 e
  | inr e ↦
      let group = get_or (by_target nodes []) (target_key a na) [] in
      let holds_b : 0 < count b group = rw same (by_target-holds b nb nodes [] hb) in
      absurd (
        omega (
          arith,
          no_duplicates nodes (target_key a na) h,
          two_in a b group (λ eq. ground (arith, ==_iff a b, eq)) (by_target-holds a na nodes [] ha)
              holds_b,
        ))
]
