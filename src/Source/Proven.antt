-- ===== src/Source/Proven.antt =====
-- internal/source/source.go: what is known of a candidate that Select considers.
use datum.Prelude.{
  ◌==◌, ==_refl, ==_iff, any, ◌≡◌, refl, sym, ap, ◌∙◌, ◌⊎◌, inl, inr, Bool, true, false, ◌&&◌,
  Bool-cases, and-true, Option, none, some, is_some, List, [], ◌∷◌, all, arith, if◌then◌else◌,
}
use datum.Map.{Map}
use datum.Text.{Text, text_eq}
use datum.Git.{
  Answer, answered, broken, Signature, Tag, resolve_ref, is_ancestor, verify_commit, verify_tag,
  annotated_tags, descends_from_all, select_from, select_tag,
}
use datum.Source.{
  done, Require, require_none, signed_commit, signed_tag, other, SourceConfig, Candidate, World,
  tip, candidate_tag, candidate_tags, chosen, choose_from, choose_tag, verified_tip,
  candidate_under,
}

-- An answer that is not an error, and one that is yes.
abbrev pub is_answered {ℓ} : {A : Type ℓ} → Answer A → Bool
is_answered (answered a) = true
is_answered (broken err) = false

abbrev pub is_yes : Answer Bool → Bool
is_yes (answered b) = b
is_yes (broken err) = false

-- Each answer with its equation.
pub Answer-cases {ℓ} :
    {A : Type ℓ} (o : Answer A) → ((err : Text) × (o ≡ broken err)) ⊎ ((a : A) × (o ≡ answered a))
Answer-cases (broken err) = inl (err, refl)
Answer-cases (answered a) = inr (a, refl)

all-kept :
    (p : Tag → Bool) (b : Bool) (t : Tag) (ts : List Tag)
    → p t ≡ b
    → all p ts ≡ true
    → all p (if b then t ∷ ts else ts) ≡ true
all-kept p true t ts e h = ground (arith, e, h)
all-kept p false t ts e h = h

-- One of the tags has the name and points at the commit.
abbrev pub named_in : List Tag → Text → Text → Bool
named_in tags rev name = any (λ t. t.name == name && t.commit == rev) tags

abbrev pub names : Text → Text → Answer (List Tag) → Bool
names rev name (broken err) = false
names rev name (answered tags) = named_in tags rev name

abbrev pub resolves_to : Text → Answer Text → Bool
resolves_to rev (broken err) = false
resolves_to rev (answered r) = r == rev

and-intro : {a b : Bool} → a ≡ true → b ≡ true → (a && b) ≡ true
and-intro h k = ground (arith, h, k)

all_weaker :
    (p q : Tag → Bool) (ts : List Tag)
    → ((t : Tag) → p t ≡ true → q t ≡ true)
    → all p ts ≡ true
    → all q ts ≡ true
all_weaker p q [] h k = refl
all_weaker p q (t ∷ ts) h k =
    let parts = and-true (p t) (all p ts) k in
    ground (arith, h t parts.0, all_weaker p q ts h parts.1)

all_named : (tags : List Tag) → all (λ t. named_in tags t.commit t.name) tags ≡ true
all_named [] = refl
all_named (t ∷ tags) =
    let later =
      all_weaker (λ u. named_in tags u.commit u.name) (λ u. named_in (t ∷ tags) u.commit u.name)
        tags (λ u h. ground (arith, h)) (all_named tags) in
    ground (arith, later, ==_refl t.name, ==_refl t.commit)

both :
    (p q : Tag → Bool) (ts : List Tag)
    → all p ts ≡ true
    → all q ts ≡ true
    → all (λ t. p t && q t) ts ≡ true
both p q [] h k = refl
both p q (t ∷ ts) h k = ground (arith, h, k, both p q ts)

module _ (cfg : SourceConfig) (w : World) where
  -- The tip of the branch is the revision.
  abbrev pub is_tip : Text → Bool
  is_tip rev = resolves_to rev (resolve_ref w.quoted w.git (tip cfg w))

  -- The repository has an annotated tag of the pattern, of this name, on the revision.
  abbrev pub is_tagged : Text → Text → Bool
  is_tagged rev tag = names rev tag (annotated_tags w.quoted w.git cfg.tag_pattern)

  -- What a value of trust.require asks of a revision and the tag that named it.
  unfoldable pub proven_under : Require → Text → Text → Bool
  unfolding verify_commit verify_tag is_ancestor
  proven_under require_none rev tag = is_tip rev
  proven_under signed_commit rev tag =
      is_answered (verify_commit w.quoted w.git rev cfg.signers) && is_tip rev
  proven_under signed_tag rev tag =
      is_answered (verify_tag w.quoted w.git w.read_stderr tag cfg.signers)
      && is_yes (is_ancestor w.quoted w.git rev (tip cfg w))
      && is_tagged rev tag
  proven_under (other value) rev tag = false

  candidate_tag-proven :
      (before : Option Text) (tag : Tag)
      → is_some (candidate_tag cfg w before tag) ≡ true
      → (is_answered (verify_tag w.quoted w.git w.read_stderr tag.name cfg.signers)
          && is_yes (is_ancestor w.quoted w.git tag.commit (tip cfg w)))
        ≡ true
  unfolding candidate_tag
  candidate_tag-proven before tag h =
      elim (Answer-cases (verify_tag w.quoted w.git w.read_stderr tag.name cfg.signers)) [
        | inl (err, e) ↦ absurd (ground (arith, h, e))
        | inr (signature, e) ↦
            elim (Answer-cases (is_ancestor w.quoted w.git tag.commit (tip cfg w))) [
              | inl (err, k) ↦ absurd (ground (arith, h, e, k))
              | inr (reachable, k) ↦ ground (arith, h, e, k)
            ]
      ]

  all-candidate_tags :
      (before : Option Text) (tags : List Tag)
      → all (λ tag. is_some (candidate_tag cfg w before tag)) (candidate_tags cfg w before tags)
        ≡ true
  unfolding candidate_tags
  all-candidate_tags before [] = refl
  all-candidate_tags before (tag ∷ tags) =
      all-kept (λ t. is_some (candidate_tag cfg w before t))
        (is_some (candidate_tag cfg w before tag)) tag (candidate_tags cfg w before tags) refl
        (all-candidate_tags before tags)

  select_from-all :
      (p : Tag → Bool) (candidates rest : List Tag) (t : Tag)
      → all p rest ≡ true
      → select_from w.quoted w.git candidates rest ≡ answered (some t)
      → p t ≡ true
  unfolding select_from
  select_from-all p candidates [] t h e = absurd (ground (arith, e))
  select_from-all p candidates (c ∷ rest) t h e =
      elim (Answer-cases (descends_from_all w.quoted w.git c candidates)) [
        | inl (err, k) ↦ absurd (ground (arith, e, k))
        | inr (ok, k) ↦ elim (Bool-cases ok) [
          | inl good ↦ ground (arith, h, e, k, good)
          | inr bad ↦
              select_from-all p candidates rest t (and-true (p c) (all p rest) h).1
                (ground (arith, e, k, bad))
        ]
      ]

  -- SelectTag gives one of the candidates.
  select_tag-all :
      (p : Tag → Bool) (candidates : List Tag) (t : Tag)
      → all p candidates ≡ true
      → select_tag w.quoted w.git candidates ≡ answered (some t)
      → p t ≡ true
  unfolding select_tag
  select_tag-all p [] t h e = absurd (ground (arith, e))
  select_tag-all p (c ∷ []) t h e = ground (arith, h, e)
  select_tag-all p (c ∷ d ∷ rest) t h e = select_from-all p (c ∷ d ∷ rest) (c ∷ d ∷ rest) t h e

  chosen-tag :
      (p : Text → Text → Bool) (candidates : List Tag) (known : Map Text Signature)
      (o : Answer (Option Tag)) (c : Candidate)
      → ((t : Tag) → o ≡ answered (some t) → p t.commit t.name ≡ true)
      → chosen cfg w candidates known o ≡ done c
      → p c.rev c.tag ≡ true
  unfolding chosen
  chosen-tag p candidates known (broken err) c h e = absurd (ground (arith, e))
  chosen-tag p candidates known (answered none) c h e = absurd (ground (arith, e))
  chosen-tag p candidates known (answered (some t)) c h e =
      let from : t.commit ≡ c.rev = ground (arith, e) in
      let named : t.name ≡ c.tag = ground (arith, e) in
      ap (λ (n : Text). p c.rev n) (sym named)
      ∙ (ap (λ (r : Text). p r t.name) (sym from) ∙ h t refl)

  choose_from-tag :
      (p : Text → Text → Bool) (candidates : List Tag) (known : Map Text Signature) (c : Candidate)
      → all (λ t. p t.commit t.name) candidates ≡ true
      → choose_from cfg w candidates known ≡ done c
      → p c.rev c.tag ≡ true
  unfolding choose_from
  choose_from-tag p [] known c h e = absurd (ground (arith, e))
  choose_from-tag p (first ∷ rest) known c h e =
      chosen-tag p (first ∷ rest) known (select_tag w.quoted w.git (first ∷ rest)) c
        (λ t k. select_tag-all (λ t. p t.commit t.name) (first ∷ rest) t h k) e

  -- The test of a tag that signedTag chooses.
  abbrev tag_proven : Text → Text → Bool
  tag_proven rev tag =
      is_answered (verify_tag w.quoted w.git w.read_stderr tag cfg.signers)
      && is_yes (is_ancestor w.quoted w.git rev (tip cfg w))

  all-candidate_tags_kept :
      (before : Option Text) (p : Tag → Bool) (tags : List Tag)
      → all p tags ≡ true
      → all p (candidate_tags cfg w before tags) ≡ true
  unfolding candidate_tags
  all-candidate_tags_kept before p [] h = refl
  all-candidate_tags_kept before p (tag ∷ tags) h =
      ground (arith, h, all-candidate_tags_kept before p tags)

  choose_tag-proven :
      (before : Option Text) (tags : List Tag) (c : Candidate)
      → choose_tag cfg w before tags ≡ done c
      → (tag_proven c.rev c.tag && named_in tags c.rev c.tag) ≡ true
  unfolding choose_tag
  choose_tag-proven before tags c h =
      choose_from-tag (λ rev tag. tag_proven rev tag && named_in tags rev tag)
        (candidate_tags cfg w before tags) _ c
        (both (λ t. tag_proven t.commit t.name) (λ t. named_in tags t.commit t.name)
          (candidate_tags cfg w before tags)
          (all_weaker (λ t. is_some (candidate_tag cfg w before t))
            (λ t. tag_proven t.commit t.name) (candidate_tags cfg w before tags)
            (candidate_tag-proven before) (all-candidate_tags before tags))
          (all-candidate_tags_kept before (λ t. named_in tags t.commit t.name) tags
            (all_named tags)))
        h

  verified_tip-proven :
      (rev : Text) (c : Candidate)
      → verified_tip cfg w rev ≡ done c
      → (is_answered (verify_commit w.quoted w.git c.rev cfg.signers) ≡ true) × (rev ≡ c.rev)
  unfolding verified_tip
  verified_tip-proven rev c h = elim (Answer-cases (verify_commit w.quoted w.git rev cfg.signers)) [
    | inl (err, e) ↦ absurd (ground (arith, h, e))
    | inr (signature, e) ↦
        let same : rev ≡ c.rev = ground (arith, h, e) in
        (
          ap (λ (r : Text). is_answered (verify_commit w.quoted w.git r cfg.signers)) (sym same)
              ∙ ap is_answered e,
          same,
        )
  ]

  is_tip-resolved :
      (rev c : Text)
      → resolve_ref w.quoted w.git (tip cfg w) ≡ answered rev
      → rev ≡ c
      → is_tip c ≡ true
  is_tip-resolved rev c e same = ap (resolves_to c) e ∙ (==_iff rev c).1 same

  is_tagged-named :
      (tags : List Tag) (rev tag : Text)
      → annotated_tags w.quoted w.git cfg.tag_pattern ≡ answered tags
      → named_in tags rev tag ≡ true
      → is_tagged rev tag ≡ true
  is_tagged-named tags rev tag e h = ap (names rev tag) e ∙ h

  pub candidate_under-proven :
      (require : Require) (before : Option Text) (c : Candidate)
      → candidate_under cfg w require before ≡ done c
      → proven_under require c.rev c.tag ≡ true
  unfolding candidate_under proven_under
  candidate_under-proven require_none before c h =
      elim (Answer-cases (resolve_ref w.quoted w.git (tip cfg w))) [
        | inl (err, e) ↦ absurd (ground (arith, h, e))
        | inr (rev, e) ↦
            let same : rev ≡ c.rev = ground (arith, h, e) in is_tip-resolved rev c.rev e same
      ]
  candidate_under-proven signed_commit before c h =
      elim (Answer-cases (resolve_ref w.quoted w.git (tip cfg w))) [
        | inl (err, e) ↦ absurd (ground (arith, h, e))
        | inr (rev, e) ↦
            let known = verified_tip-proven rev c (ground (arith, h, e)) in
            and-intro known.0 (is_tip-resolved rev c.rev e known.1)
      ]
  candidate_under-proven signed_tag before c h =
      elim (Answer-cases (annotated_tags w.quoted w.git cfg.tag_pattern)) [
        | inl (err, e) ↦ absurd (ground (arith, h, e))
        | inr (tags, e) ↦
            let known =
              and-true (tag_proven c.rev c.tag) (named_in tags c.rev c.tag)
                (choose_tag-proven before tags c (ground (arith, h, e))) in
            and-intro known.0 (is_tagged-named tags c.rev c.tag e known.1)
      ]
  candidate_under-proven (other value) before c h = absurd (ground (arith, h))
