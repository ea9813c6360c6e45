-- ===== src/Source/Trusted.antt =====
-- internal/source/source.go: what is known of a revision that Select gives.
use datum.Prelude.{
  ◌≡◌, refl, sym, ap, ◌∙◌, inl, inr, Bool, true, false, not, ◌&&◌, ◌||◌, Bool-cases, Option-cases,
  Option, none, some, arith,
}
use datum.Text.{Text, text_eq}
use datum.Revision
use datum.Revision.{Stored, ReadResult, first_contact, accepted, read}
use datum.Git.{require_complete_history, has_commit, is_ancestor}
use datum.Source.{
  SourceError, Attempt, done, failed, SourceConfig, Selection, Candidate, World, candidate_under,
  find_candidate, check_order, check_current, fall_back, select_candidate, select_found,
  select_fetched, select_after, select_revision, ordinary,
}
use datum.Source.Proven.{is_yes, Answer-cases, proven_under, candidate_under-proven}

module _ (cfg : SourceConfig) (w : World) where
  -- Whether a revision is no downgrade from the accepted one, where that is asked for.
  unfoldable pub is_current : ReadResult → Text → Bool
  unfolding has_commit is_ancestor
  is_current (accepted before) rev =
      not cfg.descendant
      || (is_yes (has_commit w.quoted w.git before)
          && is_yes (is_ancestor w.quoted w.git before rev))
  is_current first_contact rev = true
  is_current (Revision.failed err) rev = false

  check_order-none :
      (rev before : Text)
      → check_order cfg w rev before ≡ none
      → (is_yes (has_commit w.quoted w.git before)
          && is_yes (is_ancestor w.quoted w.git before rev))
        ≡ true
  unfolding check_order
  check_order-none rev before h = elim (Answer-cases (has_commit w.quoted w.git before)) [
    | inl (err, e) ↦ absurd (ground (arith, h, e))
    | inr (present, e) ↦ elim (Answer-cases (is_ancestor w.quoted w.git before rev)) [
      | inl (err, k) ↦ absurd (ground (arith, h, e, k))
      | inr (descends, k) ↦ ground (arith, h, e, k)
    ]
  ]

  -- What Select knows of the accepted revision when it looks for a candidate.
  pub data IsRead (stored : Stored) : Option Text → Type 0 where
    nothing : read stored ≡ first_contact → IsRead stored none
    something : (rev : Text) → read stored ≡ accepted rev → IsRead stored (some rev)

  -- The two ways in which Select may end with a selection.
  pub data IsSelected (stored : Stored) (sel : Selection) : Type 0 where
    again : sel.fell_back ≡ true → read stored ≡ accepted sel.revision → IsSelected stored sel
    fresh :
        sel.fell_back ≡ false
        → proven_under cfg w cfg.require sel.revision sel.tag ≡ true
        → is_current (read stored) sel.revision ≡ true
        → IsSelected stored sel

  fall_back-IsSelected :
      (stored : Stored) (before : Option Text) (cause : SourceError) (sel : Selection)
      → IsRead stored before
      → fall_back cfg w before cause ≡ done sel
      → IsSelected stored sel
  unfolding fall_back
  fall_back-IsSelected stored before cause sel (nothing e) h = absurd (ground (arith, h))
  fall_back-IsSelected stored before cause sel (something rev e) h =
      elim (Option-cases (w.checkout_error rev)) [
        | inr (err, k) ↦ absurd (ground (arith, h, k))
        | inl k ↦
            let same : rev ≡ sel.revision = ground (arith, h, k) in
            again (ground (arith, h, k)) (e ∙ ap (λ (r : Text). accepted r) same)
      ]

  check_current-is_current :
      (stored : Stored) (before : Option Text) (rev : Text)
      → IsRead stored before
      → check_current cfg w rev before ≡ none
      → is_current (read stored) rev ≡ true
  unfolding check_current is_current
  check_current-is_current stored before rev (nothing e) h = rw e refl
  check_current-is_current stored before rev (something old e) h =
      elim (Bool-cases cfg.descendant) [
        | inl on ↦ rw e (ground (arith, check_order-none rev old (ground (arith, h, on))))
        | inr off ↦ rw e (ground (arith, off))
      ]

  select_candidate-IsSelected :
      (stored : Stored) (before : Option Text) (c : Candidate) (sel : Selection)
      → IsRead stored before
      → proven_under cfg w cfg.require c.rev c.tag ≡ true
      → select_candidate cfg w before c ≡ done sel
      → IsSelected stored sel
  unfolding select_candidate
  select_candidate-IsSelected stored before c sel known proven h =
      elim (Option-cases (check_current cfg w c.rev before)) [
        | inr (cause, e) ↦ fall_back-IsSelected stored before cause sel known (ground (arith, h, e))
        | inl e ↦ elim (Option-cases (w.checkout_error c.rev)) [
          | inr (err, k) ↦
              fall_back-IsSelected stored before (ordinary err) sel known (ground (arith, h, e, k))
          | inl k ↦
              let rev : c.rev ≡ sel.revision = ground (arith, h, e, k) in
              let tag : c.tag ≡ sel.tag = ground (arith, h, e, k) in
              fresh (ground (arith, h, e, k))
                (ap (λ (t : Text). proven_under cfg w cfg.require sel.revision t) (sym tag)
                  ∙ (ap (λ (r : Text). proven_under cfg w cfg.require r c.tag) (sym rev) ∙ proven))
                (ap (is_current (read stored)) (sym rev)
                  ∙ check_current-is_current stored before c.rev known e)
        ]
      ]

  select_found-IsSelected :
      (stored : Stored) (before : Option Text) (found : Attempt Candidate) (sel : Selection)
      → IsRead stored before
      → candidate_under cfg w cfg.require before ≡ found
      → select_found cfg w before found ≡ done sel
      → IsSelected stored sel
  unfolding select_found
  select_found-IsSelected stored before (failed cause) sel known e h =
      fall_back-IsSelected stored before cause sel known h
  select_found-IsSelected stored before (done c) sel known e h =
      select_candidate-IsSelected stored before c sel known
        (candidate_under-proven cfg w cfg.require before c e) h

  select_fetched-IsSelected :
      (stored : Stored) (before : Option Text) (sel : Selection)
      → IsRead stored before
      → select_fetched cfg w before ≡ done sel
      → IsSelected stored sel
  unfolding select_fetched find_candidate
  select_fetched-IsSelected stored before sel known h =
      elim (Option-cases (require_complete_history w.quoted w.git w.clone_dir)) [
        | inr (err, e) ↦
            fall_back-IsSelected stored before (ordinary err) sel known (ground (arith, h, e))
        | inl e ↦
            select_found-IsSelected stored before (candidate_under cfg w cfg.require before) sel
              known refl (ground (arith, h, e))
      ]

  select_after-IsSelected :
      (stored : Stored) (before : Option Text) (sel : Selection)
      → IsRead stored before
      → select_after cfg w before ≡ done sel
      → IsSelected stored sel
  unfolding select_after
  select_after-IsSelected stored before sel known h = elim (Option-cases w.clone_error) [
    | inr (err, e) ↦
        fall_back-IsSelected stored before (ordinary err) sel known (ground (arith, h, e))
    | inl e ↦ elim (Option-cases w.fetch_error) [
      | inr (err, k) ↦
          fall_back-IsSelected stored before (ordinary err) sel known (ground (arith, h, e, k))
      | inl k ↦ select_fetched-IsSelected stored before sel known (ground (arith, h, e, k))
    ]
  ]

  -- What Select gives is safe to reconcile. Either it is the accepted revision once more, or it is
  -- a fresh one that passed what trust.require asks: under none the tip of the branch, under
  -- signed-commit the tip as a commit that git verifies, and under signed-tag a commit of the branch
  -- on which an annotated tag of the pattern stands that git verifies. If a revision was accepted before
  -- and the configuration asks for descendants, git has that revision and says that it is an ancestor of
  -- the fresh one.
  pub select_revision-IsSelected :
      (stored : Stored) (sel : Selection)
      → select_revision cfg w stored ≡ done sel
      → IsSelected stored sel
  unfolding select_revision
  select_revision-IsSelected stored sel h = at (read stored) refl
    where
      at : (r : ReadResult) → read stored ≡ r → IsSelected stored sel
      at (Revision.failed err) e = absurd (ground (arith, h, e))
      at first_contact e =
          select_after-IsSelected stored none sel (nothing e) (ground (arith, h, e))
      at (accepted rev) e =
          select_after-IsSelected stored (some rev) sel (something rev e) (ground (arith, h, e))
