-- ===== src/Source.antt =====
-- internal/source/source.go: which revision a pass reconciles.
pub mod Proven
pub mod Trusted
use datum.Prelude.{
  Eq, ◌==◌, ℕ, Bool, true, false, not, ◌&&◌, ◌||◌, Option, none, some, is_some, List, [], ◌∷◌, ◌++◌,
  any, take, if◌then◌else◌,
}
use datum.Map.{Map, get_or, put}
use datum.Text.{Text, text_eq, bytes, index}
use datum.Revision
use datum.Revision.{Stored, ReadResult, first_contact, accepted, read}
use datum.Git.{
  Answer, answered, broken, RunResult, Signature, no_signature, Tag, require_complete_history,
  resolve_ref, has_commit, is_ancestor, verify_commit, verify_tag, annotated_tags, select_tag,
}

-- Refusal, as far as this package gives them
pub data SourceRefusal : Type 0 where
  unsigned untrusted_signer ambiguous_tag not_descendant : SourceRefusal

-- An error: an ordinary one, or a RefusedError with the revision that was refused.
pub data SourceError : Type 0 where
  ordinary : Text → SourceError
  refused : SourceRefusal → Text → Text → SourceError

-- A result, or the error.
pub data Attempt {ℓ} (A : Type ℓ) : Type ℓ where
  done : A → Attempt A
  failed : SourceError → Attempt A

-- config.Require, where other values are kept as they are
pub data Require : Type 0 where
  require_none signed_commit signed_tag : Require
  other : Text → Require

-- The fields of config.Config that this package reads; `descendant` is Trust.Descendant.
pub record SourceConfig : Type 0 where
  pub branch : Text
  pub require : Require
  pub signers : Text
  pub tag_pattern : Text
  pub descendant : Bool

-- Selection, without the directories that the tree was written to
pub record Selection : Type 0 where
  pub revision : Text
  pub tag : Text
  pub signature : Signature
  pub accepted_before : Text
  pub first_contact : Bool
  pub fell_back : Bool
  pub candidate : Text
  pub cause : Option SourceError

-- What candidate returns.
pub record Candidate : Type 0 where
  pub rev : Text
  pub tag : Text
  pub signature : Signature

-- isUntrusted
unfoldable pub is_untrusted : Text → Bool
unfolding index
is_untrusted message =
    any (λ phrase. is_some (index phrase message))
      (bytes "not in the trusted signers" ∷ bytes "revoked" ∷ bytes "expired" ∷ [])

-- signatureRefusal
unfoldable pub signature_refusal : Text → Text → SourceError
unfolding is_untrusted
signature_refusal rev err =
    refused (if is_untrusted err then untrusted_signer else unsigned) rev err

-- short
abbrev pub short : Text → Text
short rev = take 7 rev

-- What the package calls: git in the clone, the verb %q, the regular expressions of VerifyTag, the
-- results of EnsureClone, Fetch and of writing out a revision's tree, where `none` is success, and
-- the text of an ambiguity.
pub record World : Type 0 where
  pub git : List Text → Answer RunResult
  pub quoted : Text → Text
  pub read_stderr : Text → Signature
  pub clone_dir : Text
  pub clone_error : Option Text
  pub fetch_error : Option Text
  pub checkout_error : Text → Option Text
  pub ambiguity : List Tag → Text

module _ (cfg : SourceConfig) (w : World) where
  -- origin/ and the branch
  abbrev pub tip : Text
  tip = bytes "origin/" ++ cfg.branch

  -- The tests in the loop of signedTag; `none` is `continue`.
  unfoldable pub candidate_tag : Option Text → Tag → Option Signature
  unfolding verify_tag is_ancestor
  candidate_tag before tag = elim (verify_tag w.quoted w.git w.read_stderr tag.name cfg.signers) [
    | broken err ↦ none
    | answered signature ↦ elim (is_ancestor w.quoted w.git tag.commit tip) [
      | broken err ↦ none
      | answered reachable ↦ if not reachable then none else elim before [
        | none ↦ some signature
        | some rev ↦ elim (is_ancestor w.quoted w.git rev tag.commit) [
          | broken err ↦ none
          | answered newer ↦ if newer then some signature else none
        ]
      ]
    ]
  ]

  -- The loop of signedTag.
  unfoldable pub candidate_tags : Option Text → List Tag → List Tag
  unfolding candidate_tag
  candidate_tags before [] = []
  candidate_tags before (tag ∷ tags) =
      let rest = candidate_tags before tags in
      if is_some (candidate_tag before tag) then tag ∷ rest else rest

  unfoldable pub signatures_of : Option Text → List Tag → Map Text Signature → Map Text Signature
  unfolding candidate_tag put
  signatures_of before [] known = known
  signatures_of before (tag ∷ tags) known =
      signatures_of before tags (elim (candidate_tag before tag) [
        | none ↦ known
        | some signature ↦ put tag.name signature known
      ])

  -- What signedTag makes of the answer of SelectTag.
  unfoldable pub chosen : List Tag → Map Text Signature → Answer (Option Tag) → Attempt Candidate
  unfolding get_or
  chosen candidates known (broken err) = failed (refused ambiguous_tag [] err)
  chosen candidates known (answered none) =
      failed (refused ambiguous_tag [] (w.ambiguity candidates))
  chosen candidates known (answered (some tag)) =
      done (record {
        rev = tag.commit;
        tag = tag.name;
        signature = get_or known tag.name no_signature;
      })

  -- The end of signedTag, from the candidates.
  unfoldable pub choose_from : List Tag → Map Text Signature → Attempt Candidate
  unfolding chosen select_tag
  choose_from [] known = failed (
      ordinary (
        bytes "no signed tag matching "
        ++ (w.quoted cfg.tag_pattern
            ++ bytes " is a candidate, so there is nothing newer to apply")))
  choose_from (first ∷ rest) known =
      chosen (first ∷ rest) known (select_tag w.quoted w.git (first ∷ rest))

  -- signedTag, from the tags that exist; it reads the accepted revision again, which nothing has
  -- changed since
  unfoldable pub choose_tag : Option Text → List Tag → Attempt Candidate
  unfolding candidate_tags signatures_of choose_from
  choose_tag before tags = choose_from (candidate_tags before tags) (signatures_of before tags [])

  -- candidate under signed-commit, from the tip of the branch
  unfoldable pub verified_tip : Text → Attempt Candidate
  unfolding verify_commit signature_refusal
  verified_tip rev = elim (verify_commit w.quoted w.git rev cfg.signers) [
    | broken err ↦ failed (signature_refusal rev err)
    | answered signature ↦ done (record { rev = rev; tag = []; signature = signature })
  ]

  -- candidate under require: none, from the answer for the tip
  abbrev pub plain_tip : Answer Text → Attempt Candidate
  plain_tip (broken err) = failed (ordinary err)
  plain_tip (answered rev) = done (record { rev = rev; tag = []; signature = no_signature })

  -- candidate, of trust.require
  unfoldable pub candidate_under : Require → Option Text → Attempt Candidate
  unfolding resolve_ref verified_tip annotated_tags choose_tag
  candidate_under require_none before = plain_tip (resolve_ref w.quoted w.git tip)
  candidate_under signed_commit before = elim (resolve_ref w.quoted w.git tip) [
    | broken err ↦ failed (ordinary err)
    | answered rev ↦ verified_tip rev
  ]
  candidate_under signed_tag before = elim (annotated_tags w.quoted w.git cfg.tag_pattern) [
    | broken err ↦ failed (ordinary err)
    | answered tags ↦ choose_tag before tags
  ]
  candidate_under (other value) before =
      failed (ordinary (bytes "unknown trust.require " ++ w.quoted value))

  -- candidate
  unfoldable pub find_candidate : Option Text → Attempt Candidate
  unfolding candidate_under
  find_candidate before = candidate_under cfg.require before

  -- checkCurrent against an accepted revision; `none` is success. The messages are cut short.
  unfoldable pub check_order : Text → Text → Option SourceError
  unfolding has_commit is_ancestor
  check_order rev before = elim (has_commit w.quoted w.git before) [
    | broken err ↦ some (ordinary err)
    | answered present ↦
        if not present
        then some (refused not_descendant rev (bytes "cannot verify revision ordering"))
        else elim (is_ancestor w.quoted w.git before rev) [
          | broken err ↦ some (ordinary err)
          | answered descends ↦
              if not descends
              then some (
                  refused not_descendant rev (
                    short rev
                    ++ (bytes " does not descend from the accepted revision " ++ short before)))
              else none
        ]
  ]

  -- checkCurrent
  unfoldable pub check_current : Text → Option Text → Option SourceError
  unfolding check_order
  check_current rev none = none
  check_current rev (some before) = if not cfg.descendant then none else check_order rev before

  abbrev pub start : Option Text → Selection
  start before = record {
    revision = [];
    tag = [];
    signature = no_signature;
    accepted_before = elim before [ none ↦ [] | some rev ↦ rev ];
    first_contact = not (is_some before);
    fell_back = false;
    candidate = [];
    cause = none;
  }

  abbrev pub refused_revision : SourceError → Text
  refused_revision (ordinary err) = []
  refused_revision (refused reason rev err) = rev

  -- fallback; where the accepted revision cannot be written out either, its error is wrapped around
  -- the cause
  unfoldable pub fall_back : Option Text → SourceError → Attempt Selection
  fall_back none cause = failed cause
  fall_back (some before) cause = elim (w.checkout_error before) [
    | some err ↦ failed cause
    | none ↦ done (record (start (some before)) {
      revision = before;
      fell_back = true;
      candidate = refused_revision cause;
      cause = some cause;
    })
  ]

  -- Select, from the candidate on
  unfoldable pub select_candidate : Option Text → Candidate → Attempt Selection
  unfolding check_current fall_back
  select_candidate before c = elim (check_current c.rev before) [
    | some cause ↦ fall_back before cause
    | none ↦ elim (w.checkout_error c.rev) [
      | some err ↦ fall_back before (ordinary err)
      | none ↦
          done (record (start before) { revision = c.rev; tag = c.tag; signature = c.signature })
    ]
  ]

  -- Select, from the result of candidate on
  unfoldable pub select_found : Option Text → Attempt Candidate → Attempt Selection
  unfolding fall_back select_candidate
  select_found before (failed cause) = fall_back before cause
  select_found before (done c) = select_candidate before c

  -- Select, after the fetch
  unfoldable pub select_fetched : Option Text → Attempt Selection
  unfolding require_complete_history find_candidate select_found fall_back
  select_fetched before = elim (require_complete_history w.quoted w.git w.clone_dir) [
    | some err ↦ fall_back before (ordinary err)
    | none ↦ select_found before (find_candidate before)
  ]

  -- Select, after the accepted revision is read
  unfoldable pub select_after : Option Text → Attempt Selection
  unfolding select_fetched fall_back
  select_after before = elim w.clone_error [
    | some err ↦ fall_back before (ordinary err)
    | none ↦ elim w.fetch_error [
      | some err ↦ fall_back before (ordinary err)
      | none ↦ select_fetched before
    ]
  ]

  -- Select
  unfoldable pub select_revision : Stored → Attempt Selection
  unfolding read select_after
  select_revision stored = elim (read stored) [
    | Revision.failed err ↦ failed (ordinary (bytes "the accepted revision cannot be read"))
    | first_contact ↦ select_after none
    | accepted rev ↦ select_after (some rev)
  ]
