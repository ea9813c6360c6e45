-- ===== src/Git.antt =====
-- internal/git: what the program reads from git's answers. `git` runs git in the clone, and
-- `quoted` is the verb %q.
use datum.Prelude.{
  ◌==◌, ℕ, Bool, true, false, not, ◌&&◌, ◌||◌, Option, none, some, is_some, List, [], ◌∷◌, ◌++◌,
  sort_by, eqb, if◌then◌else◌,
}
use datum.Text.{Text, text_eq, text_lt, bytes, starts_with, index, split, split_parts, join}
use datum.Text.Trim.{trim_space}

-- A value, or the text of an error.
pub data Answer {ℓ} (A : Type ℓ) : Type ℓ where
  answered : A → Answer A
  broken : Text → Answer A

-- run.Result, with the text that its Err gives
pub record RunResult : Type 0 where
  pub code : ℕ
  pub stdout : Text
  pub stderr : Text
  pub err_text : Text

-- Result.OK
abbrev pub is_ok : RunResult → Bool
is_ok result = eqb result.code 0

pub record Signature : Type 0 where
  pub key_id : Text
  pub signer : Text

abbrev pub no_signature : Signature
no_signature = record { key_id = []; signer = [] }

pub record Tag : Type 0 where
  pub name : Text
  pub commit : Text

-- What validRef looks for.
abbrev pub bad_parts : List Text
bad_parts =
    bytes " "
    ∷ (9 ∷ [])
    ∷ (10 ∷ [])
    ∷ bytes ".."
    ∷ bytes "^"
    ∷ bytes "~"
    ∷ bytes ":"
    ∷ bytes "?"
    ∷ bytes "*"
    ∷ bytes "["
    ∷ bytes "\\"
    ∷ bytes "@{"
    ∷ []

-- text
unfoldable pub text_of : Answer RunResult → Answer Text
unfolding trim_space
text_of (broken err) = broken err
text_of (answered result) =
    if not (is_ok result) then broken result.err_text else answered (trim_space result.stdout)

-- commitStatusError
unfoldable pub status_error : Text → Text → Option Text
status_error status rev =
    if status == bytes "G"
    then none
    else if status == bytes "U"
    then some (rev ++ bytes " is signed by a key that is not in the trusted signers")
    else if status == bytes "B"
    then some (rev ++ bytes " has a bad signature")
    else if status == bytes "X"
    then some (rev ++ bytes " is signed by an expired key")
    else if status == bytes "Y"
    then some (rev ++ bytes " is signed by a key that has expired")
    else if status == bytes "R"
    then some (rev ++ bytes " is signed by a revoked key")
    else if status == bytes "N" || status == []
    then some (rev ++ bytes " is not signed")
    else some (
        rev
        ++ bytes " could not be verified, which is usually a missing or unreadable signers file")

-- strings.TrimRight(s, "\n")
unfoldable pub trim_newlines : Text → Text
trim_newlines [] = []
trim_newlines (c ∷ s) =
    let rest = trim_newlines s in if eqb c 10 && rest == [] then [] else c ∷ rest

-- The fields of a line of `git log`, split at most twice.
unfoldable pub read_signature : List Text → Signature
unfolding trim_space join
read_signature [] = no_signature
read_signature (key ∷ []) = record { key_id = trim_space key; signer = [] }
read_signature (key ∷ signer ∷ rest) = record {
  key_id = trim_space key;
  signer = trim_space (join (9 ∷ []) (signer ∷ rest));
}

-- The end of VerifyCommit, from what git printed.
unfoldable pub read_verdict : Text → Text → Answer Signature
unfolding trim_newlines trim_space status_error read_signature split_parts
read_verdict rev stdout =
    let (status, fields) = split_parts 9 (trim_newlines stdout) in
    elim (status_error (trim_space status) rev) [
      | some err ↦ broken err
      | none ↦ answered (read_signature fields)
    ]

-- One line that AnnotatedTags reads.
abbrev pub read_tag : List Text → Option Tag
read_tag (kind ∷ name ∷ object ∷ commit ∷ rest) =
    if kind == bytes "tag" then some (record { name = name; commit = commit }) else none
read_tag _ = none

unfoldable pub read_tags : List Text → List Tag
unfolding split
read_tags [] = []
read_tags (line ∷ lines) =
    let rest = read_tags lines in
    elim (read_tag (split 9 line)) [ none ↦ rest | some tag ↦ tag ∷ rest ]

module _ (quoted : Text → Text) where
  -- The loop of validRef.
  unfoldable pub find_bad : Text → List Text → Option Text
  unfolding index
  find_bad ref [] = none
  find_bad ref (bad ∷ parts) =
      let rest = find_bad ref parts in
      if is_some (index bad ref)
      then some (bytes "git: ref " ++ (quoted ref ++ (bytes " contains " ++ quoted bad)))
      else rest

  -- validRef
  unfoldable pub valid_ref : Text → Option Text
  unfolding find_bad starts_with
  valid_ref ref =
      if ref == []
      then some (bytes "git: an empty ref")
      else if starts_with ref (bytes "-")
      then some (bytes "git: ref " ++ (quoted ref ++ bytes " begins with a dash"))
      else find_bad ref bad_parts

module _ (quoted : Text → Text) (git : List Text → Answer RunResult) where
  -- IsShallow
  unfoldable pub is_shallow : Answer Bool
  unfolding text_of
  is_shallow = elim (text_of (git (bytes "rev-parse" ∷ bytes "--is-shallow-repository" ∷ []))) [
    | broken err ↦ broken err
    | answered out ↦ answered (out == bytes "true")
  ]

  -- RequireCompleteHistory; `none` is success
  unfoldable pub require_complete_history : Text → Option Text
  unfolding is_shallow
  require_complete_history dir = elim is_shallow [
    | broken err ↦ some err
    | answered shallow ↦
        if shallow
        then some (
            bytes "the clone at "
            ++ (dir ++ bytes " is shallow, so revision ordering cannot be computed"))
        else none
  ]

  -- Resolve
  unfoldable pub resolve_ref : Text → Answer Text
  unfolding valid_ref text_of
  resolve_ref ref = elim (valid_ref quoted ref) [
    | some err ↦ broken err
    | none ↦ text_of (
        git (
          bytes "rev-parse"
          ∷ bytes "--verify"
          ∷ bytes "--end-of-options"
          ∷ (ref ++ bytes "^{commit}")
          ∷ []))
  ]

  -- Has
  unfoldable pub has_commit : Text → Answer Bool
  unfolding valid_ref
  has_commit rev = elim (valid_ref quoted rev) [
    | some err ↦ broken err
    | none ↦ elim (git (bytes "cat-file" ∷ bytes "-e" ∷ (rev ++ bytes "^{commit}") ∷ [])) [
      | broken err ↦ broken err
      | answered result ↦ answered (is_ok result)
    ]
  ]

  -- The switch of IsAncestor on the exit code.
  abbrev pub read_ancestor : RunResult → Answer Bool
  read_ancestor result =
      if eqb result.code 0
      then answered true
      else if eqb result.code 1
      then answered false
      else broken result.err_text

  -- IsAncestor
  unfoldable pub is_ancestor : Text → Text → Answer Bool
  unfolding valid_ref
  is_ancestor ancestor descendant = elim (valid_ref quoted ancestor) [
    | some err ↦ broken err
    | none ↦ elim (valid_ref quoted descendant) [
      | some err ↦ broken err
      | none ↦
          elim (git (bytes "merge-base" ∷ bytes "--is-ancestor" ∷ ancestor ∷ descendant ∷ [])) [
            | broken err ↦ broken err
            | answered result ↦ read_ancestor result
          ]
    ]
  ]

  -- signersConfig
  unfoldable pub signers_config : Text → List Text
  signers_config signers =
      if signers == []
      then []
      else bytes "-c" ∷ (bytes "gpg.ssh.allowedSignersFile=" ++ signers) ∷ []

  -- VerifyCommit
  unfoldable pub verify_commit : Text → Text → Answer Signature
  unfolding valid_ref signers_config read_verdict
  verify_commit rev signers = elim (valid_ref quoted rev) [
    | some err ↦ broken err
    | none ↦
        elim (git (
          signers_config signers
          ++ (bytes "log"
              ∷ bytes "-1"
              ∷ bytes "--format=%G?%x09%GK%x09%GS"
              ∷ bytes "--no-show-signature"
              ∷ bytes "--end-of-options"
              ∷ rev
              ∷ []))) [
                | broken err ↦ broken err
                | answered result ↦
                    if not (is_ok result)
                    then broken result.err_text
                    else read_verdict rev result.stdout
              ]
  ]

  -- VerifyTag; `read_stderr` is what the two regular expressions find
  unfoldable pub verify_tag : (read_stderr : Text → Signature) → Text → Text → Answer Signature
  unfolding valid_ref signers_config
  verify_tag read_stderr tag signers = elim (valid_ref quoted tag) [
    | some err ↦ broken err
    | none ↦
        elim (git (
          signers_config signers
          ++ (bytes "verify-tag" ∷ bytes "--raw" ∷ bytes "--end-of-options" ∷ tag ∷ []))) [
            | broken err ↦ broken err
            | answered result ↦
                if not (is_ok result)
                then broken (
                    bytes "tag "
                    ++ (tag ++ bytes " does not carry a good signature from a trusted key"))
                else answered (read_stderr result.stderr)
          ]
  ]

  -- AnnotatedTags
  unfoldable pub annotated_tags : Text → Answer (List Tag)
  unfolding starts_with text_of read_tags split sort_by
  annotated_tags pattern =
      if pattern == []
      then answered []
      else if starts_with pattern (bytes "-")
      then broken (bytes "git: tag pattern " ++ (quoted pattern ++ bytes " begins with a dash"))
      else elim (text_of (
          git (
            bytes "for-each-ref"
            ∷ bytes "--format=%(objecttype)%09%(refname:short)%09%(objectname)%09%(*objectname)"
            ∷ (bytes "refs/tags/" ++ pattern)
            ∷ []))) [
              | broken err ↦ broken err
              | answered out ↦
                  if out == []
                  then answered []
                  else answered (sort_by (λ a b. text_lt a.name b.name) (read_tags (split 10 out)))
            ]

  -- The inner loop of SelectTag: whether a candidate descends from all the others.
  unfoldable pub descends_from_all : Tag → List Tag → Answer Bool
  unfolding is_ancestor
  descends_from_all candidate [] = answered true
  descends_from_all candidate (other ∷ rest) =
      let more = descends_from_all candidate rest in
      if other.commit == candidate.commit
      then more
      else elim (is_ancestor other.commit candidate.commit) [
        | broken err ↦ broken err
        | answered ok ↦ if ok then more else answered false
      ]

  -- The outer loop; `none` is the error that no candidate descends from all.
  unfoldable pub select_from : List Tag → List Tag → Answer (Option Tag)
  unfolding descends_from_all
  select_from candidates [] = answered none
  select_from candidates (candidate ∷ rest) =
      let more = select_from candidates rest in
      elim (descends_from_all candidate candidates) [
        | broken err ↦ broken err
        | answered ok ↦ if ok then answered (some candidate) else more
      ]

  -- SelectTag
  unfoldable pub select_tag : List Tag → Answer (Option Tag)
  unfolding select_from
  select_tag [] = answered none
  select_tag (candidate ∷ []) = answered (some candidate)
  select_tag (first ∷ second ∷ rest) = select_from (first ∷ second ∷ rest) (first ∷ second ∷ rest)
