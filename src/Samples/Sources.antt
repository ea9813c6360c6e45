-- ===== src/Samples/Sources.antt =====
-- A host that accepted a revision, and a signed commit that follows it.
use datum.Prelude.{◌≡◌, refl, true, false, none, List, contains, [], ◌∷◌, ◌++◌, if◌then◌else◌}
use datum.Text.{Text, text_eq, text_beq, bytes, starts_with, split_parts, index}
use datum.Revision.{contents, read}
use datum.Git.{Answer, answered, RunResult, no_signature}
use datum.Source.{SourceConfig, World, Selection, signed_commit, done, select_revision}
use datum.Source.Trusted.{IsSelected, select_revision-IsSelected}

abbrev old : Text
old = bytes "0123456789abcdef0123456789abcdef01234567"

abbrev new : Text
new = bytes "89abcdef0123456789abcdef0123456789abcdef"

-- Every command succeeds; the log shows a good signature.
abbrev git : List Text → Answer RunResult
git args = answered (record {
  code = 0;
  stdout = if contains args (bytes "log") then b'G' ∷ 9 ∷ (bytes "key" ++ 9 ∷ bytes "web") else new;
  stderr = [];
  err_text = [];
})

abbrev world : World
world = record {
  git = git;
  quoted = λ t. t;
  read_stderr = λ t. no_signature;
  clone_dir = bytes "/var/lib/datum/repository";
  clone_error = none;
  fetch_error = none;
  checkout_error = λ rev. none;
  ambiguity = λ tags. [];
}

abbrev settings : SourceConfig
settings = record {
  branch = bytes "main";
  require = signed_commit;
  signers = bytes "/etc/datum/allowed-signers";
  tag_pattern = [];
  descendant = true;
}

abbrev selection : Selection
selection = record {
  revision = new;
  tag = [];
  signature = record { key_id = bytes "key"; signer = bytes "web" };
  accepted_before = old;
  first_contact = false;
  fell_back = false;
  candidate = [];
  cause = none;
}

select_revision-new : select_revision settings world (contents old) ≡ done selection
unfolding select_revision text_beq starts_with split_parts index contains read
select_revision-new = refl

select_revision-IsSelected_example : IsSelected settings world (contents old) selection
select_revision-IsSelected_example =
    select_revision-IsSelected settings world (contents old) selection select_revision-new
