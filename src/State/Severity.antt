-- ===== src/State/Severity.antt =====
-- The state of a host that `HostFrom` of internal/state/state.go finds, by the table of
-- docs/concepts/state.md.
use datum.Prelude.{◌≡◌, ◌↔◌, Bool, true, false, not, ◌&&◌, ◌||◌, List, [], ◌∷◌, any, all, arith}
use datum.State.{
  Resource, pending, applying, converged, drifted, failed, blocked, skipped, Host, host_converged,
  host_drifted, host_failed, degraded, Seen, note, note_all, nothing_seen, host_of, host_from,
}

abbrev pub has_converged : Resource → Bool
has_converged converged = true
has_converged _ = false

abbrev pub has_drifted : Resource → Bool
has_drifted drifted = true
has_drifted _ = false

-- The resource failed, or is blocked by a failure elsewhere in the manifest.
abbrev pub has_failed : Resource → Bool
has_failed failed = true
has_failed blocked = true
has_failed _ = false

abbrev pub is_skipped : Resource → Bool
is_skipped skipped = true
is_skipped _ = false

-- The pass is done with the resource.
abbrev pub is_done : Resource → Bool
is_done pending = false
is_done applying = false
is_done _ = true

-- What the table says of a host in each state.
abbrev pub IsTabled : List Resource → Host → Type 0
IsTabled rs host =
    ((host ≡ host_converged) ↔ (all has_converged rs ≡ true))
    × ((host ≡ host_drifted) ↔ ((any has_drifted rs ≡ true) × (any has_failed rs ≡ false)))
    × ((host ≡ host_failed) ↔ (any has_failed rs ≡ true))
    × ((host ≡ degraded)
        ↔ ((any is_skipped rs ≡ true) × (all (λ r. has_converged r || is_skipped r) rs ≡ true)))

note_all-seen :
    (s : Seen) (rs : List Resource)
    → ((note_all s rs).any_failed ≡ (s.any_failed || any has_failed rs))
      × ((note_all s rs).any_skipped ≡ (s.any_skipped || any is_skipped rs))
      × ((note_all s rs).any_drifted ≡ (s.any_drifted || any has_drifted rs))
unfolding note_all note
note_all-seen s [] = ground arith
note_all-seen s (r ∷ rs) = ground (arith, note_all-seen (note s r) rs)

-- In a pass that is done, a resource that has neither failed nor drifted and is not skipped is
-- converged.
all-done :
    (rs : List Resource)
    → all is_done rs ≡ true
    → (all has_converged rs ≡ not (any has_failed rs || any is_skipped rs || any has_drifted rs))
      × (all (λ r. has_converged r || is_skipped r) rs
          ≡ not (any has_failed rs || any has_drifted rs))
all-done [] h = ground arith
all-done (r ∷ rs) h = ground (arith, all-done rs, h)

host_of-seen :
    (s : Seen)
    → ((host_of s ≡ host_failed) ↔ (s.any_failed ≡ true))
      × ((host_of s ≡ degraded) ↔ ((s.any_failed ≡ false) × (s.any_skipped ≡ true)))
      × ((host_of s ≡ host_drifted)
          ↔ ((s.any_failed ≡ false) × (s.any_skipped ≡ false) × (s.any_drifted ≡ true)))
      × ((host_of s ≡ host_converged)
          ↔ ((s.any_failed ≡ false) × (s.any_skipped ≡ false) × (s.any_drifted ≡ false)))
unfolding host_of
host_of-seen s = ground arith

-- A host is found in exactly the state that the documentation's table gives: converged if every
-- resource is converged, drifted if one drifted and none failed, failed if one failed, and degraded
-- if some are skipped and the rest converged, where a resource that a failure blocks counts as failed.
-- The resources are those of a pass that is done, and a skipped and a drifted one do not occur
-- together.
pub host_from-IsTabled :
    (rs : List Resource)
    → all is_done rs ≡ true
    → (any is_skipped rs && any has_drifted rs) ≡ false
    → IsTabled rs (host_from rs)
unfolding host_from
host_from-IsTabled [] d s = ground arith
host_from-IsTabled (r ∷ rs) d s = ground (
  arith,
  host_of-seen (note_all nothing_seen (r ∷ rs)),
  note_all-seen nothing_seen (r ∷ rs),
  all-done (r ∷ rs) d,
  s,
)
