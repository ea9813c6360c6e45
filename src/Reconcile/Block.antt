-- ===== src/Reconcile/Block.antt =====
-- internal/reconcile/reconcile.go: block.
use datum.Prelude.{ℕ, zero, suc, Option, none, some, List, [], ◌∷◌, ◌++◌, length, if◌then◌else◌}
use datum.Map.{Map, has, put}
use datum.Document.Reference.{Reference, ref_eq}
use datum.Graph.{Edge, dependents}

-- The texts that a blocked resource gets as its reason.
pub data Cause : Type 0 where
  could_not_be_read : Cause
  did_not_verify : Reference → Cause
  did_fail : Reference → Cause

abbrev pub Blocked : Type 0
Blocked = Map Reference Cause

-- The inner loop of block, over the dependents of one resource.
unfoldable pub spread : Cause → List Edge → Blocked → List Reference → Blocked × List Reference
spread cause [] blocked queue = (blocked, queue)
spread cause (edge ∷ edges) blocked queue =
    spread cause edges (if has edge.to blocked then blocked else put edge.to cause blocked)
      (if has edge.to blocked then queue else queue ++ edge.to ∷ [])

-- for len(queue) > 0; `none` means that the fuel ran out.
unfoldable pub drain : List Edge → Cause → ℕ → Blocked → List Reference → Option Blocked
unfolding spread dependents
drain edges cause fuel blocked [] = some blocked
drain edges cause zero blocked (current ∷ queue) = none
drain edges cause (suc fuel) blocked (current ∷ queue) =
    let (blocked', queue') = spread cause (dependents current edges) blocked queue in
    drain edges cause fuel blocked' queue'

-- block. A resource enters the queue once for each edge at most, so one round more than there are
-- edges is enough; where the fuel ran out the map would stay as it was.
unfoldable pub block : List Edge → Blocked → Reference → Cause → Blocked
unfolding drain
block edges blocked ref cause = elim (drain edges cause (suc (length edges)) blocked (ref ∷ [])) [
  | none ↦ blocked
  | some blocked' ↦ blocked'
]
