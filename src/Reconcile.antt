-- ===== src/Reconcile.antt =====
-- internal/reconcile/reconcile.go: a plan is applied, and each change is read back.
pub mod Block
mod Spread
pub mod Apply
pub mod Pass
pub mod Downstream
pub mod Modes
pub mod Verified
pub mod Blocking
