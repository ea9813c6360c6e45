-- ===== src/Prelude/Equality.antt =====
-- Go's `==` as an interface: a Boolean test that decides equality.
use mathlib.Core.Path.{◌≡◌, refl}
use mathlib.Core.Logic.{◌↔◌}
use mathlib.Core.Bool.{Bool, true}
use Prim.Native.Nat.{ℕ}
use datum.Prelude.Tests.{eqb, eqb_iff}

pub record Eq {κ} (T : Type κ) : Type κ where
  pub beq : T → T → Bool
  pub beq_iff : (x y : T) → (beq x y ≡ true) ↔ (x ≡ y)

instance abbrev pub nat_eq : Eq ℕ
nat_eq = record { beq = eqb; beq_iff = eqb_iff }

infix 50 ◌==◌
abbrev pub ◌==◌ {κ} : {T : Type κ} ⦃test : Eq T⦄ → T → T → Bool
◌==◌ ⦃test⦄ = test.beq

module _ {κ} {T : Type κ} ⦃test : Eq T⦄ where
  pub ==_iff : (x y : T) → ((x == y) ≡ true) ↔ (x ≡ y)
  ==_iff x y = test.beq_iff x y

  pub ==_refl : (x : T) → (x == x) ≡ true
  ==_refl x = (test.beq_iff x x).1 refl
