-- ===== src/Schedule/Next.antt =====
-- internal/schedule/schedule.go: when the next pass runs.
use Prim.Native.Nat.{min}
use native.Mathlib.Nat.{mod-lt, div-add-mod, mod-eq_of_lt, mul-le-mul_left}
use native.Mathlib.Decide.{dec_lt}
use datum.Prelude.{
  ℕ, zero, suc, ◌+◌, ◌*◌, ◌/◌, ◌%◌, ◌≤◌, ◌<◌, ◌≡◌, refl, sym, ◌∙◌, ap, ◌⊎◌, inl, inr, arith,
}
use datum.Prelude.Int.{ℤ, pos, negsuc, pos_part, neg_part, ◌≤ℤ◌, ◌<ℤ◌, floor_mod, +ℤ_parts}
use datum.Schedule.{Schedule, max_int64, backoff, effective_interval, wait, next}
use datum.Schedule.Delay.{floor_mod-lt, floor_mod-delay, delay_lem, gap_lem}

backoff-cases :
    (s : Schedule) → (backoff s ≡ 1) ⊎ (backoff s ≡ 2) ⊎ (backoff s ≡ 4) ⊎ (backoff s ≡ 8)
unfolding backoff
backoff-cases s = at s.upstream_failures
  where
    at :
        (n : ℕ)
        → (backoff (record s { upstream_failures = n }) ≡ 1)
          ⊎ (backoff (record s { upstream_failures = n }) ≡ 2)
          ⊎ (backoff (record s { upstream_failures = n }) ≡ 4)
          ⊎ (backoff (record s { upstream_failures = n }) ≡ 8)
    at zero = inl refl
    at (suc zero) = inr (inl refl)
    at (suc (suc zero)) = inr (inr (inl refl))
    at (suc (suc (suc n))) = inr (inr (inr (ground arith)))

-- The interval that a pass waits for is the configured one times the back-off, and where that does
-- not fit into an int64 it is the largest one.
pub effective_interval-eq-min :
    (s : Schedule) → effective_interval s ≡ min (s.interval * backoff s) max_int64
unfolding effective_interval
effective_interval-eq-min s = elim (backoff-cases s) [
  | inl e ↦ rw e (ground arith)
  | inr (inl e) ↦ rw e (ground arith)
  | inr (inr (inl e)) ↦ rw e (ground arith)
  | inr (inr (inr e)) ↦ rw e (ground arith)
]

effective_interval-pos : (s : Schedule) → 0 < s.interval → 0 < effective_interval s
effective_interval-pos s h = elim (backoff-cases s) [
  | inl e ↦ omega (arith, effective_interval-eq-min s, ap (λ b. s.interval * b) e)
  | inr (inl e) ↦ omega (arith, effective_interval-eq-min s, ap (λ b. s.interval * b) e)
  | inr (inr (inl e)) ↦ omega (arith, effective_interval-eq-min s, ap (λ b. s.interval * b) e)
  | inr (inr (inr e)) ↦ omega (arith, effective_interval-eq-min s, ap (λ b. s.interval * b) e)
]

-- Two multiples of `i` that differ lie `i` apart.
multiples : (i p q : ℕ) → i * p < i * q → i * p + i ≤ i * q
multiples i p q h = elim (dec_lt p q) [
  | yes lt ↦ omega (arith, mul-le-mul_left {m = suc p} {n = q} i lt)
  | no ge ↦ absurd (omega (arith, mul-le-mul_left {m = q} {n = p} i (omega arith)))
]

-- No two times less than an interval apart stand at one place of it.
same_place :
    (i : ℕ) (a b : ℤ)
    → 0 < i
    → floor_mod a i ≡ floor_mod b i
    → a <ℤ b
    → pos_part b + neg_part a < pos_part a + neg_part b + i
    → ⊥
unfolding floor_mod
same_place i (pos n) (pos m) h e lt near =
    omega (arith, div-add-mod n i, div-add-mod m i, multiples i (n / i) (m / i))
same_place i (pos n) (negsuc m) h e lt near = omega arith
same_place i (negsuc n) (pos m) h e lt near =
    omega (
      arith,
      mod-eq_of_lt {n = n} {m = i} (omega arith),
      mod-eq_of_lt {n = m} {m = i} (omega arith),
    )
same_place i (negsuc n) (negsuc m) h e lt near =
    omega
      (arith, div-add-mod n i, div-add-mod m i, multiples i (m / i) (n / i), mod-lt n h, mod-lt m h)

-- With a positive interval, the next pass lies in the future, at most one effective interval away, and at the host's offset
-- from a whole number of intervals since the epoch.
pub next_on_tick :
    (s : Schedule) (now : ℤ)
    → 0 < s.interval
    → (pos 1 ≤ℤ wait s now)
      × (wait s now ≤ℤ pos (effective_interval s))
      × (floor_mod (next s now) (effective_interval s) ≡ s.offset % effective_interval s)
unfolding wait next
next_on_tick s now h =
    let i = effective_interval s in
    let i_pos = effective_interval-pos s h in
    let (early, late, place) =
      gap_lem (floor_mod now i) (s.offset % i) i (floor_mod-lt now i i_pos)
        (mod-lt s.offset i_pos) in
    (
      rw (delay_lem s.offset i now i_pos) (omega arith),
      rw (delay_lem s.offset i now i_pos) (omega arith),
      floor_mod-delay s.offset i now i_pos,
    )

next-parts :
    (s : Schedule) (now : ℤ)
    → pos_part (next s now) + neg_part now + neg_part (wait s now)
      ≡ neg_part (next s now) + pos_part now + pos_part (wait s now)
unfolding next
next-parts s now = +ℤ_parts now (wait s now)

-- With a positive interval, no tick is passed over: every time after now that lies at the offset is not before the next pass.
pub next_least :
    (s : Schedule) (now t : ℤ)
    → 0 < s.interval
    → now <ℤ t
    → floor_mod t (effective_interval s) ≡ s.offset % effective_interval s
    → next s now ≤ℤ t
next_least s now t h later place =
    elim (dec_lt (pos_part t + neg_part n) (pos_part n + neg_part t)) [
      | no not_before ↦ omega arith
      | yes before ↦ absurd (
          same_place (effective_interval s) t n (effective_interval-pos s h) (place ∙ sym on_tick.2)
            before (omega (arith, next-parts s now, on_tick.1, later)))
    ]
  where
    n : ℤ
    n = next s now

    on_tick :
        (pos 1 ≤ℤ wait s now)
        × (wait s now ≤ℤ pos (effective_interval s))
        × (floor_mod (next s now) (effective_interval s) ≡ s.offset % effective_interval s)
    on_tick = next_on_tick s now h
