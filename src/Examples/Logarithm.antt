-- ===== src/Examples/Logarithm.antt =====
-- The exact binary logarithm, as the logarithm of the toy primitives.
use randbotd.Base.{
  ℕ, zero, suc, ◌+◌, ◌/◌, ◌^◌, ◌≤◌, ◌<◌, ◌≡◌, ap, inl, inr, arith, ltb, ltb→lt, ltb-false,
  Bool-cases, if◌then◌else◌,
}
use native.Mathlib.Nat.{pow-suc}
use randbotd.Base.Bytes.{u64_mod}

-- The number of halvings until 1 is reached; 0 at 0.
pub log2_floor_from : ℕ → ℕ → ℕ
log2_floor_from zero n = 0
log2_floor_from (suc fuel) n =
    let more = log2_floor_from fuel (n / 2) in if ltb n 2 then 0 else more + 1

unfoldable pub log2_floor : ℕ → ℕ
unfolding log2_floor_from
log2_floor n = log2_floor_from 64 n

log2_floor_from_bounds :
    (fuel n : ℕ)
    → 0 < n
    → n < 2 ^ fuel
    → (2 ^ log2_floor_from fuel n ≤ n) × (n < 2 ^ (log2_floor_from fuel n + 1))
unfolding log2_floor_from
log2_floor_from_bounds zero n p h = absurd (omega arith)
log2_floor_from_bounds (suc fuel) n p h = elim (Bool-cases (ltb n 2)) [
  | inl small ↦ rw small (omega (arith, ltb→lt n 2 small))
  | inr big ↦
      let l = ltb-false n 2 big in
      let (lo, hi) =
        log2_floor_from_bounds fuel (n / 2) (omega arith) (omega (arith, pow-suc 2 fuel)) in
      let e : log2_floor_from fuel (n / 2) + 1 ≡ suc (log2_floor_from fuel (n / 2)) = omega arith in
      let e' : log2_floor_from fuel (n / 2) + 1 + 1 ≡ suc (log2_floor_from fuel (n / 2) + 1) =
        omega arith in
      rw (big, e')
        (omega (
          arith,
          lo,
          hi,
          ap (λ (t : ℕ). 2 ^ t) e,
          pow-suc 2 (log2_floor_from fuel (n / 2)),
          pow-suc 2 (log2_floor_from fuel (n / 2) + 1),
        ))
]

pub log2_floor_bounds :
    (n : ℕ) → 0 < n → n < u64_mod → (2 ^ log2_floor n ≤ n) × (n < 2 ^ (log2_floor n + 1))
unfolding log2_floor
log2_floor_bounds n p h = log2_floor_from_bounds 64 n p h
