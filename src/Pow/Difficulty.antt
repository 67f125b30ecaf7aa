-- ===== src/Pow/Difficulty.antt =====
-- crypto/pow.rs: the difficulty in 32 bits, as the documented formula.
use randbotd.Base.{ℕ, ◌+◌, ◌^◌, ◌≤◌, ◌<◌, arith, dec_lt}
use randbotd.Base.Crypto.{Crypto, CryptoLaws}
use native.Mathlib.Nat.{pow-le-pow_right}

-- Powers of two determine their exponents up to the order.
pub lt_of_pow-lt : (a b : ℕ) → 2 ^ a < 2 ^ b → a < b
lt_of_pow-lt a b h = elim (dec_lt a b) [
  | yes l ↦ l
  | no g ↦ absurd (omega (arith, pow-le-pow_right {n = 2} (omega arith) (ge g)))
]
  where
    ge : ¬ (a < b) → b ≤ a
    ge g = omega arith

-- `k` is the number of doublings from 1 that stay at or below `n`.
abbrev pub IsDoublings : ℕ → ℕ → Type 0
IsDoublings n k = (2 ^ k ≤ n) × (n < 2 ^ (k + 1))

pub log2_floor-lt : (c : Crypto) → CryptoLaws c → (n : ℕ) → 0 < n → n < 2 ^ 47 → c.log2_floor n < 47
log2_floor-lt c laws n p h =
    lt_of_pow-lt (c.log2_floor n) 47 (omega (arith, (laws.log2_floor_bounds n p h).0))
