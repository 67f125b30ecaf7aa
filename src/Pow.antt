-- ===== src/Pow.antt =====
-- crypto/pow.rs: the proof-of-work puzzle. The nonce searches take fuel, one unit for a round.
pub mod Bits
pub mod Search
pub mod Difficulty
use randbotd.Base.{
  ℕ, zero, suc, ◌+◌, ◌*◌, ◌/◌, ◌%◌, Bool, true, false, ◌&&◌, Option, none, some, List, [], ◌∷◌,
  ◌++◌, ltb, leb, ◌==◌, if◌then◌else◌,
}
use randbotd.Base.Bytes.{Bytes, to_be_bytes, concat, u32_mod, u64_mod}
use randbotd.Base.Crypto.{Crypto}

abbrev pub default_base_difficulty : ℕ
default_base_difficulty = 12

-- `u8::leading_zeros`.
abbrev pub leading_zeros : ℕ → ℕ
leading_zeros b =
    if ltb b 1
    then 8
    else if ltb b 2
    then 7
    else if ltb b 4
    then 6
    else if ltb b 8
    then 5
    else if ltb b 16
    then 4
    else if ltb b 32
    then 3
    else if ltb b 64
    then 2
    else if ltb b 128
    then 1
    else 0

-- The loop of `leading_zero_bits` over the octets that are left.
pub leading_zero_bits_from : ℕ → Bytes → ℕ
leading_zero_bits_from count [] = count
leading_zero_bits_from count (byte ∷ rest) =
    let more = leading_zero_bits_from ((count + 8) % u32_mod) rest in
    if byte == 0 then more else (count + leading_zeros byte) % u32_mod

unfoldable pub leading_zero_bits : Bytes → ℕ
unfolding leading_zero_bits_from
leading_zero_bits digest = leading_zero_bits_from 0 digest

module _ (c : Crypto) where
  unfoldable pub compute_challenge : List Bytes → Bytes
  compute_challenge components = c.sha256 (concat components)

  unfoldable pub compute_digest : Bytes → ℕ → Bytes
  compute_digest challenge nonce = c.sha256 (challenge ++ to_be_bytes 8 nonce)

  unfoldable pub verify : Bytes → ℕ → ℕ → Bool
  unfolding compute_digest leading_zero_bits
  verify challenge nonce difficulty =
      leb difficulty (leading_zero_bits (compute_digest challenge nonce))

  -- The loop of `solve` from a nonce; `none` means that the fuel ran out.
  pub solve_from : ℕ → Bytes → ℕ → ℕ → Option ℕ
  solve_from zero challenge difficulty nonce = none
  solve_from (suc fuel) challenge difficulty nonce = elim (verify challenge nonce difficulty) [
    | true ↦ some nonce
    | false ↦ solve_from fuel challenge difficulty ((nonce + 1) % u64_mod)
  ]

  pub solve : ℕ → Bytes → ℕ → Option ℕ
  unfolding solve_from
  solve fuel challenge difficulty = solve_from fuel challenge difficulty 0

  -- `while nonce <= u32::MAX`: `none` when the nonces are used up, after at most 2^32 rounds.
  pub scan_from : ℕ → Bytes → ℕ → ℕ → Option ℕ
  scan_from zero challenge difficulty nonce = none
  scan_from (suc rounds) challenge difficulty nonce =
      elim (ltb nonce u32_mod && verify challenge nonce difficulty) [
        | true ↦ some nonce
        | false ↦ scan_from rounds challenge difficulty (nonce + 1)
      ]

  -- The loop over `extra_nonce`; `none` means that the fuel ran out.
  pub reseed_from : ℕ → ℕ → (ℕ → Bytes) → ℕ → Option (ℕ × ℕ × Bytes)
  unfolding scan_from
  reseed_from zero difficulty reseed extra = none
  reseed_from (suc fuel) difficulty reseed extra =
      elim (scan_from u32_mod (reseed extra) difficulty 0) [
        | some nonce ↦ some (nonce, extra, reseed extra)
        | none ↦ reseed_from fuel difficulty reseed ((extra + 1) % u64_mod)
      ]

  unfoldable pub solve_with_changing_field : ℕ → ℕ → (ℕ → Bytes) → Option (ℕ × ℕ × Bytes)
  unfolding reseed_from
  solve_with_changing_field fuel difficulty reseed = reseed_from fuel difficulty reseed 0

unfoldable pub calculate_logarithmic_difficulty : Crypto → ℕ → ℕ → ℕ → ℕ → ℕ
calculate_logarithmic_difficulty c base_difficulty item_count step_bits penalty_bits =
    let n = (item_count + 1) % u64_mod in
    let scaling = (step_bits * c.log2_floor n) % u32_mod in
    ((base_difficulty + scaling) % u32_mod + penalty_bits) % u32_mod
