-- ===== src/Pow/Bits.antt =====
-- crypto/pow.rs: the bits that `leading_zero_bits` counts.
use randbotd.Base.{
  ℕ, suc, ◌+◌, ◌-◌, ◌*◌, ◌%◌, ◌^◌, ◌≤◌, ◌<◌, ◌≡◌, ◌≢◌, ◌↔◌, inl, inr, true, [], ◌∷◌, arith, ◌==◌,
  if◌then◌else◌, ==_iff, Bool-cases, length, dec_lt,
}
use randbotd.Base.Bytes.{
  pow-add, from_be_bytes-cons, from_be_bytes-lt, Bytes, from_be_bytes, u32_mod, IsBytes,
}
use native.Mathlib.Nat.{pow-le-pow_right, mul-le-mul_right}
use randbotd.Pow.{leading_zeros, leading_zero_bits_from, leading_zero_bits}

-- The count without the wrap of the 32-bit counter.
zeros : Bytes → ℕ
zeros [] = 0
zeros (byte ∷ rest) = if byte == 0 then 8 + zeros rest else leading_zeros byte

zeros-le : (d : Bytes) → zeros d ≤ 8 * length d
unfolding zeros
zeros-le [] = omega arith
zeros-le (b ∷ d) = ground (arith, zeros-le d)

leading_zero_bits_from-eq-zeros :
    (count : ℕ) (d : Bytes)
    → count + 8 * length d < u32_mod
    → leading_zero_bits_from count d ≡ count + zeros d
unfolding leading_zero_bits_from zeros
leading_zero_bits_from-eq-zeros count [] h = omega arith
leading_zero_bits_from-eq-zeros count (b ∷ d) h =
    ground (arith, leading_zero_bits_from-eq-zeros ((count + 8) % u32_mod) d)

-- `2 ^ (7 - z) ≤ b < 2 ^ (8 - z)` for the number `z` of leading zeros of an octet `b`.
octet_bounds :
    (b : ℕ)
    → b ≢ 0
    → b < 256
    → (leading_zeros b < 8) × (2 ^ (7 - leading_zeros b) ≤ b) × (b + 1 ≤ 2 ^ (8 - leading_zeros b))
octet_bounds b h k = ground arith

value-lt : (d : Bytes) → IsBytes d → from_be_bytes d < 2 ^ (8 * length d - zeros d)
unfolding zeros
value-lt [] h = unfold from_be_bytes in omega arith
value-lt (b ∷ d) h = elim (Bool-cases (b == 0)) [
  | inl z ↦
      let e : 8 * suc (length d) - (8 + zeros d) ≡ 8 * length d - zeros d = omega arith in
      rw (z, e) (omega (arith, from_be_bytes-cons b d, value-lt d h.1, zero_weight b z))
  | inr n ↦
      let o = octet_bounds b (λ e. ground arith) h.0 in
      let e : 8 * suc (length d) - leading_zeros b ≡ 8 - leading_zeros b + 8 * length d =
        omega (arith, o.0) in
      rw (n, e, pow-add (8 - leading_zeros b) (8 * length d))
        (omega (
          arith,
          from_be_bytes-cons b d,
          from_be_bytes-lt d h.1,
          mul-le-mul_right (2 ^ (8 * length d)) o.2,
        ))
]
  where
    zero_weight : (b : ℕ) → (b == 0) ≡ true → b * 2 ^ (8 * length d) ≡ 0
    zero_weight b z = rw ((==_iff b 0).0 z) (omega arith)

value-ge :
    (d : Bytes)
    → IsBytes d
    → zeros d < 8 * length d
    → 2 ^ (8 * length d - zeros d - 1) ≤ from_be_bytes d
unfolding zeros
value-ge [] h lt = absurd (omega arith)
value-ge (b ∷ d) h lt = elim (Bool-cases (b == 0)) [
  | inl z ↦
      let e : 8 * suc (length d) - (8 + zeros d) ≡ 8 * length d - zeros d = omega arith in
      rw (z, e) (omega (arith, from_be_bytes-cons b d, value-ge d h.1 (ground arith)))
  | inr n ↦
      let o = octet_bounds b (λ e. ground arith) h.0 in
      let e : 8 * suc (length d) - leading_zeros b - 1 ≡ 7 - leading_zeros b + 8 * length d =
        omega (arith, o.0) in
      rw (n, e, pow-add (7 - leading_zeros b) (8 * length d))
        (omega (arith, from_be_bytes-cons b d, mul-le-mul_right (2 ^ (8 * length d)) o.1))
]

leading_zero_bits-eq-zeros : (d : Bytes) → 8 * length d < u32_mod → leading_zero_bits d ≡ zeros d
unfolding leading_zero_bits
leading_zero_bits-eq-zeros d h = omega (arith, leading_zero_bits_from-eq-zeros 0 d (omega arith))

-- A digest has at least `k` leading zero bits exactly if, as a big-endian number, it is below
-- `2 ^ (bits - k)`: for octets, fewer than 2^29 - 1 of them, and `k` no more than their bits.
pub leading_zero_bits_iff :
    (digest : Bytes) (k : ℕ)
    → IsBytes digest
    → 8 * length digest < u32_mod
    → k ≤ 8 * length digest
    → (k ≤ leading_zero_bits digest) ↔ (from_be_bytes digest < 2 ^ (8 * length digest - k))
leading_zero_bits_iff d k h small fits = (
  λ le. omega (
    arith,
    leading_zero_bits-eq-zeros d small,
    value-lt d h,
    pow-le-pow_right {n = 2} (omega arith) (shorter le),
  ),
  λ below. elim (dec_lt (zeros d) k) [
    | yes few ↦ absurd (
        omega (
          arith,
          value-ge d h (omega (arith, zeros-le d)),
          pow-le-pow_right {n = 2} (omega arith) (longer few),
        ))
    | no enough ↦ omega (arith, leading_zero_bits-eq-zeros d small)
  ],
)
  where
    shorter : k ≤ leading_zero_bits d → 8 * length d - zeros d ≤ 8 * length d - k
    shorter le = omega (arith, leading_zero_bits-eq-zeros d small)

    longer : zeros d < k → 8 * length d - k ≤ 8 * length d - zeros d - 1
    longer few = omega (arith, leading_zero_bits-eq-zeros d small)
