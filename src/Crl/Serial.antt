-- ===== src/Crl/Serial.antt =====
-- pki/cert/serial.rs: the checks of serial numbers and their DER integer form.
use randbotd.Base.{
  ℕ, zero, suc, ◌⊎◌, ◌+◌, ◌*◌, ◌^◌, ◌≤◌, ◌<◌, true, false, Bool-cases, inl, inr, ◌≡◌, [], ◌∷◌, ltb,
  leb, ◌==◌, all, length, if◌then◌else◌, arith, refl,
}
use native.Mathlib.Nat.{mul-le-mul_right}
use randbotd.Base.Result.{Result, ok, fail_if, ◌>>◌}
use randbotd.Base.Bytes.{Bytes, from_be_bytes, from_be_bytes-cons, pow-positive}

abbrev pub min_serial_entropy_bytes : ℕ
min_serial_entropy_bytes = 8

abbrev pub max_serial_entropy_bytes : ℕ
max_serial_entropy_bytes = 20

pub data SerialError : Type 0 where
  too_short too_long : ℕ → SerialError
  zero_serial : SerialError

unfoldable pub validate_serial : Bytes → Result SerialError (Unit {0})
validate_serial bytes = do
  fail_if (ltb (length bytes) min_serial_entropy_bytes) (too_short (length bytes))
  fail_if (ltb max_serial_entropy_bytes (length bytes)) (too_long (length bytes))
  fail_if (all (λ b. b == 0) bytes) zero_serial

-- `from_bytes` and `from_slice`.
unfoldable pub serial_from_bytes : Bytes → Result SerialError Bytes
serial_from_bytes bytes = do validate_serial bytes; ok bytes

unfoldable pub entropy_bits : Bytes → ℕ
entropy_bits bytes = length bytes * 8

-- A leading octet keeps a number with a high first bit positive.
unfoldable pub to_der_integer_bytes : Bytes → Bytes
to_der_integer_bytes [] = []
to_der_integer_bytes (b ∷ bs) = if leb 0x80 b then 0 ∷ b ∷ bs else b ∷ bs

-- Only zeros make the value zero.
from_be_bytes-zero : (bs : Bytes) → from_be_bytes bs ≡ 0 → all (λ b. b == 0) bs ≡ true
from_be_bytes-zero [] h = refl
from_be_bytes-zero (zero ∷ bs) h = from_be_bytes-zero bs (omega (arith, from_be_bytes-cons 0 bs, h))
from_be_bytes-zero (suc b ∷ bs) h =
    let weight = pow-positive (8 * length bs) in
    let first = mul-le-mul_right (2 ^ (8 * length bs)) (one_le b) in
    absurd (omega (arith, from_be_bytes-cons (suc b) bs, weight, first, h))
  where
    one_le : (n : ℕ) → 1 ≤ suc n
    one_le n = omega arith

abbrev pub first_octet : Bytes → ℕ
first_octet [] = 0
first_octet (b ∷ bs) = b

validate_serial_ok :
    (bytes serial : Bytes)
    → serial_from_bytes bytes ≡ ok serial
    → (serial ≡ bytes)
      × (8 ≤ length bytes)
      × (length bytes ≤ 20)
      × (all (λ b. b == 0) bytes ≡ false)
unfolding serial_from_bytes validate_serial
validate_serial_ok bytes serial h = ground arith

der_integer :
    (bytes : Bytes)
    → (from_be_bytes (to_der_integer_bytes bytes) ≡ from_be_bytes bytes)
      × (first_octet (to_der_integer_bytes bytes) < 0x80)
      × (length (to_der_integer_bytes bytes) ≤ length bytes + 1)
unfolding to_der_integer_bytes
der_integer [] = (refl, omega arith, omega arith)
der_integer (b ∷ bs) = elim (Bool-cases (leb 0x80 b)) [
  | inl e ↦ rw e (omega (arith, from_be_bytes-cons 0 (b ∷ bs)), omega arith, omega arith)
  | inr e ↦ rw e (refl, ground (arith, e), omega arith)
]

-- A serial number that is accepted is positive, and its DER integer has the same value, a clear sign bit, and
-- at most 21 octets.
pub to_der_integer_bytes_lem :
    (bytes serial : Bytes)
    → serial_from_bytes bytes ≡ ok serial
    → (0 < from_be_bytes bytes)
      × (from_be_bytes (to_der_integer_bytes serial) ≡ from_be_bytes bytes)
      × (first_octet (to_der_integer_bytes serial) < 0x80)
      × (length (to_der_integer_bytes serial) ≤ 21)
to_der_integer_bytes_lem bytes serial h =
    let v = validate_serial_ok bytes serial h in
    let d = der_integer bytes in rw v.0 (positive bytes v.3, d.0, d.1, omega (arith, d.2, v.2))
  where
    compare_zero : (n : ℕ) → (n ≡ 0) ⊎ (0 < n)
    compare_zero zero = inl refl
    compare_zero (suc n) = inr (omega arith)

    positive : (bs : Bytes) → all (λ b. b == 0) bs ≡ false → 0 < from_be_bytes bs
    positive bs nonzero = elim (compare_zero (from_be_bytes bs)) [
      | inl e ↦ absurd (ground (arith, from_be_bytes-zero bs e, nonzero))
      | inr e ↦ e
    ]
