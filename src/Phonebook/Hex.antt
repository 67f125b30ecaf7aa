-- ===== src/Phonebook/Hex.antt =====
-- hex_encode in net/phonebook.rs tells keys apart.
use randbotd.Base.{ℕ, ◌/◌, ◌%◌, ◌<◌, ◌≡◌, refl, [], ◌∷◌, arith, ap₂}
use randbotd.Base.Bytes.{Bytes, IsBytes}
use randbotd.Phonebook.{hex_digit, hex_encode}

hex_digit-injective : (m n : ℕ) → hex_digit m ≡ hex_digit n → m < 16 → n < 16 → m ≡ n
hex_digit-injective m n e h k = ground arith

octet-injective :
    (x y : ℕ)
    → x < 256
    → y < 256
    → hex_digit (x / 16) ≡ hex_digit (y / 16)
    → hex_digit (x % 16) ≡ hex_digit (y % 16)
    → x ≡ y
octet-injective x y h k e f =
    let high = hex_digit-injective (x / 16) (y / 16) e (omega arith) (omega arith) in
    let low = hex_digit-injective (x % 16) (y % 16) f (omega arith) (omega arith) in omega arith

-- Octet strings of the same hexadecimal text are equal.
pub hex_encode-injective :
    (xs ys : Bytes) → IsBytes xs → IsBytes ys → hex_encode xs ≡ hex_encode ys → xs ≡ ys
unfolding hex_encode
hex_encode-injective [] [] h k e = refl
hex_encode-injective [] (y ∷ ys) h k e = cc
hex_encode-injective (x ∷ xs) [] h k e = cc
hex_encode-injective (x ∷ xs) (y ∷ ys) h k e =
    let high : hex_digit (x / 16) ≡ hex_digit (y / 16) = cc in
    let low : hex_digit (x % 16) ≡ hex_digit (y % 16) = cc in
    let rest : hex_encode xs ≡ hex_encode ys = cc in
    ap₂ (λ a as'. a ∷ as') (octet-injective x y h.0 k.0 high low)
      (hex_encode-injective xs ys h.1 k.1 rest)
