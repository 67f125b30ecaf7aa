-- ===== src/Base/Bytes.antt =====
-- Byte strings as lists of numbers, and big-endian integers.
use randbotd.Base.Lists.{length, length-append, All, All-append}
use Prim.Native.Nat.{ℕ, zero, suc, ◌+◌, ◌*◌, ◌/◌, ◌%◌, ◌^◌, ◌≤◌, ◌<◌}
use mathlib.Core.Path.{◌≡◌, refl, ap}
use mathlib.Core.List.{List, [], ◌∷◌, ◌++◌, reverse}
use native.Mathlib.Nat.{add-zero, add-suc, pow-suc, mul-le-mul_right}
use native.Mathlib.Omega.{arith}

abbrev pub Bytes : Type 0
Bytes = List ℕ

-- The value of a byte string, read as a big-endian number after `acc`.
pub from_be_acc : ℕ → Bytes → ℕ
from_be_acc acc [] = acc
from_be_acc acc (b ∷ bs) = from_be_acc (acc * 256 + b) bs

-- `uN::from_be_bytes`.
unfoldable pub from_be_bytes : Bytes → ℕ
unfolding from_be_acc
from_be_bytes = from_be_acc 0

-- `to_be_bytes` of a number of `k` bytes.
unfoldable pub to_be_bytes : ℕ → ℕ → Bytes
to_be_bytes zero n = []
to_be_bytes (suc k) n = to_be_bytes k (n / 256) ++ (n % 256) ∷ []

pub length-to_be_bytes : (k n : ℕ) → length (to_be_bytes k n) ≡ k
unfolding to_be_bytes
length-to_be_bytes zero n = refl
length-to_be_bytes (suc k) n = omega (
  arith,
  length-append (to_be_bytes k (n / 256)) ((n % 256) ∷ []),
  length-to_be_bytes k (n / 256),
)

-- `to_le_bytes` of a number of `k` bytes.
unfoldable pub to_le_bytes : ℕ → ℕ → Bytes
unfolding to_be_bytes
to_le_bytes k n = reverse (to_be_bytes k n)

-- What a hasher has read after a row of `update`s, and what a buffer holds after a row of
-- `extend_from_slice`s.
unfoldable pub concat : List Bytes → Bytes
concat [] = []
concat (b ∷ bs) = b ++ concat bs

abbrev pub u32_mod : ℕ
u32_mod = 2 ^ 32

abbrev pub u64_mod : ℕ
u64_mod = 2 ^ 64

-- Every number is an octet.
abbrev pub IsBytes : Bytes → Type 0
IsBytes bs = All (λ b. b < 256) bs

pub pow-add : (a b : ℕ) → 2 ^ (a + b) ≡ 2 ^ a * 2 ^ b
pow-add a zero = rw (add-zero a) (omega arith)
pow-add a (suc b) = rw (add-suc a b, pow-suc 2 (a + b), pow-suc 2 b, pow-add a b) (omega arith)

pub pow-positive : (n : ℕ) → 0 < 2 ^ n
pow-positive zero = omega arith
pow-positive (suc n) = omega (arith, pow-suc 2 n, pow-positive n)

pub pow-octet : (n : ℕ) → 2 ^ (8 * suc n) ≡ 256 * 2 ^ (8 * n)
pow-octet n = let e : 8 * suc n ≡ 8 + 8 * n = omega arith in rw (e, pow-add 8 (8 * n)) (omega arith)

from_be_acc_split :
    (acc : ℕ) (bs : Bytes) → from_be_acc acc bs ≡ acc * 2 ^ (8 * length bs) + from_be_acc 0 bs
unfolding from_be_acc
from_be_acc_split acc [] = omega arith
from_be_acc_split acc (b ∷ bs) = omega (
  arith,
  from_be_acc_split (acc * 256 + b) bs,
  from_be_acc_split (0 * 256 + b) bs,
  ap (λ (t : ℕ). acc * t) (pow-octet (length bs)),
)

-- The first octet weighs 2^(8k) before k others.
pub from_be_bytes-cons :
    (b : ℕ) (bs : Bytes) → from_be_bytes (b ∷ bs) ≡ b * 2 ^ (8 * length bs) + from_be_bytes bs
unfolding from_be_bytes
from_be_bytes-cons b bs = omega (arith, from_be_acc_split (0 * 256 + b) bs)

pub from_be_bytes-lt : (bs : Bytes) → IsBytes bs → from_be_bytes bs < 2 ^ (8 * length bs)
from_be_bytes-lt [] h = unfold from_be_bytes in omega arith
from_be_bytes-lt (b ∷ bs) h = grind (
  arith,
  from_be_bytes-cons b bs,
  from_be_bytes-lt bs h.1,
  pow-octet (length bs),
  mul-le-mul_right (2 ^ (8 * length bs)) (le_octet b h.0),
)
  where
    le_octet : (b : ℕ) → b < 256 → b ≤ 255
    le_octet b h = omega arith

from_be_acc-append :
    (acc : ℕ) (xs : Bytes) (b : ℕ) → from_be_acc acc (xs ++ b ∷ []) ≡ from_be_acc acc xs * 256 + b
unfolding from_be_acc
from_be_acc-append acc [] b = refl
from_be_acc-append acc (x ∷ xs) b = from_be_acc-append (acc * 256 + x) xs b

pub from_be_bytes-to_be_bytes : (k n : ℕ) → n < 2 ^ (8 * k) → from_be_bytes (to_be_bytes k n) ≡ n
unfolding from_be_bytes to_be_bytes
from_be_bytes-to_be_bytes zero n h = omega arith
from_be_bytes-to_be_bytes (suc k) n h = omega (
  arith,
  from_be_acc-append 0 (to_be_bytes k (n / 256)) (n % 256),
  from_be_bytes-to_be_bytes k (n / 256),
  pow-octet k,
)

pub to_be_bytes-IsBytes : (k n : ℕ) → IsBytes (to_be_bytes k n)
unfolding to_be_bytes
to_be_bytes-IsBytes zero n = tt
to_be_bytes-IsBytes (suc k) n =
    All-append _ (to_be_bytes k (n / 256)) _ (to_be_bytes-IsBytes k (n / 256)) (omega arith)

to_be_bytes-head :
    (k b v : ℕ)
    → b < 256
    → v < 2 ^ (8 * k)
    → to_be_bytes (suc k) (b * 2 ^ (8 * k) + v) ≡ b ∷ to_be_bytes k v
unfolding to_be_bytes
to_be_bytes-head zero b v hb hv =
    let e : (b * 2 ^ (8 * 0) + v) % 256 ≡ b = omega arith in ap (λ (t : ℕ). t ∷ []) e
to_be_bytes-head (suc k) b v hb hv =
    let p = pow-octet k in
    let q : (b * 2 ^ (8 * suc k) + v) / 256 ≡ b * 2 ^ (8 * k) + v / 256 =
      omega (arith, p, ap (λ (t : ℕ). b * t) p) in
    let r : (b * 2 ^ (8 * suc k) + v) % 256 ≡ v % 256 = omega (arith, p, ap (λ (t : ℕ). b * t) p) in
    rw (q, r, to_be_bytes-head k b (v / 256) hb (omega (arith, p))) refl

-- Octets are determined by their number and their big-endian value.
pub to_be_bytes-from_be_bytes :
    (bs : Bytes) → IsBytes bs → to_be_bytes (length bs) (from_be_bytes bs) ≡ bs
to_be_bytes-from_be_bytes [] h = unfold to_be_bytes in refl
to_be_bytes-from_be_bytes (b ∷ bs) h =
    rw
      (
        from_be_bytes-cons b bs,
        to_be_bytes-head (length bs) b (from_be_bytes bs) h.0 (from_be_bytes-lt bs h.1),
      )
      (ap (λ t. b ∷ t) (to_be_bytes-from_be_bytes bs h.1))
