-- ===== src/Base/Text.antt =====
-- Rust strings: a text is the list of its code points, `as_bytes` its UTF-8 form.
use randbotd.Base.Tests.{
  ltb, leb, ◌==◌, if◌then◌else◌, bytes_eq, bytes_eq_sound, bytes_eq_refl, Bool-cases,
}
use mathlib.Core.Logic.{inl, inr}
use randbotd.Base.Lists.{
  length, take, drop, length-append, all, All, take-append-drop, drop-append_eq,
}
use randbotd.Base.Bytes.{Bytes}
use Prim.Native.Nat.{ℕ, ◌+◌, ◌-◌, ◌/◌, ◌%◌}
use Prim.Native.Char.{code}
use Prim.Native.String.{String}
use mathlib.Core.Path.{◌≡◌, refl, ap, sym, ◌∙◌}
use mathlib.Core.Bool.{Bool, true, false, ◌&&◌, ◌||◌}
use mathlib.Core.List.{List, [], ◌∷◌, ◌++◌, map, reverse}
use native.Mathlib.Omega.{arith}

abbrev pub Text : Type 0
Text = List ℕ

-- The code points of a literal.
abbrev pub codes : String → Text
codes String.[] = []
codes (String.◌∷◌ c s) = code c ∷ codes s

-- The UTF-8 form of one character.
pub encode_utf8 : ℕ → Bytes
encode_utf8 c =
    if ltb c 0x80
    then c ∷ []
    else if ltb c 0x800
    then (0xc0 + c / 64) ∷ (0x80 + c % 64) ∷ []
    else if ltb c 0x1_0000
    then (0xe0 + c / 4096) ∷ (0x80 + c / 64 % 64) ∷ (0x80 + c % 64) ∷ []
    else (0xf0 + c / 262144) ∷ (0x80 + c / 4096 % 64) ∷ (0x80 + c / 64 % 64) ∷ (0x80 + c % 64) ∷ []

-- `str::as_bytes`.
unfoldable pub as_bytes : Text → Bytes
unfolding encode_utf8
as_bytes [] = []
as_bytes (c ∷ s) = encode_utf8 c ++ as_bytes s

-- `str::len`: the number of bytes.
unfoldable pub len : Text → ℕ
unfolding as_bytes
len s = length (as_bytes s)

-- `char::is_whitespace`: the Unicode property White_Space.
pub is_whitespace : ℕ → Bool
is_whitespace c =
    (leb 9 c && leb c 13)
    || c == 32
    || c == 0x85
    || c == 0xa0
    || c == 0x1680
    || (leb 0x2000 c && leb c 0x200a)
    || c == 0x2028
    || c == 0x2029
    || c == 0x202f
    || c == 0x205f
    || c == 0x3000

pub trim_start : Text → Text
trim_start [] = []
trim_start (c ∷ s) = if is_whitespace c then trim_start s else c ∷ s

pub trim_end : Text → Text
unfolding trim_start is_whitespace
trim_end s = reverse (trim_start (reverse s))

-- `str::trim`.
unfoldable pub trim : Text → Text
unfolding trim_end
trim s = trim_end (trim_start s)

pub ascii_lower : ℕ → ℕ
ascii_lower c = if leb b'A' c && leb c b'Z' then c + 32 else c

-- `str::to_ascii_lowercase`.
unfoldable pub to_ascii_lowercase : Text → Text
unfolding ascii_lower
to_ascii_lowercase = map ascii_lower

abbrev pub push_head : ℕ → List Text → List Text
push_head c [] = (c ∷ []) ∷ []
push_head c (w ∷ ws) = (c ∷ w) ∷ ws

-- `str::split` by one character: the pieces between its occurrences, empty ones too.
unfoldable pub split : ℕ → Text → List Text
split sep [] = [] ∷ []
split sep (c ∷ s) = let rest = split sep s in if c == sep then [] ∷ rest else push_head c rest

-- `str::starts_with` and `str::ends_with`, of a character.
unfoldable pub starts_with : Text → ℕ → Bool
starts_with [] c = false
starts_with (x ∷ s) c = x == c

unfoldable pub ends_with : Text → ℕ → Bool
unfolding starts_with
ends_with s c = starts_with (reverse s) c

-- `str::is_ascii`.
unfoldable pub is_ascii : Text → Bool
is_ascii = all (λ c. ltb c 128)

unfoldable pub is_ascii_alphanumeric : ℕ → Bool
is_ascii_alphanumeric c =
    (leb b'0' c && leb c b'9') || (leb b'A' c && leb c b'Z') || (leb b'a' c && leb c b'z')

unfoldable pub is_empty : Text → Bool
is_empty [] = true
is_empty (c ∷ s) = false

-- What holds of every character of every piece holds of the text, its separators apart.
push_head-all :
    (p : ℕ → Bool) (c : ℕ) (ws : List Text)
    → All (λ w. all p w ≡ true) (push_head c ws)
    → (p c ≡ true) × All (λ w. all p w ≡ true) ws
push_head-all p c [] h = (ground (arith, h.0), tt)
push_head-all p c (w ∷ ws) h = ground (arith, h.0, h.1)

pub all-split :
    (p : ℕ → Bool) (sep : ℕ) (s : Text)
    → All (λ w. all p w ≡ true) (split sep s)
    → all (λ c. p c || c == sep) s ≡ true
unfolding split
all-split p sep [] h = refl
all-split p sep (c ∷ s) h = elim (Bool-cases (c == sep)) [
  | inl e ↦
      let k : All (λ w. all p w ≡ true) ([] ∷ split sep s) = rw (e, if◌then◌else◌) at h in
      ground (arith, all-split p sep s k.1)
  | inr e ↦
      let k = push_head-all p c (split sep s) (rw (e, if◌then◌else◌) at h) in
      ground (arith, k.0, all-split p sep s k.1)
]

-- A text of ASCII characters has one octet for each.
pub len_ascii : (s : Text) → all (λ c. ltb c 128) s ≡ true → len s ≡ length s
unfolding len
len_ascii [] h = refl
len_ascii (c ∷ s) h = ground (arith, len_ascii s)

-- `trim_start_matches("*.")`: the pattern is taken off as often as it stands in front.
unfoldable pub trim_wildcards : Text → Text
trim_wildcards [] = []
trim_wildcards (c ∷ []) = c ∷ []
trim_wildcards (c ∷ d ∷ s) =
    let rest = trim_wildcards s in if c == b'*' && d == b'.' then rest else c ∷ d ∷ s

-- `str::ends_with`, of a text.
pub ends_with_text : Text → Text → Bool
ends_with_text s t = leb (length t) (length s) && bytes_eq (drop (length s - length t) s) t

-- `str::contains`, of a character.
unfoldable pub contains_char : Text → ℕ → Bool
contains_char [] x = false
contains_char (c ∷ s) x = c == x || contains_char s x

unfoldable pub is_ascii_alphabetic : ℕ → Bool
is_ascii_alphabetic c = (leb b'A' c && leb c b'Z') || (leb b'a' c && leb c b'z')

-- A text that ends with another is that text behind some other one.
pub ends_with_text_sound :
    (s t : Text) → ends_with_text s t ≡ true → (front : Text) × (s ≡ front ++ t)
unfolding ends_with_text
ends_with_text_sound s t h =
    let e : drop (length s - length t) s ≡ t =
      bytes_eq_sound (drop (length s - length t) s) t (ground arith) in
    (
      take (length s - length t) s,
      sym (take-append-drop (length s - length t) s)
          ∙ ap (λ u. take (length s - length t) s ++ u) e,
    )

pub ends_with_text_append : (front t : Text) → ends_with_text (front ++ t) t ≡ true
unfolding ends_with_text
ends_with_text_append front t =
    let l = length-append front t in
    let e : length (front ++ t) - length t ≡ length front = omega (arith, l) in
    rw (e, drop-append_eq (length front) front t refl) (ground (arith, l, bytes_eq_refl t))
