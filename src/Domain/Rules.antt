-- ===== src/Domain/Rules.antt =====
-- pki/purge/mod.rs: the rules of `validate_domain_name`.
use randbotd.Base.{
  ℕ, ◌≤◌, ◌≡◌, refl, ◌↔◌, Bool, true, false, ◌||◌, List, [], ◌∷◌, arith, ltb, ◌==◌, length, all,
  All,
}
use randbotd.Base.Result.{ok, >>_ok}
use randbotd.Base.Text.{
  all-split, len_ascii, Text, len, trim, split, starts_with, ends_with, is_ascii,
  is_ascii_alphanumeric, is_empty,
}
use randbotd.Domain.{is_label_char, check_label, check_labels, validate_domain_name}

-- A label of letters, digits and inner hyphens, of 1 to 63 octets.
pub record IsLabel (label : Text) : Type 0 where
  pub nonempty : is_empty label ≡ false
  pub short : len label ≤ 63
  pub first : starts_with label b'-' ≡ false
  pub last : ends_with label b'-' ≡ false
  pub ascii : is_ascii label ≡ true
  pub chars : all is_label_char label ≡ true

pub record IsDomain (d : Text) : Type 0 where
  pub long_enough : 3 ≤ len d
  pub short_enough : len d ≤ 253
  pub no_leading_dot : starts_with d b'.' ≡ false
  pub no_trailing_dot : ends_with d b'.' ≡ false
  pub labels : All IsLabel (split b'.' d)

check_label-IsLabel : (label : Text) → check_label label ≡ ok tt → IsLabel label
unfolding check_label
check_label-IsLabel label h = ground arith

check_label_of_IsLabel : (label : Text) → IsLabel label → check_label label ≡ ok tt
unfolding check_label
check_label_of_IsLabel label v = ground arith

check_labels-All : (ls : List Text) → check_labels ls ≡ ok tt → All IsLabel ls
unfolding check_labels
check_labels-All [] h = tt
check_labels-All (l ∷ ls) h =
    let (a, b) = >>_ok (check_label l) (check_labels ls) h in
    (check_label-IsLabel l a, check_labels-All ls b)

check_labels_of_All : (ls : List Text) → All IsLabel ls → check_labels ls ≡ ok tt
unfolding check_labels
check_labels_of_All [] h = refl
check_labels_of_All (l ∷ ls) h = rw (check_label_of_IsLabel l h.0) (check_labels_of_All ls h.1)

-- The validation accepts a name exactly if, after trimming, it has 3 to 253 octets, no dot at either
-- end, and every label between the dots is a label.
pub validate_domain_name_iff :
    (domain : Text) → (validate_domain_name domain ≡ ok tt) ↔ IsDomain (trim domain)
unfolding validate_domain_name
validate_domain_name_iff domain = (
  λ h. ground (arith, check_labels-All (split b'.' (trim domain))),
  λ v. ground (arith, check_labels_of_All (split b'.' (trim domain)) v.labels),
)

label_chars : (ls : List Text) → All IsLabel ls → All (λ l. all is_label_char l ≡ true) ls
label_chars [] h = tt
label_chars (l ∷ ls) h = (h.0.chars, label_chars ls h.1)

abbrev is_domain_char : ℕ → Bool
is_domain_char c = is_label_char c || c == b'.'

domain_char-lt : (c : ℕ) → is_domain_char c ≡ true → ltb c 128 ≡ true
unfolding is_ascii_alphanumeric
domain_char-lt c h = ground arith

all_mono :
    (p q : ℕ → Bool)
    → ((c : ℕ) → p c ≡ true → q c ≡ true)
    → (s : Text) → all p s ≡ true
    → all q s ≡ true
all_mono p q f [] h = refl
all_mono p q f (c ∷ s) h = ground (arith, f c, all_mono p q f s)

-- An accepted name, after trimming, consists of ASCII letters, digits, hyphens and dots, and has 3 to
-- 253 characters.
pub validate_domain_name-chars :
    (domain : Text)
    → validate_domain_name domain ≡ ok tt
    → (all (λ c. is_ascii_alphanumeric c || c == b'-' || c == b'.') (trim domain) ≡ true)
      × (3 ≤ length (trim domain))
      × (length (trim domain) ≤ 253)
validate_domain_name-chars domain h =
    let v = (validate_domain_name_iff domain).0 h in
    let chars = all-split is_label_char b'.' (trim domain) (label_chars _ v.labels) in
    let size =
      len_ascii (trim domain)
        (all_mono is_domain_char (λ c. ltb c 128) domain_char-lt (trim domain) chars) in
    (
      all_mono is_domain_char _ (λ c k. ground arith) (trim domain) chars,
      omega (arith, size, v.long_enough),
      omega (arith, size, v.short_enough),
    )
