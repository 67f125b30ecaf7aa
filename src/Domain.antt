-- ===== src/Domain.antt =====
-- pki/purge/mod.rs, `validate_domain_name`: the syntax of domain names. The error constructors stand for
-- the messages that the source formats.
pub mod Rules
use randbotd.Base.{ℕ, Bool, not, ◌||◌, List, [], ◌∷◌, ltb, ◌==◌, all}
use randbotd.Base.Result.{Result, ok, ◌>>◌, fail_if, ◌>>=◌}
use randbotd.Base.Text.{
  Text, len, trim, split, starts_with, ends_with, is_ascii, is_ascii_alphanumeric, is_empty,
}

abbrev pub min_domain_length : ℕ
min_domain_length = 3

abbrev pub max_domain_length : ℕ
max_domain_length = 253

pub data DomainError : Type 0 where
  bad_length : ℕ → DomainError
  dot_at_edge : DomainError
  label_length hyphen_at_edge non_ascii invalid_characters : Text → DomainError

abbrev pub is_label_char : ℕ → Bool
is_label_char c = is_ascii_alphanumeric c || c == b'-'

-- The body of the loop over the labels.
pub check_label : Text → Result DomainError (Unit {0})
check_label label = do
  fail_if (is_empty label || ltb 63 (len label)) (label_length label)
  fail_if (starts_with label b'-' || ends_with label b'-') (hyphen_at_edge label)
  fail_if (not (is_ascii label)) (non_ascii label)
  fail_if (not (all is_label_char label)) (invalid_characters label)

pub check_labels : List Text → Result DomainError (Unit {0})
unfolding check_label
check_labels [] = ok tt
check_labels (label ∷ rest) = check_label label >> check_labels rest

unfoldable pub validate_domain_name : Text → Result DomainError (Unit {0})
unfolding check_labels
validate_domain_name domain = do
  let d = trim domain
  fail_if (ltb (len d) min_domain_length || ltb max_domain_length (len d)) (bad_length (len d))
  fail_if (starts_with d b'.' || ends_with d b'.') dot_at_edge
  check_labels (split b'.' d)
