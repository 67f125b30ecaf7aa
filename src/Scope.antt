-- ===== src/Scope.antt =====
-- pki/catalog/scope.rs: the names that an offer covers, and the subtree constraint on domains.
-- `str::to_lowercase` is a parameter.
pub mod Subtree
use randbotd.Base.{
  ℕ, ◌-◌, Bool, true, false, ◌&&◌, ◌||◌, Option, List, [], ◌∷◌, ltb, ◌==◌, if◌then◌else◌, bytes_eq,
}
use randbotd.Base.Bytes.{u32_mod}
use randbotd.Base.Text.{Text, len, trim, is_empty, trim_wildcards, ends_with_text}

pub data CertificateCoverageScope : Type 0 where
  single_fqdn wildcard_apex : CertificateCoverageScope
  multi_san : ℕ → Bool → CertificateCoverageScope
  subtree_delegation : Option ℕ → CertificateCoverageScope

unfoldable pub allows_wildcard : CertificateCoverageScope → Bool
allows_wildcard single_fqdn = false
allows_wildcard wildcard_apex = true
allows_wildcard (multi_san max_sans allow_wildcards) = allow_wildcards
allows_wildcard (subtree_delegation max_path_len) = true

unfoldable pub max_sans_of : CertificateCoverageScope → ℕ
max_sans_of single_fqdn = 1
max_sans_of wildcard_apex = 2
max_sans_of (multi_san max_sans allow_wildcards) = max_sans
max_sans_of (subtree_delegation max_path_len) = u32_mod - 1

module _ (to_lowercase : Text → Text) where
  abbrev pub clean_candidate : Text → Text
  clean_candidate domain = to_lowercase (trim_wildcards (trim domain))

  abbrev pub clean_subtree : Text → Text
  clean_subtree subtree = to_lowercase (trim subtree)

  unfoldable pub autogenerate_permitted_subtrees : Text → List Text
  autogenerate_permitted_subtrees proven_domain =
      let domain_clean = clean_candidate proven_domain in
      if is_empty domain_clean then [] else domain_clean ∷ []

  abbrev sans_of : CertificateCoverageScope → Text → List Text
  sans_of single_fqdn d = d ∷ []
  sans_of wildcard_apex d = d ∷ (b'*' ∷ b'.' ∷ d) ∷ []
  sans_of (multi_san max_sans allow_wildcards) d = d ∷ []
  sans_of (subtree_delegation max_path_len) d = []

  unfoldable pub autogenerate_sans : CertificateCoverageScope → Text → List Text
  autogenerate_sans scope proven_domain =
      let domain_clean = clean_candidate proven_domain in
      if is_empty domain_clean then [] else sans_of scope domain_clean

  -- The body of the loop, for a cleaned subtree that is not empty: a leading dot asks for a proper
  -- subdomain.
  pub matches_subtree : Text → Text → Bool
  matches_subtree cand [] = false
  matches_subtree cand (x ∷ suffix) =
      if x == b'.'
      then ends_with_text cand (x ∷ suffix) || (bytes_eq cand suffix && ltb (len suffix) (len cand))
      else bytes_eq cand (x ∷ suffix) || ends_with_text cand (b'.' ∷ x ∷ suffix)

  pub any_subtree : Text → List Text → Bool
  unfolding matches_subtree
  any_subtree cand [] = false
  any_subtree cand (subtree ∷ rest) =
      matches_subtree cand (clean_subtree subtree) || any_subtree cand rest

  unfoldable pub is_domain_in_permitted_subtrees : Text → List Text → Bool
  unfolding any_subtree
  is_domain_in_permitted_subtrees domain [] = true
  is_domain_in_permitted_subtrees domain (s ∷ ss) =
      let cand_clean = clean_candidate domain in
      if is_empty cand_clean then false else any_subtree cand_clean (s ∷ ss)
