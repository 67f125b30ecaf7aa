-- ===== src/Ca.antt =====
-- pki/ca.rs: the subject data of a certificate authority, its declaration and its identifier.
pub mod Rules
use randbotd.Base.{
  ℕ, Bool, true, false, not, ◌&&◌, ◌||◌, Option, none, some, List, [], ◌∷◌, ltb, ◌==◌, all,
}
use randbotd.Base.Result.{Result, ok, fail_if, ◌>>=◌, ◌>>◌}
use randbotd.Base.Bytes.{Bytes, concat}
use randbotd.Base.Text.{
  Text, codes, as_bytes, len, trim, starts_with, ends_with, is_empty, contains_char,
  is_ascii_alphabetic,
}
use randbotd.Base.Crypto.{Crypto}
use randbotd.Scope.{is_domain_in_permitted_subtrees}

pub data DomainNetworkType : Type 0 where
  clearnet handshake tor i2p : DomainNetworkType

pub record CaSubjectMetadata : Type 0 where
  pub common_name : Text
  pub organization : Option Text
  pub organizational_unit : Option Text
  pub locality : Option Text
  pub state_or_province : Option Text
  pub country : Option Text
  pub email : Option Text

pub data CaError : Type 0 where
  empty_common_name path_len_without_intermediate subtrees_without_intermediate no_network : CaError
  common_name_length organization_length unit_length locality_length state_length : ℕ → CaError
  bad_country bad_email : Text → CaError

-- `if let Some(ref x) = field { if x.trim().len() > limit { return Err(...) } }`
abbrev pub check_length : Option Text → ℕ → (ℕ → CaError) → Result CaError (Unit {0})
check_length none limit e = ok tt
check_length (some x) limit e = fail_if (ltb limit (len (trim x))) (e (len (trim x)))

abbrev pub check_country : Option Text → Result CaError (Unit {0})
check_country none = ok tt
check_country (some c) =
    fail_if (not (len (trim c) == 2) || not (all is_ascii_alphabetic (trim c)))
      (bad_country (trim c))

abbrev pub check_email : Option Text → Result CaError (Unit {0})
check_email none = ok tt
check_email (some e) =
    fail_if
      (not (contains_char (trim e) b'@') || starts_with (trim e) b'@' || ends_with (trim e) b'@')
      (bad_email (trim e))

unfoldable pub validate_subject : CaSubjectMetadata → Result CaError (Unit {0})
validate_subject s = do
  let cn_clean = trim s.common_name
  fail_if (is_empty cn_clean) empty_common_name
  fail_if (ltb 64 (len cn_clean)) (common_name_length (len cn_clean))
  check_length s.organization 64 organization_length
  check_length s.organizational_unit 64 unit_length
  check_length s.locality 128 locality_length
  check_length s.state_or_province 128 state_length
  check_country s.country
  check_email s.email

pub record CaDeclaration : Type 0 where
  pub ca_id : Bytes
  pub subject : CaSubjectMetadata
  pub issuer : CaSubjectMetadata
  pub is_intermediate : Bool
  pub path_len_constraint : Option ℕ
  pub created_at : ℕ
  pub is_draft : Bool
  pub supported_domain_networks : List DomainNetworkType
  pub permitted_subtrees : List Text
  pub current_catalog_hash : Option Bytes
  pub offer_ids : List ℕ
  pub seeking_custodians : Bool

abbrev pub is_some {ℓ} : {A : Type ℓ} → Option A → Bool
is_some none = false
is_some (some a) = true

abbrev pub is_nil {ℓ} : {A : Type ℓ} → List A → Bool
is_nil [] = true
is_nil (a ∷ as') = false

-- `CaDeclaration::new`.
unfoldable pub new_ca :
    Bytes
    → CaSubjectMetadata
    → CaSubjectMetadata
    → Bool
    → Option ℕ
    → List Text
    → ℕ
    → Bool
    → List DomainNetworkType
    → Result CaError CaDeclaration
new_ca ca_id subject issuer is_intermediate path_len_constraint permitted_subtrees created_at
      is_draft networks =
    do
      validate_subject subject
      validate_subject issuer
      fail_if (not is_intermediate && is_some path_len_constraint) path_len_without_intermediate
      fail_if (not is_intermediate && not (is_nil permitted_subtrees)) subtrees_without_intermediate
      fail_if (is_nil networks) no_network
      let ca : CaDeclaration = record {
        ca_id = ca_id;
        subject = subject;
        issuer = issuer;
        is_intermediate = is_intermediate;
        path_len_constraint = path_len_constraint;
        created_at = created_at;
        is_draft = is_draft;
        supported_domain_networks = networks;
        permitted_subtrees = permitted_subtrees;
        current_catalog_hash = none;
        offer_ids = [];
        seeking_custodians = false;
      }
      ok ca

unfoldable pub is_domain_permitted : (Text → Text) → CaDeclaration → Text → Bool
is_domain_permitted to_lowercase ca domain =
    is_domain_in_permitted_subtrees to_lowercase domain ca.permitted_subtrees

unfoldable pub compute_ca_id : Crypto → Text → Bytes → Bytes
compute_ca_id c common_name node_pubkey = c.sha256 (
    concat (
      codes "randbotd_v1_ca_identity_domain:"
      ∷ as_bytes common_name
      ∷ codes ":"
      ∷ node_pubkey
      ∷ []))
