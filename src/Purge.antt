-- ===== src/Purge.antt =====
-- pki/purge/mod.rs and pki/purge/pow.rs: the purge records of a certificate authority, their proof of work
-- and signature, and the chain that they form. `active` is the number of unexpired purges that the caller
-- has counted before the record.
pub mod Accepted
pub mod Fresh
use randbotd.Base.{
  ℕ, ◌+◌, ◌%◌, Bool, false, not, ◌&&◌, Option, none, some, [], ◌∷◌, ltb, leb, ◌==◌, if◌then◌else◌,
  bytes_eq, length,
}
use randbotd.Base.Result.{Result, ok, fail_if, map_err, ◌>>=◌, ◌>>◌}
use randbotd.Base.Bytes.{Bytes, to_be_bytes, concat, u64_mod}
use randbotd.Base.Text.{Text, codes, as_bytes, trim, is_empty}
use randbotd.Base.Crypto.{Crypto}
use randbotd.Pow.{
  compute_challenge, verify, solve_with_changing_field, calculate_logarithmic_difficulty,
}
use randbotd.Chain.{zero_hash}
use randbotd.Domain.{DomainError, validate_domain_name}
use randbotd.Ca.{CaDeclaration, is_domain_permitted, compute_ca_id}

abbrev pub base_pow_difficulty : ℕ
base_pow_difficulty = 12

abbrev pub unilateral_purge_penalty_bits : ℕ
unilateral_purge_penalty_bits = 4

pub data PurgeReason : Type 0 where
  untrustworthy_behavior malware_phishing key_compromise terms_violation : PurgeReason
  other : Text → PurgeReason

pub record DomainPurgeEvidence : Type 0 where
  pub reason : PurgeReason
  pub description : Text
  pub strike_evidence : Option Text
  pub pow_nonce : ℕ
  pub extra_nonce : ℕ

pub record DomainPurgeRecord : Type 0 where
  pub purge_id : Bytes
  pub ca_id : Bytes
  pub domain : Text
  pub serial_number : Option Bytes
  pub purge_seq : ℕ
  pub prev_purge_hash : Bytes
  pub timestamp : ℕ
  pub expires_at : ℕ
  pub evidence : DomainPurgeEvidence
  pub signature : Bytes

pub data PurgeError : Type 0 where
  bad_domain : DomainError → PurgeError
  expired_at_birth time_reversal sequence_gap : ℕ → ℕ → PurgeError
  zero_sequence genesis_hash empty_description draft_ca ca_mismatch not_owner : PurgeError
  outside_subtrees : Text → PurgeError
  first_seq signature_length insufficient_work : ℕ → PurgeError
  first_hash broken_link invalid_key bad_signature id_mismatch : PurgeError

unfoldable pub calculate_required_difficulty : Crypto → ℕ → Bool → ℕ
calculate_required_difficulty c active has_strike_evidence =
    calculate_logarithmic_difficulty c base_pow_difficulty active 2
      (if has_strike_evidence then 0 else unilateral_purge_penalty_bits)

-- `strike_evidence.as_ref().map(|s| !s.trim().is_empty()).unwrap_or(false)`.
unfoldable pub has_strike : DomainPurgeEvidence → Bool
has_strike e = elim e.strike_evidence [ none ↦ false | some s ↦ not (is_empty (trim s)) ]

unfoldable pub is_active_at : DomainPurgeRecord → ℕ → Bool
is_active_at p now = ltb now p.expires_at

-- The octets that the signature of a purge covers; an extra nonce of zero is left out.
unfoldable pub compute_sign_payload : Bytes → Text → ℕ → Bytes → ℕ → ℕ → DomainPurgeEvidence → Bytes
compute_sign_payload ca_id domain purge_seq prev_purge_hash timestamp expires_at evidence = concat (
    codes "randbotd_v1_domain_purge"
    ∷ ca_id
    ∷ as_bytes domain
    ∷ to_be_bytes 8 purge_seq
    ∷ prev_purge_hash
    ∷ to_be_bytes 8 timestamp
    ∷ to_be_bytes 8 expires_at
    ∷ to_be_bytes 8 evidence.pow_nonce
    ∷ (if evidence.extra_nonce == 0 then [] else to_be_bytes 8 evidence.extra_nonce)
    ∷ [])

module _ (c : Crypto) where
  unfoldable pub compute_purge_challenge_with_extra_nonce : Bytes → Text → ℕ → Bytes → ℕ → ℕ → Bytes
  compute_purge_challenge_with_extra_nonce ca_id domain timestamp prev_purge_hash purge_seq
        extra_nonce =
      if extra_nonce == 0
      then compute_challenge c (
          codes "randbotd_v1_purge_challenge"
          ∷ ca_id
          ∷ as_bytes domain
          ∷ to_be_bytes 8 timestamp
          ∷ prev_purge_hash
          ∷ to_be_bytes 8 purge_seq
          ∷ [])
      else compute_challenge c (
          codes "randbotd_v1_purge_challenge"
          ∷ ca_id
          ∷ as_bytes domain
          ∷ to_be_bytes 8 timestamp
          ∷ prev_purge_hash
          ∷ to_be_bytes 8 purge_seq
          ∷ to_be_bytes 8 extra_nonce
          ∷ [])

  unfoldable pub compute_purge_challenge : Bytes → Text → ℕ → Bytes → ℕ → Bytes
  compute_purge_challenge ca_id domain timestamp prev_purge_hash purge_seq =
      compute_purge_challenge_with_extra_nonce ca_id domain timestamp prev_purge_hash purge_seq 0

  -- `none` means that the fuel ran out.
  unfoldable pub solve_purge_pow_with_changing_field :
      ℕ → Bytes → Text → ℕ → Bytes → ℕ → ℕ → Option (ℕ × ℕ)
  solve_purge_pow_with_changing_field fuel ca_id domain timestamp prev_purge_hash purge_seq
        difficulty =
      elim (solve_with_changing_field c fuel difficulty (
        compute_purge_challenge_with_extra_nonce ca_id domain timestamp prev_purge_hash
          purge_seq)) [
            | none ↦ none
            | some (nonce, extra_nonce, challenge) ↦ some (nonce, extra_nonce)
          ]

  unfoldable pub compute_purge_id : Bytes → Text → ℕ → Bytes → ℕ → Bytes → Bytes
  compute_purge_id ca_id domain purge_seq prev_purge_hash timestamp signature = c.sha256 (
      concat (
        codes "randbotd_v1_purge_id"
        ∷ ca_id
        ∷ as_bytes domain
        ∷ to_be_bytes 8 purge_seq
        ∷ prev_purge_hash
        ∷ to_be_bytes 8 timestamp
        ∷ signature
        ∷ []))

  -- The checks of `new_with_extra_nonce`.
  unfoldable pub check_new : Text → ℕ → Bytes → ℕ → ℕ → Text → Result PurgeError (Unit {0})
  check_new domain purge_seq prev_purge_hash timestamp expires_at description = do
    map_err bad_domain (validate_domain_name domain)
    fail_if (leb expires_at timestamp) (expired_at_birth timestamp expires_at)
    fail_if (purge_seq == 0) zero_sequence
    fail_if (purge_seq == 1 && not (bytes_eq prev_purge_hash zero_hash)) genesis_hash
    fail_if (is_empty (trim description)) empty_description

  -- The record that `new_with_extra_nonce` signs and seals.
  pub seal_purge :
      Bytes
      → Text
      → Option Bytes
      → ℕ
      → Bytes
      → ℕ
      → ℕ
      → DomainPurgeEvidence
      → Bytes
      → DomainPurgeRecord
  seal_purge ca_id domain serial_number purge_seq prev_purge_hash timestamp expires_at evidence
        signing_key =
      let signature = c.sign signing_key (
        compute_sign_payload ca_id domain purge_seq prev_purge_hash timestamp expires_at
          evidence) in
      record {
        purge_id = compute_purge_id ca_id domain purge_seq prev_purge_hash timestamp signature;
        ca_id = ca_id;
        domain = domain;
        serial_number = serial_number;
        purge_seq = purge_seq;
        prev_purge_hash = prev_purge_hash;
        timestamp = timestamp;
        expires_at = expires_at;
        evidence = evidence;
        signature = signature;
      }

  -- `new_with_extra_nonce`, its reason, description, strike evidence and nonces in one record.
  unfoldable pub new_with_extra_nonce :
      Bytes
      → Text
      → Option Bytes
      → ℕ
      → Bytes
      → ℕ
      → ℕ
      → DomainPurgeEvidence
      → Bytes
      → Result PurgeError DomainPurgeRecord
  new_with_extra_nonce ca_id domain serial_number purge_seq prev_purge_hash timestamp expires_at
        evidence signing_key =
      do
        check_new domain purge_seq prev_purge_hash timestamp expires_at evidence.description
        ok (
            seal_purge ca_id domain serial_number purge_seq prev_purge_hash timestamp expires_at
              evidence signing_key)

  pub purge_payload : DomainPurgeRecord → Bytes
  purge_payload p =
      compute_sign_payload p.ca_id p.domain p.purge_seq p.prev_purge_hash p.timestamp p.expires_at
        p.evidence

  pub purge_id_of : DomainPurgeRecord → Bytes
  purge_id_of p =
      compute_purge_id p.ca_id p.domain p.purge_seq p.prev_purge_hash p.timestamp p.signature

  unfoldable pub verify_signature : DomainPurgeRecord → Bytes → Result PurgeError (Unit {0})
  verify_signature p pubkey = do
    fail_if (not (c.valid_key pubkey)) invalid_key
    fail_if (not (length p.signature == 64)) (signature_length (length p.signature))
    fail_if (not (c.verify pubkey (purge_payload p) p.signature)) bad_signature
    fail_if (not (bytes_eq p.purge_id (purge_id_of p))) id_mismatch

  -- The match on the previous purge.
  unfoldable pub check_link :
      DomainPurgeRecord → Option DomainPurgeRecord → Result PurgeError (Unit {0})
  check_link p none = do
    fail_if (not (p.purge_seq == 1)) (first_seq p.purge_seq)
    fail_if (not (bytes_eq p.prev_purge_hash zero_hash)) first_hash
  check_link p (some prev) = do
    fail_if (not (p.purge_seq == (prev.purge_seq + 1) % u64_mod))
        (sequence_gap ((prev.purge_seq + 1) % u64_mod) p.purge_seq)
    fail_if (not (bytes_eq p.prev_purge_hash prev.purge_id)) broken_link
    fail_if (ltb p.timestamp prev.timestamp) (time_reversal p.timestamp prev.timestamp)

  pub check_purge_work : DomainPurgeRecord → ℕ → Result PurgeError (Unit {0})
  check_purge_work p active =
      let required = calculate_required_difficulty c active (has_strike p.evidence) in
      let challenge =
        compute_purge_challenge_with_extra_nonce p.ca_id p.domain p.timestamp p.prev_purge_hash
          p.purge_seq p.evidence.extra_nonce in
      fail_if (not (verify c challenge p.evidence.pow_nonce required)) (insufficient_work required)

  -- The checks of the authority: published, the one that is named, and owned by the emitting node.
  pub check_authority : DomainPurgeRecord → CaDeclaration → Bytes → Result PurgeError (Unit {0})
  check_authority p ca originator_pubkey = do
    fail_if ca.is_draft draft_ca
    fail_if (not (bytes_eq p.ca_id ca.ca_id)) ca_mismatch
    fail_if (not (bytes_eq ca.ca_id (compute_ca_id c ca.subject.common_name originator_pubkey)))
        not_owner

  pub validate_against_ca_and_chain :
      (Text → Text)
      → DomainPurgeRecord
      → CaDeclaration
      → Bytes
      → Option DomainPurgeRecord
      → ℕ
      → Result PurgeError (Unit {0})
  validate_against_ca_and_chain to_lowercase p ca originator_pubkey prev_purge active = do
    check_authority p ca originator_pubkey
    map_err bad_domain (validate_domain_name p.domain)
    fail_if (not (is_domain_permitted to_lowercase ca p.domain)) (outside_subtrees p.domain)
    fail_if (leb p.expires_at p.timestamp) (expired_at_birth p.timestamp p.expires_at)
    check_link p prev_purge
    verify_signature p originator_pubkey
    check_purge_work p active
