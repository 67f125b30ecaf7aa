-- ===== src/Purge/Fresh.antt =====
-- pki/purge/mod.rs: a purge from its proof of work and its making to its validation.
use randbotd.Base.{
  ℕ, ◌<◌, ◌≡◌, refl, sym, subst, true, false, Option, some, arith, leb→le, bytes_eq_iff,
}
use randbotd.Base.Result.{ok}
use randbotd.Base.Bytes.{Bytes, u32_mod, u64_mod}
use randbotd.Base.Text.{Text, trim, is_empty}
use randbotd.Base.Crypto.{Crypto, CryptoLaws}
use randbotd.Pow.{verify}
use randbotd.Pow.Search.{solve_with_changing_field-IsSolution}
use randbotd.Domain.{validate_domain_name}
use randbotd.Chain.{Continues, zero_hash}
use randbotd.Ca.{CaDeclaration, is_domain_permitted, compute_ca_id}
use randbotd.Purge.{
  DomainPurgeEvidence, DomainPurgeRecord, calculate_required_difficulty, has_strike,
  compute_purge_challenge_with_extra_nonce, solve_purge_pow_with_changing_field, check_new,
  seal_purge, new_with_extra_nonce, purge_payload, purge_id_of, validate_against_ca_and_chain,
}
use randbotd.Purge.Accepted.{purge_links, IsSealed, validate_against_ca_and_chain_iff}

module _ (c : Crypto) (laws : CryptoLaws c) (to_lowercase : Text → Text) (signing_key : Bytes)
    (ca : CaDeclaration) (domain : Text) (serial_number : Option Bytes) (purge_seq : ℕ)
    (prev_purge_hash : Bytes) (timestamp expires_at : ℕ) (evidence : DomainPurgeEvidence) where
  abbrev sealed : DomainPurgeRecord
  sealed =
      seal_purge c ca.ca_id domain serial_number purge_seq prev_purge_hash timestamp expires_at
        evidence signing_key

  sealed-IsSealed : IsSealed c sealed (c.verifying_key signing_key)
  unfolding seal_purge purge_payload purge_id_of
  sealed-IsSealed = record {
    key = laws.valid_verifying_key signing_key;
    size = laws.length_sign signing_key _;
    verified = laws.verify_sign signing_key _;
    id_bound = refl;
  }

  -- The record of nonces that solve the puzzle of its challenge is accepted.
  sealed_accepted :
      (prev : Option DomainPurgeRecord) (active : ℕ)
      → verify c
          (compute_purge_challenge_with_extra_nonce c ca.ca_id domain timestamp prev_purge_hash
            purge_seq evidence.extra_nonce)
          evidence.pow_nonce
          (calculate_required_difficulty c active (has_strike evidence))
        ≡ true
      → validate_domain_name domain ≡ ok tt
      → timestamp < expires_at
      → ca.is_draft ≡ false
      → ca.ca_id ≡ compute_ca_id c ca.subject.common_name (c.verifying_key signing_key)
      → is_domain_permitted to_lowercase ca domain ≡ true
      → Continues purge_links purge_seq prev_purge_hash timestamp prev
      → validate_against_ca_and_chain c to_lowercase sealed ca
          (c.verifying_key signing_key)
          prev
          active
        ≡ ok tt
  unfolding verify seal_purge
  sealed_accepted prev active work valid lasting published owned permitted continues =
      (validate_against_ca_and_chain_iff c sealed to_lowercase ca (c.verifying_key signing_key) prev
          active).1
        record {
          authorised = record { published = published; named = refl; owned = owned };
          domain_valid = valid;
          permitted = permitted;
          lasting = lasting;
          follows = continues;
          signed = sealed-IsSealed;
          worked = leb→le _ _ work;
        }

  checked :
      validate_domain_name domain ≡ ok tt
      → timestamp < expires_at
      → 0 < purge_seq
      → (purge_seq ≡ 1 → prev_purge_hash ≡ zero_hash)
      → is_empty (trim evidence.description) ≡ false
      → check_new c domain purge_seq prev_purge_hash timestamp expires_at evidence.description
        ≡ ok tt
  unfolding check_new
  checked valid lasting positive genesis described =
      rw valid (ground (arith, bytes_eq_iff prev_purge_hash zero_hash))

module _ (c : Crypto) (laws : CryptoLaws c) (to_lowercase : Text → Text) (signing_key : Bytes)
    (ca : CaDeclaration) (domain : Text) (serial_number : Option Bytes) (purge_seq : ℕ)
    (prev_purge_hash : Bytes) (timestamp expires_at : ℕ) (evidence : DomainPurgeEvidence) where
  -- The evidence with the nonces of a search.
  abbrev pub solved : ℕ → ℕ → DomainPurgeEvidence
  solved nonce extra = record evidence { pow_nonce = nonce; extra_nonce = extra }

  challenge_at : ℕ → Bytes
  challenge_at =
      compute_purge_challenge_with_extra_nonce c ca.ca_id domain timestamp prev_purge_hash purge_seq

  has_strike-solved : (n x : ℕ) → has_strike (solved n x) ≡ has_strike evidence
  unfolding has_strike
  has_strike-solved n x = refl

  -- If the domain is valid, the purge ends after it begins, its sequence number is positive and a first one
  -- has the zero hash, its description is not blank, and a 32-bit nonce solves the puzzle of some 64-bit extra
  -- nonce below the fuel at the required difficulty, then the search returns nonces, `new_with_extra_nonce`
  -- returns a record with them, and the record is accepted: for a published authority that belongs to the
  -- signing key and may speak for the domain, and after any purge that its sequence number, hash and time
  -- continue.
  pub new_with_extra_nonce_accepted :
      (prev : Option DomainPurgeRecord) (fuel extra nonce active : ℕ)
      → validate_domain_name domain ≡ ok tt
      → timestamp < expires_at
      → 0 < purge_seq
      → (purge_seq ≡ 1 → prev_purge_hash ≡ zero_hash)
      → is_empty (trim evidence.description) ≡ false
      → verify c
          (compute_purge_challenge_with_extra_nonce c ca.ca_id domain timestamp prev_purge_hash
            purge_seq extra)
          nonce
          (calculate_required_difficulty c active (has_strike evidence))
        ≡ true
      → nonce < u32_mod
      → extra < fuel
      → extra < u64_mod
      → ca.is_draft ≡ false
      → ca.ca_id ≡ compute_ca_id c ca.subject.common_name (c.verifying_key signing_key)
      → is_domain_permitted to_lowercase ca domain ≡ true
      → Continues purge_links purge_seq prev_purge_hash timestamp prev
      → (n : ℕ) × (x : ℕ) × (p : DomainPurgeRecord) × (solve_purge_pow_with_changing_field c fuel
            ca.ca_id domain timestamp prev_purge_hash purge_seq
            (calculate_required_difficulty c active (has_strike evidence))
          ≡ some (n, x))
        × (new_with_extra_nonce c ca.ca_id domain serial_number purge_seq prev_purge_hash timestamp
              expires_at
              (solved n x)
              signing_key
            ≡ ok p)
        × (validate_against_ca_and_chain c to_lowercase p ca
              (c.verifying_key signing_key)
              prev
              active
            ≡ ok tt)
  unfolding solve_purge_pow_with_changing_field new_with_extra_nonce challenge_at
  new_with_extra_nonce_accepted prev fuel extra nonce active valid lasting positive genesis
        described hit k_fits e_fuel e_fits published owned permitted continues =
      let d = calculate_required_difficulty c active (has_strike evidence) in
      let (n, x, found, s) =
        solve_with_changing_field-IsSolution c d challenge_at fuel extra nonce hit k_fits e_fuel
          e_fits in
      let made =
        checked c laws to_lowercase signing_key ca domain serial_number purge_seq prev_purge_hash
          timestamp expires_at (solved n x) valid lasting positive genesis described in
      (
        n,
        x,
        seal_purge c ca.ca_id domain serial_number purge_seq prev_purge_hash timestamp expires_at
            (solved n x) signing_key,
        rw (found, solve_purge_pow_with_changing_field) refl,
        rw (made, new_with_extra_nonce) refl,
        sealed_accepted c laws to_lowercase signing_key ca domain serial_number purge_seq
            prev_purge_hash timestamp expires_at (solved n x) prev active
            (subst
              (λ b. verify c (challenge_at x) n (calculate_required_difficulty c active b) ≡ true)
              (sym (has_strike-solved n x)) s.solves)
            valid lasting published owned permitted continues,
      )
