-- ===== src/Purge/Accepted.antt =====
-- pki/purge/mod.rs: what `validate_against_ca_and_chain` asks of a purge.
use randbotd.Base.{
  ℕ, ◌≤◌, ◌<◌, ◌≡◌, ◌↔◌, true, false, Option, none, some, arith, bytes_eq_iff, length,
}
use randbotd.Base.Result.{ok}
use randbotd.Base.Bytes.{Bytes}
use randbotd.Base.Text.{Text}
use randbotd.Base.Crypto.{Crypto}
use randbotd.Pow.{leading_zero_bits, compute_digest, verify}
use randbotd.Domain.{validate_domain_name}
use randbotd.Chain.{Links, Follows, zero_hash}
use randbotd.Ca.{CaDeclaration, is_domain_permitted, compute_ca_id}
use randbotd.Purge.{
  DomainPurgeRecord, calculate_required_difficulty, has_strike,
  compute_purge_challenge_with_extra_nonce, purge_payload, purge_id_of, verify_signature,
  check_link, check_purge_work, check_authority, validate_against_ca_and_chain,
}

abbrev pub purge_links : Links DomainPurgeRecord
purge_links = record {
  seq = λ p. p.purge_seq;
  prev_hash = λ p. p.prev_purge_hash;
  id = λ p. p.purge_id;
  time = λ p. p.timestamp;
}

check_link_iff :
    (c : Crypto) (p : DomainPurgeRecord) (prev : Option DomainPurgeRecord)
    → (check_link c p prev ≡ ok tt) ↔ Follows purge_links p prev
unfolding check_link
check_link_iff c p none = (
  λ h. ground (arith, bytes_eq_iff p.prev_purge_hash zero_hash),
  λ h. ground (arith, bytes_eq_iff p.prev_purge_hash zero_hash),
)
check_link_iff c p (some prev) = (
  λ h. ground (arith, bytes_eq_iff p.prev_purge_hash prev.purge_id),
  λ h. ground (arith, bytes_eq_iff p.prev_purge_hash prev.purge_id),
)

module _ (c : Crypto) (p : DomainPurgeRecord) where
  -- The authority is published, is the one that the purge names, and is that of the node's key.
  pub record IsAuthorised (ca : CaDeclaration) (originator_pubkey : Bytes) : Type 0 where
    pub published : ca.is_draft ≡ false
    pub named : p.ca_id ≡ ca.ca_id
    pub owned : ca.ca_id ≡ compute_ca_id c ca.subject.common_name originator_pubkey

  pub record IsSealed (pubkey : Bytes) : Type 0 where
    pub key : c.valid_key pubkey ≡ true
    pub size : length p.signature ≡ 64
    pub verified : c.verify pubkey (purge_payload c p) p.signature ≡ true
    pub id_bound : p.purge_id ≡ purge_id_of c p

  -- The challenge of the purge.
  abbrev pub challenge_of : Bytes
  challenge_of =
      compute_purge_challenge_with_extra_nonce c p.ca_id p.domain p.timestamp p.prev_purge_hash
        p.purge_seq p.evidence.extra_nonce

  pub record IsAccepted (to_lowercase : Text → Text) (ca : CaDeclaration) (pubkey : Bytes)
      (prev : Option DomainPurgeRecord) (active : ℕ) : Type 0 where
    pub authorised : IsAuthorised ca pubkey
    pub domain_valid : validate_domain_name p.domain ≡ ok tt
    pub permitted : is_domain_permitted to_lowercase ca p.domain ≡ true
    pub lasting : p.timestamp < p.expires_at
    pub follows : Follows purge_links p prev
    pub signed : IsSealed pubkey
    pub worked :
        calculate_required_difficulty c active (has_strike p.evidence)
        ≤ leading_zero_bits (compute_digest c challenge_of p.evidence.pow_nonce)

  check_authority_iff :
      (ca : CaDeclaration) (key : Bytes)
      → (check_authority c p ca key ≡ ok tt) ↔ IsAuthorised ca key
  unfolding check_authority
  check_authority_iff ca key =
      let owner : Bytes = compute_ca_id c ca.subject.common_name key in
      (
        λ h. ground (arith, bytes_eq_iff p.ca_id ca.ca_id, bytes_eq_iff ca.ca_id owner),
        λ h. ground (arith, bytes_eq_iff p.ca_id ca.ca_id, bytes_eq_iff ca.ca_id owner),
      )

  verify_signature_iff : (key : Bytes) → (verify_signature c p key ≡ ok tt) ↔ IsSealed key
  unfolding verify_signature
  verify_signature_iff key = (
    λ h. ground (arith, bytes_eq_iff p.purge_id (purge_id_of c p)),
    λ h. ground (arith, bytes_eq_iff p.purge_id (purge_id_of c p)),
  )

  check_purge_work_iff :
      (active : ℕ)
      → (check_purge_work c p active ≡ ok tt) ↔ (
          calculate_required_difficulty c active (has_strike p.evidence)
          ≤ leading_zero_bits (compute_digest c challenge_of p.evidence.pow_nonce))
  unfolding check_purge_work verify
  check_purge_work_iff active = (λ h. ground arith, λ h. ground arith)

  -- A purge is accepted exactly if its authority is published, is the one it names and belongs to the node
  -- that signed it, its domain is valid and permitted to that authority, it expires after it was made, it
  -- follows the previous purge, its identifier is its digest, and its proof of work meets the difficulty
  -- that the number of active purges and the strike evidence require.
  pub validate_against_ca_and_chain_iff :
      (to_lowercase : Text → Text) (ca : CaDeclaration) (originator_pubkey : Bytes)
      (prev : Option DomainPurgeRecord) (active : ℕ)
      → (validate_against_ca_and_chain c to_lowercase p ca originator_pubkey prev active ≡ ok tt)
        ↔ IsAccepted to_lowercase ca originator_pubkey prev active
  unfolding validate_against_ca_and_chain
  validate_against_ca_and_chain_iff lower ca key prev active = (
    λ h. ground (
      arith,
      (check_authority_iff ca key).0,
      (check_link_iff c p prev).0,
      (verify_signature_iff key).0,
      (check_purge_work_iff active).0,
    ),
    λ h. ground (
      arith,
      (check_authority_iff ca key).1 h.authorised,
      (check_link_iff c p prev).1 h.follows,
      (verify_signature_iff key).1 h.signed,
      (check_purge_work_iff active).1 h.worked,
    ),
  )
