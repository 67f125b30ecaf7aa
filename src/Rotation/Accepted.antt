-- ===== src/Rotation/Accepted.antt =====
-- pki/rotation/mod.rs: a proof from `new` to `validate`.
use randbotd.Base.{ℕ, ◌≡◌, ◌↔◌, Option, none, some, List, arith, bytes_eq_iff, bytes_eq_refl}
use randbotd.Base.Result.{ok}
use randbotd.Base.Bytes.{Bytes}
use randbotd.Base.Crypto.{Crypto, CryptoLaws}
use randbotd.Chain.{Links, Continues, Follows, zero_hash}
use randbotd.Agility.{Suites}
use randbotd.Ca.{CaDeclaration, compute_ca_id}
use randbotd.Rotation.{
  RotationReason, OfferKeyRotation, KeyRotationProof, verify_possessions, compute_hash, seal_proof,
  new_proof, verify_ca_signature, proof_id_of, check_previous, validate,
}

abbrev pub rotation_links : Links KeyRotationProof
rotation_links = record {
  seq = λ p. p.rotation_seq;
  prev_hash = λ p. p.prev_rotation_hash;
  id = λ p. p.proof_id;
  time = λ p. p.timestamp;
}

module _ (c : Crypto) (s : Suites) (reason_json : RotationReason → Bytes) where
  check_previous_iff :
      (p : KeyRotationProof) (prev : Option KeyRotationProof)
      → (check_previous c s reason_json p prev ≡ ok tt) ↔ Follows rotation_links p prev
  unfolding check_previous
  check_previous_iff p none = (
    λ h. ground (arith, bytes_eq_iff p.prev_rotation_hash zero_hash),
    λ h. ground (arith, bytes_eq_iff p.prev_rotation_hash zero_hash),
  )
  check_previous_iff p (some prev) = (
    λ h. ground (arith, bytes_eq_iff p.prev_rotation_hash prev.proof_id),
    λ h. ground (arith, bytes_eq_iff p.prev_rotation_hash prev.proof_id),
  )

  new_proof_ok :
      (ca_id : Bytes) (seq : ℕ) (prev_hash : Bytes) (time : ℕ) (reason : RotationReason)
      (rotations : List OfferKeyRotation) (key : Bytes) (p : KeyRotationProof)
      → new_proof c s reason_json ca_id seq prev_hash time reason rotations key ≡ ok p
      → (verify_possessions c s reason_json rotations ca_id time ≡ ok tt)
        × (p ≡ seal_proof c s reason_json ca_id seq prev_hash time reason rotations key)
  unfolding new_proof
  new_proof_ok ca_id seq prev_hash time reason rotations key p h = ground arith

  -- A proof that `new` returns for an authority whose identifier is bound to the signing key is valid for
  -- that authority after any previous proof that its sequence number, hash and time continue.
  pub new_proof-validate :
      CryptoLaws c
      → (ca : CaDeclaration) (key : Bytes) (seq : ℕ) (prev_hash : Bytes) (time : ℕ)
        (reason : RotationReason) (rotations : List OfferKeyRotation)
        (prev : Option KeyRotationProof) (p : KeyRotationProof)
      → ca.ca_id ≡ compute_ca_id c ca.subject.common_name (c.verifying_key key)
      → new_proof c s reason_json ca.ca_id seq prev_hash time reason rotations key ≡ ok p
      → Continues rotation_links seq prev_hash time prev
      → validate c s reason_json p ca (c.verifying_key key) prev ≡ ok tt
  unfolding validate verify_ca_signature proof_id_of seal_proof
  new_proof-validate laws ca key seq prev_hash time reason rotations prev p owned made continues =
      let f = new_proof_ok ca.ca_id seq prev_hash time reason rotations key p made in
      let sealed = seal_proof c s reason_json ca.ca_id seq prev_hash time reason rotations key in
      let id = compute_hash c s reason_json ca.ca_id seq prev_hash time reason rotations in
      rw f.1 (
        ground (
          arith,
          bytes_eq_refl ca.ca_id,
          bytes_eq_refl id,
          bytes_eq_iff ca.ca_id (compute_ca_id c ca.subject.common_name (c.verifying_key key)),
          (check_previous_iff sealed prev).1 continues,
          f.0,
          laws.length_verifying_key key,
          laws.valid_verifying_key key,
          laws.length_sign key id,
          laws.verify_sign key id,
        ))
