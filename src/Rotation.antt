-- ===== src/Rotation.antt =====
-- pki/rotation/mod.rs: key rotation proofs of a certificate authority. `reason_json` is serde_json's form of
-- a reason, which the digest covers.
pub mod Accepted
use randbotd.Base.{
  ℕ, ◌+◌, ◌%◌, Bool, false, not, ◌&&◌, Option, none, some, List, [], ◌∷◌, map, ltb, ◌==◌, any, all,
  bytes_eq, length, if◌then◌else◌,
}
use randbotd.Base.Result.{Result, ok, fail_if, map_err, ◌>>=◌, ◌>>◌}
use randbotd.Base.Bytes.{Bytes, to_le_bytes, concat, u64_mod}
use randbotd.Base.Text.{Text, codes, as_bytes}
use randbotd.Base.Crypto.{Crypto}
use randbotd.Chain.{zero_hash}
use randbotd.Agility.{KeyAlgorithm, oid, Suites, AgilityError, verify_signature_by_algorithm}
use randbotd.Ca.{CaDeclaration, compute_ca_id, is_nil}

pub data RotationReason : Type 0 where
  routine_operational suspected_leakage compromised_key distrust_remediation : RotationReason
  other : Text → RotationReason

pub record OfferKeyRotation : Type 0 where
  pub offer_id : ℕ
  pub old_public_key : Bytes
  pub new_public_key : Bytes
  pub key_algorithm : KeyAlgorithm
  pub proof_of_possession : Bytes
  pub old_key_revocation_signature : Option Bytes

pub record KeyRotationProof : Type 0 where
  pub proof_id : Bytes
  pub ca_id : Bytes
  pub rotation_seq : ℕ
  pub prev_rotation_hash : Bytes
  pub timestamp : ℕ
  pub reason : RotationReason
  pub rotations : List OfferKeyRotation
  pub ca_signature : Bytes

pub data RotationError : Type 0 where
  empty_new_key empty_possession : ℕ → RotationError
  possession_failed : ℕ → AgilityError → RotationError
  zero_sequence genesis_hash no_rotations ca_mismatch not_owner id_mismatch : RotationError
  key_length first_seq signature_length : ℕ → RotationError
  invalid_key bad_signature first_hash broken_link : RotationError
  sequence_gap time_reversal : ℕ → ℕ → RotationError

-- `covers_all_offers`, which is also `can_reset_distrust`.
unfoldable pub covers_all_offers : KeyRotationProof → List ℕ → Bool
covers_all_offers proof active_offer_ids =
    if is_nil active_offer_ids
    then false
    else all (λ id. any (λ r. r.offer_id == id) proof.rotations) active_offer_ids

unfoldable pub can_reset_distrust : KeyRotationProof → List ℕ → Bool
can_reset_distrust proof active_offer_ids = covers_all_offers proof active_offer_ids

module _ (c : Crypto) (s : Suites) (reason_json : RotationReason → Bytes) where
  unfoldable pub compute_pop_payload : Bytes → ℕ → Bytes → ℕ → Bytes
  compute_pop_payload ca_id offer_id new_public_key timestamp = c.sha256 (
      concat (
        codes "randbotd_v1_offer_pop_domain:"
        ∷ ca_id
        ∷ to_le_bytes 4 offer_id
        ∷ new_public_key
        ∷ to_le_bytes 8 timestamp
        ∷ []))

  unfoldable pub verify_proof_of_possession :
      OfferKeyRotation → Bytes → ℕ → Result RotationError (Unit {0})
  verify_proof_of_possession r ca_id timestamp = do
    fail_if (is_nil r.new_public_key) (empty_new_key r.offer_id)
    fail_if (is_nil r.proof_of_possession) (empty_possession r.offer_id)
    let payload = compute_pop_payload ca_id r.offer_id r.new_public_key timestamp
    map_err (possession_failed r.offer_id) (
        verify_signature_by_algorithm c s r.key_algorithm r.new_public_key payload
          r.proof_of_possession)

  -- The loop over the rotations.
  unfoldable pub verify_possessions :
      List OfferKeyRotation → Bytes → ℕ → Result RotationError (Unit {0})
  verify_possessions [] ca_id timestamp = ok tt
  verify_possessions (r ∷ rs) ca_id timestamp = do
    verify_proof_of_possession r ca_id timestamp
    verify_possessions rs ca_id timestamp

  abbrev or_empty : Option Bytes → Bytes
  or_empty none = []
  or_empty (some b) = b

  unfoldable pub rotation_bytes : OfferKeyRotation → Bytes
  rotation_bytes r = concat (
      to_le_bytes 4 r.offer_id
      ∷ r.old_public_key
      ∷ r.new_public_key
      ∷ as_bytes (oid r.key_algorithm)
      ∷ r.proof_of_possession
      ∷ or_empty r.old_key_revocation_signature
      ∷ [])

  unfoldable pub compute_hash :
      Bytes → ℕ → Bytes → ℕ → RotationReason → List OfferKeyRotation → Bytes
  unfolding rotation_bytes
  compute_hash ca_id rotation_seq prev_rotation_hash timestamp reason rotations = c.sha256 (
      concat (
        codes "randbotd_v1_key_rotation_proof:"
        ∷ ca_id
        ∷ to_le_bytes 8 rotation_seq
        ∷ prev_rotation_hash
        ∷ to_le_bytes 8 timestamp
        ∷ reason_json reason
        ∷ map rotation_bytes rotations))

  -- The record that `new` builds and signs.
  unfoldable pub seal_proof :
      Bytes → ℕ → Bytes → ℕ → RotationReason → List OfferKeyRotation → Bytes → KeyRotationProof
  seal_proof ca_id rotation_seq prev_rotation_hash timestamp reason rotations ca_signing_key =
      let proof_id =
        compute_hash ca_id rotation_seq prev_rotation_hash timestamp reason rotations in
      record {
        proof_id = proof_id;
        ca_id = ca_id;
        rotation_seq = rotation_seq;
        prev_rotation_hash = prev_rotation_hash;
        timestamp = timestamp;
        reason = reason;
        rotations = rotations;
        ca_signature = c.sign ca_signing_key proof_id;
      }

  unfoldable pub new_proof :
      Bytes
      → ℕ
      → Bytes
      → ℕ
      → RotationReason
      → List OfferKeyRotation
      → Bytes
      → Result RotationError KeyRotationProof
  new_proof ca_id rotation_seq prev_rotation_hash timestamp reason rotations ca_signing_key = do
    fail_if (rotation_seq == 0) zero_sequence
    fail_if (rotation_seq == 1 && not (bytes_eq prev_rotation_hash zero_hash)) genesis_hash
    fail_if (is_nil rotations) no_rotations
    verify_possessions rotations ca_id timestamp
    ok (seal_proof ca_id rotation_seq prev_rotation_hash timestamp reason rotations ca_signing_key)

  unfoldable pub verify_ca_signature : KeyRotationProof → Bytes → Result RotationError (Unit {0})
  verify_ca_signature p ca_owner_pubkey = do
    fail_if (not (length ca_owner_pubkey == 32)) (key_length (length ca_owner_pubkey))
    fail_if (not (c.valid_key ca_owner_pubkey)) invalid_key
    fail_if (not (length p.ca_signature == 64)) (signature_length (length p.ca_signature))
    fail_if (not (c.verify ca_owner_pubkey p.proof_id p.ca_signature)) bad_signature

  unfoldable pub proof_id_of : KeyRotationProof → Bytes
  proof_id_of p =
      compute_hash p.ca_id p.rotation_seq p.prev_rotation_hash p.timestamp p.reason p.rotations

  -- The match on the previous proof.
  unfoldable pub check_previous :
      KeyRotationProof → Option KeyRotationProof → Result RotationError (Unit {0})
  check_previous p none = do
    fail_if (not (p.rotation_seq == 1)) (first_seq p.rotation_seq)
    fail_if (not (bytes_eq p.prev_rotation_hash zero_hash)) first_hash
  check_previous p (some prev) = do
    fail_if (not (p.rotation_seq == (prev.rotation_seq + 1) % u64_mod))
        (sequence_gap p.rotation_seq ((prev.rotation_seq + 1) % u64_mod))
    fail_if (not (bytes_eq p.prev_rotation_hash prev.proof_id)) broken_link
    fail_if (ltb p.timestamp prev.timestamp) (time_reversal p.timestamp prev.timestamp)

  unfoldable pub validate :
      KeyRotationProof
      → CaDeclaration
      → Bytes
      → Option KeyRotationProof
      → Result RotationError (Unit {0})
  validate p ca ca_owner_pubkey prev_proof = do
    fail_if (not (bytes_eq p.ca_id ca.ca_id)) ca_mismatch
    fail_if (not (bytes_eq ca.ca_id (compute_ca_id c ca.subject.common_name ca_owner_pubkey)))
        not_owner
    fail_if (not (bytes_eq p.proof_id (proof_id_of p))) id_mismatch
    check_previous p prev_proof
    verify_possessions p.rotations p.ca_id p.timestamp
    verify_ca_signature p ca_owner_pubkey
