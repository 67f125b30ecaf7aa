-- ===== src/Swarm.antt =====
-- pki/swarm/mod.rs: the four messages of a custodian swarm: a worker's contract, the authority's delegation
-- request, the worker's proof of its capabilities, and the authority's activation; and the record of an
-- active custodian.
pub mod Signed
use randbotd.Base.{ℕ, Bool, not, [], ◌∷◌, ltb, leb, ◌==◌, bytes_eq, length}
use randbotd.Base.Result.{Result, ok, fail_if, ◌>>=◌, ◌>>◌}
use randbotd.Base.Bytes.{Bytes, to_be_bytes, concat}
use randbotd.Base.Text.{Text, codes, as_bytes, trim, is_empty}
use randbotd.Base.Crypto.{Crypto}
use randbotd.Agility.{KeyAlgorithm, oid}

pub record CaCustodianPolicy : Type 0 where
  pub max_work_share_pct : ℕ
  pub min_ttl_seconds : ℕ
  pub target_swarm_size : ℕ
  pub auto_accept : Bool

pub record CustodianContract : Type 0 where
  pub ca_id : Bytes
  pub worker_pubkey : Bytes
  pub work_share_pct : ℕ
  pub created_at : ℕ
  pub valid_until : ℕ
  pub tcp_endpoint : Text
  pub signature : Bytes

pub record CustodianDelegationRequest : Type 0 where
  pub ca_id : Bytes
  pub worker_pubkey : Bytes
  pub contract_hash : Bytes
  pub challenge_nonce : ℕ
  pub target_offer_id : ℕ
  pub signature : Bytes

pub record CaCapabilitiesProof : Type 0 where
  pub ca_id : Bytes
  pub worker_pubkey : Bytes
  pub contract_hash : Bytes
  pub mock_cert_hash : Bytes
  pub algorithm : KeyAlgorithm
  pub cert_len : ℕ
  pub signature : Bytes

pub record SwarmActivationConfirmation : Type 0 where
  pub ca_id : Bytes
  pub worker_pubkey : Bytes
  pub contract_hash : Bytes
  pub mock_cert_hash : Bytes
  pub activated_at : ℕ
  pub signature : Bytes

pub record CustodianSwarmRecord : Type 0 where
  pub ca_id : Bytes
  pub worker_pubkey : Bytes
  pub work_share_pct : ℕ
  pub tcp_endpoint : Text
  pub activated_at : ℕ
  pub contract_hash : Bytes
  pub mock_cert_hash : Bytes

pub data SwarmError : Type 0 where
  share_over_100 not_after_creation empty_endpoint : SwarmError
  invalid_key signature_length bad_signature : SwarmError
  ca_mismatch worker_mismatch contract_mismatch : SwarmError
  activated_after_expiry : ℕ → ℕ → SwarmError

unfoldable pub contract_bytes : CustodianContract → Bytes
contract_bytes k = concat (
    codes "randbotd_custodian_contract_v1:"
    ∷ k.ca_id
    ∷ k.worker_pubkey
    ∷ (k.work_share_pct ∷ [])
    ∷ to_be_bytes 8 k.created_at
    ∷ to_be_bytes 8 k.valid_until
    ∷ as_bytes k.tcp_endpoint
    ∷ [])

unfoldable pub request_bytes : CustodianDelegationRequest → Bytes
request_bytes r = concat (
    codes "randbotd_custodian_delegation_req_v1:"
    ∷ r.ca_id
    ∷ r.worker_pubkey
    ∷ r.contract_hash
    ∷ to_be_bytes 8 r.challenge_nonce
    ∷ to_be_bytes 4 r.target_offer_id
    ∷ [])

unfoldable pub proof_bytes : CaCapabilitiesProof → Bytes
proof_bytes p = concat (
    codes "randbotd_ca_capabilities_proof_v1:"
    ∷ p.ca_id
    ∷ p.worker_pubkey
    ∷ p.contract_hash
    ∷ p.mock_cert_hash
    ∷ as_bytes (oid p.algorithm)
    ∷ to_be_bytes 4 p.cert_len
    ∷ [])

unfoldable pub activation_bytes : SwarmActivationConfirmation → Bytes
activation_bytes a = concat (
    codes "randbotd_swarm_activation_v1:"
    ∷ a.ca_id
    ∷ a.worker_pubkey
    ∷ a.contract_hash
    ∷ a.mock_cert_hash
    ∷ to_be_bytes 8 a.activated_at
    ∷ [])

unfoldable pub is_expired : CustodianContract → ℕ → Bool
is_expired k current_time = ltb k.valid_until current_time

module _ (c : Crypto) where
  -- The body that the four `verify_signature` share: key, message, signature.
  unfoldable pub verify_message : Bytes → Bytes → Bytes → Result SwarmError (Unit {0})
  verify_message pubkey message signature = do
    fail_if (not (c.valid_key pubkey)) invalid_key
    fail_if (not (length signature == 64)) signature_length
    fail_if (not (c.verify pubkey message signature)) bad_signature

  unfoldable pub contract_hash : CustodianContract → Bytes
  contract_hash k = c.sha256 (concat (contract_bytes k ∷ k.signature ∷ []))

  unfoldable pub verify_contract : CustodianContract → Result SwarmError (Unit {0})
  verify_contract k = verify_message k.worker_pubkey (contract_bytes k) k.signature

  unfoldable pub verify_request : CustodianDelegationRequest → Bytes → Result SwarmError (Unit {0})
  verify_request r ca_pubkey = verify_message ca_pubkey (request_bytes r) r.signature

  unfoldable pub verify_proof : CaCapabilitiesProof → Result SwarmError (Unit {0})
  verify_proof p = verify_message p.worker_pubkey (proof_bytes p) p.signature

  unfoldable pub verify_activation :
      SwarmActivationConfirmation → Bytes → Result SwarmError (Unit {0})
  verify_activation a ca_pubkey = verify_message ca_pubkey (activation_bytes a) a.signature

  unfoldable pub new_contract :
      Bytes → Bytes → ℕ → ℕ → ℕ → Text → Result SwarmError CustodianContract
  new_contract ca_id signing_key work_share_pct created_at valid_until tcp_endpoint = do
    fail_if (ltb 100 work_share_pct) share_over_100
    fail_if (leb valid_until created_at) not_after_creation
    fail_if (is_empty (trim tcp_endpoint)) empty_endpoint
    let contract : CustodianContract = record {
      ca_id = ca_id;
      worker_pubkey = c.verifying_key signing_key;
      work_share_pct = work_share_pct;
      created_at = created_at;
      valid_until = valid_until;
      tcp_endpoint = tcp_endpoint;
      signature = [];
    }
    ok (record contract { signature = c.sign signing_key (contract_bytes contract) })

  unfoldable pub new_request : Bytes → Bytes → Bytes → ℕ → ℕ → Bytes → CustodianDelegationRequest
  new_request ca_id worker_pubkey hash challenge_nonce target_offer_id ca_signing_key =
      let req : CustodianDelegationRequest = record {
        ca_id = ca_id;
        worker_pubkey = worker_pubkey;
        contract_hash = hash;
        challenge_nonce = challenge_nonce;
        target_offer_id = target_offer_id;
        signature = [];
      } in
      record req { signature = c.sign ca_signing_key (request_bytes req) }

  unfoldable pub new_capabilities_proof :
      Bytes → Bytes → Bytes → Bytes → KeyAlgorithm → ℕ → CaCapabilitiesProof
  new_capabilities_proof ca_id worker_signing_key hash mock_cert_hash algorithm cert_len =
      let proof : CaCapabilitiesProof = record {
        ca_id = ca_id;
        worker_pubkey = c.verifying_key worker_signing_key;
        contract_hash = hash;
        mock_cert_hash = mock_cert_hash;
        algorithm = algorithm;
        cert_len = cert_len;
        signature = [];
      } in
      record proof { signature = c.sign worker_signing_key (proof_bytes proof) }

  unfoldable pub new_activation :
      Bytes → Bytes → Bytes → Bytes → ℕ → Bytes → SwarmActivationConfirmation
  new_activation ca_id worker_pubkey hash mock_cert_hash activated_at ca_signing_key =
      let conf : SwarmActivationConfirmation = record {
        ca_id = ca_id;
        worker_pubkey = worker_pubkey;
        contract_hash = hash;
        mock_cert_hash = mock_cert_hash;
        activated_at = activated_at;
        signature = [];
      } in
      record conf { signature = c.sign ca_signing_key (activation_bytes conf) }

  unfoldable pub verify_against_contract :
      SwarmActivationConfirmation → CustodianContract → Bytes → Result SwarmError (Unit {0})
  verify_against_contract a contract ca_pubkey = do
    fail_if (not (bytes_eq a.ca_id contract.ca_id)) ca_mismatch
    fail_if (not (bytes_eq a.worker_pubkey contract.worker_pubkey)) worker_mismatch
    fail_if (not (bytes_eq a.contract_hash (contract_hash contract))) contract_mismatch
    fail_if (ltb contract.valid_until a.activated_at)
        (activated_after_expiry contract.valid_until a.activated_at)
    verify_activation a ca_pubkey
