-- ===== src/Broadcast/Delegation.antt =====
-- net/router/broadcast/custodian.rs: the contract of a worker and the challenge of the
-- authority, the first two of the four steps by which a worker becomes a custodian. `identity` is the
-- node's signing key, if it has one. The mock certificates (pki/swarm/mock_cert.rs) and the fetch over TCP are
-- parameters, as are the clock `now` and the random nonce; a message to be broadcast is part of the result.
use randbotd.Base.{
  ℕ, ◌-◌, ◌%◌, Bool, true, false, not, ◌&&◌, ◌||◌, Option, none, some, List, [], ◌∷◌, ltb, leb,
  if◌then◌else◌, bytes_eq, length, all, find,
}
use randbotd.Base.Result.{is_ok}
use randbotd.Base.Bytes.{Bytes, u32_mod}
use randbotd.Base.Dict.{put, or_default}
use randbotd.Agility.{KeyAlgorithm}
use randbotd.Ca.{CaDeclaration, compute_ca_id}
use randbotd.Offer.{CertificateOffer, network_contains}
use randbotd.Swarm.{
  CustodianContract, CustodianDelegationRequest, CaCapabilitiesProof, SwarmActivationConfirmation,
  CaCustodianPolicy, is_expired, contract_hash, verify_contract, verify_request, new_request,
  new_capabilities_proof,
}
use randbotd.Gossip.{GossipMessage}
use randbotd.Tables.{Tables}
use randbotd.Tables.Authorities.{get_ca, list_cas}
use randbotd.Tables.Offers.{list_offers_for_ca, get_offer}
use randbotd.Tables.Custodians.{get_custodians_for_ca, get_ca_custodian_policy}
use randbotd.Broadcast.{Node, Externals, note}

pub data Outgoing : Type 0 where
  delegation_request : CustodianDelegationRequest → Outgoing
  capabilities_proof : CaCapabilitiesProof → Outgoing
  swarm_activation : SwarmActivationConfirmation → Outgoing

-- `CaCustodianPolicy::default()`.
abbrev pub default_policy : CaCustodianPolicy
default_policy = record {
  max_work_share_pct = 30;
  min_ttl_seconds = 86400;
  target_swarm_size = 5;
  auto_accept = true;
}

pub record MockCertificates : Type 0 where
  pub build : CaDeclaration → KeyAlgorithm → ℕ → ℕ → ℕ → Option Bytes
  pub is_valid : Bytes → KeyAlgorithm → ℕ → Bool

module _ {Book : Type 0} (x : Externals Book) where
  -- The authority belongs to the key.
  abbrev pub is_owner : CaDeclaration → Bytes → Bool
  is_owner ca pubkey = bytes_eq ca.ca_id (compute_ca_id x.crypto ca.subject.common_name pubkey)

  -- The worker is a published authority that supports every network of the delegating one.
  unfoldable pub is_worker_capable : Tables → CaDeclaration → Bytes → Bool
  is_worker_capable t ca worker_pubkey =
      elim (find (λ d. not d.is_draft && is_owner d worker_pubkey) (list_cas t)) [
        | none ↦ false
        | some worker_ca ↦
            all (network_contains worker_ca.supported_domain_networks) ca.supported_domain_networks
      ]

  unfoldable pub policy_of : Tables → Bytes → CaCustodianPolicy
  policy_of t ca_id = or_default (get_ca_custodian_policy t ca_id) default_policy

  -- The checks between the signature and the staging of a contract.
  unfoldable pub is_contract_welcome : Tables → CustodianContract → CaDeclaration → Bytes → Bool
  is_contract_welcome t k ca my_pubkey =
      let policy = policy_of t ca.ca_id in
      not ca.is_draft
      && ca.seeking_custodians
      && is_owner ca my_pubkey
      && is_worker_capable t ca k.worker_pubkey
      && leb k.work_share_pct policy.max_work_share_pct
      && ltb (length (get_custodians_for_ca t ca.ca_id)) policy.target_swarm_size
      && leb policy.min_ttl_seconds (k.valid_until - k.created_at)

  abbrev pub first_offer_id : List CertificateOffer → ℕ
  first_offer_id [] = 1
  first_offer_id (o ∷ os) = o.offer_id

  -- The contract is staged; with automatic acceptance, the worker is challenged.
  unfoldable pub stage_contract :
      Node Book → CustodianContract → CaDeclaration → Bytes → ℕ → Node Book × List Outgoing
  stage_contract n k ca my_key challenge_nonce =
      let hash = contract_hash x.crypto k in
      let staged = record n { pending_contracts = put n.pending_contracts hash k } in
      let target = first_offer_id (list_offers_for_ca n.tables ca.ca_id) in
      if (policy_of n.tables ca.ca_id).auto_accept
      then (
        record staged {
          pending_challenges = put n.pending_challenges hash (challenge_nonce, target);
        },
        delegation_request
              (new_request x.crypto ca.ca_id k.worker_pubkey hash challenge_nonce target my_key)
            ∷ [],
      )
      else (staged, [])

  unfoldable pub handle_custodian_contract_packet :
      Node Book → GossipMessage → Option Bytes → ℕ → ℕ → Node Book × List Outgoing
  handle_custodian_contract_packet n msg identity now challenge_nonce =
      elim (x.wire.to_contract msg.payload) [
        | none ↦ (note x n msg true, [])
        | some k ↦
            if not (is_ok (verify_contract x.crypto k))
            then (note x n msg true, [])
            else if is_expired k now
            then (n, [])
            else elim (get_ca n.tables k.ca_id) [
              | none ↦ (n, [])
              | some ca ↦ elim identity [
                | none ↦ (n, [])
                | some my_key ↦
                    if is_contract_welcome n.tables k ca (x.crypto.verifying_key my_key)
                    then stage_contract n k ca my_key challenge_nonce
                    else (n, [])
              ]
            ]
      ]

  -- The worker's answer to a challenge for an offer.
  unfoldable pub answer_request :
      MockCertificates
      → Node Book
      → CustodianDelegationRequest
      → Bytes
      → CertificateOffer
      → CaDeclaration
      → ℕ
      → Node Book × List Outgoing
  answer_request certs n r my_key offer ca now =
      elim (certs.build ca offer.key_algorithm r.challenge_nonce 86400 now) [
        | none ↦ (n, [])
        | some cert ↦
            let hash = x.crypto.sha256 cert in
            (
              record n { mock_cert_store = put n.mock_cert_store hash cert },
              capabilities_proof (
                    new_capabilities_proof x.crypto r.ca_id my_key r.contract_hash hash
                      offer.key_algorithm (length cert % u32_mod))
                  ∷ [],
            )
      ]

  unfoldable pub handle_custodian_delegation_req_packet :
      MockCertificates → Node Book → GossipMessage → Option Bytes → ℕ → Node Book × List Outgoing
  handle_custodian_delegation_req_packet certs n msg identity now =
      elim (x.wire.to_request msg.payload) [
        | none ↦ (n, [])
        | some r ↦ elim identity [
          | none ↦ (n, [])
          | some my_key ↦
              if not (bytes_eq r.worker_pubkey (x.crypto.verifying_key my_key))
                || not (is_ok (verify_request x.crypto r msg.originator_pubkey))
              then (n, [])
              else elim (get_offer n.tables r.ca_id r.target_offer_id) [
                | none ↦ (n, [])
                | some offer ↦ elim (get_ca n.tables r.ca_id) [
                  | none ↦ (n, [])
                  | some ca ↦ answer_request certs n r my_key offer ca now
                ]
              ]
        ]
      ]
