-- ===== src/Broadcast/Custodian.antt =====
-- net/router/broadcast/custodian.rs: the proof of a worker's capabilities and the
-- activation, the last two of the four steps by which a worker becomes a custodian. `identity` is the
-- node's signing key, if it has one. The mock certificates (pki/swarm/mock_cert.rs) and the fetch over TCP are
-- parameters, as are the clock `now` and the random nonce; a message to be broadcast is part of the result.
use randbotd.Base.{
  ℕ, Bool, true, false, not, ◌&&◌, Option, none, some, List, [], ◌∷◌, if◌then◌else◌,
}
use randbotd.Base.Result.{is_ok}
use randbotd.Base.Bytes.{Bytes}
use randbotd.Base.Dict.{get}
use randbotd.Agility.{KeyAlgorithm}
use randbotd.Ca.{CaDeclaration, is_nil}
use randbotd.Swarm.{
  CustodianContract, CaCapabilitiesProof, SwarmActivationConfirmation, CustodianSwarmRecord,
  is_expired, verify_proof, verify_activation, new_activation, verify_against_contract,
}
use randbotd.Gossip.{GossipMessage}
use randbotd.Tables.Authorities.{get_ca}
use randbotd.Tables.Custodians.{insert_custodian_record}
use randbotd.Broadcast.{Node, Externals, note}
use randbotd.Broadcast.Delegation.{Outgoing, swarm_activation, MockCertificates, is_owner}

module _ {Book : Type 0} (x : Externals Book) where
  -- A fetched certificate that is there and passes its checks.
  abbrev pub is_fetched : MockCertificates → Option Bytes → KeyAlgorithm → ℕ → Bool
  is_fetched certs none algorithm expected_nonce = false
  is_fetched certs (some cert) algorithm expected_nonce =
      not (is_nil cert) && certs.is_valid cert algorithm expected_nonce

  abbrev pub custodian_of :
      CaCapabilitiesProof → CustodianContract → Bytes → ℕ → CustodianSwarmRecord
  custodian_of p k ca_id now = record {
    ca_id = ca_id;
    worker_pubkey = p.worker_pubkey;
    work_share_pct = k.work_share_pct;
    tcp_endpoint = k.tcp_endpoint;
    activated_at = now;
    contract_hash = p.contract_hash;
    mock_cert_hash = p.mock_cert_hash;
  }

  -- The confirmation is checked against the contract before the worker is admitted.
  unfoldable pub activate :
      Node Book
      → CaCapabilitiesProof
      → CustodianContract
      → Bytes
      → Bytes
      → ℕ
      → Node Book × List Outgoing
  activate n p k ca_id my_key now =
      let confirmation =
        new_activation x.crypto ca_id p.worker_pubkey p.contract_hash p.mock_cert_hash now my_key in
      if is_ok (verify_against_contract x.crypto confirmation k (x.crypto.verifying_key my_key))
      then (
        record n { tables = (insert_custodian_record n.tables (custodian_of p k ca_id now)).0 },
        swarm_activation confirmation ∷ [],
      )
      else (n, [])

  -- The authority, the staged contract and the challenge are there, and all checks pass.
  abbrev pub receive_proof :
      MockCertificates
      → Node Book
      → CaCapabilitiesProof
      → Bytes
      → ℕ
      → Option Bytes
      → Option CaDeclaration
      → Option CustodianContract
      → Option (ℕ × ℕ)
      → Node Book × List Outgoing
  receive_proof certs n p my_key now fetched none k challenge = (n, [])
  receive_proof certs n p my_key now fetched (some ca) none challenge = (n, [])
  receive_proof certs n p my_key now fetched (some ca) (some k) none = (n, [])
  receive_proof certs n p my_key now fetched (some ca) (some k) (some (expected_nonce, target)) =
      if is_ok (verify_proof x.crypto p)
        && is_owner x ca (x.crypto.verifying_key my_key)
        && not (is_expired k now)
        && is_fetched certs fetched p.algorithm expected_nonce
      then activate n p k ca.ca_id my_key now
      else (n, [])

  -- `fetched` is what the fetch of the mock certificate from the contract's endpoint returns.
  unfoldable pub handle_ca_capabilities_proof_packet :
      MockCertificates
      → Node Book
      → GossipMessage
      → Option Bytes
      → ℕ
      → Option Bytes
      → Node Book × List Outgoing
  handle_ca_capabilities_proof_packet certs n msg identity now fetched =
      elim (x.wire.to_proof msg.payload) [
        | none ↦ (n, [])
        | some p ↦ elim identity [
          | none ↦ (n, [])
          | some my_key ↦
              receive_proof certs n p my_key now fetched (get_ca n.tables p.ca_id)
                (get n.pending_contracts p.contract_hash) (get n.pending_challenges p.contract_hash)
        ]
      ]

  abbrev pub activated_record : SwarmActivationConfirmation → CustodianSwarmRecord
  activated_record a = record {
    ca_id = a.ca_id;
    worker_pubkey = a.worker_pubkey;
    work_share_pct = 0;
    tcp_endpoint = [];
    activated_at = a.activated_at;
    contract_hash = a.contract_hash;
    mock_cert_hash = a.mock_cert_hash;
  }

  abbrev pub receive_activation :
      Node Book → GossipMessage → SwarmActivationConfirmation → Option CaDeclaration → Node Book
  receive_activation n msg a none = n
  receive_activation n msg a (some ca) =
      if is_ok (verify_activation x.crypto a msg.originator_pubkey)
      then record (note x n msg false) {
        tables = (insert_custodian_record n.tables (activated_record a)).0;
      }
      else note x n msg true

  unfoldable pub handle_swarm_activation_packet : Node Book → GossipMessage → Node Book
  handle_swarm_activation_packet n msg = elim (x.wire.to_activation msg.payload) [
    | none ↦ note x n msg true
    | some a ↦ receive_activation n msg a (get_ca n.tables a.ca_id)
  ]
