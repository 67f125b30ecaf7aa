-- ===== src/Examples/Nodes.antt =====
-- The theorems on the handlers of packets, at a node with toy primitives.
use randbotd.Base.{◌≡◌, ◌⊎◌, true, false, none, some, [], ◌∷◌, arith}
use randbotd.Base.Bytes.{Bytes}
use randbotd.Base.Text.{codes}
use randbotd.Agility.{ed25519}
use randbotd.Examples.{toy, key}
use randbotd.Examples.Records.{ballot}
use randbotd.Examples.Purges.{ca, purge, lower}
use randbotd.Examples.Stores.{blank, stocked, toy_suites}
use randbotd.Gossip.{GossipMessage}
use randbotd.Storage.{Database}
use randbotd.Ca.{CaDeclaration}
use randbotd.Vote.{VoteRecord}
use randbotd.Purge.{DomainPurgeRecord}
use randbotd.Swarm.{CaCapabilitiesProof, CustodianContract, contract_hash, new_capabilities_proof}
use randbotd.Tables.Votes.{insert_vote}
use randbotd.Tables.Purges.{insert_purge}
use randbotd.Tables.Custodians.{insert_custodian_record}
use randbotd.Tables.Reached.{IsReached, IsSound, opened}
use randbotd.Broadcast.{
  Node, Externals, Wire, handle_vote_packet, handle_ca_declaration_packet,
  handle_domain_purge_packet,
}
use randbotd.Broadcast.Delegation.{MockCertificates}
use randbotd.Broadcast.Custodian.{custodian_of, handle_ca_capabilities_proof_packet}
use randbotd.Broadcast.Served.{up, voted, declared, IsServed-IsSound}
use randbotd.Broadcast.Authentic.{
  IsAuthentic, handle_vote_packet-IsAuthentic, IsOwnerPurge,
  handle_domain_purge_packet-IsOwnerPurge,
}
use randbotd.Broadcast.Admitted.{IsContracted, handle_ca_capabilities_proof_packet-IsAdmission}

-- The contract of a worker with the authority, and the worker's proof.
abbrev contract : CustodianContract
contract = record {
  ca_id = ca.ca_id;
  worker_pubkey = toy.verifying_key key;
  work_share_pct = 10;
  created_at = 50;
  valid_until = 500;
  tcp_endpoint = codes "host:1";
  signature = [];
}

abbrev work_proof : CaCapabilitiesProof
work_proof = new_capabilities_proof toy ca.ca_id key (contract_hash toy contract) (2 ∷ []) ed25519 3

-- Every payload decodes to the one record of its type, or to none.
abbrev wire : Wire
wire = record {
  to_ca = λ b. some ca;
  to_crl = λ b. none;
  to_purge = λ b. some purge;
  to_rotation = λ b. none;
  to_vote = λ b. some ballot;
  to_contract = λ b. none;
  to_request = λ b. none;
  to_proof = λ b. some work_proof;
  to_activation = λ b. none;
}

abbrev world : Externals (Unit {0})
world = record {
  crypto = toy;
  suites = toy_suites;
  wire = wire;
  to_lowercase = lower;
  encode_proof = λ a b. [];
  reason_json = λ r. [];
  scope_json = λ s. [];
  is_peer_headless = λ b k. false;
  update_ponderation = λ b t k. b;
}

abbrev database : Database
database = record { event_log = []; pending = λ o. []; merkle_cache = λ o a b. none; disk = [] }

abbrev node : Node (Unit {0})
node = record {
  database = database;
  tables = blank;
  book = tt;
  pending_contracts = [];
  pending_challenges = [];
  mock_cert_store = [];
}

-- A node that knows the authority and has staged the contract.
abbrev informed : Node (Unit {0})
informed = record node {
  tables = stocked;
  pending_contracts = (contract_hash toy contract, contract) ∷ [];
  pending_challenges = (contract_hash toy contract, (9, 1)) ∷ [];
}

abbrev packet : GossipMessage
packet = record {
  msg_id = [];
  originator_pubkey = toy.verifying_key key;
  seq = 1;
  ttl = 3;
  payload_type = 2;
  payload = [];
  signature = [];
}

IsServed-IsSound_example :
    (let n = handle_ca_declaration_packet world (handle_vote_packet world node packet) packet in
      IsReached toy toy_suites (λ r. []) (λ s. []) n.tables × IsSound n.tables)
IsServed-IsSound_example =
    IsServed-IsSound world
      (handle_ca_declaration_packet world (handle_vote_packet world node packet) packet)
      (declared packet (voted packet (up (opened [])) (omega arith)))

handle_vote_packet-IsAuthentic_example :
    ((handle_vote_packet world node packet).tables ≡ blank)
    ⊎ ((v : VoteRecord) × IsAuthentic world node packet v
        × ((handle_vote_packet world node packet).tables ≡ (insert_vote toy blank v).0))
handle_vote_packet-IsAuthentic_example = handle_vote_packet-IsAuthentic world node packet

handle_domain_purge_packet-IsOwnerPurge_example :
    ((handle_domain_purge_packet world informed packet).tables ≡ stocked)
    ⊎ ((p : DomainPurgeRecord) × IsOwnerPurge world informed packet p
        × ((handle_domain_purge_packet world informed packet).tables ≡ (insert_purge stocked p).0))
handle_domain_purge_packet-IsOwnerPurge_example =
    handle_domain_purge_packet-IsOwnerPurge world informed packet

-- Every certificate is valid.
abbrev certs : MockCertificates
certs = record { build = λ ca a n d t. none; is_valid = λ b a n. true }

handle_ca_capabilities_proof_packet-IsAdmission_example :
    (let t =
        (handle_ca_capabilities_proof_packet world certs informed packet
          (some key)
          100
          (some (7 ∷ []))).0.tables in
      (t ≡ stocked)
      ⊎ ((p : CaCapabilitiesProof) × (my_key : Bytes) × (ca' : CaDeclaration)
          × (k : CustodianContract) × (world.wire.to_proof packet.payload ≡ some p)
          × (some key ≡ some my_key)
          × IsContracted world certs informed 100 p my_key ca' k
          × (t ≡ (insert_custodian_record stocked (custodian_of world p k ca'.ca_id 100)).0)))
handle_ca_capabilities_proof_packet-IsAdmission_example =
    handle_ca_capabilities_proof_packet-IsAdmission world certs informed 100 packet (some key)
      (some (7 ∷ []))
