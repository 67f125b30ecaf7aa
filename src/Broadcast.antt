-- ===== src/Broadcast.antt =====
-- net/router/broadcast/: what a node does with the packets of votes, authorities, revocation lists, purges and
-- key rotations that its peers broadcast; the custodian swarm is in Broadcast/Custodian.antt. The JSON decoders
-- are parameters, and so are the phonebook's test for headless peers and its update after a vote, `book` being
-- the phonebook's state. Log lines on the console are left out.
pub mod Custodian
pub mod Admitted
pub mod Authentic
pub mod Refines
pub mod Served
pub mod Delegation
use randbotd.Base.{
  ℕ, ◌+◌, ◌%◌, Bool, true, false, not, ◌||◌, Option, none, some, ◌==◌, if◌then◌else◌, bytes_eq,
}
use randbotd.Base.Result.{Result, ok, err, is_ok}
use randbotd.Base.Bytes.{Bytes, u64_mod}
use randbotd.Base.Text.{Text}
use randbotd.Base.Crypto.{Crypto}
use randbotd.Base.Dict.{Dict}
use randbotd.Agility.{Suites}
use randbotd.Scope.{CertificateCoverageScope}
use randbotd.Ca.{CaDeclaration, validate_subject, compute_ca_id}
use randbotd.Purge.{DomainPurgeRecord, validate_against_ca_and_chain}
use randbotd.Vote.{VoteRecord, validate_against_chain}
use randbotd.Rotation.{KeyRotationProof, RotationReason, validate}
use randbotd.Swarm.{
  CustodianContract, CustodianDelegationRequest, CaCapabilitiesProof, SwarmActivationConfirmation,
}
use randbotd.Crl.{CertificateRevocationList, CrlError, verify_crl_signature}
use randbotd.Gossip.{GossipMessage}
use randbotd.History.{EventLogEntry}
use randbotd.Storage.{Database, record_gossip_event}
use randbotd.Tables.{Tables}
use randbotd.Tables.Votes.{get_vote_context, insert_vote}
use randbotd.Tables.Purges.{
  get_latest_purge_for_ca, count_active_unexpired_purges_for_ca, insert_purge,
}
use randbotd.Tables.Rotations.{get_latest_key_rotation, insert_key_rotation}
use randbotd.Tables.Authorities.{get_ca, insert_ca}
use randbotd.Tables.Revocations.{insert_crl}

-- `serde_json::from_slice` at each payload.
pub record Wire : Type 0 where
  pub to_ca : Bytes → Option CaDeclaration
  pub to_crl : Bytes → Option CertificateRevocationList
  pub to_purge : Bytes → Option DomainPurgeRecord
  pub to_rotation : Bytes → Option KeyRotationProof
  pub to_vote : Bytes → Option VoteRecord
  pub to_contract : Bytes → Option CustodianContract
  pub to_request : Bytes → Option CustodianDelegationRequest
  pub to_proof : Bytes → Option CaCapabilitiesProof
  pub to_activation : Bytes → Option SwarmActivationConfirmation

pub record Node (Book : Type 0) : Type 0 where
  pub database : Database
  pub tables : Tables
  pub book : Book
  pub pending_contracts : Dict CustodianContract
  pub pending_challenges : Dict (ℕ × ℕ)
  pub mock_cert_store : Dict Bytes

-- What the handlers take from elsewhere.
pub record Externals (Book : Type 0) : Type 0 where
  pub crypto : Crypto
  pub suites : Suites
  pub wire : Wire
  pub to_lowercase : Text → Text
  pub encode_proof : EventLogEntry → EventLogEntry → Bytes
  pub reason_json : RotationReason → Bytes
  pub scope_json : CertificateCoverageScope → Bytes
  pub is_peer_headless : Book → Bytes → Bool
  pub update_ponderation : Book → Tables → Bytes → Book

module _ {Book : Type 0} (x : Externals Book) where
  -- `let _ = db.record_gossip_event(msg, is_bullshit)`.
  unfoldable pub note : Node Book → GossipMessage → Bool → Node Book
  note n msg is_bullshit = record n {
    database = (record_gossip_event x.crypto x.encode_proof n.database msg is_bullshit).0;
  }

  -- A published declaration with valid subject data, under the identifier of the originator.
  unfoldable pub is_ca_welcome : GossipMessage → CaDeclaration → Bool
  is_ca_welcome msg decl = not (
      decl.is_draft
      || not (is_ok (validate_subject decl.subject))
      || not (is_ok (validate_subject decl.issuer))
      || not (
          bytes_eq decl.ca_id
            (compute_ca_id x.crypto decl.subject.common_name msg.originator_pubkey)))

  abbrev pub receive_ca : Node Book → GossipMessage → Option CaDeclaration → Node Book
  receive_ca n msg none = note n msg true
  receive_ca n msg (some decl) =
      if is_ca_welcome msg decl
      then record (note n msg false) { tables = (insert_ca n.tables decl).0 }
      else note n msg true

  unfoldable pub handle_ca_declaration_packet : Node Book → GossipMessage → Node Book
  handle_ca_declaration_packet n msg = receive_ca n msg (x.wire.to_ca msg.payload)

  abbrev pub store_crl_packet :
      Node Book
      → CertificateRevocationList
      → Option (Result CrlError (Unit {0}))
      → Option (Node Book)
  store_crl_packet n crl none = none
  store_crl_packet n crl (some (err e)) = some n
  store_crl_packet n crl (some (ok _)) = some (record n { tables = (insert_crl n.tables crl).0 })

  -- Only a list of a known authority is verified, and against the key of the originator.
  abbrev pub receive_crl :
      Node Book
      → GossipMessage
      → CertificateRevocationList
      → Option CaDeclaration
      → Option (Node Book)
  receive_crl n msg crl none = store_crl_packet n crl (some (ok tt))
  receive_crl n msg crl (some ca) =
      store_crl_packet n crl (verify_crl_signature x.crypto x.suites crl msg.originator_pubkey)

  -- `none` is a panic of the handler.
  unfoldable pub handle_crl_broadcast_packet : Node Book → GossipMessage → Option (Node Book)
  handle_crl_broadcast_packet n msg = elim (x.wire.to_crl msg.payload) [
    | none ↦ some n
    | some crl ↦ receive_crl n msg crl (get_ca n.tables crl.issuer_ca_id)
  ]

  unfoldable pub is_purge_welcome :
      Tables → GossipMessage → DomainPurgeRecord → CaDeclaration → Bool
  is_purge_welcome t msg p ca = not (
      ca.is_draft
      || not (
          is_ok (
            validate_against_ca_and_chain x.crypto x.to_lowercase p ca msg.originator_pubkey
              (get_latest_purge_for_ca t p.ca_id)
              (count_active_unexpired_purges_for_ca t p.ca_id p.timestamp))))

  abbrev pub receive_purge :
      Node Book → GossipMessage → DomainPurgeRecord → Option CaDeclaration → Node Book
  receive_purge n msg p none = note n msg true
  receive_purge n msg p (some ca) =
      if is_purge_welcome n.tables msg p ca
      then record (note n msg false) { tables = (insert_purge n.tables p).0 }
      else note n msg true

  unfoldable pub handle_domain_purge_packet : Node Book → GossipMessage → Node Book
  handle_domain_purge_packet n msg = elim (x.wire.to_purge msg.payload) [
    | none ↦ note n msg true
    | some p ↦ receive_purge n msg p (get_ca n.tables p.ca_id)
  ]

  unfoldable pub is_rotation_welcome :
      Tables → GossipMessage → KeyRotationProof → CaDeclaration → Bool
  is_rotation_welcome t msg p ca = not (
      ca.is_draft
      || not (
          is_ok (
            validate x.crypto x.suites x.reason_json p ca msg.originator_pubkey
              (get_latest_key_rotation t p.ca_id))))

  abbrev pub receive_rotation :
      Node Book → GossipMessage → KeyRotationProof → Option CaDeclaration → Node Book
  receive_rotation n msg p none = note n msg true
  receive_rotation n msg p (some ca) =
      if is_rotation_welcome n.tables msg p ca
      then record (note n msg false) {
        tables = (insert_key_rotation x.crypto x.suites x.reason_json x.scope_json n.tables p).0;
      }
      else note n msg true

  unfoldable pub handle_key_rotation_packet : Node Book → GossipMessage → Node Book
  handle_key_rotation_packet n msg = elim (x.wire.to_rotation msg.payload) [
    | none ↦ note n msg true
    | some p ↦ receive_rotation n msg p (get_ca n.tables p.ca_id)
  ]

  -- `prev_vote.as_ref().map(|p| p.vote_seq + 1).unwrap_or(1)`.
  abbrev pub expected_vote_seq : Option VoteRecord → ℕ
  expected_vote_seq none = 1
  expected_vote_seq (some prev) = (prev.vote_seq + 1) % u64_mod

  unfoldable pub is_vote_welcome : Node Book → GossipMessage → VoteRecord → Bool
  is_vote_welcome n msg v =
      let (prev, active, revisions) = get_vote_context n.tables v.voter_pubkey v.domain in
      not (
        not (bytes_eq v.voter_pubkey msg.originator_pubkey)
        || x.is_peer_headless n.book v.voter_pubkey
        || not (v.vote_seq == expected_vote_seq prev)
        || not (is_ok (validate_against_chain x.crypto v prev active revisions)))

  -- The phonebook is updated when the vote was inserted.
  abbrev pub settle_vote : Node Book → VoteRecord → Tables → Bool → Node Book
  settle_vote n v t inserted = record n {
    tables = t;
    book = if inserted then x.update_ponderation n.book t v.voter_pubkey else n.book;
  }

  abbrev pub receive_vote : Node Book → GossipMessage → Option VoteRecord → Node Book
  receive_vote n msg none = note n msg true
  receive_vote n msg (some v) =
      let (t, r) = insert_vote x.crypto n.tables v in
      if is_vote_welcome n msg v
      then settle_vote (note n msg false) v t (is_ok r)
      else note n msg true

  unfoldable pub handle_vote_packet : Node Book → GossipMessage → Node Book
  handle_vote_packet n msg = receive_vote n msg (x.wire.to_vote msg.payload)
