-- ===== src/Broadcast/Refines.antt =====
-- net/router/broadcast/: the tables of a node that handles packets, as the state machine of the tables.
use randbotd.Base.{
  ◌+◌, ◌<◌, ◌≡◌, refl, subst, sym, Bool, true, false, Option, none, some, if◌then◌else◌, length,
  arith,
}
use randbotd.Base.Result.{Result, ok, err, is_ok}
use randbotd.Base.Bytes.{u64_mod}
use randbotd.Base.Dict.{values, contains_key}
use randbotd.Ca.{CaDeclaration}
use randbotd.Crl.{CertificateRevocationList, CrlError, verify_crl_signature}
use randbotd.Purge.{DomainPurgeRecord}
use randbotd.Vote.{VoteRecord}
use randbotd.Rotation.{KeyRotationProof}
use randbotd.Swarm.{SwarmActivationConfirmation, verify_activation}
use randbotd.Gossip.{GossipMessage}
use randbotd.Tables.{Tables}
use randbotd.Tables.Votes.{insert_vote}
use randbotd.Tables.Purges.{insert_purge}
use randbotd.Tables.Authorities.{get_ca, insert_ca}
use randbotd.Tables.Revocations.{insert_crl}
use randbotd.Tables.Reached.{
  Operation, vote_op, purge_op, rotation_op, ca_op, crl_op, custodian_op, IsAdmissible, run,
  IsReached, operated,
}
use randbotd.Broadcast.{
  Node, Externals, note, receive_ca, is_ca_welcome, handle_ca_declaration_packet, receive_crl,
  store_crl_packet, handle_crl_broadcast_packet, receive_purge, is_purge_welcome,
  handle_domain_purge_packet, receive_rotation, is_rotation_welcome, handle_key_rotation_packet,
  receive_vote, is_vote_welcome, handle_vote_packet,
}
use randbotd.Broadcast.Custodian.{
  receive_activation, activated_record, handle_swarm_activation_packet,
}

module _ {Book : Type 0} (x : Externals Book) where
  -- The tables after the packet are those before, or those that an admissible operation makes of them.
  abbrev pub Keeps : Tables → Tables → Type 0
  Keeps t t' =
      IsReached x.crypto x.suites x.reason_json x.scope_json t
      → IsReached x.crypto x.suites x.reason_json x.scope_json t'

  operate :
      (t : Tables) (o : Operation)
      → IsAdmissible t o
      → Keeps t (run x.crypto x.suites x.reason_json x.scope_json t o)
  operate t o a r = operated o r a

  stay_or :
      (b : Bool) (n : Node Book) (t : Tables) (m k : Node Book)
      → m.tables ≡ t
      → k.tables ≡ n.tables
      → Keeps n.tables t
      → Keeps n.tables (if b then m else k).tables
  stay_or true n t m k e f h = subst (Keeps n.tables) (sym e) h
  stay_or false n t m k e f h = subst (Keeps n.tables) (sym f) (λ r. r)

  pub handle_vote-Keeps :
      (n : Node Book) (msg : GossipMessage)
      → length (values n.tables.vote_store) + 1 < u64_mod
      → Keeps n.tables (handle_vote_packet x n msg).tables
  unfolding handle_vote_packet note run
  handle_vote-Keeps n msg small = go (x.wire.to_vote msg.payload)
    where
      go : (o : Option VoteRecord) → Keeps n.tables (receive_vote x n msg o).tables
      go none = λ r. r
      go (some v) =
          stay_or (is_vote_welcome x n msg v) n (insert_vote x.crypto n.tables v).0 _ _ refl refl
            (operate n.tables (vote_op v) small)

  pub handle_ca-Keeps :
      (n : Node Book) (msg : GossipMessage)
      → Keeps n.tables (handle_ca_declaration_packet x n msg).tables
  unfolding handle_ca_declaration_packet note run
  handle_ca-Keeps n msg = go (x.wire.to_ca msg.payload)
    where
      go : (o : Option CaDeclaration) → Keeps n.tables (receive_ca x n msg o).tables
      go none = λ r. r
      go (some decl) =
          stay_or (is_ca_welcome x msg decl) n (insert_ca n.tables decl).0 _ _ refl refl
            (operate n.tables (ca_op decl) tt)

  pub handle_rotation-Keeps :
      (n : Node Book) (msg : GossipMessage)
      → Keeps n.tables (handle_key_rotation_packet x n msg).tables
  unfolding handle_key_rotation_packet note run
  handle_rotation-Keeps n msg = go (x.wire.to_rotation msg.payload)
    where
      known :
          (p : KeyRotationProof) (o : Option CaDeclaration)
          → Keeps n.tables (receive_rotation x n msg p o).tables
      known p none = λ r. r
      known p (some ca) =
          stay_or (is_rotation_welcome x n.tables msg p ca) n _ _ _ refl refl
            (operate n.tables (rotation_op p) tt)

      go :
          (o : Option KeyRotationProof)
          → Keeps n.tables
              (elim o as (λ _. Node Book) [
                | none ↦ note x n msg true
                | some p ↦ receive_rotation x n msg p (get_ca n.tables p.ca_id)
              ]).tables
      go none = λ r. r
      go (some p) = known p (get_ca n.tables p.ca_id)

  -- A purge comes under an identifier that the table does not hold.
  abbrev pub IsFresh : Tables → Option DomainPurgeRecord → Type 0
  IsFresh t none = Unit {0}
  IsFresh t (some p) = contains_key t.purge_store p.purge_id ≡ false

  pub handle_purge-Keeps :
      (n : Node Book) (msg : GossipMessage)
      → IsFresh n.tables (x.wire.to_purge msg.payload)
      → length (values n.tables.purge_store) + 1 < u64_mod
      → Keeps n.tables (handle_domain_purge_packet x n msg).tables
  unfolding handle_domain_purge_packet note run
  handle_purge-Keeps n msg fresh small = go (x.wire.to_purge msg.payload) fresh
    where
      known :
          (p : DomainPurgeRecord) (o : Option CaDeclaration)
          → contains_key n.tables.purge_store p.purge_id ≡ false
          → Keeps n.tables (receive_purge x n msg p o).tables
      known p none f = λ r. r
      known p (some ca) f =
          stay_or (is_purge_welcome x n.tables msg p ca) n (insert_purge n.tables p).0 _ _ refl refl
            (operate n.tables (purge_op p) (f, small))

      go :
          (o : Option DomainPurgeRecord)
          → IsFresh n.tables o
          → Keeps n.tables
              (elim o as (λ _. Node Book) [
                | none ↦ note x n msg true
                | some p ↦ receive_purge x n msg p (get_ca n.tables p.ca_id)
              ]).tables
      go none f = λ r. r
      go (some p) f = known p (get_ca n.tables p.ca_id) f

  pub handle_activation-Keeps :
      (n : Node Book) (msg : GossipMessage)
      → Keeps n.tables (handle_swarm_activation_packet x n msg).tables
  unfolding handle_swarm_activation_packet note run
  handle_activation-Keeps n msg = go (x.wire.to_activation msg.payload)
    where
      known :
          (a : SwarmActivationConfirmation) (o : Option CaDeclaration)
          → Keeps n.tables (receive_activation x n msg a o).tables
      known a none = λ r. r
      known a (some ca) =
          stay_or (is_ok (verify_activation x.crypto a msg.originator_pubkey)) n _ _ _ refl refl
            (operate n.tables (custodian_op (activated_record x a)) tt)

      go :
          (o : Option SwarmActivationConfirmation)
          → Keeps n.tables
              (elim o as (λ _. Node Book) [
                | none ↦ note x n msg true
                | some a ↦ receive_activation x n msg a (get_ca n.tables a.ca_id)
              ]).tables
      go none = λ r. r
      go (some a) = known a (get_ca n.tables a.ca_id)

  pub handle_crl-Keeps :
      (n n' : Node Book) (msg : GossipMessage)
      → handle_crl_broadcast_packet x n msg ≡ some n'
      → Keeps n.tables n'.tables
  unfolding handle_crl_broadcast_packet run
  handle_crl-Keeps n n' msg h = go (x.wire.to_crl msg.payload) h
    where
      stored :
          (crl : CertificateRevocationList) (v : Option (Result CrlError (Unit {0})))
          → store_crl_packet x n crl v ≡ some n'
          → Keeps n.tables n'.tables
      stored crl none e = absurd (ground (arith, e))
      stored crl (some (err a)) e =
          let k : n ≡ n' = ground (arith, e) in subst (λ m. Keeps n.tables m.tables) k (λ r. r)
      stored crl (some (ok _)) e =
          let k : record n { tables = (insert_crl n.tables crl).0 } ≡ n' = ground (arith, e) in
          subst (λ m. Keeps n.tables m.tables) k (operate n.tables (crl_op crl) tt)

      known :
          (crl : CertificateRevocationList) (o : Option CaDeclaration)
          → receive_crl x n msg crl o ≡ some n'
          → Keeps n.tables n'.tables
      known crl none e = stored crl (some (ok tt)) e
      known crl (some ca) e =
          stored crl (verify_crl_signature x.crypto x.suites crl msg.originator_pubkey) e

      go :
          (o : Option CertificateRevocationList)
          → elim o as (λ _. Option (Node Book)) [
            | none ↦ some n
            | some crl ↦ receive_crl x n msg crl (get_ca n.tables crl.issuer_ca_id)
          ]
            ≡ some n'
          → Keeps n.tables n'.tables
      go none e =
          let k : n ≡ n' = ground (arith, e) in subst (λ m. Keeps n.tables m.tables) k (λ r. r)
      go (some crl) e = known crl (get_ca n.tables crl.issuer_ca_id) e
