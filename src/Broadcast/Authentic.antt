-- ===== src/Broadcast/Authentic.antt =====
-- net/router/broadcast/: what has to hold for a packet to change the tables.
use randbotd.Base.{
  ◌≡◌, ◌⊎◌, inl, inr, refl, Bool, true, false, Option, none, some, arith, bytes_eq_sound,
  if◌then◌else◌,
}
use randbotd.Base.Result.{Result, ok, err, is_ok}
use randbotd.Ca.{CaDeclaration}
use randbotd.Purge.Accepted.{IsAccepted, validate_against_ca_and_chain_iff}
use randbotd.Vote.{VoteRecord, validate_against_chain}
use randbotd.Purge.{DomainPurgeRecord}
use randbotd.Gossip.{GossipMessage}
use randbotd.Tables.{Tables}
use randbotd.Tables.Votes.{get_vote_context, insert_vote}
use randbotd.Tables.Purges.{
  insert_purge, get_latest_purge_for_ca, count_active_unexpired_purges_for_ca,
}
use randbotd.Tables.Authorities.{get_ca}
use randbotd.Broadcast.{
  Node, Externals, note, is_vote_welcome, settle_vote, receive_vote, receive_purge,
  handle_vote_packet, is_purge_welcome, handle_domain_purge_packet,
}

is_ok_sound {ε} : {E : Type ε} (r : Result E (Unit {0})) → is_ok r ≡ true → r ≡ ok tt
is_ok_sound (ok tt) h = refl
is_ok_sound (err e) h = absurd (ground arith)

module _ {Book : Type 0} (x : Externals Book) (n : Node Book) (msg : GossipMessage) where
  -- A vote that the node has reason to insert.
  pub record IsAuthentic (v : VoteRecord) : Type 0 where
    pub decoded : x.wire.to_vote msg.payload ≡ some v
    pub own : v.voter_pubkey ≡ msg.originator_pubkey
    pub not_headless : x.is_peer_headless n.book v.voter_pubkey ≡ false
    pub accepted :
        (let context = get_vote_context n.tables v.voter_pubkey v.domain in
          validate_against_chain x.crypto v context.0 context.1 context.2 ≡ ok tt)

  is_vote_welcome-IsAuthentic :
      (v : VoteRecord)
      → x.wire.to_vote msg.payload ≡ some v
      → is_vote_welcome x n msg v ≡ true
      → IsAuthentic v
  unfolding is_vote_welcome
  is_vote_welcome-IsAuthentic v d h = record {
    decoded = d;
    own = bytes_eq_sound v.voter_pubkey msg.originator_pubkey (ground arith);
    not_headless = ground arith;
    accepted = is_ok_sound _ (ground arith);
  }

  -- A vote packet changes the tables only by inserting its vote, and only if the voter is the originator
  -- of the packet and no headless peer, and the chain accepts the vote in the voter's context.
  pub handle_vote_packet-IsAuthentic :
      ((handle_vote_packet x n msg).tables ≡ n.tables)
      ⊎ ((v : VoteRecord) × IsAuthentic v
          × ((handle_vote_packet x n msg).tables ≡ (insert_vote x.crypto n.tables v).0))
  unfolding handle_vote_packet note
  handle_vote_packet-IsAuthentic = received (x.wire.to_vote msg.payload) refl
    where
      decided :
          (v : VoteRecord) (b : Bool) (t : Tables) (inserted : Bool)
          → t ≡ (insert_vote x.crypto n.tables v).0
          → x.wire.to_vote msg.payload ≡ some v
          → is_vote_welcome x n msg v ≡ b
          → (let n' =
                (if b
                  then settle_vote x (note x n msg false) v t inserted
                  else note x n msg true) in
              (n'.tables ≡ n.tables)
              ⊎ ((w : VoteRecord) × IsAuthentic w
                  × (n'.tables ≡ (insert_vote x.crypto n.tables w).0)))
      decided v true t b e d h = inr (v, is_vote_welcome-IsAuthentic v d h, e)
      decided v false t b e d h = inl refl

      received :
          (o : Option VoteRecord)
          → x.wire.to_vote msg.payload ≡ o
          → ((receive_vote x n msg o).tables ≡ n.tables)
            ⊎ ((v : VoteRecord) × IsAuthentic v
                × ((receive_vote x n msg o).tables ≡ (insert_vote x.crypto n.tables v).0))
      received none d = inl refl
      received (some v) d = decided v (is_vote_welcome x n msg v) _ _ refl d refl

  -- A purge that the node has reason to insert.
  pub record IsOwnerPurge (p : DomainPurgeRecord) : Type 0 where
    pub decoded : x.wire.to_purge msg.payload ≡ some p
    pub authority : CaDeclaration
    pub known : get_ca n.tables p.ca_id ≡ some authority
    pub accepted :
        IsAccepted x.crypto p x.to_lowercase authority msg.originator_pubkey
          (get_latest_purge_for_ca n.tables p.ca_id)
          (count_active_unexpired_purges_for_ca n.tables p.ca_id p.timestamp)

  is_purge_welcome-IsOwnerPurge :
      (p : DomainPurgeRecord) (ca : CaDeclaration)
      → x.wire.to_purge msg.payload ≡ some p
      → get_ca n.tables p.ca_id ≡ some ca
      → is_purge_welcome x n.tables msg p ca ≡ true
      → IsOwnerPurge p
  unfolding is_purge_welcome
  is_purge_welcome-IsOwnerPurge p ca d k h = record {
    decoded = d;
    authority = ca;
    known = k;
    accepted =
        (validate_against_ca_and_chain_iff x.crypto p x.to_lowercase ca msg.originator_pubkey _ _).0
          (is_ok_sound _ (ground arith));
  }

  -- A purge packet changes the tables only by inserting its purge, and only if the node knows the authority
  -- and accepts the purge: the authority is published and owned by the originator of the packet, which
  -- signed the purge, the domain is valid and in the authority's subtrees, the purge follows the latest one
  -- of the authority, and its work is enough for the purges that are active.
  pub handle_domain_purge_packet-IsOwnerPurge :
      ((handle_domain_purge_packet x n msg).tables ≡ n.tables)
      ⊎ ((p : DomainPurgeRecord) × IsOwnerPurge p
          × ((handle_domain_purge_packet x n msg).tables ≡ (insert_purge n.tables p).0))
  unfolding handle_domain_purge_packet note
  handle_domain_purge_packet-IsOwnerPurge = received (x.wire.to_purge msg.payload) refl
    where
      decided :
          (p : DomainPurgeRecord) (ca : CaDeclaration) (b : Bool)
          → x.wire.to_purge msg.payload ≡ some p
          → get_ca n.tables p.ca_id ≡ some ca
          → is_purge_welcome x n.tables msg p ca ≡ b
          → (let n' =
                (if b
                  then record (note x n msg false) { tables = (insert_purge n.tables p).0 }
                  else note x n msg true) in
              (n'.tables ≡ n.tables)
              ⊎ ((w : DomainPurgeRecord) × IsOwnerPurge w
                  × (n'.tables ≡ (insert_purge n.tables w).0)))
      decided p ca true d k h = inr (p, is_purge_welcome-IsOwnerPurge p ca d k h, refl)
      decided p ca false d k h = inl refl

      looked_up :
          (p : DomainPurgeRecord) (o : Option CaDeclaration)
          → x.wire.to_purge msg.payload ≡ some p
          → get_ca n.tables p.ca_id ≡ o
          → ((receive_purge x n msg p o).tables ≡ n.tables)
            ⊎ ((w : DomainPurgeRecord) × IsOwnerPurge w
                × ((receive_purge x n msg p o).tables ≡ (insert_purge n.tables w).0))
      looked_up p none d k = inl refl
      looked_up p (some ca) d k = decided p ca (is_purge_welcome x n.tables msg p ca) d k refl

      received :
          (o : Option DomainPurgeRecord)
          → x.wire.to_purge msg.payload ≡ o
          → (let n' = elim o as (λ _. Node Book) [
            | none ↦ note x n msg true
            | some p ↦ receive_purge x n msg p (get_ca n.tables p.ca_id)
          ] in
              (n'.tables ≡ n.tables)
              ⊎ ((w : DomainPurgeRecord) × IsOwnerPurge w
                  × (n'.tables ≡ (insert_purge n.tables w).0)))
      received none d = inl refl
      received (some p) d = looked_up p (get_ca n.tables p.ca_id) d refl
