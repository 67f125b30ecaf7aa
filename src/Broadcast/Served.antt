-- ===== src/Broadcast/Served.antt =====
-- net/router/broadcast/: a node that handles one packet after another.
use randbotd.Base.{◌+◌, ◌<◌, ◌≡◌, some, length}
use randbotd.Base.Bytes.{u64_mod}
use randbotd.Base.Dict.{values}
use randbotd.Gossip.{GossipMessage}
use randbotd.Tables.Reached.{IsSound, IsReached}
use randbotd.Tables.Reached.Invariant.{IsReached-IsSound}
use randbotd.Broadcast.{
  Node, Externals, handle_ca_declaration_packet, handle_crl_broadcast_packet,
  handle_domain_purge_packet, handle_key_rotation_packet, handle_vote_packet,
}
use randbotd.Broadcast.Custodian.{handle_swarm_activation_packet}
use randbotd.Broadcast.Refines.{
  IsFresh, handle_vote-Keeps, handle_ca-Keeps, handle_rotation-Keeps, handle_purge-Keeps,
  handle_activation-Keeps, handle_crl-Keeps,
}

module _ {Book : Type 0} (x : Externals Book) where
  -- The nodes that packets lead to from a node with reached tables; a panic leads nowhere.
  pub data IsServed : Node Book → Type 0 where
    up :
        {n : Node Book}
        → IsReached x.crypto x.suites x.reason_json x.scope_json n.tables
        → IsServed n
    voted :
        {n : Node Book} (msg : GossipMessage)
        → IsServed n
        → length (values n.tables.vote_store) + 1 < u64_mod
        → IsServed (handle_vote_packet x n msg)
    declared :
        {n : Node Book} (msg : GossipMessage)
        → IsServed n
        → IsServed (handle_ca_declaration_packet x n msg)
    purged :
        {n : Node Book} (msg : GossipMessage)
        → IsServed n
        → IsFresh x n.tables (x.wire.to_purge msg.payload)
        → length (values n.tables.purge_store) + 1 < u64_mod
        → IsServed (handle_domain_purge_packet x n msg)
    rotated :
        {n : Node Book} (msg : GossipMessage)
        → IsServed n
        → IsServed (handle_key_rotation_packet x n msg)
    revoked :
        {n n' : Node Book} (msg : GossipMessage)
        → IsServed n
        → handle_crl_broadcast_packet x n msg ≡ some n'
        → IsServed n'
    activated :
        {n : Node Book} (msg : GossipMessage)
        → IsServed n
        → IsServed (handle_swarm_activation_packet x n msg)

  -- Whatever packets of votes, declarations, purges, rotations, revocation lists and activations a node
  -- handles, in any order and from any peer, as long as no handler panics, its vote and purge tables have
  -- room for one more 64-bit number, and purges come under new identifiers: its tables stay reachable by
  -- the operations of the tables, so their chains hold and custodians are unique.
  pub IsServed-IsSound :
      (n : Node Book)
      → IsServed n
      → IsReached x.crypto x.suites x.reason_json x.scope_json n.tables × IsSound n.tables
  IsServed-IsSound n served =
      let r = reach n served in
      (r, IsReached-IsSound x.crypto x.suites x.reason_json x.scope_json n.tables r)
    where
      reach :
          (n : Node Book)
          → IsServed n
          → IsReached x.crypto x.suites x.reason_json x.scope_json n.tables
      reach _ (up r) = r
      reach _ (voted {n} msg s small) = handle_vote-Keeps x n msg small (reach n s)
      reach _ (declared {n} msg s) = handle_ca-Keeps x n msg (reach n s)
      reach _ (purged {n} msg s fresh small) = handle_purge-Keeps x n msg fresh small (reach n s)
      reach _ (rotated {n} msg s) = handle_rotation-Keeps x n msg (reach n s)
      reach _ (revoked {n} {n'} msg s e) = handle_crl-Keeps x n n' msg e (reach n s)
      reach _ (activated {n} msg s) = handle_activation-Keeps x n msg (reach n s)
