-- ===== src/AntiSpam.antt =====
-- net/router/anti_spam.rs: the bans of peers, the nonces of pending drill requests, and what a peer has
-- nothing more to send of. An address and an originator are byte strings, a map is a function, and the
-- clock, in seconds, is an argument.
pub mod Bans
pub mod Nonces
use randbotd.Base.{
  if◌then◌else◌, ℕ, ◌+◌, ◌%◌, Bool, true, false, Option, none, some, List, [], ◌∷◌, ◌&&◌, leb, ltb,
  ◌==◌, bytes_eq,
}
use randbotd.Base.Bytes.{Bytes, u64_mod}

pub record PeerAntiSpamState : Type 0 where
  pub banned_peers : Bytes → Option ℕ
  pub pending_drill_nonces : ℕ → Option ℕ
  pub saturated_originators : Bytes → Bytes → Option ℕ

abbrev pub initial_state : PeerAntiSpamState
initial_state = record {
  banned_peers = λ a. none;
  pending_drill_nonces = λ n. none;
  saturated_originators = λ a o. none;
}

pub ban_peer : PeerAntiSpamState → Bytes → ℕ → ℕ → PeerAntiSpamState
ban_peer s addr now duration_secs = record s {
  banned_peers =
      λ a. if bytes_eq a addr then some ((now + duration_secs) % u64_mod) else s.banned_peers a;
}

-- A ban that has run out is removed.
pub is_banned : PeerAntiSpamState → Bytes → ℕ → PeerAntiSpamState × Bool
is_banned s addr now = elim (s.banned_peers addr) [
  | none ↦ (s, false)
  | some until ↦ if ltb now until then (s, true) else (
    record s { banned_peers = λ a. if bytes_eq a addr then none else s.banned_peers a },
    false,
  )
]

pub register_drill_nonce : PeerAntiSpamState → ℕ → ℕ → PeerAntiSpamState
register_drill_nonce s nonce now = record s {
  pending_drill_nonces = λ n. if n == nonce then some now else s.pending_drill_nonces n;
}

abbrev pub is_present : Option ℕ → Bool
is_present none = false
is_present (some n) = true

pub validate_and_take_nonce : PeerAntiSpamState → ℕ → PeerAntiSpamState × Bool
validate_and_take_nonce s nonce = (
  record s { pending_drill_nonces = λ n. if n == nonce then none else s.pending_drill_nonces n },
  is_present (s.pending_drill_nonces nonce),
)

unfoldable pub is_originator_saturated : PeerAntiSpamState → Bytes → Bytes → ℕ → Bool
is_originator_saturated s peer originator req_end = elim (s.saturated_originators peer originator) [
  | none ↦ false
  | some highest_seq ↦ leb req_end highest_seq
]

pub mark_originator_saturated : PeerAntiSpamState → Bytes → Bytes → ℕ → PeerAntiSpamState
mark_originator_saturated s peer originator highest_seq = record s {
  saturated_originators = λ p o.
      if bytes_eq p peer && bytes_eq o originator
      then some highest_seq
      else s.saturated_originators p o;
}

-- The calls that change the state, in any order.
pub data Call : Type 0 where
  ban : Bytes → ℕ → ℕ → Call
  check : Bytes → ℕ → Call
  register : ℕ → ℕ → Call
  take_nonce : ℕ → Call
  mark : Bytes → Bytes → ℕ → Call

pub step : Call → PeerAntiSpamState → PeerAntiSpamState
unfolding ban_peer is_banned register_drill_nonce validate_and_take_nonce mark_originator_saturated
step (ban addr now duration) s = ban_peer s addr now duration
step (check addr now) s = (is_banned s addr now).0
step (register nonce now) s = register_drill_nonce s nonce now
step (take_nonce nonce) s = (validate_and_take_nonce s nonce).0
step (mark peer originator seq) s = mark_originator_saturated s peer originator seq

pub run : List Call → PeerAntiSpamState → PeerAntiSpamState
unfolding step
run [] s = s
run (op ∷ ops) s = run ops (step op s)
