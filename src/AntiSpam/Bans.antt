-- ===== src/AntiSpam/Bans.antt =====
-- net/router/anti_spam.rs: bans over sequences of calls.
use randbotd.Base.{
  ℕ, ◌+◌, ◌≡◌, ◌≢◌, ◌≤◌, ◌<◌, ◌⊎◌, List, [], ◌∷◌, none, some, ltb, arith, inl, All, bytes_eq_iff,
  bytes_eq_refl,
}
use randbotd.Base.Bytes.{Bytes, u64_mod}
use randbotd.AntiSpam.{
  PeerAntiSpamState, Call, ban, check, register, take_nonce, mark, ban_peer, is_banned, step, run,
}

-- The call neither bans the peer nor comes after `now`.
abbrev pub SparesPeer : Bytes → ℕ → Call → Type 0
SparesPeer a now (ban b t d) = b ≢ a
SparesPeer a now (check b t) = t ≤ now
SparesPeer a now (register n t) = Unit {0}
SparesPeer a now (take_nonce n) = Unit {0}
SparesPeer a now (mark p o q) = Unit {0}

-- The ban stands, or it is over at `now` and has been removed.
abbrev Recorded : Bytes → ℕ → ℕ → PeerAntiSpamState → Type 0
Recorded a until now s =
    (s.banned_peers a ≡ some until) ⊎ ((s.banned_peers a ≡ none) × (until ≤ now))

check-Recorded :
    (a b : Bytes) (until now t : ℕ) (s : PeerAntiSpamState)
    → t ≤ now
    → Recorded a until now s
    → Recorded a until now (is_banned s b t).0
unfolding is_banned
check-Recorded a b until now t s q h = ground (arith, bytes_eq_iff a b)

step-Recorded :
    (a : Bytes) (until now : ℕ) (op : Call) (s : PeerAntiSpamState)
    → SparesPeer a now op
    → Recorded a until now s
    → Recorded a until now (step op s)
unfolding step
step-Recorded a until now (ban b t d) s q h = ground (arith, bytes_eq_iff a b)
step-Recorded a until now (check b t) s q h = check-Recorded a b until now t s q h
step-Recorded a until now (register n t) s q h = h
step-Recorded a until now (take_nonce n) s q h = h
step-Recorded a until now (mark p o x) s q h = h

run-Recorded :
    (a : Bytes) (until now : ℕ) (ops : List Call) (s : PeerAntiSpamState)
    → All (SparesPeer a now) ops
    → Recorded a until now s
    → Recorded a until now (run ops s)
unfolding run
run-Recorded a until now [] s q h = h
run-Recorded a until now (op ∷ ops) s q h =
    run-Recorded a until now ops (step op s) q.1 (step-Recorded a until now op s q.0 h)

Recorded-is_banned :
    (a : Bytes) (until now : ℕ) (s : PeerAntiSpamState)
    → Recorded a until now s
    → (is_banned s a now).1 ≡ ltb now until
unfolding is_banned
Recorded-is_banned a until now s h = ground arith

-- A peer that was banned at time `t` for `d` seconds, with `t + d` in 64 bits, is banned at `now`
-- exactly if `now` is before `t + d`, after every sequence of calls that neither bans the peer again
-- nor asks about a peer later than `now`.
pub is_banned-ban_peer :
    (s : PeerAntiSpamState) (addr : Bytes) (t d now : ℕ) (ops : List Call)
    → t + d < u64_mod
    → All (SparesPeer addr now) ops
    → (is_banned (run ops (ban_peer s addr t d)) addr now).1 ≡ ltb now (t + d)
unfolding ban_peer
is_banned-ban_peer s a t d now ops small spares =
    Recorded-is_banned a (t + d) now _
      (run-Recorded a (t + d) now ops _ spares (inl (ground (arith, bytes_eq_refl a))))
