-- ===== src/AntiSpam/Nonces.antt =====
-- net/router/anti_spam.rs: the nonces of drill requests over sequences of calls.
use randbotd.Base.{ℕ, ◌≡◌, ◌≢◌, true, false, List, [], ◌∷◌, none, arith, All}
use randbotd.Base.Bytes.{Bytes}
use randbotd.AntiSpam.{
  PeerAntiSpamState, Call, ban, check, register, take_nonce, mark, is_banned, register_drill_nonce,
  validate_and_take_nonce, step, run,
}

-- The call does not register the nonce.
abbrev pub SparesNonce : ℕ → Call → Type 0
SparesNonce n (ban a t d) = Unit {0}
SparesNonce n (check a t) = Unit {0}
SparesNonce n (register m t) = m ≢ n
SparesNonce n (take_nonce m) = Unit {0}
SparesNonce n (mark p o q) = Unit {0}

is_banned-nonces :
    (s : PeerAntiSpamState) (a : Bytes) (t n : ℕ)
    → (is_banned s a t).0.pending_drill_nonces n ≡ s.pending_drill_nonces n
unfolding is_banned
is_banned-nonces s a t n = ground arith

step-absent :
    (n : ℕ) (op : Call) (s : PeerAntiSpamState)
    → SparesNonce n op
    → s.pending_drill_nonces n ≡ none
    → (step op s).pending_drill_nonces n ≡ none
unfolding step
step-absent n (ban a t d) s q h = h
step-absent n (check a t) s q h = rw (is_banned-nonces s a t n) h
step-absent n (register m t) s q h = ground arith
step-absent n (take_nonce m) s q h = ground arith
step-absent n (mark p o x) s q h = h

run-absent :
    (n : ℕ) (ops : List Call) (s : PeerAntiSpamState)
    → All (SparesNonce n) ops
    → s.pending_drill_nonces n ≡ none
    → (run ops s).pending_drill_nonces n ≡ none
unfolding run
run-absent n [] s q h = h
run-absent n (op ∷ ops) s q h = run-absent n ops (step op s) q.1 (step-absent n op s q.0 h)

module _ (s : PeerAntiSpamState) (n : ℕ) (ops : List Call) (spares : All (SparesNonce n) ops) where
  -- A nonce that was registered is accepted, and once it has been taken it is refused after every
  -- sequence of calls that does not register it again.
  pub validate_and_take_nonce-once :
      (now : ℕ)
      → let taken = validate_and_take_nonce (register_drill_nonce s n now) n in
        (taken.1 ≡ true) × ((validate_and_take_nonce (run ops taken.0) n).1 ≡ false)
  unfolding validate_and_take_nonce register_drill_nonce
  validate_and_take_nonce-once now = (
    ground arith,
    ground (
      arith,
      run-absent n ops (validate_and_take_nonce (register_drill_nonce s n now) n).0 spares
          (ground arith),
    ),
  )
