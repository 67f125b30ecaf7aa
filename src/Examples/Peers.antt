-- ===== src/Examples/Peers.antt =====
-- The theorems on peers, ranges and reputation, at concrete inputs.
use randbotd.Base.{
  ℕ, ◌+◌, ◌-◌, ◌<◌, ◌≡◌, ◌↔◌, Bool, true, false, ◌&&◌, ◌||◌, none, List, [], ◌∷◌, ◌++◌, arith, ltb,
  replicate, take, filter,
}
use randbotd.Examples.{toy}
use randbotd.History.{EventLogEntry, SequenceRange, contains, OriginatorRangeVector}
use randbotd.AntiSpam.{
  initial_state, Call, check, register, mark, ban_peer, is_banned, register_drill_nonce,
  validate_and_take_nonce, run,
}
use randbotd.AntiSpam.Nonces.{validate_and_take_nonce-once}
use randbotd.AntiSpam.Bans.{is_banned-ban_peer}
use randbotd.Storage.Sync.{left_half, right_half, find_missing_entries_for_peer}
use randbotd.Storage.Lacking.{IsLacking}
use randbotd.Storage.Peers.{find_missing_entries_for_peer_lem, halves_exact}

abbrev calls : List Call
calls = register 8 100 ∷ check (1 ∷ []) 120 ∷ mark (1 ∷ []) (5 ∷ []) 9 ∷ []

validate_and_take_nonce-once_example :
    ((validate_and_take_nonce (register_drill_nonce initial_state 7 90) 7).1 ≡ true)
    × ((validate_and_take_nonce
          (run calls (validate_and_take_nonce (register_drill_nonce initial_state 7 90) 7).0)
          7).1
        ≡ false)
validate_and_take_nonce-once_example =
    validate_and_take_nonce-once initial_state 7 calls (λ h. omega arith, (tt, (tt, tt))) 90

is_banned-ban_peer_example :
    (is_banned (run calls (ban_peer initial_state (1 ∷ []) 100 30)) (1 ∷ []) 125).1
    ≡ ltb 125 (100 + 30)
is_banned-ban_peer_example =
    is_banned-ban_peer initial_state (1 ∷ []) 100 30 125 calls (omega arith)
      (tt, (omega arith, (tt, tt)))

abbrev entry : ℕ → EventLogEntry
entry seq = record {
  seq = seq;
  prev_hash = replicate 32 0;
  originator = 5 ∷ [];
  payload_type = 2;
  payload = [];
  signature_bytes = [];
  is_bullshit = false;
}

abbrev log : List EventLogEntry
log = entry 1 ∷ entry 2 ∷ entry 3 ∷ []

abbrev vectors : List OriginatorRangeVector
vectors =
    record {
      originator = 5 ∷ [];
      known_ranges = record { start = 1; end = 1 } ∷ [];
      merkle_root = none;
    }
    ∷ []

abbrev encode : EventLogEntry → EventLogEntry → List ℕ
encode a b = a.payload ++ b.payload

find_missing_entries_for_peer_lem_example :
    (lacks : EventLogEntry → Bool) × ((e : EventLogEntry)
      → (lacks e ≡ true) ↔ IsLacking toy log vectors e)
    × (find_missing_entries_for_peer toy encode log vectors 1 ≡ take 1 (filter lacks log))
find_missing_entries_for_peer_lem_example =
    find_missing_entries_for_peer_lem toy encode log vectors 1

abbrev range : SequenceRange
range = record { start = 3; end = 8 }

halves_exact_example :
    (contains range 5 ≡ (contains (left_half range) 5 || contains (right_half range) 5))
    × ((contains (left_half range) 5 && contains (right_half range) 5) ≡ false)
    × ((left_half range).end - (left_half range).start < range.end - range.start)
    × ((right_half range).end - (right_half range).start < range.end - range.start)
halves_exact_example = halves_exact range 5 (omega arith)
