-- ===== src/Examples/Log.antt =====
-- The theorems on the event log, at a log of one event.
use randbotd.Base.{
  ◌↔◌, All, ℕ, ◌≤◌, ◌<◌, ◌≡◌, refl, ◌≢◌, inl, false, ◌&&◌, none, some, [], ◌∷◌, ◌++◌, arith, ◌==◌,
  if◌then◌else◌, bytes_eq, replicate,
}
use randbotd.Base.Result.{is_ok, ok}
use randbotd.Base.Bytes.{Bytes, to_be_bytes, concat}
use randbotd.Base.{find}
use randbotd.Examples.{toy, toy_laws, key}
use randbotd.Gossip.{new_message}
use randbotd.History.{
  EventLogEntry, entry_signed_data, is_transient, compute_hash, verify_entry,
  payload_type_equivocation_proof,
}
use randbotd.History.Signed.{entry_of, new_message-verify_entry}
use randbotd.Storage.{
  Database, expected, is_event_at, proof_entry, append_event, range_hash,
  compute_merkle_hash_for_range,
}
use randbotd.Storage.Open.{load_entries, IsLoadable, load_entries_iff, equivocation_blocks_open}
use randbotd.Storage.Order.{IsOrdered, append_event-IsOrdered}
use randbotd.Storage.Safety.{Holds, append_event-Holds}
use randbotd.Storage.Cache.{
  IsFresh, compute_merkle_hash_for_range-IsFresh, append_event-IsFresh,
  equivocation_keeps_cached_hash,
}

-- The event with number `seq` of the key, a vote of one octet.
abbrev event : ℕ → ℕ → EventLogEntry
event seq octet = entry_of (new_message toy key seq 8 2 (octet ∷ [])) (replicate 32 0) false

event-verified : (seq octet : ℕ) → verify_entry toy (event seq octet) ≡ ok tt
event-verified seq octet =
    new_message-verify_entry toy toy_laws key seq 8 2 (octet ∷ []) (replicate 32 0) false
      (omega arith) (omega arith)

abbrev author : Bytes
author = to_be_bytes 32 5

-- A proof holds the payloads of both events.
abbrev encode : EventLogEntry → EventLogEntry → Bytes
encode a b = a.payload ++ b.payload

abbrev empty : Database
empty = record { event_log = []; pending = λ o. []; merkle_cache = λ o a b. none; disk = [] }

-- One event is logged, and the hash of the first range is cached.
abbrev grown : Database
grown = record empty {
  event_log = event 1 7 ∷ [];
  merkle_cache =
      λ o a b. if bytes_eq o author && a == 1 && b == 1 then some (some (9 ∷ [])) else none;
}

empty-IsOrdered : IsOrdered empty
empty-IsOrdered = record { numbered = λ o. tt; staged = λ o. tt }

append_event-Holds_example :
    Holds (event 1 7) (append_event toy encode grown (event 1 8)).0.event_log
append_event-Holds_example =
    append_event-Holds toy encode (event 1 7) refl grown (event 1 8) (inl refl)

event-type : (seq octet : ℕ) → (event seq octet).payload_type ≢ payload_type_equivocation_proof
unfolding new_message
event-type seq octet h = omega arith

append_event-IsOrdered_example : IsOrdered (append_event toy encode empty (event 1 7)).0
append_event-IsOrdered_example =
    append_event-IsOrdered toy encode empty (event 1 7) (event-type 1 7) (omega arith)
      empty-IsOrdered

empty-IsFresh : IsFresh toy encode empty
empty-IsFresh o a b v h = cc

event-expected : (expected toy encode [] (event 1 7).originator).0 ≤ (event 1 7).seq
unfolding expected new_message
event-expected = omega arith

append_event-IsFresh_example : IsFresh toy encode (append_event toy encode empty (event 1 7)).0
append_event-IsFresh_example =
    append_event-IsFresh toy encode empty (event 1 7) event-expected empty-IsFresh

compute_merkle_hash_for_range-IsFresh_example :
    ((compute_merkle_hash_for_range toy encode empty author 1 4).1
      ≡ range_hash toy encode [] author 1 4)
    × IsFresh toy encode (compute_merkle_hash_for_range toy encode empty author 1 4).0
    × ((compute_merkle_hash_for_range toy encode empty author 1 4).0.event_log ≡ [])
compute_merkle_hash_for_range-IsFresh_example =
    compute_merkle_hash_for_range-IsFresh toy encode empty author 1 4 empty-IsFresh

event-kept : is_transient (event 1 8).payload_type ≡ false
unfolding is_transient new_message
event-kept = refl

event-late : (event 1 8).seq < (expected toy encode grown.event_log (event 1 8).originator).0
unfolding expected new_message bytes_eq to_be_bytes
event-late = omega arith

event-found :
    find (is_event_at (event 1 8).originator (event 1 8).seq) grown.event_log ≡ some (event 1 7)
unfolding new_message bytes_eq to_be_bytes
event-found = refl

event-cached : grown.merkle_cache (event 1 8).originator 1 1 ≡ some (some (9 ∷ []))
unfolding new_message bytes_eq to_be_bytes
event-cached = refl

conflict : bytes_eq (compute_hash toy (event 1 7)) (compute_hash toy (event 1 8)) ≡ false
unfolding compute_hash new_message bytes_eq to_be_bytes concat
conflict = refl

equivocation_keeps_cached_hash_example :
    ((append_event toy encode grown (event 1 8)).0.event_log
      ≡ grown.event_log ++ proof_entry toy encode (event 1 7) (event 1 8) ∷ [])
    × ((compute_merkle_hash_for_range toy encode
          (append_event toy encode grown (event 1 8)).0
          (event 1 8).originator
          1
          1).1
        ≡ some (9 ∷ []))
equivocation_keeps_cached_hash_example =
    equivocation_keeps_cached_hash toy encode grown (event 1 8) (event 1 7)
      (event-kept, event-verified 1 8) event-late event-found conflict refl refl 1 1 (some (9 ∷ []))
      event-cached

load_entries_iff_example :
    (load_entries toy grown.event_log ≡ ok grown.event_log)
    ↔ ((grown.event_log ≡ grown.event_log) × All (IsLoadable toy) grown.event_log)
load_entries_iff_example = load_entries_iff toy grown.event_log grown.event_log

proof-unsigned : is_ok (verify_entry toy (proof_entry toy encode (event 1 7) (event 1 8))) ≡ false
unfolding verify_entry new_message proof_entry to_be_bytes bytes_eq concat entry_signed_data
proof-unsigned = refl

equivocation_blocks_open_example :
    is_ok (load_entries toy (append_event toy encode grown (event 1 8)).0.event_log) ≡ false
equivocation_blocks_open_example =
    equivocation_blocks_open toy encode grown (event 1 8) (event 1 7)
      (event-kept, event-verified 1 8) event-late event-found conflict refl refl proof-unsigned
