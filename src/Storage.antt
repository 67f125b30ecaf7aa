-- ===== src/Storage.antt =====
-- storage/db/mod.rs and storage/db/merkle.rs: the event log of a node, the staging of events that come
-- out of order, and the cache of range hashes. `disk` holds the outcomes of the coming writes to the log
-- file, none left meaning success; a poisoned lock does not occur in the model, and log lines on the
-- console are left out. `encode_proof` is serde_json's form of an equivocation proof.
pub mod Log
pub mod Order
pub mod Safety
pub mod Cache
pub mod Sync
pub mod Vectors
pub mod Lacking
pub mod Open
pub mod Peers
use randbotd.Base.{
  ℕ, ◌+◌, ◌-◌, ◌%◌, Bool, true, not, ◌&&◌, Option, none, some, List, [], ◌∷◌, ◌++◌, map, ltb, leb,
  ◌==◌, if◌then◌else◌, bytes_eq, length, replicate,
}
use randbotd.Base.Result.{Result, ok, err}
use randbotd.Base.Bytes.{Bytes, concat, u64_mod}
use randbotd.Base.Crypto.{Crypto}
use randbotd.Base.{filter, any, find, rfind}
use randbotd.Gossip.{GossipMessage}
use randbotd.History.Signed.{entry_of}
use randbotd.History.{
  payload_type_equivocation_proof, is_transient, EventLogEntry, EntryError, compute_hash,
  verify_entry, contains,
}

abbrev pub max_staged_events : ℕ
max_staged_events = 50

pub data DbError : Type 0 where
  transient : ℕ → DbError
  invalid_signature : EntryError → DbError
  write_failed rewrite_failed : DbError

-- `pending` maps an originator to its staged events, and `merkle_cache` a range to a cached hash.
pub record Database : Type 0 where
  pub event_log : List EventLogEntry
  pub pending : Bytes → List EventLogEntry
  pub merkle_cache : Bytes → ℕ → ℕ → Option (Option Bytes)
  pub disk : List Bool

-- The next write to disk: whether it succeeds, and the outcomes after it.
abbrev pub next_write : List Bool → Bool × List Bool
next_write [] = (true, [])
next_write (b ∷ bs) = (b, bs)

-- An event of an originator that is not an equivocation proof.
abbrev pub is_event_of : Bytes → EventLogEntry → Bool
is_event_of o e = bytes_eq e.originator o && not (e.payload_type == payload_type_equivocation_proof)

abbrev pub is_event_at : Bytes → ℕ → EventLogEntry → Bool
is_event_at o seq e =
    bytes_eq e.originator o
    && e.seq == seq
    && not (e.payload_type == payload_type_equivocation_proof)

-- `log[idx] = entry` at the first position that passes the test.
pub replace_first : (EventLogEntry → Bool) → EventLogEntry → List EventLogEntry → List EventLogEntry
replace_first p entry [] = []
replace_first p entry (x ∷ xs) = if p x then entry ∷ xs else x ∷ replace_first p entry xs

-- `sort_by_key` on the sequence number, which is stable.
pub insert_by_seq : EventLogEntry → List EventLogEntry → List EventLogEntry
insert_by_seq x [] = x ∷ []
insert_by_seq x (y ∷ ys) = if leb x.seq y.seq then x ∷ y ∷ ys else y ∷ insert_by_seq x ys

pub sort_by_seq : List EventLogEntry → List EventLogEntry
unfolding insert_by_seq
sort_by_seq [] = []
sort_by_seq (x ∷ xs) = insert_by_seq x (sort_by_seq xs)

abbrev pub update :
    (Bytes → List EventLogEntry) → Bytes → List EventLogEntry → Bytes → List EventLogEntry
update f o es o' = if bytes_eq o' o then es else f o'

module _ (c : Crypto) (encode_proof : EventLogEntry → EventLogEntry → Bytes) where
  abbrev pub successor : Option EventLogEntry → ℕ × Bytes
  successor none = (1, replicate 32 0)
  successor (some e) = ((e.seq + 1) % u64_mod, compute_hash c e)

  -- The sequence number and the previous hash that the next event of an originator should have.
  unfoldable pub expected : List EventLogEntry → Bytes → ℕ × Bytes
  expected log originator = successor (rfind (is_event_of originator) log)

  -- `persist_and_append_entry`.
  pub persist_and_append_entry : Database → EventLogEntry → Database × Result DbError (Unit {0})
  persist_and_append_entry db entry =
      let (written, disk) = next_write db.disk in
      if written
      then (record db { event_log = db.event_log ++ entry ∷ []; disk = disk }, ok tt)
      else (record db { disk = disk }, err write_failed)

  -- An event beyond the expected one waits, while there is room and no other waits with its number.
  pub stage : Database → EventLogEntry → Database
  stage db entry =
      let staged = db.pending entry.originator in
      if leb max_staged_events (length staged)
      then db
      else if any (λ e. e.seq == entry.seq) staged
      then db
      else record db {
        pending = update db.pending entry.originator (sort_by_seq (staged ++ entry ∷ []));
      }

  unfoldable pub canonical_prev_hash : List EventLogEntry → EventLogEntry → Bytes
  canonical_prev_hash log entry =
      if entry.seq == 1
      then replicate 32 0
      else elim (rfind (is_event_at entry.originator ((entry.seq + (u64_mod - 1)) % u64_mod)) log) [
        | some e ↦ compute_hash c e
        | none ↦ replicate 32 0
      ]

  unfoldable pub proof_entry : EventLogEntry → EventLogEntry → EventLogEntry
  proof_entry existing entry = record {
    seq = entry.seq;
    prev_hash = replicate 32 0;
    originator = entry.originator;
    payload_type = payload_type_equivocation_proof;
    payload = encode_proof existing entry;
    signature_bytes = entry.signature_bytes;
    is_bullshit = true;
  }

  -- `existing` is overridden by the incoming event if it was flagged and the incoming one links.
  pub override : Database → EventLogEntry → EventLogEntry → Database × Result DbError (Unit {0})
  override db existing entry =
      if existing.is_bullshit && bytes_eq entry.prev_hash (canonical_prev_hash db.event_log entry)
      then (let (written, disk) = next_write db.disk in
          (
            record db {
              event_log = replace_first (is_event_at entry.originator entry.seq) entry db.event_log;
              disk = disk;
            },
            if written then ok tt else err rewrite_failed,
          ))
      else (db, ok tt)

  abbrev pub and_then :
      Database × Result DbError (Unit {0})
      → (Database → Database × Result DbError (Unit {0}))
      → Database × Result DbError (Unit {0})
  and_then (db, ok _) f = f db
  and_then (db, err e) f = (db, err e)

  -- An event with a number that is taken: the same event again, or an equivocation.
  pub resolve : Database → EventLogEntry → Database × Result DbError (Unit {0})
  resolve db entry = elim (find (is_event_at entry.originator entry.seq) db.event_log) [
    | none ↦ (db, ok tt)
    | some existing ↦
        if bytes_eq (compute_hash c existing) (compute_hash c entry)
        then (db, ok tt)
        else and_then (override db existing entry)
            (λ db'. persist_and_append_entry db' (proof_entry existing entry))
  ]

  -- The flag of an event that does not link to the previous one.
  pub flag_unlinked : EventLogEntry → Bytes → EventLogEntry
  flag_unlinked e prev_hash =
      if bytes_eq e.prev_hash prev_hash then e else record e { is_bullshit = true }

  pub record Drained : Type 0 where
    pub log : List EventLogEntry
    pub staged : List EventLogEntry
    pub outcomes : List Bool

  -- The loop that moves staged events into the log.
  pub drain : List EventLogEntry → List Bool → List EventLogEntry → ℕ → Bytes → Drained
  drain log disk [] next_seq prev_hash = record { log = log; staged = []; outcomes = disk }
  drain log disk (item ∷ rest) next_seq prev_hash =
      let next_item = flag_unlinked item prev_hash in
      let (written, disk') = next_write disk in
      let more =
        drain (log ++ next_item ∷ []) disk' rest ((item.seq + 1) % u64_mod)
          (compute_hash c next_item) in
      if item.seq == next_seq
      then (if written then more else record { log = log; staged = rest; outcomes = disk' })
      else record { log = log; staged = item ∷ rest; outcomes = disk }

  abbrev pub empty_cache : Bytes → ℕ → ℕ → Option (Option Bytes)
  empty_cache o a b = none

  abbrev pub settle : Database → EventLogEntry → Drained → Database
  settle db entry d = record {
    event_log = d.log;
    pending = update db.pending entry.originator d.staged;
    merkle_cache = empty_cache;
    disk = d.outcomes;
  }

  -- The event that was expected: it is logged, flagged if it does not link, and what waited follows.
  pub ingest : Database → EventLogEntry → Bytes → Database × Result DbError (Unit {0})
  ingest db entry prev_hash =
      let final_entry = flag_unlinked entry prev_hash in
      and_then (persist_and_append_entry db final_entry) λ db'. (
        settle db' entry (
            drain db'.event_log db'.disk (db'.pending entry.originator) ((entry.seq + 1) % u64_mod)
              (compute_hash c final_entry)),
        ok tt,
      )

  -- `append_event` after its checks.
  pub place : Database → EventLogEntry → Database × Result DbError (Unit {0})
  place db entry =
      let (expected_seq, expected_prev_hash) = expected db.event_log entry.originator in
      if ltb expected_seq entry.seq
      then (stage db entry, ok tt)
      else if ltb entry.seq expected_seq
      then resolve db entry
      else ingest db entry expected_prev_hash

  pub append_event : Database → EventLogEntry → Database × Result DbError (Unit {0})
  append_event db entry =
      if is_transient entry.payload_type
      then (db, err (transient entry.payload_type))
      else elim (verify_entry c entry) [
        | err e ↦ (db, err (invalid_signature e))
        | ok _ ↦ place db entry
      ]

  unfoldable pub record_gossip_event :
      Database → GossipMessage → Bool → Database × Result DbError (Unit {0})
  record_gossip_event db msg is_bullshit =
      persist_and_append_entry db (entry_of msg (replicate 32 0) is_bullshit)

  pub hash_events : List EventLogEntry → Option Bytes
  hash_events [] = none
  hash_events (e ∷ es) = some (c.sha256 (concat (map (compute_hash c) (e ∷ es))))

  -- The hash over the events of an originator in a range, without the cache.
  pub range_hash : List EventLogEntry → Bytes → ℕ → ℕ → Option Bytes
  unfolding hash_events
  range_hash log originator start end = hash_events (
      filter
        (λ e.
          bytes_eq e.originator originator && contains (record { start = start; end = end }) e.seq)
        log)

  -- `compute_merkle_hash_for_range`.
  pub compute_merkle_hash_for_range : Database → Bytes → ℕ → ℕ → Database × Option Bytes
  unfolding range_hash
  compute_merkle_hash_for_range db originator start end =
      elim (db.merkle_cache originator start end) [
        | some cached ↦ (db, cached)
        | none ↦
            let res = range_hash db.event_log originator start end in
            (
              record db {
                merkle_cache = λ o a b.
                    if bytes_eq o originator && a == start && b == end
                    then some res
                    else db.merkle_cache o a b;
              },
              res,
            )
      ]
