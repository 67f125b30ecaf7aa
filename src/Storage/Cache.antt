-- ===== src/Storage/Cache.antt =====
-- storage/db/merkle.rs and storage/db/mod.rs: the cache of range hashes and the log it is about.
use randbotd.Base.{
  ℕ, ◌≤◌, ◌<◌, ◌≡◌, refl, ap, inl, inr, false, ◌&&◌, Option, some, [], ◌∷◌, ◌++◌, arith, leb, ◌==◌,
  if◌then◌else◌, bytes_eq, bytes_eq_sound, Bool-cases, Option-cases, length,
}
use randbotd.Base.Result.{ok}
use randbotd.Base.Bytes.{Bytes}
use randbotd.Base.Crypto.{Crypto}
use randbotd.Base.{any, find}
use randbotd.History.{EventLogEntry, is_transient, compute_hash, verify_entry}
use randbotd.Storage.{
  Database, next_write, is_event_at, persist_and_append_entry, stage, proof_entry, override,
  resolve, ingest, place, append_event, expected, range_hash, compute_merkle_hash_for_range,
}

module _ (c : Crypto) (encode_proof : EventLogEntry → EventLogEntry → Bytes) where
  -- Every cached hash is the hash of its range in the log.
  abbrev pub IsFresh : Database → Type 0
  IsFresh db =
      (o : Bytes) (start end : ℕ) (v : Option Bytes)
      → db.merkle_cache o start end ≡ some v
      → v ≡ range_hash c encode_proof db.event_log o start end

  -- With a fresh cache the answer is the hash of the range, cached or not, the cache stays fresh and the
  -- log is not touched.
  pub compute_merkle_hash_for_range-IsFresh :
      (db : Database) (o : Bytes) (start end : ℕ)
      → IsFresh db
      → ((compute_merkle_hash_for_range c encode_proof db o start end).1
          ≡ range_hash c encode_proof db.event_log o start end)
        × IsFresh (compute_merkle_hash_for_range c encode_proof db o start end).0
        × ((compute_merkle_hash_for_range c encode_proof db o start end).0.event_log ≡ db.event_log)
  unfolding compute_merkle_hash_for_range
  compute_merkle_hash_for_range-IsFresh db o a b fresh =
      elim (Option-cases (db.merkle_cache o a b)) [
        | inr (v, hit) ↦ rw (hit, compute_merkle_hash_for_range) (fresh o a b v hit, fresh, refl)
        | inl miss ↦ rw (miss, compute_merkle_hash_for_range) (refl, filled, refl)
      ]
    where
      filled :
          (o' : Bytes) (a' b' : ℕ) (v : Option Bytes)
          → (if bytes_eq o' o && a' == a && b' == b
              then some (range_hash c encode_proof db.event_log o a b)
              else db.merkle_cache o' a' b')
            ≡ some v
          → v ≡ range_hash c encode_proof db.event_log o' a' b'
      filled o' a' b' v h = elim (Bool-cases (bytes_eq o' o && a' == a && b' == b)) [
        | inr other ↦ fresh o' a' b' v (rw (other, if◌then◌else◌) at h)
        | inl same ↦
            let eo : o' ≡ o = bytes_eq_sound o' o (ground arith) in
            let ea : a' ≡ a = ground arith in
            let eb : b' ≡ b = ground arith in
            let g : some (range_hash c encode_proof db.event_log o a b) ≡ some v =
              rw (same, if◌then◌else◌) at h in
            rw (eo, ea, eb) (ground arith)
      ]

  -- An accepted event with the expected number, whose write succeeds, leaves the cache empty, so fresh.
  ingest-IsFresh :
      (db : Database) (e : EventLogEntry) (h : Bytes)
      → IsFresh db
      → IsFresh (ingest c encode_proof db e h).0
  unfolding ingest persist_and_append_entry
  ingest-IsFresh db e h fresh = elim (Bool-cases (next_write db.disk).0) [
    | inr failed ↦ rw failed fresh
    | inl written ↦ rw written (λ o a b v g. cc)
  ]

  stage-IsFresh :
      (db : Database) (e : EventLogEntry) → IsFresh db → IsFresh (stage c encode_proof db e)
  unfolding stage
  stage-IsFresh db e fresh = elim (Bool-cases (leb 50 (length (db.pending e.originator)))) [
    | inl full ↦ rw full fresh
    | inr room ↦ elim (Bool-cases (any (λ x. x.seq == e.seq) (db.pending e.originator))) [
      | inl there ↦ rw (room, there) fresh
      | inr new ↦ rw (room, new) fresh
    ]
  ]

  -- A fresh cache stays fresh under `append_event` of an entry whose number is not below the expected one.
  pub append_event-IsFresh :
      (db : Database) (e : EventLogEntry)
      → (expected c encode_proof db.event_log e.originator).0 ≤ e.seq
      → IsFresh db
      → IsFresh (append_event c encode_proof db e).0
  unfolding append_event place
  append_event-IsFresh db e late fresh =
      let next = expected c encode_proof db.event_log e.originator in
      ground (arith, stage-IsFresh db e fresh, ingest-IsFresh db e next.1 fresh)

  module _ (db : Database) (e x : EventLogEntry)
      (accepted : (is_transient e.payload_type ≡ false) × (verify_entry c e ≡ ok tt))
      (late : e.seq < (expected c encode_proof db.event_log e.originator).0)
      (existing : find (is_event_at e.originator e.seq) db.event_log ≡ some x)
      (conflict : bytes_eq (compute_hash c x) (compute_hash c e) ≡ false)
      (unflagged : x.is_bullshit ≡ false) (writes : db.disk ≡ []) where
    resolve-appends :
        resolve c encode_proof db e
        ≡ (record db { event_log = db.event_log ++ proof_entry c encode_proof x e ∷ [] }, ok tt)
    unfolding resolve override persist_and_append_entry
    resolve-appends = rw (existing, resolve, conflict, unflagged) (ground arith)

    pub append_event-appends :
        (append_event c encode_proof db e).0
        ≡ record db { event_log = db.event_log ++ proof_entry c encode_proof x e ∷ [] }
    unfolding append_event place
    append_event-appends = ground (arith, resolve-appends)

    -- If an accepted event conflicts with a logged, unflagged event of its number and every write
    -- succeeds, an equivocation proof is added to the originator's log, and a range hash that was
    -- cached before the event is still returned.
    pub equivocation_keeps_cached_hash :
        (start end : ℕ) (cached : Option Bytes)
        → db.merkle_cache e.originator start end ≡ some cached
        → ((append_event c encode_proof db e).0.event_log
            ≡ db.event_log ++ proof_entry c encode_proof x e ∷ [])
          × ((compute_merkle_hash_for_range c encode_proof
                (append_event c encode_proof db e).0
                e.originator
                start
                end).1
              ≡ cached)
    unfolding compute_merkle_hash_for_range
    equivocation_keeps_cached_hash start end cached hit = (
      ap (λ (d : Database). d.event_log) append_event-appends,
      rw (append_event-appends, hit, compute_merkle_hash_for_range) refl,
    )
