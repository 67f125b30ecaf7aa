-- ===== src/Storage/Safety.antt =====
-- storage/db/mod.rs: the entries that stay in the log under `append_event`.
use randbotd.Base.{
  if◌then◌else◌, ℕ, ◌+◌, ◌%◌, ◌≡◌, sym, ap, subst, ◌⊎◌, inl, inr, Bool, true, false, ◌&&◌, some,
  List, [], ◌∷◌, ◌++◌, arith, ◌==◌, bytes_eq, Bool-cases, Option-cases,
}
use randbotd.Base.Result.{Result, ok, err}
use randbotd.Base.Bytes.{Bytes, u64_mod}
use randbotd.Base.Crypto.{Crypto}
use randbotd.Base.{find}
use randbotd.History.{EventLogEntry, compute_hash}
use randbotd.Storage.{
  Database, DbError, next_write, is_event_at, replace_first, persist_and_append_entry, stage,
  proof_entry, override, and_then, resolve, flag_unlinked, drain, ingest, place, append_event,
  expected, canonical_prev_hash,
}

-- An entry stands in the log.
abbrev pub Holds : EventLogEntry → List EventLogEntry → Type 0
Holds e [] = ⊥
Holds e (x ∷ xs) = (x ≡ e) ⊎ Holds e xs

pub Holds-append :
    (e : EventLogEntry) (xs ys : List EventLogEntry) → Holds e xs → Holds e (xs ++ ys)
Holds-append e [] ys h = absurd h
Holds-append e (x ∷ xs) ys (inl s) = inl s
Holds-append e (x ∷ xs) ys (inr h) = inr (Holds-append e xs ys h)

-- Replacing a flagged entry loses no unflagged one.
replace_first-Holds :
    (p : EventLogEntry → Bool) (old new e : EventLogEntry) (log : List EventLogEntry)
    → find p log ≡ some old
    → old.is_bullshit ≡ true
    → e.is_bullshit ≡ false
    → Holds e log
    → Holds e (replace_first p new log)
unfolding replace_first
replace_first-Holds p old new e [] f b u h = absurd h
replace_first-Holds p old new e (x ∷ xs) f b u (inl s) = elim (Bool-cases (p x)) [
  | inl hit ↦ absurd (clash (rw (hit, if◌then◌else◌) at f))
  | inr miss ↦ rw miss (inl s)
]
  where
    clash : some x ≡ some old → ⊥
    clash g = ground (arith, ap (λ (t : EventLogEntry). t.is_bullshit) s)
replace_first-Holds p old new e (x ∷ xs) f b u (inr h) = elim (Bool-cases (p x)) [
  | inl hit ↦ rw hit (inr h)
  | inr miss ↦
      rw miss (inr (replace_first-Holds p old new e xs (rw (miss, if◌then◌else◌) at f) b u h))
]

module _ (c : Crypto) (encode_proof : EventLogEntry → EventLogEntry → Bytes)
    (e : EventLogEntry) where
  persist-Holds :
      (db : Database) (x : EventLogEntry)
      → Holds e db.event_log
      → Holds e (persist_and_append_entry c encode_proof db x).0.event_log
  unfolding persist_and_append_entry
  persist-Holds db x h = elim (Bool-cases (next_write db.disk).0) [
    | inl b ↦ rw b (Holds-append e db.event_log (x ∷ []) h)
    | inr b ↦ rw b h
  ]

  and_then-Holds :
      (r : Database × Result DbError (Unit {0}))
      (f : Database → Database × Result DbError (Unit {0}))
      → Holds e r.0.event_log
      → ((db : Database) → Holds e db.event_log → Holds e (f db).0.event_log)
      → Holds e (and_then c encode_proof r f).0.event_log
  and_then-Holds (db, ok _) f h k = k db h
  and_then-Holds (db, err _) f h k = h

  drain-Holds :
      (staged log : List EventLogEntry) (disk : List Bool) (next_seq : ℕ) (h : Bytes)
      → Holds e log
      → Holds e (drain c encode_proof log disk staged next_seq h).log
  unfolding drain
  drain-Holds [] log disk k h m = m
  drain-Holds (x ∷ xs) log disk k h m = elim (Bool-cases (x.seq == k)) [
    | inr other ↦ rw other m
    | inl due ↦ elim (Bool-cases (next_write disk).0) [
      | inr failed ↦ rw (due, failed) m
      | inl written ↦
          let x' = flag_unlinked c encode_proof x h in
          rw (due, written)
            (drain-Holds xs (log ++ x' ∷ []) (next_write disk).1 ((x.seq + 1) % u64_mod)
              (compute_hash c x') (Holds-append e log (x' ∷ []) m))
    ]
  ]

  module _ (unflagged : e.is_bullshit ≡ false) where
    override-Holds :
        (db : Database) (x new : EventLogEntry)
        → find (is_event_at new.originator new.seq) db.event_log ≡ some x
        → Holds e db.event_log
        → Holds e (override c encode_proof db x new).0.event_log
    unfolding override
    override-Holds db x new f h =
        elim (Bool-cases (
          x.is_bullshit
          && bytes_eq new.prev_hash (canonical_prev_hash c encode_proof db.event_log new))) [
            | inr no_override ↦ rw no_override h
            | inl go ↦ rw go (
                replace_first-Holds (is_event_at new.originator new.seq) x new e db.event_log f
                  (ground arith) unflagged h)
          ]

    resolve-Holds :
        (db : Database) (new : EventLogEntry)
        → Holds e db.event_log
        → Holds e (resolve c encode_proof db new).0.event_log
    unfolding resolve
    resolve-Holds db new h =
        elim (Option-cases (find (is_event_at new.originator new.seq) db.event_log)) [
          | inl n ↦ rw (n, resolve) h
          | inr (x, f) ↦ elim (Bool-cases (bytes_eq (compute_hash c x) (compute_hash c new))) [
            | inl same ↦ rw (f, resolve, same) h
            | inr differs ↦
                rw (f, resolve, differs)
                  (and_then-Holds (override c encode_proof db x new) _ (override-Holds db x new f h)
                    (λ db' h'. persist-Holds db' (proof_entry c encode_proof x new) h'))
          ]
        ]

    ingest-Holds :
        (db : Database) (new : EventLogEntry) (prev : Bytes)
        → Holds e db.event_log
        → Holds e (ingest c encode_proof db new prev).0.event_log
    unfolding ingest
    ingest-Holds db new prev h =
        let final = flag_unlinked c encode_proof new prev in
        and_then-Holds (persist_and_append_entry c encode_proof db final) _
          (persist-Holds db final h)
          (λ db' h'. drain-Holds (db'.pending new.originator) db'.event_log db'.disk _ _ h')

    stage-log :
        (db : Database) (new : EventLogEntry)
        → (stage c encode_proof db new).event_log ≡ db.event_log
    unfolding stage
    stage-log db new = ground arith

    -- The log is append-only for unflagged entries: whatever arrives and whatever writes fail, an entry
    -- that is not flagged stays in the log.
    pub append_event-Holds :
        (db : Database) (new : EventLogEntry)
        → Holds e db.event_log
        → Holds e (append_event c encode_proof db new).0.event_log
    unfolding append_event place
    append_event-Holds db new h = ground (
      arith,
      resolve-Holds db new h,
      ingest-Holds db new (expected c encode_proof db.event_log new.originator).1 h,
      subst (Holds e) (sym (stage-log db new)) h,
    )
