-- ===== src/Storage/Order.antt =====
-- storage/db/mod.rs: the numbering of every originator's events under `append_event`.
use randbotd.Base.{
  ℕ, ◌+◌, ◌%◌, ◌<◌, ◌≡◌, refl, ap, ◌∙◌, ◌≢◌, inl, inr, Bool, true, false, List, [], ◌∷◌, ◌++◌,
  arith, ltb, leb, ◌==◌, ltb-false, ==_iff, bytes_eq, bytes_eq_sound, bytes_eq_refl, Bool-cases,
  Option-cases, length, All, length-append, All-append,
}
use randbotd.Base.Result.{Result, ok, err}
use randbotd.Base.Bytes.{Bytes, u64_mod}
use randbotd.Base.Crypto.{Crypto}
use randbotd.Base.{any, find, filter-append, length-filter-le}
use randbotd.History.{payload_type_equivocation_proof, EventLogEntry, compute_hash}
use randbotd.Storage.{
  Database, DbError, next_write, is_event_of, is_event_at, insert_by_seq, sort_by_seq, update,
  persist_and_append_entry, stage, proof_entry, override, and_then, resolve, flag_unlinked, Drained,
  drain, settle, ingest, place, append_event, expected,
}
use randbotd.Storage.Log.{
  events, AllNumbered, expected_number, AllNumbered-append, AllNumbered-proof,
  AllNumbered-replace_first,
}

-- A staged event belongs to its originator's row and is no equivocation proof.
abbrev pub IsStaged : Bytes → EventLogEntry → Type 0
IsStaged o e =
    (bytes_eq e.originator o ≡ true) × ((e.payload_type == payload_type_equivocation_proof) ≡ false)

pub record IsOrdered (db : Database) : Type 0 where
  pub numbered : AllNumbered db.event_log
  pub staged : (o : Bytes) → All (IsStaged o) (db.pending o)

insert_by_seq-All :
    (o : Bytes) (e : EventLogEntry) (es : List EventLogEntry)
    → IsStaged o e
    → All (IsStaged o) es
    → All (IsStaged o) (insert_by_seq e es)
unfolding insert_by_seq
insert_by_seq-All o e [] h a = (h, tt)
insert_by_seq-All o e (x ∷ es) h a = elim (Bool-cases (leb e.seq x.seq)) [
  | inl b ↦ rw b (h, a)
  | inr b ↦ rw b (a.0, insert_by_seq-All o e es h a.1)
]

sort_by_seq-All :
    (o : Bytes) (es : List EventLogEntry) → All (IsStaged o) es → All (IsStaged o) (sort_by_seq es)
unfolding sort_by_seq
sort_by_seq-All o [] a = tt
sort_by_seq-All o (e ∷ es) a = insert_by_seq-All o e (sort_by_seq es) a.0 (sort_by_seq-All o es a.1)

update-All :
    (pending : Bytes → List EventLogEntry) (o : Bytes) (es : List EventLogEntry)
    → ((o' : Bytes) → All (IsStaged o') (pending o'))
    → All (IsStaged o) es
    → (o' : Bytes) → All (IsStaged o') (update pending o es o')
update-All pending o es h a o' = elim (Bool-cases (bytes_eq o' o)) [
  | inl e ↦ rw (e, bytes_eq_sound o' o e) a
  | inr e ↦ rw e (h o')
]

module _ (c : Crypto) (encode_proof : EventLogEntry → EventLogEntry → Bytes) where
  stage-IsOrdered :
      (db : Database) (e : EventLogEntry)
      → (e.payload_type == payload_type_equivocation_proof) ≡ false
      → IsOrdered db
      → IsOrdered (stage c encode_proof db e)
  unfolding stage
  stage-IsOrdered db e h v = elim (Bool-cases (leb 50 (length (db.pending e.originator)))) [
    | inl full ↦ rw full v
    | inr room ↦ elim (Bool-cases (any (λ x. x.seq == e.seq) (db.pending e.originator))) [
      | inl there ↦ rw (room, there) v
      | inr new ↦
          rw (room, new)
            (record {
              numbered = v.numbered;
              staged =
                  update-All db.pending e.originator
                    (sort_by_seq (db.pending e.originator ++ e ∷ [])) v.staged
                    (sort_by_seq-All e.originator (db.pending e.originator ++ e ∷ []) (
                      All-append (IsStaged e.originator) (db.pending e.originator) (e ∷ [])
                        (v.staged e.originator) ((bytes_eq_refl e.originator, h), tt)));
            })
    ]
  ]

  persist-IsOrdered :
      (db : Database) (e : EventLogEntry)
      → AllNumbered (db.event_log ++ e ∷ [])
      → IsOrdered db
      → IsOrdered (persist_and_append_entry c encode_proof db e).0
  unfolding persist_and_append_entry
  persist-IsOrdered db e n v = elim (Bool-cases (next_write db.disk).0) [
    | inl b ↦ rw b (record { numbered = n; staged = v.staged })
    | inr b ↦ rw b (record { numbered = v.numbered; staged = v.staged })
  ]

  override-IsOrdered :
      (db : Database) (x e : EventLogEntry)
      → (e.payload_type == payload_type_equivocation_proof) ≡ false
      → IsOrdered db
      → IsOrdered (override c encode_proof db x e).0
  unfolding override
  override-IsOrdered db x e h v =
      ground
        (arith, AllNumbered-replace_first e.originator e.seq e db.event_log (self e h) v.numbered)
    where
      self :
          (e : EventLogEntry)
          → (e.payload_type == payload_type_equivocation_proof) ≡ false
          → is_event_at e.originator e.seq e ≡ true
      self e h = ground (arith, bytes_eq_refl e.originator)

  and_then-IsOrdered :
      (r : Database × Result DbError (Unit {0}))
      (f : Database → Database × Result DbError (Unit {0}))
      → IsOrdered r.0
      → ((db : Database) → IsOrdered db → IsOrdered (f db).0)
      → IsOrdered (and_then c encode_proof r f).0
  and_then-IsOrdered (db, ok _) f v k = k db v
  and_then-IsOrdered (db, err _) f v k = v

  resolve-IsOrdered :
      (db : Database) (e : EventLogEntry)
      → (e.payload_type == payload_type_equivocation_proof) ≡ false
      → IsOrdered db
      → IsOrdered (resolve c encode_proof db e).0
  unfolding resolve
  resolve-IsOrdered db e h v =
      elim (Option-cases (find (is_event_at e.originator e.seq) db.event_log)) [
        | inl n ↦ rw (n, resolve) v
        | inr (x, f) ↦ elim (Bool-cases (bytes_eq (compute_hash c x) (compute_hash c e))) [
          | inl same ↦ rw (f, resolve, same) v
          | inr differs ↦
              rw (f, resolve, differs)
                (and_then-IsOrdered (override c encode_proof db x e) _
                  (override-IsOrdered db x e h v)
                  (λ db' v'.
                    persist-IsOrdered db' (proof_entry c encode_proof x e)
                      (AllNumbered-proof db'.event_log (proof_entry c encode_proof x e) v'.numbered
                        (unfold proof_entry in refl))
                      v'))
        ]
      ]

  flag_unlinked-same :
      (e : EventLogEntry) (h : Bytes)
      → let e' = flag_unlinked c encode_proof e h in
        (e'.originator ≡ e.originator) × (e'.seq ≡ e.seq) × (e'.payload_type ≡ e.payload_type)
  unfolding flag_unlinked
  flag_unlinked-same e h = ground arith

  -- Logging an event with the next number of its originator.
  next_event :
      (log : List EventLogEntry) (e : EventLogEntry) (o h : Bytes)
      → AllNumbered log
      → IsStaged o e
      → e.seq ≡ length (events o log) + 1
      → let e' = flag_unlinked c encode_proof e h in
        AllNumbered (log ++ e' ∷ [])
        × (length (events o (log ++ e' ∷ [])) ≡ length (events o log) + 1)
  next_event log e o h n s k =
      let e' = flag_unlinked c encode_proof e h in
      let (so, sq, st) = flag_unlinked-same e h in
      let mine : bytes_eq e'.originator o ≡ true = ap (λ t. bytes_eq t o) so ∙ s.0 in
      let kind : (e'.payload_type == payload_type_equivocation_proof) ≡ false =
        ap (λ (t : ℕ). t == payload_type_equivocation_proof) st ∙ s.1 in
      let counts : is_event_of o e' ≡ true = ground arith in
      (
        AllNumbered-append log e' o n mine (sq ∙ k),
        rw (filter-append (is_event_of o) log (e' ∷ []), counts)
            (omega (arith, length-append (events o log) (e' ∷ []))),
      )

  record IsDrained (o : Bytes) (d : Drained c encode_proof) : Type 0 where
    log_numbered : AllNumbered d.log
    rest_staged : All (IsStaged o) d.staged

  drain-IsDrained :
      (o : Bytes) (staged log : List EventLogEntry) (disk : List Bool) (next_seq : ℕ) (h : Bytes)
      → AllNumbered log
      → All (IsStaged o) staged
      → next_seq ≡ length (events o log) + 1
      → length log + length staged + 1 < u64_mod
      → IsDrained o (drain c encode_proof log disk staged next_seq h)
  unfolding drain
  drain-IsDrained o [] log disk k h n a e small = record { log_numbered = n; rest_staged = tt }
  drain-IsDrained o (x ∷ xs) log disk k h n a e small = elim (Bool-cases (x.seq == k)) [
    | inr other ↦ rw other (record { log_numbered = n; rest_staged = a })
    | inl due ↦ elim (Bool-cases (next_write disk).0) [
      | inr failed ↦ rw (due, failed) (record { log_numbered = n; rest_staged = a.1 })
      | inl written ↦
          let x' = flag_unlinked c encode_proof x h in
          let seq_eq : x.seq ≡ length (events o log) + 1 = (==_iff x.seq k).0 due ∙ e in
          let (n', len') = next_event log x o h n a.0 seq_eq in
          rw (due, written)
            (drain-IsDrained o xs (log ++ x' ∷ []) (next_write disk).1 ((x.seq + 1) % u64_mod)
              (compute_hash c x') n' a.1
              (omega (arith, seq_eq, len', length-filter-le (is_event_of o) log))
              (omega (arith, length-append log (x' ∷ []))))
    ]
  ]

  settle-IsOrdered :
      (db : Database) (e : EventLogEntry) (d : Drained c encode_proof)
      → IsOrdered db
      → IsDrained e.originator d
      → IsOrdered (settle c encode_proof db e d)
  settle-IsOrdered db e d v r = record {
    numbered = r.log_numbered;
    staged = update-All db.pending e.originator d.staged v.staged r.rest_staged;
  }

  ingest-IsOrdered :
      (db : Database) (e : EventLogEntry) (h : Bytes)
      → (e.payload_type == payload_type_equivocation_proof) ≡ false
      → e.seq ≡ length (events e.originator db.event_log) + 1
      → length db.event_log + length (db.pending e.originator) + 2 < u64_mod
      → IsOrdered db
      → IsOrdered (ingest c encode_proof db e h).0
  unfolding ingest persist_and_append_entry
  ingest-IsOrdered db e h kind k small v = elim (Bool-cases (next_write db.disk).0) [
    | inr failed ↦ rw failed (record { numbered = v.numbered; staged = v.staged })
    | inl written ↦
        let e' = flag_unlinked c encode_proof e h in
        let (n', len') =
          next_event db.event_log e e.originator h v.numbered (bytes_eq_refl e.originator, kind)
            k in
        rw written (
          settle-IsOrdered
            (record db { event_log = db.event_log ++ e' ∷ []; disk = (next_write db.disk).1 }) e _
            (record { numbered = n'; staged = v.staged })
            (drain-IsDrained e.originator (db.pending e.originator) (db.event_log ++ e' ∷ [])
              (next_write db.disk).1 ((e.seq + 1) % u64_mod) (compute_hash c e') n'
              (v.staged e.originator)
              (omega (arith, k, len', length-filter-le (is_event_of e.originator) db.event_log))
              (omega (arith, length-append db.event_log (e' ∷ [])))))
  ]

  place-IsOrdered :
      (db : Database) (e : EventLogEntry)
      → (e.payload_type == payload_type_equivocation_proof) ≡ false
      → length db.event_log + length (db.pending e.originator) + 2 < u64_mod
      → IsOrdered db
      → IsOrdered (place c encode_proof db e).0
  unfolding place
  place-IsOrdered db e kind small v =
      let next = expected c encode_proof db.event_log e.originator in
      elim (Bool-cases (ltb next.0 e.seq)) [
        | inl ahead ↦ rw ahead (stage-IsOrdered db e kind v)
        | inr not_ahead ↦ elim (Bool-cases (ltb e.seq next.0)) [
          | inl behind ↦ rw (not_ahead, behind) (resolve-IsOrdered db e kind v)
          | inr not_behind ↦
              rw (not_ahead, not_behind)
                (ingest-IsOrdered db e next.1 kind
                  (omega (
                    arith,
                    ltb-false next.0 e.seq not_ahead,
                    ltb-false e.seq next.0 not_behind,
                    expected_number c encode_proof db.event_log e.originator
                        (v.numbered e.originator) (omega arith),
                  ))
                  small v)
        ]
      ]

  -- From a database whose events are numbered 1, 2, 3 and so on for every originator, `append_event`
  -- leads to another such database, on every path: rejection, staging, equivocation, ingestion with
  -- the drain of staged events, and failed writes. The arriving entry is no equivocation proof, and
  -- the log and the originator's staged entries together, and two more, are fewer than 2^64.
  pub append_event-IsOrdered :
      (db : Database) (e : EventLogEntry)
      → e.payload_type ≢ payload_type_equivocation_proof
      → length db.event_log + length (db.pending e.originator) + 2 < u64_mod
      → IsOrdered db
      → IsOrdered (append_event c encode_proof db e).0
  unfolding append_event
  append_event-IsOrdered db e kind small v =
      ground (arith, place-IsOrdered db e (ground arith) small v)
