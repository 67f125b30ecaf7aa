-- ===== src/Storage/Vectors.antt =====
-- get_originator_range_vectors of storage/db/sync.rs: what a node tells its peers that it knows, a few
-- originators at a time, going round them by an offset that is kept between calls.
use randbotd.Base.{
  ℕ, zero, suc, ◌+◌, ◌%◌, ◌<◌, ◌≡◌, refl, ◌∙◌, ◌⊎◌, true, ◌&&◌, some, List, [], ◌∷◌, map, length,
  filter, any, All, get_or, bytes_eq, bytes_eq_refl, text_lt, ◌==◌, if◌then◌else◌, arith,
  Bool-cases, inl, inr,
}
use native.Mathlib.Nat.{mod-lt}
use randbotd.Base.Bytes.{Bytes, u64_mod}
use randbotd.Base.Crypto.{Crypto}
use randbotd.History.{EventLogEntry, OriginatorRangeVector, has_sequence}
use randbotd.History.Ranges.{known_ranges_of, known_ranges_of_exact}
use randbotd.Storage.Sync.{originator_root}

-- The keys of the hash map, sorted.
unfoldable pub insert_key : Bytes → List Bytes → List Bytes
insert_key k [] = k ∷ []
insert_key k (j ∷ js) =
    let rest = insert_key k js in
    if bytes_eq k j then j ∷ js else if text_lt k j then k ∷ j ∷ js else j ∷ rest

unfoldable pub originators_of : List EventLogEntry → List Bytes
originators_of [] = []
originators_of (e ∷ log) = insert_key e.originator (originators_of log)

unfoldable pub seqs_of : List EventLogEntry → Bytes → List ℕ
seqs_of log originator =
    map (λ (e : EventLogEntry). e.seq) (filter (λ e. bytes_eq e.originator originator) log)

-- `cycle().skip(offset).take(count)`, of a list that is not empty.
unfoldable pub take_cycle : List Bytes → ℕ → ℕ → List Bytes
take_cycle keys offset zero = []
take_cycle keys offset (suc count) =
    get_or keys (offset % length keys) [] ∷ take_cycle keys (offset + 1) count

module _ (c : Crypto) (encode_proof : EventLogEntry → EventLogEntry → Bytes) where
  unfoldable pub vector_of : List EventLogEntry → Bytes → OriginatorRangeVector
  vector_of log originator = record {
    originator = originator;
    known_ranges = known_ranges_of (seqs_of log originator);
    merkle_root = some (originator_root c encode_proof log originator);
  }

  abbrev pub vectors_of : List EventLogEntry → List Bytes → ℕ → ℕ → List OriginatorRangeVector × ℕ
  vectors_of log [] sync_offset max_originators = ([], sync_offset)
  vectors_of log (k ∷ ks) sync_offset max_originators =
      let originators = k ∷ ks in
      (
        map (vector_of log)
            (take_cycle originators (sync_offset % length originators) max_originators),
        (sync_offset + max_originators) % u64_mod,
      )

  -- The vectors, and the offset of the next call.
  unfoldable pub get_originator_range_vectors :
      List EventLogEntry → ℕ → ℕ → List OriginatorRangeVector × ℕ
  get_originator_range_vectors log sync_offset max_originators =
      vectors_of log (originators_of log) sync_offset max_originators

  seqs_of-any :
      (o : Bytes) (s : ℕ) (log : List EventLogEntry)
      → any (λ x. x == s) (seqs_of log o) ≡ any (λ e. bytes_eq e.originator o && e.seq == s) log
  unfolding seqs_of
  seqs_of-any o s [] = refl
  seqs_of-any o s (e ∷ log) = elim (Bool-cases (bytes_eq e.originator o)) [
    | inl p ↦ rw (p, seqs_of-any o s log) refl
    | inr p ↦ rw (p, seqs_of-any o s log) refl
  ]

  -- A vector is of an originator of the log, and covers exactly the numbers of its events.
  abbrev pub IsDescription : List EventLogEntry → OriginatorRangeVector → Type 0
  IsDescription log v =
      (any (λ e. bytes_eq e.originator v.originator) log ≡ true)
      × ((s : ℕ)
          → has_sequence v s ≡ any (λ e. bytes_eq e.originator v.originator && e.seq == s) log)

  abbrev IsOriginator : List EventLogEntry → Bytes → Type 0
  IsOriginator log o = any (λ e. bytes_eq e.originator o) log ≡ true

  vector_of-IsDescription :
      (log : List EventLogEntry) (o : Bytes)
      → IsOriginator log o
      → IsDescription log (vector_of log o)
  unfolding vector_of has_sequence
  vector_of-IsDescription log o h =
      (h, λ s. known_ranges_of_exact s (seqs_of log o) ∙ seqs_of-any o s log)

  vectors-AreDescriptions :
      (log : List EventLogEntry) (os : List Bytes)
      → All (IsOriginator log) os
      → All (IsDescription log) (map (vector_of log) os)
  vectors-AreDescriptions log [] h = tt
  vectors-AreDescriptions log (o ∷ os) h =
      (vector_of-IsDescription log o h.0, vectors-AreDescriptions log os h.1)

  insert_key-All :
      (P : Bytes → Type 0) (k : Bytes) (js : List Bytes) → P k → All P js → All P (insert_key k js)
  unfolding insert_key
  insert_key-All P k [] p h = (p, tt)
  insert_key-All P k (j ∷ js) p h = elim (Bool-cases (bytes_eq k j)) [
    | inl e ↦ rw e h
    | inr e ↦ elim (Bool-cases (text_lt k j)) [
      | inl f ↦ rw (e, f) (p, h)
      | inr f ↦ rw (e, f) (h.0, insert_key-All P k js p h.1)
    ]
  ]

  originators_of-AreOriginators :
      (whole log : List EventLogEntry)
      → ((o : Bytes) → IsOriginator log o → IsOriginator whole o)
      → All (IsOriginator whole) (originators_of log)
  unfolding originators_of
  originators_of-AreOriginators whole [] h = tt
  originators_of-AreOriginators whole (e ∷ log) h =
      insert_key-All (IsOriginator whole) e.originator (originators_of log)
        (h e.originator (rw (bytes_eq_refl e.originator) refl))
        (originators_of-AreOriginators whole log (λ o k. h o (ground (arith, k))))

  originators_of-nil : (log : List EventLogEntry) → originators_of log ≡ [] → log ≡ []
  unfolding originators_of insert_key
  originators_of-nil [] h = refl
  originators_of-nil (e ∷ log) h = absurd (nonempty e.originator (originators_of log) h)
    where
      nonempty : (k : Bytes) (js : List Bytes) → insert_key k js ≡ [] → ⊥
      nonempty k [] h = cc
      nonempty k (j ∷ js) h = ground arith

  get_or-All :
      (P : Bytes → Type 0) (xs : List Bytes) (i : ℕ) (d : Bytes)
      → All P xs
      → i < length xs
      → P (get_or xs i d)
  get_or-All P [] i d h k = absurd (omega arith)
  get_or-All P (x ∷ xs) zero d h k = h.0
  get_or-All P (x ∷ xs) (suc i) d h k = get_or-All P xs i d h.1 (omega arith)

  take_cycle-All :
      (P : Bytes → Type 0) (keys : List Bytes) (offset count : ℕ)
      → All P keys
      → 0 < length keys
      → All P (take_cycle keys offset count)
  unfolding take_cycle
  take_cycle-All P keys offset zero h k = tt
  take_cycle-All P keys offset (suc count) h k = (
    get_or-All P keys (offset % length keys) [] h (mod-lt offset k),
    take_cycle-All P keys (offset + 1) count h k,
  )

  length-vectors :
      (log : List EventLogEntry) (keys : List Bytes) (offset count : ℕ)
      → length (map (vector_of log) (take_cycle keys offset count)) ≡ count
  unfolding take_cycle
  length-vectors log keys offset zero = refl
  length-vectors log keys offset (suc count) =
      omega (arith, length-vectors log keys (offset + 1) count)

  -- Every vector that a node sends describes its log, whatever the offset is, and there are as many as were
  -- asked for unless the log is empty.
  pub get_originator_range_vectors-AreDescriptions :
      (log : List EventLogEntry) (sync_offset max_originators : ℕ)
      → (let (vectors, next) = get_originator_range_vectors log sync_offset max_originators in
          All (IsDescription log) vectors × ((log ≡ []) ⊎ (length vectors ≡ max_originators)))
  unfolding get_originator_range_vectors
  get_originator_range_vectors-AreDescriptions log sync_offset max_originators =
      let (vectors, count) =
        go (originators_of log) (originators_of-AreOriginators log log (λ o k. k)) in
      (vectors, elim count [ inl e ↦ inl (originators_of-nil log e) | inr e ↦ inr e ])
    where
      go :
          (os : List Bytes)
          → All (IsOriginator log) os
          → (let (vectors, next) = vectors_of log os sync_offset max_originators in
              All (IsDescription log) vectors × ((os ≡ []) ⊎ (length vectors ≡ max_originators)))
      go [] h = (tt, inl refl)
      go (o ∷ os) h = (
        vectors-AreDescriptions log _ (
            take_cycle-All (IsOriginator log) (o ∷ os) (sync_offset % length (o ∷ os))
              max_originators h (omega arith)),
        inr (length-vectors log (o ∷ os) (sync_offset % length (o ∷ os)) max_originators),
      )
