-- ===== src/Storage/Log.antt =====
-- storage/db/mod.rs: the events of one originator in the log, and their numbering.
use randbotd.Base.{
  if◌then◌else◌, ℕ, suc, ◌+◌, ◌<◌, ◌≡◌, refl, sym, ap, subst, ◌∙◌, inl, inr, true, false, none,
  some, List, [], ◌∷◌, ◌++◌, append-nil, arith, bytes_eq, bytes_eq_sound, Bool-cases, Option-cases,
  length,
}
use randbotd.Base.Bytes.{Bytes, u64_mod}
use randbotd.Base.Crypto.{Crypto}
use randbotd.Base.{filter, last, filter-append, length-filter-le, rfind-eq-last}
use randbotd.History.{payload_type_equivocation_proof, EventLogEntry}
use randbotd.Storage.{is_event_of, is_event_at, replace_first, expected}

-- The events of an originator that are not equivocation proofs, oldest first.
abbrev pub events : Bytes → List EventLogEntry → List EventLogEntry
events o log = filter (is_event_of o) log

-- The sequence numbers are `k`, `k + 1` and so on.
abbrev pub IsNumbered : ℕ → List EventLogEntry → Type 0
IsNumbered k [] = Unit {0}
IsNumbered k (e ∷ es) = (e.seq ≡ k) × IsNumbered (suc k) es

IsNumbered-snoc :
    (k : ℕ) (es : List EventLogEntry) (e : EventLogEntry)
    → IsNumbered k es
    → e.seq ≡ k + length es
    → IsNumbered k (es ++ e ∷ [])
IsNumbered-snoc k [] e n h = (omega arith, tt)
IsNumbered-snoc k (x ∷ es) e n h = (n.0, IsNumbered-snoc (suc k) es e n.1 (omega arith))

last_numbered :
    (k : ℕ) (es : List EventLogEntry) (e : EventLogEntry)
    → IsNumbered k es
    → last es ≡ some e
    → e.seq + 1 ≡ k + length es
last_numbered k [] e n h = cc
last_numbered k (x ∷ []) e n h = let s : x.seq ≡ e.seq = ground arith in omega (arith, s, n.0)
last_numbered k (x ∷ y ∷ es) e n h = omega (arith, last_numbered (suc k) (y ∷ es) e n.1 h)

last_none : (es : List EventLogEntry) → last es ≡ none → length es ≡ 0
last_none [] h = refl
last_none (x ∷ []) h = cc
last_none (x ∷ y ∷ es) h = absurd (one_ne (last_none (y ∷ es) h))
  where
    one_ne : suc (length es) ≡ 0 → ⊥
    one_ne e = omega arith

-- The number that is expected next is one more than the number of events so far.
pub expected_number :
    (c : Crypto) (encode_proof : EventLogEntry → EventLogEntry → Bytes) (log : List EventLogEntry)
    (o : Bytes)
    → IsNumbered 1 (events o log)
    → length log + 1 < u64_mod
    → (expected c encode_proof log o).0 ≡ length (events o log) + 1
unfolding expected
expected_number c encode log o n small = elim (Option-cases (last (events o log))) [
  | inl e ↦ rw (rfind-eq-last (is_event_of o) log, e) (omega (arith, last_none (events o log) e))
  | inr (x, e) ↦
      rw (rfind-eq-last (is_event_of o) log, e)
        (omega (arith, last_numbered 1 (events o log) x n e, length-filter-le (is_event_of o) log))
]

-- Every originator's events are numbered 1, 2, 3 and so on.
abbrev pub AllNumbered : List EventLogEntry → Type 0
AllNumbered log = (o : Bytes) → IsNumbered 1 (events o log)

-- One more event of an originator, with the next number.
pub AllNumbered-append :
    (log : List EventLogEntry) (e : EventLogEntry) (o : Bytes)
    → AllNumbered log
    → bytes_eq e.originator o ≡ true
    → e.seq ≡ length (events o log) + 1
    → AllNumbered (log ++ e ∷ [])
AllNumbered-append log e o n mine h o' = elim (Bool-cases (is_event_of o' e)) [
  | inl counts ↦
      let same : o ≡ o' =
        sym (bytes_eq_sound e.originator o mine) ∙ bytes_eq_sound e.originator o' (ground arith) in
      rw (filter-append (is_event_of o') log (e ∷ []), counts)
        (IsNumbered-snoc 1 (events o' log) e (n o')
          (subst (λ t. e.seq ≡ 1 + length (events t log)) same (omega arith)))
  | inr skipped ↦ rw (filter-append (is_event_of o') log (e ∷ []), skipped, append-nil) (n o')
]

-- An equivocation proof is not counted.
pub AllNumbered-proof :
    (log : List EventLogEntry) (e : EventLogEntry)
    → AllNumbered log
    → e.payload_type ≡ payload_type_equivocation_proof
    → AllNumbered (log ++ e ∷ [])
AllNumbered-proof log e n h o =
    let skipped : is_event_of o e ≡ false = ground arith in
    rw (filter-append (is_event_of o) log (e ∷ []), skipped, append-nil) (n o)

-- An override keeps the originator and the number of what it replaces.
override_counts :
    (o o' : Bytes) (seq : ℕ) (x e : EventLogEntry)
    → is_event_at o seq x ≡ true
    → is_event_at o seq e ≡ true
    → (is_event_of o' x ≡ is_event_of o' e) × (x.seq ≡ e.seq)
override_counts o o' seq x e hx he =
    let sx : x.originator ≡ o = bytes_eq_sound x.originator o (ground arith) in
    let se : e.originator ≡ o = bytes_eq_sound e.originator o (ground arith) in
    let same : x.originator ≡ e.originator = sx ∙ sym se in
    (ground (arith, ap (λ t. bytes_eq t o') same), ground arith)

replace_first-IsNumbered :
    (o o' : Bytes) (seq k : ℕ) (e : EventLogEntry) (log : List EventLogEntry)
    → is_event_at o seq e ≡ true
    → IsNumbered k (events o' log)
    → IsNumbered k (events o' (replace_first (is_event_at o seq) e log))
unfolding replace_first
replace_first-IsNumbered o o' seq k e [] he n = tt
replace_first-IsNumbered o o' seq k e (x ∷ log) he n = elim (Bool-cases (is_event_at o seq x)) [
  | inl hit ↦ let s = override_counts o o' seq x e hit he in replaced hit s.0 s.1
  | inr miss ↦ elim (Bool-cases (is_event_of o' x)) [
    | inl counts ↦
        let n' : (x.seq ≡ k) × IsNumbered (suc k) (events o' log) =
          rw (counts, if◌then◌else◌) at n in
        rw (miss, counts) (n'.0, replace_first-IsNumbered o o' seq (suc k) e log he n'.1)
    | inr skipped ↦
        let n' : IsNumbered k (events o' log) = rw (skipped, if◌then◌else◌) at n in
        rw (miss, skipped) (replace_first-IsNumbered o o' seq k e log he n')
  ]
]
  where
    replaced :
        is_event_at o seq x ≡ true
        → is_event_of o' x ≡ is_event_of o' e
        → x.seq ≡ e.seq
        → IsNumbered k (events o' (replace_first (is_event_at o seq) e (x ∷ log)))
    replaced hit a b = elim (Bool-cases (is_event_of o' x)) [
      | inl counts ↦
          let n' : (x.seq ≡ k) × IsNumbered (suc k) (events o' log) =
            rw (counts, if◌then◌else◌) at n in
          rw (hit, sym a ∙ counts) (omega (arith, b, n'.0), n'.1)
      | inr skipped ↦
          let n' : IsNumbered k (events o' log) = rw (skipped, if◌then◌else◌) at n in
          rw (hit, sym a ∙ skipped) n'
    ]

pub AllNumbered-replace_first :
    (o : Bytes) (seq : ℕ) (e : EventLogEntry) (log : List EventLogEntry)
    → is_event_at o seq e ≡ true
    → AllNumbered log
    → AllNumbered (replace_first (is_event_at o seq) e log)
AllNumbered-replace_first o seq e log he n o' = replace_first-IsNumbered o o' seq 1 e log he (n o')
