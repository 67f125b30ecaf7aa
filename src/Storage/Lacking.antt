-- ===== src/Storage/Lacking.antt =====
-- find_missing_entries_for_peer of storage/db/sync.rs: when a peer lacks an event, told without the code.
use randbotd.Base.{
  ℕ, ◌≤◌, ◌≡◌, ◌≢◌, ◌↔◌, ◌⊎◌, ◌∙◌, inl, inr, sym, refl, subst, leb, Bool, true, false, not, ◌&&◌,
  ◌||◌, Bool-cases, Option, Option-cases, none, some, List, [], ◌∷◌, ◌++◌, arith, map, filter, any,
  All, bytes_eq, bytes_eq_iff, bytes_eq_sound, rfind, rfind-none_iff, rfind-some_iff,
}
use randbotd.Base.Bytes.{Bytes, concat}
use randbotd.Base.Crypto.{Crypto}
use randbotd.History.{
  EventLogEntry, SequenceRange, contains, OriginatorRangeVector, has_sequence, compute_hash,
  payload_type_equivocation_proof,
}
use randbotd.Storage.Sync.{is_against, originator_root, mismatch, is_missing}

-- Among the vectors, this one is the last of its originator.
abbrev pub IsLastVector : Bytes → List OriginatorRangeVector → OriginatorRangeVector → Type 0
IsLastVector o vs v =
    (pre : List OriginatorRangeVector) × (post : List OriginatorRangeVector) × (vs
      ≡ pre ++ v ∷ post)
    × (v.originator ≡ o)
    × All (λ w. w.originator ≢ o) post

-- An event was flagged, or is a proof of equivocation.
abbrev pub IsSuspect : EventLogEntry → Type 0
IsSuspect e = (e.is_bullshit ≡ true) ⊎ (e.payload_type ≡ payload_type_equivocation_proof)

-- The number of the event is in no range of the vector; or the event is suspect, and the vector states a
-- root that is not the hash of the log's events of the originator.
abbrev pub IsUntold : Crypto → List EventLogEntry → OriginatorRangeVector → EventLogEntry → Type 0
IsUntold c log v e =
    All (λ r. ¬ ((r.start ≤ e.seq) × (e.seq ≤ r.end))) v.known_ranges
    ⊎ ((root : Bytes) × (v.merkle_root ≡ some root)
        × (root
            ≢ c.sha256 (
                concat
                  (map (compute_hash c) (filter (λ x. bytes_eq x.originator e.originator) log))))
        × IsSuspect e)

-- A peer that sent these vectors lacks the event: it sent none of its originator, or the last one that it
-- sent leaves the event untold.
abbrev pub IsLacking :
    Crypto → List EventLogEntry → List OriginatorRangeVector → EventLogEntry → Type 0
IsLacking c log vs e =
    All (λ v. v.originator ≢ e.originator) vs
    ⊎ ((v : OriginatorRangeVector) × IsLastVector e.originator vs v × IsUntold c log v e)

All-imp {ℓ} :
    {A : Type ℓ} (P Q : A → Type 0) (xs : List A) → ((a : A) → P a → Q a) → All P xs → All Q xs
All-imp P Q [] f h = tt
All-imp P Q (x ∷ xs) f h = (f x h.0, All-imp P Q xs f h.1)

clash : {b : Bool} → b ≡ true → b ≡ false → ⊥
clash h k = cc

differ_iff : (a b : Bytes) → (bytes_eq a b ≡ false) ↔ (a ≢ b)
differ_iff a b = (
  λ h e. clash ((bytes_eq_iff a b).1 e) h,
  λ h. elim (Bool-cases (bytes_eq a b)) [ inl e ↦ absurd (h (bytes_eq_sound a b e)) | inr e ↦ e ],
)

outside_iff :
    (r : SequenceRange) (s : ℕ) → (contains r s ≡ false) ↔ (¬ ((r.start ≤ s) × (s ≤ r.end)))
unfolding contains
outside_iff r s = (
  λ h k. ground (arith, h, k.0, k.1),
  λ h. elim (Bool-cases (leb r.start s && leb s r.end)) [
    | inl e ↦ absurd (h (ground arith, ground arith))
    | inr e ↦ e
  ],
)

has_sequence_iff :
    (v : OriginatorRangeVector) (s : ℕ)
    → (has_sequence v s ≡ false) ↔ All (λ r. ¬ ((r.start ≤ s) × (s ≤ r.end))) v.known_ranges
unfolding has_sequence
has_sequence_iff v s = go v.known_ranges
  where
    go :
        (rs : List SequenceRange)
        → (any (λ r. contains r s) rs ≡ false) ↔ All (λ r. ¬ ((r.start ≤ s) × (s ≤ r.end))) rs
    go [] = (λ h. tt, λ h. refl)
    go (r ∷ rs) =
        let rest = go rs in
        let own = outside_iff r s in
        (
          λ h. (own.0 (ground arith), rest.0 (ground arith)),
          λ h. let a = own.1 h.0 in let b = rest.1 h.1 in ground arith,
        )

is_against_iff : (e : EventLogEntry) → (is_against e ≡ true) ↔ IsSuspect e
is_against_iff e = (
  λ h. elim (Bool-cases e.is_bullshit) [ inl b ↦ inl b | inr b ↦ inr (ground arith) ],
  λ h. elim h [ inl b ↦ ground arith | inr t ↦ ground arith ],
)

module _ (c : Crypto) (encode_proof : EventLogEntry → EventLogEntry → Bytes)
    (log : List EventLogEntry) where
  mismatch_iff :
      (o : Option Bytes) (local : Bytes)
      → (mismatch c encode_proof o local ≡ true)
        ↔ ((root : Bytes) × (o ≡ some root) × (root ≢ local))
  mismatch_iff none local = (λ h. cc, λ (r, e, d). cc)
  mismatch_iff (some root) local = (
    λ h. (root, refl, (differ_iff root local).0 (ground arith)),
    λ (r, e, d).
        let same : root ≡ r = cc in
        let k = (differ_iff r local).1 d in
        let k' : bytes_eq root local ≡ false = rw same k in ground arith,
  )

  vector_test_iff :
      (v : OriginatorRangeVector) (e : EventLogEntry)
      → ((not (has_sequence v e.seq)
            || (mismatch c encode_proof v.merkle_root
                  (originator_root c encode_proof log e.originator)
                && is_against e))
          ≡ true)
        ↔ IsUntold c log v e
  unfolding originator_root
  vector_test_iff v e =
      let known = has_sequence_iff v e.seq in
      let root = mismatch_iff v.merkle_root (originator_root c encode_proof log e.originator) in
      let suspect = is_against_iff e in
      (
        λ h. elim (Bool-cases (has_sequence v e.seq)) [
          | inl k ↦ let (r, s, d) = root.0 (ground arith) in inr (r, s, d, suspect.0 (ground arith))
          | inr k ↦ inl (known.0 k)
        ],
        λ h. elim h [
          | inl k ↦ let n = known.1 k in ground arith
          | inr (r, s, d, u) ↦ let m = root.1 (r, s, d) in let a = suspect.1 u in ground arith
        ],
      )

  -- The code's test is the description.
  pub is_missing_iff :
      (vs : List OriginatorRangeVector) (e : EventLogEntry)
      → (is_missing c encode_proof log vs e ≡ true) ↔ IsLacking c log vs e
  unfolding is_missing
  is_missing_iff vs e =
      let none_iff = rfind-none_iff (λ v. bytes_eq v.originator e.originator) vs in
      elim (Option-cases (rfind (λ v. bytes_eq v.originator e.originator) vs)) [
        | inl n ↦
            rw (n, is_missing)
              (
                λ h.
                    inl (
                      All-imp _ _ vs (λ v. (differ_iff v.originator e.originator).0)
                        (none_iff.0 n)),
                λ h. refl,
              )
        | inr (v, s) ↦
            rw (s, is_missing)
              (
                λ h. inr (v, described v s, (vector_test_iff v e).0 h),
                λ h. elim h [
                  | inl none_sent ↦ absurd (
                      lost v (
                        sym (
                          none_iff.1 (
                            All-imp _ _ vs (λ v. (differ_iff v.originator e.originator).1)
                              none_sent))
                        ∙ s))
                  | inr (w, l, u) ↦
                      let same : w ≡ v = some_injective w v (sym (found w l) ∙ s) in
                      (vector_test_iff v e).1 (subst (λ x. IsUntold c log x e) same u)
                ],
              )
      ]
    where
      lost : (v : OriginatorRangeVector) → none ≡ some v → ⊥
      lost v h = cc

      some_injective : (v w : OriginatorRangeVector) → some v ≡ some w → v ≡ w
      some_injective v w h = cc

      described :
          (v : OriginatorRangeVector)
          → rfind (λ v. bytes_eq v.originator e.originator) vs ≡ some v
          → IsLastVector e.originator vs v
      described v s =
          let (pre, post, whole, hit, later) =
            (rfind-some_iff (λ v. bytes_eq v.originator e.originator) vs v).0 s in
          (
            pre,
            post,
            whole,
            bytes_eq_sound _ _ hit,
            All-imp _ _ post (λ v. (differ_iff v.originator e.originator).0) later,
          )

      found :
          (v : OriginatorRangeVector)
          → IsLastVector e.originator vs v
          → rfind (λ v. bytes_eq v.originator e.originator) vs ≡ some v
      found v (pre, post, whole, own, later) =
          (rfind-some_iff (λ v. bytes_eq v.originator e.originator) vs v).1 (
            pre,
            post,
            whole,
            (bytes_eq_iff _ _).1 own,
            All-imp _ _ post (λ v. (differ_iff v.originator e.originator).1) later,
          )
