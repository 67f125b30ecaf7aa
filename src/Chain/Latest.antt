-- ===== src/Chain/Latest.antt =====
-- The tables of votes, purges and key rotations (storage/db/subtables/): the check of a record that comes in
-- against the latest one of its chain, and `sort_by_key` on the sequence number.
use randbotd.Base.{
  ℕ, ◌+◌, ◌%◌, ◌≤◌, ◌<◌, ◌≡◌, refl, ap, sym, ◌∙◌, not, Option, none, some, List, [], ◌∷◌, ◌++◌,
  arith, length, ltb, leb, ◌==◌, bytes_eq, if◌then◌else◌, reverse, All, last, Bool-cases, inl, inr,
  length-append, le→leb, bytes_eq_iff, ◌↔◌, suc, subst,
}
use randbotd.Base.Result.{Result, ok, fail_if, ◌>>◌}
use randbotd.Base.Bytes.{u64_mod}
use randbotd.Chain.{Links, Follows, Grown, grow, newest, zero_hash, Grown-IsNumbered, IsNumbered}
use mathlib.Core.List.{reverse-append, reverse-cons, reverse-reverse}

pub data ChainError : Type 0 where
  first_seq : ℕ → ChainError
  first_hash broken_link : ChainError
  sequence_gap time_reversal : ℕ → ℕ → ChainError

module _ {ℓ} {A : Type ℓ} (l : Links A) where
  unfoldable pub check_latest : A → Option A → Result ChainError (Unit {0})
  check_latest a none = do
    fail_if (not (l.seq a == 1)) (first_seq (l.seq a))
    fail_if (not (bytes_eq (l.prev_hash a) zero_hash)) first_hash
  check_latest a (some latest) = do
    fail_if (not (l.seq a == (l.seq latest + 1) % u64_mod))
        (sequence_gap ((l.seq latest + 1) % u64_mod) (l.seq a))
    fail_if (not (bytes_eq (l.prev_hash a) (l.id latest))) broken_link
    fail_if (ltb (l.time a) (l.time latest)) (time_reversal (l.time a) (l.time latest))

  abbrev pub insert_by_seq : A → List A → List A
  insert_by_seq a [] = a ∷ []
  insert_by_seq a (b ∷ bs) =
      let rest = insert_by_seq a bs in if leb (l.seq a) (l.seq b) then a ∷ b ∷ bs else b ∷ rest

  -- `sort_by_key(|a| a.seq)`, a stable sort.
  abbrev pub sort_by_seq : List A → List A
  sort_by_seq [] = []
  sort_by_seq (a ∷ as') = insert_by_seq a (sort_by_seq as')

  pub check_latest_iff : (a : A) (o : Option A) → (check_latest a o ≡ ok tt) ↔ Follows l a o
  unfolding check_latest
  check_latest_iff a none = (
    λ h. ground (arith, bytes_eq_iff (l.prev_hash a) zero_hash),
    λ h. ground (arith, bytes_eq_iff (l.prev_hash a) zero_hash),
  )
  check_latest_iff a (some b) = (
    λ h. ground (arith, bytes_eq_iff (l.prev_hash a) (l.id b)),
    λ h. ground (arith, bytes_eq_iff (l.prev_hash a) (l.id b)),
  )

  -- A record whose number is no smaller than the others' goes last.
  insert_by_seq-append :
      (a : A) (bs : List A) (b : A)
      → l.seq a ≤ l.seq b
      → insert_by_seq a (bs ++ b ∷ []) ≡ insert_by_seq a bs ++ b ∷ []
  insert_by_seq-append a [] b h = rw (le→leb (l.seq a) (l.seq b) h) refl
  insert_by_seq-append a (x ∷ bs) b h = ground (arith, insert_by_seq-append a bs b h)

  abbrev AtMost : ℕ → List A → Type 0
  AtMost n = All (λ a. l.seq a ≤ n)

  sort_by_seq-append :
      (as' : List A) (b : A)
      → AtMost (l.seq b) as'
      → sort_by_seq (as' ++ b ∷ []) ≡ sort_by_seq as' ++ b ∷ []
  sort_by_seq-append [] b h = refl
  sort_by_seq-append (a ∷ as') b h =
      ap (insert_by_seq a) (sort_by_seq-append as' b h.1)
      ∙ insert_by_seq-append a (sort_by_seq as') b h.0

  AtMost-insert : (n : ℕ) (a : A) (bs : List A) → AtMost n (insert_by_seq a bs) → AtMost n (a ∷ bs)
  AtMost-insert n a [] h = h
  AtMost-insert n a (b ∷ bs) h = elim (Bool-cases (leb (l.seq a) (l.seq b))) [
    | inl e ↦ rw (e, if◌then◌else◌) at h
    | inr e ↦
        let k : AtMost n (b ∷ insert_by_seq a bs) = rw (e, if◌then◌else◌) at h in
        let r = AtMost-insert n a bs k.1 in (r.0, (k.0, r.1))
  ]

  AtMost-sort : (n : ℕ) (as' : List A) → AtMost n (sort_by_seq as') → AtMost n as'
  AtMost-sort n [] h = tt
  AtMost-sort n (a ∷ as') h =
      let k = AtMost-insert n a (sort_by_seq as') h in (k.0, AtMost-sort n as' k.1)

  AtMost-snoc :
      (n : ℕ) (as' : List A) (a : A) → AtMost n as' → l.seq a ≤ n → AtMost n (as' ++ a ∷ [])
  AtMost-snoc n [] a h k = (k, tt)
  AtMost-snoc n (b ∷ as') a h k = (h.0, AtMost-snoc n as' a h.1 k)

  AtMost-reverse : (n : ℕ) (as' : List A) → AtMost n as' → AtMost n (reverse as')
  AtMost-reverse n [] h = tt
  AtMost-reverse n (a ∷ as') h =
      rw (reverse-append (a ∷ []) as')
        (AtMost-snoc n (reverse as') a (AtMost-reverse n as' h.1) h.0)

  IsNumbered-AtMost : (n t : ℕ) (as' : List A) → IsNumbered l as' t → length as' ≤ n → AtMost n as'
  IsNumbered-AtMost n t [] h k = tt
  IsNumbered-AtMost n t (a ∷ as') h k =
      (omega (arith, h.0), IsNumbered-AtMost n (l.time a) as' h.2 (omega arith))

  newest_front :
      (zs : List A) (b a : A) → newest l ((zs ++ b ∷ []) ++ a ∷ []) ≡ newest l (zs ++ b ∷ [])
  newest_front [] b a = refl
  newest_front (z ∷ zs) b a = refl

  pub newest-reverse : (as' : List A) → newest l (reverse as') ≡ last as'
  newest-reverse [] = refl
  newest-reverse (a ∷ []) = refl
  newest-reverse (a ∷ b ∷ as') =
      rw (reverse-cons a (b ∷ as'), reverse-cons b as', newest_front (reverse as') b a)
        (sym (ap (newest l) (reverse-cons b as')) ∙ newest-reverse (b ∷ as'))

  length-insert : (a : A) (bs : List A) → length (insert_by_seq a bs) ≡ suc (length bs)
  length-insert a [] = refl
  length-insert a (b ∷ bs) = ground (arith, length-insert a bs)

  length-sort : (as' : List A) → length (sort_by_seq as') ≡ length as'
  length-sort [] = refl
  length-sort (a ∷ as') = omega (arith, length-insert a (sort_by_seq as'), length-sort as')

  length-reverse : (as' : List A) → length (reverse as') ≡ length as'
  length-reverse [] = refl
  length-reverse (a ∷ as') =
      rw (reverse-cons a as')
        (omega (arith, length-append (reverse as') (a ∷ []), length-reverse as'))

  -- What a history continues is numbered below what continues it.
  AtMost-next :
      (rs : List A) (a : A)
      → Grown l rs
      → Follows l a (newest l rs)
      → length rs + 1 < u64_mod
      → AtMost (l.seq a) rs
  AtMost-next [] a g f small = tt
  AtMost-next (b ∷ rs) a g f small =
      let n = Grown-IsNumbered l rs b g (omega arith) in
      IsNumbered-AtMost (l.seq a) (l.time b) (b ∷ rs) n (omega (arith, f.0, n.0))

  -- Sorted by their numbers, the records make one chain from the zero hash on.
  abbrev pub IsChain : List A → Type ℓ
  IsChain as' = Grown l (reverse (sort_by_seq as'))

  -- A record that passes the check against the last of a chain extends the chain.
  pub IsChain-snoc :
      (as' : List A) (a : A)
      → IsChain as'
      → check_latest a (last (sort_by_seq as')) ≡ ok tt
      → length as' + 1 < u64_mod
      → IsChain (as' ++ a ∷ [])
  IsChain-snoc as' a g h small =
      let s = sort_by_seq as' in
      let f : Follows l a (newest l (reverse s)) =
        subst (Follows l a) (sym (newest-reverse s)) ((check_latest_iff a (last s)).0 h) in
      let b =
        AtMost-next (reverse s) a g f (omega (arith, length-reverse s, length-sort as', small)) in
      let b' =
        subst (AtMost (l.seq a)) (reverse-reverse s) (AtMost-reverse (l.seq a) (reverse s) b) in
      rw (sort_by_seq-append as' a (AtMost-sort (l.seq a) as' b'), reverse-append s (a ∷ []))
        (grow a g f)
