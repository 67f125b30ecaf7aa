-- ===== src/History/Ranges.antt =====
-- storage/db/sync.rs: the ranges that stand for a set of sequence numbers.
use randbotd.Base.{
  ℕ, ◌+◌, ◌≤◌, ◌<◌, ◌≡◌, refl, sym, subst, ◌∙◌, inl, inr, Bool, true, ◌&&◌, ◌||◌, List, [], ◌∷◌,
  arith, leb, ◌==◌, if◌then◌else◌, ==_iff, Bool-cases,
}
use randbotd.Base.{any}
use randbotd.History.{SequenceRange, contains}

-- `sort_unstable` and `dedup` on sequence numbers: equal numbers cannot be told apart.
pub insert_seq : ℕ → List ℕ → List ℕ
insert_seq x [] = x ∷ []
insert_seq x (y ∷ ys) = if leb x y then x ∷ y ∷ ys else y ∷ insert_seq x ys

pub sort_seqs : List ℕ → List ℕ
unfolding insert_seq
sort_seqs [] = []
sort_seqs (x ∷ xs) = insert_seq x (sort_seqs xs)

pub dedup_from : ℕ → List ℕ → List ℕ
dedup_from x [] = x ∷ []
dedup_from x (y ∷ ys) = if x == y then dedup_from x ys else x ∷ dedup_from y ys

pub dedup : List ℕ → List ℕ
unfolding dedup_from
dedup [] = []
dedup (x ∷ xs) = dedup_from x xs

-- The loop over the numbers after the first, with the open range `start..=prev`. No sum overflows, since
-- a number follows `prev`.
pub ranges_from : ℕ → ℕ → List ℕ → List SequenceRange
ranges_from start prev [] = record { start = start; end = prev } ∷ []
ranges_from start prev (seq ∷ rest) =
    if seq == prev + 1
    then ranges_from start seq rest
    else record { start = start; end = prev } ∷ ranges_from seq seq rest

pub open_ranges : List ℕ → List SequenceRange
unfolding ranges_from
open_ranges [] = []
open_ranges (first ∷ rest) = ranges_from first first rest

-- The known ranges of a row of sequence numbers, in any order and with repetitions.
pub known_ranges_of : List ℕ → List SequenceRange
unfolding open_ranges sort_seqs dedup
known_ranges_of seqs = open_ranges (dedup (sort_seqs seqs))

abbrev pub mem : List ℕ → ℕ → Bool
mem xs s = any (λ x. x == s) xs

abbrev pub in_ranges : List SequenceRange → ℕ → Bool
in_ranges rs s = any (λ r. contains r s) rs

-- Rising and strictly rising rows, from a bound.
abbrev Rising : ℕ → List ℕ → Type 0
Rising k [] = Unit {0}
Rising k (x ∷ xs) = (k ≤ x) × Rising x xs

abbrev Climbing : ℕ → List ℕ → Type 0
Climbing k [] = Unit {0}
Climbing k (x ∷ xs) = (k < x) × Climbing x xs

abbrev IsRising : List ℕ → Type 0
IsRising [] = Unit {0}
IsRising (x ∷ xs) = Rising x xs

abbrev IsClimbing : List ℕ → Type 0
IsClimbing [] = Unit {0}
IsClimbing (x ∷ xs) = Climbing x xs

insert_seq-Rising : (k x : ℕ) (ys : List ℕ) → k ≤ x → Rising k ys → Rising k (insert_seq x ys)
unfolding insert_seq
insert_seq-Rising k x [] h r = (h, tt)
insert_seq-Rising k x (y ∷ ys) h r = ground (arith, insert_seq-Rising y x ys)

insert_seq-IsRising : (x : ℕ) (ys : List ℕ) → IsRising ys → IsRising (insert_seq x ys)
unfolding insert_seq
insert_seq-IsRising x [] r = tt
insert_seq-IsRising x (y ∷ ys) r = ground (arith, insert_seq-Rising y x ys)

sort_seqs-IsRising : (xs : List ℕ) → IsRising (sort_seqs xs)
unfolding sort_seqs
sort_seqs-IsRising [] = tt
sort_seqs-IsRising (x ∷ xs) = insert_seq-IsRising x (sort_seqs xs) (sort_seqs-IsRising xs)

dedup_from-Climbing : (k x : ℕ) (ys : List ℕ) → k < x → Rising x ys → Climbing k (dedup_from x ys)
unfolding dedup_from
dedup_from-Climbing k x [] h r = (h, tt)
dedup_from-Climbing k x (y ∷ ys) h r =
    ground
      (arith, dedup_from-Climbing k x ys, dedup_from-Climbing x y ys, dedup_from-Climbing k y ys)

dedup_from-IsClimbing : (x : ℕ) (ys : List ℕ) → Rising x ys → IsClimbing (dedup_from x ys)
unfolding dedup_from
dedup_from-IsClimbing x [] r = tt
dedup_from-IsClimbing x (y ∷ ys) r = elim (Bool-cases (x == y)) [
  | inl e ↦ rw e (dedup_from-IsClimbing x ys (lower e))
  | inr e ↦ rw e (dedup_from-Climbing x y ys (ground arith) r.1)
]
  where
    lower : (x == y) ≡ true → Rising x ys
    lower e = subst (λ (t : ℕ). Rising t ys) (sym ((==_iff x y).0 e)) r.1

dedup-IsClimbing : (xs : List ℕ) → IsRising xs → IsClimbing (dedup xs)
unfolding dedup
dedup-IsClimbing [] r = tt
dedup-IsClimbing (x ∷ xs) r = dedup_from-IsClimbing x xs r

module _ (s : ℕ) where
  mem-insert_seq : (x : ℕ) (ys : List ℕ) → mem (insert_seq x ys) s ≡ (x == s || mem ys s)
  unfolding insert_seq
  mem-insert_seq x [] = refl
  mem-insert_seq x (y ∷ ys) = ground (arith, mem-insert_seq x ys)

  mem-sort_seqs : (xs : List ℕ) → mem (sort_seqs xs) s ≡ mem xs s
  unfolding sort_seqs
  mem-sort_seqs [] = refl
  mem-sort_seqs (x ∷ xs) = ground (arith, mem-insert_seq x (sort_seqs xs), mem-sort_seqs xs)

  mem-dedup_from : (x : ℕ) (ys : List ℕ) → mem (dedup_from x ys) s ≡ (x == s || mem ys s)
  unfolding dedup_from
  mem-dedup_from x [] = refl
  mem-dedup_from x (y ∷ ys) = ground (arith, mem-dedup_from x ys, mem-dedup_from y ys)

  mem-dedup : (xs : List ℕ) → mem (dedup xs) s ≡ mem xs s
  unfolding dedup
  mem-dedup [] = refl
  mem-dedup (x ∷ xs) = mem-dedup_from x xs

  in_ranges-ranges_from :
      (start prev : ℕ) (rest : List ℕ)
      → start ≤ prev
      → Climbing prev rest
      → in_ranges (ranges_from start prev rest) s ≡ ((leb start s && leb s prev) || mem rest s)
  unfolding ranges_from contains
  in_ranges-ranges_from start prev [] h c = refl
  in_ranges-ranges_from start prev (x ∷ rest) h c =
      ground (arith, in_ranges-ranges_from start x rest, in_ranges-ranges_from x x rest)

  in_ranges-open_ranges : (xs : List ℕ) → IsClimbing xs → in_ranges (open_ranges xs) s ≡ mem xs s
  unfolding open_ranges
  in_ranges-open_ranges [] c = refl
  in_ranges-open_ranges (x ∷ xs) c = ground (arith, in_ranges-ranges_from x x xs (omega arith) c)

  -- A sequence number lies in the ranges that are built from a row of numbers, in any order and with
  -- repetitions, exactly if it is one of them.
  pub known_ranges_of_exact :
      (xs : List ℕ) → any (λ r. contains r s) (known_ranges_of xs) ≡ any (λ x. x == s) xs
  unfolding known_ranges_of
  known_ranges_of_exact xs =
      in_ranges-open_ranges (dedup (sort_seqs xs))
        (dedup-IsClimbing (sort_seqs xs) (sort_seqs-IsRising xs))
      ∙ mem-dedup (sort_seqs xs)
      ∙ mem-sort_seqs xs
