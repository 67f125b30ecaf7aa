-- ===== src/Chain.antt =====
-- Hash-linked, numbered records, as votes, purges and key rotations are: the interface that such a record
-- fills, and what a history of records has that each continue the one before.
pub mod Latest
pub mod Keyed
use randbotd.Base.{
  ℕ, ◌+◌, ◌%◌, ◌≤◌, ◌<◌, ◌≡◌, Option, none, some, List, [], ◌∷◌, arith, length, replicate,
}
use randbotd.Base.Bytes.{Bytes, u64_mod}

-- What the chain rules look at in a record.
pub record Links {ℓ} (A : Type ℓ) : Type ℓ where
  pub seq : A → ℕ
  pub prev_hash : A → Bytes
  pub id : A → Bytes
  pub time : A → ℕ

abbrev pub zero_hash : Bytes
zero_hash = replicate 32 0

module _ {ℓ} {A : Type ℓ} (l : Links A) where
  -- A number, a hash and a time that continue the chain after the previous record, or begin it.
  abbrev pub Continues : ℕ → Bytes → ℕ → Option A → Type 0
  Continues n h t none = (n ≡ 1) × (h ≡ zero_hash)
  Continues n h t (some prev) =
      (n ≡ (l.seq prev + 1) % u64_mod) × (h ≡ l.id prev) × (l.time prev ≤ t)

  abbrev pub Follows : A → Option A → Type 0
  Follows a prev = Continues (l.seq a) (l.prev_hash a) (l.time a) prev

  abbrev pub newest : List A → Option A
  newest [] = none
  newest (a ∷ rs) = some a

  -- A history, the newest record first.
  pub data Grown : List A → Type ℓ where
    start : Grown []
    grow : {rs : List A} (a : A) → Grown rs → Follows a (newest rs) → Grown (a ∷ rs)

  -- Each record carries its position, counted from 1, and its time is no later than `t`.
  abbrev pub IsNumbered : List A → ℕ → Type 0
  IsNumbered [] t = Unit {0}
  IsNumbered (a ∷ rs) t = (l.seq a ≡ length (a ∷ rs)) × (l.time a ≤ t) × IsNumbered rs (l.time a)

  -- Each record names the identifier of the one before it, and the first one names the zero hash.
  abbrev pub IsLinked : List A → Type 0
  IsLinked [] = Unit {0}
  IsLinked (a ∷ []) = l.prev_hash a ≡ zero_hash
  IsLinked (a ∷ b ∷ rs) = (l.prev_hash a ≡ l.id b) × IsLinked (b ∷ rs)

  pub Grown-IsNumbered :
      (rs : List A) (a : A)
      → Grown (a ∷ rs)
      → length (a ∷ rs) < u64_mod
      → IsNumbered (a ∷ rs) (l.time a)
  Grown-IsNumbered [] a (grow _ g f) small = (omega arith, omega arith, tt)
  Grown-IsNumbered (b ∷ rs) a (grow _ g f) small =
      let n = Grown-IsNumbered rs b g (omega arith) in
      (omega (arith, f.0, n.0), omega arith, (n.0, f.2, n.2))

  pub Grown-IsLinked : (rs : List A) (a : A) → Grown (a ∷ rs) → IsLinked (a ∷ rs)
  Grown-IsLinked [] a (grow _ g f) = f.1
  Grown-IsLinked (b ∷ rs) a (grow _ g f) = (f.1, Grown-IsLinked rs b g)
