-- ===== src/Base/Search.antt =====
-- Searching lists by a Boolean test, as the iterator methods `filter`, `any` and `find` do.
use randbotd.Base.Tests.{if◌then◌else◌}
use randbotd.Base.Lists.{length, All}
use Prim.Native.Nat.{◌≤◌}
use mathlib.Core.Path.{◌≡◌, refl, sym, ap, ◌∙◌}
use mathlib.Core.Logic.{◌↔◌}
use mathlib.Core.Bool.{Bool, true, false, ◌||◌}
use mathlib.Core.Option.{Option, none, some}
use mathlib.Core.List.{List, [], ◌∷◌, ◌++◌, reverse, reverse-append}
use native.Mathlib.Omega.{arith}

module _ {ℓ} {A : Type ℓ} where
  abbrev pub filter : (A → Bool) → List A → List A
  filter p [] = []
  filter p (x ∷ xs) = let rest = filter p xs in if p x then x ∷ rest else rest

  abbrev pub any : (A → Bool) → List A → Bool
  any p [] = false
  any p (x ∷ xs) = p x || any p xs

  abbrev pub find : (A → Bool) → List A → Option A
  find p [] = none
  find p (x ∷ xs) = let rest = find p xs in if p x then some x else rest

  -- `iter().rev().find(p)`.
  abbrev pub rfind : (A → Bool) → List A → Option A
  rfind p xs = find p (reverse xs)

  abbrev pub last : List A → Option A
  last [] = none
  last (x ∷ []) = some x
  last (x ∷ y ∷ xs) = last (y ∷ xs)

module _ {ℓ} {A : Type ℓ} (p : A → Bool) where
  pub filter-append : (xs ys : List A) → filter p (xs ++ ys) ≡ filter p xs ++ filter p ys
  filter-append [] ys = refl
  filter-append (x ∷ xs) ys = ground (arith, filter-append xs ys)

  pub length-filter-le : (xs : List A) → length (filter p xs) ≤ length xs
  length-filter-le [] = omega arith
  length-filter-le (x ∷ xs) = ground (arith, length-filter-le xs)

  find-append : (xs ys : List A) (a : A) → find p xs ≡ some a → find p (xs ++ ys) ≡ some a
  find-append [] ys a h = cc
  find-append (x ∷ xs) ys a h = ground (arith, find-append xs ys a)

  pub rfind-append_hit : (xs : List A) (x : A) → p x ≡ true → rfind p (xs ++ x ∷ []) ≡ some x
  rfind-append_hit xs x h = rw (reverse-append xs (x ∷ []), h) refl

  pub rfind-append_miss : (xs : List A) (x : A) → p x ≡ false → rfind p (xs ++ x ∷ []) ≡ rfind p xs
  rfind-append_miss xs x h = rw (reverse-append xs (x ∷ []), h) refl

  abbrev or_else : Option A → Option A → Option A
  or_else (some a) o = some a
  or_else none o = o

  find-append_or : (xs ys : List A) → find p (xs ++ ys) ≡ or_else (find p xs) (find p ys)
  find-append_or [] ys = refl
  find-append_or (x ∷ xs) ys = ground (arith, find-append_or xs ys)

  last-cons : (x : A) (xs : List A) → last (x ∷ xs) ≡ or_else (last xs) (some x)
  last-cons x [] = refl
  last-cons x (y ∷ xs) = rw (last-cons y xs) (keep (last xs))
    where
      keep : (o : Option A) → or_else o (some y) ≡ or_else (or_else o (some y)) (some x)
      keep none = refl
      keep (some a) = refl

  -- The last element that passes the test, found backwards or by filtering.
  pub rfind-eq-last : (xs : List A) → rfind p xs ≡ last (filter p xs)
  rfind-eq-last [] = refl
  rfind-eq-last (x ∷ xs) =
      rw (reverse-append (x ∷ []) xs, find-append_or (reverse xs) (x ∷ []), rfind-eq-last xs)
        (ground (arith, last-cons x (filter p xs)))

  rfind-cons :
      (x : A) (xs : List A) → rfind p (x ∷ xs) ≡ or_else (rfind p xs) (if p x then some x else none)
  rfind-cons x xs = rw (reverse-append (x ∷ []) xs, find-append_or (reverse xs) (x ∷ [])) refl

  pub rfind-none_iff : (xs : List A) → (rfind p xs ≡ none) ↔ All (λ x. p x ≡ false) xs
  rfind-none_iff [] = (λ h. tt, λ h. refl)
  rfind-none_iff (x ∷ xs) =
      let rest = rfind-none_iff xs in
      (
        λ h. split rest.0 (rfind p xs) (p x) refl refl (sym (rfind-cons x xs) ∙ h),
        λ h. rfind-cons x xs ∙ rw (rest.1 h.1, h.0) refl,
      )
    where
      split :
          (rfind p xs ≡ none → All (λ y. p y ≡ false) xs)
          → (o : Option A) (b : Bool) → rfind p xs ≡ o
          → p x ≡ b
          → or_else o (if b then some x else none) ≡ none
          → (p x ≡ false) × All (λ y. p y ≡ false) xs
      split rest none false e f h = (f, rest e)
      split rest none true e f h = cc
      split rest (some a) b e f h = cc

  -- The last element that passes the test.
  abbrev pub IsLast : List A → A → Type ℓ
  IsLast xs a =
      (pre : List A) × (post : List A) × (xs ≡ pre ++ a ∷ post)
      × (p a ≡ true)
      × All (λ x. p x ≡ false) post

  rfind_sound : (xs : List A) (a : A) → rfind p xs ≡ some a → IsLast xs a
  rfind_sound [] a h = cc
  rfind_sound (x ∷ xs) a h =
      split (rfind_sound xs a) (rfind p xs) (p x) refl refl (sym (rfind-cons x xs) ∙ h)
    where
      split :
          (rfind p xs ≡ some a → IsLast xs a)
          → (o : Option A) (b : Bool) → rfind p xs ≡ o
          → p x ≡ b
          → or_else o (if b then some x else none) ≡ some a
          → IsLast (x ∷ xs) a
      split rest (some b) t e f h =
          let (pre, post, whole, hit, later) = rest (e ∙ h) in
          (x ∷ pre, post, ap (λ t. x ∷ t) whole, hit, later)
      split rest none true e f h =
          let same : x ≡ a = cc in
          ([], xs, ap (λ y. y ∷ xs) same, ap p (sym same) ∙ f, (rfind-none_iff xs).0 e)
      split rest none false e f h = cc

  rfind_complete :
      (pre post : List A) (a : A)
      → p a ≡ true
      → All (λ x. p x ≡ false) post
      → rfind p (pre ++ a ∷ post) ≡ some a
  rfind_complete [] post a h k = rfind-cons a post ∙ rw ((rfind-none_iff post).1 k, h) refl
  rfind_complete (x ∷ pre) post a h k =
      rfind-cons x (pre ++ a ∷ post) ∙ rw (rfind_complete pre post a h k) refl

  pub rfind-some_iff : (xs : List A) (a : A) → (rfind p xs ≡ some a) ↔ IsLast xs a
  rfind-some_iff xs a = (
    rfind_sound xs a,
    λ (pre, post, whole, h, k). ap (rfind p) whole ∙ rfind_complete pre post a h k,
  )
