-- ===== src/Tables/Offers/Catalogs.antt =====
-- storage/db/subtables/offer_subtable.rs, `insert_offer`: the offers of an authority and its catalog hash.
use randbotd.Base.{
  ℕ, ◌≤◌, ◌<◌, ◌≡◌, refl, subst, ◌∙◌, inl, inr, Bool, false, ◌||◌, List, [], ◌∷◌, ◌++◌, arith, leb,
  ◌==◌, any, All, Bool-cases,
}
use randbotd.Offer.{CertificateOffer}
use randbotd.Tables.Offers.{replace_offer, insert_by_id, sort_by_id, upsert_offer}

-- The numbers of the offers rise strictly, from above `n` on if there is such a bound.
abbrev pub IsAbove : ℕ → List CertificateOffer → Type 0
IsAbove n = All (λ o. n < o.offer_id)

abbrev pub IsRising : List CertificateOffer → Type 0
IsRising [] = Unit {0}
IsRising (o ∷ os) = IsAbove o.offer_id os × IsRising os

replace_offer-IsAbove :
    (n : ℕ) (o : CertificateOffer) (os : List CertificateOffer)
    → IsAbove n os
    → IsAbove n (replace_offer o os)
unfolding replace_offer
replace_offer-IsAbove n o [] h = tt
replace_offer-IsAbove n o (x ∷ os) h = elim (Bool-cases (x.offer_id == o.offer_id)) [
  | inl e ↦ let k : x.offer_id ≡ o.offer_id = ground arith in rw e (omega (arith, k, h.0), h.1)
  | inr e ↦ rw e (h.0, replace_offer-IsAbove n o os h.1)
]

replace_offer-IsRising :
    (o : CertificateOffer) (os : List CertificateOffer)
    → IsRising os
    → IsRising (replace_offer o os)
unfolding replace_offer
replace_offer-IsRising o [] h = tt
replace_offer-IsRising o (x ∷ os) h = elim (Bool-cases (x.offer_id == o.offer_id)) [
  | inl e ↦
      let k : x.offer_id ≡ o.offer_id = ground arith in rw e (subst (λ n. IsAbove n os) k h.0, h.1)
  | inr e ↦ rw e (replace_offer-IsAbove x.offer_id o os h.0, replace_offer-IsRising o os h.1)
]

insert_by_id-IsAbove :
    (n : ℕ) (o : CertificateOffer) (os : List CertificateOffer)
    → n < o.offer_id
    → IsAbove n os
    → IsAbove n (insert_by_id o os)
unfolding insert_by_id
insert_by_id-IsAbove n o [] k h = (k, tt)
insert_by_id-IsAbove n o (x ∷ os) k h = elim (Bool-cases (leb o.offer_id x.offer_id)) [
  | inl e ↦ rw e (k, h)
  | inr e ↦ rw e (h.0, insert_by_id-IsAbove n o os k h.1)
]

IsAbove-weaken : (m n : ℕ) (os : List CertificateOffer) → m ≤ n → IsAbove n os → IsAbove m os
IsAbove-weaken m n [] k h = tt
IsAbove-weaken m n (x ∷ os) k h = (omega (arith, k, h.0), IsAbove-weaken m n os k h.1)

-- A rising list stays rising when an offer of a new number is sorted into it.
insert_by_id-IsRising :
    (o : CertificateOffer) (os : List CertificateOffer)
    → IsRising os
    → any (λ x. x.offer_id == o.offer_id) os ≡ false
    → IsRising (insert_by_id o os)
unfolding insert_by_id
insert_by_id-IsRising o [] h new = (tt, tt)
insert_by_id-IsRising o (x ∷ os) h new = elim (Bool-cases (leb o.offer_id x.offer_id)) [
  | inl e ↦
      let k : o.offer_id < x.offer_id = ground (arith, new) in
      rw e ((k, IsAbove-weaken o.offer_id x.offer_id os (omega (arith, k)) h.0), h)
  | inr e ↦
      let k : x.offer_id < o.offer_id = ground (arith, e) in
      rw e (
        insert_by_id-IsAbove x.offer_id o os k h.0,
        insert_by_id-IsRising o os h.1 (ground (arith, new)),
      )
]

any-insert_by_id :
    (p : CertificateOffer → Bool) (o : CertificateOffer) (os : List CertificateOffer)
    → any p (insert_by_id o os) ≡ (p o || any p os)
unfolding insert_by_id
any-insert_by_id p o [] = refl
any-insert_by_id p o (x ∷ os) = ground (arith, any-insert_by_id p o os)

any-sort_by_id :
    (p : CertificateOffer → Bool) (os : List CertificateOffer) → any p (sort_by_id os) ≡ any p os
unfolding sort_by_id
any-sort_by_id p [] = refl
any-sort_by_id p (o ∷ os) =
    ground (arith, any-insert_by_id p o (sort_by_id os), any-sort_by_id p os)

any-snoc-above :
    (x o : CertificateOffer) (os : List CertificateOffer)
    → IsAbove x.offer_id os
    → (x.offer_id == o.offer_id) ≡ false
    → any (λ y. y.offer_id == x.offer_id) (os ++ o ∷ []) ≡ false
any-snoc-above x o [] h k = ground arith
any-snoc-above x o (y ∷ os) h k = ground (arith, h.0, any-snoc-above x o os h.1 k)

sort_by_id-snoc-IsRising :
    (os : List CertificateOffer) (o : CertificateOffer)
    → IsRising os
    → any (λ x. x.offer_id == o.offer_id) os ≡ false
    → IsRising (sort_by_id (os ++ o ∷ []))
unfolding sort_by_id
sort_by_id-snoc-IsRising [] o h new = insert_by_id-IsRising o [] tt refl
sort_by_id-snoc-IsRising (x ∷ os) o h new =
    insert_by_id-IsRising x (sort_by_id (os ++ o ∷ []))
      (sort_by_id-snoc-IsRising os o h.1 (ground (arith, new)))
      (any-sort_by_id (λ y. y.offer_id == x.offer_id) (os ++ o ∷ [])
        ∙ any-snoc-above x o os h.0 (ground (arith, new)))

pub upsert_offer-IsRising :
    (o : CertificateOffer) (os : List CertificateOffer) → IsRising os → IsRising (upsert_offer o os)
unfolding upsert_offer
upsert_offer-IsRising o os h = elim (Bool-cases (any (λ x. x.offer_id == o.offer_id) os)) [
  | inl e ↦ rw e (replace_offer-IsRising o os h)
  | inr e ↦ rw e (sort_by_id-snoc-IsRising os o h e)
]
