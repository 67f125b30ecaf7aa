-- ===== src/Tables/Offers/CatalogHash.antt =====
-- storage/db/subtables/offer_subtable.rs, `insert_offer`: the catalog hash of the declaration.
use randbotd.Base.{
  if◌then◌else◌, ℕ, ◌≡◌, refl, ap, sym, subst, ◌∙◌, Bool, true, some, List, [], ◌∷◌, ◌++◌, map,
  arith, leb, ◌==◌, any, Bool-cases, Option-cases, inl, inr,
}
use randbotd.Base.Result.{Result, ok, err}
use randbotd.Base.Bytes.{Bytes}
use randbotd.Base.Crypto.{Crypto}
use randbotd.Base.Dict.{Dict, get, put, contains_key, get-put_same, or_default, get_or_default}
use randbotd.Scope.{CertificateCoverageScope}
use randbotd.Ca.{CaDeclaration}
use randbotd.Offer.{CertificateOffer, CaOfferCatalog, catalog_hash}
use randbotd.Tables.{Tables, TableError, unknown_ca, persist, and_then, and_then_ok}
use randbotd.Tables.Offers.{
  replace_offer, insert_by_id, sort_by_id, upsert_offer, list_offers_for_ca, catalog_of,
  catalog_of_list, get_catalog_for_ca, update_ca, update_found, persist_offers, store_offer,
  insert_offer,
}
use randbotd.Tables.Authorities.{get_ca}

insert_by_id-cons :
    (o : CertificateOffer) (os : List CertificateOffer)
    → (x : CertificateOffer) × (xs : List CertificateOffer) × (insert_by_id o os ≡ x ∷ xs)
unfolding insert_by_id
insert_by_id-cons o [] = (o, [], refl)
insert_by_id-cons o (y ∷ os) = elim (Bool-cases (leb o.offer_id y.offer_id)) [
  | inl e ↦ (o, y ∷ os, rw e refl)
  | inr e ↦ (y, insert_by_id o os, rw e refl)
]

replace_offer-cons :
    (o : CertificateOffer) (os : List CertificateOffer)
    → any (λ x. x.offer_id == o.offer_id) os ≡ true
    → (x : CertificateOffer) × (xs : List CertificateOffer) × (replace_offer o os ≡ x ∷ xs)
unfolding replace_offer
replace_offer-cons o [] h = absurd (ground arith)
replace_offer-cons o (y ∷ os) h = elim (Bool-cases (y.offer_id == o.offer_id)) [
  | inl e ↦ (o, os, rw e refl)
  | inr e ↦ (y, replace_offer o os, rw e refl)
]

sort_by_id-cons :
    (os : List CertificateOffer) (o : CertificateOffer)
    → (x : CertificateOffer) × (xs : List CertificateOffer) × (sort_by_id (os ++ o ∷ []) ≡ x ∷ xs)
unfolding sort_by_id
sort_by_id-cons [] o = insert_by_id-cons o []
sort_by_id-cons (y ∷ os) o = insert_by_id-cons y (sort_by_id (os ++ o ∷ []))

-- A list into which an offer was put is not empty.
upsert_offer-cons :
    (o : CertificateOffer) (os : List CertificateOffer)
    → (x : CertificateOffer) × (xs : List CertificateOffer) × (upsert_offer o os ≡ x ∷ xs)
unfolding upsert_offer
upsert_offer-cons o os = elim (Bool-cases (any (λ x. x.offer_id == o.offer_id) os)) [
  | inl e ↦ rw e (replace_offer-cons o os e)
  | inr e ↦ rw e (sort_by_id-cons os o)
]

contains_key-get {ℓ} :
    {V : Type ℓ} (d : Dict V) (k : Bytes) → contains_key d k ≡ true → (v : V) × (get d k ≡ some v)
contains_key-get d k h = elim (Option-cases (get d k)) [
  | inl e ↦ absurd (ground (arith, e))
  | inr (v, e) ↦ (v, e)
]

get-update_ca :
    (f : CaDeclaration → CaDeclaration) (k : Bytes) (store : Dict CaDeclaration)
    (ca : CaDeclaration)
    → get store k ≡ some ca
    → get (update_ca f k store) k ≡ some (f ca)
unfolding update_ca
get-update_ca f k store ca e =
    ap (λ o. get (update_found f k store o) k) e ∙ get-put_same store k (f ca)

module _ (c : Crypto) (scope_json : CertificateCoverageScope → Bytes) (t : Tables)
    (o : CertificateOffer) where
  -- What the declaration of the authority says about its offers.
  pub record IsListed (t' : Tables) (hash : Bytes) : Type 0 where
    pub declaration : CaDeclaration
    pub declared : get_ca t' o.ca_id ≡ some declaration
    pub hash_declared : declaration.current_catalog_hash ≡ some hash
    pub ids_declared : declaration.offer_ids ≡ map (λ x. x.offer_id) (list_offers_for_ca t' o.ca_id)
    pub catalog : CaOfferCatalog
    pub catalogued : get_catalog_for_ca t' o.ca_id ≡ some catalog
    pub hash_catalogued : catalog_hash c scope_json catalog ≡ hash

  abbrev offers : List CertificateOffer
  offers = upsert_offer o (list_offers_for_ca t o.ca_id)

  -- The change in memory, before the files are written.
  store_offer-IsListed :
      contains_key t.ca_store o.ca_id ≡ true
      → (disk : List Bool)
      → IsListed
          (record (store_offer c scope_json t o).0 { disk = disk })
          (store_offer c scope_json t o).1
  unfolding store_offer get_ca get_catalog_for_ca catalog_of list_offers_for_ca catalog_hash
  store_offer-IsListed h d =
      let (ca, e) = contains_key-get t.ca_store o.ca_id h in
      let (x, xs, nonempty) = upsert_offer-cons o (list_offers_for_ca t o.ca_id) in
      let hash = catalog_hash c scope_json (catalog_of o.ca_id 1 o.created_at offers) in
      let listed : get_or_default (put t.offer_store o.ca_id offers) o.ca_id [] ≡ offers =
        ap (λ v. or_default v []) (get-put_same t.offer_store o.ca_id offers) in
      record {
        declaration = record ca {
          current_catalog_hash = some hash;
          offer_ids = map (λ y. y.offer_id) offers;
        };
        declared = get-update_ca _ o.ca_id t.ca_store ca e;
        hash_declared = refl;
        ids_declared = ap (map (λ y. y.offer_id)) (sym listed);
        catalog = catalog_of o.ca_id 1 x.created_at (x ∷ xs);
        catalogued = ap (catalog_of_list o.ca_id) (listed ∙ nonempty);
        hash_catalogued =
            ap (λ l. catalog_hash c scope_json (catalog_of o.ca_id 1 o.created_at l))
              (sym nonempty);
      }

  -- An offer that is inserted and written to disk leaves a declaration of its authority that names the
  -- hash of the catalog that the table now gives, and the numbers of its offers.
  pub insert_offer-IsListed :
      (t' : Tables) (n : ℕ) (hash : Bytes)
      → insert_offer c scope_json t o ≡ (t', ok (n, hash))
      → IsListed t' hash
  unfolding insert_offer persist_offers
  insert_offer-IsListed t' n hash h = elim (Bool-cases (contains_key t.ca_store o.ca_id)) [
    | inl e ↦
        let (stored, own) = store_offer c scope_json t o in
        let done : Tables → Tables × Result TableError (ℕ × Bytes) =
          λ u. (u, ok (o.offer_id, own)) in
        let write_offers : Tables → Tables × Result TableError (ℕ × Bytes) =
          λ u. and_then {0, 0} (persist_offers u) done in
        let k : and_then {0, 0} (persist {0} stored tt) write_offers ≡ (t', ok (n, hash)) =
          rw (e, if◌then◌else◌) at h in
        let k₁ = and_then_ok {0, 0} (persist {0} stored tt) write_offers t' (n, hash) k in
        let k₂ =
          and_then_ok {0, 0} (persist_offers (persist {0} stored tt).0) done t' (n, hash) k₁ in
        let same : own ≡ hash = ground (arith, ap (λ r. r.1) k₂) in
        subst (IsListed t') same (
          subst (λ x. IsListed x own) (ap (λ r. r.0) k₂)
            (store_offer-IsListed e (persist_offers (persist {0} stored tt).0).0.disk))
    | inr e ↦
        let k : (t, err (unknown_ca o.ca_id)) ≡ (t', ok (n, hash)) = rw (e, if◌then◌else◌) at h in
        absurd (ground (arith, ap (λ r. r.1) k))
  ]
