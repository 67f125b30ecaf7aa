-- ===== src/Tables/Offers.antt =====
-- storage/db/subtables/offer_subtable.rs.
pub mod Catalogs
pub mod CatalogHash
use randbotd.Base.{
  ℕ, Option, none, some, List, [], ◌∷◌, ◌++◌, map, leb, ◌==◌, if◌then◌else◌, any, find,
}
use randbotd.Base.Result.{Result, ok, err}
use randbotd.Base.Bytes.{Bytes}
use randbotd.Base.Crypto.{Crypto}
use randbotd.Base.Dict.{Dict, get, put, contains_key, get_or_default}
use randbotd.Scope.{CertificateCoverageScope}
use randbotd.Ca.{CaDeclaration}
use randbotd.Offer.{CertificateOffer, CaOfferCatalog, catalog_hash}
use randbotd.Tables.{Tables, TableError, unknown_ca, persist, and_then}

-- `ca_offers[pos] = offer` at the first offer of that number.
unfoldable pub replace_offer : CertificateOffer → List CertificateOffer → List CertificateOffer
replace_offer o [] = []
replace_offer o (x ∷ xs) =
    let rest = replace_offer o xs in if x.offer_id == o.offer_id then o ∷ xs else x ∷ rest

unfoldable pub insert_by_id : CertificateOffer → List CertificateOffer → List CertificateOffer
insert_by_id o [] = o ∷ []
insert_by_id o (x ∷ xs) =
    let rest = insert_by_id o xs in if leb o.offer_id x.offer_id then o ∷ x ∷ xs else x ∷ rest

-- `sort_by_key(|o| o.offer_id)`.
unfoldable pub sort_by_id : List CertificateOffer → List CertificateOffer
sort_by_id [] = []
sort_by_id (o ∷ os) = insert_by_id o (sort_by_id os)

unfoldable pub upsert_offer : CertificateOffer → List CertificateOffer → List CertificateOffer
upsert_offer o offers =
    if any (λ x. x.offer_id == o.offer_id) offers
    then replace_offer o offers
    else sort_by_id (offers ++ o ∷ [])

unfoldable pub list_offers_for_ca : Tables → Bytes → List CertificateOffer
list_offers_for_ca t ca_id = get_or_default t.offer_store ca_id []

unfoldable pub get_offer : Tables → Bytes → ℕ → Option CertificateOffer
get_offer t ca_id offer_id = find (λ o. o.offer_id == offer_id) (list_offers_for_ca t ca_id)

unfoldable pub catalog_of : Bytes → ℕ → ℕ → List CertificateOffer → CaOfferCatalog
catalog_of ca_id version created_at offers = record {
  ca_id = ca_id;
  catalog_version = version;
  created_at = created_at;
  offers = offers;
}

abbrev catalog_of_list : Bytes → List CertificateOffer → Option CaOfferCatalog
catalog_of_list ca_id [] = none
catalog_of_list ca_id (o ∷ os) = some (catalog_of ca_id 1 o.created_at (o ∷ os))

unfoldable pub get_catalog_for_ca : Tables → Bytes → Option CaOfferCatalog
get_catalog_for_ca t ca_id = catalog_of_list ca_id (list_offers_for_ca t ca_id)

-- `if let Some(ca) = ca_store.get_mut(&ca_id) { ... }`.
abbrev pub update_found :
    (CaDeclaration → CaDeclaration)
    → Bytes
    → Dict CaDeclaration
    → Option CaDeclaration
    → Dict CaDeclaration
update_found f ca_id store none = store
update_found f ca_id store (some ca) = put store ca_id (f ca)

unfoldable pub update_ca :
    (CaDeclaration → CaDeclaration) → Bytes → Dict CaDeclaration → Dict CaDeclaration
update_ca f ca_id store = update_found f ca_id store (get store ca_id)

unfoldable pub persist_offers : Tables → Tables × Result TableError (Unit {0})
persist_offers t = persist t tt

module _ (c : Crypto) (scope_json : CertificateCoverageScope → Bytes) where
  -- The tables after the change in memory, and the hash of the catalog.
  unfoldable pub store_offer : Tables → CertificateOffer → Tables × Bytes
  store_offer t o =
      let offers = upsert_offer o (list_offers_for_ca t o.ca_id) in
      let hash = catalog_hash c scope_json (catalog_of o.ca_id 1 o.created_at offers) in
      (
        record t {
          offer_store = put t.offer_store o.ca_id offers;
          ca_store =
              update_ca
                (λ ca. record ca {
                  current_catalog_hash = some hash;
                  offer_ids = map (λ x. x.offer_id) offers;
                })
                o.ca_id t.ca_store;
        },
        hash,
      )

  unfoldable pub insert_offer : Tables → CertificateOffer → Tables × Result TableError (ℕ × Bytes)
  insert_offer t o =
      let (t', hash) = store_offer t o in
      let done : Tables → Tables × Result TableError (ℕ × Bytes) =
        λ t''. (t'', ok (o.offer_id, hash)) in
      if contains_key t.ca_store o.ca_id
      then and_then {0, 0} (persist t' tt) (λ t₁. and_then {0, 0} (persist_offers t₁) done)
      else (t, err (unknown_ca o.ca_id))
