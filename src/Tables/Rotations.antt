-- ===== src/Tables/Rotations.antt =====
-- storage/db/subtables/rotation_subtable.rs: a rotation enters the history of its authority, the keys of the
-- rotated offers change, and standing distrust is reset if every published offer was rotated.
pub mod RotationChains
pub mod Distrust
use randbotd.Base.{
  ℕ, ◌+◌, ◌%◌, Bool, not, Option, some, List, [], ◌∷◌, ◌++◌, map, ltb, ◌==◌, if◌then◌else◌, filter,
  last,
}
use randbotd.Base.Result.{Result, map_err, ◌>>=◌, ◌>>◌}
use randbotd.Base.Bytes.{Bytes, u32_mod}
use randbotd.Base.Crypto.{Crypto}
use randbotd.Base.Dict.{put, get_or_default}
use randbotd.Chain.Latest.{check_latest}
use randbotd.Agility.{Suites}
use randbotd.Scope.{CertificateCoverageScope}
use randbotd.Offer.{CertificateOffer, catalog_hash}
use randbotd.Rotation.Accepted.{rotation_links}
use randbotd.Rotation.{
  KeyRotationProof, OfferKeyRotation, RotationReason, verify_possessions, can_reset_distrust,
}
use randbotd.Tables.{Tables, TableError, discontinuous, invalid_rotation, persist, and_then, after}
use randbotd.Tables.Offers.{list_offers_for_ca, catalog_of, update_ca, persist_offers}

unfoldable pub get_key_rotations_for_ca : Tables → Bytes → List KeyRotationProof
get_key_rotations_for_ca t ca_id = get_or_default t.rotation_store ca_id []

unfoldable pub get_latest_key_rotation : Tables → Bytes → Option KeyRotationProof
get_latest_key_rotation t ca_id = last (get_key_rotations_for_ca t ca_id)

unfoldable pub get_standing_distrust_strikes : Tables → Bytes → ℕ
get_standing_distrust_strikes t ca_id = get_or_default t.distrust_store ca_id 0

unfoldable pub has_standing_distrust : Tables → Bytes → Bool
has_standing_distrust t ca_id = ltb 0 (get_standing_distrust_strikes t ca_id)

unfoldable pub record_distrust_strike : Tables → Bytes → Tables × ℕ
record_distrust_strike t ca_id =
    let count = (get_standing_distrust_strikes t ca_id + 1) % u32_mod in
    (record t { distrust_store = put t.distrust_store ca_id count }, count)

-- The first offer of the rotation's number gets its new key.
unfoldable pub rotate_offer : OfferKeyRotation → List CertificateOffer → List CertificateOffer
rotate_offer r [] = []
rotate_offer r (o ∷ os) =
    let rest = rotate_offer r os in
    if o.offer_id == r.offer_id then record o { public_key = r.new_public_key } ∷ os else o ∷ rest

unfoldable pub rotate_offers : List OfferKeyRotation → List CertificateOffer → List CertificateOffer
rotate_offers [] os = os
rotate_offers (r ∷ rs) os = rotate_offers rs (rotate_offer r os)

unfoldable pub active_offer_ids : List CertificateOffer → List ℕ
active_offer_ids os = map (λ o. o.offer_id) (filter (λ o. not o.is_draft) os)

module _ (c : Crypto) (s : Suites) (reason_json : RotationReason → Bytes)
    (scope_json : CertificateCoverageScope → Bytes) where
  -- The checks of `insert_key_rotation`.
  unfoldable pub check_rotation : Tables → KeyRotationProof → Result TableError (Unit {0})
  check_rotation t p = do
    map_err discontinuous
        (check_latest rotation_links p (last (get_key_rotations_for_ca t p.ca_id)))
    map_err invalid_rotation (verify_possessions c s reason_json p.rotations p.ca_id p.timestamp)

  -- The history, the offers and the catalog hash of the authority; the version of the catalog is the
  -- number of the rotation, cut to 32 bits, plus 1.
  unfoldable pub store_rotation : Tables → KeyRotationProof → Tables
  store_rotation t p =
      let offers = rotate_offers p.rotations (list_offers_for_ca t p.ca_id) in
      let version = (p.rotation_seq % u32_mod + 1) % u32_mod in
      let hash = catalog_hash c scope_json (catalog_of p.ca_id version p.timestamp offers) in
      record t {
        rotation_store =
            put t.rotation_store p.ca_id (get_key_rotations_for_ca t p.ca_id ++ p ∷ []);
        offer_store = put t.offer_store p.ca_id offers;
        ca_store =
            update_ca (λ ca. record ca { current_catalog_hash = some hash }) p.ca_id t.ca_store;
      }

  unfoldable pub reset_distrust : Tables → KeyRotationProof → Tables
  reset_distrust t p =
      if can_reset_distrust p (active_offer_ids (list_offers_for_ca t p.ca_id))
      then record t { distrust_store = put t.distrust_store p.ca_id 0 }
      else t

  -- `rotation_store.entry(ca_id).or_default()`, which a refused rotation leaves behind too.
  unfoldable pub open_history : Tables → Bytes → Tables
  open_history t ca_id = record t {
    rotation_store = put t.rotation_store ca_id (get_key_rotations_for_ca t ca_id);
  }

  unfoldable pub insert_key_rotation : Tables → KeyRotationProof → Tables × Result TableError Bytes
  insert_key_rotation t p = after (check_rotation t p) (open_history t p.ca_id) (
      and_then (persist_offers (store_rotation t p)) λ t'. persist (reset_distrust t' p) p.proof_id)
