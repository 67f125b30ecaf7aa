-- ===== src/Tables/Rotations/RotationChains.antt =====
-- storage/db/subtables/rotation_subtable.rs, `insert_key_rotation`: the history of every authority.
use randbotd.Base.{
  ◌≡◌, refl, sym, subst, Bool, true, false, List, [], ◌∷◌, ◌++◌, arith, bytes_eq, last, reverse,
  if◌then◌else◌,
}
use randbotd.Base.Result.{Result, ok, err}
use randbotd.Base.Bytes.{Bytes}
use randbotd.Base.Crypto.{Crypto}
use randbotd.Base.Dict.{put, get_or_default, get_or_default-put}
use randbotd.Chain.{Grown, Follows, newest, grow}
use randbotd.Chain.Latest.{check_latest, check_latest_iff, newest-reverse}
use randbotd.Agility.{Suites}
use randbotd.Scope.{CertificateCoverageScope}
use randbotd.Rotation.Accepted.{rotation_links}
use randbotd.Rotation.{KeyRotationProof, RotationReason, can_reset_distrust}
use randbotd.Tables.{Tables, TableError, persist, and_then, after}
use randbotd.Tables.Offers.{persist_offers, list_offers_for_ca}
use randbotd.Tables.Rotations.{
  get_key_rotations_for_ca, check_rotation, store_rotation, open_history, reset_distrust,
  insert_key_rotation, active_offer_ids,
}
use mathlib.Core.List.{reverse-append}

-- The rotations of each authority, in the order in which they are kept, make one chain.
abbrev pub AreRotationsChained : Tables → Type 0
AreRotationsChained t =
    (ca : Bytes) → Grown rotation_links (reverse (get_or_default t.rotation_store ca []))

module _ (c : Crypto) (s : Suites) (reason_json : RotationReason → Bytes)
    (scope_json : CertificateCoverageScope → Bytes) (t : Tables) (p : KeyRotationProof) where
  check_rotation-Follows :
      check_rotation c s reason_json scope_json t p ≡ ok tt
      → Follows rotation_links p
          (newest rotation_links (reverse (get_key_rotations_for_ca t p.ca_id)))
  unfolding check_rotation
  check_rotation-Follows h =
      let l = get_key_rotations_for_ca t p.ca_id in
      let k : check_latest rotation_links p (last l) ≡ ok tt = ground arith in
      subst (Follows rotation_links p) (sym (newest-reverse rotation_links l))
        ((check_latest_iff rotation_links p (last l)).0 k)

  history_put :
      (l : List KeyRotationProof) (ca : Bytes)
      → Grown rotation_links (reverse l)
      → AreRotationsChained t
      → Grown rotation_links (reverse (get_or_default (put t.rotation_store p.ca_id l) ca []))
  history_put l ca new old =
      rw (get_or_default-put t.rotation_store p.ca_id l ca []) (pick (bytes_eq p.ca_id ca))
    where
      pick :
          (b : Bool)
          → Grown rotation_links (reverse (if b then l else get_or_default t.rotation_store ca []))
      pick true = new
      pick false = old ca

  open_history-AreRotationsChained :
      AreRotationsChained t
      → AreRotationsChained (open_history c s reason_json scope_json t p.ca_id)
  unfolding open_history get_key_rotations_for_ca
  open_history-AreRotationsChained g ca =
      history_put (get_or_default t.rotation_store p.ca_id []) ca (g p.ca_id) g

  store_rotation-AreRotationsChained :
      AreRotationsChained t
      → check_rotation c s reason_json scope_json t p ≡ ok tt
      → AreRotationsChained (store_rotation c s reason_json scope_json t p)
  unfolding store_rotation get_key_rotations_for_ca
  store_rotation-AreRotationsChained g h ca =
      let l = get_or_default t.rotation_store p.ca_id [] in
      history_put (l ++ p ∷ []) ca
        (rw (reverse-append l (p ∷ [])) (grow p (g p.ca_id) (check_rotation-Follows h))) g

  -- A reset changes no history.
  pub reset_distrust-rotation_store :
      (t' : Tables)
      → (reset_distrust c s reason_json scope_json t' p).rotation_store ≡ t'.rotation_store
  unfolding reset_distrust
  reset_distrust-rotation_store t' =
      pick (can_reset_distrust p (active_offer_ids (list_offers_for_ca t' p.ca_id)))
    where
      pick :
          (b : Bool)
          → (if b
              then record t' { distrust_store = put t'.distrust_store p.ca_id 0 }
              else t').rotation_store
            ≡ t'.rotation_store
      pick true = refl
      pick false = refl

  -- Inserting a rotation, accepted or not and written to disk or not, leaves the history of every
  -- authority one chain from the zero hash on.
  pub insert_key_rotation-AreRotationsChained :
      AreRotationsChained t
      → AreRotationsChained (insert_key_rotation c s reason_json scope_json t p).0
  unfolding insert_key_rotation persist_offers
  insert_key_rotation-AreRotationsChained g =
      go (check_rotation c s reason_json scope_json t p) refl
    where
      stored : Tables
      stored = store_rotation c s reason_json scope_json t p

      settled :
          (r : Tables × Result TableError (Unit {0}))
          → AreRotationsChained r.0
          → AreRotationsChained
              (and_then r
                λ t'. persist (reset_distrust c s reason_json scope_json t' p) p.proof_id).0
      settled (t', ok _) h ca = rw (reset_distrust-rotation_store t') (h ca)
      settled (t', err e) h ca = h ca

      go :
          (r : Result TableError (Unit {0}))
          → check_rotation c s reason_json scope_json t p ≡ r
          → AreRotationsChained
              (after r (open_history c s reason_json scope_json t p.ca_id) (
                and_then
                  (persist_offers stored)
                  λ t'. persist (reset_distrust c s reason_json scope_json t' p) p.proof_id)).0
      go (err e) h = open_history-AreRotationsChained g
      go (ok _) h = settled (persist_offers stored) (store_rotation-AreRotationsChained g h)
