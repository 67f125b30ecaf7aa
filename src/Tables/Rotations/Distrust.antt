-- ===== src/Tables/Rotations/Distrust.antt =====
-- storage/db/subtables/rotation_subtable.rs: standing distrust through `insert_key_rotation`.
use randbotd.Base.{
  ℕ, ◌==◌, ◌↔◌, ◌⊎◌, inl, inr, Bool-cases, All, Any, any, all, bytes_eq_sound, sym, ◌≡◌, refl, ap,
  ◌∙◌, Bool, true, false, ◌&&◌, List, [], ◌∷◌, arith, bytes_eq, bytes_eq_refl, if◌then◌else◌,
}
use randbotd.Base.Result.{ok}
use randbotd.Base.Bytes.{Bytes}
use randbotd.Base.Crypto.{Crypto}
use randbotd.Base.Dict.{put, get_or_default, get_or_default-put}
use randbotd.Agility.{Suites}
use randbotd.Scope.{CertificateCoverageScope}
use randbotd.Offer.{CertificateOffer}
use randbotd.Rotation.{
  KeyRotationProof, OfferKeyRotation, RotationReason, can_reset_distrust, covers_all_offers,
}
use randbotd.Ca.{is_nil}
use randbotd.Storage.{next_write}
use randbotd.Tables.{Tables, after_ok, and_then_ok, persist_ok}
use randbotd.Tables.Offers.{list_offers_for_ca, persist_offers}
use randbotd.Tables.Rotations.{
  rotate_offer, rotate_offers, active_offer_ids, get_standing_distrust_strikes, check_rotation,
  store_rotation, reset_distrust, insert_key_rotation,
}

-- New keys change neither the numbers of the offers nor which of them are drafts.
active_offer_ids-rotate_offer :
    (r : OfferKeyRotation) (os : List CertificateOffer)
    → active_offer_ids (rotate_offer r os) ≡ active_offer_ids os
unfolding active_offer_ids rotate_offer
active_offer_ids-rotate_offer r [] = refl
active_offer_ids-rotate_offer r (o ∷ os) = ground (arith, active_offer_ids-rotate_offer r os)

active_offer_ids-rotate_offers :
    (rs : List OfferKeyRotation) (os : List CertificateOffer)
    → active_offer_ids (rotate_offers rs os) ≡ active_offer_ids os
unfolding rotate_offers
active_offer_ids-rotate_offers [] os = refl
active_offer_ids-rotate_offers (r ∷ rs) os =
    active_offer_ids-rotate_offers rs (rotate_offer r os) ∙ active_offer_ids-rotate_offer r os

clash : {b : Bool} → b ≡ true → b ≡ false → ⊥
clash h k = cc

module _ (c : Crypto) (s : Suites) (reason_json : RotationReason → Bytes)
    (scope_json : CertificateCoverageScope → Bytes) (p : KeyRotationProof) where
  reset_distrust_lem :
      (t : Tables) (ca : Bytes)
      → get_standing_distrust_strikes (reset_distrust c s reason_json scope_json t p) ca ≡ (
          if bytes_eq p.ca_id ca
            && can_reset_distrust p (active_offer_ids (list_offers_for_ca t p.ca_id))
          then 0
          else get_standing_distrust_strikes t ca)
  unfolding reset_distrust get_standing_distrust_strikes
  reset_distrust_lem t ca =
      pick (can_reset_distrust p (active_offer_ids (list_offers_for_ca t p.ca_id)))
        (bytes_eq p.ca_id ca) refl
    where
      pick :
          (b same : Bool)
          → bytes_eq p.ca_id ca ≡ same
          → get_or_default
              (if b
                then record t { distrust_store = put t.distrust_store p.ca_id 0 }
                else t).distrust_store
              ca
              0
            ≡ (if same && b then 0 else get_or_default t.distrust_store ca 0)
      pick true true h = get_or_default-put t.distrust_store p.ca_id 0 ca 0 ∙ rw h refl
      pick true false h = get_or_default-put t.distrust_store p.ca_id 0 ca 0 ∙ rw h refl
      pick false true h = refl
      pick false false h = refl

  -- The offers that a stored rotation leaves, and the strikes.
  store_rotation-offers :
      (t : Tables)
      → active_offer_ids
          (list_offers_for_ca (store_rotation c s reason_json scope_json t p) p.ca_id)
        ≡ active_offer_ids (list_offers_for_ca t p.ca_id)
  unfolding store_rotation list_offers_for_ca
  store_rotation-offers t =
      let os = get_or_default t.offer_store p.ca_id [] in
      ap active_offer_ids
        (get_or_default-put t.offer_store p.ca_id (rotate_offers p.rotations os) p.ca_id [])
      ∙ rw (bytes_eq_refl p.ca_id) (active_offer_ids-rotate_offers p.rotations os)

  strikes_after_rotation :
      (t t' : Tables) (id ca : Bytes)
      → insert_key_rotation c s reason_json scope_json t p ≡ (t', ok id)
      → get_standing_distrust_strikes t' ca ≡ (
          if bytes_eq p.ca_id ca
            && can_reset_distrust p (active_offer_ids (list_offers_for_ca t p.ca_id))
          then 0
          else get_standing_distrust_strikes t ca)
  unfolding insert_key_rotation persist_offers get_standing_distrust_strikes store_rotation
      list_offers_for_ca
  strikes_after_rotation t t' id ca h =
      let stored = store_rotation c s reason_json scope_json t p in
      let written = record stored { disk = (next_write stored.disk).1 } in
      let k = after_ok (check_rotation c s reason_json scope_json t p) _ _ t' id h in
      let r = and_then_ok (persist_offers stored) _ t' id k.1 in
      let e = persist_ok (reset_distrust c s reason_json scope_json written p) t' p.proof_id id r in
      ap (λ x. get_standing_distrust_strikes x ca) e
      ∙ reset_distrust_lem written ca
      ∙ ap
          (λ ids.
            if bytes_eq p.ca_id ca && can_reset_distrust p ids
            then 0
            else get_standing_distrust_strikes t ca)
          (store_rotation-offers t)

  -- The authority has a published offer, and the rotation has a new key for each published offer.
  abbrev pub IsFullRotation : List CertificateOffer → Type 0
  IsFullRotation os =
      Any (λ o. o.is_draft ≡ false) os
      × All (λ o. (o.is_draft ≡ true) ⊎ Any (λ r. r.offer_id ≡ o.offer_id) p.rotations) os

  rotated_iff :
      (id : ℕ) (rs : List OfferKeyRotation)
      → (any (λ r. r.offer_id == id) rs ≡ true) ↔ Any (λ r. r.offer_id ≡ id) rs
  rotated_iff id [] = (λ h. absurd (ground arith), λ h. absurd h)
  rotated_iff id (r ∷ rs) =
      let rest = rotated_iff id rs in
      (
        λ h. elim (Bool-cases (r.offer_id == id)) [
          | inl e ↦ inl (ground arith)
          | inr e ↦ inr (rest.0 (ground arith))
        ],
        λ h. elim h [ inl e ↦ ground arith | inr k ↦ ground (arith, rest.1 k) ],
      )

  published_iff :
      (os : List CertificateOffer)
      → (is_nil (active_offer_ids os) ≡ false) ↔ Any (λ o. o.is_draft ≡ false) os
  unfolding active_offer_ids
  published_iff [] = (λ h. absurd (ground arith), λ h. absurd h)
  published_iff (o ∷ os) =
      let rest = published_iff os in
      elim (Bool-cases o.is_draft) [
        | inl d ↦
            rw d (
              λ h. inr (rest.0 h),
              λ h. elim h [ inl e ↦ absurd (clash refl e) | inr k ↦ rest.1 k ],
            )
        | inr d ↦ rw d (λ h. inl refl, λ h. refl)
      ]

  covered_iff :
      (os : List CertificateOffer)
      → (all (λ id. any (λ r. r.offer_id == id) p.rotations) (active_offer_ids os) ≡ true)
        ↔ All (λ o. (o.is_draft ≡ true) ⊎ Any (λ r. r.offer_id ≡ o.offer_id) p.rotations) os
  unfolding active_offer_ids
  covered_iff [] = (λ h. tt, λ h. refl)
  covered_iff (o ∷ os) =
      let rest = covered_iff os in
      let own = rotated_iff o.offer_id p.rotations in
      elim (Bool-cases o.is_draft) [
        | inl d ↦ rw d (λ h. (inl refl, rest.0 h), λ h. rest.1 h.1)
        | inr d ↦ rw d (
          λ h. (inr (own.0 (ground arith)), rest.0 (ground arith)),
          λ h. elim h.0 [
            | inl e ↦ absurd (clash e refl)
            | inr k ↦ ground (arith, own.1 k, rest.1 h.1)
          ],
        )
      ]

  can_reset_distrust_iff :
      (os : List CertificateOffer)
      → (can_reset_distrust p (active_offer_ids os) ≡ true) ↔ IsFullRotation os
  unfolding can_reset_distrust covers_all_offers
  can_reset_distrust_iff os =
      let a = published_iff os in
      let b = covered_iff os in
      elim (Bool-cases (is_nil (active_offer_ids os))) [
        | inl e ↦ rw e (λ h. absurd (clash h refl), λ h. absurd (clash e (a.1 h.0)))
        | inr e ↦ rw e (λ h. (a.0 e, b.0 h), λ h. b.1 h.1)
      ]

  -- A rotation that is accepted and written to disk sets the strikes of an authority to 0 exactly if the
  -- rotation is its own, it has a published offer, and the rotation has a new key for each offer that it has
  -- published; otherwise its strikes stay.
  pub insert_key_rotation-get_standing_distrust_strikes :
      (t t' : Tables) (id ca : Bytes)
      → insert_key_rotation c s reason_json scope_json t p ≡ (t', ok id)
      → ((p.ca_id ≡ ca)
          × IsFullRotation (list_offers_for_ca t p.ca_id)
          × (get_standing_distrust_strikes t' ca ≡ 0))
        ⊎ ((¬ ((p.ca_id ≡ ca) × IsFullRotation (list_offers_for_ca t p.ca_id)))
            × (get_standing_distrust_strikes t' ca ≡ get_standing_distrust_strikes t ca))
  insert_key_rotation-get_standing_distrust_strikes t t' id ca h =
      let f = can_reset_distrust_iff (list_offers_for_ca t p.ca_id) in
      let e = strikes_after_rotation t t' id ca h in
      elim (Bool-cases (bytes_eq p.ca_id ca)) [
        | inl same ↦
            elim (Bool-cases
              (can_reset_distrust p (active_offer_ids (list_offers_for_ca t p.ca_id)))) [
                | inl full ↦
                    inl (bytes_eq_sound p.ca_id ca same, f.0 full, e ∙ rw (same, full) refl)
                | inr partial ↦
                    inr (λ x. absurd (clash (f.1 x.1) partial), e ∙ rw (same, partial) refl)
              ]
        | inr other ↦ inr (
          λ x. absurd (clash (ap (bytes_eq p.ca_id) (sym x.0) ∙ bytes_eq_refl p.ca_id) other),
          e ∙ rw other refl,
        )
      ]
