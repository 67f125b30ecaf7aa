-- ===== src/Examples/Stores.antt =====
-- The theorems on the tables, at concrete records.
use randbotd.Base.Dict.{put, get}
use randbotd.Storage.{next_write}
use randbotd.Base.{
  replicate, List, ap, ◌≤◌, ◌≡◌, ◌⊎◌, refl, Bool, true, false, none, some, [], ◌∷◌, arith, bytes_eq,
  if◌then◌else◌,
}
use randbotd.Base.Result.{ok, err}
use randbotd.Base.Bytes.{Bytes, to_be_bytes, to_le_bytes, concat}
use randbotd.Base.Text.{codes, as_bytes}
use randbotd.Examples.{toy, toy_laws, key}
use randbotd.Examples.Records.{
  site, site-valid, site-clean, ballot, first_difficulty, puzzle-solved,
}
use randbotd.Examples.Purges.{ca}
use randbotd.Chain.{zero_hash}
use randbotd.Vote.{VoteRecord, tw, new_signed}
use randbotd.Agility.{
  Suite, Suites, ed25519, verify_signature_by_algorithm, verify_key_pair, verify_by, verify_ed25519,
}
use randbotd.Scope.{CertificateCoverageScope, single_fqdn}
use randbotd.Ca.{clearnet, compute_ca_id}
use randbotd.Offer.{CertificateOffer}
use randbotd.Rotation.{
  RotationReason, distrust_remediation, OfferKeyRotation, KeyRotationProof, compute_pop_payload,
  verify_possessions, verify_proof_of_possession, seal_proof, new_proof, validate,
}
use randbotd.Rotation.Accepted.{new_proof-validate}
use randbotd.Tables.{Tables, write_failed}
use randbotd.Tables.Votes.{
  get_vote_context, context_of, get_votes_for_originator, window_cutoff, active_domains,
  count_revisions, insert_vote, list_active_domain_votes,
}
use randbotd.Tables.Votes.Cast.{cast_vote_stored}
use randbotd.Tables.Votes.Ballots.{count_ballots, list_active_domain_votes-count}
use randbotd.Tables.Authorities.{get_ca, insert_ca}
use randbotd.Tables.Authorities.Published.{IsPublished, insert_ca-IsPublished}
use randbotd.Chain.Latest.{check_latest}
use randbotd.Rotation.{can_reset_distrust}
use randbotd.Tables.Rotations.{
  check_rotation, store_rotation, reset_distrust, get_key_rotations_for_ca, insert_key_rotation,
  get_standing_distrust_strikes, active_offer_ids,
}
use randbotd.Tables.Rotations.Distrust.{
  IsFullRotation, insert_key_rotation-get_standing_distrust_strikes,
}
use randbotd.Tables.Offers.{list_offers_for_ca, persist_offers, store_offer, insert_offer}
use randbotd.Tables.Offers.CatalogHash.{IsListed, insert_offer-IsListed}
use randbotd.Crl.{CertificateRevocationList, verify_crl_signature}
use randbotd.Crl.Panic.{short_der, verify_crl_signature_panics}
use randbotd.Tables.Reached.{empty_tables}

abbrev pub blank : Tables
blank = empty_tables []

blank-context : get_vote_context blank (toy.verifying_key key) site ≡ (none, 0, 0)
unfolding get_vote_context context_of get_votes_for_originator window_cutoff active_domains
    count_revisions
blank-context = refl

cast_vote_stored_example :
    (v : VoteRecord) × (new_signed toy 1 key site tw 1 zero_hash 100 0 0 ≡ some (ok v))
    × (((get blank.vote_store v.vote_id ≡ none)
          × (get (insert_vote toy blank v).0.vote_store v.vote_id ≡ some v)
          × ((insert_vote toy blank v).1
              ≡ (if (next_write blank.disk).0 then ok v.vote_id else err write_failed)))
        ⊎ ((w : VoteRecord) × (get blank.vote_store v.vote_id ≡ some w)
            × (insert_vote toy blank v ≡ (blank, ok v.vote_id))))
unfolding get_vote_context context_of get_votes_for_originator window_cutoff active_domains
    count_revisions
cast_vote_stored_example =
    cast_vote_stored toy toy_laws blank key site tw 1 zero_hash 100 1 0 0 (rw site-clean site-valid)
      (omega (arith, first_difficulty)) (rw (site-clean, first_difficulty) puzzle-solved)
      (omega arith) (omega arith) (omega arith) (refl, refl) (omega arith)

list_active_domain_votes-count_example :
    count_ballots ballot.voter_pubkey site
      (list_active_domain_votes (insert_vote toy blank ballot).0 (some site) none)
    ≤ 1
list_active_domain_votes-count_example =
    list_active_domain_votes-count (insert_vote toy blank ballot).0 (some site) none
      ballot.voter_pubkey site

abbrev toy_suite : Suite
toy_suite = record {
  valid_secret = λ k. true;
  sign = λ k m. m;
  valid_public = λ k. true;
  valid_signature = λ s. true;
  verify = λ k m s. bytes_eq m s;
}

abbrev pub toy_suites : Suites
toy_suites = record { p384 = toy_suite; rsa = toy_suite; ml_dsa = toy_suite }

-- A published offer of the authority.
abbrev offer : CertificateOffer
offer = record {
  offer_id = 1;
  ca_id = ca.ca_id;
  name = codes "web";
  key_algorithm = ed25519;
  supported_domain_networks = clearnet ∷ [];
  ttl_seconds = 60;
  coverage_scope = single_fqdn;
  is_draft = false;
  created_at = 10;
  public_key = [];
}

-- Tables with the authority, its offer and three strikes.
abbrev pub stocked : Tables
stocked = record blank {
  ca_store = (ca.ca_id, ca) ∷ [];
  offer_store = (ca.ca_id, offer ∷ []) ∷ [];
  distrust_store = (ca.ca_id, 3) ∷ [];
}

abbrev no_reason : RotationReason → Bytes
no_reason r = []

abbrev no_scope : CertificateCoverageScope → Bytes
no_scope s = []

insert_ca-IsPublished_example :
    IsPublished (get_ca (insert_ca stocked (record ca { is_draft = true })).0 ca.ca_id)
unfolding get_ca bytes_eq to_be_bytes compute_ca_id concat as_bytes
insert_ca-IsPublished_example =
    insert_ca-IsPublished stocked (record ca { is_draft = true }) ca.ca_id refl

abbrev new_key : Bytes
new_key = replicate 32 9

abbrev rotation : OfferKeyRotation
rotation = record {
  offer_id = 1;
  old_public_key = [];
  new_public_key = new_key;
  key_algorithm = ed25519;
  proof_of_possession =
      toy.sign [] (compute_pop_payload toy toy_suites no_reason ca.ca_id 1 new_key 200);
  old_key_revocation_signature = none;
}

abbrev renewal : KeyRotationProof
renewal =
    seal_proof toy toy_suites no_reason ca.ca_id 1 zero_hash 200 distrust_remediation
      (rotation ∷ []) key

possessed : verify_possessions toy toy_suites no_reason (rotation ∷ []) ca.ca_id 200 ≡ ok tt
unfolding verify_possessions verify_proof_of_possession verify_signature_by_algorithm
    verify_key_pair verify_by verify_ed25519 to_be_bytes bytes_eq compute_pop_payload concat
    to_le_bytes compute_ca_id as_bytes
possessed = refl

renewal-made :
    new_proof toy toy_suites no_reason ca.ca_id 1 zero_hash 200 distrust_remediation
      (rotation ∷ [])
      key
    ≡ ok renewal
unfolding new_proof bytes_eq
renewal-made = rw possessed refl

new_proof-validate_example :
    validate toy toy_suites no_reason renewal ca (toy.verifying_key key) none ≡ ok tt
new_proof-validate_example =
    new_proof-validate toy toy_suites no_reason toy_laws ca key 1 zero_hash 200 distrust_remediation
      (rotation ∷ []) none renewal refl renewal-made (refl, refl)

renewal-checked : check_rotation toy toy_suites no_reason no_scope stocked renewal ≡ ok tt
unfolding check_rotation check_latest get_key_rotations_for_ca seal_proof bytes_eq
renewal-checked = rw possessed refl

-- The tables with the renewal.
abbrev renewed : Tables
renewed =
    record (reset_distrust toy toy_suites no_reason no_scope
      (persist_offers (store_rotation toy toy_suites no_reason no_scope stocked renewal)).0
      renewal) { disk = [] }

-- The one write to the file of rotations succeeds.
renewal-disk :
    (written : Tables)
    → written.disk ≡ []
    → (reset_distrust toy toy_suites no_reason no_scope written renewal).disk ≡ []
unfolding reset_distrust
renewal-disk written e =
    pick (can_reset_distrust renewal (active_offer_ids (list_offers_for_ca written renewal.ca_id)))
  where
    pick :
        (b : Bool)
        → (if b
            then record written { distrust_store = put written.distrust_store renewal.ca_id 0 }
            else written).disk
          ≡ []
    pick true = e
    pick false = e

renewal-inserted :
    insert_key_rotation toy toy_suites no_reason no_scope stocked renewal
    ≡ (renewed, ok renewal.proof_id)
unfolding insert_key_rotation persist_offers store_rotation
renewal-inserted = rw renewal-checked (
    ap
      (λ (d : List Bool). (
        record reset { disk = (next_write d).1 },
        if (next_write d).0 then ok renewal.proof_id else err write_failed,
      ))
      (renewal-disk stored refl))
  where
    stored : Tables
    stored = (persist_offers (store_rotation toy toy_suites no_reason no_scope stocked renewal)).0

    reset : Tables
    reset = reset_distrust toy toy_suites no_reason no_scope stored renewal

insert_key_rotation-get_standing_distrust_strikes_example :
    ((renewal.ca_id ≡ ca.ca_id)
      × IsFullRotation toy toy_suites no_reason no_scope renewal
          (list_offers_for_ca stocked renewal.ca_id)
      × (get_standing_distrust_strikes renewed ca.ca_id ≡ 0))
    ⊎ ((¬ (
          (renewal.ca_id ≡ ca.ca_id)
          × IsFullRotation toy toy_suites no_reason no_scope renewal
              (list_offers_for_ca stocked renewal.ca_id)))
        × (get_standing_distrust_strikes renewed ca.ca_id
            ≡ get_standing_distrust_strikes stocked ca.ca_id))
insert_key_rotation-get_standing_distrust_strikes_example =
    insert_key_rotation-get_standing_distrust_strikes toy toy_suites no_reason no_scope renewal
      stocked renewed renewal.proof_id ca.ca_id renewal-inserted

abbrev with_offer : Tables
with_offer = (insert_offer toy no_scope stocked offer).0

abbrev offer_hash : Bytes
offer_hash = (store_offer toy no_scope stocked offer).1

offer-inserted : insert_offer toy no_scope stocked offer ≡ (with_offer, ok (1, offer_hash))
unfolding insert_offer persist_offers store_offer bytes_eq compute_ca_id to_be_bytes concat as_bytes
offer-inserted = refl

insert_offer-IsListed_example : IsListed toy no_scope stocked offer with_offer offer_hash
insert_offer-IsListed_example =
    insert_offer-IsListed toy no_scope stocked offer with_offer 1 offer_hash offer-inserted

-- A list that ends after the head of its signed part.
abbrev cut_list : CertificateRevocationList
cut_list = record {
  crl_number = 1;
  issuer_ca_id = ca.ca_id;
  issuer = ca.subject;
  this_update = 10;
  next_update = 20;
  revoked_certificates = [];
  signature_algorithm = ed25519;
  signature_bytes = [];
  der_bytes = short_der 1;
  pem_crl = [];
}

verify_crl_signature_panics_example : verify_crl_signature toy toy_suites cut_list new_key ≡ none
verify_crl_signature_panics_example =
    verify_crl_signature_panics toy toy_suites cut_list new_key 1 (omega arith) (omega arith) refl
