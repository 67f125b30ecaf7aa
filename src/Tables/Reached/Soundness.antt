-- ===== src/Tables/Reached/Soundness.antt =====
-- storage/db/subtables/: each operation keeps the invariant of the tables.
use randbotd.Base.{ℕ, ◌+◌, ◌<◌, ◌≡◌, Bool, true, false, length, if◌then◌else◌}
use randbotd.Base.Result.{Result, ok, err}
use randbotd.Base.Bytes.{Bytes, u64_mod}
use randbotd.Base.Crypto.{Crypto}
use randbotd.Base.Dict.{values, contains_key}
use randbotd.Agility.{Suites}
use randbotd.Scope.{CertificateCoverageScope}
use randbotd.Ca.{CaDeclaration}
use randbotd.Offer.{CertificateOffer}
use randbotd.Purge.{DomainPurgeRecord}
use randbotd.Vote.{VoteRecord}
use randbotd.Rotation.{KeyRotationProof, RotationReason}
use randbotd.Swarm.{CustodianSwarmRecord}
use randbotd.Crl.{CertificateRevocationList}
use randbotd.Tables.{unknown_ca, Tables, TableError, persist, and_then, after_keeps, and_then_keeps}
use randbotd.Tables.Votes.{insert_vote, store_vote}
use randbotd.Tables.Votes.Chains.{AreVotesChained, insert_vote-AreVotesChained}
use randbotd.Tables.Purges.{insert_purge, store_purge, check_purge}
use randbotd.Tables.Purges.PurgeChains.{ArePurgesChained, insert_purge-ArePurgesChained}
use randbotd.Tables.Rotations.{insert_key_rotation}
use randbotd.Tables.Rotations.RotationChains.{
  AreRotationsChained, insert_key_rotation-AreRotationsChained,
}
use randbotd.Tables.Offers.{insert_offer, persist_offers, store_offer}
use randbotd.Tables.Authorities.{insert_ca, store_ca, check_ca}
use randbotd.Tables.Revocations.{insert_crl, store_crl, check_crl, get_crl}
use randbotd.Tables.Custodians.{insert_custodian_record, remove_custodian}
use randbotd.Tables.Custodians.Unique.{AreUnique, insert_custodian_record-AreUnique}
use randbotd.Tables.Custodians.{store_custodian}
use randbotd.Tables.Custodians.Unique.{remove_custodian-AreUnique}
use randbotd.Tables.Reached.{IsSound}
use randbotd.Tables.Reached.Keeps.{
  insert_vote_keeps, insert_key_rotation_keeps, remove_custodian_keeps,
}

pub insert_vote-IsSound :
    (c : Crypto) (t : Tables) (v : VoteRecord)
    → IsSound t
    → length (values t.vote_store) + 1 < u64_mod
    → IsSound (insert_vote c t v).0
unfolding store_vote AreVotesChained ArePurgesChained
insert_vote-IsSound c t v g small = (
  insert_vote-AreVotesChained c t v g.0 small,
  insert_vote_keeps c ArePurgesChained t v g.1 (λ d. g.1),
  insert_vote_keeps c AreRotationsChained t v g.2 (λ d. g.2),
  insert_vote_keeps c AreUnique t v g.3 (λ d. g.3),
)

pub insert_purge-IsSound :
    (t : Tables) (p : DomainPurgeRecord)
    → IsSound t
    → contains_key t.purge_store p.purge_id ≡ false
    → length (values t.purge_store) + 1 < u64_mod
    → IsSound (insert_purge t p).0
unfolding insert_purge store_purge AreVotesChained ArePurgesChained
insert_purge-IsSound t p g fresh small =
    let stored = store_purge t p in
    (
      after_keeps AreVotesChained (check_purge t p) t stored p.purge_id g.0 (λ h d. g.0),
      insert_purge-ArePurgesChained t p g.1 fresh small,
      after_keeps AreRotationsChained (check_purge t p) t stored p.purge_id g.2 (λ h d. g.2),
      after_keeps AreUnique (check_purge t p) t stored p.purge_id g.3 (λ h d. g.3),
    )

pub insert_key_rotation-IsSound :
    (c : Crypto) (s : Suites) (reason_json : RotationReason → Bytes)
    (scope_json : CertificateCoverageScope → Bytes) (t : Tables) (p : KeyRotationProof)
    → IsSound t
    → IsSound (insert_key_rotation c s reason_json scope_json t p).0
unfolding AreVotesChained ArePurgesChained
insert_key_rotation-IsSound c s rj sj t p g = (
  insert_key_rotation_keeps c s rj sj AreVotesChained t p (λ a b e f d. g.0),
  insert_key_rotation_keeps c s rj sj ArePurgesChained t p (λ a b e f d. g.1),
  insert_key_rotation-AreRotationsChained c s rj sj t p g.2,
  insert_key_rotation_keeps c s rj sj AreUnique t p (λ a b e f d. g.3),
)

pub insert_offer-IsSound :
    (c : Crypto) (scope_json : CertificateCoverageScope → Bytes) (t : Tables) (o : CertificateOffer)
    → IsSound t
    → IsSound (insert_offer c scope_json t o).0
unfolding insert_offer store_offer persist_offers AreVotesChained ArePurgesChained
insert_offer-IsSound c sj t o g = go (contains_key t.ca_store o.ca_id)
  where
    stored : Tables
    stored = (store_offer c sj t o).0

    answer : ℕ × Bytes
    answer = (o.offer_id, (store_offer c sj t o).1)

    done : Tables → Tables × Result TableError (ℕ × Bytes)
    done u = (u, ok answer)

    go :
        (b : Bool)
        → IsSound
            (if b
              then and_then {0, 0}
                  (persist {0} stored tt)
                  (λ t₁. and_then {0, 0} (persist_offers t₁) done)
              else (t, err (unknown_ca o.ca_id))).0
    go true =
        and_then_keeps IsSound (persist {0} stored tt)
          (λ t₁. and_then {0, 0} (persist_offers t₁) done) g
          (and_then_keeps IsSound (persist_offers (persist {0} stored tt).0) done g g)
    go false = g

pub insert_ca-IsSound :
    (t : Tables) (decl : CaDeclaration) → IsSound t → IsSound (insert_ca t decl).0
unfolding insert_ca store_ca AreVotesChained ArePurgesChained
insert_ca-IsSound t decl g = go (check_ca t decl)
  where
    go :
        (r : Result TableError CaDeclaration)
        → IsSound
            (elim r as (λ _. Tables × Result TableError Bytes) [
              | err e ↦ (t, err e)
              | ok ca ↦ persist (store_ca t decl.ca_id ca) decl.ca_id
            ]).0
    go (err e) = g
    go (ok ca) = g

pub insert_crl-IsSound :
    (t : Tables) (crl : CertificateRevocationList) → IsSound t → IsSound (insert_crl t crl).0
unfolding insert_crl store_crl AreVotesChained ArePurgesChained
insert_crl-IsSound t crl g =
    after_keeps IsSound (check_crl (get_crl t crl.issuer_ca_id) crl) t (store_crl t crl)
      crl.issuer_ca_id g (λ h d. g)

pub insert_custodian_record-IsSound :
    (t : Tables) (r : CustodianSwarmRecord) → IsSound t → IsSound (insert_custodian_record t r).0
unfolding insert_custodian_record store_custodian AreVotesChained ArePurgesChained
insert_custodian_record-IsSound t r g = (g.0, g.1, g.2, insert_custodian_record-AreUnique t r g.3)

pub remove_custodian-IsSound :
    (t : Tables) (ca worker : Bytes) → IsSound t → IsSound (remove_custodian t ca worker).0
unfolding AreVotesChained ArePurgesChained
remove_custodian-IsSound t ca worker g = (
  remove_custodian_keeps AreVotesChained t ca worker (λ x d. g.0),
  remove_custodian_keeps ArePurgesChained t ca worker (λ x d. g.1),
  remove_custodian_keeps AreRotationsChained t ca worker (λ x d. g.2),
  remove_custodian-AreUnique t ca worker g.3,
)
