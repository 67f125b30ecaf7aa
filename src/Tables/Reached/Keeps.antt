-- ===== src/Tables/Reached/Keeps.antt =====
-- storage/db/subtables/: what an operation leaves as it is.
use randbotd.Base.{ℕ, Bool, true, false, Option, none, some, ltb, List, length, if◌then◌else◌}
use randbotd.Base.Result.{Result, ok, err}
use randbotd.Base.Bytes.{Bytes}
use randbotd.Base.Crypto.{Crypto}
use randbotd.Base.Dict.{Dict, get, put, contains_key}
use randbotd.Agility.{Suites}
use randbotd.Scope.{CertificateCoverageScope}
use randbotd.Ca.{CaDeclaration}
use randbotd.Offer.{CertificateOffer}
use randbotd.Vote.{VoteRecord}
use randbotd.Rotation.{KeyRotationProof, RotationReason, can_reset_distrust}
use randbotd.Swarm.{CustodianSwarmRecord}
use randbotd.Tables.{Tables, TableError, persist, after, after_keeps, and_then_keeps}
use randbotd.Tables.Votes.{insert_vote, store_vote, check_vote}
use randbotd.Tables.Rotations.{insert_key_rotation}
use randbotd.Tables.Offers.{persist_offers, list_offers_for_ca}
use randbotd.Tables.Custodians.{remove_custodian}
use randbotd.Tables.Custodians.{drop_custodian, without_worker}
use randbotd.Tables.Rotations.{
  check_rotation, store_rotation, reset_distrust, open_history, active_offer_ids,
}

-- What an operation does not touch stays as it is: `P` of the tables, whatever the outcomes are.
pub insert_vote_keeps {κ} :
    (c : Crypto) (P : Tables → Type κ) (t : Tables) (v : VoteRecord)
    → P t
    → ((d : List Bool) → P (record (store_vote c t v) { disk = d }))
    → P (insert_vote c t v).0
unfolding insert_vote
insert_vote_keeps c P t v p q = go (contains_key t.vote_store v.vote_id)
  where
    go :
        (b : Bool)
        → P
            (if b
              then (t, ok v.vote_id)
              else after (check_vote c t v) t (persist (store_vote c t v) v.vote_id)).0
    go true = p
    go false = after_keeps P (check_vote c t v) t (store_vote c t v) v.vote_id p (λ h. q)

after_either {κ} :
    (P : Tables → Type κ) (r : Result TableError (Unit {0})) (t : Tables)
    (k : Tables × Result TableError Bytes)
    → P t
    → P k.0
    → P (after r t k).0
after_either P (ok _) t k p q = q
after_either P (err e) t k p q = p

reset_distrust_keeps {κ} :
    (c : Crypto) (s : Suites) (reason_json : RotationReason → Bytes)
    (scope_json : CertificateCoverageScope → Bytes) (P : Tables → Type κ) (t : Tables)
    (p : KeyRotationProof) (d : List Bool)
    → ((strikes : Dict ℕ) → P (record t { distrust_store = strikes; disk = d }))
    → P (record (reset_distrust c s reason_json scope_json t p) { disk = d })
unfolding reset_distrust
reset_distrust_keeps c s rj sj P t p d h =
    go (can_reset_distrust p (active_offer_ids (list_offers_for_ca t p.ca_id)))
  where
    go :
        (b : Bool)
        → P
            (record (if b
              then record t { distrust_store = put t.distrust_store p.ca_id 0 }
              else t) { disk = d })
    go true = h (put t.distrust_store p.ca_id 0)
    go false = h t.distrust_store

-- A rotation changes the histories, offers, declarations, strikes and the disk only.
pub insert_key_rotation_keeps {κ} :
    (c : Crypto) (s : Suites) (reason_json : RotationReason → Bytes)
    (scope_json : CertificateCoverageScope → Bytes) (P : Tables → Type κ) (t : Tables)
    (p : KeyRotationProof)
    → ((histories : Dict (List KeyRotationProof)) (offers : Dict (List CertificateOffer))
          (cas : Dict CaDeclaration) (strikes : Dict ℕ) (d : List Bool)
        → P (record t {
          rotation_store = histories;
          offer_store = offers;
          ca_store = cas;
          distrust_store = strikes;
          disk = d;
        }))
    → P (insert_key_rotation c s reason_json scope_json t p).0
unfolding insert_key_rotation persist_offers open_history store_rotation
insert_key_rotation_keeps c s rj sj P t p h =
    after_either P (check_rotation c s rj sj t p) (open_history c s rj sj t p.ca_id) _ (h _ _ _ _ _)
      (and_then_keeps P (persist_offers (store_rotation c s rj sj t p)) _ (h _ _ _ _ _) (
        reset_distrust_keeps c s rj sj P (persist_offers (store_rotation c s rj sj t p)).0 p _
          (λ n. h _ _ _ n _)))

-- A removal changes the custodians and the disk only.
pub remove_custodian_keeps {κ} :
    (P : Tables → Type κ) (t : Tables) (ca worker : Bytes)
    → ((custodians : Dict (List CustodianSwarmRecord)) (d : List Bool)
        → P (record t { custodian_store = custodians; disk = d }))
    → P (remove_custodian t ca worker).0
unfolding remove_custodian drop_custodian
remove_custodian_keeps P t ca worker h = go (get t.custodian_store ca)
  where
    shrunk : List CustodianSwarmRecord → Tables
    shrunk list = record t {
      custodian_store = put t.custodian_store ca (without_worker worker list);
    }

    written :
        (list : List CustodianSwarmRecord) (b : Bool)
        → P (if b then persist (shrunk list) b else (shrunk list, ok b)).0
    written list true = h _ _
    written list false = h _ _

    go :
        (o : Option (List CustodianSwarmRecord))
        → P
            (let r = elim o as (λ _. Tables × Bool) [
              | none ↦ (t, false)
              | some list ↦ (shrunk list, ltb (length (without_worker worker list)) (length list))
            ] in
              if r.1 then persist r.0 r.1 else (r.0, ok r.1)).0
    go none = h t.custodian_store t.disk
    go (some list) = written list (ltb (length (without_worker worker list)) (length list))
