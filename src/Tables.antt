-- ===== src/Tables.antt =====
-- storage/db/mod.rs and storage/db/subtables/: the tables of the database beside the event log. Each is a map
-- in memory that is written to its file after every change; `disk` holds the outcomes of the coming writes,
-- none left meaning success. A failed write leaves the change in memory, as in the source.
pub mod Votes
pub mod Purges
pub mod Rotations
pub mod Offers
pub mod Authorities
pub mod Revocations
pub mod Custodians
pub mod Reached
use randbotd.Base.{ℕ, ◌≡◌, refl, sym, ap, Bool, List, if◌then◌else◌}
use randbotd.Base.Result.{Result, ok, err}
use randbotd.Base.Bytes.{Bytes}
use randbotd.Base.Dict.{Dict}
use randbotd.Chain.Latest.{ChainError}
use randbotd.Ca.{CaDeclaration, CaError}
use randbotd.Offer.{CertificateOffer}
use randbotd.Purge.{DomainPurgeRecord}
use randbotd.Vote.{VoteRecord, VoteAction, VoteError}
use randbotd.Rotation.{KeyRotationProof, RotationError}
use randbotd.Swarm.{CustodianSwarmRecord, CaCustodianPolicy}
use randbotd.Crl.{CertificateRevocationList}
use randbotd.Storage.{next_write}

-- crypto/vote/cluster/mod.rs: who voted how on a domain, and the other way round.
pub record InvertedVoteIndex : Type 0 where
  pub domain_postings : Dict (Dict VoteAction)
  pub voter_postings : Dict (Dict VoteAction)

pub record Tables : Type 0 where
  pub ca_store : Dict CaDeclaration
  pub offer_store : Dict (List CertificateOffer)
  pub crl_store : Dict CertificateRevocationList
  pub purge_store : Dict DomainPurgeRecord
  pub rotation_store : Dict (List KeyRotationProof)
  pub custodian_store : Dict (List CustodianSwarmRecord)
  pub policy_store : Dict CaCustodianPolicy
  pub vote_store : Dict VoteRecord
  pub distrust_store : Dict ℕ
  pub cluster_index : InvertedVoteIndex
  pub disk : List Bool

pub data TableError : Type 0 where
  discontinuous : ChainError → TableError
  invalid_vote : VoteError → TableError
  invalid_rotation : RotationError → TableError
  invalid_subject : CaError → TableError
  expired_at_birth older_crl : ℕ → ℕ → TableError
  demotion : TableError
  unknown_ca : Bytes → TableError
  write_failed : TableError

module _ {ℓ} {A : Type ℓ} where
  -- The change is written to its file.
  abbrev pub persist : Tables → A → Tables × Result TableError A
  persist t a =
      let (written, disk) = next_write t.disk in
      (record t { disk = disk }, if written then ok a else err write_failed)

  -- A step that follows another unless that one failed.
  abbrev pub and_then {κ} :
      {B : Type κ}
      → Tables × Result TableError B
      → (Tables → Tables × Result TableError A)
      → Tables × Result TableError A
  and_then (t, ok _) f = f t
  and_then (t, err e) f = (t, err e)

  abbrev pub after :
      Result TableError (Unit {0})
      → Tables
      → Tables × Result TableError A
      → Tables × Result TableError A
  after (ok _) t r = r
  after (err e) t r = (t, err e)

module _ {ℓ} {A : Type ℓ} where
  -- Inversion of steps that succeed.
  pub persist_ok :
      (t t' : Tables) (a b : A)
      → persist t a ≡ (t', ok b)
      → t' ≡ record t { disk = (next_write t.disk).1 }
  persist_ok t t' a b h = sym (ap (λ r. r.0) h)

  pub and_then_ok {κ} :
      {B : Type κ} (r : Tables × Result TableError B) (f : Tables → Tables × Result TableError A)
      (t' : Tables) (a : A)
      → and_then r f ≡ (t', ok a)
      → f r.0 ≡ (t', ok a)
  and_then_ok (t, ok b) f t' a h = h
  and_then_ok (t, err e) f t' a h = cc

  pub after_ok :
      (r : Result TableError (Unit {0})) (t : Tables) (k : Tables × Result TableError A)
      (t' : Tables) (a : A)
      → after r t k ≡ (t', ok a)
      → (r ≡ ok tt) × (k ≡ (t', ok a))
  after_ok (ok tt) t k t' a h = (refl, h)
  after_ok (err e) t k t' a h = cc

  -- What holds before a checked change and after its write holds whatever the outcomes are.
  pub after_keeps {κ} :
      (P : Tables → Type κ) (r : Result TableError (Unit {0})) (t stored : Tables) (a : A)
      → P t
      → (r ≡ ok tt → (d : List Bool) → P (record stored { disk = d }))
      → P (after r t (persist stored a)).0
  after_keeps P (ok tt) t stored a p q = q refl (next_write stored.disk).1
  after_keeps P (err e) t stored a p q = p

  pub and_then_keeps {κ λ'} :
      {B : Type κ} (P : Tables → Type λ') (r : Tables × Result TableError B)
      (f : Tables → Tables × Result TableError A)
      → P r.0
      → P (f r.0).0
      → P (and_then r f).0
  and_then_keeps P (t, ok b) f p q = q
  and_then_keeps P (t, err e) f p q = p
