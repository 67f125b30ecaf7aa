-- ===== src/Tables/Reached.antt =====
-- storage/db/subtables/: the tables as a state machine. An operation on a table is any of the public
-- functions that change one; the states are what a row of operations reaches from empty tables.
pub mod Keeps
pub mod Soundness
pub mod Invariant
use randbotd.Base.{◌+◌, ◌<◌, ◌≡◌, Bool, false, List, [], length}
use randbotd.Base.Bytes.{Bytes, u64_mod}
use randbotd.Base.Crypto.{Crypto}
use randbotd.Base.Dict.{values, contains_key}
use randbotd.Agility.{Suites}
use randbotd.Scope.{CertificateCoverageScope}
use randbotd.Ca.{CaDeclaration}
use randbotd.Offer.{CertificateOffer}
use randbotd.Purge.{DomainPurgeRecord}
use randbotd.Vote.{VoteRecord}
use randbotd.Rotation.{KeyRotationProof, RotationReason}
use randbotd.Swarm.{CustodianSwarmRecord, CaCustodianPolicy}
use randbotd.Crl.{CertificateRevocationList}
use randbotd.Tables.{Tables}
use randbotd.Tables.Votes.{insert_vote}
use randbotd.Tables.Votes.Chains.{AreVotesChained}
use randbotd.Tables.Purges.{insert_purge}
use randbotd.Tables.Purges.PurgeChains.{ArePurgesChained}
use randbotd.Tables.Rotations.{insert_key_rotation, record_distrust_strike}
use randbotd.Tables.Rotations.RotationChains.{AreRotationsChained}
use randbotd.Tables.Offers.{insert_offer}
use randbotd.Tables.Authorities.{insert_ca}
use randbotd.Tables.Revocations.{insert_crl}
use randbotd.Tables.Custodians.{insert_custodian_record, remove_custodian, set_ca_custodian_policy}
use randbotd.Tables.Custodians.Unique.{AreUnique}

pub data Operation : Type 0 where
  vote_op : VoteRecord → Operation
  purge_op : DomainPurgeRecord → Operation
  rotation_op : KeyRotationProof → Operation
  offer_op : CertificateOffer → Operation
  ca_op : CaDeclaration → Operation
  crl_op : CertificateRevocationList → Operation
  custodian_op : CustodianSwarmRecord → Operation
  removal_op : Bytes → Bytes → Operation
  policy_op : Bytes → CaCustodianPolicy → Operation
  strike_op : Bytes → Operation

abbrev pub empty_tables : List Bool → Tables
empty_tables disk = record {
  ca_store = [];
  offer_store = [];
  crl_store = [];
  purge_store = [];
  rotation_store = [];
  custodian_store = [];
  policy_store = [];
  vote_store = [];
  distrust_store = [];
  cluster_index = record { domain_postings = []; voter_postings = [] };
  disk = disk;
}

-- The stores have room for one more 64-bit number, and a purge comes under a new identifier.
abbrev pub IsAdmissible : Tables → Operation → Type 0
IsAdmissible t (vote_op v) = length (values t.vote_store) + 1 < u64_mod
IsAdmissible t (purge_op p) =
    (contains_key t.purge_store p.purge_id ≡ false) × (length (values t.purge_store) + 1 < u64_mod)
IsAdmissible t (rotation_op p) = Unit {0}
IsAdmissible t (offer_op o) = Unit {0}
IsAdmissible t (ca_op ca) = Unit {0}
IsAdmissible t (crl_op crl) = Unit {0}
IsAdmissible t (custodian_op r) = Unit {0}
IsAdmissible t (removal_op ca worker) = Unit {0}
IsAdmissible t (policy_op ca policy) = Unit {0}
IsAdmissible t (strike_op ca) = Unit {0}

-- The votes, the purges and the rotations make chains, and custodians are unique.
abbrev pub IsSound : Tables → Type 0
IsSound t = AreVotesChained t × ArePurgesChained t × AreRotationsChained t × AreUnique t

module _ (c : Crypto) (s : Suites) (reason_json : RotationReason → Bytes)
    (scope_json : CertificateCoverageScope → Bytes) where
  unfoldable pub run : Tables → Operation → Tables
  run t (vote_op v) = (insert_vote c t v).0
  run t (purge_op p) = (insert_purge t p).0
  run t (rotation_op p) = (insert_key_rotation c s reason_json scope_json t p).0
  run t (offer_op o) = (insert_offer c scope_json t o).0
  run t (ca_op ca) = (insert_ca t ca).0
  run t (crl_op crl) = (insert_crl t crl).0
  run t (custodian_op r) = (insert_custodian_record t r).0
  run t (removal_op ca worker) = (remove_custodian t ca worker).0
  run t (policy_op ca policy) = (set_ca_custodian_policy t ca policy).0
  run t (strike_op ca) = (record_distrust_strike t ca).0

  pub data IsReached : Tables → Type 0 where
    opened : (disk : List Bool) → IsReached (empty_tables disk)
    operated : {t : Tables} (o : Operation) → IsReached t → IsAdmissible t o → IsReached (run t o)
