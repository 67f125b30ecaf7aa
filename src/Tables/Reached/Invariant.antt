-- ===== src/Tables/Reached/Invariant.antt =====
-- storage/db/subtables/: the invariant of the reached states.
use randbotd.Base.Crypto.{Crypto}
use randbotd.Base.Bytes.{Bytes}
use randbotd.Chain.{start}
use randbotd.Agility.{Suites}
use randbotd.Scope.{CertificateCoverageScope}
use randbotd.Rotation.{RotationReason}
use randbotd.Tables.{Tables}
use randbotd.Tables.Votes.Chains.{AreVotesChained}
use randbotd.Tables.Purges.PurgeChains.{ArePurgesChained}
use randbotd.Tables.Rotations.{record_distrust_strike}
use randbotd.Tables.Custodians.{set_ca_custodian_policy}
use randbotd.Tables.Reached.{
  Operation, vote_op, purge_op, rotation_op, offer_op, ca_op, crl_op, custodian_op, removal_op,
  policy_op, strike_op, IsAdmissible, IsSound, run, IsReached, opened, operated,
}
use randbotd.Tables.Reached.Soundness.{
  insert_vote-IsSound, insert_purge-IsSound, insert_key_rotation-IsSound, insert_offer-IsSound,
  insert_ca-IsSound, insert_crl-IsSound, insert_custodian_record-IsSound, remove_custodian-IsSound,
}
use native.Mathlib.Omega.{arith}

module _ (c : Crypto) (s : Suites) (reason_json : RotationReason → Bytes)
    (scope_json : CertificateCoverageScope → Bytes) where
  run-IsSound :
      (t : Tables) (o : Operation)
      → IsSound t
      → IsAdmissible t o
      → IsSound (run c s reason_json scope_json t o)
  unfolding run set_ca_custodian_policy record_distrust_strike AreVotesChained ArePurgesChained
  run-IsSound t (vote_op v) g a = insert_vote-IsSound c t v g a
  run-IsSound t (purge_op p) g a = insert_purge-IsSound t p g a.0 a.1
  run-IsSound t (rotation_op p) g a = insert_key_rotation-IsSound c s reason_json scope_json t p g
  run-IsSound t (offer_op o) g a = insert_offer-IsSound c scope_json t o g
  run-IsSound t (ca_op ca) g a = insert_ca-IsSound t ca g
  run-IsSound t (crl_op crl) g a = insert_crl-IsSound t crl g
  run-IsSound t (custodian_op r) g a = insert_custodian_record-IsSound t r g
  run-IsSound t (removal_op ca worker) g a = remove_custodian-IsSound t ca worker g
  run-IsSound t (policy_op ca policy) g a = g
  run-IsSound t (strike_op ca) g a = g

  -- In every state that admissible operations reach from empty tables, accepted or refused and written to
  -- disk or not, the votes of each voter, the purges of each authority and the rotations of each authority
  -- make one chain from the zero hash on, and no worker has two custodian records of one authority.
  pub IsReached-IsSound : (t : Tables) → IsReached c s reason_json scope_json t → IsSound t
  unfolding AreVotesChained ArePurgesChained
  IsReached-IsSound _ (opened disk) = (λ k. start, λ k. start, λ k. start, λ ca w. omega arith)
  IsReached-IsSound _ (operated {t} o r a) = run-IsSound t o (IsReached-IsSound t r) a
