-- ===== src/Vote/Accepted.antt =====
-- crypto/vote/mod.rs: what `validate_against_chain` asks of a vote.
use randbotd.Base.{
  ℕ, ◌≤◌, ◌≡◌, ◌↔◌, true, Option, none, some, arith, bytes_eq_refl, bytes_eq_iff, length,
}
use randbotd.Base.Result.{ok}
use randbotd.Base.Bytes.{Bytes}
use randbotd.Base.Crypto.{Crypto}
use randbotd.Pow.{leading_zero_bits, compute_digest, verify}
use randbotd.Domain.{validate_domain_name}
use randbotd.Chain.{Links, Follows, zero_hash}
use randbotd.Vote.{
  VoteRecord, calculate_vote_difficulty, compute_vote_challenge, vote_id_of, check_link, check_work,
  verify_signature, validate_against_chain,
}

abbrev pub vote_links : Links VoteRecord
vote_links = record {
  seq = λ v. v.vote_seq;
  prev_hash = λ v. v.prev_vote_hash;
  id = λ v. v.vote_id;
  time = λ v. v.timestamp;
}

module _ (c : Crypto) (v : VoteRecord) where
  pub record IsWorked (active_votes revisions : ℕ) : Type 0 where
    pub revisions_agree : v.revisions_on_domain ≡ revisions
    pub challenge_bound :
        v.challenge
        ≡ compute_vote_challenge c v.voter_pubkey v.prev_vote_hash v.domain v.action v.vote_seq
            v.extra_nonce
    pub enough : calculate_vote_difficulty c active_votes revisions ≤ v.difficulty
    pub computable : v.difficulty ≤ 255
    pub solved : v.difficulty ≤ leading_zero_bits (compute_digest c v.challenge v.nonce)

  pub record IsSigned : Type 0 where
    pub key : c.valid_key v.voter_pubkey ≡ true
    pub size : length v.signature ≡ 64
    pub verified : c.verify_strict v.voter_pubkey v.vote_id v.signature ≡ true

  pub record IsAccepted (prev_vote : Option VoteRecord) (active_votes revisions : ℕ) : Type 0 where
    pub domain_valid : validate_domain_name v.domain ≡ ok tt
    pub follows : Follows vote_links v prev_vote
    pub worked : IsWorked active_votes revisions
    pub id_bound : v.vote_id ≡ vote_id_of c v
    pub signed : IsSigned

check_link_iff :
    (c : Crypto) (v : VoteRecord) (prev : Option VoteRecord)
    → (check_link c v prev ≡ ok tt) ↔ Follows vote_links v prev
unfolding check_link
check_link_iff c v none = (
  λ h. ground (arith, bytes_eq_iff v.prev_vote_hash zero_hash),
  λ h. ground (arith, bytes_eq_iff v.prev_vote_hash zero_hash),
)
check_link_iff c v (some prev) = (
  λ h. ground (arith, bytes_eq_iff v.prev_vote_hash prev.vote_id),
  λ h. ground (arith, bytes_eq_iff v.prev_vote_hash prev.vote_id),
)

module _ (c : Crypto) (v : VoteRecord) where
  abbrev expected_challenge : Bytes
  expected_challenge =
      compute_vote_challenge c v.voter_pubkey v.prev_vote_hash v.domain v.action v.vote_seq
        v.extra_nonce

  check_work_iff :
      (active revisions : ℕ)
      → (check_work c v active revisions ≡ ok tt) ↔ IsWorked c v active revisions
  unfolding check_work verify
  check_work_iff a r = (
    λ h. ground (arith, bytes_eq_iff v.challenge expected_challenge),
    λ h. ground (arith, bytes_eq_iff v.challenge expected_challenge),
  )

  verify_signature_iff : (verify_signature c v v.voter_pubkey ≡ ok tt) ↔ IsSigned c v
  unfolding verify_signature
  verify_signature_iff = (
    λ h. ground (arith, bytes_eq_refl v.voter_pubkey),
    λ h. ground (arith, bytes_eq_refl v.voter_pubkey),
  )

  -- A vote is accepted exactly if its domain is valid, it follows the previous vote, its proof of work
  -- meets the difficulty that the counts require, its identifier is its digest, and its own key signed it.
  pub validate_against_chain_iff :
      (prev_vote : Option VoteRecord) (active_votes revisions : ℕ)
      → (validate_against_chain c v prev_vote active_votes revisions ≡ ok tt)
        ↔ IsAccepted c v prev_vote active_votes revisions
  unfolding validate_against_chain
  validate_against_chain_iff prev a r = (
    λ h. ground (
      arith,
      (check_link_iff c v prev).0,
      (check_work_iff a r).0,
      verify_signature_iff.0,
      bytes_eq_iff v.vote_id (vote_id_of c v),
    ),
    λ h. ground (
      arith,
      (check_link_iff c v prev).1 h.follows,
      (check_work_iff a r).1 h.worked,
      verify_signature_iff.1 h.signed,
      bytes_eq_iff v.vote_id (vote_id_of c v),
    ),
  )
