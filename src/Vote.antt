-- ===== src/Vote.antt =====
-- crypto/vote/mod.rs: vote records, their proof of work and signature, and a voter's chain of votes.
-- A voter's key, a vote's identifier and a challenge are byte strings; `active_votes` and `revisions` are
-- what the caller has counted before the vote.
pub mod Difficulty
pub mod Accepted
pub mod Fresh
pub mod Chain
use randbotd.Base.{
  ℕ, ◌+◌, ◌*◌, ◌%◌, Bool, not, Option, none, some, [], ◌∷◌, ltb, ◌==◌, bytes_eq, length,
}
use randbotd.Base.Result.{Result, ok, err, fail_if, map_err, ◌>>=◌, ◌>>◌}
use randbotd.Base.Bytes.{Bytes, to_be_bytes, concat, u32_mod, u64_mod}
use randbotd.Base.Text.{Text, codes, as_bytes, trim, to_ascii_lowercase}
use randbotd.Base.Crypto.{Crypto}
use randbotd.Pow.{
  default_base_difficulty, compute_challenge, verify, solve_with_changing_field,
  calculate_logarithmic_difficulty,
}
use randbotd.Chain.{zero_hash}
use randbotd.Domain.{DomainError, validate_domain_name}

abbrev pub max_computable_difficulty : ℕ
max_computable_difficulty = 255

pub data VoteAction : Type 0 where
  tw utw : VoteAction

unfoldable pub as_str : VoteAction → Text
as_str tw = codes "TW"
as_str utw = codes "UTW"

pub record VoteRecord : Type 0 where
  pub vote_id : Bytes
  pub voter_pubkey : Bytes
  pub domain : Text
  pub action : VoteAction
  pub vote_seq : ℕ
  pub prev_vote_hash : Bytes
  pub timestamp : ℕ
  pub revisions_on_domain : ℕ
  pub challenge : Bytes
  pub nonce : ℕ
  pub extra_nonce : ℕ
  pub difficulty : ℕ
  pub signature : Bytes

pub data VoteError : Type 0 where
  bad_domain : DomainError → VoteError
  first_seq : ℕ → VoteError
  first_hash broken_link challenge_mismatch invalid_nonce id_mismatch : VoteError
  sequence_gap time_reversal revisions_mismatch insufficient_difficulty : ℕ → ℕ → VoteError
  required_too_high difficulty_too_high signature_length : ℕ → VoteError
  key_mismatch invalid_key bad_signature : VoteError

-- `2 * floor(log2(revisions + 1))`, in 32 bits.
unfoldable pub calculate_flip_penalty : Crypto → ℕ → ℕ
calculate_flip_penalty c revisions = (2 * c.log2_floor ((revisions + 1) % u64_mod)) % u32_mod

unfoldable pub calculate_vote_difficulty : Crypto → ℕ → ℕ → ℕ
unfolding calculate_flip_penalty
calculate_vote_difficulty c active_votes revisions =
    calculate_logarithmic_difficulty c default_base_difficulty active_votes 2
      (calculate_flip_penalty c revisions)

module _ (c : Crypto) where
  unfoldable pub compute_vote_challenge : Bytes → Bytes → Text → VoteAction → ℕ → ℕ → Bytes
  unfolding as_str
  compute_vote_challenge voter_pubkey prev_vote_hash domain action vote_seq extra_nonce =
      compute_challenge c (
        voter_pubkey
        ∷ prev_vote_hash
        ∷ as_bytes domain
        ∷ as_bytes (as_str action)
        ∷ to_be_bytes 8 vote_seq
        ∷ to_be_bytes 8 extra_nonce
        ∷ [])

  unfoldable pub compute_vote_id : Bytes → Text → VoteAction → ℕ → Bytes → ℕ → ℕ → ℕ → ℕ → Bytes
  unfolding as_str
  compute_vote_id voter_pubkey domain action vote_seq prev_vote_hash timestamp nonce extra_nonce
        difficulty =
      c.sha256 (
        concat (
          codes "randbotd_vote_v1:"
          ∷ voter_pubkey
          ∷ as_bytes domain
          ∷ as_bytes (as_str action)
          ∷ to_be_bytes 8 vote_seq
          ∷ prev_vote_hash
          ∷ to_be_bytes 8 timestamp
          ∷ to_be_bytes 8 nonce
          ∷ to_be_bytes 8 extra_nonce
          ∷ to_be_bytes 4 difficulty
          ∷ []))

  unfoldable pub verify_signature : VoteRecord → Bytes → Result VoteError (Unit {0})
  verify_signature v expected_pubkey = do
    fail_if (not (bytes_eq v.voter_pubkey expected_pubkey)) key_mismatch
    fail_if (not (c.valid_key v.voter_pubkey)) invalid_key
    fail_if (not (length v.signature == 64)) (signature_length (length v.signature))
    fail_if (not (c.verify_strict v.voter_pubkey v.vote_id v.signature)) bad_signature

  pub verify_pow : VoteRecord → Bool
  verify_pow v = verify c v.challenge v.nonce v.difficulty

  -- The match on the previous vote.
  unfoldable pub check_link : VoteRecord → Option VoteRecord → Result VoteError (Unit {0})
  check_link v none = do
    fail_if (not (v.vote_seq == 1)) (first_seq v.vote_seq)
    fail_if (not (bytes_eq v.prev_vote_hash zero_hash)) first_hash
  check_link v (some prev) = do
    fail_if (not (v.vote_seq == (prev.vote_seq + 1) % u64_mod))
        (sequence_gap ((prev.vote_seq + 1) % u64_mod) v.vote_seq)
    fail_if (not (bytes_eq v.prev_vote_hash prev.vote_id)) broken_link
    fail_if (ltb v.timestamp prev.timestamp) (time_reversal v.timestamp prev.timestamp)

  -- The checks of the challenge, the difficulty and the nonce.
  pub check_work : VoteRecord → ℕ → ℕ → Result VoteError (Unit {0})
  unfolding verify_pow
  check_work v active_votes revisions = do
    fail_if (not (v.revisions_on_domain == revisions))
        (revisions_mismatch v.revisions_on_domain revisions)
    let expected_challenge =
        compute_vote_challenge v.voter_pubkey v.prev_vote_hash v.domain v.action v.vote_seq
          v.extra_nonce
    fail_if (not (bytes_eq v.challenge expected_challenge)) challenge_mismatch
    let required = calculate_vote_difficulty c active_votes revisions
    fail_if (ltb max_computable_difficulty required) (required_too_high required)
    fail_if (ltb v.difficulty required) (insufficient_difficulty required v.difficulty)
    fail_if (ltb max_computable_difficulty v.difficulty) (difficulty_too_high v.difficulty)
    fail_if (not (verify_pow v)) invalid_nonce

  pub vote_id_of : VoteRecord → Bytes
  vote_id_of v =
      compute_vote_id v.voter_pubkey v.domain v.action v.vote_seq v.prev_vote_hash v.timestamp
        v.nonce v.extra_nonce v.difficulty

  pub validate_against_chain : VoteRecord → Option VoteRecord → ℕ → ℕ → Result VoteError (Unit {0})
  unfolding check_link check_work vote_id_of verify_signature
  validate_against_chain v prev_vote active_votes revisions = do
    map_err bad_domain (validate_domain_name v.domain)
    check_link v prev_vote
    check_work v active_votes revisions
    fail_if (not (bytes_eq v.vote_id (vote_id_of v))) id_mismatch
    verify_signature v v.voter_pubkey

  -- What `new_signed` checks before it solves the puzzle: the difficulty, or an error.
  unfoldable pub admit_vote : Text → ℕ → ℕ → Result VoteError ℕ
  admit_vote clean_domain active_votes revisions = do
    map_err bad_domain (validate_domain_name clean_domain)
    let difficulty = calculate_vote_difficulty c active_votes revisions
    fail_if (ltb max_computable_difficulty difficulty) (required_too_high difficulty)
    ok difficulty

  -- The record that `new_signed` builds from a solution of the puzzle.
  unfoldable pub seal_vote :
      Bytes → Text → VoteAction → ℕ → Bytes → ℕ → ℕ → ℕ → ℕ → ℕ → Bytes → VoteRecord
  seal_vote signing_key domain action vote_seq prev_vote_hash timestamp revisions difficulty nonce
        extra_nonce challenge =
      let voter_pubkey = c.verifying_key signing_key in
      let vote_id =
        compute_vote_id voter_pubkey domain action vote_seq prev_vote_hash timestamp nonce
          extra_nonce difficulty in
      record {
        vote_id = vote_id;
        voter_pubkey = voter_pubkey;
        domain = domain;
        action = action;
        vote_seq = vote_seq;
        prev_vote_hash = prev_vote_hash;
        timestamp = timestamp;
        revisions_on_domain = revisions % u32_mod;
        challenge = challenge;
        nonce = nonce;
        extra_nonce = extra_nonce;
        difficulty = difficulty;
        signature = c.sign signing_key vote_id;
      }

  -- `none` means that the fuel of the nonce search ran out.
  unfoldable pub new_signed :
      ℕ → Bytes → Text → VoteAction → ℕ → Bytes → ℕ → ℕ → ℕ → Option (Result VoteError VoteRecord)
  unfolding admit_vote seal_vote
  new_signed fuel signing_key domain action vote_seq prev_vote_hash timestamp active_votes
        revisions =
      let clean_domain = to_ascii_lowercase (trim domain) in
      elim (admit_vote clean_domain active_votes revisions) [
        | err e ↦ some (err e)
        | ok difficulty ↦
            elim (solve_with_changing_field c fuel difficulty (λ extra.
              compute_vote_challenge (c.verifying_key signing_key) prev_vote_hash clean_domain
                action vote_seq extra)) [
                  | none ↦ none
                  | some (nonce, extra_nonce, challenge) ↦ some (
                      ok (
                        seal_vote signing_key clean_domain action vote_seq prev_vote_hash timestamp
                          revisions difficulty nonce extra_nonce challenge))
                ]
      ]
