-- ===== src/Examples/Records.antt =====
-- The theorems on votes, at concrete records.
use randbotd.Base.{◌≡◌, refl, ◌↔◌, true, none, some, [], ◌∷◌, arith}
use randbotd.Base.Result.{ok}
use randbotd.Base.Bytes.{to_be_bytes, concat}
use randbotd.Base.Text.{
  Text, codes, as_bytes, len, trim, to_ascii_lowercase, split, starts_with, ends_with, is_ascii,
  is_ascii_alphanumeric, is_empty,
}
use randbotd.Examples.{toy, toy_laws, key}
use randbotd.Examples.Logarithm.{log2_floor}
use randbotd.Pow.{
  verify, leading_zero_bits, compute_digest, compute_challenge, calculate_logarithmic_difficulty,
}
use randbotd.Chain.{zero_hash, IsNumbered, IsLinked}
use randbotd.Domain.{validate_domain_name}
use randbotd.Vote.{
  tw, admit_vote, as_str, VoteRecord, calculate_flip_penalty, calculate_vote_difficulty,
  compute_vote_challenge, seal_vote, new_signed, validate_against_chain,
}
use randbotd.Vote.Accepted.{vote_links, IsAccepted, validate_against_chain_iff}
use randbotd.Vote.Fresh.{puzzle, seal_vote-IsAccepted, new_signed_accepted}
use randbotd.Vote.Chain.{start, cast, History_lem}

abbrev pub site : Text
site = codes "ab.org"

pub site-valid : validate_domain_name site ≡ ok tt
unfolding validate_domain_name len trim starts_with ends_with split is_empty is_ascii
    is_ascii_alphanumeric
site-valid = refl

pub site-clean : to_ascii_lowercase (trim site) ≡ site
unfolding to_ascii_lowercase trim
site-clean = refl

-- A first vote, cast at time 100.
abbrev pub ballot : VoteRecord
ballot =
    seal_vote toy key site tw 1 zero_hash 100 0 12 0 0
      (compute_vote_challenge toy (toy.verifying_key key) zero_hash site tw 1 0)

pub first_difficulty : calculate_vote_difficulty toy 0 0 ≡ 12
unfolding calculate_vote_difficulty calculate_logarithmic_difficulty calculate_flip_penalty
    log2_floor
first_difficulty = refl

site-admitted : admit_vote toy site 0 0 ≡ ok 12
unfolding admit_vote
site-admitted = rw (site-valid, first_difficulty) refl

pub puzzle-solved : verify toy (puzzle toy toy_laws key tw 1 zero_hash 100 0 0 site 0) 0 12 ≡ true
unfolding verify to_be_bytes compute_vote_challenge compute_challenge concat as_bytes compute_digest
    leading_zero_bits as_str
puzzle-solved = refl

ballot-accepted : validate_against_chain toy ballot none 0 0 ≡ ok tt
unfolding seal_vote
ballot-accepted = (validate_against_chain_iff toy ballot none 0 0).1 (
    seal_vote-IsAccepted toy toy_laws key tw 1 zero_hash 100 0 0 site 12 0 0 _ none ballot refl
      site-admitted refl puzzle-solved (refl, refl) (omega arith))

validate_against_chain_iff_example :
    (validate_against_chain toy ballot none 0 0 ≡ ok tt) ↔ IsAccepted toy ballot none 0 0
validate_against_chain_iff_example = validate_against_chain_iff toy ballot none 0 0

History_lem_example :
    IsNumbered vote_links (ballot ∷ []) ballot.timestamp × IsLinked vote_links (ballot ∷ [])
History_lem_example =
    History_lem toy [] ballot (cast ballot 0 0 start ballot-accepted) (omega arith)

new_signed_accepted_example :
    (v : VoteRecord) × (new_signed toy 1 key site tw 1 zero_hash 100 0 0 ≡ some (ok v))
    × (validate_against_chain toy v none 0 0 ≡ ok tt)
new_signed_accepted_example =
    new_signed_accepted toy toy_laws key tw 1 zero_hash 100 0 0 1 site none 0 0
      (rw site-clean site-valid) (omega (arith, first_difficulty))
      (rw (site-clean, first_difficulty) puzzle-solved) (omega arith) (omega arith) (omega arith)
      (refl, refl) (omega arith)
