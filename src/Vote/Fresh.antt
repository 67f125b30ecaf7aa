-- ===== src/Vote/Fresh.antt =====
-- crypto/vote/mod.rs: a vote from `new_signed` to `validate_against_chain`.
use randbotd.Base.{ℕ, ◌≤◌, ◌<◌, ◌≡◌, refl, true, Option, some, arith, leb→le}
use randbotd.Base.Result.{ok}
use randbotd.Base.Bytes.{Bytes, u32_mod, u64_mod}
use randbotd.Base.Text.{Text, trim, to_ascii_lowercase}
use randbotd.Base.Crypto.{Crypto, CryptoLaws}
use randbotd.Pow.{verify, solve_with_changing_field}
use randbotd.Pow.Search.{solve_with_changing_field-IsSolution}
use randbotd.Domain.{validate_domain_name}
use randbotd.Chain.{Continues, Follows}
use randbotd.Vote.{
  VoteAction, VoteRecord, calculate_vote_difficulty, compute_vote_challenge, vote_id_of, admit_vote,
  seal_vote, new_signed, validate_against_chain,
}
use randbotd.Vote.Accepted.{vote_links, IsAccepted, validate_against_chain_iff}

admit_vote_ok :
    (c : Crypto) (domain : Text) (active revisions difficulty : ℕ)
    → admit_vote c domain active revisions ≡ ok difficulty
    → (validate_domain_name domain ≡ ok tt)
      × (difficulty ≡ calculate_vote_difficulty c active revisions)
      × (difficulty ≤ 255)
unfolding admit_vote
admit_vote_ok c domain a r d h = ground arith

module _ (c : Crypto) (laws : CryptoLaws c) (signing_key : Bytes) (action : VoteAction)
    (vote_seq : ℕ) (prev_vote_hash : Bytes) (timestamp active_votes revisions : ℕ) where
  -- The puzzle of a vote on `domain`.
  abbrev pub puzzle : Text → ℕ → Bytes
  puzzle domain extra =
      compute_vote_challenge c (c.verifying_key signing_key) prev_vote_hash domain action vote_seq
        extra

  pub seal_vote-IsAccepted :
      (domain : Text) (difficulty nonce extra : ℕ) (challenge : Bytes) (prev : Option VoteRecord)
      → (v : VoteRecord)
      → v
        ≡ seal_vote c signing_key domain action vote_seq prev_vote_hash timestamp revisions
            difficulty nonce extra challenge
      → admit_vote c domain active_votes revisions ≡ ok difficulty
      → challenge ≡ puzzle domain extra
      → verify c challenge nonce difficulty ≡ true
      → Follows vote_links v prev
      → revisions < u32_mod
      → IsAccepted c v prev active_votes revisions
  unfolding seal_vote verify vote_id_of
  seal_vote-IsAccepted domain d n x ch prev v e admitted bound hit follows small =
      let a = admit_vote_ok c domain active_votes revisions d admitted in
      let id : Bytes =
        (seal_vote c signing_key domain action vote_seq prev_vote_hash timestamp revisions d n x
          ch).vote_id in
      record {
        domain_valid = rw e a.0;
        follows = follows;
        worked = record {
          revisions_agree = rw e (omega arith);
          challenge_bound = rw e bound;
          enough = rw e (omega (arith, a.1));
          computable = rw e a.2;
          solved = rw e (leb→le d _ hit);
        };
        id_bound = rw e;
        signed = record {
          key = rw e (laws.valid_verifying_key signing_key);
          size = rw e (laws.length_sign signing_key id);
          verified = rw e (laws.verify_strict_sign signing_key id);
        };
      }

  admit_vote_of_valid :
      (domain : Text)
      → validate_domain_name domain ≡ ok tt
      → calculate_vote_difficulty c active_votes revisions ≤ 255
      → admit_vote c domain active_votes revisions
        ≡ ok (calculate_vote_difficulty c active_votes revisions)
  unfolding admit_vote
  admit_vote_of_valid domain h small = rw h (ground arith)

  new_signed_returns :
      (fuel : ℕ) (domain : Text) (difficulty nonce extra : ℕ) (challenge : Bytes)
      → admit_vote c (to_ascii_lowercase (trim domain)) active_votes revisions ≡ ok difficulty
      → solve_with_changing_field c fuel difficulty (puzzle (to_ascii_lowercase (trim domain)))
        ≡ some (nonce, extra, challenge)
      → new_signed c fuel signing_key domain action vote_seq prev_vote_hash timestamp active_votes
          revisions
        ≡ some (
            ok (
              seal_vote c signing_key
                (to_ascii_lowercase (trim domain))
                action
                vote_seq
                prev_vote_hash
                timestamp
                revisions
                difficulty
                nonce
                extra
                challenge))
  unfolding new_signed
  new_signed_returns fuel domain d n x ch a s = rw (a, new_signed, s) refl

  -- If the cleaned domain is valid, the required difficulty is at most 255, there are fewer than 2^32
  -- revisions, and a 32-bit nonce solves the puzzle of some 64-bit extra nonce below the fuel, then
  -- `new_signed` returns a vote, and the chain accepts it after any previous vote that its sequence
  -- number, hash and time continue.
  pub new_signed_accepted :
      (fuel : ℕ) (domain : Text) (prev : Option VoteRecord) (extra nonce : ℕ)
      → validate_domain_name (to_ascii_lowercase (trim domain)) ≡ ok tt
      → calculate_vote_difficulty c active_votes revisions ≤ 255
      → verify c
          (puzzle (to_ascii_lowercase (trim domain)) extra)
          nonce
          (calculate_vote_difficulty c active_votes revisions)
        ≡ true
      → nonce < u32_mod
      → extra < fuel
      → extra < u64_mod
      → Continues vote_links vote_seq prev_vote_hash timestamp prev
      → revisions < u32_mod
      → (v : VoteRecord) × (new_signed c fuel signing_key domain action vote_seq prev_vote_hash
            timestamp active_votes revisions
          ≡ some (ok v))
        × (validate_against_chain c v prev active_votes revisions ≡ ok tt)
  new_signed_accepted fuel domain prev e k valid small hit k_fits e_fuel e_fits continues r_fits =
      let clean : Text = to_ascii_lowercase (trim domain) in
      let d : ℕ = calculate_vote_difficulty c active_votes revisions in
      let admitted = admit_vote_of_valid clean valid small in
      let (n, x, found, s) =
        solve_with_changing_field-IsSolution c d (puzzle clean) fuel e k hit k_fits e_fuel e_fits in
      (
        seal_vote c signing_key clean action vote_seq prev_vote_hash timestamp revisions d n x
            (puzzle clean x),
        new_signed_returns fuel domain d n x (puzzle clean x) admitted found,
        (validate_against_chain_iff c _ prev active_votes revisions).1 (
            seal_vote-IsAccepted clean d n x (puzzle clean x) prev _ refl admitted refl s.solves
              (unfold seal_vote in continues) r_fits),
      )
