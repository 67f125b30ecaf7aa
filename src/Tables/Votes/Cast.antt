-- ===== src/Tables/Votes/Cast.antt =====
-- storage/db/subtables/vote_subtable.rs and crypto/vote/mod.rs: a vote from the context that the table gives,
-- through `new_signed`, to `insert_vote`.
use randbotd.Base.{
  ℕ, ◌≤◌, ◌<◌, ◌≡◌, refl, ap₂, sym, subst, ◌⊎◌, inl, inr, true, Option, some, arith, Option-cases,
  none, if◌then◌else◌, last,
}
use randbotd.Base.Result.{ok, err}
use randbotd.Base.Bytes.{Bytes, u32_mod, u64_mod}
use randbotd.Base.Text.{Text, trim, to_ascii_lowercase}
use randbotd.Base.Crypto.{Crypto, CryptoLaws}
use randbotd.Base.Dict.{get, get-put_same}
use randbotd.Pow.{verify}
use randbotd.Domain.{validate_domain_name}
use randbotd.Chain.{Continues}
use randbotd.Chain.Latest.{check_latest, check_latest_iff}
use randbotd.Vote.{
  VoteRecord, VoteAction, calculate_vote_difficulty, seal_vote, new_signed, validate_against_chain,
}
use randbotd.Vote.Accepted.{vote_links, validate_against_chain_iff}
use randbotd.Vote.Fresh.{puzzle, new_signed_accepted}
use randbotd.Storage.{next_write}
use randbotd.Tables.{Tables, write_failed}
use randbotd.Tables.Votes.{
  get_votes_for_originator, get_vote_context, context_of, check_vote, store_vote, insert_vote,
}

-- A vote that the chain accepts in the context of its voter passes the checks of the table.
pub check_vote-accepted :
    (c : Crypto) (t : Tables) (v : VoteRecord)
    → (let x = context_of (get_votes_for_originator t v.voter_pubkey) v.domain in
        validate_against_chain c v x.0 x.1 x.2 ≡ ok tt)
    → check_vote c t v ≡ ok tt
unfolding check_vote context_of
check_vote-accepted c t v h =
    let votes = get_votes_for_originator t v.voter_pubkey in
    let follows = ((validate_against_chain_iff c v (last votes) _ _).0 h).follows in
    let linked : check_latest vote_links v (last votes) ≡ ok tt =
      (check_latest_iff vote_links v (last votes)).1 follows in
    rw (linked, h) refl

-- The voter and the domain of what `new_signed` returns.
new_signed-fields :
    (c : Crypto) (fuel : ℕ) (signing_key : Bytes) (domain : Text) (action : VoteAction) (seq : ℕ)
    (prev : Bytes) (time active revisions : ℕ) (v : VoteRecord)
    → new_signed c fuel signing_key domain action seq prev time active revisions ≡ some (ok v)
    → (v.voter_pubkey ≡ c.verifying_key signing_key) × (v.domain ≡ to_ascii_lowercase (trim domain))
unfolding new_signed seal_vote
new_signed-fields c fuel signing_key domain action seq prev time active revisions v h = ground arith

module _ (c : Crypto) (laws : CryptoLaws c) (t : Tables) (signing_key : Bytes) (domain : Text)
    (action : VoteAction) (vote_seq : ℕ) (prev_vote_hash : Bytes) (timestamp : ℕ) where
  abbrev clean : Text
  clean = to_ascii_lowercase (trim domain)

  abbrev context : Option VoteRecord × ℕ × ℕ
  context = get_vote_context t (c.verifying_key signing_key) domain

  accepted_in_context :
      (fuel : ℕ) (v : VoteRecord)
      → new_signed c fuel signing_key domain action vote_seq prev_vote_hash timestamp context.1
          context.2
        ≡ some (ok v)
      → validate_against_chain c v context.0 context.1 context.2 ≡ ok tt
      → check_vote c t v ≡ ok tt
  unfolding get_vote_context
  accepted_in_context fuel v made valid =
      let f =
        new_signed-fields c fuel signing_key domain action vote_seq prev_vote_hash timestamp
          context.1 context.2 v made in
      check_vote-accepted c t v (
        subst (λ (x : Option VoteRecord × ℕ × ℕ). validate_against_chain c v x.0 x.1 x.2 ≡ ok tt)
          (ap₂ (λ a b. context_of (get_votes_for_originator t a) b) (sym f.0) (sym f.1)) valid)

  -- A node that takes the context of its next vote from its table, and continues its latest vote in it,
  -- gets its vote into the table: if the cleaned domain is valid, the difficulty that the context requires
  -- is at most 255, there are fewer than 2^32 revisions, and a 32-bit nonce solves the puzzle of some
  -- 64-bit extra nonce below the fuel, then `new_signed` returns a vote; if the table holds no vote of its
  -- identifier, it holds this vote after `insert_vote`, which returns the identifier if the write to disk
  -- succeeds and the error of the write otherwise; if it holds one, `insert_vote` changes nothing and returns
  -- the identifier.
  pub cast_vote_stored :
      (fuel extra nonce : ℕ)
      → validate_domain_name clean ≡ ok tt
      → calculate_vote_difficulty c context.1 context.2 ≤ 255
      → verify c
          (puzzle c laws signing_key action vote_seq prev_vote_hash timestamp context.1 context.2
            clean extra)
          nonce
          (calculate_vote_difficulty c context.1 context.2)
        ≡ true
      → nonce < u32_mod
      → extra < fuel
      → extra < u64_mod
      → Continues vote_links vote_seq prev_vote_hash timestamp context.0
      → context.2 < u32_mod
      → (v : VoteRecord) × (new_signed c fuel signing_key domain action vote_seq prev_vote_hash
            timestamp context.1 context.2
          ≡ some (ok v))
        × (((get t.vote_store v.vote_id ≡ none)
              × (get (insert_vote c t v).0.vote_store v.vote_id ≡ some v)
              × ((insert_vote c t v).1
                  ≡ (if (next_write t.disk).0 then ok v.vote_id else err write_failed)))
            ⊎ ((w : VoteRecord) × (get t.vote_store v.vote_id ≡ some w)
                × (insert_vote c t v ≡ (t, ok v.vote_id))))
  unfolding insert_vote store_vote
  cast_vote_stored fuel extra nonce valid small hit k e_fuel e_fits continues r_fits =
      let (v, made, accepted) =
        new_signed_accepted c laws signing_key action vote_seq prev_vote_hash timestamp context.1
          context.2 fuel domain context.0 extra nonce valid small hit k e_fuel e_fits continues
          r_fits in
      (
        v,
        made,
        elim (Option-cases (get t.vote_store v.vote_id)) [
          | inl fresh ↦
              let held = get-put_same t.vote_store v.vote_id v in
              inl (rw (fresh, accepted_in_context fuel v made accepted) (refl, held, refl))
          | inr (w, known) ↦ inr (w, known, rw known refl)
        ],
      )
