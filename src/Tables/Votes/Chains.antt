-- ===== src/Tables/Votes/Chains.antt =====
-- storage/db/subtables/vote_subtable.rs, `insert_vote`: the chain of every voter.
use randbotd.Base.{◌+◌, ◌<◌, ◌≡◌, refl, Bool, true, false, arith, length, last, if◌then◌else◌}
use randbotd.Base.Result.{Result, ok, err}
use randbotd.Base.Bytes.{u64_mod}
use randbotd.Base.Crypto.{Crypto}
use randbotd.Base.Dict.{values, contains_key, values-put_new}
use randbotd.Chain.Latest.{check_latest, sort_by_seq}
use randbotd.Chain.Keyed.{AreChains, AreChains-snoc}
use randbotd.Vote.Accepted.{vote_links}
use randbotd.Vote.{VoteRecord}
use randbotd.Tables.{Tables, TableError, persist, after}
use randbotd.Tables.Votes.{
  votes_of, get_votes_for_originator, context_of, check_vote, store_vote, insert_vote,
}

-- Sorted by their numbers, the votes of each voter make one chain.
unfoldable pub AreVotesChained : Tables → Type 0
AreVotesChained t = AreChains vote_links (λ v. v.voter_pubkey) (values t.vote_store)

module _ (c : Crypto) (t : Tables) (v : VoteRecord) where
  check_vote-latest :
      check_vote c t v ≡ ok tt
      → check_latest vote_links v (last (sort_by_seq vote_links (votes_of t v.voter_pubkey)))
        ≡ ok tt
  unfolding check_vote get_votes_for_originator context_of
  check_vote-latest h = ground arith

  store_vote-AreVotesChained :
      AreVotesChained t
      → contains_key t.vote_store v.vote_id ≡ false
      → check_vote c t v ≡ ok tt
      → length (values t.vote_store) + 1 < u64_mod
      → AreVotesChained (store_vote c t v)
  unfolding store_vote AreVotesChained
  store_vote-AreVotesChained g fresh h small k =
      rw (values-put_new t.vote_store v.vote_id v fresh) (
        AreChains-snoc vote_links (λ v. v.voter_pubkey) (values t.vote_store) v g
          (check_vote-latest h) small k)

  -- While the store has room for one more 64-bit number, inserting a vote, accepted or not and written to
  -- disk or not, leaves the votes of every voter one chain from the zero hash on.
  pub insert_vote-AreVotesChained :
      AreVotesChained t
      → length (values t.vote_store) + 1 < u64_mod
      → AreVotesChained (insert_vote c t v).0
  unfolding insert_vote
  insert_vote-AreVotesChained g small =
      go (contains_key t.vote_store v.vote_id) refl (check_vote c t v) refl
    where
      go :
          (b : Bool)
          → contains_key t.vote_store v.vote_id ≡ b
          → (r : Result TableError (Unit {0})) → check_vote c t v ≡ r
          → AreVotesChained
              (if b then (t, ok v.vote_id) else after r t (persist (store_vote c t v) v.vote_id)).0
      go true e r h = g
      go false e (err x) h = g
      go false e (ok _) h = unfold AreVotesChained in store_vote-AreVotesChained g e h small
