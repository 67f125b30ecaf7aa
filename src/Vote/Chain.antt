-- ===== src/Vote/Chain.antt =====
-- crypto/vote/mod.rs: the votes of one voter, accepted one after the other.
use randbotd.Base.{ℕ, ◌<◌, ◌≡◌, List, [], ◌∷◌, length}
use randbotd.Base.Result.{ok}
use randbotd.Base.Bytes.{u64_mod}
use randbotd.Base.Crypto.{Crypto}
use randbotd.Chain.{newest, Grown, IsNumbered, IsLinked, Grown-IsNumbered, Grown-IsLinked}
use randbotd.Vote.{VoteRecord, validate_against_chain}
use randbotd.Vote.Accepted.{vote_links, validate_against_chain_iff}

-- A history of votes, the newest first, each accepted after the one before it, whatever the counts of
-- active votes and revisions were at the time.
pub data History (c : Crypto) : List VoteRecord → Type 0 where
  start : History c []
  cast :
      {vs : List VoteRecord} (v : VoteRecord) (active_votes revisions : ℕ)
      → History c vs
      → validate_against_chain c v (newest vote_links vs) active_votes revisions ≡ ok tt
      → History c (v ∷ vs)

History-Grown : (c : Crypto) {vs : List VoteRecord} → History c vs → Grown vote_links vs
History-Grown c start = Grown.start
History-Grown c (cast {vs} v a r h accepted) =
    Grown.grow v (History-Grown c h)
      ((validate_against_chain_iff c v (newest vote_links vs) a r).0 accepted).follows

-- In every history of fewer than 2^64 accepted votes the sequence numbers are 1, 2, 3 and so on without
-- gap or repetition, times never fall, and the hash links lead back to the zero hash.
pub History_lem :
    (c : Crypto) (vs : List VoteRecord) (v : VoteRecord)
    → History c (v ∷ vs)
    → length (v ∷ vs) < u64_mod
    → IsNumbered vote_links (v ∷ vs) v.timestamp × IsLinked vote_links (v ∷ vs)
History_lem c vs v h small =
    let g = History-Grown c h in
    (Grown-IsNumbered vote_links vs v g small, Grown-IsLinked vote_links vs v g)
