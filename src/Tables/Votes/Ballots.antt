-- ===== src/Tables/Votes/Ballots.antt =====
-- storage/db/subtables/vote_subtable.rs, `list_active_domain_votes`: one active vote for each voter and domain.
use randbotd.Base.{
  ℕ, ◌≤◌, ◌≡◌, refl, ap₂, sym, subst, ◌∙◌, Bool, true, false, ◌&&◌, Option, List, [], ◌∷◌, arith,
  bytes_eq, bytes_eq_sound, Bool-cases, inl, inr, length, filter, if◌then◌else◌,
}
use randbotd.Base.Bytes.{Bytes}
use randbotd.Base.Text.{Text}
use randbotd.Base.Dict.{values}
use randbotd.Vote.{VoteRecord}
use randbotd.Tables.{Tables}
use randbotd.Tables.Votes.{
  is_same_ballot, keep_highest, passes, collect_active, insert_ballot, sort_ballots,
  list_active_domain_votes,
}

-- The votes in a list of one voter on one domain.
abbrev pub is_ballot : Bytes → Text → VoteRecord → Bool
is_ballot voter domain v = bytes_eq v.voter_pubkey voter && bytes_eq v.domain domain

abbrev pub count_ballots : Bytes → Text → List VoteRecord → ℕ
count_ballots voter domain vs = length (filter (is_ballot voter domain) vs)

abbrev AreSingle : List VoteRecord → Type 0
AreSingle vs = (voter : Bytes) (domain : Text) → count_ballots voter domain vs ≤ 1

-- Two votes on one ballot count alike.
same_ballot :
    (voter : Bytes) (domain : Text) (v w : VoteRecord)
    → is_same_ballot v w ≡ true
    → is_ballot voter domain v ≡ is_ballot voter domain w
same_ballot voter domain v w h =
    let p : w.voter_pubkey ≡ v.voter_pubkey =
      bytes_eq_sound w.voter_pubkey v.voter_pubkey (ground arith) in
    let d : w.domain ≡ v.domain = bytes_eq_sound w.domain v.domain (ground arith) in
    ap₂ (λ a b. bytes_eq a voter && bytes_eq b domain) (sym p) (sym d)

both_ballots :
    (voter : Bytes) (domain : Text) (v w : VoteRecord)
    → is_ballot voter domain v ≡ true
    → is_ballot voter domain w ≡ true
    → is_same_ballot v w ≡ true
both_ballots voter domain v w hv hw =
    let p : v.voter_pubkey ≡ voter = bytes_eq_sound v.voter_pubkey voter (ground arith) in
    let d : v.domain ≡ domain = bytes_eq_sound v.domain domain (ground arith) in
    ap₂ (λ a b. bytes_eq w.voter_pubkey a && bytes_eq w.domain b) p d ∙ hw

-- A vote on another ballot does not count, and one on this ballot counts once.
keep_highest-other :
    (voter : Bytes) (domain : Text) (ws : List VoteRecord) (v : VoteRecord)
    → is_ballot voter domain v ≡ false
    → count_ballots voter domain (keep_highest ws v) ≡ count_ballots voter domain ws
unfolding keep_highest
keep_highest-other voter domain [] v h = rw h refl
keep_highest-other voter domain (w ∷ ws) v h =
    ground (arith, keep_highest-other voter domain ws v h, same_ballot voter domain v w)

keep_highest-same :
    (voter : Bytes) (domain : Text) (ws : List VoteRecord) (v : VoteRecord)
    → is_ballot voter domain v ≡ true
    → count_ballots voter domain ws ≤ 1
    → count_ballots voter domain (keep_highest ws v) ≤ 1
unfolding keep_highest
keep_highest-same voter domain [] v h k = ground arith
keep_highest-same voter domain (w ∷ ws) v h k = ground (
  arith,
  keep_highest-same voter domain ws v h,
  same_ballot voter domain v w,
  both_ballots voter domain v w h,
)

keep_highest-AreSingle :
    (ws : List VoteRecord) (v : VoteRecord) → AreSingle ws → AreSingle (keep_highest ws v)
keep_highest-AreSingle ws v g voter domain = elim (Bool-cases (is_ballot voter domain v)) [
  | inl e ↦ keep_highest-same voter domain ws v e (g voter domain)
  | inr e ↦ subst (λ n. n ≤ 1) (sym (keep_highest-other voter domain ws v e)) (g voter domain)
]

collect_active-AreSingle :
    (d : Option Text) (o : Option Bytes) (active vs : List VoteRecord)
    → AreSingle active
    → AreSingle (collect_active d o active vs)
unfolding collect_active
collect_active-AreSingle d o active [] g = g
collect_active-AreSingle d o active (v ∷ vs) g =
    let b = passes d (bytes_eq v.domain) && passes o (bytes_eq v.voter_pubkey) in
    collect_active-AreSingle d o (if b then keep_highest active v else active) vs (pick b)
  where
    pick : (b : Bool) → AreSingle (if b then keep_highest active v else active)
    pick true = keep_highest-AreSingle active v g
    pick false = g

-- Sorting counts every vote once.
insert_ballot-count :
    (voter : Bytes) (domain : Text) (v : VoteRecord) (ws : List VoteRecord)
    → count_ballots voter domain (insert_ballot v ws) ≡ count_ballots voter domain (v ∷ ws)
unfolding insert_ballot
insert_ballot-count voter domain v [] = refl
insert_ballot-count voter domain v (w ∷ ws) = ground (arith, insert_ballot-count voter domain v ws)

sort_ballots-count :
    (voter : Bytes) (domain : Text) (vs : List VoteRecord)
    → count_ballots voter domain (sort_ballots vs) ≡ count_ballots voter domain vs
unfolding sort_ballots
sort_ballots-count voter domain [] = refl
sort_ballots-count voter domain (v ∷ vs) = ground (
  arith,
  insert_ballot-count voter domain v (sort_ballots vs),
  sort_ballots-count voter domain vs,
)

-- Whatever the table holds and whatever the filters are, the active votes have at most one of each voter
-- on each domain.
pub list_active_domain_votes-count :
    (t : Tables) (d : Option Text) (o : Option Bytes) (voter : Bytes) (domain : Text)
    → count_ballots voter domain (list_active_domain_votes t d o) ≤ 1
unfolding list_active_domain_votes
list_active_domain_votes-count t d o voter domain =
    subst (λ n. n ≤ 1) (sym (sort_ballots-count voter domain _))
      (collect_active-AreSingle _ o [] (values t.vote_store) (λ a b. omega arith) voter domain)
