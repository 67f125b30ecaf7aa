-- ===== src/Tables/Votes.antt =====
-- storage/db/subtables/vote_subtable.rs, and the vote index of crypto/vote/cluster/mod.rs.
pub mod Chains
pub mod Cast
pub mod Ballots
use randbotd.Base.{
  text_lt, ℕ, ◌-◌, ◌*◌, Bool, true, false, not, ◌&&◌, Option, none, some, List, [], ◌∷◌, ltb, leb,
  ◌==◌, bytes_eq, length, if◌then◌else◌, filter, any, last, rfind,
}
use randbotd.Base.Result.{Result, ok, map_err, ◌>>=◌, ◌>>◌}
use randbotd.Base.Bytes.{Bytes}
use randbotd.Base.Text.{Text, trim, to_ascii_lowercase}
use randbotd.Base.Crypto.{Crypto}
use randbotd.Base.Dict.{get, put, values, contains_key, get_or_default}
use randbotd.Chain.Latest.{check_latest, sort_by_seq}
use randbotd.Vote.Accepted.{vote_links}
use randbotd.Vote.{VoteRecord, VoteAction, tw, utw, validate_against_chain}
use randbotd.Tables.{
  Tables, TableError, discontinuous, invalid_vote, InvertedVoteIndex, persist, after,
}

abbrev pub active_votes_rolling_window_secs : ℕ
active_votes_rolling_window_secs = 365 * 86400

unfoldable pub insert_or_update_vote :
    InvertedVoteIndex → Bytes → Text → VoteAction → InvertedVoteIndex
insert_or_update_vote index voter_pubkey domain action =
    let clean_domain = to_ascii_lowercase (trim domain) in
    record {
      domain_postings =
          put index.domain_postings clean_domain
            (put (get_or_default index.domain_postings clean_domain []) voter_pubkey action);
      voter_postings =
          put index.voter_postings voter_pubkey
            (put (get_or_default index.voter_postings voter_pubkey []) clean_domain action);
    }

abbrev pub is_cast_by : Bytes → VoteRecord → Bool
is_cast_by voter v = bytes_eq v.voter_pubkey voter

abbrev pub votes_of : Tables → Bytes → List VoteRecord
votes_of t voter = filter (is_cast_by voter) (values t.vote_store)

unfoldable pub get_votes_for_originator : Tables → Bytes → List VoteRecord
get_votes_for_originator t originator = sort_by_seq vote_links (votes_of t originator)

unfoldable pub get_vote : Tables → Bytes → Option VoteRecord
get_vote t vote_id = get t.vote_store vote_id

unfoldable pub get_latest_vote_for_originator : Tables → Bytes → Option VoteRecord
get_latest_vote_for_originator t originator = last (get_votes_for_originator t originator)

-- One year before the latest vote, or 0.
unfoldable pub window_cutoff : Option VoteRecord → ℕ
window_cutoff none = 0
window_cutoff (some latest) = latest.timestamp - active_votes_rolling_window_secs

-- The set of the domains that were voted on since the cutoff.
unfoldable pub active_domains : ℕ → List VoteRecord → List Text
active_domains cutoff [] = []
active_domains cutoff (v ∷ vs) =
    let rest = active_domains cutoff vs in
    if leb cutoff v.timestamp && not (any (bytes_eq v.domain) rest) then v.domain ∷ rest else rest

unfoldable pub count_revisions : ℕ → Text → List VoteRecord → ℕ
count_revisions cutoff domain votes =
    length (filter (λ v. leb cutoff v.timestamp && bytes_eq v.domain domain) votes)

-- The context that `insert_vote` computes, for a domain as it stands in the vote.
unfoldable pub context_of : List VoteRecord → Text → Option VoteRecord × ℕ × ℕ
context_of votes domain =
    let latest = last votes in
    let cutoff = window_cutoff latest in
    (latest, length (active_domains cutoff votes), count_revisions cutoff domain votes)

unfoldable pub get_vote_context : Tables → Bytes → Text → Option VoteRecord × ℕ × ℕ
get_vote_context t originator domain =
    context_of (get_votes_for_originator t originator) (to_ascii_lowercase (trim domain))

unfoldable pub get_active_vote_for_originator_and_domain : Tables → Bytes → Text → Option VoteRecord
get_active_vote_for_originator_and_domain t originator domain =
    let clean_domain = to_ascii_lowercase (trim domain) in
    rfind (λ v. bytes_eq v.domain clean_domain) (get_votes_for_originator t originator)

module _ (c : Crypto) where
  -- The checks of `insert_vote`.
  unfoldable pub check_vote : Tables → VoteRecord → Result TableError (Unit {0})
  check_vote t v = do
    let votes = get_votes_for_originator t v.voter_pubkey
    let (latest, active_votes, revisions) = context_of votes v.domain
    map_err discontinuous (check_latest vote_links v latest)
    map_err invalid_vote (validate_against_chain c v latest active_votes revisions)

  unfoldable pub store_vote : Tables → VoteRecord → Tables
  store_vote t v = record t {
    cluster_index = insert_or_update_vote t.cluster_index v.voter_pubkey v.domain v.action;
    vote_store = put t.vote_store v.vote_id v;
  }

  unfoldable pub insert_vote : Tables → VoteRecord → Tables × Result TableError Bytes
  insert_vote t v =
      if contains_key t.vote_store v.vote_id
      then (t, ok v.vote_id)
      else after (check_vote t v) t (persist (store_vote t v) v.vote_id)

-- The active votes: of each voter and domain the one with the highest number.
abbrev pub is_same_ballot : VoteRecord → VoteRecord → Bool
is_same_ballot v w = bytes_eq w.voter_pubkey v.voter_pubkey && bytes_eq w.domain v.domain

-- One step of the loop over the store: `active_map` as the list of its values.
unfoldable pub keep_highest : List VoteRecord → VoteRecord → List VoteRecord
keep_highest [] v = v ∷ []
keep_highest (w ∷ ws) v =
    let rest = keep_highest ws v in
    if is_same_ballot v w then (if ltb w.vote_seq v.vote_seq then v ∷ ws else w ∷ ws) else w ∷ rest

abbrev pub passes {ℓ} : {A : Type ℓ} → Option A → (A → Bool) → Bool
passes none p = true
passes (some a) p = p a

unfoldable pub collect_active :
    Option Text → Option Bytes → List VoteRecord → List VoteRecord → List VoteRecord
collect_active domain voter active [] = active
collect_active domain voter active (v ∷ vs) =
    collect_active domain voter
      (if passes domain (bytes_eq v.domain) && passes voter (bytes_eq v.voter_pubkey)
        then keep_highest active v
        else active)
      vs

-- `a.domain.cmp(&b.domain).then(a.vote_seq.cmp(&b.vote_seq))`, as less or equal.
unfoldable pub ballot_leb : VoteRecord → VoteRecord → Bool
ballot_leb v w =
    if bytes_eq v.domain w.domain then leb v.vote_seq w.vote_seq else text_lt v.domain w.domain

unfoldable pub insert_ballot : VoteRecord → List VoteRecord → List VoteRecord
insert_ballot v [] = v ∷ []
insert_ballot v (w ∷ ws) =
    let rest = insert_ballot v ws in if ballot_leb v w then v ∷ w ∷ ws else w ∷ rest

unfoldable pub sort_ballots : List VoteRecord → List VoteRecord
sort_ballots [] = []
sort_ballots (v ∷ vs) = insert_ballot v (sort_ballots vs)

abbrev clean_option : Option Text → Option Text
clean_option none = none
clean_option (some d) = some (to_ascii_lowercase (trim d))

unfoldable pub list_active_domain_votes : Tables → Option Text → Option Bytes → List VoteRecord
unfolding keep_highest collect_active text_lt ballot_leb insert_ballot sort_ballots
list_active_domain_votes t domain voter =
    sort_ballots (collect_active (clean_option domain) voter [] (values t.vote_store))

pub record DomainVoteStatus : Type 0 where
  pub domain : Text
  pub has_voted : Bool
  pub my_vote : Option VoteRecord
  pub revisions_on_domain : ℕ
  pub total_active_votes : ℕ
  pub tw_count : ℕ
  pub utw_count : ℕ

abbrev is_tw : VoteRecord → Bool
is_tw v = elim v.action [ tw ↦ true | utw ↦ false ]

abbrev own_vote : Tables → Option Bytes → Text → Option VoteRecord × ℕ
own_vote t none domain = (none, 0)
own_vote t (some pk) domain =
    let votes = get_votes_for_originator t pk in
    (
      get_active_vote_for_originator_and_domain t pk domain,
      count_revisions (window_cutoff (last votes)) domain votes,
    )

abbrev is_voted : Option VoteRecord → Bool
is_voted none = false
is_voted (some v) = true

unfoldable pub get_domain_vote_status : Tables → Option Bytes → Text → DomainVoteStatus
unfolding list_active_domain_votes
get_domain_vote_status t my_pubkey domain =
    let clean_domain = to_ascii_lowercase (trim domain) in
    let (my_vote, revisions) = own_vote t my_pubkey clean_domain in
    let active = list_active_domain_votes t (some clean_domain) none in
    record {
      domain = clean_domain;
      has_voted = is_voted my_vote;
      my_vote = my_vote;
      revisions_on_domain = revisions;
      total_active_votes = length active;
      tw_count = length (filter is_tw active);
      utw_count = length (filter (λ v. not (is_tw v)) active);
    }
