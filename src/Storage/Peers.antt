-- ===== src/Storage/Peers.antt =====
-- storage/db/sync.rs and storage/db/merkle.rs: what a peer is sent, how a range is halved, and what is
-- counted for an originator.
use randbotd.Base.{
  ℕ, zero, suc, ◌+◌, ◌-◌, ◌<◌, ◌≡◌, ◌∙◌, sym, refl, ◌↔◌, Bool, true, false, ◌&&◌, ◌||◌, Bool-cases,
  inl, inr, List, [], ◌∷◌, ◌++◌, arith, leb, ◌==◌, bytes_eq, length, length-append, append_assoc,
  append-nil, take, filter,
}
use randbotd.Base.Bytes.{Bytes}
use randbotd.Base.Crypto.{Crypto}
use randbotd.History.{EventLogEntry, SequenceRange, contains, OriginatorRangeVector}
use randbotd.Storage.Lacking.{IsLacking, is_missing_iff}
use randbotd.Storage.Sync.{
  get_originator_reputation, is_equivocator, left_half, right_half, is_missing, missing_from,
  find_missing_entries_for_peer,
}

module _ (c : Crypto) (encode_proof : EventLogEntry → EventLogEntry → Bytes) where
  missing_from_lem :
      (lacks : EventLogEntry → Bool) (limit room : ℕ) (log missing : List EventLogEntry)
      → limit ≡ length missing + room
      → missing_from c encode_proof lacks limit log missing
        ≡ missing ++ take room (filter lacks log)
  unfolding missing_from
  missing_from_lem lacks limit zero [] missing h = sym (append-nil missing)
  missing_from_lem lacks limit (suc room) [] missing h = sym (append-nil missing)
  missing_from_lem lacks limit zero (e ∷ log) missing h =
      elim (Bool-cases (leb limit (length missing))) [
        | inl full ↦ rw (full, missing_from) (sym (append-nil missing))
        | inr free ↦ absurd (ground arith)
      ]
  missing_from_lem lacks limit (suc room) (e ∷ log) missing h =
      elim (Bool-cases (leb limit (length missing))) [
        | inl full ↦ absurd (ground arith)
        | inr free ↦ elim (Bool-cases (lacks e)) [
          | inl hit ↦
              rw (free, hit, missing_from)
                (missing_from_lem lacks limit room log (missing ++ e ∷ [])
                    (omega (arith, length-append missing (e ∷ [])))
                  ∙ append_assoc missing (e ∷ []) _)
          | inr miss ↦
              rw (free, miss, missing_from) (missing_from_lem lacks limit (suc room) log missing h)
        ]
      ]

  -- A peer is sent the first `max_entries` events, in log order, that a test picks which holds of exactly the
  -- events that the peer lacks: it sent no vector of the originator, or the last one it sent has no range with
  -- the event's number, or states a root that is not the hash of the log's events of the originator while the
  -- event is flagged or a proof of equivocation.
  pub find_missing_entries_for_peer_lem :
      (log : List EventLogEntry) (peer_vectors : List OriginatorRangeVector) (max_entries : ℕ)
      → (lacks : EventLogEntry → Bool) × ((e : EventLogEntry)
          → (lacks e ≡ true) ↔ IsLacking c log peer_vectors e)
        × (find_missing_entries_for_peer c encode_proof log peer_vectors max_entries
            ≡ take max_entries (filter lacks log))
  unfolding find_missing_entries_for_peer
  find_missing_entries_for_peer_lem log vs limit = (
    is_missing c encode_proof log vs,
    is_missing_iff c encode_proof log vs,
    missing_from_lem (is_missing c encode_proof log vs) limit limit log [] (omega arith),
  )

-- Drilling into a range of more than one number: each of its numbers lies in exactly one half, the halves
-- hold nothing else, and both are shorter.
pub halves_exact :
    (r : SequenceRange) (s : ℕ)
    → r.start < r.end
    → (contains r s ≡ (contains (left_half r) s || contains (right_half r) s))
      × ((contains (left_half r) s && contains (right_half r) s) ≡ false)
      × ((left_half r).end - (left_half r).start < r.end - r.start)
      × ((right_half r).end - (right_half r).start < r.end - r.start)
unfolding contains left_half right_half
halves_exact r s h = (ground arith, ground arith, omega arith, omega arith)

-- The two counts of a reputation add up to the originator's events, and an equivocator has one against it.
pub get_originator_reputation_lem :
    (log : List EventLogEntry) (originator : Bytes)
    → ((get_originator_reputation log originator).0 + (get_originator_reputation log originator).1
        ≡ length (filter (λ e. bytes_eq e.originator originator) log))
      × ((is_equivocator log originator && (get_originator_reputation log originator).1 == 0)
          ≡ false)
unfolding get_originator_reputation is_equivocator
get_originator_reputation_lem [] o = (refl, refl)
get_originator_reputation_lem (e ∷ log) o = ground (arith, get_originator_reputation_lem log o)
