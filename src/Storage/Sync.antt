-- ===== src/Storage/Sync.antt =====
-- storage/db/sync.rs, storage/db/merkle.rs and the reputation counts of storage/db/mod.rs: what a node
-- reads from the log for its peers. The log is an argument, since these operations do not change it.
use randbotd.Base.{
  if◌then◌else◌, ℕ, ◌+◌, ◌-◌, ◌/◌, Bool, true, false, not, ◌&&◌, ◌||◌, Option, none, some, List, [],
  ◌∷◌, ◌++◌, map, leb, ◌==◌, bytes_eq, length, filter, any, rfind,
}
use randbotd.Base.Bytes.{Bytes, concat}
use randbotd.Base.Crypto.{Crypto}
use randbotd.History.{
  EventLogEntry, SequenceRange, OriginatorRangeVector, payload_type_equivocation_proof,
  compute_hash, has_sequence,
}
use randbotd.Storage.{range_hash}

pub record MerkleNode : Type 0 where
  pub hash : Bytes
  pub range : SequenceRange

-- What counts against an originator: flagged events and equivocation proofs.
abbrev pub is_against : EventLogEntry → Bool
is_against e = e.is_bullshit || e.payload_type == payload_type_equivocation_proof

-- The valid events of an originator and those that count against it.
unfoldable pub get_originator_reputation : List EventLogEntry → Bytes → ℕ × ℕ
get_originator_reputation [] originator = (0, 0)
get_originator_reputation (e ∷ log) originator =
    let (valid, bullshit) = get_originator_reputation log originator in
    if bytes_eq e.originator originator
    then (if is_against e then (valid, bullshit + 1) else (valid + 1, bullshit))
    else (valid, bullshit)

unfoldable pub is_equivocator : List EventLogEntry → Bytes → Bool
is_equivocator log originator =
    any (λ e. bytes_eq e.originator originator && e.payload_type == payload_type_equivocation_proof)
      log

-- The two halves of a range.
unfoldable pub left_half : SequenceRange → SequenceRange
left_half r = record { start = r.start; end = r.start + (r.end - r.start) / 2 }

unfoldable pub right_half : SequenceRange → SequenceRange
right_half r = record { start = r.start + (r.end - r.start) / 2 + 1; end = r.end }

abbrev pub node_of : SequenceRange → Option Bytes → Option MerkleNode
node_of r none = none
node_of r (some hash) = some (record { hash = hash; range = r })

module _ (c : Crypto) (encode_proof : EventLogEntry → EventLogEntry → Bytes) where
  unfoldable pub get_merkle_children :
      List EventLogEntry → Bytes → SequenceRange → Option MerkleNode × Option MerkleNode
  unfolding left_half right_half
  get_merkle_children log originator target_range =
      let left = left_half target_range in
      let right = right_half target_range in
      if leb target_range.end target_range.start then (none, none) else (
        node_of left (range_hash c encode_proof log originator left.start left.end),
        node_of right (range_hash c encode_proof log originator right.start right.end),
      )

  -- The hash over all events of an originator.
  unfoldable pub originator_root : List EventLogEntry → Bytes → Bytes
  originator_root log originator =
      c.sha256 (concat (map (compute_hash c) (filter (λ e. bytes_eq e.originator originator) log)))

  -- The peer states a root, and it is not the local one.
  abbrev pub mismatch : Option Bytes → Bytes → Bool
  mismatch none local_root = false
  mismatch (some root) local_root = not (bytes_eq root local_root)

  -- The body of the loop: the peer's last vector for the originator decides.
  unfoldable pub is_missing : List EventLogEntry → List OriginatorRangeVector → EventLogEntry → Bool
  is_missing log peer_vectors entry =
      elim (rfind (λ v. bytes_eq v.originator entry.originator) peer_vectors) [
        | none ↦ true
        | some peer_vec ↦
            not (has_sequence peer_vec entry.seq)
            || (mismatch peer_vec.merkle_root (originator_root log entry.originator)
                && is_against entry)
      ]

  unfoldable pub missing_from :
      (EventLogEntry → Bool) → ℕ → List EventLogEntry → List EventLogEntry → List EventLogEntry
  missing_from lacks max_entries [] missing = missing
  missing_from lacks max_entries (e ∷ log) missing =
      if leb max_entries (length missing)
      then missing
      else if lacks e
      then missing_from lacks max_entries log (missing ++ e ∷ [])
      else missing_from lacks max_entries log missing

  unfoldable pub find_missing_entries_for_peer :
      List EventLogEntry → List OriginatorRangeVector → ℕ → List EventLogEntry
  unfolding missing_from
  find_missing_entries_for_peer log peer_vectors max_entries =
      missing_from (is_missing log peer_vectors) max_entries log []
