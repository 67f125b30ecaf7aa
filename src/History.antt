-- ===== src/History.antt =====
-- net/history.rs: event log entries and the ranges of sequence numbers that anti-entropy exchanges.
pub mod Signed
pub mod Ranges
use randbotd.Base.{
  ℕ, zero, suc, ◌+◌, Bool, true, false, not, ◌&&◌, ◌||◌, Option, List, [], ◌∷◌, leb, ◌==◌, length,
}
use randbotd.Base.Result.{Result, ok, fail_if, ◌>>=◌, ◌>>◌}
use randbotd.Base.Bytes.{Bytes, to_be_bytes, concat}
use randbotd.Base.Crypto.{Crypto}
use randbotd.Base.{any}
use randbotd.Gossip.{default_gossip_ttl, frame_signed_data, message_id}

abbrev pub payload_type_equivocation_proof : ℕ
payload_type_equivocation_proof = 13

abbrev pub transient_payload_types : List ℕ
transient_payload_types = 0 ∷ 1 ∷ 5 ∷ 6 ∷ 7 ∷ 8 ∷ []

unfoldable pub is_transient : ℕ → Bool
is_transient payload_type = any (λ t. t == payload_type) transient_payload_types

pub record EventLogEntry : Type 0 where
  pub seq : ℕ
  pub prev_hash : Bytes
  pub originator : Bytes
  pub payload_type : ℕ
  pub payload : Bytes
  pub signature_bytes : Bytes
  pub is_bullshit : Bool

pub data EntryError : Type 0 where
  transient signature_length : ℕ → EntryError
  invalid_key bad_signature : EntryError

abbrev pub bool_octet : Bool → ℕ
bool_octet true = 1
bool_octet false = 0

-- The octets that a signature of the log format covers.
unfoldable pub entry_signed_data : ℕ → Bytes → ℕ → Bytes → Bytes
entry_signed_data seq prev_hash payload_type payload =
    concat (to_be_bytes 8 seq ∷ prev_hash ∷ (payload_type ∷ []) ∷ payload ∷ [])

module _ (c : Crypto) where
  unfoldable pub compute_hash : EventLogEntry → Bytes
  compute_hash e = c.sha256 (
      concat (
        to_be_bytes 8 e.seq
        ∷ e.prev_hash
        ∷ e.originator
        ∷ (e.payload_type ∷ [])
        ∷ e.payload
        ∷ e.signature_bytes
        ∷ (bool_octet e.is_bullshit ∷ [])
        ∷ []))

  -- The wire frame format with one time-to-live.
  pub accepts_frame : EventLogEntry → ℕ → Bool
  accepts_frame e ttl =
      let msg_id = message_id c e.originator e.seq e.payload_type e.payload in
      c.verify e.originator
        (frame_signed_data msg_id e.originator e.seq ttl e.payload_type e.payload) e.signature_bytes

  -- `for ttl in ttl..ttl + rounds`.
  pub accepts_some_frame : EventLogEntry → ℕ → ℕ → Bool
  unfolding accepts_frame
  accepts_some_frame e zero ttl = false
  accepts_some_frame e (suc rounds) ttl =
      accepts_frame e ttl || accepts_some_frame e rounds (ttl + 1)

  unfoldable pub verify_entry : EventLogEntry → Result EntryError (Unit {0})
  unfolding accepts_some_frame
  verify_entry e = do
    fail_if (not (c.valid_key e.originator)) invalid_key
    fail_if (not (length e.signature_bytes == 64)) (signature_length (length e.signature_bytes))
    fail_if
        (not (
          c.verify e.originator (entry_signed_data e.seq e.prev_hash e.payload_type e.payload)
            e.signature_bytes
          || accepts_some_frame e default_gossip_ttl 1))
        bad_signature

  unfoldable pub new_entry : ℕ → Bytes → Bytes → ℕ → Bytes → Bytes → Result EntryError EventLogEntry
  new_entry seq prev_hash originator payload_type payload signature_bytes = do
    fail_if (is_transient payload_type) (transient payload_type)
    let entry : EventLogEntry = record {
      seq = seq;
      prev_hash = prev_hash;
      originator = originator;
      payload_type = payload_type;
      payload = payload;
      signature_bytes = signature_bytes;
      is_bullshit = false;
    }
    verify_entry entry
    ok entry

pub record SequenceRange : Type 0 where
  pub start : ℕ
  pub end : ℕ

unfoldable pub contains : SequenceRange → ℕ → Bool
contains r seq = leb r.start seq && leb seq r.end

pub record OriginatorRangeVector : Type 0 where
  pub originator : Bytes
  pub known_ranges : List SequenceRange
  pub merkle_root : Option Bytes

unfoldable pub has_sequence : OriginatorRangeVector → ℕ → Bool
unfolding contains
has_sequence v seq = any (λ r. contains r seq) v.known_ranges
