-- ===== src/Examples/Frames.antt =====
-- The theorems on frames and signed entries, at concrete messages.
use randbotd.Base.{◌≡◌, refl, true, false, [], ◌∷◌, ◌++◌, arith, ltb, replicate, all}
use randbotd.Base.Result.{ok, ◌>>◌}
use randbotd.Base.Bytes.{Bytes, to_be_bytes, length-to_be_bytes, concat, IsBytes}
use randbotd.Examples.{toy, toy_laws, key}
use randbotd.Gossip.{
  GossipMessage, to_bytes, message_id, frame_signed_data, new_message, verify_message, from_bytes,
}
use randbotd.Gossip.Frame.{IsFrame, from_bytes-to_bytes}
use randbotd.Gossip.Parse.{from_bytes_sound, new_message-from_bytes}
use randbotd.History.{EventLogEntry, is_transient, verify_entry, new_entry}
use randbotd.History.Signed.{entry_of, new_message-verify_entry}

-- The octets of a list, by a test.
octets : (xs : Bytes) → all (λ b. ltb b 256) xs ≡ true → IsBytes xs
octets [] h = tt
octets (x ∷ xs) h = (ground arith, octets xs (ground arith))

abbrev message : GossipMessage
message = new_message toy key 7 8 2 (1 ∷ 2 ∷ [])

message-IsFrame : IsFrame message
unfolding new_message message_id
message-IsFrame = record {
  id_size = length-to_be_bytes 32 _;
  key_size = length-to_be_bytes 32 _;
  seq_fits = omega arith;
  payload_fits = omega arith;
  signature_size = length-to_be_bytes 64 _;
}

from_bytes-to_bytes_example :
    from_bytes toy (to_bytes message ++ 9 ∷ []) ≡ (verify_message toy message >> ok message)
from_bytes-to_bytes_example = from_bytes-to_bytes message message-IsFrame (9 ∷ []) toy

new_message-from_bytes_example : from_bytes toy (to_bytes message) ≡ ok message
new_message-from_bytes_example =
    new_message-from_bytes toy toy_laws key 7 8 2 (1 ∷ 2 ∷ []) (omega arith) (omega arith)

message-read : from_bytes toy (to_bytes message) ≡ ok message
message-read =
    new_message-from_bytes toy toy_laws key 7 8 2 (1 ∷ 2 ∷ []) (omega arith) (omega arith)

message-IsBytes : IsBytes (to_bytes message)
unfolding to_bytes new_message message_id to_be_bytes concat frame_signed_data
message-IsBytes = octets (to_bytes message) refl

from_bytes_sound_example :
    IsFrame message
    × ((rest : Bytes) × (to_bytes message ≡ to_bytes message ++ rest))
    × (verify_message toy message ≡ ok tt)
from_bytes_sound_example =
    from_bytes_sound toy (to_bytes message) message message-IsBytes message-read

new_message-verify_entry_example :
    verify_entry toy (entry_of message (replicate 32 3) false) ≡ ok tt
new_message-verify_entry_example =
    new_message-verify_entry toy toy_laws key 7 8 2 (1 ∷ 2 ∷ []) (replicate 32 3) false
      (omega arith) (omega arith)

abbrev logged : EventLogEntry
logged = entry_of message (replicate 32 0) false

logged-made :
    new_entry toy 7 (replicate 32 0) message.originator_pubkey 2 (1 ∷ 2 ∷ []) message.signature
    ≡ ok logged
unfolding new_entry is_transient verify_entry new_message
logged-made =
    rw
      (new_message-verify_entry toy toy_laws key 7 8 2 (1 ∷ 2 ∷ []) (replicate 32 0) false
        (omega arith) (omega arith))
      refl
