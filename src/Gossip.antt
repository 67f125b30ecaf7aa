-- ===== src/Gossip.antt =====
-- net/frame.rs and net/gossip.rs: the wire frame of gossip messages.
pub mod Frame
pub mod Parse
use randbotd.Base.{
  ℕ, ◌+◌, ◌%◌, Bool, false, not, [], ◌∷◌, ltb, if◌then◌else◌, bytes_eq, length, get_or, slice,
}
use randbotd.Base.Result.{Result, ok, fail_if, ◌>>=◌, ◌>>◌}
use randbotd.Base.Bytes.{Bytes, from_be_bytes, to_be_bytes, concat, u32_mod}
use randbotd.Base.Text.{codes}
use randbotd.Base.Crypto.{Crypto}

abbrev pub magic_bytes : Bytes
magic_bytes = codes "RBd1"

-- The first octets of a packet.
unfoldable pub validate_magic_bytes : Bytes → Bool
validate_magic_bytes buf =
    if ltb (length buf) 4 then false else bytes_eq (slice 0 4 buf) magic_bytes

abbrev pub default_gossip_ttl : ℕ
default_gossip_ttl = 8

pub data GossipError : Type 0 where
  too_short invalid_magic incomplete_payload invalid_key bad_signature : GossipError

pub record GossipMessage : Type 0 where
  pub msg_id : Bytes
  pub originator_pubkey : Bytes
  pub seq : ℕ
  pub ttl : ℕ
  pub payload_type : ℕ
  pub payload : Bytes
  pub signature : Bytes

-- The octets that the signature of a frame covers.
unfoldable pub frame_signed_data : Bytes → Bytes → ℕ → ℕ → ℕ → Bytes → Bytes
frame_signed_data msg_id originator seq ttl payload_type payload = concat (
    magic_bytes
    ∷ msg_id
    ∷ originator
    ∷ to_be_bytes 8 seq
    ∷ (ttl ∷ [])
    ∷ (payload_type ∷ [])
    ∷ payload
    ∷ [])

-- The header and the payload as they stand in the buffer, then the signature.
unfoldable pub to_bytes : GossipMessage → Bytes
to_bytes m = concat (
    magic_bytes
    ∷ m.msg_id
    ∷ m.originator_pubkey
    ∷ to_be_bytes 8 m.seq
    ∷ (m.ttl ∷ [])
    ∷ (m.payload_type ∷ [])
    ∷ to_be_bytes 4 (length m.payload % u32_mod)
    ∷ m.payload
    ∷ m.signature
    ∷ [])

module _ (c : Crypto) where
  unfoldable pub message_id : Bytes → ℕ → ℕ → Bytes → Bytes
  message_id originator seq payload_type payload =
      c.sha256 (concat (originator ∷ to_be_bytes 8 seq ∷ (payload_type ∷ []) ∷ payload ∷ []))

  -- `GossipMessage::new`.
  unfoldable pub new_message : Bytes → ℕ → ℕ → ℕ → Bytes → GossipMessage
  unfolding message_id frame_signed_data
  new_message signing_key seq ttl payload_type payload =
      let originator = c.verifying_key signing_key in
      let msg_id = message_id originator seq payload_type payload in
      record {
        msg_id = msg_id;
        originator_pubkey = originator;
        seq = seq;
        ttl = ttl;
        payload_type = payload_type;
        payload = payload;
        signature =
            c.sign signing_key (frame_signed_data msg_id originator seq ttl payload_type payload);
      }

  pub verify_message : GossipMessage → Result GossipError (Unit {0})
  unfolding frame_signed_data
  verify_message m = do
    fail_if (not (c.valid_key m.originator_pubkey)) invalid_key
    let signed_data =
        frame_signed_data m.msg_id m.originator_pubkey m.seq m.ttl m.payload_type m.payload
    fail_if (not (c.verify m.originator_pubkey signed_data m.signature)) bad_signature

  -- The message that a buffer holds, with a payload of `payload_len` octets.
  pub parse_message : Bytes → ℕ → GossipMessage
  parse_message buf payload_len = record {
    msg_id = slice 4 36 buf;
    originator_pubkey = slice 36 68 buf;
    seq = from_be_bytes (slice 68 76 buf);
    ttl = get_or buf 76 0;
    payload_type = get_or buf 77 0;
    payload = slice 82 (82 + payload_len) buf;
    signature = slice (82 + payload_len) (82 + payload_len + 64) buf;
  }

  pub from_bytes : Bytes → Result GossipError GossipMessage
  from_bytes buf = do
    fail_if (ltb (length buf) 146) too_short
    fail_if (not (bytes_eq (slice 0 4 buf) magic_bytes)) invalid_magic
    let payload_len = from_be_bytes (slice 78 82 buf)
    fail_if (ltb (length buf) (82 + payload_len + 64)) incomplete_payload
    let msg = parse_message buf payload_len
    verify_message msg
    ok msg
