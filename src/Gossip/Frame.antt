-- ===== src/Gossip/Frame.antt =====
-- net/gossip.rs: the layout of a frame, from `to_bytes` to `from_bytes`.
use randbotd.Base.{
  ◌+◌, ◌%◌, ◌<◌, ◌≡◌, refl, ap, ◌∙◌, [], ◌∷◌, ◌++◌, append_assoc, append-nil, arith, le→ltb_false,
  bytes_eq_refl, length, drop, length-append, slice, slice_part, get_or_part,
}
use randbotd.Base.Result.{ok, ◌>>◌}
use randbotd.Base.Bytes.{
  Bytes, from_be_bytes, to_be_bytes, length-to_be_bytes, from_be_bytes-to_be_bytes, concat, u32_mod,
  u64_mod,
}
use randbotd.Base.Crypto.{Crypto}
use randbotd.Gossip.{
  magic_bytes, GossipMessage, to_bytes, verify_message, parse_message, from_bytes,
}

-- The sizes that the fixed arrays and machine integers of the source give.
pub record IsFrame (m : GossipMessage) : Type 0 where
  pub id_size : length m.msg_id ≡ 32
  pub key_size : length m.originator_pubkey ≡ 32
  pub seq_fits : m.seq < u64_mod
  pub payload_fits : length m.payload < u32_mod
  pub signature_size : length m.signature ≡ 64

module _ (m : GossipMessage) (f : IsFrame m) (rest : Bytes) where
  abbrev seq_bytes : Bytes
  seq_bytes = to_be_bytes 8 m.seq

  abbrev len_bytes : Bytes
  len_bytes = to_be_bytes 4 (length m.payload % u32_mod)

  abbrev buffer : Bytes
  buffer = to_bytes m ++ rest

  abbrev before_seq : Bytes
  before_seq = magic_bytes ++ m.msg_id ++ m.originator_pubkey

  abbrev before_len : Bytes
  before_len = before_seq ++ seq_bytes ++ (m.ttl ∷ m.payload_type ∷ [])

  length-before_seq : length before_seq ≡ 68
  length-before_seq = omega (
    arith,
    length-append (magic_bytes ++ m.msg_id) m.originator_pubkey,
    length-append magic_bytes m.msg_id,
    f.id_size,
    f.key_size,
  )

  length-before_len : length before_len ≡ 78
  length-before_len = omega (
    arith,
    length-before_seq,
    length-append (before_seq ++ seq_bytes) (m.ttl ∷ m.payload_type ∷ []),
    length-append before_seq seq_bytes,
    length-to_be_bytes 8 m.seq,
  )

  layout : buffer ≡ before_len ++ (len_bytes ++ (m.payload ++ (m.signature ++ rest)))
  unfolding to_bytes concat
  layout = simp (append_assoc, append-nil)

  layout_seq :
      buffer
      ≡ before_seq
        ++ (seq_bytes
            ++ (m.ttl ∷ m.payload_type ∷ len_bytes ++ (m.payload ++ (m.signature ++ rest))))
  layout_seq = layout ∙ simp append_assoc

  layout_id :
      buffer
      ≡ magic_bytes
        ++ (m.msg_id
            ++ (m.originator_pubkey
                ++ (seq_bytes
                    ++ (m.ttl ∷ m.payload_type ∷ len_bytes
                        ++ (m.payload ++ (m.signature ++ rest))))))
  layout_id = layout ∙ simp append_assoc

  length-buffer : length buffer ≡ 146 + length m.payload + length rest
  length-buffer = omega (
    arith,
    ap length layout,
    length-before_len,
    length-append before_len (len_bytes ++ (m.payload ++ (m.signature ++ rest))),
    length-append len_bytes (m.payload ++ (m.signature ++ rest)),
    length-append m.payload (m.signature ++ rest),
    length-append m.signature rest,
    length-to_be_bytes 4 (length m.payload % u32_mod),
    f.signature_size,
  )

  after_magic : Bytes
  after_magic = drop 4 buffer

  magic_read : slice 0 4 buffer ≡ magic_bytes
  magic_read = slice_part 0 4 buffer [] magic_bytes _ layout_id refl refl

  payload_len_read : from_be_bytes (slice 78 82 buffer) ≡ length m.payload
  payload_len_read =
      rw
        (slice_part 78 82 buffer before_len len_bytes (m.payload ++ (m.signature ++ rest)) layout
          length-before_len (omega (arith, length-to_be_bytes 4 (length m.payload % u32_mod))))
        (from_be_bytes-to_be_bytes 4 (length m.payload % u32_mod) (omega arith)
          ∙ omega (arith, f.payload_fits))

  header : Bytes
  header = before_len ++ len_bytes

  length-header : length header ≡ 82
  unfolding header
  length-header = omega (
    arith,
    length-append before_len len_bytes,
    length-before_len,
    length-to_be_bytes 4 (length m.payload % u32_mod),
  )

  layout_payload : buffer ≡ header ++ (m.payload ++ (m.signature ++ rest))
  unfolding header
  layout_payload = layout ∙ simp append_assoc

  layout_signature : buffer ≡ (header ++ m.payload) ++ (m.signature ++ rest)
  layout_signature = layout_payload ∙ simp append_assoc

  layout_key :
      buffer
      ≡ (magic_bytes ++ m.msg_id)
        ++ (m.originator_pubkey
            ++ (seq_bytes
                ++ (m.ttl ∷ m.payload_type ∷ len_bytes ++ (m.payload ++ (m.signature ++ rest)))))
  layout_key = layout ∙ simp append_assoc

  layout_ttl :
      buffer
      ≡ (before_seq ++ seq_bytes)
        ++ (m.ttl ∷ (m.payload_type ∷ len_bytes ++ (m.payload ++ (m.signature ++ rest))))
  layout_ttl = layout ∙ simp append_assoc

  layout_type :
      buffer
      ≡ (before_seq ++ seq_bytes ++ m.ttl ∷ [])
        ++ (m.payload_type ∷ (len_bytes ++ (m.payload ++ (m.signature ++ rest))))
  layout_type = layout ∙ simp append_assoc

  length-before_ttl : length (before_seq ++ seq_bytes) ≡ 76
  length-before_ttl =
      omega
        (arith, length-append before_seq seq_bytes, length-before_seq, length-to_be_bytes 8 m.seq)

  parse_message-to_bytes : (c : Crypto) → parse_message c buffer (length m.payload) ≡ m
  unfolding parse_message
  parse_message-to_bytes c = λ i. record {
    msg_id =
        slice_part 4 36 buffer magic_bytes m.msg_id _ layout_id refl (omega (arith, f.id_size)) i;
    originator_pubkey =
        slice_part 36 68 buffer (magic_bytes ++ m.msg_id) m.originator_pubkey _ layout_key
          (omega (arith, length-append magic_bytes m.msg_id, f.id_size)) (omega (arith, f.key_size))
          i;
    seq =
        (ap from_be_bytes (
              slice_part 68 76 buffer before_seq seq_bytes _ layout_seq length-before_seq
                (omega (arith, length-to_be_bytes 8 m.seq)))
            ∙ from_be_bytes-to_be_bytes 8 m.seq f.seq_fits)
          i;
    ttl = get_or_part 76 0 buffer (before_seq ++ seq_bytes) m.ttl _ layout_ttl length-before_ttl i;
    payload_type =
        get_or_part 77 0 buffer (before_seq ++ seq_bytes ++ m.ttl ∷ []) m.payload_type _ layout_type
          (omega (arith, length-append (before_seq ++ seq_bytes) (m.ttl ∷ []), length-before_ttl))
          i;
    payload =
        slice_part 82 (82 + length m.payload) buffer header m.payload _ layout_payload length-header
          refl i;
    signature =
        slice_part (82 + length m.payload) (82 + length m.payload + 64) buffer (header ++ m.payload)
          m.signature rest layout_signature
          (omega (arith, length-append header m.payload, length-header))
          (omega (arith, f.signature_size)) i;
  }

  -- A buffer that begins with the frame of a message is read as that message, checked by its signature;
  -- what follows the frame is not looked at.
  pub from_bytes-to_bytes :
      (c : Crypto) → from_bytes c (to_bytes m ++ rest) ≡ (verify_message c m >> ok m)
  unfolding from_bytes
  from_bytes-to_bytes c =
      rw
        (
          le→ltb_false (length buffer) 146 (omega (arith, length-buffer)),
          magic_read,
          bytes_eq_refl magic_bytes,
          payload_len_read,
          le→ltb_false (length buffer) (82 + length m.payload + 64) (omega (arith, length-buffer)),
          parse_message-to_bytes c,
        )
        refl
