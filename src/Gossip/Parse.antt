-- ===== src/Gossip/Parse.antt =====
-- net/gossip.rs: a buffer that `from_bytes` reads, and the frames that a node makes.
use randbotd.Base.{
  ℕ, ◌+◌, ◌-◌, ◌*◌, ◌%◌, ◌^◌, ◌≤◌, ◌<◌, ◌≡◌, refl, sym, ap, subst, ◌∙◌, not, [], ◌++◌, append_assoc,
  append-nil, arith, ltb, ltb-false, bytes_eq, bytes_eq_sound, not-false, length, drop, All-take,
  All-drop, slice, take-get_or, length-slice, slice-append-drop,
}
use randbotd.Base.Result.{ok, >>_ok, fail_if->>_ok, ok_injective}
use randbotd.Base.Bytes.{
  Bytes, from_be_bytes, to_be_bytes, to_be_bytes-from_be_bytes, from_be_bytes-lt, concat, u32_mod,
  u64_mod, IsBytes,
}
use randbotd.Base.Crypto.{Crypto, CryptoLaws}
use randbotd.Gossip.{
  magic_bytes, too_short, invalid_magic, incomplete_payload, GossipMessage, to_bytes, message_id,
  new_message, verify_message, parse_message, from_bytes,
}
use randbotd.Gossip.Frame.{IsFrame, from_bytes-to_bytes}

module _ (c : Crypto) (buf : Bytes) where
  abbrev payload_len : ℕ
  payload_len = from_be_bytes (slice 78 82 buf)

  record IsRead (m : GossipMessage) : Type 0 where
    room : 82 + payload_len + 64 ≤ length buf
    magic : slice 0 4 buf ≡ magic_bytes
    message : m ≡ parse_message c buf payload_len
    verified : verify_message c m ≡ ok tt

  from_bytes-IsRead : (m : GossipMessage) → from_bytes c buf ≡ ok m → IsRead m
  unfolding from_bytes
  from_bytes-IsRead m h =
      let long = fail_if->>_ok (ltb (length buf) 146) too_short _ h in
      let starts =
        fail_if->>_ok (not (bytes_eq (slice 0 4 buf) magic_bytes)) invalid_magic _ long.1 in
      let holds =
        fail_if->>_ok (ltb (length buf) (82 + payload_len + 64)) incomplete_payload _ starts.1 in
      let checked =
        >>_ok (verify_message c (parse_message c buf payload_len))
          (ok (parse_message c buf payload_len)) holds.1 in
      let same = ok_injective _ _ checked.1 in
      record {
        room = ltb-false _ _ holds.0;
        magic = bytes_eq_sound _ _ (not-false _ starts.0);
        message = sym same;
        verified = subst (λ t. verify_message c t ≡ ok tt) same checked.0;
      }

  module _ (octets : IsBytes buf) (room : 82 + payload_len + 64 ≤ length buf)
      (magic : slice 0 4 buf ≡ magic_bytes) where
    length-payload : length (slice 82 (82 + payload_len) buf) ≡ payload_len
    length-payload =
        omega (arith, length-slice 82 (82 + payload_len) buf (omega arith) (omega arith))

    octet_slice : (lo hi : ℕ) → IsBytes (slice lo hi buf)
    octet_slice lo hi = All-take _ (hi - lo) (drop lo buf) (All-drop _ lo buf octets)

    be_slice :
        (k lo hi : ℕ)
        → lo + k ≡ hi
        → hi ≤ length buf
        → to_be_bytes k (from_be_bytes (slice lo hi buf)) ≡ slice lo hi buf
    be_slice k lo hi e fits =
        let l : length (slice lo hi buf) ≡ k =
          omega (arith, length-slice lo hi buf (omega arith) fits) in
        subst (λ j. to_be_bytes j (from_be_bytes (slice lo hi buf)) ≡ slice lo hi buf) l
          (to_be_bytes-from_be_bytes (slice lo hi buf) (octet_slice lo hi))

    fits_slice :
        (k lo hi : ℕ)
        → lo + k ≡ hi
        → hi ≤ length buf
        → from_be_bytes (slice lo hi buf) < 2 ^ (8 * k)
    fits_slice k lo hi e fits =
        let l : length (slice lo hi buf) ≡ k =
          omega (arith, length-slice lo hi buf (omega arith) fits) in
        subst (λ j. from_be_bytes (slice lo hi buf) < 2 ^ (8 * j)) l
          (from_be_bytes-lt (slice lo hi buf) (octet_slice lo hi))

    parse_message-IsFrame : IsFrame (parse_message c buf payload_len)
    unfolding parse_message
    parse_message-IsFrame = record {
      id_size = length-slice 4 36 buf (omega arith) (omega arith);
      key_size = length-slice 36 68 buf (omega arith) (omega arith);
      seq_fits = fits_slice 8 68 76 refl (omega arith);
      payload_fits = omega (arith, length-payload, fits_slice 4 78 82 refl (omega arith));
      signature_size =
          omega
            (arith, length-slice (82 + payload_len) (82 + payload_len + 64) buf (omega arith) room);
    }

    len_bytes_read :
        to_be_bytes 4 (length (slice 82 (82 + payload_len) buf) % u32_mod) ≡ slice 78 82 buf
    len_bytes_read =
        let e : length (slice 82 (82 + payload_len) buf) % u32_mod ≡ payload_len =
          omega (arith, length-payload, fits_slice 4 78 82 refl (omega arith)) in
        rw e (be_slice 4 78 82 refl (omega arith))

    abbrev after_magic : Bytes
    after_magic =
        slice 4 36 buf
        ++ (slice 36 68 buf
            ++ (slice 68 76 buf
                ++ (slice 76 77 buf
                    ++ (slice 77 78 buf
                        ++ (slice 78 82 buf
                            ++ (slice 82 (82 + payload_len) buf
                                ++ (slice (82 + payload_len) (82 + payload_len + 64) buf
                                    ++ drop (82 + payload_len + 64) buf)))))))

    pieces : buf ≡ slice 0 4 buf ++ after_magic
    pieces =
        slice-append-drop 0 4 buf (omega arith)
        ∙ ap (λ t. slice 0 4 buf ++ t)
            (slice-append-drop 4 36 buf (omega arith)
              ∙ ap (λ t. slice 4 36 buf ++ t)
                  (slice-append-drop 36 68 buf (omega arith)
                    ∙ ap (λ t. slice 36 68 buf ++ t)
                        (slice-append-drop 68 76 buf (omega arith)
                          ∙ ap (λ t. slice 68 76 buf ++ t)
                              (slice-append-drop 76 77 buf (omega arith)
                                ∙ ap (λ t. slice 76 77 buf ++ t)
                                    (slice-append-drop 77 78 buf (omega arith)
                                      ∙ ap (λ t. slice 77 78 buf ++ t)
                                          (slice-append-drop 78 82 buf (omega arith)
                                            ∙ ap (λ t. slice 78 82 buf ++ t)
                                                (slice-append-drop 82 (82 + payload_len) buf
                                                    (omega arith)
                                                  ∙ ap (λ t. slice 82 (82 + payload_len) buf ++ t)
                                                      (slice-append-drop (82 + payload_len)
                                                        (82 + payload_len + 64) buf
                                                        (omega arith)))))))))

    from_pieces : magic_bytes ++ after_magic ≡ buf
    from_pieces = sym (pieces ∙ ap (λ t. t ++ after_magic) magic)

    to_bytes-parse_message :
        to_bytes (parse_message c buf payload_len) ++ drop (82 + payload_len + 64) buf ≡ buf
    unfolding parse_message to_bytes concat
    to_bytes-parse_message =
        rw (be_slice 8 68 76 refl (omega arith), len_bytes_read)
          (simp (append_assoc, append-nil)
            (rw (take-get_or buf 76 0 (omega arith), take-get_or buf 77 0 (omega arith)) at
              from_pieces))

-- An accepted buffer of octets begins with the frame of the message that is returned; the message has
-- the sizes of its fields, and its signature was verified.
pub from_bytes_sound :
    (c : Crypto) (buf : Bytes) (m : GossipMessage)
    → IsBytes buf
    → from_bytes c buf ≡ ok m
    → IsFrame m × ((rest : Bytes) × (buf ≡ to_bytes m ++ rest)) × (verify_message c m ≡ ok tt)
from_bytes_sound c buf m octets h =
    let r = from_bytes-IsRead c buf m h in
    (
      subst IsFrame (sym r.message) (parse_message-IsFrame c buf octets r.room r.magic),
      (
        drop (82 + payload_len c buf + 64) buf,
        subst (λ t. buf ≡ to_bytes t ++ drop (82 + payload_len c buf + 64) buf) (sym r.message)
            (sym (to_bytes-parse_message c buf octets r.room r.magic)),
      ),
      r.verified,
    )

module _ (c : Crypto) (laws : CryptoLaws c) where
  new_message-IsFrame :
      (signing_key : Bytes) (seq ttl payload_type : ℕ) (payload : Bytes)
      → seq < u64_mod
      → length payload < u32_mod
      → IsFrame (new_message c signing_key seq ttl payload_type payload)
  unfolding new_message message_id
  new_message-IsFrame k seq ttl ty payload hs hp = record {
    id_size = laws.length_sha256 _;
    key_size = laws.length_verifying_key k;
    seq_fits = hs;
    payload_fits = hp;
    signature_size = laws.length_sign k _;
  }

  new_message-verified :
      (signing_key : Bytes) (seq ttl payload_type : ℕ) (payload : Bytes)
      → verify_message c (new_message c signing_key seq ttl payload_type payload) ≡ ok tt
  unfolding verify_message new_message
  new_message-verified k seq ttl ty payload =
      rw (laws.valid_verifying_key k, laws.verify_sign k _) refl

  -- A message that a node makes, of a 64-bit sequence number and a payload below 4 GiB, is read back
  -- from its frame by every receiver.
  pub new_message-from_bytes :
      (signing_key : Bytes) (seq ttl payload_type : ℕ) (payload : Bytes)
      → seq < u64_mod
      → length payload < u32_mod
      → let m = new_message c signing_key seq ttl payload_type payload in
        from_bytes c (to_bytes m) ≡ ok m
  new_message-from_bytes k seq ttl ty payload hs hp =
      let m = new_message c k seq ttl ty payload in
      let frame = from_bytes-to_bytes m (new_message-IsFrame k seq ttl ty payload hs hp) [] c in
      rw append-nil at frame ∙ rw (new_message-verified k seq ttl ty payload) refl
