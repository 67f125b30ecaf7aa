-- ===== src/History/Signed.antt =====
-- net/history.rs: the signatures of entries, of frames that are logged and of new entries.
use randbotd.Base.{
  ℕ, zero, suc, ◌+◌, ◌-◌, ◌≤◌, ◌<◌, ◌≡◌, refl, subst, Bool, true, false, arith, length,
}
use randbotd.Base.Result.{ok}
use randbotd.Base.Bytes.{Bytes}
use randbotd.Base.Crypto.{Crypto, CryptoLaws}
use randbotd.Gossip.{GossipMessage, new_message}
use randbotd.History.{
  EventLogEntry, is_transient, accepts_frame, accepts_some_frame, verify_entry, new_entry,
}

module _ (c : Crypto) (e : EventLogEntry) where
  accepts_some_frame_hit :
      (gap rounds start : ℕ)
      → gap < rounds
      → accepts_frame c e (start + gap) ≡ true
      → accepts_some_frame c e rounds start ≡ true
  unfolding accepts_some_frame
  accepts_some_frame_hit gap zero start lt h = absurd (omega arith)
  accepts_some_frame_hit zero (suc rounds) start lt h =
      let z : start + 0 ≡ start = omega arith in
      rw (subst (λ t. accepts_frame c e t ≡ true) z h) refl
  accepts_some_frame_hit (suc gap) (suc rounds) start lt h =
      let z : start + suc gap ≡ start + 1 + gap = omega arith in
      ground (
        arith,
        accepts_some_frame_hit gap rounds (start + 1) (omega arith)
            (subst (λ t. accepts_frame c e t ≡ true) z h),
      )

-- The log entry that a gossip message is recorded as.
abbrev pub entry_of : GossipMessage → Bytes → Bool → EventLogEntry
entry_of m prev_hash flag = record {
  seq = m.seq;
  prev_hash = prev_hash;
  originator = m.originator_pubkey;
  payload_type = m.payload_type;
  payload = m.payload;
  signature_bytes = m.signature;
  is_bullshit = flag;
}

module _ (c : Crypto) (laws : CryptoLaws c) where
  new_message-valid_key :
      (k : Bytes) (seq ttl ty : ℕ) (payload : Bytes)
      → c.valid_key (new_message c k seq ttl ty payload).originator_pubkey ≡ true
  unfolding new_message
  new_message-valid_key k seq ttl ty payload = laws.valid_verifying_key k

  new_message-signature_size :
      (k : Bytes) (seq ttl ty : ℕ) (payload : Bytes)
      → length (new_message c k seq ttl ty payload).signature ≡ 64
  unfolding new_message
  new_message-signature_size k seq ttl ty payload = laws.length_sign k _

  frame_hit :
      (k : Bytes) (seq ttl ty : ℕ) (payload prev : Bytes) (flag : Bool)
      → accepts_frame c (entry_of (new_message c k seq ttl ty payload) prev flag) ttl ≡ true
  unfolding accepts_frame new_message
  frame_hit k seq ttl ty payload prev flag = laws.verify_sign k _

  -- A gossip message that is made with a time to live of 1 to 8 gives a log entry with a valid
  -- signature, whatever previous hash and flag the entry is stored with.
  pub new_message-verify_entry :
      (signing_key : Bytes) (seq ttl payload_type : ℕ) (payload prev_hash : Bytes) (flag : Bool)
      → 1 ≤ ttl
      → ttl ≤ 8
      → verify_entry c
          (entry_of (new_message c signing_key seq ttl payload_type payload) prev_hash flag)
        ≡ ok tt
  unfolding verify_entry
  new_message-verify_entry k seq ttl ty payload prev flag lo hi =
      let e = entry_of (new_message c k seq ttl ty payload) prev flag in
      let z : ttl ≡ 1 + (ttl - 1) = omega arith in
      let hit : accepts_frame c e (1 + (ttl - 1)) ≡ true =
        subst (λ t. accepts_frame c e t ≡ true) z (frame_hit k seq ttl ty payload prev flag) in
      ground (
        arith,
        new_message-valid_key k seq ttl ty payload,
        new_message-signature_size k seq ttl ty payload,
        accepts_some_frame_hit c e (ttl - 1) 8 1 (omega arith) hit,
      )

-- `new_entry` succeeds only with an entry of its arguments, unflagged, of a type that may be logged and
-- with a valid signature.
pub new_entry_sound :
    (c : Crypto) (seq : ℕ) (prev_hash originator : Bytes) (payload_type : ℕ)
    (payload signature : Bytes) (e : EventLogEntry)
    → new_entry c seq prev_hash originator payload_type payload signature ≡ ok e
    → (is_transient payload_type ≡ false)
      × (e.seq ≡ seq)
      × (e.prev_hash ≡ prev_hash)
      × (e.originator ≡ originator)
      × (e.payload_type ≡ payload_type)
      × (e.payload ≡ payload)
      × (e.signature_bytes ≡ signature)
      × (e.is_bullshit ≡ false)
      × (verify_entry c e ≡ ok tt)
unfolding new_entry
new_entry_sound c seq prev o ty payload s e h = ground arith
