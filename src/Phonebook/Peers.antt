-- ===== src/Phonebook/Peers.antt =====
-- What the phonebook (net/phonebook.rs) promises of its entries, and the scores after an update.
use randbotd.Base.{
  ℕ, ◌≡◌, ◌≢◌, ◌≤◌, refl, ap, ◌∙◌, Bool, false, Option, List, [], ◌∷◌, ◌++◌, arith, min, All,
  if◌then◌else◌, bytes_eq, bytes_eq_sound, Bool-cases, inl, inr,
}
use randbotd.Base.Bytes.{Bytes, IsBytes}
use randbotd.Base.Text.{Text}
use randbotd.Base.Dict.{Dict, put, get, values, contains_key, values-put_new}
use randbotd.Chain.{zero_hash}
use randbotd.Phonebook.{
  Phonebook, PeerEntry, hex_encode, is_own, is_verified, upsert_peer_with_role, entry_of_key,
  is_known, role_of, score_of, score_entries, update_peer_ponderation, get_peer_ponderation,
  is_peer_headless,
}
use randbotd.Phonebook.Hex.{hex_encode-injective}

-- An entry stands under its address, is of another node than this one, and has a score of at most 100.
abbrev pub IsKept : Option Text → Bytes × PeerEntry → Type 0
IsKept my_pk (a, e) =
    (e.address ≡ a) × (is_own my_pk e.pubkey_hex ≡ false) × (e.ponderation_score ≤ 100)

abbrev pub AreKept : Phonebook → Type 0
AreKept pb = All (IsKept pb.my_pubkey_hex) pb.peers

All-put :
    (my_pk : Option Text) (d : Dict PeerEntry) (a : Text) (e : PeerEntry)
    → All (IsKept my_pk) d
    → IsKept my_pk (a, e)
    → All (IsKept my_pk) (put d a e)
All-put my_pk [] a e h k = (k, tt)
All-put my_pk ((b, f) ∷ d) a e h k = elim (Bool-cases (bytes_eq b a)) [
  | inl p ↦ rw p (k, h.1)
  | inr p ↦ rw p (h.0, All-put my_pk d a e h.1 k)
]

-- Announcing a peer keeps the entries, whatever it announces.
pub upsert_peer_with_role-AreKept :
    (pb : Phonebook) (pubkey : Bytes) (address : Text) (seed is_headless : Bool) (now : ℕ)
    → AreKept pb
    → AreKept (upsert_peer_with_role pb pubkey address seed is_headless now)
unfolding upsert_peer_with_role
upsert_peer_with_role-AreKept pb pubkey address seed is_headless now h =
    elim (Bool-cases (bytes_eq pubkey zero_hash)) [
      | inl p ↦ rw p h
      | inr p ↦ elim (Bool-cases (is_own pb.my_pubkey_hex (hex_encode pubkey))) [
        | inl q ↦ rw (p, q) h
        | inr q ↦ rw (p, q) (All-put pb.my_pubkey_hex pb.peers address _ h (refl, q, omega arith))
      ]
    ]

All-score_entries :
    (my_pk : Option Text) (pk : Text) (score : ℕ) (d : Dict PeerEntry)
    → All (IsKept my_pk) d
    → All (IsKept my_pk) (score_entries pk score d)
All-score_entries my_pk pk score [] h = tt
All-score_entries my_pk pk score ((a, e) ∷ d) h = elim (Bool-cases (bytes_eq e.pubkey_hex pk)) [
  | inl p ↦ rw p ((h.0.0, h.0.1, omega arith), All-score_entries my_pk pk score d h.1)
  | inr p ↦ rw p (h.0, All-score_entries my_pk pk score d h.1)
]

pub update_peer_ponderation-AreKept :
    (pb : Phonebook) (pubkey : Bytes) (score : ℕ)
    → AreKept pb
    → AreKept (update_peer_ponderation pb pubkey score).0
unfolding update_peer_ponderation
update_peer_ponderation-AreKept pb pubkey score h =
    All-score_entries pb.my_pubkey_hex (hex_encode pubkey) score pb.peers h

score_entries-score_of :
    (pk : Text) (score : ℕ) (d : Dict PeerEntry)
    → score_of (entry_of_key pk (values (score_entries pk score d)))
      ≡ (if is_known (entry_of_key pk (values d)) then min score 100 else 50)
score_entries-score_of pk score [] = refl
score_entries-score_of pk score ((a, e) ∷ d) = elim (Bool-cases (bytes_eq e.pubkey_hex pk)) [
  | inl p ↦ rw (p, p) refl
  | inr p ↦ rw (p, p) (score_entries-score_of pk score d)
]

-- The score that is read after an update is the one that was set, capped at 100, for a known peer, and 50
-- for an unknown one, which the update reports.
pub get_peer_ponderation-update_peer_ponderation :
    (pb : Phonebook) (pubkey : Bytes) (score : ℕ)
    → (let (pb', updated) = update_peer_ponderation pb pubkey score in
        get_peer_ponderation pb' pubkey ≡ (if updated then min score 100 else 50))
unfolding update_peer_ponderation get_peer_ponderation
get_peer_ponderation-update_peer_ponderation pb pubkey score =
    score_entries-score_of (hex_encode pubkey) score pb.peers

entry_of_key-append_other :
    (k : Text) (es : List PeerEntry) (e : PeerEntry)
    → bytes_eq e.pubkey_hex k ≡ false
    → entry_of_key k (es ++ e ∷ []) ≡ entry_of_key k es
entry_of_key-append_other k [] e h = rw h refl
entry_of_key-append_other k (f ∷ es) e h = rw (entry_of_key-append_other k es e h) refl

-- A peer that is announced at a new address changes the role and the score of no other key.
pub upsert_peer_with_role-other :
    (pb : Phonebook) (pubkey other : Bytes) (address : Text) (seed is_headless : Bool) (now : ℕ)
    → IsBytes pubkey
    → IsBytes other
    → pubkey ≢ other
    → contains_key pb.peers address ≡ false
    → (let pb' = upsert_peer_with_role pb pubkey address seed is_headless now in
        (is_peer_headless pb' other ≡ is_peer_headless pb other)
        × (get_peer_ponderation pb' other ≡ get_peer_ponderation pb other))
unfolding upsert_peer_with_role is_peer_headless get_peer_ponderation
upsert_peer_with_role-other pb pubkey other address seed is_headless now h k d fresh =
    elim (Bool-cases (bytes_eq pubkey zero_hash)) [
      | inl p ↦ rw p (refl, refl)
      | inr p ↦ elim (Bool-cases (is_own pb.my_pubkey_hex (hex_encode pubkey))) [
        | inl q ↦ rw (p, q) (refl, refl)
        | inr q ↦ rw (p, q) (ap role_of same, ap score_of same)
      ]
    ]
  where
    differ : bytes_eq (hex_encode pubkey) (hex_encode other) ≡ false
    differ = elim (Bool-cases (bytes_eq (hex_encode pubkey) (hex_encode other))) [
      | inl e ↦ absurd (d (hex_encode-injective pubkey other h k (bytes_eq_sound _ _ e)))
      | inr e ↦ e
    ]

    entry : PeerEntry
    entry = record {
      pubkey_hex = hex_encode pubkey;
      address = address;
      last_seen = now;
      self_declared_seed = seed;
      verified_seed = is_verified (get pb.peers address);
      ponderation_score = 50;
      is_headless = is_headless;
    }

    same :
        entry_of_key (hex_encode other) (values (put pb.peers address entry))
        ≡ entry_of_key (hex_encode other) (values pb.peers)
    same =
        ap (entry_of_key (hex_encode other)) (values-put_new pb.peers address entry fresh)
        ∙ entry_of_key-append_other (hex_encode other) (values pb.peers) entry differ
