-- ===== src/Phonebook.antt =====
-- net/phonebook.rs: the peers that a node knows, by address. The clock, name resolution, the shuffle of
-- candidates and `hex::decode` are parameters. Writing the file after a change is left out: its outcome is
-- ignored and nothing reads it before the next start.
pub mod Hex
pub mod Peers
use randbotd.Base.{
  ℕ, ◌+◌, ◌/◌, ◌%◌, min, Bool, true, false, not, ◌&&◌, ◌||◌, Option, none, some, List, [], ◌∷◌,
  ◌++◌, map, take, ltb, leb, if◌then◌else◌, bytes_eq, length, ◌==◌, replicate,
}
use randbotd.Base.Bytes.{Bytes}
use randbotd.Base.Text.{Text, trim, is_empty}
use randbotd.Base.Dict.{Dict, get, put, values}
use randbotd.Chain.{zero_hash}

pub record PeerEntry : Type 0 where
  pub pubkey_hex : Text
  pub address : Text
  pub last_seen : ℕ
  pub self_declared_seed : Bool
  pub verified_seed : Bool
  pub ponderation_score : ℕ
  pub is_headless : Bool

pub record Phonebook : Type 0 where
  pub peers : Dict PeerEntry
  pub pending_dial_peers : List Text
  pub my_pubkey_hex : Option Text
  pub my_pubkey : Option Bytes

abbrev pub empty_phonebook : Phonebook
empty_phonebook = record {
  peers = [];
  pending_dial_peers = [];
  my_pubkey_hex = none;
  my_pubkey = none;
}

abbrev pub hex_digit : ℕ → ℕ
hex_digit n = if ltb n 10 then b'0' + n else 87 + n

-- `format!("{:02x}", b)` of every octet.
unfoldable pub hex_encode : Bytes → Text
hex_encode [] = []
hex_encode (b ∷ bs) = hex_digit (b / 16) ∷ hex_digit (b % 16) ∷ hex_encode bs

abbrev pub zero_pubkey : Text
zero_pubkey = replicate 64 b'0'

unfoldable pub set_my_pubkey : Phonebook → Bytes → Phonebook
set_my_pubkey pb key = record pb { my_pubkey = some key; my_pubkey_hex = some (hex_encode key) }

abbrev pub is_own : Option Text → Text → Bool
is_own none pubkey_hex = false
is_own (some my_pk) pubkey_hex = bytes_eq pubkey_hex my_pk

abbrev pub is_verified : Option PeerEntry → Bool
is_verified none = false
is_verified (some existing) = existing.verified_seed

unfoldable pub upsert_peer_with_role : Phonebook → Bytes → Text → Bool → Bool → ℕ → Phonebook
upsert_peer_with_role pb pubkey address self_declared_seed is_headless now =
    if bytes_eq pubkey zero_hash || is_own pb.my_pubkey_hex (hex_encode pubkey)
    then pb
    else record pb {
      peers = put pb.peers address (record {
        pubkey_hex = hex_encode pubkey;
        address = address;
        last_seen = now;
        self_declared_seed = self_declared_seed;
        verified_seed = is_verified (get pb.peers address);
        ponderation_score = 50;
        is_headless = is_headless;
      });
    }

abbrev pub upsert_peer : Phonebook → Bytes → Text → Bool → ℕ → Phonebook
upsert_peer pb pubkey address self_declared_seed now =
    upsert_peer_with_role pb pubkey address self_declared_seed false now

-- The first entry of a key, in the order of the map.
abbrev pub entry_of_key : Text → List PeerEntry → Option PeerEntry
entry_of_key pubkey_hex [] = none
entry_of_key pubkey_hex (e ∷ es) =
    let rest = entry_of_key pubkey_hex es in
    if bytes_eq e.pubkey_hex pubkey_hex then some e else rest

abbrev pub role_of : Option PeerEntry → Bool
role_of none = false
role_of (some e) = e.is_headless

abbrev pub score_of : Option PeerEntry → ℕ
score_of none = 50
score_of (some e) = e.ponderation_score

unfoldable pub is_peer_headless : Phonebook → Bytes → Bool
is_peer_headless pb pubkey = role_of (entry_of_key (hex_encode pubkey) (values pb.peers))

unfoldable pub get_peer_ponderation : Phonebook → Bytes → ℕ
get_peer_ponderation pb pubkey = score_of (entry_of_key (hex_encode pubkey) (values pb.peers))

abbrev pub score_entries : Text → ℕ → Dict PeerEntry → Dict PeerEntry
score_entries pk_hex score [] = []
score_entries pk_hex score ((a, e) ∷ es) =
    let e' =
      (if bytes_eq e.pubkey_hex pk_hex
        then record e { ponderation_score = min score 100 }
        else e) in
    (a, e') ∷ score_entries pk_hex score es

abbrev pub is_known : Option PeerEntry → Bool
is_known none = false
is_known (some e) = true

-- The phonebook, and whether an entry was updated.
unfoldable pub update_peer_ponderation : Phonebook → Bytes → ℕ → Phonebook × Bool
update_peer_ponderation pb pubkey score = (
  record pb { peers = score_entries (hex_encode pubkey) score pb.peers },
  is_known (entry_of_key (hex_encode pubkey) (values pb.peers)),
)

abbrev push_key : Option Bytes → List Bytes → List Bytes
push_key none keys = keys
push_key (some bytes) keys = if length bytes == 32 then bytes ∷ keys else keys

module _ (hex_decode : Text → Option Bytes) where
  abbrev pub keys_with : (ℕ → Bool) → List PeerEntry → List Bytes
  keys_with wanted [] = []
  keys_with wanted (e ∷ es) =
      let rest = keys_with wanted es in
      if wanted e.ponderation_score then push_key (hex_decode e.pubkey_hex) rest else rest

  unfoldable pub high_ponderation_peers : Phonebook → List Bytes
  high_ponderation_peers pb = keys_with (λ s. leb 70 s) (values pb.peers)

  unfoldable pub low_ponderation_peers : Phonebook → List Bytes
  low_ponderation_peers pb = keys_with (λ s. leb s 30) (values pb.peers)

module _ {Addr : Type 0} (to_socket_addrs : Text → Option (List Addr)) where
  abbrev resolved : Option (List Addr) → List Addr
  resolved none = []
  resolved (some addrs) = addrs

  abbrev resolve_all : List PeerEntry → List Addr
  resolve_all [] = []
  resolve_all (e ∷ es) = resolved (to_socket_addrs e.address) ++ resolve_all es

  abbrev resolve_verified : List PeerEntry → List Addr
  resolve_verified [] = []
  resolve_verified (e ∷ es) =
      let rest = resolve_verified es in
      if e.verified_seed then resolved (to_socket_addrs e.address) ++ rest else rest

  unfoldable pub resolve_peer_addresses : Phonebook → List Addr
  resolve_peer_addresses pb = resolve_all (values pb.peers)

  unfoldable pub verified_seed_addresses : Phonebook → List Addr
  verified_seed_addresses pb = resolve_verified (values pb.peers)

abbrev pub is_listed : List Text → Text → Bool
is_listed [] a = false
is_listed (b ∷ bs) a = bytes_eq b a || is_listed bs a

unfoldable pub add_peer : Phonebook → Text → Phonebook
add_peer pb address =
    let clean = trim address in
    if not (is_empty clean) && not (is_listed pb.pending_dial_peers clean)
    then record pb { pending_dial_peers = pb.pending_dial_peers ++ clean ∷ [] }
    else pb

abbrev pub push_pending : List Text → List Text → List Text
push_pending list [] = list
push_pending list (p ∷ ps) = push_pending (if is_listed list p then list else list ++ p ∷ []) ps

abbrev addresses : Dict PeerEntry → List Text
addresses = map (λ (p : Bytes × PeerEntry). p.0)

unfoldable pub all_peers : Phonebook → List Text
all_peers pb = push_pending (addresses pb.peers) pb.pending_dial_peers

-- The addresses that may be given to a peer.
abbrev pub candidates_of : Text → Dict PeerEntry → List Text
candidates_of exclude_peer [] = []
candidates_of exclude_peer ((addr, e) ∷ es) =
    let rest = candidates_of exclude_peer es in
    if not (bytes_eq addr exclude_peer)
      && not (bytes_eq e.pubkey_hex zero_pubkey)
      && not (is_empty e.pubkey_hex)
    then addr ∷ rest
    else rest

unfoldable pub sample_random_peers : (List Text → List Text) → Phonebook → ℕ → Text → List Text
sample_random_peers shuffle pb max_count exclude_peer =
    take max_count (shuffle (candidates_of exclude_peer pb.peers))
