-- ===== src/Offer.antt =====
-- pki/catalog/offer.rs: the certificate offers of an authority and their catalog, with the tests on the node's
-- configuration (config.rs). `scope_json` is serde_json's form of a coverage scope.
pub mod Networks
use randbotd.Base.{
  ℕ, ◌+◌, ◌-◌, Bool, false, not, ◌||◌, Option, none, some, List, [], ◌∷◌, map, ltb, ◌==◌, any,
  bytes_eq, min,
}
use randbotd.Base.Result.{Result, ok, fail_if, ◌>>◌}
use randbotd.Base.Bytes.{Bytes, to_le_bytes, concat, u64_mod}
use randbotd.Base.Text.{Text, codes, as_bytes, len, trim, is_empty}
use randbotd.Base.Crypto.{Crypto}
use randbotd.Agility.{KeyAlgorithm, oid}
use randbotd.Scope.{CertificateCoverageScope}
use randbotd.Ca.{CaDeclaration, DomainNetworkType, clearnet, handshake, tor, i2p, is_nil}

abbrev pub max_offer_name_length : ℕ
max_offer_name_length = 64

pub record CertificateOffer : Type 0 where
  pub offer_id : ℕ
  pub ca_id : Bytes
  pub name : Text
  pub key_algorithm : KeyAlgorithm
  pub supported_domain_networks : List DomainNetworkType
  pub ttl_seconds : ℕ
  pub coverage_scope : CertificateCoverageScope
  pub is_draft : Bool
  pub created_at : ℕ
  pub public_key : Bytes

pub data OfferError : Type 0 where
  empty_name no_network zero_ttl ca_mismatch : OfferError
  name_length : ℕ → OfferError
  network_not_supported : DomainNetworkType → OfferError
  no_handshake no_tor no_i2p : OfferError

unfoldable pub new_offer :
    ℕ
    → Bytes
    → Text
    → KeyAlgorithm
    → List DomainNetworkType
    → ℕ
    → CertificateCoverageScope
    → Bool
    → ℕ
    → Result OfferError CertificateOffer
new_offer offer_id ca_id name key_algorithm networks ttl_seconds scope is_draft created_at = do
  let name_clean = trim name
  fail_if (is_empty name_clean) empty_name
  fail_if (ltb max_offer_name_length (len name_clean)) (name_length (len name_clean))
  fail_if (is_nil networks) no_network
  fail_if (ttl_seconds == 0) zero_ttl
  let offer : CertificateOffer = record {
    offer_id = offer_id;
    ca_id = ca_id;
    name = name_clean;
    key_algorithm = key_algorithm;
    supported_domain_networks = networks;
    ttl_seconds = ttl_seconds;
    coverage_scope = scope;
    is_draft = is_draft;
    created_at = created_at;
    public_key = [];
  }
  ok offer

-- The sum saturates at the largest 64-bit number.
unfoldable pub validity_window : CertificateOffer → ℕ → ℕ × ℕ
validity_window o current_time = (current_time, min (current_time + o.ttl_seconds) (u64_mod - 1))

-- What the tests of `DaemonConfig` read.
pub record DaemonConfig : Type 0 where
  pub tor_socks_proxy : Option Text
  pub i2p_proxy_port : Option ℕ
  pub i2p_sam_port : Option ℕ
  pub hns_dns_mode : Option Text

unfoldable pub has_tor_support : DaemonConfig → Bool
has_tor_support config = elim config.tor_socks_proxy [
  | none ↦ false
  | some s ↦ not (is_empty (trim s))
]

abbrev is_open : Option ℕ → Bool
is_open none = false
is_open (some p) = ltb 0 p

unfoldable pub has_i2p_support : DaemonConfig → Bool
has_i2p_support config = is_open config.i2p_proxy_port || is_open config.i2p_sam_port

unfoldable pub has_hns_support : DaemonConfig → Bool
has_hns_support config = elim config.hns_dns_mode [
  | none ↦ false
  | some m ↦ bytes_eq m (codes "udp") || bytes_eq m (codes "doh")
]

-- `net as u8`.
unfoldable pub network_code : DomainNetworkType → ℕ
network_code clearnet = 0
network_code handshake = 1
network_code tor = 2
network_code i2p = 3

abbrev pub network_contains : List DomainNetworkType → DomainNetworkType → Bool
network_contains networks n = any (λ m. network_code m == network_code n) networks

unfoldable pub check_network_config :
    DaemonConfig → DomainNetworkType → Result OfferError (Unit {0})
check_network_config config clearnet = ok tt
check_network_config config handshake = fail_if (not (has_hns_support config)) no_handshake
check_network_config config tor = fail_if (not (has_tor_support config)) no_tor
check_network_config config i2p = fail_if (not (has_i2p_support config)) no_i2p

unfoldable pub check_networks :
    CaDeclaration → DaemonConfig → List DomainNetworkType → Result OfferError (Unit {0})
check_networks ca config [] = ok tt
check_networks ca config (n ∷ ns) = do
  fail_if (not (network_contains ca.supported_domain_networks n)) (network_not_supported n)
  check_network_config config n
  check_networks ca config ns

unfoldable pub validate_against_ca_and_config :
    CertificateOffer → CaDeclaration → DaemonConfig → Result OfferError (Unit {0})
validate_against_ca_and_config o ca config = do
  fail_if (not (bytes_eq o.ca_id ca.ca_id)) ca_mismatch
  check_networks ca config o.supported_domain_networks

pub record CaOfferCatalog : Type 0 where
  pub ca_id : Bytes
  pub catalog_version : ℕ
  pub created_at : ℕ
  pub offers : List CertificateOffer

module _ (c : Crypto) (scope_json : CertificateCoverageScope → Bytes) where
  -- What the hasher reads of one offer; an empty public key adds nothing.
  unfoldable pub offer_bytes : CertificateOffer → Bytes
  unfolding network_code
  offer_bytes o = concat (
      to_le_bytes 4 o.offer_id
      ∷ as_bytes o.name
      ∷ as_bytes (oid o.key_algorithm)
      ∷ to_le_bytes 8 o.ttl_seconds
      ∷ scope_json o.coverage_scope
      ∷ map network_code o.supported_domain_networks
      ∷ o.public_key
      ∷ [])

  unfoldable pub catalog_hash : CaOfferCatalog → Bytes
  unfolding offer_bytes
  catalog_hash catalog = c.sha256 (
      concat (
        codes "randbotd_v1_ca_offer_catalog:"
        ∷ catalog.ca_id
        ∷ to_le_bytes 4 catalog.catalog_version
        ∷ map offer_bytes catalog.offers))
