-- ===== src/Offer/Networks.antt =====
-- CaDeclaration::validate_against_config (pki/ca.rs), and how it bears on the offers of the authority.
use randbotd.Base.{
  ◌≡◌, ◌↔◌, refl, sym, ap, subst, ◌∙◌, true, not, List, [], ◌∷◌, all, bytes_eq, arith, Bool-cases,
  inl, inr, ◌==◌, ℕ, if◌then◌else◌,
}
use randbotd.Base.Result.{Result, ok, fail_if, ◌>>◌}
use randbotd.Ca.{DomainNetworkType, clearnet, handshake, tor, i2p, CaDeclaration}
use randbotd.Offer.{
  DaemonConfig, has_hns_support, has_tor_support, has_i2p_support, CertificateOffer,
  network_contains, network_code, check_network_config, check_networks,
  validate_against_ca_and_config,
}

pub data CaConfigError : Type 0 where
  handshake_unsupported tor_unsupported i2p_unsupported : CaConfigError

-- One round of the loop.
unfoldable pub check_advertised : DaemonConfig → DomainNetworkType → Result CaConfigError (Unit {0})
check_advertised config clearnet = ok tt
check_advertised config handshake = fail_if (not (has_hns_support config)) handshake_unsupported
check_advertised config tor = fail_if (not (has_tor_support config)) tor_unsupported
check_advertised config i2p = fail_if (not (has_i2p_support config)) i2p_unsupported

unfoldable pub check_all_advertised :
    DaemonConfig → List DomainNetworkType → Result CaConfigError (Unit {0})
check_all_advertised config [] = ok tt
check_all_advertised config (n ∷ ns) = do check_advertised config n; check_all_advertised config ns

unfoldable pub validate_against_config :
    CaDeclaration → DaemonConfig → Result CaConfigError (Unit {0})
validate_against_config ca config = check_all_advertised config ca.supported_domain_networks

advertised-config :
    (config : DaemonConfig) (n : DomainNetworkType)
    → check_advertised config n ≡ ok tt
    → check_network_config config n ≡ ok tt
unfolding check_advertised check_network_config
advertised-config config clearnet h = refl
advertised-config config handshake h = ground arith
advertised-config config tor h = ground arith
advertised-config config i2p h = ground arith

network_of : ℕ → DomainNetworkType
network_of n =
    if n == 0 then clearnet else if n == 1 then handshake else if n == 2 then tor else i2p

network_of-network_code : (n : DomainNetworkType) → network_of (network_code n) ≡ n
unfolding network_of network_code
network_of-network_code clearnet = refl
network_of-network_code handshake = refl
network_of-network_code tor = refl
network_of-network_code i2p = refl

network_code-injective :
    (m n : DomainNetworkType) → (network_code m == network_code n) ≡ true → m ≡ n
network_code-injective m n h =
    let same : network_code m ≡ network_code n = ground arith in
    sym (network_of-network_code m) ∙ ap network_of same ∙ network_of-network_code n

-- Every network of an authority that the configuration supports is supported by it.
supported-config :
    (config : DaemonConfig) (ms : List DomainNetworkType) (n : DomainNetworkType)
    → check_all_advertised config ms ≡ ok tt
    → network_contains ms n ≡ true
    → check_network_config config n ≡ ok tt
unfolding check_all_advertised
supported-config config [] n h k = cc
supported-config config (m ∷ ms) n h k = elim (Bool-cases (network_code m == network_code n)) [
  | inl e ↦
      let first : check_advertised config m ≡ ok tt = ground arith in
      subst (λ x. check_network_config config x ≡ ok tt) (network_code-injective m n e)
        (advertised-config config m first)
  | inr e ↦ supported-config config ms n (ground arith) (ground arith)
]

check_networks_iff :
    (ca : CaDeclaration) (config : DaemonConfig) (ns : List DomainNetworkType)
    → validate_against_config ca config ≡ ok tt
    → (check_networks ca config ns ≡ ok tt)
      ↔ (all (network_contains ca.supported_domain_networks) ns ≡ true)
unfolding check_networks validate_against_config
check_networks_iff ca config [] h = (λ _. refl, λ _. refl)
check_networks_iff ca config (n ∷ ns) h =
    let rest = check_networks_iff ca config ns h in
    elim (Bool-cases (network_contains ca.supported_domain_networks n)) [
      | inl e ↦
          let fits = supported-config config ca.supported_domain_networks n h e in rw (e, fits) rest
      | inr e ↦ rw e (λ k. cc, λ k. cc)
    ]

-- If the configuration supports the authority's networks, an offer is valid exactly if it is the authority's
-- and all its networks are the authority's; its own test of the configuration never fails.
pub validate_against_ca_and_config-validate_against_config :
    (o : CertificateOffer) (ca : CaDeclaration) (config : DaemonConfig)
    → validate_against_config ca config ≡ ok tt
    → (validate_against_ca_and_config o ca config ≡ ok tt) ↔ (
        (bytes_eq o.ca_id ca.ca_id ≡ true)
        × (all (network_contains ca.supported_domain_networks) o.supported_domain_networks ≡ true))
unfolding validate_against_ca_and_config
validate_against_ca_and_config-validate_against_config o ca config h =
    let nets = check_networks_iff ca config o.supported_domain_networks h in
    (λ k. (ground arith, nets.0 (ground arith)), λ k. let checked = nets.1 k.1 in ground arith)
