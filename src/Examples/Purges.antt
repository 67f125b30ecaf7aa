-- ===== src/Examples/Purges.antt =====
-- The theorems on authorities and their purges, at concrete records.
use randbotd.Base.{arith, ℕ, ◌≡◌, refl, ◌↔◌, true, false, none, some, [], ◌∷◌, bytes_eq_refl}
use randbotd.Base.Result.{ok}
use randbotd.Base.Bytes.{to_be_bytes, concat}
use randbotd.Base.Text.{
  Text, codes, as_bytes, len, trim, split, starts_with, ends_with, is_ascii, is_ascii_alphanumeric,
  is_empty, is_ascii_alphabetic,
}
use randbotd.Examples.{toy, toy_laws, key}
use randbotd.Examples.Logarithm.{log2_floor}
use randbotd.Pow.{
  verify, compute_challenge, compute_digest, leading_zero_bits, calculate_logarithmic_difficulty,
}
use randbotd.Chain.{zero_hash}
use randbotd.Domain.{validate_domain_name}
use randbotd.Scope.{is_domain_in_permitted_subtrees}
use randbotd.Ca.{
  clearnet, CaSubjectMetadata, CaDeclaration, validate_subject, new_ca, is_domain_permitted,
  compute_ca_id,
}
use randbotd.Ca.Rules.{IsDeclaration, new_ca_iff}
use randbotd.Purge.{
  malware_phishing, DomainPurgeEvidence, DomainPurgeRecord, calculate_required_difficulty,
  has_strike, solve_purge_pow_with_changing_field, compute_purge_challenge_with_extra_nonce,
  check_new, seal_purge, new_with_extra_nonce, validate_against_ca_and_chain,
}
use randbotd.Purge.Accepted.{IsAccepted, validate_against_ca_and_chain_iff}
use randbotd.Purge.Fresh.{new_with_extra_nonce_accepted}

abbrev site : Text
site = codes "ab.org"

abbrev subject : CaSubjectMetadata
subject = record {
  common_name = codes "Root";
  organization = none;
  organizational_unit = none;
  locality = none;
  state_or_province = none;
  country = some (codes "ES");
  email = none;
}

abbrev pub ca : CaDeclaration
ca = record {
  ca_id = compute_ca_id toy subject.common_name (toy.verifying_key key);
  subject = subject;
  issuer = subject;
  is_intermediate = false;
  path_len_constraint = none;
  created_at = 10;
  is_draft = false;
  supported_domain_networks = clearnet ∷ [];
  permitted_subtrees = [];
  current_catalog_hash = none;
  offer_ids = [];
  seeking_custodians = false;
}

abbrev pub lower : Text → Text
lower t = t

subject-valid : validate_subject subject ≡ ok tt
unfolding validate_subject trim len is_empty is_ascii_alphabetic
subject-valid = refl

new_ca-ca : new_ca ca.ca_id subject subject false none [] 10 false (clearnet ∷ []) ≡ ok ca
unfolding new_ca
new_ca-ca = rw subject-valid refl

new_ca_iff_example :
    (new_ca ca.ca_id subject subject false none [] 10 false (clearnet ∷ []) ≡ ok ca)
    ↔ IsDeclaration ca.ca_id subject subject false none [] 10 false (clearnet ∷ []) ca
new_ca_iff_example = new_ca_iff ca.ca_id subject subject false none [] 10 false (clearnet ∷ []) ca

abbrev evidence : DomainPurgeEvidence
evidence = record {
  reason = malware_phishing;
  description = codes "bad";
  strike_evidence = some (codes "seen");
  pow_nonce = 0;
  extra_nonce = 0;
}

abbrev pub purge : DomainPurgeRecord
purge = seal_purge toy ca.ca_id site none 1 zero_hash 100 200 evidence key

validate_against_ca_and_chain_iff_example :
    (validate_against_ca_and_chain toy lower purge ca (toy.verifying_key key) none 0 ≡ ok tt)
    ↔ IsAccepted toy purge lower ca (toy.verifying_key key) none 0
validate_against_ca_and_chain_iff_example =
    validate_against_ca_and_chain_iff toy purge lower ca (toy.verifying_key key) none 0

site-valid : validate_domain_name site ≡ ok tt
unfolding validate_domain_name len trim starts_with ends_with split is_empty is_ascii
    is_ascii_alphanumeric
site-valid = refl

required_first : calculate_required_difficulty toy 0 (has_strike evidence) ≡ 12
unfolding calculate_required_difficulty calculate_logarithmic_difficulty log2_floor has_strike
    is_empty trim
required_first = refl

purge-puzzle :
    verify toy (compute_purge_challenge_with_extra_nonce toy ca.ca_id site 100 zero_hash 1 0) 0 12
    ≡ true
unfolding verify to_be_bytes compute_purge_challenge_with_extra_nonce compute_challenge concat
    compute_ca_id as_bytes leading_zero_bits compute_digest
purge-puzzle = refl

purge-made : new_with_extra_nonce toy ca.ca_id site none 1 zero_hash 100 200 evidence key ≡ ok purge
unfolding new_with_extra_nonce check_new is_empty trim
purge-made = rw (site-valid, bytes_eq_refl zero_hash) refl

site-permitted : is_domain_permitted lower ca site ≡ true
unfolding is_domain_permitted is_domain_in_permitted_subtrees
site-permitted = refl

described : is_empty (trim evidence.description) ≡ false
unfolding is_empty trim
described = refl

new_with_extra_nonce_accepted_example :
    (n : ℕ) × (x : ℕ) × (p : DomainPurgeRecord) × (solve_purge_pow_with_changing_field toy 1
        ca.ca_id site 100 zero_hash 1
        (calculate_required_difficulty toy 0 (has_strike evidence))
      ≡ some (n, x))
    × (new_with_extra_nonce toy ca.ca_id site none 1 zero_hash 100 200
          (record evidence { pow_nonce = n; extra_nonce = x })
          key
        ≡ ok p)
    × (validate_against_ca_and_chain toy lower p ca (toy.verifying_key key) none 0 ≡ ok tt)
new_with_extra_nonce_accepted_example =
    new_with_extra_nonce_accepted toy toy_laws lower key ca site none 1 zero_hash 100 200 evidence
      none 1 0 0 0 site-valid (omega arith) (omega arith) (λ e. refl) described
      (rw required_first purge-puzzle) (omega arith) (omega arith) (omega arith) refl refl
      site-permitted (refl, refl)
