-- ===== src/Ca/Rules.antt =====
-- pki/ca.rs: the rules that subject data and a new declaration are checked by.
use randbotd.Base.{
  ℕ, ◌≤◌, ◌≡◌, ◌≢◌, ◌⊎◌, Bool, true, false, Option, none, some, ◌↔◌, refl, ap, sym, ◌∙◌, not, ◌&&◌,
  Bool-cases, inl, inr, List, [], ◌∷◌, arith, ltb, ltb-false, all,
}
use randbotd.Base.Result.{Result, ◌>>◌, fail_if, ok, >>_ok, fail_if->>_ok}
use randbotd.Base.Bytes.{Bytes}
use randbotd.Base.Text.{
  Text, len, trim, is_empty, is_ascii_alphabetic, contains_char, starts_with, ends_with,
}
use randbotd.Ca.{
  DomainNetworkType, CaSubjectMetadata, CaError, check_length, check_country, check_email,
  validate_subject, CaDeclaration, new_ca, is_nil, is_some, path_len_without_intermediate,
  subtrees_without_intermediate, no_network, organization_length, unit_length, locality_length,
  state_length,
}

-- An optional field is absent or short.
abbrev pub IsShort : Option Text → ℕ → Type 0
IsShort none limit = Unit {0}
IsShort (some x) limit = len (trim x) ≤ limit

abbrev pub IsCountry : Option Text → Type 0
IsCountry none = Unit {0}
IsCountry (some c) = (len (trim c) ≡ 2) × (all is_ascii_alphabetic (trim c) ≡ true)

-- An address has an at sign, but neither begins nor ends with one.
abbrev pub IsEmail : Option Text → Type 0
IsEmail none = Unit {0}
IsEmail (some e) =
    (contains_char (trim e) b'@' ≡ true)
    × (starts_with (trim e) b'@' ≡ false)
    × (ends_with (trim e) b'@' ≡ false)

pub record IsSubject (s : CaSubjectMetadata) : Type 0 where
  pub named : trim s.common_name ≢ []
  pub name_short : len (trim s.common_name) ≤ 64
  pub organization_short : IsShort s.organization 64
  pub unit_short : IsShort s.organizational_unit 64
  pub locality_short : IsShort s.locality 128
  pub state_short : IsShort s.state_or_province 128
  pub country_code : IsCountry s.country
  pub address : IsEmail s.email

check_length_iff :
    (o : Option Text) (limit : ℕ) (e : ℕ → CaError)
    → (check_length o limit e ≡ ok tt) ↔ IsShort o limit
check_length_iff none limit e = (λ h. tt, λ h. refl)
check_length_iff (some x) limit e = (λ h. ground arith, λ h. ground arith)

check_country_iff : (o : Option Text) → (check_country o ≡ ok tt) ↔ IsCountry o
check_country_iff none = (λ h. tt, λ h. refl)
check_country_iff (some c) = (λ h. ground arith, λ h. ground arith)

check_email_iff : (o : Option Text) → (check_email o ≡ ok tt) ↔ IsEmail o
check_email_iff none = (λ h. tt, λ h. refl)
check_email_iff (some e) = (λ h. ground arith, λ h. ground arith)

nonempty : (t : Text) → is_empty t ≡ false → t ≢ []
unfolding is_empty
nonempty [] h = cc
nonempty (c ∷ t) h = λ e. cc

filled : (t : Text) → t ≢ [] → is_empty t ≡ false
unfolding is_empty
filled [] h = absurd (h refl)
filled (c ∷ t) h = refl

validate_subject_sound : (s : CaSubjectMetadata) → validate_subject s ≡ ok tt → IsSubject s
unfolding validate_subject
validate_subject_sound s h =
    let a = fail_if->>_ok (is_empty (trim s.common_name)) CaError.empty_common_name _ h in
    let b =
      fail_if->>_ok (ltb 64 (len (trim s.common_name)))
        (CaError.common_name_length (len (trim s.common_name))) _ a.1 in
    let o = >>_ok (check_length s.organization 64 CaError.organization_length) _ b.1 in
    let u = >>_ok (check_length s.organizational_unit 64 CaError.unit_length) _ o.1 in
    let l = >>_ok (check_length s.locality 128 CaError.locality_length) _ u.1 in
    let t = >>_ok (check_length s.state_or_province 128 CaError.state_length) _ l.1 in
    let k = >>_ok (check_country s.country) (check_email s.email) t.1 in
    record {
      named = nonempty (trim s.common_name) a.0;
      name_short = ltb-false 64 _ b.0;
      organization_short = (check_length_iff s.organization 64 _).0 o.0;
      unit_short = (check_length_iff s.organizational_unit 64 _).0 u.0;
      locality_short = (check_length_iff s.locality 128 _).0 l.0;
      state_short = (check_length_iff s.state_or_province 128 _).0 t.0;
      country_code = (check_country_iff s.country).0 k.0;
      address = (check_email_iff s.email).0 k.1;
    }

validate_subject_complete : (s : CaSubjectMetadata) → IsSubject s → validate_subject s ≡ ok tt
unfolding validate_subject
validate_subject_complete s h =
    let short : ltb 64 (len (trim s.common_name)) ≡ false = ground (arith, h.name_short) in
    rw
      (
        filled (trim s.common_name) h.named,
        short,
        (check_length_iff s.organization 64 organization_length).1 h.organization_short,
        (check_length_iff s.organizational_unit 64 unit_length).1 h.unit_short,
        (check_length_iff s.locality 128 locality_length).1 h.locality_short,
        (check_length_iff s.state_or_province 128 state_length).1 h.state_short,
        (check_country_iff s.country).1 h.country_code,
      )
      ((check_email_iff s.email).1 h.address)

passes {ε ℓ} :
    {E : Type ε} {B : Type ℓ} (t : Bool) (e : E) (k : Result E B)
    → t ≡ false
    → (fail_if t e >> k) ≡ k
passes false e k h = refl
passes true e k h = cc

neither : (b d : Bool) → (b ≡ true) ⊎ (d ≡ false) → (not b && d) ≡ false
neither true d h = refl
neither false true h = ground arith
neither false false h = refl

clash : {b : Bool} → b ≡ true → b ≡ false → ⊥
clash h k = cc

absent {ℓ} : {A : Type ℓ} (o : Option A) → is_some o ≡ false → o ≡ none
absent none h = refl
absent (some a) h = absurd (clash refl h)

empty {ℓ} : {A : Type ℓ} (xs : List A) → is_nil xs ≡ true → xs ≡ []
empty [] h = refl
empty (x ∷ xs) h = absurd (clash h refl)

present {ℓ} : {A : Type ℓ} (xs : List A) → xs ≢ [] → is_nil xs ≡ false
present [] h = absurd (h refl)
present (x ∷ xs) h = refl

module _ (ca_id : Bytes) (subject issuer : CaSubjectMetadata) (is_intermediate : Bool)
    (path_len : Option ℕ) (subtrees : List Text) (created_at : ℕ) (is_draft : Bool)
    (networks : List DomainNetworkType) where
  -- The declaration of these data, without catalog, offers or search for custodians.
  abbrev pub declared : CaDeclaration
  declared = record {
    ca_id = ca_id;
    subject = subject;
    issuer = issuer;
    is_intermediate = is_intermediate;
    path_len_constraint = path_len;
    created_at = created_at;
    is_draft = is_draft;
    supported_domain_networks = networks;
    permitted_subtrees = subtrees;
    current_catalog_hash = none;
    offer_ids = [];
    seeking_custodians = false;
  }

  pub record IsDeclaration (ca : CaDeclaration) : Type 0 where
    pub subject_valid : IsSubject subject
    pub issuer_valid : IsSubject issuer
    pub networked : networks ≢ []
    pub root_bare : (is_intermediate ≡ true) ⊎ ((path_len ≡ none) × (subtrees ≡ []))
    pub made : ca ≡ declared

  -- `CaDeclaration::new` makes a declaration exactly if the subject and the issuer data are valid (a common
  -- name of 1 to 64 octets, other fields within their limits, a country of two letters, an e-mail address
  -- with an at sign inside), there is a network, and a root authority has neither a path length nor subtrees;
  -- the declaration holds the data given, and starts without catalog, offers or search for custodians.
  pub new_ca_iff :
      (ca : CaDeclaration)
      → (new_ca ca_id subject issuer is_intermediate path_len subtrees created_at is_draft networks
          ≡ ok ca)
        ↔ IsDeclaration ca
  unfolding new_ca
  new_ca_iff ca = (
    λ h.
        let a = >>_ok (validate_subject subject) _ h in
        let b = >>_ok (validate_subject issuer) _ a.1 in
        let d =
          fail_if->>_ok (not is_intermediate && is_some path_len) path_len_without_intermediate _
            b.1 in
        let e =
          fail_if->>_ok (not is_intermediate && not (is_nil subtrees)) subtrees_without_intermediate
            _ d.1 in
        let f = fail_if->>_ok (is_nil networks) no_network _ e.1 in
        record {
          subject_valid = validate_subject_sound subject a.0;
          issuer_valid = validate_subject_sound issuer b.0;
          networked = λ q. clash (ap is_nil q) f.0;
          root_bare = elim (Bool-cases is_intermediate) [
            | inl i ↦ inl i
            | inr i ↦ inr (absent path_len (ground arith), empty subtrees (ground arith))
          ];
          made = ground arith;
        },
    λ h.
        let s = validate_subject_complete subject h.subject_valid in
        let i = validate_subject_complete issuer h.issuer_valid in
        let n = present networks h.networked in
        let bare₁ : (is_intermediate ≡ true) ⊎ (is_some path_len ≡ false) = elim h.root_bare [
          | inl j ↦ inl j
          | inr (q, r) ↦ inr (ap is_some q)
        ] in
        let bare₂ : (is_intermediate ≡ true) ⊎ (not (is_nil subtrees) ≡ false) = elim h.root_bare [
          | inl j ↦ inl j
          | inr (q, r) ↦ inr (ap (λ l. not (is_nil l)) r)
        ] in
        rw (s, i)
          (passes _ path_len_without_intermediate _
              (neither is_intermediate (is_some path_len) bare₁)
            ∙ passes _ subtrees_without_intermediate _
                (neither is_intermediate (not (is_nil subtrees)) bare₂)
            ∙ passes _ no_network _ n
            ∙ ap ok (sym h.made)),
  )
