-- ===== src/Scope/Subtree.antt =====
-- pki/catalog/scope.rs: what it means for a name to lie in a subtree.
use randbotd.Base.{
  ◌≡◌, refl, ap, ◌≢◌, ◌↔◌, ◌⊎◌, inl, inr, true, false, ◌&&◌, List, [], ◌∷◌, ◌++◌, map, arith, ltb,
  ◌==◌, bytes_eq, bytes_eq_sound, bytes_eq_refl, Bool-cases,
}
use randbotd.Base.Text.{
  Text, len, is_empty, ends_with_text, ends_with_text_sound, ends_with_text_append,
}
use randbotd.Scope.{
  clean_candidate, clean_subtree, matches_subtree, any_subtree, is_domain_in_permitted_subtrees,
}

-- A name lies in a subtree: it is a proper subdomain of what follows a leading dot, or else the subtree's
-- name itself or a subdomain of it.
abbrev pub LiesIn : Text → Text → Type 0
LiesIn cand [] = ⊥
LiesIn cand (x ∷ suffix) =
    ((x ≡ b'.') × ((front : Text) × (cand ≡ front ++ (x ∷ suffix))))
    ⊎ ((x ≢ b'.')
        × ((cand ≡ x ∷ suffix) ⊎ ((front : Text) × (cand ≡ front ++ (b'.' ∷ x ∷ suffix)))))

abbrev pub LiesInSome : Text → List Text → Type 0
LiesInSome cand [] = ⊥
LiesInSome cand (s ∷ ss) = LiesIn cand s ⊎ LiesInSome cand ss

module _ (to_lowercase : Text → Text) where
  -- The second half of the leading-dot test can never hold.
  no_longer_equal :
      (cand suffix : Text) → (bytes_eq cand suffix && ltb (len suffix) (len cand)) ≡ false
  no_longer_equal cand suffix = elim (Bool-cases (bytes_eq cand suffix)) [
    | inr e ↦ rw e refl
    | inl e ↦ rw (e, bytes_eq_sound cand suffix e) (ground arith)
  ]

  matches_subtree_sound :
      (cand sub : Text) → matches_subtree to_lowercase cand sub ≡ true → LiesIn cand sub
  unfolding matches_subtree
  matches_subtree_sound cand [] h = cc
  matches_subtree_sound cand (x ∷ suffix) h = elim (Bool-cases (x == b'.')) [
    | inl dot ↦
        let tail : ends_with_text cand (x ∷ suffix) ≡ true =
          ground (arith, no_longer_equal cand suffix) in
        inl (ground arith, ends_with_text_sound cand (x ∷ suffix) tail)
    | inr plain ↦ elim (Bool-cases (bytes_eq cand (x ∷ suffix))) [
      | inl same ↦ inr (ground arith, inl (bytes_eq_sound cand (x ∷ suffix) same))
      | inr differs ↦
          let tail : ends_with_text cand (b'.' ∷ x ∷ suffix) ≡ true = ground arith in
          inr (ground arith, inr (ends_with_text_sound cand (b'.' ∷ x ∷ suffix) tail))
    ]
  ]

  matches_subtree_complete :
      (cand sub : Text) → LiesIn cand sub → matches_subtree to_lowercase cand sub ≡ true
  unfolding matches_subtree
  matches_subtree_complete cand [] h = absurd h
  matches_subtree_complete cand (x ∷ suffix) (inl (dot, (front, e))) =
      ground
        (arith, ends_with_text_append front (x ∷ suffix), ap (λ t. ends_with_text t (x ∷ suffix)) e)
  matches_subtree_complete cand (x ∷ suffix) (inr (plain, inl e)) =
      ground (arith, bytes_eq_refl (x ∷ suffix), ap (λ t. bytes_eq t (x ∷ suffix)) e)
  matches_subtree_complete cand (x ∷ suffix) (inr (plain, inr (front, e))) = ground (
    arith,
    ends_with_text_append front (b'.' ∷ x ∷ suffix),
    ap (λ t. ends_with_text t (b'.' ∷ x ∷ suffix)) e,
  )

  any_subtree_iff :
      (cand : Text) (ss : List Text)
      → (any_subtree to_lowercase cand ss ≡ true)
        ↔ LiesInSome cand (map (clean_subtree to_lowercase) ss)
  unfolding any_subtree
  any_subtree_iff cand [] = (λ h. cc, λ h. absurd h)
  any_subtree_iff cand (s ∷ ss) =
      let sub = clean_subtree to_lowercase s in
      let ih = any_subtree_iff cand ss in
      (
        λ h. elim (Bool-cases (matches_subtree to_lowercase cand sub)) [
          | inl hit ↦ inl (matches_subtree_sound cand sub hit)
          | inr miss ↦ inr (ih.0 (ground arith))
        ],
        λ h. elim h [
          | inl here ↦ ground (arith, matches_subtree_complete cand sub here)
          | inr there ↦ elim (Bool-cases (matches_subtree to_lowercase cand sub)) [
            | inl hit ↦ rw hit
            | inr miss ↦ rw (miss, ih.1 there)
          ]
        ],
      )

  -- Under a non-empty list of subtrees a domain is permitted exactly if its cleaned name is not empty and
  -- lies in one of the cleaned subtrees: it is the subtree's name or a subdomain behind a dot, so a name
  -- that only ends with the same letters is refused.
  pub is_domain_in_permitted_subtrees_iff :
      (domain s : Text) (ss : List Text)
      → (is_domain_in_permitted_subtrees to_lowercase domain (s ∷ ss) ≡ true) ↔ (
          (is_empty (clean_candidate to_lowercase domain) ≡ false)
          × LiesInSome
              (clean_candidate to_lowercase domain)
              (map (clean_subtree to_lowercase) (s ∷ ss)))
  unfolding is_domain_in_permitted_subtrees
  is_domain_in_permitted_subtrees_iff domain s ss =
      let cand = clean_candidate to_lowercase domain in
      let some_iff = any_subtree_iff cand (s ∷ ss) in
      elim (Bool-cases (is_empty cand)) [
        | inl e ↦ rw e (λ h. cc, λ h. cc (h.0))
        | inr e ↦ rw e (λ h. (refl, some_iff.0 h), λ h. some_iff.1 h.1)
      ]
