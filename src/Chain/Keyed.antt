-- ===== src/Chain/Keyed.antt =====
-- The tables of votes and purges (storage/db/subtables/): one store holds the records of many chains, each
-- under the key of its voter or its authority.
use randbotd.Base.{
  ◌+◌, ◌<◌, ◌≡◌, subst, inl, inr, List, [], ◌∷◌, ◌++◌, append-nil, arith, bytes_eq, bytes_eq_sound,
  Bool-cases, length, filter, last, filter-append, length-filter-le,
}
use randbotd.Base.Result.{ok}
use randbotd.Base.Bytes.{Bytes, u64_mod}
use randbotd.Chain.{Links}
use randbotd.Chain.Latest.{check_latest, sort_by_seq, IsChain, IsChain-snoc}

module _ {ℓ} {A : Type ℓ} (l : Links A) (key : A → Bytes) where
  abbrev pub records_of : Bytes → List A → List A
  records_of k = filter (λ a. bytes_eq (key a) k)

  abbrev pub AreChains : List A → Type ℓ
  AreChains as' = (k : Bytes) → IsChain l (records_of k as')

  -- A record that passes the check against the last one of its key extends the chain of that key.
  pub AreChains-snoc :
      (as' : List A) (a : A)
      → AreChains as'
      → check_latest l a (last (sort_by_seq l (records_of (key a) as'))) ≡ ok tt
      → length as' + 1 < u64_mod
      → AreChains (as' ++ a ∷ [])
  AreChains-snoc as' a g h small k = elim (Bool-cases (bytes_eq (key a) k)) [
    | inl mine ↦
        let e : key a ≡ k = bytes_eq_sound (key a) k mine in
        rw (filter-append (λ x. bytes_eq (key x) k) as' (a ∷ []), mine)
          (IsChain-snoc l (records_of k as') a (g k)
            (subst (λ t. check_latest l a (last (sort_by_seq l (records_of t as'))) ≡ ok tt) e h)
            (omega (arith, length-filter-le (λ x. bytes_eq (key x) k) as', small)))
    | inr other ↦ rw (filter-append (λ x. bytes_eq (key x) k) as' (a ∷ []), other, append-nil) (g k)
  ]
