-- ===== src/Base/Dict.antt =====
-- `HashMap<[u8; 32], V>`: a list of keys and values, in the order in which the keys came in.
use randbotd.Base.Tests.{if◌then◌else◌, bytes_eq, bytes_eq_sound, bytes_eq_refl, Bool-cases}
use randbotd.Base.Bytes.{Bytes}
use mathlib.Core.Path.{◌≡◌, refl, ap, sym, ◌∙◌}
use mathlib.Core.Logic.{inl, inr}
use mathlib.Core.Bool.{Bool, true, false}
use mathlib.Core.Option.{Option, none, some}
use mathlib.Core.List.{List, [], ◌∷◌, ◌++◌}

abbrev pub Dict {ℓ} : Type ℓ → Type ℓ
Dict V = List (Bytes × V)

module _ {ℓ} {V : Type ℓ} where
  abbrev pub get : Dict V → Bytes → Option V
  get [] k = none
  get ((k', v) ∷ d) k = let rest = get d k in if bytes_eq k' k then some v else rest

  -- `insert`: the value of the key is replaced, or the key is new.
  abbrev pub put : Dict V → Bytes → V → Dict V
  put [] k v = (k, v) ∷ []
  put ((k', v') ∷ d) k v =
      let rest = put d k v in if bytes_eq k' k then (k, v) ∷ d else (k', v') ∷ rest

  abbrev pub values : Dict V → List V
  values [] = []
  values ((k, v) ∷ d) = v ∷ values d

  abbrev pub or_default : Option V → V → V
  or_default none w = w
  or_default (some v) w = v

  abbrev pub get_or_default : Dict V → Bytes → V → V
  get_or_default d k w = or_default (get d k) w

  abbrev is_some : Option V → Bool
  is_some none = false
  is_some (some v) = true

  abbrev pub contains_key : Dict V → Bytes → Bool
  contains_key d k = is_some (get d k)

  pub get-put_same : (d : Dict V) (k : Bytes) (v : V) → get (put d k v) k ≡ some v
  get-put_same [] k v = rw (bytes_eq_refl k) refl
  get-put_same ((k', v') ∷ d) k v = elim (Bool-cases (bytes_eq k' k)) [
    | inl e ↦ rw (e, bytes_eq_refl k) refl
    | inr e ↦ rw (e, e) (get-put_same d k v)
  ]

  pub get-put_other :
      (d : Dict V) (k : Bytes) (v : V) (j : Bytes)
      → bytes_eq k j ≡ false
      → get (put d k v) j ≡ get d j
  get-put_other [] k v j h = rw h refl
  get-put_other ((k', v') ∷ d) k v j h = elim (Bool-cases (bytes_eq k' k)) [
    | inl e ↦ rw (e, h, ap (λ t. bytes_eq t j) (bytes_eq_sound k' k e), h) refl
    | inr e ↦ rw (e, get-put_other d k v j h) refl
  ]

  -- A new key comes last.
  pub values-put_new :
      (d : Dict V) (k : Bytes) (v : V)
      → contains_key d k ≡ false
      → values (put d k v) ≡ values d ++ v ∷ []
  values-put_new [] k v h = refl
  values-put_new ((k', v') ∷ d) k v h = elim (Bool-cases (bytes_eq k' k)) [
    | inl e ↦ absurd (found (rw (e, if◌then◌else◌) at h))
    | inr e ↦ rw e (ap (λ t. v' ∷ t) (values-put_new d k v (rw (e, if◌then◌else◌) at h)))
  ]
    where
      found : true ≡ false → ⊥
      found e = cc

  pub get-put :
      (d : Dict V) (k : Bytes) (v : V) (j : Bytes)
      → get (put d k v) j ≡ (if bytes_eq k j then some v else get d j)
  get-put d k v j = elim (Bool-cases (bytes_eq k j)) [
    | inl e ↦ rw (e, sym (bytes_eq_sound k j e)) (get-put_same d k v)
    | inr e ↦ rw e (get-put_other d k v j e)
  ]

  pub get_or_default-put :
      (d : Dict V) (k : Bytes) (v : V) (j : Bytes) (w : V)
      → get_or_default (put d k v) j w ≡ (if bytes_eq k j then v else get_or_default d j w)
  get_or_default-put d k v j w = ap (λ o. or_default o w) (get-put d k v j) ∙ pick (bytes_eq k j)
    where
      pick :
          (b : Bool)
          → or_default (if b then some v else get d j) w ≡ (if b then v else get_or_default d j w)
      pick true = refl
      pick false = refl
