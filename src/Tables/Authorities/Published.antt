-- ===== src/Tables/Authorities/Published.antt =====
-- storage/db/subtables/ca_subtable.rs, `insert_ca`: a published authority stays published.
use randbotd.Base.{
  ◌≡◌, refl, subst, sym, Bool, true, false, Option, none, some, arith, bytes_eq, bytes_eq_sound,
  if◌then◌else◌,
}
use randbotd.Base.Result.{Result, ok, err}
use randbotd.Base.Bytes.{Bytes}
use randbotd.Base.Dict.{get, get-put}
use randbotd.Ca.{CaDeclaration}
use randbotd.Tables.{Tables, TableError, persist}
use randbotd.Tables.Authorities.{get_ca, merge_ca, check_ca, store_ca, insert_ca}

abbrev pub IsPublished : Option CaDeclaration → Type 0
IsPublished none = ⊥
IsPublished (some ca) = ca.is_draft ≡ false

merge_ca-IsPublished :
    (o : Option CaDeclaration) (decl ca : CaDeclaration)
    → IsPublished o
    → merge_ca o decl ≡ ok ca
    → ca.is_draft ≡ false
unfolding merge_ca
merge_ca-IsPublished none decl ca p h = absurd p
merge_ca-IsPublished (some x) decl ca p h = ground arith

check_ca-IsPublished :
    (t : Tables) (decl ca : CaDeclaration)
    → IsPublished (get_ca t decl.ca_id)
    → check_ca t decl ≡ ok ca
    → ca.is_draft ≡ false
unfolding check_ca
check_ca-IsPublished t decl ca p h =
    merge_ca-IsPublished (get_ca t decl.ca_id) decl ca p (ground arith)

-- Whatever declaration is inserted, accepted or not and written to disk or not, an authority that is
-- published stays known and published.
pub insert_ca-IsPublished :
    (t : Tables) (decl : CaDeclaration) (ca_id : Bytes)
    → IsPublished (get_ca t ca_id)
    → IsPublished (get_ca (insert_ca t decl).0 ca_id)
unfolding insert_ca store_ca get_ca
insert_ca-IsPublished t decl ca_id p = go (check_ca t decl) refl
  where
    stored :
        (ca : CaDeclaration) (b : Bool)
        → bytes_eq decl.ca_id ca_id ≡ b
        → check_ca t decl ≡ ok ca
        → IsPublished (if b then some ca else get t.ca_store ca_id)
    stored ca true e h =
        check_ca-IsPublished t decl ca
          (subst (λ k. IsPublished (get t.ca_store k)) (sym (bytes_eq_sound decl.ca_id ca_id e)) p)
          h
    stored ca false e h = p

    go :
        (r : Result TableError CaDeclaration)
        → check_ca t decl ≡ r
        → IsPublished (
            get
              (elim r as (λ _. Tables × Result TableError Bytes) [
                | err e ↦ (t, err e)
                | ok ca ↦ persist (store_ca t decl.ca_id ca) decl.ca_id
              ]).0.ca_store
              ca_id)
    go (err e) h = p
    go (ok ca) h =
        subst IsPublished (sym (get-put t.ca_store decl.ca_id ca ca_id))
          (stored ca (bytes_eq decl.ca_id ca_id) refl h)
