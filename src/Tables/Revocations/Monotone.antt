-- ===== src/Tables/Revocations/Monotone.antt =====
-- storage/db/subtables/cert_subtable.rs, `insert_crl`: the number of the stored list.
use randbotd.Base.{
  ℕ, ◌≤◌, ◌≡◌, refl, subst, sym, Bool, true, false, Option, none, some, arith, bytes_eq,
  bytes_eq_sound, if◌then◌else◌,
}
use randbotd.Base.Result.{Result, ok, err}
use randbotd.Base.Bytes.{Bytes}
use randbotd.Base.Dict.{get, get-put}
use randbotd.Crl.{CertificateRevocationList}
use randbotd.Tables.{Tables, TableError, persist, after}
use randbotd.Tables.Revocations.{get_crl, check_crl, store_crl, insert_crl}

-- There is a list, and its number is at least `n`.
abbrev pub IsAtLeast : ℕ → Option CertificateRevocationList → Type 0
IsAtLeast n none = ⊥
IsAtLeast n (some crl) = n ≤ crl.crl_number

check_crl-IsAtLeast :
    (n : ℕ) (o : Option CertificateRevocationList) (crl : CertificateRevocationList)
    → IsAtLeast n o
    → check_crl o crl ≡ ok tt
    → n ≤ crl.crl_number
unfolding check_crl
check_crl-IsAtLeast n none crl p h = absurd p
check_crl-IsAtLeast n (some x) crl p h = ground arith

-- Whatever list is inserted, accepted or not and written to disk or not, an authority that has a list
-- still has one, and its number has not fallen.
pub insert_crl-IsAtLeast :
    (t : Tables) (crl : CertificateRevocationList) (ca : Bytes) (n : ℕ)
    → IsAtLeast n (get_crl t ca)
    → IsAtLeast n (get_crl (insert_crl t crl).0 ca)
unfolding insert_crl store_crl get_crl
insert_crl-IsAtLeast t crl ca n p = go (check_crl (get t.crl_store crl.issuer_ca_id) crl) refl
  where
    stored :
        (b : Bool)
        → bytes_eq crl.issuer_ca_id ca ≡ b
        → check_crl (get t.crl_store crl.issuer_ca_id) crl ≡ ok tt
        → IsAtLeast n (if b then some crl else get t.crl_store ca)
    stored true e h =
        let same = bytes_eq_sound crl.issuer_ca_id ca e in
        check_crl-IsAtLeast n (get t.crl_store crl.issuer_ca_id) crl
          (subst (λ k. IsAtLeast n (get t.crl_store k)) (sym same) p) h
    stored false e h = p

    go :
        (r : Result TableError (Unit {0}))
        → check_crl (get t.crl_store crl.issuer_ca_id) crl ≡ r
        → IsAtLeast n (get (after r t (persist (store_crl t crl) crl.issuer_ca_id)).0.crl_store ca)
    go (err e) h = p
    go (ok _) h =
        subst (IsAtLeast n) (sym (get-put t.crl_store crl.issuer_ca_id crl ca))
          (stored (bytes_eq crl.issuer_ca_id ca) refl h)
