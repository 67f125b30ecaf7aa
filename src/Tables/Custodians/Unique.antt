-- ===== src/Tables/Custodians/Unique.antt =====
-- storage/db/subtables/custodian_subtable.rs: one record for each worker.
use randbotd.Base.{
  ℕ, ◌≤◌, ◌≡◌, refl, sym, subst, Bool, true, false, Option, none, some, List, [], ◌∷◌, ◌++◌, arith,
  bytes_eq, bytes_eq_sound, Bool-cases, inl, inr, length, ltb, filter, filter-append, length-append,
  if◌then◌else◌, append-nil,
}
use randbotd.Base.Result.{ok}
use randbotd.Base.Bytes.{Bytes}
use randbotd.Base.Dict.{get, put, get_or_default, get_or_default-put, or_default}
use randbotd.Swarm.{CustodianSwarmRecord}
use randbotd.Tables.{Tables, persist}
use randbotd.Tables.Custodians.{
  without_worker, get_custodians_for_ca, store_custodian, insert_custodian_record, drop_custodian,
  remove_custodian,
}

abbrev pub count_worker : Bytes → List CustodianSwarmRecord → ℕ
count_worker w list = length (filter (λ r. bytes_eq r.worker_pubkey w) list)

-- No worker has two records in the swarm of an authority.
abbrev pub AreUnique : Tables → Type 0
AreUnique t = (ca worker : Bytes) → count_worker worker (get_or_default t.custodian_store ca []) ≤ 1

count-without_same :
    (w : Bytes) (list : List CustodianSwarmRecord) → count_worker w (without_worker w list) ≡ 0
unfolding without_worker
count-without_same w [] = refl
count-without_same w (r ∷ rs) = ground (arith, count-without_same w rs)

count-without_le :
    (w v : Bytes) (list : List CustodianSwarmRecord)
    → count_worker w (without_worker v list) ≤ count_worker w list
unfolding without_worker
count-without_le w v [] = omega arith
count-without_le w v (r ∷ rs) = ground (arith, count-without_le w v rs)

count-replaced :
    (w : Bytes) (r : CustodianSwarmRecord) (list : List CustodianSwarmRecord)
    → count_worker w list ≤ 1
    → count_worker w (without_worker r.worker_pubkey list ++ r ∷ []) ≤ 1
count-replaced w r list h = elim (Bool-cases (bytes_eq r.worker_pubkey w)) [
  | inl e ↦
      let same = bytes_eq_sound r.worker_pubkey w e in
      rw
        (
          filter-append (λ x. bytes_eq x.worker_pubkey w) (without_worker r.worker_pubkey list)
              (r ∷ []),
          e,
        )
        (omega (
          arith,
          length-append
              (filter (λ x. bytes_eq x.worker_pubkey w) (without_worker r.worker_pubkey list))
              (r ∷ []),
          subst (λ k. count_worker w (without_worker k list) ≡ 0) (sym same)
              (count-without_same w list),
        ))
  | inr e ↦
      rw
        (
          filter-append (λ x. bytes_eq x.worker_pubkey w) (without_worker r.worker_pubkey list)
              (r ∷ []),
          e,
          append-nil,
        )
        (omega (arith, count-without_le w r.worker_pubkey list, h))
]

put-AreUnique :
    (t : Tables) (ca : Bytes) (list : List CustodianSwarmRecord)
    → AreUnique t
    → ((w : Bytes) → count_worker w list ≤ 1)
    → AreUnique (record t { custodian_store = put t.custodian_store ca list })
put-AreUnique t ca list g h k w =
    subst (λ l. count_worker w l ≤ 1) (sym (get_or_default-put t.custodian_store ca list k []))
      (pick (bytes_eq ca k))
  where
    pick :
        (b : Bool) → count_worker w (if b then list else get_or_default t.custodian_store k []) ≤ 1
    pick true = h w
    pick false = g k w

-- Adding a custodian, written to disk or not, keeps one record at most for each worker of an authority.
pub insert_custodian_record-AreUnique :
    (t : Tables) (r : CustodianSwarmRecord)
    → AreUnique t
    → AreUnique (insert_custodian_record t r).0
unfolding insert_custodian_record store_custodian get_custodians_for_ca
insert_custodian_record-AreUnique t r g =
    let list = get_or_default t.custodian_store r.ca_id [] in
    put-AreUnique t r.ca_id (without_worker r.worker_pubkey list ++ r ∷ []) g
      λ w. count-replaced w r list (g r.ca_id w)

pub drop_custodian-AreUnique :
    (t : Tables) (ca worker : Bytes) → AreUnique t → AreUnique (drop_custodian t ca worker).0
unfolding drop_custodian
drop_custodian-AreUnique t ca worker g = go (get t.custodian_store ca) refl
  where
    go :
        (o : Option (List CustodianSwarmRecord))
        → get t.custodian_store ca ≡ o
        → AreUnique
            (elim o as (λ _. Tables × Bool) [
              | none ↦ (t, false)
              | some list ↦ (
                record t {
                  custodian_store = put t.custodian_store ca (without_worker worker list);
                },
                ltb (length (without_worker worker list)) (length list),
              )
            ]).0
    go none h = g
    go (some list) h = put-AreUnique t ca (without_worker worker list) g λ w. omega (
      arith,
      count-without_le w worker list,
      subst (λ l. count_worker w (or_default l []) ≤ 1) h (g ca w),
    )

-- Removing a custodian, found or not, keeps one record at most for each worker of an authority.
pub remove_custodian-AreUnique :
    (t : Tables) (ca worker : Bytes) → AreUnique t → AreUnique (remove_custodian t ca worker).0
unfolding remove_custodian
remove_custodian-AreUnique t ca worker g =
    go (drop_custodian t ca worker) (drop_custodian-AreUnique t ca worker g)
  where
    go :
        (r : Tables × Bool)
        → AreUnique r.0
        → AreUnique (if r.1 then persist r.0 r.1 else (r.0, ok r.1)).0
    go (t', true) h = h
    go (t', false) h = h
