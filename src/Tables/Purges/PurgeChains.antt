-- ===== src/Tables/Purges/PurgeChains.antt =====
-- storage/db/subtables/purge_subtable.rs, `insert_purge`: the chain of every authority.
use randbotd.Base.{◌+◌, ◌<◌, ◌≡◌, refl, false, arith, length, last}
use randbotd.Base.Result.{Result, ok, err}
use randbotd.Base.Bytes.{u64_mod}
use randbotd.Base.Dict.{values, contains_key, values-put_new}
use randbotd.Chain.Latest.{check_latest, sort_by_seq}
use randbotd.Chain.Keyed.{AreChains, AreChains-snoc}
use randbotd.Purge.Accepted.{purge_links}
use randbotd.Purge.{DomainPurgeRecord}
use randbotd.Tables.{Tables, TableError, persist, after}
use randbotd.Tables.Purges.{purges_of, get_purges_for_ca, check_purge, store_purge, insert_purge}

-- Sorted by their numbers, the purges of each authority make one chain.
unfoldable pub ArePurgesChained : Tables → Type 0
ArePurgesChained t = AreChains purge_links (λ p. p.ca_id) (values t.purge_store)

module _ (t : Tables) (p : DomainPurgeRecord) where
  check_purge-latest :
      check_purge t p ≡ ok tt
      → check_latest purge_links p (last (sort_by_seq purge_links (purges_of t p.ca_id))) ≡ ok tt
  unfolding check_purge get_purges_for_ca
  check_purge-latest h = ground arith

  -- Inserting a purge under an identifier that the store does not hold, accepted or not and written to
  -- disk or not, leaves the purges of every authority one chain from the zero hash on, while the store has
  -- room for one more 64-bit number.
  pub insert_purge-ArePurgesChained :
      ArePurgesChained t
      → contains_key t.purge_store p.purge_id ≡ false
      → length (values t.purge_store) + 1 < u64_mod
      → ArePurgesChained (insert_purge t p).0
  unfolding insert_purge store_purge ArePurgesChained
  insert_purge-ArePurgesChained g fresh small = go (check_purge t p) refl
    where
      go :
          (r : Result TableError (Unit {0}))
          → check_purge t p ≡ r
          → ArePurgesChained (after r t (persist (store_purge t p) p.purge_id)).0
      go (err x) h = g
      go (ok _) h = λ k. rw (values-put_new t.purge_store p.purge_id p fresh) (
          AreChains-snoc purge_links (λ x. x.ca_id) (values t.purge_store) p g
            (check_purge-latest h) small k)
