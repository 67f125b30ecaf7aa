-- ===== src/Tables/Purges.antt =====
-- storage/db/subtables/purge_subtable.rs.
pub mod PurgeChains
use randbotd.Base.{
  ℕ, Bool, true, false, ◌&&◌, Option, none, some, List, ltb, leb, bytes_eq, length, filter, any,
  find, last,
}
use randbotd.Base.Result.{Result, map_err, fail_if, ◌>>=◌, ◌>>◌}
use randbotd.Base.Bytes.{Bytes}
use randbotd.Base.Text.{Text, to_ascii_lowercase}
use randbotd.Base.Dict.{get, put, values}
use randbotd.Chain.Latest.{check_latest, sort_by_seq}
use randbotd.Purge.Accepted.{purge_links}
use randbotd.Purge.{DomainPurgeRecord}
use randbotd.Tables.{Tables, TableError, discontinuous, expired_at_birth, persist, after}

abbrev pub is_issued_by : Bytes → DomainPurgeRecord → Bool
is_issued_by ca_id p = bytes_eq p.ca_id ca_id

abbrev pub purges_of : Tables → Bytes → List DomainPurgeRecord
purges_of t ca_id = filter (is_issued_by ca_id) (values t.purge_store)

unfoldable pub get_purges_for_ca : Tables → Bytes → List DomainPurgeRecord
get_purges_for_ca t ca_id = sort_by_seq purge_links (purges_of t ca_id)

unfoldable pub get_purge : Tables → Bytes → Option DomainPurgeRecord
get_purge t purge_id = get t.purge_store purge_id

unfoldable pub get_latest_purge_for_ca : Tables → Bytes → Option DomainPurgeRecord
get_latest_purge_for_ca t ca_id = last (get_purges_for_ca t ca_id)

unfoldable pub count_active_unexpired_purges_for_ca : Tables → Bytes → ℕ → ℕ
count_active_unexpired_purges_for_ca t ca_id now =
    length (filter (λ p. bytes_eq p.ca_id ca_id && ltb now p.expires_at) (values t.purge_store))

abbrev pub eq_ignore_ascii_case : Text → Text → Bool
eq_ignore_ascii_case a b = bytes_eq (to_ascii_lowercase a) (to_ascii_lowercase b)

unfoldable pub get_active_purge_for_domain : Tables → Text → ℕ → Option DomainPurgeRecord
get_active_purge_for_domain t domain now =
    find (λ p. eq_ignore_ascii_case p.domain domain && ltb now p.expires_at) (values t.purge_store)

abbrev is_found {ℓ} : {A : Type ℓ} → Option A → Bool
is_found none = false
is_found (some a) = true

unfoldable pub is_domain_purged : Tables → Text → ℕ → Bool
is_domain_purged t domain now = is_found (get_active_purge_for_domain t domain now)

unfoldable pub is_domain_purged_by_ca : Tables → Bytes → Text → ℕ → Bool
is_domain_purged_by_ca t ca_id domain now =
    any
      (λ p. bytes_eq p.ca_id ca_id && eq_ignore_ascii_case p.domain domain && ltb now p.expires_at)
      (values t.purge_store)

-- The checks of `insert_purge`.
unfoldable pub check_purge : Tables → DomainPurgeRecord → Result TableError (Unit {0})
check_purge t p = do
  map_err discontinuous (check_latest purge_links p (last (get_purges_for_ca t p.ca_id)))
  fail_if (leb p.expires_at p.timestamp) (expired_at_birth p.timestamp p.expires_at)

unfoldable pub store_purge : Tables → DomainPurgeRecord → Tables
store_purge t p = record t { purge_store = put t.purge_store p.purge_id p }

unfoldable pub insert_purge : Tables → DomainPurgeRecord → Tables × Result TableError Bytes
insert_purge t p = after (check_purge t p) t (persist (store_purge t p) p.purge_id)
