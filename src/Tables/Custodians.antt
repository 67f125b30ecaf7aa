-- ===== src/Tables/Custodians.antt =====
-- storage/db/subtables/custodian_subtable.rs: the active custodians and the acceptance policy of an authority.
pub mod Unique
use randbotd.Base.{
  Bool, false, not, Option, none, some, List, [], ◌∷◌, ◌++◌, ltb, bytes_eq, length, filter,
  if◌then◌else◌,
}
use randbotd.Base.Result.{Result, ok}
use randbotd.Base.Bytes.{Bytes}
use randbotd.Base.Dict.{get, put, get_or_default}
use randbotd.Swarm.{CustodianSwarmRecord, CaCustodianPolicy}
use randbotd.Tables.{Tables, TableError, persist}

-- `list.retain(|c| c.worker_pubkey != worker_pubkey)`.
unfoldable pub without_worker : Bytes → List CustodianSwarmRecord → List CustodianSwarmRecord
without_worker worker list = filter (λ r. not (bytes_eq r.worker_pubkey worker)) list

unfoldable pub get_custodians_for_ca : Tables → Bytes → List CustodianSwarmRecord
get_custodians_for_ca t ca_id = get_or_default t.custodian_store ca_id []

unfoldable pub store_custodian : Tables → CustodianSwarmRecord → Tables
store_custodian t r = record t {
  custodian_store =
      put t.custodian_store r.ca_id
        (without_worker r.worker_pubkey (get_custodians_for_ca t r.ca_id) ++ r ∷ []);
}

unfoldable pub insert_custodian_record :
    Tables → CustodianSwarmRecord → Tables × Result TableError (Unit {0})
insert_custodian_record t r = persist (store_custodian t r) tt

-- The list without the worker, if the authority has one, and whether it became shorter.
unfoldable pub drop_custodian : Tables → Bytes → Bytes → Tables × Bool
drop_custodian t ca_id worker = elim (get t.custodian_store ca_id) [
  | none ↦ (t, false)
  | some list ↦ (
    record t { custodian_store = put t.custodian_store ca_id (without_worker worker list) },
    ltb (length (without_worker worker list)) (length list),
  )
]

unfoldable pub remove_custodian : Tables → Bytes → Bytes → Tables × Result TableError Bool
remove_custodian t ca_id worker =
    let (t', removed) = drop_custodian t ca_id worker in
    if removed then persist t' removed else (t', ok removed)

unfoldable pub get_ca_custodian_policy : Tables → Bytes → Option CaCustodianPolicy
get_ca_custodian_policy t ca_id = get t.policy_store ca_id

unfoldable pub set_ca_custodian_policy :
    Tables → Bytes → CaCustodianPolicy → Tables × Result TableError (Unit {0})
set_ca_custodian_policy t ca_id policy =
    persist (record t { policy_store = put t.policy_store ca_id policy }) tt
