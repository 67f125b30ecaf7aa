-- ===== src/Tables/Authorities.antt =====
-- storage/db/subtables/ca_subtable.rs.
pub mod Published
use randbotd.Base.{not, ◌&&◌, Option, none, some, List, if◌then◌else◌}
use randbotd.Base.Result.{Result, ok, err, map_err, ◌>>=◌, ◌>>◌}
use randbotd.Base.Bytes.{Bytes}
use randbotd.Base.Dict.{get, put, values}
use randbotd.Ca.{CaDeclaration, validate_subject, is_some, is_nil}
use randbotd.Tables.{Tables, TableError, invalid_subject, demotion, persist}

unfoldable pub get_ca : Tables → Bytes → Option CaDeclaration
get_ca t ca_id = get t.ca_store ca_id

unfoldable pub list_cas : Tables → List CaDeclaration
list_cas t = values t.ca_store

-- What an incoming declaration keeps of the one it replaces, or an error.
unfoldable pub merge_ca : Option CaDeclaration → CaDeclaration → Result TableError CaDeclaration
merge_ca none decl = ok decl
merge_ca (some existing) decl =
    if not existing.is_draft && decl.is_draft
    then err demotion
    else ok (record decl {
      current_catalog_hash =
          if is_some decl.current_catalog_hash
          then decl.current_catalog_hash
          else existing.current_catalog_hash;
      offer_ids = if is_nil decl.offer_ids then existing.offer_ids else decl.offer_ids;
    })

unfoldable pub store_ca : Tables → Bytes → CaDeclaration → Tables
store_ca t ca_id ca = record t { ca_store = put t.ca_store ca_id ca }

unfoldable pub check_ca : Tables → CaDeclaration → Result TableError CaDeclaration
check_ca t decl = do
  map_err invalid_subject (validate_subject decl.subject)
  map_err invalid_subject (validate_subject decl.issuer)
  merge_ca (get_ca t decl.ca_id) decl

unfoldable pub insert_ca : Tables → CaDeclaration → Tables × Result TableError Bytes
insert_ca t decl = elim (check_ca t decl) [
  | err e ↦ (t, err e)
  | ok ca ↦ persist (store_ca t decl.ca_id ca) decl.ca_id
]
