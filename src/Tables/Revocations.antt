-- ===== src/Tables/Revocations.antt =====
-- storage/db/subtables/cert_subtable.rs, the table of revocation lists.
pub mod Monotone
use randbotd.Base.{Bool, false, Option, none, some, List, ltb, any}
use randbotd.Base.Result.{Result, ok, fail_if}
use randbotd.Base.Bytes.{Bytes}
use randbotd.Base.Dict.{get, put, values}
use randbotd.Crl.{CertificateRevocationList}
use randbotd.Tables.{Tables, TableError, older_crl, persist, after}

unfoldable pub get_crl : Tables → Bytes → Option CertificateRevocationList
get_crl t issuer_ca_id = get t.crl_store issuer_ca_id

unfoldable pub list_crls : Tables → List CertificateRevocationList
list_crls t = values t.crl_store

unfoldable pub check_crl :
    Option CertificateRevocationList → CertificateRevocationList → Result TableError (Unit {0})
check_crl none crl = ok tt
check_crl (some existing) crl =
    fail_if (ltb crl.crl_number existing.crl_number) (older_crl crl.crl_number existing.crl_number)

unfoldable pub store_crl : Tables → CertificateRevocationList → Tables
store_crl t crl = record t { crl_store = put t.crl_store crl.issuer_ca_id crl }

unfoldable pub insert_crl : Tables → CertificateRevocationList → Tables × Result TableError Bytes
insert_crl t crl =
    after (check_crl (get_crl t crl.issuer_ca_id) crl) t
      (persist (store_crl t crl) crl.issuer_ca_id)

unfoldable pub is_serial_revoked_by : Tables → Bytes → Bytes → Bool
is_serial_revoked_by t issuer_ca_id serial = elim (get_crl t issuer_ca_id) [
  | none ↦ false
  | some crl ↦ randbotd.Crl.is_serial_revoked crl serial
]

unfoldable pub is_cert_revoked_any : Tables → Bytes → Bool
is_cert_revoked_any t serial = any (λ crl. randbotd.Crl.is_serial_revoked crl serial) (list_crls t)
