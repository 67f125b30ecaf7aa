-- ===== src/Crl.antt =====
-- pki/crl.rs and pki/cert/serial.rs: certificate serial numbers and revocation lists. The DER form of a list
-- is walked as the source walks it; `none` is a panic, where a slice is cut beyond its buffer.
pub mod Serial
pub mod Panic
use randbotd.Base.{
  ℕ, ◌+◌, ◌*◌, ◌-◌, ◌%◌, Bool, not, Option, none, some, List, [], ◌∷◌, ltb, ◌==◌, any, bytes_eq,
  length, if◌then◌else◌, take, slice,
}
use randbotd.Base.Result.{Result, ok, err, fail_if, map_err, ◌>>=◌, ◌>>◌}
use randbotd.Base.Bytes.{Bytes, u64_mod}
use randbotd.Base.Text.{Text}
use randbotd.Base.Crypto.{Crypto}
use randbotd.Agility.{KeyAlgorithm, Suites, AgilityError, verify_signature_by_algorithm}
use randbotd.Ca.{CaSubjectMetadata, is_nil}

pub data CrlReason : Type 0 where
  unspecified key_compromise ca_compromise affiliation_changed superseded : CrlReason
  cessation_of_operation certificate_hold privilege_withdrawn aa_compromise : CrlReason

unfoldable pub from_u8 : ℕ → Option CrlReason
from_u8 val =
    if val == 0
    then some unspecified
    else if val == 1
    then some key_compromise
    else if val == 2
    then some ca_compromise
    else if val == 3
    then some affiliation_changed
    else if val == 4
    then some superseded
    else if val == 5
    then some cessation_of_operation
    else if val == 6
    then some certificate_hold
    else if val == 9
    then some privilege_withdrawn
    else if val == 10
    then some aa_compromise
    else none

-- The discriminant, `reason as u8`.
unfoldable pub reason_code : CrlReason → ℕ
reason_code unspecified = 0
reason_code key_compromise = 1
reason_code ca_compromise = 2
reason_code affiliation_changed = 3
reason_code superseded = 4
reason_code cessation_of_operation = 5
reason_code certificate_hold = 6
reason_code privilege_withdrawn = 9
reason_code aa_compromise = 10

pub record RevokedCertificateEntry : Type 0 where
  pub serial_number : Bytes
  pub revocation_date : ℕ
  pub reason : Option CrlReason

pub record CertificateRevocationList : Type 0 where
  pub crl_number : ℕ
  pub issuer_ca_id : Bytes
  pub issuer : CaSubjectMetadata
  pub this_update : ℕ
  pub next_update : ℕ
  pub revoked_certificates : List RevokedCertificateEntry
  pub signature_algorithm : KeyAlgorithm
  pub signature_bytes : Bytes
  pub der_bytes : Bytes
  pub pem_crl : Text

unfoldable pub is_serial_revoked : CertificateRevocationList → Bytes → Bool
is_serial_revoked crl serial = any (λ e. bytes_eq e.serial_number serial) crl.revoked_certificates

pub data CrlError : Type 0 where
  empty_der no_sequence empty_length truncated_length truncated_sequence no_tbs : CrlError
  bad_signature : AgilityError → CrlError

-- The octets of a long length, shifted into 64 bits.
unfoldable pub length_octets : ℕ → Bytes → ℕ
length_octets acc [] = acc
length_octets acc (b ∷ bs) = length_octets ((acc * 256 + b) % u64_mod) bs

-- The number of octets of a length field, and the length.
unfoldable pub parse_tlv_length : Bytes → Result CrlError (ℕ × ℕ)
unfolding length_octets
parse_tlv_length [] = err empty_length
parse_tlv_length (b ∷ bs) =
    let num_bytes = b - 128 in
    if ltb b 128
    then ok (1, b)
    else if ltb (length bs) num_bytes
    then err truncated_length
    else ok (1 + num_bytes, length_octets 0 (take num_bytes bs))

-- `buf[total_header..total_header + payload_len]`, the sum in 64 bits.
unfoldable pub der_unwrap_sequence : Bytes → Result CrlError (Option Bytes)
der_unwrap_sequence [] = err no_sequence
der_unwrap_sequence (b ∷ bs) = do
  fail_if (not (b == 0x30)) no_sequence
  (header_len, payload_len) ← parse_tlv_length bs
  let total_header = 1 + header_len
  let end = (total_header + payload_len) % u64_mod
  fail_if (ltb (length (b ∷ bs)) end) truncated_sequence
  ok (if ltb end total_header then none else some (slice total_header end (b ∷ bs)))

unfoldable pub find_tbs_cert_list_end : Bytes → Result CrlError ℕ
find_tbs_cert_list_end [] = err no_tbs
find_tbs_cert_list_end (b ∷ bs) = do
  fail_if (not (b == 0x30)) no_tbs
  (header_len, payload_len) ← parse_tlv_length bs
  ok ((1 + header_len + payload_len) % u64_mod)

module _ (c : Crypto) (s : Suites) where
  unfoldable pub crl_hash : CertificateRevocationList → Bytes
  crl_hash crl = c.sha256 crl.der_bytes

  -- The signature over `outer[..tbs_end]`; `none` if that cut panics.
  unfoldable pub verify_tbs :
      CertificateRevocationList → Bytes → Bytes → ℕ → Option (Result CrlError (Unit {0}))
  verify_tbs crl pubkey outer tbs_end =
      if ltb (length outer) tbs_end
      then none
      else some (
          map_err bad_signature (
            verify_signature_by_algorithm c s crl.signature_algorithm pubkey (take tbs_end outer)
              crl.signature_bytes))

  abbrev verify_outer :
      CertificateRevocationList
      → Bytes
      → Result CrlError (Option Bytes)
      → Option (Result CrlError (Unit {0}))
  verify_outer crl pubkey (err e) = some (err e)
  verify_outer crl pubkey (ok none) = none
  verify_outer crl pubkey (ok (some outer)) = elim (find_tbs_cert_list_end outer) [
    | err e ↦ some (err e)
    | ok tbs_end ↦ verify_tbs crl pubkey outer tbs_end
  ]

  -- `CertificateRevocationList::verify_signature`; `none` is a panic.
  unfoldable pub verify_crl_signature :
      CertificateRevocationList → Bytes → Option (Result CrlError (Unit {0}))
  verify_crl_signature crl pubkey =
      if is_nil crl.der_bytes
      then some (err empty_der)
      else verify_outer crl pubkey (der_unwrap_sequence crl.der_bytes)
