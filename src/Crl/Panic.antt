-- ===== src/Crl/Panic.antt =====
-- pki/crl.rs, `verify_signature`, and net/router/broadcast/mod.rs, `handle_crl_broadcast_packet`: the cut of
-- the signed part of a list.
use randbotd.Base.{ℕ, ◌+◌, ◌%◌, ◌<◌, ◌≡◌, refl, ap, none, some, [], ◌∷◌, arith}
use randbotd.Base.Result.{ok}
use randbotd.Base.Bytes.{Bytes, u64_mod}
use randbotd.Base.Crypto.{Crypto}
use randbotd.Agility.{Suites}
use randbotd.Crl.{
  CertificateRevocationList, der_unwrap_sequence, find_tbs_cert_list_end, verify_tbs,
  verify_crl_signature, parse_tlv_length,
}

-- Two octets that announce a signed part of `n` octets, and nothing behind them.
abbrev pub short_der : ℕ → Bytes
short_der n = 0x30 ∷ 2 ∷ 0x30 ∷ n ∷ []

unwrap_short : (n : ℕ) → der_unwrap_sequence (short_der n) ≡ ok (some (0x30 ∷ n ∷ []))
unfolding der_unwrap_sequence parse_tlv_length
unwrap_short n = refl

parse_short : (n : ℕ) → n < 128 → parse_tlv_length (n ∷ []) ≡ ok (1, n)
unfolding parse_tlv_length
parse_short n h = ground arith

tbs_end_short : (n : ℕ) → n < 128 → find_tbs_cert_list_end (0x30 ∷ n ∷ []) ≡ ok (n + 2)
unfolding find_tbs_cert_list_end
tbs_end_short n h = rw (parse_short n h) (ap ok (total n h))
  where
    total : (n : ℕ) → n < 128 → (1 + 1 + n) % u64_mod ≡ n + 2
    total n h = omega arith

module _ (c : Crypto) (s : Suites) (crl : CertificateRevocationList) (pubkey : Bytes) where
  -- A list whose DER form announces a signed part of 1 to 127 octets, and ends there, makes the
  -- verification of its signature panic, whatever the key and the signature are.
  pub verify_crl_signature_panics :
      (n : ℕ)
      → 0 < n
      → n < 128
      → crl.der_bytes ≡ short_der n
      → verify_crl_signature c s crl pubkey ≡ none
  unfolding verify_crl_signature verify_tbs
  verify_crl_signature_panics n positive short e =
      ground (arith, e, unwrap_short n, tbs_end_short n short)
