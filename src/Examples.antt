-- ===== src/Examples.antt =====
-- Concrete inputs: toy primitives in place of SHA-256 and Ed25519 that satisfy their laws.
pub mod Logarithm
pub mod Work
pub mod Records
pub mod Purges
pub mod Frames
pub mod Peers
pub mod Log
pub mod Stores
pub mod Nodes
use randbotd.Base.{ℕ, ◌+◌, refl, arith, true, [], ◌∷◌, bytes_eq, bytes_eq_refl}
use randbotd.Base.Bytes.{Bytes, to_be_bytes, length-to_be_bytes}
use randbotd.Base.Crypto.{Crypto, CryptoLaws}
use randbotd.Examples.Logarithm.{log2_floor, log2_floor_bounds}

abbrev sum : Bytes → ℕ
sum [] = 0
sum (b ∷ bs) = b + sum bs

-- The digest is the sum of the octets in 32 octets; so is a signature, in 64.
abbrev pub toy : Crypto
toy = record {
  sha256 = λ m. to_be_bytes 32 (sum m);
  verifying_key = λ k. to_be_bytes 32 (sum k);
  sign = λ k m. to_be_bytes 64 (sum m);
  valid_key = λ k. true;
  verify = λ k m s. bytes_eq s (to_be_bytes 64 (sum m));
  verify_strict = λ k m s. bytes_eq s (to_be_bytes 64 (sum m));
  log2_floor = log2_floor;
}

pub toy_laws : CryptoLaws toy
toy_laws = record {
  length_sha256 = λ m. length-to_be_bytes 32 (sum m);
  length_verifying_key = λ k. length-to_be_bytes 32 (sum k);
  length_sign = λ k m. length-to_be_bytes 64 (sum m);
  valid_verifying_key = λ k. refl;
  verify_sign = λ k m. bytes_eq_refl (to_be_bytes 64 (sum m));
  verify_strict_sign = λ k m. bytes_eq_refl (to_be_bytes 64 (sum m));
  log2_floor_bounds = λ n p h. log2_floor_bounds n p (omega arith);
}

-- A key of one octet.
abbrev pub key : Bytes
key = 5 ∷ []
