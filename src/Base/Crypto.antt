-- ===== src/Base/Crypto.antt =====
-- The primitives that the program takes from elsewhere: SHA-256 (sha2), Ed25519 signatures (ed25519_dalek),
-- and the logarithm of std's floating-point numbers, whose precision std leaves open. They are parameters;
-- `CryptoLaws` states their documented behaviour.
use randbotd.Base.Bytes.{Bytes}
use randbotd.Base.Lists.{length}
use Prim.Native.Nat.{ℕ, ◌+◌, ◌^◌, ◌≤◌, ◌<◌}
use mathlib.Core.Path.{◌≡◌}
use mathlib.Core.Bool.{Bool, true}

pub record Crypto : Type 0 where
  -- the digest of everything that was fed to the hasher
  pub sha256 : Bytes → Bytes
  -- the public key of a signing key
  pub verifying_key : Bytes → Bytes
  pub sign : Bytes → Bytes → Bytes
  -- `VerifyingKey::from_bytes` accepts the bytes
  pub valid_key : Bytes → Bool
  -- `verify` and `verify_strict`: key, message, signature
  pub verify : Bytes → Bytes → Bytes → Bool
  pub verify_strict : Bytes → Bytes → Bytes → Bool
  -- `(n as f64).log2().floor() as u32`
  pub log2_floor : ℕ → ℕ

pub record CryptoLaws (c : Crypto) : Type 0 where
  pub length_sha256 : (m : Bytes) → length (c.sha256 m) ≡ 32
  pub length_verifying_key : (k : Bytes) → length (c.verifying_key k) ≡ 32
  pub length_sign : (k m : Bytes) → length (c.sign k m) ≡ 64
  pub valid_verifying_key : (k : Bytes) → c.valid_key (c.verifying_key k) ≡ true
  pub verify_sign : (k m : Bytes) → c.verify (c.verifying_key k) m (c.sign k m) ≡ true
  pub verify_strict_sign : (k m : Bytes) → c.verify_strict (c.verifying_key k) m (c.sign k m) ≡ true
  -- Rounding does not reach the next whole number below 2^47.
  pub log2_floor_bounds :
      (n : ℕ) → 0 < n → n < 2 ^ 47 → (2 ^ c.log2_floor n ≤ n) × (n < 2 ^ (c.log2_floor n + 1))
