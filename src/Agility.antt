-- ===== src/Agility.antt =====
-- crypto/agility.rs: the key algorithms and signatures under each of them. Ed25519 is the `Crypto` parameter;
-- the suites of the crates p384, rsa and pqcrypto_mldsa are parameters of their own, with the checks that
-- their decoders make.
use randbotd.Base.{Bool, not, ◌==◌, length, []}
use randbotd.Base.Result.{Result, ok, fail_if, ◌>>=◌, ◌>>◌}
use randbotd.Base.Bytes.{Bytes}
use randbotd.Base.Text.{Text, codes}
use randbotd.Base.Crypto.{Crypto}

pub data KeyAlgorithm : Type 0 where
  ed25519 ecdsa_p384 rsa4096 ml_dsa44 : KeyAlgorithm

unfoldable pub oid : KeyAlgorithm → Text
oid ed25519 = codes "1.3.101.112"
oid ecdsa_p384 = codes "1.2.840.10045.4.3.3"
oid rsa4096 = codes "1.2.840.113549.1.1.11"
oid ml_dsa44 = codes "2.16.840.1.101.3.4.3.17"

-- A signature suite of another crate: what its decoders accept, and its signatures.
pub record Suite : Type 0 where
  pub valid_secret : Bytes → Bool
  pub sign : Bytes → Bytes → Bytes
  pub valid_public : Bytes → Bool
  pub valid_signature : Bytes → Bool
  pub verify : Bytes → Bytes → Bytes → Bool

pub record Suites : Type 0 where
  pub p384 : Suite
  pub rsa : Suite
  pub ml_dsa : Suite

pub record CaKeyPair : Type 0 where
  pub algorithm : KeyAlgorithm
  pub public_key_bytes : Bytes
  pub private_key_bytes : Bytes

pub data AgilityError : Type 0 where
  secret_key_length invalid_secret_key public_key_length invalid_public_key : AgilityError
  ed_signature_length invalid_signature verification_failed : AgilityError

abbrev pub sign_with : Suite → Bytes → Bytes → Result AgilityError Bytes
sign_with s secret message = do
  fail_if (not (s.valid_secret secret)) invalid_secret_key
  ok (s.sign secret message)

abbrev pub verify_with : Suite → Bytes → Bytes → Bytes → Result AgilityError Bool
verify_with s public message signature = do
  fail_if (not (s.valid_public public)) invalid_public_key
  fail_if (not (s.valid_signature signature)) invalid_signature
  ok (s.verify public message signature)

module _ (c : Crypto) (s : Suites) where
  unfoldable pub sign_ed25519 : Bytes → Bytes → Result AgilityError Bytes
  sign_ed25519 secret message = do
    fail_if (not (length secret == 32)) secret_key_length
    ok (c.sign secret message)

  unfoldable pub verify_ed25519 : Bytes → Bytes → Bytes → Result AgilityError Bool
  verify_ed25519 public message signature = do
    fail_if (not (length public == 32)) public_key_length
    fail_if (not (c.valid_key public)) invalid_public_key
    fail_if (not (length signature == 64)) ed_signature_length
    ok (c.verify public message signature)

  unfoldable pub sign_by : KeyAlgorithm → Bytes → Bytes → Result AgilityError Bytes
  sign_by ed25519 secret message = sign_ed25519 secret message
  sign_by ecdsa_p384 secret message = sign_with s.p384 secret message
  sign_by rsa4096 secret message = sign_with s.rsa secret message
  sign_by ml_dsa44 secret message = sign_with s.ml_dsa secret message

  unfoldable pub verify_by : KeyAlgorithm → Bytes → Bytes → Bytes → Result AgilityError Bool
  verify_by ed25519 public message signature = verify_ed25519 public message signature
  verify_by ecdsa_p384 public message signature = verify_with s.p384 public message signature
  verify_by rsa4096 public message signature = verify_with s.rsa public message signature
  verify_by ml_dsa44 public message signature = verify_with s.ml_dsa public message signature

  -- `CaKeyPair::sign` and `CaKeyPair::verify`.
  unfoldable pub sign_key_pair : CaKeyPair → Bytes → Result AgilityError Bytes
  sign_key_pair k message = sign_by k.algorithm k.private_key_bytes message

  unfoldable pub verify_key_pair : CaKeyPair → Bytes → Bytes → Result AgilityError Bool
  verify_key_pair k message signature = verify_by k.algorithm k.public_key_bytes message signature

  unfoldable pub verify_signature_by_algorithm :
      KeyAlgorithm → Bytes → Bytes → Bytes → Result AgilityError (Unit {0})
  verify_signature_by_algorithm algorithm public_key_bytes message signature = do
    let dummy : CaKeyPair = record {
      algorithm = algorithm;
      public_key_bytes = public_key_bytes;
      private_key_bytes = [];
    }
    verified ← verify_key_pair dummy message signature
    fail_if (not verified) verification_failed
