-- ===== src/Swarm/Signed.antt =====
-- pki/swarm/mod.rs: the four messages from the constructors to the checks.
use randbotd.Base.{ℕ, ◌≤◌, ◌≡◌, ◌↔◌, refl, sym, subst, true, arith, bytes_eq_iff, length}
use randbotd.Base.Result.{ok}
use randbotd.Base.Bytes.{Bytes}
use randbotd.Base.Text.{Text}
use randbotd.Base.Crypto.{Crypto, CryptoLaws}
use randbotd.Swarm.{
  CustodianContract, SwarmActivationConfirmation, contract_bytes, activation_bytes, contract_hash,
  verify_message, verify_contract, verify_activation, new_contract, new_activation,
  verify_against_contract,
}

module _ (c : Crypto) where
  pub record IsSignedBy (pubkey message signature : Bytes) : Type 0 where
    pub key : c.valid_key pubkey ≡ true
    pub size : length signature ≡ 64
    pub verified : c.verify pubkey message signature ≡ true

  verify_message_iff :
      (pubkey message signature : Bytes)
      → (verify_message c pubkey message signature ≡ ok tt) ↔ IsSignedBy pubkey message signature
  unfolding verify_message
  verify_message_iff k m g = (λ h. ground arith, λ h. ground arith)

  pub record Activates (a : SwarmActivationConfirmation) (k : CustodianContract) (ca_pubkey : Bytes)
      : Type 0 where
    pub same_ca : a.ca_id ≡ k.ca_id
    pub same_worker : a.worker_pubkey ≡ k.worker_pubkey
    pub same_contract : a.contract_hash ≡ contract_hash c k
    pub in_time : a.activated_at ≤ k.valid_until
    pub signed : IsSignedBy ca_pubkey (activation_bytes a) a.signature

  -- An activation is valid for a contract exactly if it names the authority, the worker and the hash of the
  -- contract, is no later than the contract's end, and carries a signature of the authority's key.
  pub verify_against_contract_iff :
      (a : SwarmActivationConfirmation) (k : CustodianContract) (ca_pubkey : Bytes)
      → (verify_against_contract c a k ca_pubkey ≡ ok tt) ↔ Activates a k ca_pubkey
  unfolding verify_against_contract verify_activation
  verify_against_contract_iff a k key = (
    λ h. ground (
      arith,
      bytes_eq_iff a.ca_id k.ca_id,
      bytes_eq_iff a.worker_pubkey k.worker_pubkey,
      bytes_eq_iff a.contract_hash (contract_hash c k),
      (verify_message_iff key (activation_bytes a) a.signature).0,
    ),
    λ h. ground (
      arith,
      bytes_eq_iff a.ca_id k.ca_id,
      bytes_eq_iff a.worker_pubkey k.worker_pubkey,
      bytes_eq_iff a.contract_hash (contract_hash c k),
      (verify_message_iff key (activation_bytes a) a.signature).1 h.signed,
    ),
  )

  new_contract_ok :
      (ca_id key : Bytes) (share created until : ℕ) (endpoint : Text) (k : CustodianContract)
      → new_contract c ca_id key share created until endpoint ≡ ok k
      → (k.ca_id ≡ ca_id)
        × (k.worker_pubkey ≡ c.verifying_key key)
        × (k.valid_until ≡ until)
        × (k.signature ≡ c.sign key (contract_bytes k))
  unfolding new_contract contract_bytes
  new_contract_ok ca_id key share created until endpoint k h = ground arith

  IsSignedBy-sign :
      CryptoLaws c
      → (key message : Bytes) → IsSignedBy (c.verifying_key key) message (c.sign key message)
  IsSignedBy-sign laws key message = record {
    key = laws.valid_verifying_key key;
    size = laws.length_sign key message;
    verified = laws.verify_sign key message;
  }

  -- A worker's new contract carries its valid signature, and the activation that the authority makes of it
  -- no later than its end is valid for it.
  pub new_activation-verify :
      CryptoLaws c
      → (ca_id worker_key ca_key mock_cert_hash : Bytes) (share created until activated_at : ℕ)
        (endpoint : Text) (k : CustodianContract)
      → new_contract c ca_id worker_key share created until endpoint ≡ ok k
      → activated_at ≤ until
      → (verify_contract c k ≡ ok tt)
        × (verify_against_contract c
              (new_activation c ca_id
                (c.verifying_key worker_key)
                (contract_hash c k)
                mock_cert_hash
                activated_at
                ca_key)
              k
              (c.verifying_key ca_key)
            ≡ ok tt)
  unfolding new_activation verify_contract activation_bytes
  new_activation-verify laws ca_id worker_key ca_key mock share created until at endpoint k made
        in_time =
      let f = new_contract_ok ca_id worker_key share created until endpoint k made in
      let signed : IsSignedBy k.worker_pubkey (contract_bytes k) k.signature =
        subst (λ w. IsSignedBy w (contract_bytes k) k.signature) (sym f.1)
          (subst (IsSignedBy (c.verifying_key worker_key) (contract_bytes k)) (sym f.3)
            (IsSignedBy-sign laws worker_key (contract_bytes k))) in
      let a =
        new_activation c ca_id (c.verifying_key worker_key) (contract_hash c k) mock at ca_key in
      let activates : Activates a k (c.verifying_key ca_key) = record {
        same_ca = sym f.0;
        same_worker = sym f.1;
        same_contract = refl;
        in_time = omega (arith, in_time, f.2);
        signed = IsSignedBy-sign laws ca_key (activation_bytes a);
      } in
      (
        (verify_message_iff k.worker_pubkey (contract_bytes k) k.signature).1 signed,
        (verify_against_contract_iff a k (c.verifying_key ca_key)).1 activates,
      )

  -- An activation verifies under the key that made it.
  pub new_activation-verify_activation :
      CryptoLaws c
      → (ca_id worker hash mock_cert_hash : Bytes) (activated_at : ℕ) (ca_key : Bytes)
      → verify_activation c
          (new_activation c ca_id worker hash mock_cert_hash activated_at ca_key)
          (c.verifying_key ca_key)
        ≡ ok tt
  unfolding new_activation verify_activation activation_bytes
  new_activation-verify_activation laws ca_id worker hash mock at key =
      let a = new_activation c ca_id worker hash mock at key in
      (verify_message_iff (c.verifying_key key) (activation_bytes a) a.signature).1
        (IsSignedBy-sign laws key (activation_bytes a))
