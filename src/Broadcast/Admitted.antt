-- ===== src/Broadcast/Admitted.antt =====
-- net/router/broadcast/custodian.rs: which workers the handlers admit to the swarm of an authority.
use randbotd.Base.{
  ℕ, ◌≤◌, ◌≡◌, ◌⊎◌, inl, inr, refl, ap, ◌∙◌, Bool, true, false, not, ◌&&◌, Option, none, some, List,
  [], ◌∷◌, arith, bytes_eq_sound, if◌then◌else◌,
}
use randbotd.Base.Result.{Result, ok, err, is_ok}
use randbotd.Base.Bytes.{Bytes}
use randbotd.Base.Crypto.{CryptoLaws}
use randbotd.Base.Dict.{get}
use randbotd.Ca.{CaDeclaration, compute_ca_id}
use randbotd.Swarm.{
  CustodianContract, CaCapabilitiesProof, SwarmActivationConfirmation, is_expired, contract_hash,
  verify_proof, verify_activation, verify_against_contract, new_activation,
}
use randbotd.Swarm.Signed.{verify_against_contract_iff, new_activation-verify_activation}
use randbotd.Gossip.{GossipMessage}
use randbotd.Tables.{Tables}
use randbotd.Tables.Authorities.{get_ca}
use randbotd.Tables.Custodians.{insert_custodian_record}
use randbotd.Broadcast.{Node, Externals, note}
use randbotd.Broadcast.Delegation.{Outgoing, MockCertificates, is_owner, swarm_activation}
use randbotd.Broadcast.Custodian.{
  is_fetched, custodian_of, activate, handle_ca_capabilities_proof_packet, activated_record,
  receive_proof, receive_activation, handle_swarm_activation_packet,
}

is_ok_sound {ε} : {E : Type ε} (r : Result E (Unit {0})) → is_ok r ≡ true → r ≡ ok tt
is_ok_sound (ok tt) h = refl
is_ok_sound (err e) h = absurd (ground arith)

module _ {Book : Type 0} (x : Externals Book) (certs : MockCertificates) (n : Node Book)
    (now : ℕ) where
  -- The node's own authority, and what it and the worker agreed on.
  pub record IsContracted (p : CaCapabilitiesProof) (my_key : Bytes) (ca : CaDeclaration)
      (contract : CustodianContract) : Type 0 where
    pub known : get_ca n.tables p.ca_id ≡ some ca
    pub owned :
        ca.ca_id ≡ compute_ca_id x.crypto ca.subject.common_name (x.crypto.verifying_key my_key)
    pub proved : verify_proof x.crypto p ≡ ok tt
    pub staged : get n.pending_contracts p.contract_hash ≡ some contract
    pub same_ca : ca.ca_id ≡ contract.ca_id
    pub same_worker : p.worker_pubkey ≡ contract.worker_pubkey
    pub same_contract : p.contract_hash ≡ contract_hash x.crypto contract
    pub in_time : now ≤ contract.valid_until

  -- The tables are the node's, or have one custodian more, which is contracted.
  abbrev IsAdmission : CaCapabilitiesProof → Bytes → Tables → Type 0
  IsAdmission p my_key t =
      (t ≡ n.tables)
      ⊎ ((ca : CaDeclaration) × (k : CustodianContract) × IsContracted p my_key ca k
          × (t ≡ (insert_custodian_record n.tables (custodian_of x p k ca.ca_id now)).0))

  activate-IsAdmission :
      (p : CaCapabilitiesProof) (k : CustodianContract) (ca : CaDeclaration) (my_key : Bytes)
      → get_ca n.tables p.ca_id ≡ some ca
      → ca.ca_id ≡ compute_ca_id x.crypto ca.subject.common_name (x.crypto.verifying_key my_key)
      → verify_proof x.crypto p ≡ ok tt
      → get n.pending_contracts p.contract_hash ≡ some k
      → IsAdmission p my_key (activate x n p k ca.ca_id my_key now).0.tables
  unfolding activate
  activate-IsAdmission p k ca my_key known owned proved staged =
      decide
        (is_ok (verify_against_contract x.crypto confirmation k (x.crypto.verifying_key my_key)))
        refl
    where
      confirmation : SwarmActivationConfirmation
      confirmation =
          new_activation x.crypto ca.ca_id p.worker_pubkey p.contract_hash p.mock_cert_hash now
            my_key

      admitted : Node Book × List Outgoing
      admitted = (
        record n {
          tables = (insert_custodian_record n.tables (custodian_of x p k ca.ca_id now)).0;
        },
        swarm_activation confirmation ∷ [],
      )

      decide :
          (b : Bool)
          → is_ok (verify_against_contract x.crypto confirmation k (x.crypto.verifying_key my_key))
            ≡ b
          → IsAdmission p my_key (if b then admitted else (n, [])).0.tables
      decide false h = inl refl
      decide true h =
          let a =
            (verify_against_contract_iff x.crypto confirmation k (x.crypto.verifying_key my_key)).0
              (is_ok_sound _ h) in
          let contracted : IsContracted p my_key ca k = record {
            known = known;
            owned = owned;
            proved = proved;
            staged = staged;
            same_ca = unfold new_activation in a.same_ca;
            same_worker = unfold new_activation in a.same_worker;
            same_contract = unfold new_activation in a.same_contract;
            in_time = unfold new_activation in a.in_time;
          } in
          inr (ca, k, contracted, refl)

  receive_proof-IsAdmission :
      (p : CaCapabilitiesProof) (my_key : Bytes) (fetched : Option Bytes)
      (ca : Option CaDeclaration) (k : Option CustodianContract) (challenge : Option (ℕ × ℕ))
      → get_ca n.tables p.ca_id ≡ ca
      → get n.pending_contracts p.contract_hash ≡ k
      → IsAdmission p my_key (receive_proof x certs n p my_key now fetched ca k challenge).0.tables
  receive_proof-IsAdmission p my_key fetched none k challenge a b = inl refl
  receive_proof-IsAdmission p my_key fetched (some ca) none challenge a b = inl refl
  receive_proof-IsAdmission p my_key fetched (some ca) (some k) none a b = inl refl
  receive_proof-IsAdmission p my_key fetched (some ca) (some k) (some (nonce, target)) a b =
      decide (is_ok (verify_proof x.crypto p)) (is_owner x ca (x.crypto.verifying_key my_key))
        (not (is_expired k now)) (is_fetched x certs fetched p.algorithm nonce) refl refl
    where
      decide :
          (proved owned alive arrived : Bool)
          → is_ok (verify_proof x.crypto p) ≡ proved
          → is_owner x ca (x.crypto.verifying_key my_key) ≡ owned
          → IsAdmission p my_key
              (if proved && owned && alive && arrived
                then activate x n p k ca.ca_id my_key now
                else (n, [])).0.tables
      decide true true true true h o =
          activate-IsAdmission p k ca my_key a (bytes_eq_sound _ _ o) (is_ok_sound _ h) b
      decide true true true false h o = inl refl
      decide true true false arrived h o = inl refl
      decide true false alive arrived h o = inl refl
      decide false owned alive arrived h o = inl refl

  -- A packet with a proof of capabilities changes the tables only by admitting the worker of the proof it
  -- carries as a custodian of an authority that the node's own key owns, and only if the node has a key, the
  -- proof carries the worker's signature and the node holds a staged contract of that worker with that
  -- authority under its hash, which has not ended; whatever certificate is fetched.
  pub handle_ca_capabilities_proof_packet-IsAdmission :
      (msg : GossipMessage) (identity fetched : Option Bytes)
      → (let t =
            (handle_ca_capabilities_proof_packet x certs n msg identity now fetched).0.tables in
          (t ≡ n.tables)
          ⊎ ((p : CaCapabilitiesProof) × (my_key : Bytes) × (ca : CaDeclaration)
              × (k : CustodianContract) × (x.wire.to_proof msg.payload ≡ some p)
              × (identity ≡ some my_key)
              × IsContracted p my_key ca k
              × (t ≡ (insert_custodian_record n.tables (custodian_of x p k ca.ca_id now)).0)))
  unfolding handle_ca_capabilities_proof_packet
  handle_ca_capabilities_proof_packet-IsAdmission msg identity fetched =
      go (x.wire.to_proof msg.payload) identity refl refl
    where
      Sent : Tables → Type 0
      Sent t =
          (t ≡ n.tables)
          ⊎ ((p : CaCapabilitiesProof) × (my_key : Bytes) × (ca : CaDeclaration)
              × (k : CustodianContract) × (x.wire.to_proof msg.payload ≡ some p)
              × (identity ≡ some my_key)
              × IsContracted p my_key ca k
              × (t ≡ (insert_custodian_record n.tables (custodian_of x p k ca.ca_id now)).0))

      widen :
          (p : CaCapabilitiesProof) (my_key : Bytes) (t : Tables)
          → x.wire.to_proof msg.payload ≡ some p
          → identity ≡ some my_key
          → IsAdmission p my_key t
          → Sent t
      widen p my_key t d own (inl e) = inl e
      widen p my_key t d own (inr (ca, k, c, e)) = inr (p, my_key, ca, k, d, own, c, e)

      go :
          (o : Option CaCapabilitiesProof) (i : Option Bytes)
          → x.wire.to_proof msg.payload ≡ o
          → identity ≡ i
          → Sent
              (elim o as (λ _. Node Book × List Outgoing) [
                | none ↦ (n, [])
                | some p ↦ elim i as (λ _. Node Book × List Outgoing) [
                  | none ↦ (n, [])
                  | some my_key ↦
                      receive_proof x certs n p my_key now fetched
                        (get_ca n.tables p.ca_id)
                        (get n.pending_contracts p.contract_hash)
                        (get n.pending_challenges p.contract_hash)
                ]
              ]).0.tables
      go none i d own = inl refl
      go (some p) none d own = inl refl
      go (some p) (some my_key) d own = widen p my_key _ d own (
          receive_proof-IsAdmission p my_key fetched (get_ca n.tables p.ca_id)
            (get n.pending_contracts p.contract_hash) (get n.pending_challenges p.contract_hash)
            refl refl)

-- Whoever owns the authority, an activation that is signed with the key of the packet's originator, for an
-- authority that the node knows, stores its worker as a custodian.
pub handle_swarm_activation_packet-any_key :
    {Book : Type 0} (x : Externals Book)
    → CryptoLaws x.crypto
    → (n : Node Book) (msg : GossipMessage) (key worker hash mock_cert_hash ca_id : Bytes) (at : ℕ)
      (a : SwarmActivationConfirmation) (ca : CaDeclaration)
    → a ≡ new_activation x.crypto ca_id worker hash mock_cert_hash at key
    → x.wire.to_activation msg.payload ≡ some a
    → get_ca n.tables a.ca_id ≡ some ca
    → msg.originator_pubkey ≡ x.crypto.verifying_key key
    → (handle_swarm_activation_packet x n msg).tables
      ≡ (insert_custodian_record n.tables (activated_record x a)).0
unfolding handle_swarm_activation_packet note
handle_swarm_activation_packet-any_key {Book = Book} x laws n msg key worker hash mock ca_id at a ca
      made d known own =
    let v : verify_activation x.crypto a msg.originator_pubkey ≡ ok tt =
      rw (made, own)
        (new_activation-verify_activation x.crypto laws ca_id worker hash mock at key) in
    let opened =
      ap
        (λ o.
          (elim o as (λ _. Node Book) [
            | none ↦ note x n msg true
            | some b ↦ receive_activation x n msg b (get_ca n.tables b.ca_id)
          ]).tables)
        d in
    opened
    ∙ ap (λ o. (receive_activation x n msg a o).tables) known
    ∙ ap
        (λ r.
          (if is_ok r
            then record (note x n msg false) {
              tables = (insert_custodian_record n.tables (activated_record x a)).0;
            }
            else note x n msg true).tables)
        v
