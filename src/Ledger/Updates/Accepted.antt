-- ===== src/Ledger/Updates/Accepted.antt =====
-- What has to hold for a state to be recorded, and what is written then.
use private_data_objects.Prelude.{
  ◌≡◌, ◌≢◌, sym, ◌∙◌, Bool, true, arith, [], some, ByteArray, bytes_eq, bytes_eq→eq, bytes_eq→ne,
  ne→not_bytes_eq, ◌↔◌, bytes_eq_refl,
}
use private_data_objects.Ledger.Records.{
  Text, EnclaveInfo, ContractInfo, StateUpdateInfo, InitializeState, UpdateState,
}
use private_data_objects.Ledger.Host.{Host}
use private_data_objects.Ledger.Reply.{
  success, >>=-eq-success, require_passed, expect-some, or_fault-some,
}
use private_data_objects.Ledger.Tables.{Ledger, get, lookup}
use private_data_objects.Ledger.Contracts.{is_enclave_in}
use private_data_objects.Ledger.Signatures.{
  initialize_contents, update_contents, verify_creator_signature_initialize_contract_state,
  verify_enclave_signature_initialize_contract_state,
  verify_enclave_signature_update_contract_state,
}
use private_data_objects.Ledger.Updates.{
  enclave_verifier, record_state, initialize_contract_state, are_met, update_contract_state,
}

module _ (h : Host) where
  -- A registered enclave of the contract signed the contents, and this node knows its verifier.
  pub record IsSigned (l : Ledger h) (info : ContractInfo) (enclave_id : Text)
      (contents signature : ByteArray) : Type 0 where
    pub enclave : EnclaveInfo
    pub verifier : h.Verifier
    pub member : is_enclave_in enclave_id info.enclave_info ≡ true
    pub registered : get l.enclaves enclave_id ≡ some enclave
    pub cached : lookup enclave.verifying_key l.enclave_pubk_verifier ≡ some verifier
    pub signed : h.verify verifier contents signature ≡ true

  -- The update, the contract and the new state of the ledger.
  pub record IsUpdated (x : UpdateState) (l l' : Ledger h) : Type 0 where
    pub update : StateUpdateInfo
    pub info : ContractInfo
    pub parsed : h.parse_state_update x.state_update_info ≡ some update
    pub contract : get l.contracts update.contract_id ≡ some info
    pub active : info.is_active ≡ true
    pub latest : update.previous_state_hash ≡ info.current_state_hash
    pub met : are_met h update.dependency_list l ≡ true
    pub changed : update.current_state_hash ≢ info.current_state_hash
    pub by_enclave :
        IsSigned l info x.contract_enclave_id
          (update_contents x.nonce info.contract_code_hash update)
          x.contract_enclave_signature
    pub written :
        l'
        ≡ record_state h update.contract_id update.current_state_hash
            (record {
              transaction_id = x.nonce;
              previous_state_hash = update.previous_state_hash;
              message_hash = update.message_hash;
              dependency_list = update.dependency_list;
            })
            (record info { current_state_hash = update.current_state_hash })
            l

  enclave_verifier_success :
      (id : Text) (l : Ledger h) (verifier : h.Verifier)
      → enclave_verifier h id l ≡ success verifier
      → (enclave : EnclaveInfo) × (get l.enclaves id ≡ some enclave)
        × (lookup enclave.verifying_key l.enclave_pubk_verifier ≡ some verifier)
  unfolding enclave_verifier
  enclave_verifier_success id l verifier e =
      let (enclave, found, e') = >>=-eq-success _ _ e in
      (enclave, or_fault-some _ _ found, or_fault-some _ _ e')

  pub update_contract_state_success :
      (x : UpdateState) (l : Ledger h) (r : Bool × Ledger h)
      → update_contract_state h x l ≡ success r
      → IsUpdated x l r.1
  unfolding update_contract_state verify_enclave_signature_update_contract_state
  update_contract_state_success x l r e =
      let (update, parsed, e₁) = >>=-eq-success _ _ e in
      let (info, contract, e₂) = >>=-eq-success _ _ e₁ in
      let (_, active, e₃) = >>=-eq-success _ _ e₂ in
      let (_, member, e₄) = >>=-eq-success _ _ e₃ in
      let (_, latest, e₅) = >>=-eq-success _ _ e₄ in
      let (_, met, e₆) = >>=-eq-success _ _ e₅ in
      let (_, changed, e₇) = >>=-eq-success _ _ e₆ in
      let (verifier, known, e₈) = >>=-eq-success _ _ e₇ in
      let (_, signed, e₉) = >>=-eq-success _ _ e₈ in
      let (enclave, registered, cached) =
        enclave_verifier_success x.contract_enclave_id l verifier known in
      record {
        update = update;
        info = info;
        parsed = expect-some _ _ parsed;
        contract = expect-some _ _ contract;
        active = require_passed _ _ active;
        latest = bytes_eq→eq _ _ (require_passed _ _ latest);
        met = require_passed _ _ met;
        changed = bytes_eq→ne _ _ (require_passed _ _ changed);
        by_enclave = record {
          enclave = enclave;
          verifier = verifier;
          member = require_passed _ _ member;
          registered = registered;
          cached = cached;
          signed = require_passed _ _ signed;
        };
        written = ground (arith, e₉);
      }

  -- The same of an initialization.
  pub record IsInitialized (x : InitializeState) (l l' : Ledger h) : Type 0 where
    pub info : ContractInfo
    pub contract : get l.contracts x.contract_id ≡ some info
    pub active : info.is_active ≡ true
    pub fresh : info.current_state_hash ≡ []
    pub creator : h.Verifier
    pub creator_key : h.make_public_key info.contract_creator_verifying_key ≡ some creator
    pub by_creator : h.verify creator x.contract_enclave_signature x.creator_signature ≡ true
    pub by_enclave :
        IsSigned l info x.contract_enclave_id
          (initialize_contents x.nonce x.contract_id x.initial_state_hash info.contract_code_hash
            x.message_hash x.metadata_hash info.contract_creator_verifying_key)
          x.contract_enclave_signature
    pub written :
        l'
        ≡ record_state h x.contract_id x.initial_state_hash
            (record {
              transaction_id = x.nonce;
              previous_state_hash = [];
              message_hash = x.message_hash;
              dependency_list = [];
            })
            (record info {
              current_state_hash = x.initial_state_hash;
              contract_metadata_hash = x.metadata_hash;
            })
            l

  verify_creator_success :
      (enclave_signature creator_signature : ByteArray) (creator : Text) (signed : Bool)
      → verify_creator_signature_initialize_contract_state h enclave_signature creator_signature
          creator
        ≡ success signed
      → (verifier : h.Verifier) × (h.make_public_key creator ≡ some verifier)
        × (signed ≡ h.verify verifier enclave_signature creator_signature)
  unfolding verify_creator_signature_initialize_contract_state
  verify_creator_success enclave_signature creator_signature creator signed e =
      let (verifier, found, e') = >>=-eq-success _ _ e in
      (verifier, or_fault-some _ _ found, ground (arith, e'))

  -- A first state is accepted only for a registered and active contract without a state, with the
  -- signature of a registered enclave of the contract, whose verifier this node keeps, over the request and the creator's signature
  -- over that signature. The new ledger holds the state under the key of its hash, and the contract
  -- with the hash and the metadata hash, and is else unchanged.
  pub initialize_contract_state_success :
      (x : InitializeState) (l : Ledger h) (r : Bool × Ledger h)
      → initialize_contract_state h x l ≡ success r
      → IsInitialized x l r.1
  unfolding initialize_contract_state verify_enclave_signature_initialize_contract_state
  initialize_contract_state_success x l r e =
      let (info, contract, e₁) = >>=-eq-success _ _ e in
      let (_, active, e₂) = >>=-eq-success _ _ e₁ in
      let (_, fresh, e₃) = >>=-eq-success _ _ e₂ in
      let (_, member, e₄) = >>=-eq-success _ _ e₃ in
      let (by_creator, creator, e₅) = >>=-eq-success _ _ e₄ in
      let (_, passed, e₆) = >>=-eq-success _ _ e₅ in
      let (verifier, known, e₇) = >>=-eq-success _ _ e₆ in
      let (_, signed, e₈) = >>=-eq-success _ _ e₇ in
      let (enclave, registered, cached) =
        enclave_verifier_success x.contract_enclave_id l verifier known in
      let (key, made, checked) =
        verify_creator_success x.contract_enclave_signature x.creator_signature
          info.contract_creator_verifying_key by_creator creator in
      record {
        info = info;
        contract = expect-some _ _ contract;
        active = require_passed _ _ active;
        fresh = bytes_eq→eq _ _ (require_passed _ _ fresh);
        creator = key;
        creator_key = made;
        by_creator = sym checked ∙ require_passed _ _ passed;
        by_enclave = record {
          enclave = enclave;
          verifier = verifier;
          member = require_passed _ _ member;
          registered = registered;
          cached = cached;
          signed = require_passed _ _ signed;
        };
        written = ground (arith, e₈);
      }

  -- A state update is accepted exactly when it parses, its contract is registered and active, the
  -- enclave is a registered member of the contract, its verifier is kept by this node and accepts
  -- its signature of the contents, the previous state is the latest one, the dependencies are known
  -- and the state changes. The new ledger holds the
  -- state under the key of its hash and the contract with that hash, and is else unchanged.
  pub update_contract_state_iff :
      (x : UpdateState) (l l' : Ledger h)
      → (update_contract_state h x l ≡ success (true, l')) ↔ IsUpdated x l l'
  unfolding update_contract_state verify_enclave_signature_update_contract_state
  update_contract_state_iff x l l' = (
    update_contract_state_success x l (true, l'),
    λ u.
        let s = u.by_enclave in
        let distinct = ne→not_bytes_eq _ _ u.changed in
        let latest : bytes_eq u.update.previous_state_hash u.info.current_state_hash ≡ true =
          rw u.latest (bytes_eq_refl u.info.current_state_hash) in
        ground (
          arith, u.parsed, u.contract, u.active, s.member, latest, u.met, distinct, s.registered,
          s.cached, s.signed, u.written,
        ),
  )
