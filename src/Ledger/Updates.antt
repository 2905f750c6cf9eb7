-- ===== src/Ledger/Updates.antt =====
-- The handlers `initialize_contract_state` and `update_contract_state` of pdo_tp.cpp.
pub mod Accepted
pub mod Keys
use private_data_objects.Prelude.{
  ℕ, ◌+◌, ◌/◌, ◌%◌, Bool, true, false, not, List, [], ◌∷◌, ◌++◌, Option, none, some, ByteArray,
  bytes_eq, ltb, if◌then◌else◌,
}
use private_data_objects.Ledger.Records.{
  Text, ContractInfo, ContractStateInfo, StateUpdateInfo, Dependency, InitializeState, UpdateState,
}
use private_data_objects.Ledger.Host.{Host}
use private_data_objects.Ledger.Reply.{
  Reply, success, error, require, expect, or_fault, ◌>>=◌, ◌>>◌, payload_signature_invalid,
  contract_not_registered, contract_inactive, already_initialized, enclave_not_in_contract,
  enclave_signature_invalid, update_unparsed, not_latest_state, unknown_dependency, state_unchanged,
  no_value, null_pointer,
}
use private_data_objects.Ledger.Tables.{Ledger, get, put, lookup}
use private_data_objects.Ledger.Enclaves.{is_none}
use private_data_objects.Ledger.Contracts.{is_enclave_in}
use private_data_objects.Ledger.Signatures.{
  verify_creator_signature_initialize_contract_state,
  verify_enclave_signature_initialize_contract_state,
  verify_enclave_signature_update_contract_state,
}

-- `to_string` of a byte
unfoldable pub to_string : ℕ → Text
to_string v =
    if ltb v 10
    then (48 + v) ∷ []
    else if ltb v 100
    then (48 + v / 10) ∷ (48 + v % 10) ∷ []
    else (48 + v / 100) ∷ (48 + v / 10 % 10) ∷ (48 + v % 10) ∷ []

unfoldable pub vector_to_string : ByteArray → Text
unfolding to_string
vector_to_string [] = []
vector_to_string (v ∷ vec) = to_string v ++ vector_to_string vec

-- The key of the table `ccl`.
abbrev pub ccl_key : Text → ByteArray → Text
ccl_key contract_id state_hash = contract_id ++ vector_to_string state_hash

module _ (h : Host) where
  -- `this->enclave_pubk_verifier[enclave_r.value().verifying_key]`, which the verification then
  -- dereferences.
  unfoldable pub enclave_verifier : Text → Ledger h → Reply h.Verifier
  enclave_verifier enclave_id l = do
    enclave ← or_fault (get l.enclaves enclave_id) no_value
    or_fault (lookup enclave.verifying_key l.enclave_pubk_verifier) null_pointer

  -- The state that both handlers write.
  abbrev pub record_state :
      Text → ByteArray → ContractStateInfo → ContractInfo → Ledger h → Ledger h
  record_state contract_id state_hash state info l = record l {
    ccl = put l.ccl (ccl_key contract_id state_hash) state;
    contracts = put l.contracts contract_id info;
  }

  unfoldable pub initialize_contract_state : InitializeState → Ledger h → Reply (Bool × Ledger h)
  unfolding enclave_verifier
  initialize_contract_state x l = do
    info ← expect (get l.contracts x.contract_id) contract_not_registered
    require info.is_active contract_inactive
    require (bytes_eq info.current_state_hash []) already_initialized
    require (is_enclave_in x.contract_enclave_id info.enclave_info) enclave_not_in_contract
    by_creator ←
        verify_creator_signature_initialize_contract_state h x.contract_enclave_signature
          x.creator_signature info.contract_creator_verifying_key
    require by_creator payload_signature_invalid
    verifier ← enclave_verifier x.contract_enclave_id l
    require
        (verify_enclave_signature_initialize_contract_state h x.nonce x.contract_id
          x.initial_state_hash info.contract_code_hash x.message_hash x.metadata_hash
          info.contract_creator_verifying_key x.contract_enclave_signature verifier)
        enclave_signature_invalid
    success (
      true,
      record_state x.contract_id x.initial_state_hash
          (record {
            transaction_id = x.nonce;
            previous_state_hash = [];
            message_hash = x.message_hash;
            dependency_list = [];
          })
          (record info {
            current_state_hash = x.initial_state_hash;
            contract_metadata_hash = x.metadata_hash;
          })
          l,
    )

  -- The loop over the dependencies.
  unfoldable pub are_met : List Dependency → Ledger h → Bool
  are_met [] l = true
  are_met (dep ∷ rest) l =
      if is_none (get l.ccl (ccl_key dep.contract_id dep.state_hash)) then false else are_met rest l

  unfoldable pub update_contract_state : UpdateState → Ledger h → Reply (Bool × Ledger h)
  unfolding enclave_verifier are_met
  update_contract_state x l = do
    update ← expect (h.parse_state_update x.state_update_info) update_unparsed
    info ← expect (get l.contracts update.contract_id) contract_not_registered
    require info.is_active contract_inactive
    require (is_enclave_in x.contract_enclave_id info.enclave_info) enclave_not_in_contract
    require (bytes_eq update.previous_state_hash info.current_state_hash) not_latest_state
    require (are_met update.dependency_list l) unknown_dependency
    require (not (bytes_eq update.current_state_hash info.current_state_hash)) state_unchanged
    verifier ← enclave_verifier x.contract_enclave_id l
    require
        (verify_enclave_signature_update_contract_state h x.nonce info.contract_code_hash update
          x.contract_enclave_signature verifier)
        enclave_signature_invalid
    success (
      true,
      record_state update.contract_id update.current_state_hash
          (record {
            transaction_id = x.nonce;
            previous_state_hash = update.previous_state_hash;
            message_hash = update.message_hash;
            dependency_list = update.dependency_list;
          })
          (record info { current_state_hash = update.current_state_hash }) l,
    )
