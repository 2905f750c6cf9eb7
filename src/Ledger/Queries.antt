-- ===== src/Ledger/Queries.antt =====
-- The read handlers of pdo_tp.cpp. They read what is globally committed, and sign their answer.
use private_data_objects.Prelude.{
  Bool, not, ◌&&◌, List, [], ◌++◌, ByteArray, bytes_eq, if◌then◌else◌,
}
use private_data_objects.Ledger.Records.{Text, ContractEnclaveInfo}
use private_data_objects.Ledger.Host.{Host}
use private_data_objects.Ledger.Reply.{
  Reply, success, require, expect, ◌>>=◌, ◌>>◌, enclave_not_found, contract_not_found,
  not_initialized, unknown_state,
}
use private_data_objects.Ledger.Tables.{Ledger, get_globally_committed}
use private_data_objects.Ledger.Signing.{ensure_signer, sign_document}
use private_data_objects.Ledger.Updates.{ccl_key}

-- `Verify_enclave::Out`
pub record EnclaveAnswer : Type 0 where
  pub verifying_key : Text
  pub encryption_key : Text
  pub proof_data : Text
  pub last_registration_block_context : Text
  pub owner_id : Text
  pub signature : Text

-- `Get_contract_provisioning_info::Out`
pub record ProvisioningAnswer : Type 0 where
  pub creator : Text
  pub provisioning_service_ids : List Text
  pub enclaves_info : List ContractEnclaveInfo
  pub signature : Text

-- `Get_contract_info::Out`
pub record ContractAnswer : Type 0 where
  pub creator : Text
  pub contract_code_hash : Text
  pub metadata_hash : Text
  pub signature : Text

-- `Get_current_state_info::Out`
pub record StateAnswer : Type 0 where
  pub state_hash : Text
  pub is_active : Bool
  pub signature : Text

-- `Get_state_details::Out`
pub record DetailsAnswer : Type 0 where
  pub transaction_id : Text
  pub previous_state_hash : Text
  pub message_hash : Text
  pub dependency_list : Text
  pub signature : Text

module _ (h : Host) where
  unfoldable pub verify_enclave : Text → Ledger h → Reply (EnclaveAnswer × Ledger h)
  unfolding ensure_signer sign_document
  verify_enclave enclave_id l = do
    e ← expect (get_globally_committed l.enclaves enclave_id) enclave_not_found
    (signer, l') ← ensure_signer h l
    let document =
        enclave_id
        ++ (e.encryption_key
            ++ (e.proof_data ++ (e.registration_block_context ++ e.ehs_verifying_key)))
    success (
      record {
        verifying_key = enclave_id;
        encryption_key = e.encryption_key;
        proof_data = e.proof_data;
        last_registration_block_context = e.registration_block_context;
        owner_id = e.ehs_verifying_key;
        signature = sign_document h signer document;
      },
      l',
    )

  unfoldable pub get_contract_provisioning_info :
      Text → Ledger h → Reply (ProvisioningAnswer × Ledger h)
  unfolding ensure_signer sign_document
  get_contract_provisioning_info contract_id l = do
    info ← expect (get_globally_committed l.contracts contract_id) contract_not_found
    (signer, l') ← ensure_signer h l
    success (
      record {
        creator = info.contract_creator_verifying_key;
        provisioning_service_ids = info.provisioning_service_ids;
        enclaves_info = info.enclave_info;
        signature = sign_document h signer (h.dump_provisioning contract_id info);
      },
      l',
    )

  unfoldable pub get_contract_info : Text → Ledger h → Reply (ContractAnswer × Ledger h)
  unfolding ensure_signer sign_document
  get_contract_info contract_id l = do
    info ← expect (get_globally_committed l.contracts contract_id) contract_not_found
    (signer, l') ← ensure_signer h l
    let code_hash = h.b64_from_raw info.contract_code_hash
    let metadata_hash = h.b64_from_raw info.contract_metadata_hash
    success (
      record {
        creator = info.contract_creator_verifying_key;
        contract_code_hash = code_hash;
        metadata_hash = metadata_hash;
        signature =
            sign_document h signer (
              contract_id ++ (info.contract_creator_verifying_key ++ (code_hash ++ metadata_hash)));
      },
      l',
    )

  unfoldable pub get_current_state_info_for_contract :
      Text → Ledger h → Reply (StateAnswer × Ledger h)
  unfolding ensure_signer sign_document
  get_current_state_info_for_contract contract_id l = do
    info ← expect (get_globally_committed l.contracts contract_id) contract_not_found
    require (not (info.is_active && bytes_eq info.current_state_hash [])) not_initialized
    (signer, l') ← ensure_signer h l
    let state_hash = h.b64_from_raw info.current_state_hash
    success (
      record {
        state_hash = state_hash;
        is_active = info.is_active;
        signature = sign_document h signer (contract_id ++ state_hash);
      },
      l',
    )

  unfoldable pub get_details_about_state :
      Text → ByteArray → Ledger h → Reply (DetailsAnswer × Ledger h)
  unfolding ensure_signer sign_document
  get_details_about_state contract_id state_hash l = do
    state ← expect (get_globally_committed l.ccl (ccl_key contract_id state_hash)) unknown_state
    let dependencies = h.dump_dependencies state.dependency_list
    (signer, l') ← ensure_signer h l
    let previous =
        if bytes_eq state.previous_state_hash []
        then []
        else h.b64_from_raw state.previous_state_hash
    let message = h.b64_from_raw state.message_hash
    let transaction = h.b64_from_raw state.transaction_id
    success (
      record {
        transaction_id = transaction;
        previous_state_hash = previous;
        message_hash = message;
        dependency_list = dependencies;
        signature = sign_document h signer (previous ++ (message ++ (transaction ++ dependencies)));
      },
      l',
    )
