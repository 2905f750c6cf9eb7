-- ===== src/Ledger/Contracts.antt =====
-- The handlers `register_contract` and `add_enclave` of pdo_tp.cpp.
pub mod Members
use private_data_objects.Prelude.{
  Bool, true, false, not, List, [], ◌∷◌, ◌++◌, Option, none, some, bytes_eq, if◌then◌else◌,
}
use private_data_objects.Ledger.Records.{
  Text, RegisterContract, AddEnclave, ContractInfo, ContractEnclaveInfo,
}
use private_data_objects.Ledger.Host.{Host}
use private_data_objects.Ledger.Reply.{
  Reply, success, error, require, expect, or_fault, ◌>>=◌, ◌>>◌, contract_already_registered,
  payload_signature_invalid, contract_not_registered, enclave_infos_unparsed, no_enclave_given,
  wrong_contract_id, enclave_not_registered, enclave_already_added, enclave_signature_invalid,
  null_pointer,
}
use private_data_objects.Ledger.Tables.{Ledger, get, put, lookup}
use private_data_objects.Ledger.Enclaves.{is_none}
use private_data_objects.Ledger.Signatures.{
  verify_pdo_transaction_signature_register_contract, verify_pdo_transaction_signature_add_enclave,
  verify_enclave_signature_add_enclave,
}

-- The loop over `enclave_info` that looks for an enclave.
unfoldable pub is_enclave_in : Text → List ContractEnclaveInfo → Bool
is_enclave_in id [] = false
is_enclave_in id (e ∷ rest) =
    if bytes_eq id e.contract_enclave_id then true else is_enclave_in id rest

abbrev pub is_nil {ℓ} : {A : Type ℓ} → List A → Bool
is_nil [] = true
is_nil (_ ∷ _) = false

abbrev pub new_contract : RegisterContract → ContractInfo
new_contract x = record {
  contract_id = x.contract_id;
  contract_code_hash = x.contract_code_hash;
  contract_metadata_hash = [];
  contract_creator_verifying_key = x.contract_creator_verifying_key;
  provisioning_service_ids = x.provisioning_service_ids;
  enclave_info = [];
  current_state_hash = [];
  is_active = true;
}

module _ (h : Host) where
  unfoldable pub register_contract : RegisterContract → Ledger h → Reply (Bool × Ledger h)
  register_contract x l = do
    require (is_none (get l.contracts x.contract_id)) contract_already_registered
    signed ←
        verify_pdo_transaction_signature_register_contract h x.signature
          x.contract_creator_verifying_key x.contract_code_hash x.nonce x.provisioning_service_ids
    require signed payload_signature_invalid
    success (true, record l { contracts = put l.contracts x.contract_id (new_contract x) })

  -- One round of the loop over `enclave_info_array`.
  unfoldable pub add_one : Text → Ledger h → ContractInfo → ContractEnclaveInfo → Reply ContractInfo
  unfolding is_enclave_in
  add_one contract_id l info e = do
    require (bytes_eq e.contract_id info.contract_id) wrong_contract_id
    enclave ← expect (get l.enclaves e.contract_enclave_id) enclave_not_registered
    require (not (is_enclave_in e.contract_enclave_id info.enclave_info)) enclave_already_added
    verifier ← or_fault (lookup enclave.verifying_key l.enclave_pubk_verifier) null_pointer
    signed ←
        verify_enclave_signature_add_enclave h e.signature verifier
          info.contract_creator_verifying_key contract_id e.provisioning_key_state_secret_pairs
          e.encrypted_state_encryption_key
    require signed enclave_signature_invalid
    success (record info { enclave_info = info.enclave_info ++ e ∷ [] })

  unfoldable pub add_all :
      Text → Ledger h → ContractInfo → List ContractEnclaveInfo → Reply ContractInfo
  add_all contract_id l info [] = success info
  add_all contract_id l info (e ∷ rest) = do
    info' ← add_one contract_id l info e
    add_all contract_id l info' rest

  unfoldable pub add_enclave : AddEnclave → Ledger h → Reply (Bool × Ledger h)
  add_enclave x l = do
    info ← expect (get l.contracts x.contract_id) contract_not_registered
    signed ←
        verify_pdo_transaction_signature_add_enclave h x.signature
          info.contract_creator_verifying_key x.contract_id x.enclave_info
    require signed payload_signature_invalid
    enclaves ← expect (h.parse_enclave_infos x.enclave_info) enclave_infos_unparsed
    require (not (is_nil enclaves)) no_enclave_given
    info' ← add_all x.contract_id l info enclaves
    success (true, record l { contracts = put l.contracts x.contract_id info' })
