-- ===== src/Ledger/Records.antt =====
-- The structures of enclave_registry.h, contract_registry.h and ccl_registry.h. A `std::string` and
-- a `vector<uint8_t>` are both lists of bytes.
use private_data_objects.Prelude.{Bool, List, ByteArray}

abbrev pub Text : Type 0
Text = ByteArray

-- `ContractEnclaveExpectedSGXMeasurements`
pub record Measurements : Type 0 where
  pub mrenclave : Text
  pub basename : Text
  pub ias_public_key : Text
  pub sgx_debug_flag : Bool

-- `ProofData`, without the certificates, which no handler reads.
pub record ProofData : Type 0 where
  pub verification_report : Text
  pub signature : Text

-- `VerificationReport`, as far as a handler reads it.
pub record VerificationReport : Type 0 where
  pub epid_pseudonym : Text
  pub isv_enclave_quote_status : Text
  pub isv_enclave_quote_body : Text
  pub nonce : Text

-- `EnclaveInfo`
pub record EnclaveInfo : Type 0 where
  pub verifying_key : Text
  pub encryption_key : Text
  pub proof_data : Text
  pub enclave_persistent_id : Text
  pub registration_block_context : Text
  pub organizational_info : Text
  pub ehs_verifying_key : Text

-- `Register_enclave::In`
pub record RegisterEnclave : Type 0 where
  pub info : EnclaveInfo
  pub signature : ByteArray

-- `ProvisioningKeysToSecretMap`
pub record ProvisioningSecret : Type 0 where
  pub pspk : Text
  pub encrypted_secret : Text

-- `ContractEnclaveInfo`
pub record ContractEnclaveInfo : Type 0 where
  pub contract_enclave_id : Text
  pub contract_id : Text
  pub encrypted_state_encryption_key : Text
  pub signature : Text
  pub provisioning_key_state_secret_pairs : List ProvisioningSecret

-- `ContractInfo`
pub record ContractInfo : Type 0 where
  pub contract_id : Text
  pub contract_code_hash : ByteArray
  pub contract_metadata_hash : ByteArray
  pub contract_creator_verifying_key : Text
  pub provisioning_service_ids : List Text
  pub enclave_info : List ContractEnclaveInfo
  pub current_state_hash : ByteArray
  pub is_active : Bool

-- `Register_contract::In`
pub record RegisterContract : Type 0 where
  pub contract_code_hash : ByteArray
  pub contract_creator_verifying_key : Text
  pub nonce : Text
  pub signature : ByteArray
  pub contract_id : Text
  pub provisioning_service_ids : List Text

-- `Add_enclave::In`
pub record AddEnclave : Type 0 where
  pub contract_id : Text
  pub enclave_info : Text
  pub signature : ByteArray

-- `ContractStateDependecy`
pub record Dependency : Type 0 where
  pub contract_id : Text
  pub state_hash : ByteArray
  pub state_hash_for_sign : Text

-- `ContractStateInfo`
pub record ContractStateInfo : Type 0 where
  pub transaction_id : ByteArray
  pub previous_state_hash : ByteArray
  pub message_hash : ByteArray
  pub dependency_list : List Dependency

-- `StateUpdateInfo`
pub record StateUpdateInfo : Type 0 where
  pub contract_id : Text
  pub current_state_hash : ByteArray
  pub previous_state_hash : ByteArray
  pub message_hash : ByteArray
  pub dependency_list : List Dependency

-- `Initialize_contract_state::In`
pub record InitializeState : Type 0 where
  pub nonce : ByteArray
  pub contract_id : Text
  pub initial_state_hash : ByteArray
  pub message_hash : ByteArray
  pub metadata_hash : ByteArray
  pub contract_enclave_id : Text
  pub contract_enclave_signature : ByteArray
  pub creator_signature : ByteArray

-- `Update_contract_state::In`
pub record UpdateState : Type 0 where
  pub nonce : ByteArray
  pub state_update_info : Text
  pub contract_enclave_id : Text
  pub contract_enclave_signature : ByteArray

-- The key pair that the table `signer` holds, both in PEM.
pub record SignerKeys : Type 0 where
  pub privk : Text
  pub pubk : Text
