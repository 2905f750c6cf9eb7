-- ===== src/Enclave/Request.antt =====
-- contract_request.cpp: the two kinds of request, decrypted and parsed.
pub mod Parsed
use private_data_objects.Prelude.{ℕ, not, Option, ByteArray, ◌==◌, length}
use private_data_objects.CString.{Text, c_str}
use private_data_objects.Outcome.{Outcome, ok, value_error, throw_if, ◌>>=◌, ◌>>◌}
use private_data_objects.Platform.{Platform}
use private_data_objects.Crypto.Keys.{Keys}
use private_data_objects.Crypto.Skenc.{decrypt_message}
use private_data_objects.State.StateNode.{or_throw}
use private_data_objects.Enclave.Host.{RequestDocument, EnclaveHost}
use private_data_objects.Enclave.Secrets.{decode_and_decrypt_state_encryption_key}
use private_data_objects.Enclave.Message.{ContractMessage, unpack_message}
use private_data_objects.Enclave.Code.{ContractCode, no_code, unpack_code}

-- `ContractRequest`
pub record ContractRequest : Type 0 where
  pub contract_id : Text
  pub creator_id : Text
  pub state_encryption_key : ByteArray
  pub contract_id_hash : ByteArray
  pub contract_code : ContractCode
  pub contract_message : ContractMessage

-- `UpdateStateRequest`
pub record UpdateStateRequest : Type 0 where
  pub common : ContractRequest
  pub code_hash : ByteArray
  pub input_state_hash : ByteArray

module _ (p : Platform) (k : Keys) (e : EnclaveHost) where
  -- `parse_common_properties`. The test before `Unpack` looks at the pointer of the key once more.
  unfoldable pub parse_common_properties : RequestDocument → Outcome ContractRequest
  unfolding decode_and_decrypt_state_encryption_key unpack_message
  parse_common_properties document = do
    contract_id ← or_throw document.contract_id value_error
    let id_hash = e.base64_decode contract_id
    throw_if (not (length id_hash == 32)) value_error
    creator_id ← or_throw document.creator_id value_error
    encrypted ← or_throw document.encrypted_state_encryption_key value_error
    key ← decode_and_decrypt_state_encryption_key k e contract_id encrypted
    message ← unpack_message p k e document.contract_message
    ok (record {
      contract_id = contract_id;
      creator_id = creator_id;
      state_encryption_key = key;
      contract_id_hash = id_hash;
      contract_code = no_code;
      contract_message = message;
    })

  -- The first part of both constructors.
  unfoldable pub open_request : ByteArray → ByteArray → Outcome RequestDocument
  open_request session_key encrypted_request = do
    request ← decrypt_message p session_key encrypted_request
    or_throw (e.parse_request (c_str request)) value_error

  -- `UpdateStateRequest(session_key, encrypted_request, worker)`
  unfoldable pub parse_update_request : ByteArray → ByteArray → Outcome UpdateStateRequest
  unfolding open_request parse_common_properties
  parse_update_request session_key encrypted_request = do
    document ← open_request session_key encrypted_request
    common ← parse_common_properties document
    code_text ← or_throw document.contract_code_hash value_error
    let code_hash = e.base64_decode code_text
    throw_if (not (length code_hash == 32)) value_error
    state_text ← or_throw document.contract_state_hash value_error
    let input_state_hash = e.base64_decode state_text
    throw_if (not (length input_state_hash == 32)) value_error
    ok (record { common = common; code_hash = code_hash; input_state_hash = input_state_hash })

  -- `InitializeStateRequest(session_key, encrypted_request, worker)`
  unfoldable pub parse_initialize_request : ByteArray → ByteArray → Outcome ContractRequest
  unfolding open_request parse_common_properties unpack_code
  parse_initialize_request session_key encrypted_request = do
    document ← open_request session_key encrypted_request
    common ← parse_common_properties document
    object ← or_throw document.contract_code value_error
    code ← unpack_code p object
    ok (record common { contract_code = code })
