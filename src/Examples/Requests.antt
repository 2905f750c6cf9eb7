-- ===== src/Examples/Requests.antt =====
-- A small contract: the store as the enclave left it, a request and its answer.
use private_data_objects.Prelude.{◌≡◌, refl, List, [], ◌∷◌, ◌++◌, ByteArray, bytes_eq, replicate}
use private_data_objects.Prelude.Slices.{slice}
use private_data_objects.CString.{codes, c_str, string_at}
use private_data_objects.Outcome.{Outcome, ok, err}
use private_data_objects.Crypto.Skenc.{encrypt_message_iv, encrypt_message, decrypt_message}
use private_data_objects.Ledger.Updates.{are_met, to_string, vector_to_string}
use private_data_objects.Ledger.Contracts.{is_enclave_in}
use private_data_objects.Ledger.Tables.{lookup, insert, get, put}
use private_data_objects.State.KeyValue.{
  to_privileged_key, to_unprivileged_key, privileged_get, privileged_put, unprivileged_put,
}
use private_data_objects.Enclave.Data.{
  deserialize_sealed_data, serialize_private_data, serialize_public_data, unseal_enclave_data,
  enclave_decrypt_message, sign_message,
}
use private_data_objects.Enclave.Secrets.{
  decrypt_state_encryption_key, decode_and_decrypt_state_encryption_key,
}
use private_data_objects.Enclave.Message.{
  verify_message_signature, compute_message_hash, unpack_message,
}
use private_data_objects.Enclave.Code.{fetch_value, fetch_from_state, save_to_state}
use private_data_objects.Enclave.ContractState.{
  unpack_state, open_state, finalize_state, initialize_state, create_state,
}
use private_data_objects.Enclave.Request.{
  open_request, parse_common_properties, parse_update_request,
}
use private_data_objects.Enclave.Response.{
  new_response, serialize_base_for_signing, concat_pairs, serialize_for_signing, compute_signature,
  response_document, serialize_and_encrypt,
}
use private_data_objects.Enclave.Process.{
  interpreter_code, interpreter_message, handle_update_exception, process_update,
  handle_initialize_exception, process_initialize,
}
use private_data_objects.Enclave.Entry.{Session, handle_contract_request}
use private_data_objects.Enclave.Entry.Checked.{IsChecked, handle_contract_request-IsChecked}
use private_data_objects.Enclave.Entry.Released.{IsReleased, handle_contract_request-IsReleased}
use private_data_objects.Examples.Libraries.{libraries, libraries-IsCryptoLawful}
use private_data_objects.Examples.Enclaves.{
  keys, signup, host, kv, interpreter, contract_id, code_hash,
}

program : Unit {0}
unfolding bytes_eq replicate slice lookup insert get put are_met is_enclave_in to_string
    vector_to_string c_str string_at decrypt_message encrypt_message encrypt_message_iv
    to_privileged_key to_unprivileged_key privileged_get privileged_put unprivileged_put
    deserialize_sealed_data serialize_private_data serialize_public_data unseal_enclave_data
    enclave_decrypt_message sign_message decrypt_state_encryption_key
    decode_and_decrypt_state_encryption_key verify_message_signature compute_message_hash
    unpack_message fetch_value fetch_from_state save_to_state unpack_state open_state finalize_state
    initialize_state create_state open_request parse_common_properties parse_update_request
    new_response serialize_base_for_signing concat_pairs serialize_for_signing compute_signature
    response_document serialize_and_encrypt interpreter_code interpreter_message
    handle_update_exception process_update handle_initialize_exception process_initialize
    handle_contract_request
program = tt

-- The store of the contract: what the enclave put there at first.
abbrev pub stored : List (ByteArray × ByteArray)
stored =
    (b'P' ∷ codes "IdHash", contract_id)
    ∷ (b'P' ∷ codes "Metadata.Hash", 9 ∷ [])
    ∷ (b'P' ∷ codes "ContractCode.Code", 1 ∷ [])
    ∷ (b'P' ∷ codes "ContractCode.Name", 2 ∷ [])
    ∷ (b'P' ∷ codes "ContractCode.Nonce", 3 ∷ [])
    ∷ (b'P' ∷ codes "ContractCode.Hash", code_hash)
    ∷ []

abbrev Run : Type 0
Run = Session libraries kv keys host interpreter

abbrev pub before : Run
before = record { last_result = []; world = stored }

abbrev pub session_key : ByteArray
session_key = replicate 16 7

abbrev pub a_request : ByteArray
a_request = replicate 28 0 ++ (1 ∷ [])

abbrev or_before : Outcome Run → Run
or_before (ok o) = o
or_before (err x) = before

abbrev pub afterwards : Run
afterwards = or_before (
    handle_contract_request libraries kv keys host interpreter signup session_key a_request 0
      before)

is_answered :
    handle_contract_request libraries kv keys host interpreter signup session_key a_request 0 before
    ≡ ok afterwards
unfolding program
is_answered = refl

handle_contract_request-IsChecked_example :
    IsChecked libraries kv keys host interpreter signup session_key a_request 0 before afterwards
handle_contract_request-IsChecked_example =
    handle_contract_request-IsChecked libraries kv keys host interpreter signup session_key
      a_request 0 before afterwards is_answered

handle_contract_request-IsReleased_example :
    IsReleased libraries kv keys host interpreter signup session_key a_request 0 before afterwards
handle_contract_request-IsReleased_example =
    handle_contract_request-IsReleased libraries kv keys host interpreter libraries-IsCryptoLawful
      signup session_key a_request 0 before afterwards is_answered
