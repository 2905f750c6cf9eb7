-- ===== src/Examples/Initials.antt =====
-- The first state of a small contract that an enclave signs and the ledger accepts.
use private_data_objects.Prelude.{
  ◌≡◌, refl, arith, true, false, [], ◌∷◌, none, some, bytes_eq, replicate, List, ByteArray,
}
use private_data_objects.Prelude.Slices.{slice}
use private_data_objects.CString.{c_str, string_at, codes}
use private_data_objects.Crypto.Skenc.{encrypt_message_iv, encrypt_message, decrypt_message}
use private_data_objects.State.KeyValue.{to_privileged_key, privileged_get, privileged_put}
use private_data_objects.Enclave.Data.{
  deserialize_sealed_data, serialize_private_data, serialize_public_data, unseal_enclave_data,
  enclave_decrypt_message, sign_message,
}
use private_data_objects.Enclave.Secrets.{
  decrypt_state_encryption_key, decode_and_decrypt_state_encryption_key,
}
use private_data_objects.Enclave.Message.{
  verify_message_signature, compute_message_hash, unpack_message,
}
use private_data_objects.Enclave.Code.{
  fetch_value, fetch_from_state, compute_code_hash, unpack_code, save_to_state,
}
use private_data_objects.Enclave.ContractState.{
  unpack_state, open_state, finalize_state, initialize_state, create_state,
}
use private_data_objects.Enclave.Request.{
  open_request, parse_common_properties, parse_update_request, ContractRequest,
  parse_initialize_request,
}
use private_data_objects.Enclave.Response.{
  new_response, serialize_base_for_signing, concat_pairs, serialize_for_signing, compute_signature,
  response_document, serialize_and_encrypt, initialized,
}
use private_data_objects.Enclave.Process.{
  interpreter_code, interpreter_message, handle_update_exception, process_update,
  process_initialize, handle_initialize_exception,
}
use private_data_objects.Enclave.Host.{answer, ResponseDocument, EnclaveHost, IsHostLawful}
use private_data_objects.Enclave.Code.{ContractCode}
use private_data_objects.Enclave.ContractState.{ContractState}
use private_data_objects.Enclave.Entry.{
  handle_contract_request, Session, initialize_contract_state_request,
}
use private_data_objects.Protocol.Initialization.{initialize_contract_state-signed}
use private_data_objects.Ledger.Signatures.{
  concat_ids, concat_secrets, concat_dependencies, verify_sig_static, verify_sig, verify_rsa_sig,
  verify_ias_signature, verify_pdo_transaction_signature_register_enclave,
  verify_pdo_transaction_signature_register_contract, verify_pdo_transaction_signature_add_enclave,
  verify_enclave_signature_add_enclave, verify_creator_signature_initialize_contract_state,
  verify_enclave_signature_initialize_contract_state,
  verify_enclave_signature_update_contract_state,
}
use private_data_objects.Ledger.Attestation.{
  to_upper, to_lower, resize, is_accepted_status, user_data_hash, verify_quote, verify_attestation,
  check_attestation, set_contract_enclave_attestation_check_flag,
  set_contract_enclave_expected_sgx_measurements,
}
use private_data_objects.Ledger.Signing.{
  gen_signing_key, load_signer, get_ledger_key, ensure_signer, sign_document,
}
use private_data_objects.Ledger.Enclaves.{register_enclave}
use private_data_objects.Ledger.Contracts.{
  is_enclave_in, register_contract, add_one, add_all, add_enclave,
}
use private_data_objects.Ledger.Updates.{
  to_string, vector_to_string, enclave_verifier, initialize_contract_state, are_met,
  update_contract_state, record_state,
}
use private_data_objects.Ledger.Records.{ContractInfo, InitializeState}
use private_data_objects.Ledger.Reply.{success}
use private_data_objects.Ledger.Tables.{
  Ledger, lookup, insert, get, put, get_globally_committed, new_ledger,
}
use private_data_objects.Ledger.Steps.{
  Request, Reach, here, next, handled, committed, handle, set_flag, enclave_registration,
  contract_registration, enclave_addition,
}
use private_data_objects.Examples.Service.{an_enclave, entry, a_contract, an_addition}
use private_data_objects.Examples.Libraries.{libraries}
use private_data_objects.Examples.Enclaves.{
  keys, enclave, signup, secret, host, host-IsHostLawful, kv, interpreter, contract_id,
  new_state_hash, sealed_key, message_document,
}
use private_data_objects.Examples.Requests.{session_key, a_request}
use private_data_objects.Examples.Updates.{ledger_host, after, with_enclave}
use private_data_objects.Outcome.{Outcome, ok, err}
use private_data_objects.Enclave.Entry.Initial.{IsInitialAnswer}

program : Unit {0}
unfolding compute_code_hash unpack_code save_to_state privileged_put initialize_state create_state
    parse_initialize_request process_initialize handle_initialize_exception
    initialize_contract_state_request bytes_eq replicate lookup insert get put
    get_globally_committed concat_ids concat_secrets concat_dependencies verify_sig_static
    verify_sig verify_rsa_sig verify_ias_signature verify_pdo_transaction_signature_register_enclave
    verify_pdo_transaction_signature_register_contract verify_pdo_transaction_signature_add_enclave
    verify_enclave_signature_add_enclave verify_creator_signature_initialize_contract_state
    verify_enclave_signature_initialize_contract_state
    verify_enclave_signature_update_contract_state to_upper to_lower resize is_accepted_status
    user_data_hash verify_quote verify_attestation check_attestation
    set_contract_enclave_attestation_check_flag set_contract_enclave_expected_sgx_measurements
    gen_signing_key load_signer get_ledger_key ensure_signer sign_document register_enclave
    is_enclave_in register_contract add_one add_all add_enclave to_string vector_to_string
    enclave_verifier initialize_contract_state are_met update_contract_state handle slice c_str
    string_at decrypt_message encrypt_message encrypt_message_iv to_privileged_key privileged_get
    deserialize_sealed_data serialize_private_data serialize_public_data unseal_enclave_data
    enclave_decrypt_message sign_message decrypt_state_encryption_key
    decode_and_decrypt_state_encryption_key verify_message_signature compute_message_hash
    unpack_message fetch_value fetch_from_state unpack_state open_state finalize_state open_request
    parse_common_properties parse_update_request new_response serialize_base_for_signing
    concat_pairs serialize_for_signing compute_signature response_document serialize_and_encrypt
    interpreter_code interpreter_message handle_update_exception process_update
    handle_contract_request
program = tt

-- A host whose requests carry a code.
abbrev coded_host : EnclaveHost
coded_host = record host {
  parse_request = λ t. some (record {
    contract_id = some contract_id;
    creator_id = some (6 ∷ []);
    encrypted_state_encryption_key = some sealed_key;
    contract_message = some message_document;
    contract_code =
        some (record { code = some (1 ∷ []); name = some (2 ∷ []); nonce = some (3 ∷ []) });
    contract_code_hash = none;
    contract_state_hash = none;
  });
}

abbrev a_code : ContractCode
a_code = record {
  code = 1 ∷ [];
  name = 2 ∷ [];
  nonce = 3 ∷ [];
  code_hash = compute_code_hash libraries (1 ∷ []) (2 ∷ []) (3 ∷ []);
}

abbrev request : ContractRequest
request = record {
  contract_id = contract_id;
  creator_id = 6 ∷ [];
  state_encryption_key = secret;
  contract_id_hash = contract_id;
  contract_code = a_code;
  contract_message = record {
    expression = 5 ∷ [];
    originator_verifying_key = 6 ∷ [];
    channel_verifying_key = 2 ∷ [];
    nonce = 1 ∷ [];
    message_hash = libraries.sha256 (5 ∷ 1 ∷ []);
  };
}

abbrev value_or {ℓ} : {A : Type ℓ} → A → Outcome A → A
value_or a (ok b) = b
value_or a (err x) = a

abbrev created : ContractState libraries kv
created =
    value_or (record { input_block_id = []; output_block_id = []; state = []; metadata_hash = [] })
      (create_state libraries kv keys secret contract_id 1 2 [])

abbrev saved : List (ByteArray × ByteArray)
saved = value_or [] (save_to_state libraries kv a_code created.state)

abbrev finalized : ContractState libraries kv
finalized =
    (process_initialize libraries kv coded_host interpreter request
      (record created { state = saved })).1

abbrev Run : Type 0
Run = Session libraries kv keys coded_host interpreter

abbrev start : Run
start = record { last_result = []; world = [] }

abbrev afterwards : Run
afterwards = value_or start (
    initialize_contract_state_request libraries kv keys coded_host interpreter signup session_key
      a_request 1 2 0 start)

an_answer :
    IsInitialAnswer libraries kv keys coded_host interpreter signup session_key a_request 1 2 0
      start afterwards
unfolding program
an_answer = record {
  d = enclave;
  session_key = session_key;
  request = request;
  c = created;
  s = saved;
  c' = finalized;
  response = initialized (record {
    base = new_response request true (answer (codes "true"));
    output_block_id = new_state_hash;
    contract_metadata_hash = created.metadata_hash;
  });
  unsealed = refl;
  decrypted = refl;
  parsed = refl;
  created = refl;
  saved = refl;
  processed = refl;
  answered = refl;
}

abbrev registration : Request
registration = contract_registration (record a_contract {
  contract_id = contract_id;
  contract_code_hash = a_code.code_hash;
  contract_creator_verifying_key = 6 ∷ [];
  signature = 6 ∷ [];
})

abbrev addition : Request
addition = enclave_addition (record an_addition { contract_id = contract_id; signature = 6 ∷ [] })

-- The contract without a state, with the enclave as a member.
abbrev ledger : Ledger ledger_host
ledger = after addition (after registration with_enclave)

to_ledger : Reach ledger_host (new_ledger {h = ledger_host}) ledger
unfolding program
to_ledger =
    next
      (next
        (next (next (next here (handled (set_flag false) refl)) (committed refl))
          (handled (enclave_registration an_enclave) refl))
        (handled registration refl))
      (handled addition refl)

abbrev contract_info : ContractInfo
contract_info = record {
  contract_id = contract_id;
  contract_code_hash = a_code.code_hash;
  contract_metadata_hash = [];
  contract_creator_verifying_key = 6 ∷ [];
  provisioning_service_ids = [];
  enclave_info = record entry { contract_id = contract_id } ∷ [];
  current_state_hash = [];
  is_active = true;
}

abbrev transaction : InitializeState
transaction = record {
  nonce = 2 ∷ [];
  contract_id = contract_id;
  initial_state_hash = new_state_hash;
  message_hash = libraries.sha256 (5 ∷ 1 ∷ []);
  metadata_hash = created.metadata_hash;
  contract_enclave_id = 1 ∷ [];
  contract_enclave_signature = 1 ∷ [];
  creator_signature = 6 ∷ [];
}

abbrev document : ResponseDocument
document = record {
  status = true;
  state_changed = none;
  invocation_response = answer (codes "true");
  signature = some (1 ∷ []);
  metadata_hash = some created.metadata_hash;
  state_hash = some new_state_hash;
  dependencies = none;
}

coded_host-IsHostLawful : IsHostLawful coded_host
coded_host-IsHostLawful = record {
  decode-encode = host-IsHostLawful.decode-encode;
  unseal-seal = host-IsHostLawful.unseal-seal;
}

initialize_contract_state-signed_example :
    initialize_contract_state ledger_host transaction ledger
    ≡ success (
      true,
      record_state ledger_host contract_id new_state_hash
          (record {
            transaction_id = 2 ∷ [];
            previous_state_hash = [];
            message_hash = libraries.sha256 (5 ∷ 1 ∷ []);
            dependency_list = [];
          })
          (record contract_info {
            current_state_hash = new_state_hash;
            contract_metadata_hash = created.metadata_hash;
          })
          ledger,
    )
unfolding program an_answer
initialize_contract_state-signed_example =
    initialize_contract_state-signed ledger_host keys libraries kv coded_host interpreter
      coded_host-IsHostLawful an_answer document transaction ledger contract_info (6 ∷ []) (1 ∷ [])
      refl
      (record {
        nonce = refl;
        contract = refl;
        message = refl;
        signature = refl;
        state = refl;
        metadata = refl;
      })
      to_ledger (λ m s draw e. ground (arith, e))
      (record {
        contract = refl;
        code = refl;
        creator_id = refl;
        fresh = refl;
        creator_key = refl;
        by_creator = refl;
        member = refl;
        cached = refl;
      })
