-- ===== src/Examples/Updates.antt =====
-- An update of a small contract that an enclave signs and the ledger accepts.
use private_data_objects.Prelude.{
  ◌≡◌, refl, arith, true, false, [], ◌∷◌, none, some, bytes_eq, replicate,
}
use private_data_objects.Prelude.Slices.{slice}
use private_data_objects.CString.{c_str, string_at}
use private_data_objects.Crypto.Skenc.{encrypt_message_iv, encrypt_message, decrypt_message}
use private_data_objects.State.KeyValue.{to_privileged_key, privileged_get}
use private_data_objects.Enclave.Data.{
  deserialize_sealed_data, serialize_private_data, serialize_public_data, unseal_enclave_data,
  enclave_decrypt_message, sign_message,
}
use private_data_objects.Enclave.Secrets.{
  decrypt_state_encryption_key, decode_and_decrypt_state_encryption_key,
}
use private_data_objects.Enclave.Message.{
  verify_message_signature, compute_message_hash, unpack_message,
}
use private_data_objects.Enclave.Code.{fetch_value, fetch_from_state}
use private_data_objects.Enclave.ContractState.{unpack_state, open_state, finalize_state}
use private_data_objects.Enclave.Request.{
  open_request, parse_common_properties, parse_update_request,
}
use private_data_objects.Enclave.Response.{
  new_response, serialize_base_for_signing, concat_pairs, serialize_for_signing, compute_signature,
  response_document, serialize_and_encrypt,
}
use private_data_objects.Enclave.Process.{
  interpreter_code, interpreter_message, handle_update_exception, process_update,
}
use private_data_objects.Enclave.Host.{answer, ResponseDocument}
use private_data_objects.Enclave.Code.{ContractCode, no_code}
use private_data_objects.Enclave.ContractState.{ContractState}
use private_data_objects.Enclave.Request.{UpdateStateRequest}
use private_data_objects.Enclave.Process.{updated_response}
use private_data_objects.Enclave.Entry.{handle_contract_request}
use private_data_objects.Enclave.Entry.Answered.{IsUpdateAnswer, with_code}
use private_data_objects.Protocol.Update.{update_contract_state-signed}
use private_data_objects.Ledger.Signatures.{
  concat_ids, concat_secrets, concat_dependencies, verify_sig_static, verify_sig, verify_rsa_sig,
  verify_ias_signature, verify_pdo_transaction_signature_register_enclave,
  verify_pdo_transaction_signature_register_contract, verify_pdo_transaction_signature_add_enclave,
  verify_enclave_signature_add_enclave, verify_creator_signature_initialize_contract_state,
  verify_enclave_signature_initialize_contract_state,
  verify_enclave_signature_update_contract_state,
}
use private_data_objects.Ledger.Attestation.{
  to_upper, to_lower, resize, is_accepted_status, user_data_hash, verify_quote, verify_attestation,
  check_attestation, set_contract_enclave_attestation_check_flag,
  set_contract_enclave_expected_sgx_measurements,
}
use private_data_objects.Ledger.Signing.{
  gen_signing_key, load_signer, get_ledger_key, ensure_signer, sign_document,
}
use private_data_objects.Ledger.Enclaves.{register_enclave}
use private_data_objects.Ledger.Contracts.{
  is_enclave_in, register_contract, add_one, add_all, add_enclave,
}
use private_data_objects.Ledger.Updates.{
  to_string, vector_to_string, enclave_verifier, initialize_contract_state, are_met,
  update_contract_state, record_state,
}
use private_data_objects.Ledger.Records.{ContractInfo, StateUpdateInfo, UpdateState}
use private_data_objects.Ledger.Host.{Host}
use private_data_objects.Ledger.Reply.{success, error, fault}
use private_data_objects.Ledger.Tables.{
  Ledger, lookup, insert, get, put, get_globally_committed, new_ledger, commit,
}
use private_data_objects.Ledger.Steps.{
  Request, Reach, here, next, handled, committed, handle, set_flag, enclave_registration,
  contract_registration, enclave_addition, initialization,
}
use private_data_objects.Examples.Service.{
  service, an_enclave, entry, a_contract, an_addition, an_initialization,
}
use private_data_objects.Examples.Libraries.{libraries}
use private_data_objects.Examples.Enclaves.{
  keys, enclave, signup, secret, host, host-IsHostLawful, kv, interpreter, contract_id, code_hash,
  state_hash, new_state_hash,
}
use private_data_objects.Examples.Requests.{session_key, a_request, before, afterwards, stored}

program : Unit {0}
unfolding bytes_eq replicate lookup insert get put get_globally_committed concat_ids concat_secrets
    concat_dependencies verify_sig_static verify_sig verify_rsa_sig verify_ias_signature
    verify_pdo_transaction_signature_register_enclave
    verify_pdo_transaction_signature_register_contract verify_pdo_transaction_signature_add_enclave
    verify_enclave_signature_add_enclave verify_creator_signature_initialize_contract_state
    verify_enclave_signature_initialize_contract_state
    verify_enclave_signature_update_contract_state to_upper to_lower resize is_accepted_status
    user_data_hash verify_quote verify_attestation check_attestation
    set_contract_enclave_attestation_check_flag set_contract_enclave_expected_sgx_measurements
    gen_signing_key load_signer get_ledger_key ensure_signer sign_document register_enclave
    is_enclave_in register_contract add_one add_all add_enclave to_string vector_to_string
    enclave_verifier initialize_contract_state are_met update_contract_state handle slice c_str
    string_at decrypt_message encrypt_message encrypt_message_iv to_privileged_key privileged_get
    deserialize_sealed_data serialize_private_data serialize_public_data unseal_enclave_data
    enclave_decrypt_message sign_message decrypt_state_encryption_key
    decode_and_decrypt_state_encryption_key verify_message_signature compute_message_hash
    unpack_message fetch_value fetch_from_state unpack_state open_state finalize_state open_request
    parse_common_properties parse_update_request new_response serialize_base_for_signing
    concat_pairs serialize_for_signing compute_signature response_document serialize_and_encrypt
    interpreter_code interpreter_message handle_update_exception process_update
    handle_contract_request
program = tt

abbrev carried_update : StateUpdateInfo
carried_update = record {
  contract_id = contract_id;
  current_state_hash = new_state_hash;
  previous_state_hash = state_hash;
  message_hash = libraries.sha256 (5 ∷ 1 ∷ []);
  dependency_list = [];
}

-- A ledger whose requests carry the documents of this contract.
abbrev pub ledger_host : Host
ledger_host = record service {
  parse_enclave_infos = λ t. some (record entry { contract_id = contract_id } ∷ []);
  parse_state_update = λ t. some carried_update;
}

abbrev pub after : Request → Ledger ledger_host → Ledger ledger_host
after q l = elim (handle ledger_host q l) [
  | success l' ↦ l'
  | error e ↦ new_ledger
  | fault x ↦ new_ledger
]

abbrev registration : Request
registration =
    contract_registration
      (record a_contract { contract_id = contract_id; contract_code_hash = code_hash })

abbrev addition : Request
addition = enclave_addition (record an_addition { contract_id = contract_id })

abbrev first_state : Request
first_state =
    initialization
      (record an_initialization { contract_id = contract_id; initial_state_hash = state_hash })

abbrev pub with_enclave : Ledger ledger_host
with_enclave = after (enclave_registration an_enclave) (commit (after (set_flag false) new_ledger))

-- The contract at the state of the request, with the enclave as a member.
abbrev ledger : Ledger ledger_host
ledger = after first_state (after addition (after registration with_enclave))

to_ledger : Reach ledger_host (new_ledger {h = ledger_host}) ledger
unfolding program
to_ledger =
    next
      (next
        (next
          (next (next (next here (handled (set_flag false) refl)) (committed refl))
            (handled (enclave_registration an_enclave) refl))
          (handled registration refl))
        (handled addition refl))
      (handled first_state refl)

abbrev contract_info : ContractInfo
contract_info = record {
  contract_id = contract_id;
  contract_code_hash = code_hash;
  contract_metadata_hash = [];
  contract_creator_verifying_key = 4 ∷ [];
  provisioning_service_ids = [];
  enclave_info = record entry { contract_id = contract_id } ∷ [];
  current_state_hash = state_hash;
  is_active = true;
}

abbrev transaction : UpdateState
transaction = record {
  nonce = 2 ∷ [];
  state_update_info = [];
  contract_enclave_id = 1 ∷ [];
  contract_enclave_signature = 1 ∷ [];
}

abbrev document : ResponseDocument
document = record {
  status = true;
  state_changed = some true;
  invocation_response = answer (1 ∷ []);
  signature = some (1 ∷ []);
  metadata_hash = none;
  state_hash = some new_state_hash;
  dependencies = some [];
}

abbrev request : UpdateStateRequest
request = record {
  common = record {
    contract_id = contract_id;
    creator_id = 6 ∷ [];
    state_encryption_key = secret;
    contract_id_hash = contract_id;
    contract_code = no_code;
    contract_message = record {
      expression = 5 ∷ [];
      originator_verifying_key = 6 ∷ [];
      channel_verifying_key = 2 ∷ [];
      nonce = 1 ∷ [];
      message_hash = libraries.sha256 (5 ∷ 1 ∷ []);
    };
  };
  code_hash = code_hash;
  input_state_hash = state_hash;
}

abbrev code : ContractCode
code = record { code = 1 ∷ []; name = 2 ∷ []; nonce = 3 ∷ []; code_hash = code_hash }

abbrev opened : ContractState libraries kv
opened = record {
  input_block_id = state_hash;
  output_block_id = replicate 32 0;
  state = stored;
  metadata_hash = 9 ∷ [];
}

abbrev finalized : ContractState libraries kv
finalized = record opened {
  output_block_id = new_state_hash;
  state = insert (b'p' ∷ 1 ∷ []) (5 ∷ []) stored;
}

abbrev coded : UpdateStateRequest
coded = with_code libraries kv keys host interpreter request code

an_answer :
    IsUpdateAnswer libraries kv keys host interpreter signup session_key a_request 0 before
      afterwards
unfolding program
an_answer = record {
  d = enclave;
  session_key = session_key;
  request = request;
  c = opened;
  code = code;
  s = stored;
  c' = finalized;
  response = updated_response libraries kv host interpreter coded finalized true [] (1 ∷ []);
  unsealed = refl;
  decrypted = refl;
  parsed = refl;
  opened = refl;
  fetched = refl;
  processed = refl;
  answered = refl;
}

update_contract_state-signed_example :
    update_contract_state ledger_host transaction ledger
    ≡ success (
      true,
      record_state ledger_host contract_id new_state_hash
          (record {
            transaction_id = 2 ∷ [];
            previous_state_hash = state_hash;
            message_hash = libraries.sha256 (5 ∷ 1 ∷ []);
            dependency_list = [];
          })
          (record contract_info { current_state_hash = new_state_hash })
          ledger,
    )
unfolding program an_answer
update_contract_state-signed_example =
    update_contract_state-signed ledger_host keys libraries kv host interpreter host-IsHostLawful
      an_answer document transaction carried_update ledger contract_info (1 ∷ []) refl
      (record {
        pairs = [];
        nonce = refl;
        parsed = refl;
        contract = refl;
        previous = refl;
        message = refl;
        signature = refl;
        state = refl;
        has_dependencies = refl;
        dependencies = refl;
      })
      to_ledger (λ m s draw e. ground (arith, e))
      (record {
        contract = refl;
        code = refl;
        state = refl;
        changed = λ e. ground (arith, e);
        met = refl;
        member = refl;
        cached = refl;
      })
