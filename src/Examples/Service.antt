-- ===== src/Examples/Service.antt =====
-- A small host for the ledger: a signature is the signer's key, a hash is the length of the message
-- and every document parses to the one that the runs need.
use private_data_objects.Prelude.{true, false, [], ◌∷◌, ◌++◌, some, length, replicate, bytes_eq}
use private_data_objects.Ledger.Records.{
  Text, Measurements, RegisterEnclave, ContractEnclaveInfo, RegisterContract, AddEnclave,
  StateUpdateInfo, InitializeState, UpdateState,
}
use private_data_objects.Ledger.Host.{Host}
use private_data_objects.Ledger.Reply.{success, error, fault}
use private_data_objects.Ledger.Tables.{Ledger, new_ledger, commit}
use private_data_objects.Ledger.Attestation.{ok_quote_status}
use private_data_objects.Ledger.Steps.{
  Request, set_flag, set_measurements, gen_key, enclave_registration, contract_registration,
  enclave_addition, initialization, update, handle,
}

abbrev pub entry : ContractEnclaveInfo
entry = record {
  contract_enclave_id = 1 ∷ [];
  contract_id = 3 ∷ [];
  encrypted_state_encryption_key = [];
  signature = 1 ∷ [];
  provisioning_key_state_secret_pairs = [];
}

abbrev update_info : StateUpdateInfo
update_info = record {
  contract_id = 3 ∷ [];
  current_state_hash = 8 ∷ [];
  previous_state_hash = 7 ∷ [];
  message_hash = [];
  dependency_list =
      record { contract_id = 3 ∷ []; state_hash = 7 ∷ []; state_hash_for_sign = 7 ∷ [] } ∷ [];
}

abbrev pub service : Host
service = record {
  Verifier = Text;
  Signer = Text;
  make_public_key = λ k. some k;
  verify = λ v contents signature. bytes_eq signature v;
  verify_rsa = λ k contents signature. some (bytes_eq signature k);
  make_key_pair = λ n. some (record { privk = n ∷ []; pubk = n ∷ [] });
  signer_of_pem = λ pem. some pem;
  sign = λ s contents. s ++ contents;
  sha256 = λ m. length m ∷ [];
  to_hex = λ m. m;
  raw_from_b64 = λ t. some t;
  b64_from_raw = λ m. m;
  quote_of_bytes = λ b. some (record {
    report_data = b;
    mr_enclave = 97 ∷ [];
    basename = 98 ∷ [];
    mode_64_bit = true;
    debug = false;
  });
  parse_proof_data = λ t. some (record { verification_report = t; signature = 9 ∷ [] });
  parse_report = λ t. some (record {
    epid_pseudonym = 6 ∷ [];
    isv_enclave_quote_status = ok_quote_status;
    isv_enclave_quote_body = 66 ∷ replicate 63 0;
    nonce = 5 ∷ [];
  });
  parse_enclave_infos = λ t. some (entry ∷ []);
  parse_state_update = λ t. some update_info;
  dump_dependencies = λ d. length d ∷ [];
  dump_provisioning = λ id info. id;
}

abbrev pub measurements : Measurements
measurements = record {
  mrenclave = 65 ∷ [];
  basename = 66 ∷ [];
  ias_public_key = 9 ∷ [];
  sgx_debug_flag = false;
}

abbrev pub an_enclave : RegisterEnclave
an_enclave = record {
  info = record {
    verifying_key = 1 ∷ [];
    encryption_key = 10 ∷ [];
    proof_data = 11 ∷ [];
    enclave_persistent_id = 6 ∷ [];
    registration_block_context = 5 ∷ [];
    organizational_info = [];
    ehs_verifying_key = 2 ∷ [];
  };
  signature = 2 ∷ [];
}

abbrev pub a_contract : RegisterContract
a_contract = record {
  contract_code_hash = 12 ∷ [];
  contract_creator_verifying_key = 4 ∷ [];
  nonce = 13 ∷ [];
  signature = 4 ∷ [];
  contract_id = 3 ∷ [];
  provisioning_service_ids = [];
}

abbrev pub an_addition : AddEnclave
an_addition = record { contract_id = 3 ∷ []; enclave_info = []; signature = 4 ∷ [] }

abbrev pub an_initialization : InitializeState
an_initialization = record {
  nonce = 14 ∷ [];
  contract_id = 3 ∷ [];
  initial_state_hash = 7 ∷ [];
  message_hash = [];
  metadata_hash = [];
  contract_enclave_id = 1 ∷ [];
  contract_enclave_signature = 1 ∷ [];
  creator_signature = 4 ∷ [];
}

abbrev pub an_update : UpdateState
an_update = record {
  nonce = 15 ∷ [];
  state_update_info = [];
  contract_enclave_id = 1 ∷ [];
  contract_enclave_signature = 1 ∷ [];
}

-- The state after a request, or the empty one.
abbrev pub after : Request → Ledger service → Ledger service
after q l = elim (handle service q l) [
  | success l' ↦ l'
  | error e ↦ new_ledger
  | fault x ↦ new_ledger
]

abbrev pub with_policy : Ledger service
with_policy = commit (
    after (gen_key 16)
      (after (set_measurements measurements) (commit (after (set_flag true) new_ledger))))

abbrev pub with_enclave : Ledger service
with_enclave = after (enclave_registration an_enclave) with_policy

abbrev pub with_contract : Ledger service
with_contract = after (contract_registration a_contract) with_enclave

abbrev pub with_member : Ledger service
with_member = after (enclave_addition an_addition) with_contract

abbrev pub with_state : Ledger service
with_state = after (initialization an_initialization) with_member

abbrev pub with_update : Ledger service
with_update = after (update an_update) (commit with_state)
