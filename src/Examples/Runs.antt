-- ===== src/Examples/Runs.antt =====
-- The ledger: a policy, an enclave, a contract, its first state and an update of it.
use private_data_objects.Prelude.{
  ◌≡◌, ◌≢◌, refl, ◌↔◌, true, [], ◌∷◌, Option, none, some, ByteArray, bytes_eq, replicate,
}
use private_data_objects.Ledger.Reply.{
  success, error, fault, no_value, no_measurements, contract_inactive, not_latest_state,
}
use private_data_objects.Ledger.Tables.{
  Ledger, lookup, insert, get, put, get_globally_committed, new_ledger, commit,
}
use private_data_objects.Ledger.Signatures.{
  concat_ids, concat_secrets, concat_dependencies, verify_sig_static, verify_sig, verify_rsa_sig,
  verify_ias_signature, verify_pdo_transaction_signature_register_enclave,
  verify_pdo_transaction_signature_register_contract, verify_pdo_transaction_signature_add_enclave,
  verify_enclave_signature_add_enclave, verify_creator_signature_initialize_contract_state,
  verify_enclave_signature_initialize_contract_state,
  verify_enclave_signature_update_contract_state,
}
use private_data_objects.Ledger.Attestation.{
  to_upper, to_lower, resize, is_accepted_status, user_data_hash, verify_quote, verify_attestation,
  check_attestation, set_contract_enclave_attestation_check_flag,
  set_contract_enclave_expected_sgx_measurements,
}
use private_data_objects.Ledger.Signing.{
  gen_signing_key, load_signer, get_ledger_key, ensure_signer, sign_document,
}
use private_data_objects.Ledger.Enclaves.{register_enclave}
use private_data_objects.Ledger.Enclaves.Registered.{
  IsRegistered, register_enclave_success, register_enclave_no_measurements,
}
use private_data_objects.Ledger.Contracts.{
  is_enclave_in, register_contract, add_one, add_all, add_enclave,
}
use private_data_objects.Ledger.Contracts.Members.{AreAdded, add_enclave_success}
use private_data_objects.Ledger.Updates.{
  to_string, vector_to_string, enclave_verifier, initialize_contract_state, are_met,
  update_contract_state,
}
use private_data_objects.Ledger.Updates.Accepted.{
  IsInitialized, IsUpdated, initialize_contract_state_success, update_contract_state_iff,
}
use private_data_objects.Ledger.Updates.Keys.{get_details-swapped}
use private_data_objects.Ledger.Queries.{
  verify_enclave, get_contract_info, get_current_state_info_for_contract, get_details_about_state,
  StateAnswer, EnclaveAnswer,
}
use private_data_objects.Ledger.Steps.{
  Reach, here, next, handled, committed, restart, handle, set_flag, set_measurements, gen_key,
  enclave_registration, contract_registration, enclave_addition, initialization,
}
use private_data_objects.Ledger.Steps.Kept.{IsConsistent, IsKept, Reach-IsConsistent, Reach-IsKept}
use private_data_objects.Ledger.Steps.Node.{contract_inactive_unreachable, restart-accepts_none}
use private_data_objects.Ledger.Steps.Answers.{
  IsEnclaveAnswer, IsStateAnswer, verify_enclave_success, get_current_state_info_success,
}
use private_data_objects.Examples.Service.{
  service, measurements, an_enclave, a_contract, an_addition, an_initialization, an_update, after,
  with_policy, with_enclave, with_contract, with_member, with_state, with_update,
}

program : Unit {0}
unfolding bytes_eq replicate lookup insert get put get_globally_committed concat_ids concat_secrets
    concat_dependencies verify_sig_static verify_sig verify_rsa_sig verify_ias_signature
    verify_pdo_transaction_signature_register_enclave
    verify_pdo_transaction_signature_register_contract verify_pdo_transaction_signature_add_enclave
    verify_enclave_signature_add_enclave verify_creator_signature_initialize_contract_state
    verify_enclave_signature_initialize_contract_state
    verify_enclave_signature_update_contract_state to_upper to_lower resize is_accepted_status
    user_data_hash verify_quote verify_attestation check_attestation
    set_contract_enclave_attestation_check_flag set_contract_enclave_expected_sgx_measurements
    gen_signing_key load_signer get_ledger_key ensure_signer sign_document register_enclave
    is_enclave_in register_contract add_one add_all add_enclave to_string vector_to_string
    enclave_verifier initialize_contract_state are_met update_contract_state verify_enclave
    get_contract_info get_current_state_info_for_contract get_details_about_state handle
program = tt

-- The whole run is accepted, and the contract has its second state.
current_state : Option ByteArray
current_state = elim (get with_update.contracts (3 ∷ [])) [
  | none ↦ none
  | some info ↦ some info.current_state_hash
]

run_accepted : current_state ≡ some (8 ∷ [])
unfolding program current_state
run_accepted = refl

-- An update on a state that is not the latest is refused, as is one on an unknown state.
stale_refused : update_contract_state service an_update with_update ≡ error not_latest_state
unfolding program
stale_refused = refl

to_policy : Reach service (new_ledger {h = service}) with_policy
unfolding program
to_policy =
    next
      (next
        (next (next (next here (handled (set_flag true) refl)) (committed refl))
          (handled (set_measurements measurements) refl))
        (handled (gen_key 16) refl))
      (committed refl)

to_state : Reach service with_policy (commit with_state)
unfolding program
to_state =
    next
      (next
        (next
          (next (next here (handled (enclave_registration an_enclave) refl))
            (handled (contract_registration a_contract) refl))
          (handled (enclave_addition an_addition) refl))
        (handled (initialization an_initialization) refl))
      (committed refl)

to_committed : Reach service (new_ledger {h = service}) (commit with_state)
unfolding program
to_committed =
    next
      (next
        (next
          (next (next to_policy (handled (enclave_registration an_enclave) refl))
            (handled (contract_registration a_contract) refl))
          (handled (enclave_addition an_addition) refl))
        (handled (initialization an_initialization) refl))
      (committed refl)

update_contract_state_iff_example :
    (update_contract_state service an_update (commit with_state) ≡ success (true, with_update))
    ↔ IsUpdated service an_update (commit with_state) with_update
update_contract_state_iff_example =
    update_contract_state_iff service an_update (commit with_state) with_update

update_accepted : IsUpdated service an_update (commit with_state) with_update
unfolding program
update_accepted = update_contract_state_iff_example.0 refl

initialize_contract_state_success_example :
    IsInitialized service an_initialization with_member with_state
unfolding program
initialize_contract_state_success_example =
    initialize_contract_state_success service an_initialization with_member (true, with_state) refl

register_enclave_success_example : IsRegistered service an_enclave with_policy with_enclave
unfolding program
register_enclave_success_example =
    register_enclave_success service an_enclave with_policy (true, with_enclave) refl

add_enclave_success_example : AreAdded service an_addition with_contract with_member
unfolding program
add_enclave_success_example =
    add_enclave_success service an_addition with_contract (true, with_member) refl

abbrev without_measurements : Ledger service
without_measurements = commit (after (set_flag true) new_ledger)

register_enclave_no_measurements_example :
    (register_enclave service an_enclave without_measurements ≡ fault no_value)
    × (register_enclave service an_enclave without_measurements ≢ error no_measurements)
unfolding program
register_enclave_no_measurements_example =
    register_enclave_no_measurements service an_enclave an_enclave without_measurements refl refl
      refl

Reach-IsConsistent_example : IsConsistent (commit with_state)
Reach-IsConsistent_example = Reach-IsConsistent (commit with_state) to_committed

Reach-IsKept_example : IsKept with_policy (commit with_state)
Reach-IsKept_example = Reach-IsKept with_policy (commit with_state) to_policy to_state

contract_inactive_unreachable_example :
    (initialize_contract_state service an_initialization (commit with_state)
      ≢ error contract_inactive)
    × (update_contract_state service an_update (commit with_state) ≢ error contract_inactive)
contract_inactive_unreachable_example =
    contract_inactive_unreachable (commit with_state) an_initialization an_update to_committed

restart-accepts_none_example :
    (initialize_contract_state service an_initialization (restart service with_state)
      ≢ success (true, with_state))
    × (update_contract_state service an_update (restart service with_state)
        ≢ success (true, with_state))
    × (add_enclave service an_addition (restart service with_state) ≢ success (true, with_state))
restart-accepts_none_example =
    restart-accepts_none with_state an_initialization an_update an_addition (true, with_state)

get_details-swapped_example :
    get_details_about_state service (3 ∷ []) (7 ∷ 1 ∷ 11 ∷ 9 ∷ []) with_state
    ≡ get_details_about_state service (3 ∷ []) (7 ∷ 11 ∷ 1 ∷ 9 ∷ []) with_state
get_details-swapped_example = get_details-swapped service (3 ∷ []) (7 ∷ []) (9 ∷ []) with_state

abbrev enclave_answer : EnclaveAnswer
enclave_answer = record {
  verifying_key = 1 ∷ [];
  encryption_key = 10 ∷ [];
  proof_data = 11 ∷ [];
  last_registration_block_context = 5 ∷ [];
  owner_id = 2 ∷ [];
  signature = 16 ∷ 1 ∷ 10 ∷ 11 ∷ 5 ∷ 2 ∷ [];
}

verify_enclave_success_example : IsEnclaveAnswer (1 ∷ []) (commit with_state) enclave_answer
unfolding program
verify_enclave_success_example =
    verify_enclave_success (1 ∷ []) (commit with_state)
      (enclave_answer, record (commit with_state) { ledger_signer_local = some (16 ∷ []) })
      to_committed refl

abbrev state_answer : StateAnswer
state_answer = record { state_hash = 7 ∷ []; is_active = true; signature = 16 ∷ 3 ∷ 7 ∷ [] }

get_current_state_info_success_example : IsStateAnswer (3 ∷ []) (commit with_state) state_answer
unfolding program
get_current_state_info_success_example =
    get_current_state_info_success (3 ∷ []) (commit with_state)
      (state_answer, record (commit with_state) { ledger_signer_local = some (16 ∷ []) })
      to_committed refl
