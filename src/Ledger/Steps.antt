-- ===== src/Ledger/Steps.antt =====
-- The runs of a node of the ledger: transactions, in the order of their execution, the global commit
-- of what they wrote, the loss of what was not committed, and a restart of the node.
pub mod Effect
pub mod Handlers
pub mod Requests
pub mod Kept
pub mod Node
pub mod Answers
use private_data_objects.Prelude.{◌≡◌, ℕ, Bool, none, [], ByteArray}
use private_data_objects.Ledger.Records.{
  Text, Measurements, RegisterEnclave, RegisterContract, AddEnclave, InitializeState, UpdateState,
}
use private_data_objects.Ledger.Host.{Host}
use private_data_objects.Ledger.Reply.{Reply, success, ◌>>=◌}
use private_data_objects.Ledger.Tables.{Ledger, Table, Cell, commit}
use private_data_objects.Ledger.Attestation.{
  set_contract_enclave_attestation_check_flag, set_contract_enclave_expected_sgx_measurements,
}
use private_data_objects.Ledger.Signing.{gen_signing_key, get_ledger_key}
use private_data_objects.Ledger.Enclaves.{register_enclave}
use private_data_objects.Ledger.Contracts.{register_contract, add_enclave}
use private_data_objects.Ledger.Updates.{initialize_contract_state, update_contract_state}
use private_data_objects.Ledger.Queries.{
  verify_enclave, get_contract_provisioning_info, get_contract_info,
  get_current_state_info_for_contract, get_details_about_state,
}

-- The requests that `init_handlers` installs a handler for.
pub data Request : Type 0 where
  set_flag : Bool → Request
  set_measurements : Measurements → Request
  gen_key : ℕ → Request
  get_key : Request
  enclave_registration : RegisterEnclave → Request
  contract_registration : RegisterContract → Request
  enclave_addition : AddEnclave → Request
  initialization : InitializeState → Request
  update : UpdateState → Request
  enclave_query : Text → Request
  provisioning_query contract_query state_query : Text → Request
  details_query : Text → ByteArray → Request

-- The writes of one answered request, without the answer.
abbrev pub new_state {ℓ} : {h : Host} {A : Type ℓ} → Reply (A × Ledger h) → Reply (Ledger h)
new_state r = r >>= λ (_, l). success l

module _ (h : Host) where
  unfoldable pub handle : Request → Ledger h → Reply (Ledger h)
  handle (set_flag b) l = new_state (set_contract_enclave_attestation_check_flag h b l)
  handle (set_measurements m) l = new_state (set_contract_enclave_expected_sgx_measurements h m l)
  handle (gen_key n) l = new_state (gen_signing_key h n l)
  handle get_key l = new_state (get_ledger_key h l)
  handle (enclave_registration x) l = new_state (register_enclave h x l)
  handle (contract_registration x) l = new_state (register_contract h x l)
  handle (enclave_addition x) l = new_state (add_enclave h x l)
  handle (initialization x) l = new_state (initialize_contract_state h x l)
  handle (update x) l = new_state (update_contract_state h x l)
  handle (enclave_query id) l = new_state (verify_enclave h id l)
  handle (provisioning_query id) l = new_state (get_contract_provisioning_info h id l)
  handle (contract_query id) l = new_state (get_contract_info h id l)
  handle (state_query id) l = new_state (get_current_state_info_for_contract h id l)
  handle (details_query id s) l = new_state (get_details_about_state h id s l)

  abbrev rollback_table {ℓ} : {V : Type ℓ} → Table V → Table V
  rollback_table t = record t { current = t.committed }

  abbrev rollback_cell {ℓ} : {V : Type ℓ} → Cell V → Cell V
  rollback_cell c = record c { current = c.committed }

  -- What was not committed is lost in an election of a new primary. The members of the node stay.
  abbrev pub rollback : Ledger h → Ledger h
  rollback l = record l {
    measurements = rollback_cell l.measurements;
    check_attestation = rollback_cell l.check_attestation;
    enclaves = rollback_table l.enclaves;
    contracts = rollback_table l.contracts;
    ccl = rollback_table l.ccl;
    signer = rollback_cell l.signer;
  }

  -- The constructor of `TPHandlerRegistry` leaves the members of the node empty, and the tables are
  -- those of the service.
  abbrev pub restart : Ledger h → Ledger h
  restart l = record l { enclave_pubk_verifier = []; ledger_signer_local = none }

  pub data Step (l : Ledger h) (l' : Ledger h) : Type 0 where
    handled : (r : Request) → handle r l ≡ success l' → Step l l'
    committed : l' ≡ commit l → Step l l'
    rolled_back : l' ≡ rollback l → Step l l'
    restarted : l' ≡ restart l → Step l l'

  pub data Reach (l : Ledger h) : Ledger h → Type 0 where
    here : Reach l l
    next : {l' l'' : Ledger h} → Reach l l' → Step l' l'' → Reach l l''
