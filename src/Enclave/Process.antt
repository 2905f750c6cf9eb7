-- ===== src/Enclave/Process.antt =====
-- `process_request` of contract_request.cpp: the run of the interpreter, and the handlers of its
-- exceptions.
use private_data_objects.Prelude.{Bool, true, false, List, [], ByteArray, if◌then◌else◌}
use private_data_objects.CString.{Text, codes}
use private_data_objects.Outcome.{
  Error, value_error, standard_exception, undefined, Outcome, ok, err,
}
use private_data_objects.Platform.{Platform}
use private_data_objects.State.KeyValue.{BasicKv}
use private_data_objects.Enclave.Host.{
  answer, exception_message, internal_pdo_error, internal_error, EnclaveHost,
}
use private_data_objects.Enclave.ContractState.{ContractState, finalize_state}
use private_data_objects.Enclave.Request.{ContractRequest, UpdateStateRequest}
use private_data_objects.Enclave.Response.{new_response, Response, failed, initialized, updated}

-- `pdo::contracts::ContractCode` and `ContractMessage`, the hashes in Base64.
pub record InterpreterCode : Type 0 where
  pub code : Text
  pub name : Text
  pub code_hash : Text

pub record InterpreterMessage : Type 0 where
  pub message : Text
  pub originator_id : Text
  pub message_hash : Text

-- `ContractInterpreter`: what an exception leaves of the store is given back too.
pub record Interpreter {p : Platform} (kv : BasicKv p) : Type 0 where
  pub create_initial_contract_state :
      Text
      → Text
      → InterpreterCode
      → InterpreterMessage
      → kv.Handle
      → Outcome (Unit {0}) × kv.Handle
  -- Whether the state changed, the dependencies and the result.
  pub send_message_to_contract :
      Text
      → Text
      → InterpreterCode
      → InterpreterMessage
      → ByteArray
      → kv.Handle
      → Outcome (Bool × List (Text × Text) × Text) × kv.Handle

module _ (p : Platform) (kv : BasicKv p) (e : EnclaveHost) (i : Interpreter kv) where
  unfoldable pub interpreter_code : ContractRequest → InterpreterCode
  interpreter_code r = record {
    code = r.contract_code.code;
    name = r.contract_code.name;
    code_hash = e.base64_encode r.contract_code.code_hash;
  }

  unfoldable pub interpreter_message : ContractRequest → InterpreterMessage
  interpreter_message r = record {
    message = r.contract_message.expression;
    originator_id = r.contract_message.originator_verifying_key;
    message_hash = e.base64_encode r.contract_message.message_hash;
  }

  -- The handlers of `UpdateStateRequest::process_request`: a value error finalizes the state, and an
  -- exception of that leaves the handler.
  unfoldable pub handle_update_exception :
      ContractRequest → Error → ContractState p kv → Outcome Response × ContractState p kv
  unfolding finalize_state new_response
  handle_update_exception r undefined c = (err undefined, c)
  handle_update_exception r value_error c =
      let (done, c') = finalize_state p kv c in
      elim done [
        | ok _ ↦ (ok (failed (new_response r false exception_message)), c')
        | err x ↦ (err x, c')
      ]
  handle_update_exception r standard_exception c =
      (ok (failed (new_response r false internal_error)), c)
  handle_update_exception r _ c = (ok (failed (new_response r false internal_pdo_error)), c)

  -- The response of an update that threw nothing.
  abbrev pub updated_response :
      UpdateStateRequest → ContractState p kv → Bool → List (Text × Text) → Text → Response
  updated_response r c changed dependencies result = updated (record {
    base = new_response r.common true (answer result);
    state_changed = changed;
    dependencies = if changed then dependencies else [];
    input_block_id = c.input_block_id;
    output_block_id = if changed then c.output_block_id else c.input_block_id;
  })

  -- `UpdateStateRequest::process_request`
  unfoldable pub process_update :
      UpdateStateRequest → ContractState p kv → Outcome Response × ContractState p kv
  unfolding interpreter_code interpreter_message handle_update_exception finalize_state new_response
  process_update r c =
      let (sent, s) =
        i.send_message_to_contract r.common.contract_id r.common.creator_id
          (interpreter_code r.common) (interpreter_message r.common) c.input_block_id c.state in
      let c₁ = record c { state = s } in
      elim sent [
        | err x ↦ handle_update_exception r.common x c₁
        | ok (changed, dependencies, result) ↦
            let (done, c₂) = finalize_state p kv c₁ in
            elim done [
              | ok _ ↦ (ok (updated_response r c₂ changed dependencies result), c₂)
              | err x ↦ handle_update_exception r.common x c₂
            ]
      ]

  -- The handlers of `InitializeStateRequest::process_request`, which finalize nothing.
  unfoldable pub handle_initialize_exception :
      ContractRequest → Error → ContractState p kv → Outcome Response × ContractState p kv
  unfolding new_response
  handle_initialize_exception r undefined c = (err undefined, c)
  handle_initialize_exception r value_error c =
      (ok (failed (new_response r false exception_message)), c)
  handle_initialize_exception r standard_exception c =
      (ok (failed (new_response r false internal_error)), c)
  handle_initialize_exception r _ c = (ok (failed (new_response r false internal_pdo_error)), c)

  -- `InitializeStateRequest::process_request`
  unfoldable pub process_initialize :
      ContractRequest → ContractState p kv → Outcome Response × ContractState p kv
  unfolding interpreter_code interpreter_message handle_initialize_exception finalize_state
      new_response
  process_initialize r c =
      let (created, s) =
        i.create_initial_contract_state r.contract_id r.creator_id (interpreter_code r)
          (interpreter_message r) c.state in
      let c₁ = record c { state = s } in
      elim created [
        | err x ↦ handle_initialize_exception r x c₁
        | ok _ ↦
            let (done, c₂) = finalize_state p kv c₁ in
            elim done [
              | ok _ ↦ (
                ok (
                    initialized (record {
                      base = new_response r true (answer (codes "true"));
                      output_block_id = c₂.output_block_id;
                      contract_metadata_hash = c₂.metadata_hash;
                    })),
                c₂,
              )
              | err x ↦ handle_initialize_exception r x c₂
            ]
      ]
