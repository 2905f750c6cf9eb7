-- ===== src/Enclave/Entry/Signed.antt =====
-- What the enclave signs for an update is what the ledger checks the signature over.
use private_data_objects.Prelude.{
  ◌≡◌, refl, ap, ◌⊎◌, inl, inr, Bool, false, List, [], ◌∷◌, ◌++◌, map, append_assoc, arith,
}
use private_data_objects.CString.{Text}
use private_data_objects.Outcome.{
  Error, ok, value_error, standard_exception, undefined, Outcome-cases,
}
use private_data_objects.Platform.{Platform}
use private_data_objects.State.KeyValue.{BasicKv}
use private_data_objects.Ledger.Records.{Dependency, StateUpdateInfo}
use private_data_objects.Ledger.Signatures.{concat_dependencies, update_contents}
use private_data_objects.Enclave.Host.{
  Invocation, exception_message, internal_pdo_error, internal_error, EnclaveHost,
}
use private_data_objects.Enclave.ContractState.{ContractState, finalize_state}
use private_data_objects.Enclave.Request.{ContractRequest, UpdateStateRequest}
use private_data_objects.Enclave.Response.{
  UpdateStateResponse, Response, failed, updated, new_response, serialize_base_for_signing,
  concat_pairs, serialize_for_signing,
}
use private_data_objects.Enclave.Process.{
  Interpreter, interpreter_code, interpreter_message, handle_update_exception, updated_response,
  process_update,
}

-- A dependency as the client hands it to the ledger.
abbrev pub dependency_of : EnclaveHost → Text × Text → Dependency
dependency_of e (id, hash) = record {
  contract_id = id;
  state_hash = e.base64_decode hash;
  state_hash_for_sign = hash;
}

concat_dependencies-map :
    (e : EnclaveHost) (pairs : List (Text × Text))
    → concat_pairs pairs ≡ concat_dependencies (map (dependency_of e) pairs)
unfolding concat_dependencies concat_pairs
concat_dependencies-map e [] = refl
concat_dependencies-map e ((id, hash) ∷ pairs) =
    ap (λ t. id ++ (hash ++ t)) (concat_dependencies-map e pairs)

-- The update that a response stands for.
abbrev pub update_info : EnclaveHost → UpdateStateResponse → StateUpdateInfo
update_info e r = record {
  contract_id = r.base.contract_id;
  current_state_hash = r.output_block_id;
  previous_state_hash = r.input_block_id;
  message_hash = r.base.contract_message_hash;
  dependency_list = map (dependency_of e) r.dependencies;
}

-- The nonce of the ledger is the channel's key of the enclave.
pub serialize_for_signing-update_contents :
    (e : EnclaveHost) (r : UpdateStateResponse)
    → serialize_for_signing (updated r)
      ≡ update_contents r.base.channel_verifying_key r.base.contract_code_hash (update_info e r)
unfolding serialize_for_signing serialize_base_for_signing
serialize_for_signing-update_contents e r =
    rw (← concat_dependencies-map e r.dependencies) (simp append_assoc)

module _ (p : Platform) (kv : BasicKv p) (e : EnclaveHost) (i : Interpreter kv) where
  -- The interpreter and the finalization threw nothing.
  pub record IsProcessed (r : UpdateStateRequest) (c : ContractState p kv) (response : Response)
      : Type 0 where
    pub changed : Bool
    pub dependencies : List (Text × Text)
    pub result : Text
    pub s : kv.Handle
    pub sent :
        i.send_message_to_contract r.common.contract_id r.common.creator_id
          (interpreter_code p kv e i r.common)
          (interpreter_message p kv e i r.common)
          c.input_block_id
          c.state
        ≡ (ok (changed, dependencies, result), s)
    pub c' : ContractState p kv
    pub finalized : finalize_state p kv (record c { state = s }) ≡ (ok tt, c')
    pub responded : response ≡ updated_response p kv e i r c' changed dependencies result

  -- Else the response is one of a failure.
  abbrev pub IsFailed : ContractRequest → Response → Type 0
  IsFailed r response = (reason : Invocation) × (response ≡ failed (new_response r false reason))

  handle_update_exception_lem :
      (r : ContractRequest) (x : Error) (c c' : ContractState p kv) (response : Response)
      → handle_update_exception p kv e i r x c ≡ (ok response, c')
      → IsFailed r response
  unfolding handle_update_exception
  handle_update_exception_lem r undefined c c' response h = absurd (ground (arith, h))
  handle_update_exception_lem r value_error c c' response h =
      elim (Outcome-cases (finalize_state p kv c).0) [
        | inl (u, f) ↦ (exception_message, ground (arith, f, h))
        | inr (x, f) ↦ absurd (ground (arith, f, h))
      ]
  handle_update_exception_lem r standard_exception c c' response h =
      (internal_error, ground (arith, h))
  handle_update_exception_lem r _ c c' response h = (internal_pdo_error, ground (arith, h))

  pub process_update_lem :
      (r : UpdateStateRequest) (c c' : ContractState p kv) (response : Response)
      → process_update p kv e i r c ≡ (ok response, c')
      → IsFailed r.common response ⊎ IsProcessed r c response
  unfolding process_update
  process_update_lem r c c' response h =
      let run =
        i.send_message_to_contract r.common.contract_id r.common.creator_id
          (interpreter_code p kv e i r.common) (interpreter_message p kv e i r.common)
          c.input_block_id c.state in
      let c₁ : ContractState p kv = record c { state = run.1 } in
      elim (Outcome-cases run.0) [
        | inr (x, f) ↦
            inl (handle_update_exception_lem r.common x c₁ c' response (ground (arith, f, h)))
        | inl ((changed, dependencies, result), f) ↦
            let done = finalize_state p kv c₁ in
            elim (Outcome-cases done.0) [
              | inr (x, g) ↦ inl (
                  handle_update_exception_lem r.common x done.1 c' response
                    (ground (arith, f, g, h)))
              | inl (u, g) ↦ inr (record {
                changed = changed;
                dependencies = dependencies;
                result = result;
                s = run.1;
                sent = ground (arith, f);
                c' = done.1;
                finalized = ground (arith, g);
                responded = ground (arith, f, g, h);
              })
            ]
      ]
