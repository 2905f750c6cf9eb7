-- ===== src/Enclave/Entry.antt =====
-- contract_enclave.cpp: the calls into the enclave that run requests. The enclave keeps the last result
-- until the host asks for it.
pub mod Answered
pub mod Checked
pub mod Signed
pub mod Released
pub mod Initial
use private_data_objects.Prelude.{ℕ, ◌++◌, ◌-◌, ByteArray, length, ltb}
use private_data_objects.Outcome.{Outcome, ok, value_error, throw_if, ◌>>=◌, ◌>>◌}
use private_data_objects.Platform.{Platform}
use private_data_objects.Crypto.Keys.{Keys}
use private_data_objects.State.KeyValue.{BasicKv}
use private_data_objects.Enclave.Host.{EnclaveHost}
use private_data_objects.Enclave.Data.{unseal_enclave_data, enclave_decrypt_message}
use private_data_objects.Enclave.Secrets.{into_buffer}
use private_data_objects.Enclave.Code.{fetch_from_state, save_to_state}
use private_data_objects.Enclave.ContractState.{ContractState, open_state, create_state}
use private_data_objects.Enclave.Request.{parse_update_request, parse_initialize_request}
use private_data_objects.Enclave.Response.{serialize_and_encrypt}
use private_data_objects.Enclave.Process.{Interpreter, process_update, process_initialize}

module _ (p : Platform) (kv : BasicKv p) (k : Keys) (e : EnclaveHost) (i : Interpreter kv) where
  -- `last_result`, and everything outside the enclave.
  pub record Session : Type 0 where
    pub last_result : ByteArray
    pub world : p.World

  -- `ecall_HandleContractRequest`: the session key and the request are encrypted. The draw is that of
  -- the signature.
  unfoldable pub handle_contract_request :
      ByteArray → ByteArray → ByteArray → ℕ → Session → Outcome Session
  unfolding enclave_decrypt_message fetch_from_state open_state process_update
  handle_contract_request sealed_signup encrypted_session_key serialized_request draw o = do
    d ← unseal_enclave_data k e sealed_signup
    session_key ← enclave_decrypt_message k d encrypted_session_key
    request ← parse_update_request p k e session_key serialized_request
    c ←
        open_state p kv request.common.state_encryption_key request.input_state_hash
          request.common.contract_id_hash o.world
    (code, s) ← fetch_from_state p kv request.code_hash c.state
    let request' = record request { common = record request.common { contract_code = code } }
    let (answered, c') = process_update p kv e i request' (record c { state = s })
    response ← answered
    (result, w) ← serialize_and_encrypt k e p session_key d response draw (kv.world c'.state)
    ok (record { last_result = result; world = w })

  -- `ecall_InitializeContractState`: the draws are those of the contract's keys and of the signature.
  unfoldable pub initialize_contract_state_request :
      ByteArray → ByteArray → ByteArray → ℕ → ℕ → ℕ → Session → Outcome Session
  unfolding enclave_decrypt_message save_to_state create_state process_initialize
  initialize_contract_state_request sealed_signup encrypted_session_key serialized_request draw₁
        draw₂ draw₃ o =
      do
        d ← unseal_enclave_data k e sealed_signup
        session_key ← enclave_decrypt_message k d encrypted_session_key
        request ← parse_initialize_request p k e session_key serialized_request
        c ←
            create_state p kv k request.state_encryption_key request.contract_id_hash draw₁ draw₂
              o.world
        s ← save_to_state p kv request.contract_code c.state
        let (answered, c') = process_initialize p kv e i request (record c { state = s })
        response ← answered
        (result, w) ← serialize_and_encrypt k e p session_key d response draw₃ (kv.world c'.state)
        ok (record { last_result = result; world = w })

  -- `ecall_GetSerializedResponse`
  unfoldable get_serialized_response : ByteArray → ℕ → Session → Outcome ByteArray
  get_serialized_response sealed_signup size o = do
    throw_if (ltb size (length o.last_result)) value_error
    _ ← unseal_enclave_data k e sealed_signup
    ok o.last_result
