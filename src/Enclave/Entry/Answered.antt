-- ===== src/Enclave/Entry/Answered.antt =====
-- What a request that is answered went through.
use private_data_objects.Prelude.{◌≡◌, ℕ, ByteArray, arith}
use private_data_objects.Outcome.{ok, >>=-eq-ok}
use private_data_objects.Platform.{Platform}
use private_data_objects.Crypto.Keys.{Keys}
use private_data_objects.State.KeyValue.{BasicKv}
use private_data_objects.Enclave.Host.{EnclaveHost}
use private_data_objects.Enclave.Data.{EnclaveData, unseal_enclave_data, enclave_decrypt_message}
use private_data_objects.Enclave.Code.{ContractCode, fetch_from_state}
use private_data_objects.Enclave.ContractState.{ContractState, open_state}
use private_data_objects.Enclave.Request.{UpdateStateRequest, parse_update_request}
use private_data_objects.Enclave.Response.{Response, serialize_and_encrypt}
use private_data_objects.Enclave.Process.{Interpreter, process_update}
use private_data_objects.Enclave.Entry.{Session, handle_contract_request}

module _ (p : Platform) (kv : BasicKv p) (k : Keys) (e : EnclaveHost) (i : Interpreter kv) where
  -- The request with the code that was found in the state.
  abbrev pub with_code : UpdateStateRequest → ContractCode → UpdateStateRequest
  with_code r code = record r { common = record r.common { contract_code = code } }

  pub record IsUpdateAnswer (sealed_signup encrypted_key serialized : ByteArray) (draw : ℕ)
      (o o' : Session p kv k e i) : Type 0 where
    pub d : EnclaveData k
    pub session_key : ByteArray
    pub request : UpdateStateRequest
    pub c : ContractState p kv
    pub code : ContractCode
    pub s : kv.Handle
    pub c' : ContractState p kv
    pub response : Response
    pub unsealed : unseal_enclave_data k e sealed_signup ≡ ok d
    pub decrypted : enclave_decrypt_message k d encrypted_key ≡ ok session_key
    pub parsed : parse_update_request p k e session_key serialized ≡ ok request
    pub opened :
        open_state p kv request.common.state_encryption_key request.input_state_hash
          request.common.contract_id_hash o.world
        ≡ ok c
    pub fetched : fetch_from_state p kv request.code_hash c.state ≡ ok (code, s)
    pub processed :
        process_update p kv e i (with_code request code) (record c { state = s })
        ≡ (ok response, c')
    pub answered :
        serialize_and_encrypt k e p session_key d response draw (kv.world c'.state)
        ≡ ok (o'.last_result, o'.world)

  pub answered-lem :
      (sealed_signup encrypted_key serialized : ByteArray) (draw : ℕ) (o o' : Session p kv k e i)
      → handle_contract_request p kv k e i sealed_signup encrypted_key serialized draw o ≡ ok o'
      → IsUpdateAnswer sealed_signup encrypted_key serialized draw o o'
  unfolding handle_contract_request
  answered-lem sealed_signup encrypted_key serialized draw o o' h =
      let (d, e₁, h₁) = >>=-eq-ok (unseal_enclave_data k e sealed_signup) _ h in
      let (session_key, e₂, h₂) = >>=-eq-ok (enclave_decrypt_message k d encrypted_key) _ h₁ in
      let (r, e₃, h₃) = >>=-eq-ok (parse_update_request p k e session_key serialized) _ h₂ in
      let (c, e₄, h₄) =
        >>=-eq-ok
          (open_state p kv r.common.state_encryption_key r.input_state_hash
            r.common.contract_id_hash o.world)
          _ h₃ in
      let ((code, s), e₅, h₅) = >>=-eq-ok (fetch_from_state p kv r.code_hash c.state) _ h₄ in
      let run = process_update p kv e i (with_code r code) (record c { state = s }) in
      let (response, e₆, h₆) = >>=-eq-ok run.0 _ h₅ in
      let ((result, w), e₇, h₇) =
        >>=-eq-ok (serialize_and_encrypt k e p session_key d response draw (kv.world run.1.state)) _
          h₆ in
      record {
        d = d;
        session_key = session_key;
        request = r;
        c = c;
        code = code;
        s = s;
        c' = run.1;
        response = response;
        unsealed = e₁;
        decrypted = e₂;
        parsed = e₃;
        opened = e₄;
        fetched = e₅;
        processed = ground (arith, e₆);
        answered = ground (arith, e₇, h₇);
      }
