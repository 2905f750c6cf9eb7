-- ===== src/Enclave/Entry/Initial.antt =====
-- The answer to a request for a contract's first state, and what it signs.
use private_data_objects.Prelude.{
  ◌≡◌, ◌⊎◌, inl, inr, ℕ, false, true, none, some, append_assoc, ByteArray, arith,
}
use private_data_objects.CString.{codes}
use private_data_objects.Outcome.{
  Error, ok, value_error, standard_exception, undefined, ◌>>=◌, >>=-eq-ok, Outcome-cases,
}
use private_data_objects.Platform.{Platform}
use private_data_objects.Crypto.Keys.{Keys}
use private_data_objects.State.KeyValue.{BasicKv}
use private_data_objects.Ledger.Signatures.{initialize_contents}
use private_data_objects.Enclave.Host.{
  Invocation, answer, exception_message, internal_pdo_error, internal_error, ResponseDocument,
  EnclaveHost,
}
use private_data_objects.Enclave.Data.{
  EnclaveData, unseal_enclave_data, enclave_decrypt_message, sign_message,
}
use private_data_objects.Enclave.Code.{save_to_state}
use private_data_objects.Enclave.ContractState.{ContractState, finalize_state, create_state}
use private_data_objects.Enclave.Request.{ContractRequest, parse_initialize_request}
use private_data_objects.Enclave.Response.{
  InitializeStateResponse, Response, failed, initialized, new_response, serialize_base_for_signing,
  serialize_for_signing, compute_signature, initialized_document, response_document,
  serialize_and_encrypt,
}
use private_data_objects.Enclave.Process.{
  Interpreter, interpreter_code, interpreter_message, handle_initialize_exception,
  process_initialize,
}
use private_data_objects.Enclave.Entry.{Session, initialize_contract_state_request}

module _ (p : Platform) (kv : BasicKv p) (k : Keys) (e : EnclaveHost) (i : Interpreter kv) where
  -- What a request for a first state that is answered went through.
  pub record IsInitialAnswer (sealed_signup encrypted_key serialized : ByteArray)
      (draw₁ draw₂ draw₃ : ℕ) (o o' : Session p kv k e i) : Type 0 where
    pub d : EnclaveData k
    pub session_key : ByteArray
    pub request : ContractRequest
    pub c : ContractState p kv
    pub s : kv.Handle
    pub c' : ContractState p kv
    pub response : Response
    pub unsealed : unseal_enclave_data k e sealed_signup ≡ ok d
    pub decrypted : enclave_decrypt_message k d encrypted_key ≡ ok session_key
    pub parsed : parse_initialize_request p k e session_key serialized ≡ ok request
    pub created :
        create_state p kv k request.state_encryption_key request.contract_id_hash draw₁ draw₂
          o.world
        ≡ ok c
    pub saved : save_to_state p kv request.contract_code c.state ≡ ok s
    pub processed : process_initialize p kv e i request (record c { state = s }) ≡ (ok response, c')
    pub answered :
        serialize_and_encrypt k e p session_key d response draw₃ (kv.world c'.state)
        ≡ ok (o'.last_result, o'.world)

  pub initial_answer_lem :
      (sealed_signup encrypted_key serialized : ByteArray) (draw₁ draw₂ draw₃ : ℕ)
      (o o' : Session p kv k e i)
      → initialize_contract_state_request p kv k e i sealed_signup encrypted_key serialized draw₁
          draw₂ draw₃ o
        ≡ ok o'
      → IsInitialAnswer sealed_signup encrypted_key serialized draw₁ draw₂ draw₃ o o'
  unfolding initialize_contract_state_request
  initial_answer_lem sealed_signup encrypted_key serialized draw₁ draw₂ draw₃ o o' h =
      let (d, e₁, h₁) = >>=-eq-ok (unseal_enclave_data k e sealed_signup) _ h in
      let (session_key, e₂, h₂) = >>=-eq-ok (enclave_decrypt_message k d encrypted_key) _ h₁ in
      let (r, e₃, h₃) = >>=-eq-ok (parse_initialize_request p k e session_key serialized) _ h₂ in
      let (c, e₄, h₄) =
        >>=-eq-ok
          (create_state p kv k r.state_encryption_key r.contract_id_hash draw₁ draw₂ o.world) _
          h₃ in
      let (s, e₅, h₅) = >>=-eq-ok (save_to_state p kv r.contract_code c.state) _ h₄ in
      let run = process_initialize p kv e i r (record c { state = s }) in
      let (response, e₆, h₆) = >>=-eq-ok run.0 _ h₅ in
      let ((result, w), e₇, h₇) =
        >>=-eq-ok (serialize_and_encrypt k e p session_key d response draw₃ (kv.world run.1.state))
          _ h₆ in
      record {
        d = d;
        session_key = session_key;
        request = r;
        c = c;
        s = s;
        c' = run.1;
        response = response;
        unsealed = e₁;
        decrypted = e₂;
        parsed = e₃;
        created = e₄;
        saved = e₅;
        processed = ground (arith, e₆);
        answered = ground (arith, e₇, h₇);
      }

  -- The document carries a signature of the enclave over the contents that the ledger checks.
  pub record IsSignedInitial (d : EnclaveData k) (r : ContractRequest) (c : ContractState p kv)
      (draw : ℕ) (document : ResponseDocument) : Type 0 where
    pub signature : ByteArray
    pub state_hash : ByteArray
    pub s : kv.Handle
    pub finalized : (kv.finalize s).0 ≡ ok state_hash
    pub signed :
        sign_message k d
          (initialize_contents r.contract_message.channel_verifying_key r.contract_id state_hash
            r.contract_code.code_hash r.contract_message.message_hash c.metadata_hash r.creator_id)
          draw
        ≡ ok signature
    pub has_signature : document.signature ≡ some (e.base64_encode signature)
    pub has_state : document.state_hash ≡ some (e.base64_encode state_hash)
    pub has_metadata : document.metadata_hash ≡ some (e.base64_encode c.metadata_hash)

  abbrev IsInitialFailed : ContractRequest → Response → Type 0
  IsInitialFailed r response =
      (reason : Invocation) × (response ≡ failed (new_response r false reason))

  handle_initialize_exception_lem :
      (r : ContractRequest) (x : Error) (c c' : ContractState p kv) (response : Response)
      → handle_initialize_exception p kv e i r x c ≡ (ok response, c')
      → IsInitialFailed r response
  unfolding handle_initialize_exception
  handle_initialize_exception_lem r undefined c c' response h = absurd (ground (arith, h))
  handle_initialize_exception_lem r value_error c c' response h =
      (exception_message, ground (arith, h))
  handle_initialize_exception_lem r standard_exception c c' response h =
      (internal_error, ground (arith, h))
  handle_initialize_exception_lem r _ c c' response h = (internal_pdo_error, ground (arith, h))

  abbrev first_response : ContractRequest → ContractState p kv → ByteArray → InitializeStateResponse
  first_response r c id = record {
    base = new_response r true (answer (codes "true"));
    output_block_id = id;
    contract_metadata_hash = c.metadata_hash;
  }

  process_initialize_lem :
      (r : ContractRequest) (c c' : ContractState p kv) (response : Response)
      → process_initialize p kv e i r c ≡ (ok response, c')
      → IsInitialFailed r response
        ⊎ ((s : kv.Handle) × (id : ByteArray) × ((kv.finalize s).0 ≡ ok id)
            × (response ≡ initialized (first_response r c id)))
  unfolding process_initialize finalize_state
  process_initialize_lem r c c' response h =
      let run =
        i.create_initial_contract_state r.contract_id r.creator_id (interpreter_code p kv e i r)
          (interpreter_message p kv e i r) c.state in
      elim (Outcome-cases run.0) [
        | inr (x, f) ↦ inl (
            handle_initialize_exception_lem r x (record c { state = run.1 }) c' response
              (ground (arith, f, h)))
        | inl (u, f) ↦ elim (Outcome-cases (kv.finalize run.1).0) [
          | inr (x, g) ↦ inl (
              handle_initialize_exception_lem r x (record c { state = (kv.finalize run.1).1 }) c'
                response (ground (arith, f, g, h)))
          | inl (id, g) ↦ inr (run.1, id, g, ground (arith, f, g, h))
        ]
      ]

  -- The bytes that the enclave signs are those that the ledger checks.
  serialize_for_signing-initialize_contents :
      (q : InitializeStateResponse)
      → serialize_for_signing (initialized q)
        ≡ initialize_contents q.base.channel_verifying_key q.base.contract_id q.output_block_id
            q.base.contract_code_hash q.base.contract_message_hash q.contract_metadata_hash
            q.base.creator_id
  unfolding serialize_for_signing serialize_base_for_signing
  serialize_for_signing-initialize_contents q = simp append_assoc

  pub initial_signed_lem :
      {sealed_signup encrypted_key serialized : ByteArray} {draw₁ draw₂ draw₃ : ℕ}
      {o o' : Session p kv k e i}
      (a : IsInitialAnswer sealed_signup encrypted_key serialized draw₁ draw₂ draw₃ o o')
      (document : ResponseDocument)
      → response_document k e a.d a.response draw₃ ≡ ok document
      → (document.signature ≡ none) ⊎ IsSignedInitial a.d a.request a.c draw₃ document
  unfolding response_document compute_signature new_response
  initial_signed_lem {draw₃ = draw} a document h =
      elim (process_initialize_lem a.request (record a.c { state = a.s }) a.c' a.response
        a.processed) [
          | inl (reason, f) ↦ inl (ground (arith, f, h))
          | inr (s, id, g, f) ↦
              let q = first_response a.request (record a.c { state = a.s }) id in
              let run : (compute_signature k e a.d (initialized q) draw >>= λ signature.
              ok (initialized_document k e q signature))
                  ≡ ok document =
                ground (arith, f, h) in
              let (signature, signed, rest) =
                >>=-eq-ok (compute_signature k e a.d (initialized q) draw) _ run in
              inr (record {
                signature = signature;
                state_hash = id;
                s = s;
                finalized = g;
                signed = rw (serialize_for_signing-initialize_contents q) at signed;
                has_signature = ground (arith, rest);
                has_state = ground (arith, rest);
                has_metadata = ground (arith, rest);
              })
        ]
