-- ===== src/Enclave/Entry/Released.antt =====
-- What leaves the enclave as the answer to an update.
use private_data_objects.Prelude.{
  ◌≡◌, refl, ◌∙◌, ◌⊎◌, inl, inr, ℕ, true, List, map, none, some, ByteArray, arith, Bool-cases,
}
use private_data_objects.CString.{Text}
use private_data_objects.Outcome.{ok, ◌>>=◌, >>=-eq-ok, Outcome-cases}
use private_data_objects.Platform.{Platform, IsCryptoLawful}
use private_data_objects.Crypto.Keys.{Keys}
use private_data_objects.Crypto.Skenc.{decrypt_message, decrypt-encrypt}
use private_data_objects.State.KeyValue.{BasicKv}
use private_data_objects.Ledger.Records.{StateUpdateInfo}
use private_data_objects.Ledger.Signatures.{update_contents}
use private_data_objects.Enclave.Host.{answer, ResponseDocument, EnclaveHost}
use private_data_objects.Enclave.Data.{EnclaveData, sign_message}
use private_data_objects.Enclave.ContractState.{ContractState, finalize_state}
use private_data_objects.Enclave.Request.{UpdateStateRequest}
use private_data_objects.Enclave.Response.{
  UpdateStateResponse, Response, updated, new_response, compute_signature, response_document,
  serialize_and_encrypt, updated_document,
}
use private_data_objects.Enclave.Process.{Interpreter}
use private_data_objects.Enclave.Entry.{Session, handle_contract_request}
use private_data_objects.Enclave.Entry.Answered.{IsUpdateAnswer, with_code, answered-lem}
use private_data_objects.Enclave.Entry.Checked.{open_state_lem, fetch_from_state_lem}
use private_data_objects.Enclave.Entry.Signed.{
  dependency_of, update_info, serialize_for_signing-update_contents, IsProcessed, IsFailed,
  process_update_lem,
}

module _ (p : Platform) (kv : BasicKv p) (k : Keys) (e : EnclaveHost) (i : Interpreter kv) where
  -- The document carries a signature of the enclave over the contents that the ledger checks.
  pub record IsSignedUpdate (d : EnclaveData k) (r : UpdateStateRequest) (draw : ℕ)
      (document : ResponseDocument) : Type 0 where
    pub update : StateUpdateInfo
    pub signature : ByteArray
    pub pairs : List (Text × Text)
    pub contract : update.contract_id ≡ r.common.contract_id
    pub previous : update.previous_state_hash ≡ r.input_state_hash
    pub message : update.message_hash ≡ r.common.contract_message.message_hash
    pub dependencies : update.dependency_list ≡ map (dependency_of e) pairs
    pub s : kv.Handle
    pub finalized : (kv.finalize s).0 ≡ ok update.current_state_hash
    pub signed :
        sign_message k d
          (update_contents r.common.contract_message.channel_verifying_key r.code_hash update)
          draw
        ≡ ok signature
    pub succeeded : document.status ≡ true
    pub has_signature : document.signature ≡ some (e.base64_encode signature)
    pub has_state : document.state_hash ≡ some (e.base64_encode update.current_state_hash)
    pub has_dependencies : document.dependencies ≡ some pairs

  finalize_state_lem :
      (c c' : ContractState p kv)
      → finalize_state p kv c ≡ (ok tt, c')
      → ((kv.finalize c.state).0 ≡ ok c'.output_block_id) × (c'.input_block_id ≡ c.input_block_id)
  unfolding finalize_state
  finalize_state_lem c c' h = elim (Outcome-cases (kv.finalize c.state).0) [
    | inl (id, f) ↦ (ground (arith, f, h), ground (arith, f, h))
    | inr (x, f) ↦ absurd (ground (arith, f, h))
  ]

  document_lem :
      (d : EnclaveData k) (r : UpdateStateRequest) (c : ContractState p kv) (response : Response)
      (draw : ℕ) (document : ResponseDocument)
      → r.common.contract_code.code_hash ≡ r.code_hash
      → c.input_block_id ≡ r.input_state_hash
      → IsFailed p kv e i r.common response ⊎ IsProcessed p kv e i r c response
      → response_document k e d response draw ≡ ok document
      → (document.signature ≡ none) ⊎ IsSignedUpdate d r draw document
  unfolding response_document compute_signature new_response
  document_lem d r c response draw document hash input (inl (reason, f)) h =
      inl (ground (arith, f, h))
  document_lem d r c response draw document hash input (inr q) h = elim (Bool-cases q.changed) [
    | inr same ↦ inl (ground (arith, q.responded, same, h))
    | inl changed ↦
        let u : UpdateStateResponse = record {
          base = new_response r.common true (answer q.result);
          state_changed = true;
          dependencies = q.dependencies;
          input_block_id = q.c'.input_block_id;
          output_block_id = q.c'.output_block_id;
        } in
        let is_u : response ≡ updated u = ground (arith, q.responded, changed) in
        let run : (compute_signature k e d (updated u) draw >>= λ signature.
        ok (updated_document k e u signature))
            ≡ ok document =
          ground (arith, is_u, h) in
        let (signature, g, rest) = >>=-eq-ok (compute_signature k e d (updated u) draw) _ run in
        let (id, same_input) = finalize_state_lem (record c { state = q.s }) q.c' q.finalized in
        let contents = serialize_for_signing-update_contents e u in
        inr (record {
          update = update_info e u;
          signature = signature;
          pairs = q.dependencies;
          contract = refl;
          previous = same_input ∙ input;
          message = refl;
          dependencies = refl;
          s = q.s;
          finalized = id;
          signed = rw (← hash) (rw contents at g);
          succeeded = ground (arith, rest);
          has_signature = ground (arith, rest);
          has_state = ground (arith, rest);
          has_dependencies = ground (arith, rest);
        })
  ]

  -- The document of an answered request.
  pub signed_lem :
      {sealed_signup encrypted_key serialized : ByteArray} {draw : ℕ} {o o' : Session p kv k e i}
      (a : IsUpdateAnswer p kv k e i sealed_signup encrypted_key serialized draw o o')
      (document : ResponseDocument)
      → response_document k e a.d a.response draw ≡ ok document
      → (document.signature ≡ none) ⊎ IsSignedUpdate a.d a.request draw document
  signed_lem {draw = draw} {o = o} a document f =
      let r = a.request in
      let c =
        open_state_lem p kv r.common.state_encryption_key r.input_state_hash
          r.common.contract_id_hash o.world a.c a.opened in
      let code = fetch_from_state_lem p kv r.code_hash a.c.state a.s a.code a.fetched in
      let processed =
        process_update_lem p kv e i (with_code p kv k e i r a.code) (record a.c { state = a.s })
          a.c' a.response a.processed in
      elim (document_lem a.d (with_code p kv k e i r a.code) (record a.c { state = a.s }) a.response
        draw document code.has_hash c.input processed f) [
          | inl x ↦ inl x
          | inr y ↦ inr (record {
            update = y.update;
            signature = y.signature;
            pairs = y.pairs;
            contract = y.contract;
            previous = y.previous;
            message = y.message;
            dependencies = y.dependencies;
            s = y.s;
            finalized = y.finalized;
            signed = y.signed;
            succeeded = y.succeeded;
            has_signature = y.has_signature;
            has_state = y.has_state;
            has_dependencies = y.has_dependencies;
          })
        ]

  pub record IsReleased (sealed_signup encrypted_key serialized : ByteArray) (draw : ℕ)
      (o o' : Session p kv k e i) : Type 0 where
    pub answer : IsUpdateAnswer p kv k e i sealed_signup encrypted_key serialized draw o o'
    pub document : ResponseDocument
    pub plain : ByteArray
    pub dumped : e.dump_response document ≡ ok plain
    pub opens : decrypt_message p answer.session_key o'.last_result ≡ ok plain
    pub signature :
        (document.signature ≡ none) ⊎ IsSignedUpdate answer.d answer.request draw document

  -- With lawful libraries, the result of a request that is answered opens under the session key to a
  -- document. If this has a signature, it is one of the enclave over the contents that the ledger
  -- checks: the channel's key as the nonce, the contract and the code hash of the request, the hash of
  -- its message, the state hash of the request as the previous one, and the state hash and the
  -- dependencies that the document has too; this state hash is the identity that finalizing the store
  -- gave.
  pub handle_contract_request-IsReleased :
      IsCryptoLawful p
      → (sealed_signup encrypted_key serialized : ByteArray) (draw : ℕ) (o o' : Session p kv k e i)
      → handle_contract_request p kv k e i sealed_signup encrypted_key serialized draw o ≡ ok o'
      → IsReleased sealed_signup encrypted_key serialized draw o o'
  unfolding serialize_and_encrypt
  handle_contract_request-IsReleased crypto sealed_signup encrypted_key serialized draw o o' h =
      let a = answered-lem p kv k e i sealed_signup encrypted_key serialized draw o o' h in
      let (document, f, rest) =
        >>=-eq-ok (response_document k e a.d a.response draw) _ a.answered in
      let (plain, g, rest') = >>=-eq-ok (e.dump_response document) _ rest in
      record {
        answer = a;
        document = document;
        plain = plain;
        dumped = g;
        opens =
            decrypt-encrypt p crypto a.session_key plain o'.last_result (kv.world a.c'.state)
              o'.world rest';
        signature = signed_lem a document f;
      }
