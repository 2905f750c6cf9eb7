-- ===== src/Enclave/Request/Parsed.antt =====
-- What a request that is accepted by its constructor has.
use private_data_objects.Prelude.{
  ◌≡◌, refl, not, ◌++◌, true, [], ByteArray, arith, bytes_eq, bytes_eq→eq, length, ◌==◌, Option,
}
use private_data_objects.CString.{Text}
use private_data_objects.Outcome.{ok, value_error, throw_if, throw_if_passed, >>=-eq-ok}
use private_data_objects.Platform.{Platform}
use private_data_objects.Crypto.Keys.{Keys}
use private_data_objects.State.StateNode.{or_throw}
use private_data_objects.Enclave.Host.{MessageDocument, RequestDocument, EnclaveHost}
use private_data_objects.Enclave.Secrets.{
  decrypt_state_encryption_key, decode_and_decrypt_state_encryption_key,
}
use private_data_objects.Enclave.Message.{
  ContractMessage, verify_message_signature, compute_message_hash, unpack_message,
}
use private_data_objects.Enclave.Code.{no_code}
use private_data_objects.Enclave.Request.{
  ContractRequest, UpdateStateRequest, parse_common_properties, open_request, parse_update_request,
}

module _ (p : Platform) (k : Keys) (e : EnclaveHost) where
  -- The originator signed the message, the channel and the nonce, and the hash is that of the message
  -- and the nonce.
  pub record IsAuthentic (m : ContractMessage) : Type 0 where
    pub originator : k.SigPublic
    pub signature : ByteArray
    pub read : k.read_sig_public m.originator_verifying_key ≡ ok originator
    pub signed :
        k.verify originator (m.expression ++ (m.channel_verifying_key ++ m.nonce)) signature ≡ true
    pub hashed : m.message_hash ≡ p.sha256 (m.expression ++ m.nonce)

  unpack_message_lem :
      (object : Option MessageDocument) (m : ContractMessage)
      → unpack_message p k e object ≡ ok m
      → IsAuthentic m
  unfolding unpack_message verify_message_signature compute_message_hash
  unpack_message_lem object m h =
      let (document, e₁, h₁) = >>=-eq-ok (or_throw object value_error) _ h in
      let (expression, e₂, h₂) =
        >>=-eq-ok (or_throw document.invocation_request value_error) _ h₁ in
      let (originator, e₃, h₃) =
        >>=-eq-ok (or_throw document.originator_verifying_key value_error) _ h₂ in
      let (channel, e₄, h₄) =
        >>=-eq-ok (or_throw document.channel_verifying_key value_error) _ h₃ in
      let (nonce, e₅, h₅) = >>=-eq-ok (or_throw document.nonce value_error) _ h₄ in
      let (signature, e₆, h₆) = >>=-eq-ok (or_throw document.signature value_error) _ h₅ in
      let m₀ : ContractMessage = record {
        expression = expression;
        originator_verifying_key = originator;
        channel_verifying_key = channel;
        nonce = nonce;
        message_hash = [];
      } in
      let (verified, e₇, h₇) =
        >>=-eq-ok (verify_message_signature p k e m₀ (e.base64_decode signature)) _ h₆ in
      let (key, e₈, h₈) = >>=-eq-ok (k.read_sig_public originator) _ e₇ in
      let (u, e₉, h₉) = >>=-eq-ok (throw_if (not verified) value_error) _ h₇ in
      let passed = throw_if_passed (not verified) value_error e₉ in
      let whole : m ≡ record m₀ { message_hash = p.sha256 (expression ++ nonce) } =
        ground (arith, h₉) in
      rw whole (record {
        originator = key;
        signature = e.base64_decode signature;
        read = e₈;
        signed = ground (arith, passed, h₈);
        hashed = refl;
      })

  -- The id of the contract is the one that the key of the state is sealed for.
  pub record IsParsed (r : ContractRequest) : Type 0 where
    pub sealed_key : Text
    pub id_hash : r.contract_id_hash ≡ e.base64_decode r.contract_id
    pub id_size : length r.contract_id_hash ≡ 32
    pub unsealed :
        e.unseal (e.base64_decode sealed_key) ≡ ok (r.contract_id, r.state_encryption_key)
    pub authentic : IsAuthentic r.contract_message

  pub parse_common_properties_lem :
      (document : RequestDocument) (r : ContractRequest)
      → parse_common_properties p k e document ≡ ok r
      → IsParsed r
  unfolding parse_common_properties decode_and_decrypt_state_encryption_key
      decrypt_state_encryption_key
  parse_common_properties_lem document r h =
      let (contract_id, e₁, h₁) = >>=-eq-ok (or_throw document.contract_id value_error) _ h in
      let id_hash = e.base64_decode contract_id in
      let (u, e₂, h₂) = >>=-eq-ok (throw_if (not (length id_hash == 32)) value_error) _ h₁ in
      let (creator, e₃, h₃) = >>=-eq-ok (or_throw document.creator_id value_error) _ h₂ in
      let (text, e₄, h₄) =
        >>=-eq-ok (or_throw document.encrypted_state_encryption_key value_error) _ h₃ in
      let (key, e₅, h₅) =
        >>=-eq-ok (decrypt_state_encryption_key k e contract_id (e.base64_decode text)) _ h₄ in
      let (m, e₆, h₆) = >>=-eq-ok (unpack_message p k e document.contract_message) _ h₅ in
      let ((aad, key'), e₇, h₇) = >>=-eq-ok (e.unseal (e.base64_decode text)) _ e₅ in
      let (v, e₈, h₈) = >>=-eq-ok (throw_if (not (bytes_eq contract_id aad)) value_error) _ h₇ in
      let size = throw_if_passed (not (length id_hash == 32)) value_error e₂ in
      let same = throw_if_passed (not (bytes_eq contract_id aad)) value_error e₈ in
      let aad_id = bytes_eq→eq contract_id aad (ground (arith, same)) in
      let whole : r ≡ record {
        contract_id = contract_id;
        creator_id = creator;
        state_encryption_key = key;
        contract_id_hash = id_hash;
        contract_code = no_code;
        contract_message = m;
      } =
        ground (arith, h₆) in
      let sealed : e.unseal (e.base64_decode text) ≡ ok (contract_id, key) =
        ground (arith, e₇, aad_id, h₈) in
      let authentic = unpack_message_lem document.contract_message m e₆ in
      rw whole (record {
        sealed_key = text;
        id_hash = refl;
        id_size = ground (arith, size);
        unsealed = sealed;
        authentic = authentic;
      })

  pub parse_update_request_lem :
      (session_key serialized : ByteArray) (r : UpdateStateRequest)
      → parse_update_request p k e session_key serialized ≡ ok r
      → IsParsed r.common
  unfolding parse_update_request
  parse_update_request_lem session_key serialized r h =
      let (document, e₁, h₁) = >>=-eq-ok (open_request p k e session_key serialized) _ h in
      let (common, e₂, h₂) = >>=-eq-ok (parse_common_properties p k e document) _ h₁ in
      let (code, e₃, h₃) = >>=-eq-ok (or_throw document.contract_code_hash value_error) _ h₂ in
      let (u, e₄, h₄) =
        >>=-eq-ok (throw_if (not (length (e.base64_decode code) == 32)) value_error) _ h₃ in
      let (state, e₅, h₅) = >>=-eq-ok (or_throw document.contract_state_hash value_error) _ h₄ in
      let (v, e₆, h₆) =
        >>=-eq-ok (throw_if (not (length (e.base64_decode state) == 32)) value_error) _ h₅ in
      let same : r.common ≡ common = ground (arith, h₆) in
      rw same (parse_common_properties_lem document common e₂)
