-- ===== src/Protocol/Addition.antt =====
-- What a contract enclave signs when it has verified the secrets is what the ledger checks when the
-- enclave is added to the contract.
use private_data_objects.Prelude.{
  ◌≡◌, refl, ◌∙◌, sym, ap, ℕ, true, List, [], ◌∷◌, ◌++◌, map, append_assoc, append-nil, ◌-◌, ◌==◌,
  Option, some, ByteArray, arith, length, ltb, replicate, length-replicate,
}
use private_data_objects.Prelude.Slices.{slice, slice-append_left}
use private_data_objects.CString.{Text}
use private_data_objects.Outcome.{ok, value_error, runtime_error, throw_if, >>=-eq-ok, ok_injective}
use private_data_objects.Crypto.Keys.{Keys}
use private_data_objects.Enclave.Host.{SecretDocument, EnclaveHost}
use private_data_objects.Enclave.Data.{
  EnclaveData, unseal_enclave_data, sign_message, get_enclave_id,
}
use private_data_objects.Enclave.Secrets.{
  secret_size, create_enclave_state_encryption_key, encrypt_state_encryption_key, VerifiedSecrets,
  into_buffer, verify_secrets,
}
use private_data_objects.Enclave.Secrets.Combined.{
  Contribution, contributions, IsCombined, length-combined, create_enclave_state_encryption_key_lem,
}
use private_data_objects.Ledger.Records.{ProvisioningSecret}
use private_data_objects.Ledger.Host.{Host}
use private_data_objects.Ledger.Reply.{success}
use private_data_objects.Ledger.Signatures.{concat_secrets, verify_enclave_signature_add_enclave}
use private_data_objects.Protocol.{IsVerifierOf}

-- An entry of the list as the client hands it to the ledger.
abbrev pub pair_of : Contribution → ProvisioningSecret
pair_of c = record { pspk = c.pspk; encrypted_secret = c.encrypted }

into_buffer_exact :
    (size : ℕ) (bytes : ByteArray) → size ≡ length bytes → into_buffer size bytes ≡ bytes
unfolding replicate
into_buffer_exact size bytes fits =
    let none_left : size - length bytes ≡ 0 = omega arith in rw none_left (append-nil bytes)

concat_secrets-map :
    (list : List Contribution) → contributions list ≡ concat_secrets (map pair_of list)
unfolding concat_secrets
concat_secrets-map [] = refl
concat_secrets-map (c ∷ list) = ap (λ t. c.pspk ++ (c.encrypted ++ t)) (concat_secrets-map list)

module _ (k : Keys) (e : EnclaveHost) where
  get_enclave_id_named :
      (d : EnclaveData k) (contract_id creator_id list : Text) (key message : ByteArray)
      → create_enclave_state_encryption_key k e d contract_id creator_id list ≡ ok (key, message)
      → (id : Text) × (get_enclave_id k d ≡ ok id)
  unfolding create_enclave_state_encryption_key
  get_enclave_id_named d contract_id creator_id list key message h =
      let (id, e₁, h₁) = >>=-eq-ok (get_enclave_id k d) _ h in (id, e₁)

  -- The key that was combined, sealed for the contract, and the signature over all of it.
  pub record IsVerified (d : EnclaveData k) (contract_id creator_id secret_list : Text)
      (key_size signature_size draw₁ draw₂ : ℕ) (out : VerifiedSecrets) : Type 0 where
    pub enclave_id : Text
    pub documents : List (Option SecretDocument)
    pub key : ByteArray
    pub message : ByteArray
    pub encrypted : ByteArray
    pub signature : ByteArray
    pub named : get_enclave_id k d ≡ ok enclave_id
    pub parsed : e.parse_secrets secret_list ≡ some documents
    pub secrets :
        IsCombined k e d enclave_id contract_id creator_id []
          (replicate secret_size 0)
          (contract_id ++ creator_id)
          documents
          key
          message
    pub sealed : encrypt_state_encryption_key k e contract_id key draw₁ ≡ ok encrypted
    pub signed :
        sign_message k d
          (contract_id ++ (creator_id ++ (concat_secrets (map pair_of secrets.list) ++ encrypted)))
          draw₂
        ≡ ok signature
    pub key_out : out.encrypted_contract_key ≡ into_buffer key_size encrypted
    pub signature_out : slice out.signature 0 out.signature_length ≡ signature

  sealed_size_fits :
      (contract_id : Text) (key encrypted : ByteArray) (size draw : ℕ)
      → length key ≡ secret_size
      → ((m blob : ByteArray)
          → length m ≡ secret_size
          → e.seal contract_id m draw ≡ ok blob
          → size ≡ length blob)
      → encrypt_state_encryption_key k e contract_id key draw ≡ ok encrypted
      → size ≡ length encrypted
  unfolding encrypt_state_encryption_key
  sealed_size_fits contract_id key encrypted size draw of_size fits h =
      let (_, e₁, h₁) =
        >>=-eq-ok
          (throw_if (e.sealed_size (length contract_id) (length key) == 0xFFFFFFFF) runtime_error) _
          h in
      fits key encrypted of_size h₁

  -- When the secrets are verified, the enclave returns the key of the contract's state, sealed for the
  -- contract, where the key is the exclusive or of the secrets in the list, and signs the contract, the
  -- creator, every service with its encrypted secret and the sealed key.
  pub verify_secrets_lem :
      (sealed_signup : ByteArray) (contract_id creator_id secret_list : Text)
      (key_size signature_size draw₁ draw₂ : ℕ) (d : EnclaveData k) (out : VerifiedSecrets)
      → unseal_enclave_data k e sealed_signup ≡ ok d
      → verify_secrets k e sealed_signup contract_id creator_id secret_list key_size signature_size
          draw₁ draw₂
        ≡ ok out
      → IsVerified d contract_id creator_id secret_list key_size signature_size draw₁ draw₂ out
  unfolding verify_secrets
  verify_secrets_lem sealed_signup contract_id creator_id secret_list key_size signature_size draw₁
        draw₂ d out unsealed h =
      let h₁ = rw unsealed at h in
      let ((key, message), e₂, h₂) =
        >>=-eq-ok (create_enclave_state_encryption_key k e d contract_id creator_id secret_list) _
          h₁ in
      let (encrypted, e₃, h₃) =
        >>=-eq-ok (encrypt_state_encryption_key k e contract_id key draw₁) _ h₂ in
      let (_, e₄, h₄) = >>=-eq-ok (throw_if (ltb key_size (length encrypted)) value_error) _ h₃ in
      let (signature, e₅, h₅) = >>=-eq-ok (sign_message k d (message ++ encrypted) draw₂) _ h₄ in
      let (_, e₆, h₆) =
        >>=-eq-ok (throw_if (ltb signature_size (length signature)) value_error) _ h₅ in
      let (enclave_id, named) =
        get_enclave_id_named d contract_id creator_id secret_list key message e₂ in
      let (documents, parsed, _, q) =
        create_enclave_state_encryption_key_lem k e d enclave_id contract_id creator_id secret_list
          key message named e₂ in
      let whole : message ++ encrypted
          ≡ contract_id ++ (creator_id ++ (concat_secrets (map pair_of q.list) ++ encrypted)) =
        ap (λ m. m ++ encrypted)
          (q.message_of ∙ ap (λ t. (contract_id ++ creator_id) ++ t) (concat_secrets-map q.list))
        ∙ simp append_assoc in
      record {
        enclave_id = enclave_id;
        documents = documents;
        key = key;
        message = message;
        encrypted = encrypted;
        signature = signature;
        named = named;
        parsed = parsed;
        secrets = q;
        sealed = e₃;
        signed = ap (λ m. sign_message k d m draw₂) (sym whole) ∙ e₅;
        key_out = ap (λ (o : VerifiedSecrets). o.encrypted_contract_key) (sym (ok_injective h₆));
        signature_out =
            ap (λ (o : VerifiedSecrets). slice o.signature 0 o.signature_length)
              (sym (ok_injective h₆))
            ∙ slice-append_left signature _ (length signature) refl;
      }

  module _ (h : Host) where
    -- What the enclave verified, and that the ledger accepts it.
    pub record IsAddable (d : EnclaveData k) (contract_id creator_id secret_list : Text)
        (key_size signature_size draw₁ draw₂ : ℕ) (out : VerifiedSecrets) (verifier : h.Verifier)
        (signature_text key_text : Text) : Type 0 where
      pub verified :
          IsVerified d contract_id creator_id secret_list key_size signature_size draw₁ draw₂ out
      pub accepted :
          verify_enclave_signature_add_enclave h signature_text verifier creator_id contract_id
            (map pair_of verified.secrets.list)
            key_text
          ≡ success true

    -- When an enclave has verified the secrets, each was signed by its service for this enclave, contract and
    -- creator, no two are of one service, and the sealed key is the exclusive or of the secrets. If the
    -- buffer has the size of every sealed key of sixteen bytes, a ledger with a verifier of the enclave's key accepts the signature
    -- for the addition of the enclave with the same creator, services, encrypted secrets and sealed key.
    pub add_enclave-verify_secrets :
        (sealed_signup : ByteArray) (contract_id creator_id secret_list : Text)
        (key_size signature_size draw₁ draw₂ : ℕ) (d : EnclaveData k) (out : VerifiedSecrets)
        (verifier : h.Verifier) (signature_text key_text : Text)
        → IsVerifierOf h k verifier d
        → ((m blob : ByteArray)
            → length m ≡ secret_size
            → e.seal contract_id m draw₁ ≡ ok blob
            → key_size ≡ length blob)
        → unseal_enclave_data k e sealed_signup ≡ ok d
        → verify_secrets k e sealed_signup contract_id creator_id secret_list key_size
            signature_size draw₁ draw₂
          ≡ ok out
        → h.raw_from_b64 signature_text ≡ some (slice out.signature 0 out.signature_length)
        → h.raw_from_b64 key_text ≡ some out.encrypted_contract_key
        → IsAddable d contract_id creator_id secret_list key_size signature_size draw₁ draw₂ out
            verifier signature_text key_text
    unfolding verify_enclave_signature_add_enclave
    add_enclave-verify_secrets sealed_signup contract_id creator_id secret_list key_size
          signature_size draw₁ draw₂ d out verifier signature_text key_text verifies fits unsealed
          run is_signature is_key =
        let q =
          verify_secrets_lem sealed_signup contract_id creator_id secret_list key_size
            signature_size draw₁ draw₂ d out unsealed run in
        let of_size : length q.key ≡ secret_size =
          ap length q.secrets.key_of
          ∙ length-combined (replicate secret_size 0) q.secrets.list
          ∙ length-replicate {A = ℕ} secret_size 0 in
        let exact =
          into_buffer_exact key_size q.encrypted
            (sealed_size_fits contract_id q.key q.encrypted key_size draw₁ of_size fits q.sealed) in
        let key : h.raw_from_b64 key_text ≡ some q.encrypted =
          is_key ∙ ap some (q.key_out ∙ exact) in
        let signature : h.raw_from_b64 signature_text ≡ some q.signature =
          is_signature ∙ ap some q.signature_out in
        record {
          verified = q;
          accepted = rw (key, signature) (ap success (verifies _ q.signature draw₂ q.signed));
        }
