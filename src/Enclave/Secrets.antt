-- ===== src/Enclave/Secrets.antt =====
-- contract_secrets.cpp: the key that the state of a contract is encrypted with, from the secrets of the
-- provisioning services, and `ecall_VerifySecrets` of contract_enclave.cpp.
pub mod Combined
use Prim.Native.Nat.{bit_xor}
use private_data_objects.Prelude.{
  ℕ, ◌+◌, ◌-◌, ◌*◌, Bool, true, false, not, List, [], ◌∷◌, ◌++◌, Option, ByteArray, bytes_eq, ◌==◌,
  ltb, if◌then◌else◌, length, replicate,
}
use private_data_objects.Prelude.Slices.{slice}
use private_data_objects.CString.{Text}
use private_data_objects.Outcome.{Outcome, ok, runtime_error, value_error, throw_if, ◌>>=◌, ◌>>◌}
use private_data_objects.Crypto.Keys.{Keys}
use private_data_objects.HexString.{hex_string_to_binary}
use private_data_objects.State.StateNode.{or_throw}
use private_data_objects.Enclave.Host.{SecretDocument, EnclaveHost}
use private_data_objects.Enclave.Data.{
  EnclaveData, unseal_enclave_data, enclave_decrypt_message, sign_message, max_sig_size,
  get_enclave_id,
}

-- `SECRET_SIZE` and `ENCODED_SECRET_SIZE`
abbrev pub secret_size : ℕ
secret_size = 16

abbrev pub encoded_secret_size : ℕ
encoded_secret_size = 32

-- `accumulator[i] ^ secret[i]` for the bytes of the accumulator.
unfoldable pub xor_bytes : ByteArray → ByteArray → ByteArray
xor_bytes [] secret = []
xor_bytes (x ∷ accumulator) [] = x ∷ accumulator
xor_bytes (x ∷ accumulator) (y ∷ secret) = bit_xor x y ∷ xor_bytes accumulator secret

-- `pspk_list.find(pspk) != pspk_list.end()`
unfoldable pub is_in : Text → List Text → Bool
is_in pspk [] = false
is_in pspk (x ∷ pspk_list) =
    let later = is_in pspk pspk_list in if bytes_eq pspk x then true else later

-- What a provisioning service signs.
abbrev pub secret_contents : Text → Text → Text → Text → ByteArray
secret_contents encoded_secret enclave_id contract_id creator_id =
    encoded_secret ++ (enclave_id ++ (contract_id ++ creator_id))

-- `Zero(out, size); memcpy_s(out, size, bytes)` of at most `size` bytes.
abbrev pub into_buffer : ℕ → ByteArray → ByteArray
into_buffer size bytes = bytes ++ replicate (size - length bytes) 0

-- The buffers that `ecall_VerifySecrets` fills, and the length of the signature.
pub record VerifiedSecrets : Type 0 where
  pub encrypted_contract_key : ByteArray
  pub signature : ByteArray
  pub signature_length : ℕ

module _ (k : Keys) (e : EnclaveHost) where
  unfoldable pub verify_secret_signature :
      Text → Text → Text → Text → Text → ByteArray → Outcome (Unit {0})
  verify_secret_signature enclave_id contract_id creator_id pspk encoded_secret signature = do
    key ← k.read_sig_public pspk
    throw_if
        (not (
          k.verify key (secret_contents encoded_secret enclave_id contract_id creator_id)
            signature))
        value_error

  -- The part of the loop that opens one encrypted secret.
  unfoldable pub open_secret : EnclaveData k → Text → Text → Text → Text → Text → Outcome ByteArray
  unfolding verify_secret_signature enclave_decrypt_message max_sig_size
  open_secret d enclave_id contract_id creator_id pspk encrypted_ps_secret = do
    decrypted ← enclave_decrypt_message k d (e.base64_decode encrypted_ps_secret)
    throw_if (ltb (length decrypted) (encoded_secret_size + max_sig_size k d true)) value_error
    let encoded_secret = slice decrypted 0 encoded_secret_size
    secret ← hex_string_to_binary encoded_secret
    signature ←
        hex_string_to_binary
          (slice decrypted encoded_secret_size (length decrypted - encoded_secret_size))
    verify_secret_signature enclave_id contract_id creator_id pspk encoded_secret signature
    ok secret

  -- The loop: the accumulator and the message that is signed later.
  unfoldable pub secrets_loop :
      EnclaveData k
      → Text
      → Text
      → Text
      → List (Option SecretDocument)
      → List Text
      → ByteArray
      → ByteArray
      → Outcome (ByteArray × ByteArray)
  unfolding open_secret is_in
  secrets_loop d enclave_id contract_id creator_id [] pspk_list accumulator message =
      ok (accumulator, message)
  secrets_loop d enclave_id contract_id creator_id (element ∷ rest) pspk_list accumulator message =
      do
        document ← or_throw element value_error
        pspk ← or_throw document.pspk value_error
        throw_if (is_in pspk pspk_list) value_error
        encrypted ← or_throw document.encrypted_secret value_error
        secret ← open_secret d enclave_id contract_id creator_id pspk encrypted
        secrets_loop d enclave_id contract_id creator_id rest (pspk ∷ pspk_list)
            (xor_bytes accumulator secret) (message ++ (pspk ++ encrypted))

  -- `CreateEnclaveStateEncryptionKey`
  unfoldable pub create_enclave_state_encryption_key :
      EnclaveData k → Text → Text → Text → Outcome (ByteArray × ByteArray)
  unfolding secrets_loop
  create_enclave_state_encryption_key d contract_id creator_id serialized_secret_list = do
    enclave_id ← get_enclave_id k d
    secrets ← or_throw (e.parse_secrets serialized_secret_list) value_error
    throw_if (ltb (length secrets) 1) value_error
    secrets_loop d enclave_id contract_id creator_id secrets [] (replicate secret_size 0)
        (contract_id ++ creator_id)

  unfoldable pub encrypt_state_encryption_key : Text → ByteArray → ℕ → Outcome ByteArray
  encrypt_state_encryption_key contract_id key draw = do
    throw_if (e.sealed_size (length contract_id) (length key) == 0xFFFFFFFF) runtime_error
    e.seal contract_id key draw

  -- `EncryptAndEncodeStateEncryptionKey`
  unfoldable encrypt_and_encode_state_encryption_key : Text → ByteArray → ℕ → Outcome Text
  unfolding encrypt_state_encryption_key
  encrypt_and_encode_state_encryption_key contract_id key draw = do
    encrypted ← encrypt_state_encryption_key contract_id key draw
    ok (e.base64_encode encrypted)

  unfoldable pub decrypt_state_encryption_key : Text → ByteArray → Outcome ByteArray
  decrypt_state_encryption_key contract_id encrypted = do
    (aad, key) ← e.unseal encrypted
    throw_if (not (bytes_eq contract_id aad)) value_error
    ok key

  -- `DecodeAndDecryptStateEncryptionKey`
  unfoldable pub decode_and_decrypt_state_encryption_key : Text → Text → Outcome ByteArray
  unfolding decrypt_state_encryption_key
  decode_and_decrypt_state_encryption_key contract_id encoded =
      decrypt_state_encryption_key contract_id (e.base64_decode encoded)

  -- `ecall_VerifySecrets`: the numbers are the sizes of the two buffers and the draws.
  unfoldable pub verify_secrets :
      ByteArray → Text → Text → Text → ℕ → ℕ → ℕ → ℕ → Outcome VerifiedSecrets
  unfolding create_enclave_state_encryption_key encrypt_state_encryption_key sign_message
  verify_secrets sealed_signup contract_id creator_id secret_list key_size signature_size draw₁
        draw₂ =
      do
        d ← unseal_enclave_data k e sealed_signup
        (key, message) ← create_enclave_state_encryption_key d contract_id creator_id secret_list
        encrypted ← encrypt_state_encryption_key contract_id key draw₁
        throw_if (ltb key_size (length encrypted)) value_error
        signature ← sign_message k d (message ++ encrypted) draw₂
        throw_if (ltb signature_size (length signature)) value_error
        ok (record {
          encrypted_contract_key = into_buffer key_size encrypted;
          signature = into_buffer signature_size signature;
          signature_length = length signature;
        })
