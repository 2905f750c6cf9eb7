-- ===== src/Provisioning/Secret.antt =====
-- secret_enclave.cpp: the sealed secrets of a provisioning service, and the secret that it hands to a
-- contract enclave, signed for one contract and encrypted for the enclave.
pub mod Signed
pub mod Opened
use private_data_objects.Prelude.{
  ℕ, ◌+◌, ◌-◌, ◌*◌, Bool, true, false, not, [], ◌++◌, ByteArray, ◌==◌, ltb, if◌then◌else◌, length,
  replicate,
}
use private_data_objects.CString.{Text}
use private_data_objects.Outcome.{
  Outcome, ok, err, value_error, runtime_error, standard_exception, undefined, throw_if, ◌>>=◌,
  ◌>>◌,
}
use private_data_objects.Crypto.Keys.{Keys}
use private_data_objects.HexString.{binary_to_hex_string}
use private_data_objects.Enclave.Host.{EnclaveHost}
use private_data_objects.Enclave.Data.{EnclaveData, unseal_enclave_data, sign_message, max_sig_size}
use private_data_objects.Enclave.Secrets.{encoded_secret_size, secret_contents, into_buffer}
use private_data_objects.Provisioning.Info.{Attestation, verify_enclave_info}

module _ (k : Keys) (e : EnclaveHost) where
  -- `ecall_CreateSealedSecret`: the random bytes are those of the call. Sealing wants the exact size.
  unfoldable create_sealed_secret : ByteArray → ℕ → ℕ → Outcome ByteArray
  create_sealed_secret random size draw = do
    throw_if (ltb size (e.sealed_size 0 (length random))) value_error
    throw_if (not (size == e.sealed_size 0 (length random))) runtime_error
    e.seal [] random draw

  -- `ecall_UnsealSecret`, with a blob that lies inside the enclave: what the buffer holds afterwards. The
  -- call reports an exception by its result, and leaves the buffer as it is.
  unfoldable pub unseal_secret : ByteArray → ByteArray → ByteArray
  unseal_secret blob buffer =
      if ltb (length buffer) (e.sealed_length blob) then buffer else elim (e.unseal blob) [
        | err x ↦ buffer
        | ok (aad, plain) ↦ if length aad == 0 then plain else buffer
      ]

  -- The signature of the secret in hexadecimal, padded with zeros. Padding by a negative number of
  -- characters is an exception of the string.
  unfoldable pub sign_secret : EnclaveData k → Text → Text → Text → Text → ℕ → Outcome ByteArray
  unfolding sign_message max_sig_size
  sign_secret d secret enclave_id contract_id opk draw = do
    signature ← sign_message k d (secret_contents secret enclave_id contract_id opk) draw
    let digits = binary_to_hex_string signature
    throw_if (ltb (2 * max_sig_size k d false) (length digits)) standard_exception
    let secretsig = digits ++ replicate (2 * max_sig_size k d false - length digits) b'0'
    throw_if (ltb (length secretsig) (max_sig_size k d true)) value_error
    throw_if (ltb (max_sig_size k d true) (length secretsig)) value_error
    ok secretsig

  module _ (t : Attestation) where
    -- What is done with the secret, in hexadecimal.
    unfoldable pub sign_and_encrypt_secret :
        Text → ByteArray → Text → Text → Text → ℕ → ℕ → Outcome ByteArray
    unfolding sign_secret max_sig_size
    sign_and_encrypt_secret secret sealed_data contract_id opk enclave_info draw₁ draw₂ = do
      throw_if (ltb (length secret) encoded_secret_size) value_error
      throw_if (ltb encoded_secret_size (length secret)) value_error
      (enclave_id, encrypt_key) ← verify_enclave_info k e t enclave_info
      d ← unseal_enclave_data k e sealed_data
      secretsig ← sign_secret d secret enclave_id contract_id opk draw₁
      let enclave_message = secret ++ secretsig
      throw_if (ltb (length enclave_message) (encoded_secret_size + max_sig_size k d true))
          value_error
      enclave_key ← k.read_enc_public encrypt_key
      throw_if (ltb (length enclave_message) (length secret + length secretsig)) value_error
      k.encrypt enclave_key enclave_message draw₂

    -- `ecall_GenerateEnclaveSecret`: the encrypted secret. The result of unsealing is not looked at, and the
    -- buffer is zero at first. Into a buffer that is too short nothing is copied.
    unfoldable pub generate_enclave_secret :
        ByteArray → ByteArray → Text → Text → Text → ℕ → ℕ → ℕ → Outcome ByteArray
    unfolding unseal_secret sign_and_encrypt_secret
    generate_enclave_secret sealed_data sealed_secret contract_id opk enclave_info size draw₁
          draw₂ =
        do
          let buffer = replicate (e.sealed_length sealed_secret) 0
          let secret = binary_to_hex_string (unseal_secret sealed_secret buffer)
          esecret ←
              sign_and_encrypt_secret secret sealed_data contract_id opk enclave_info draw₁ draw₂
          ok (if ltb size (length esecret) then replicate size 0 else into_buffer size esecret)
