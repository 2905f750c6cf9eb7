-- ===== src/Enclave/Data.antt =====
-- enclave_data.cpp of both enclaves: the keys of an enclave, which leave it sealed.
use private_data_objects.Prelude.{ℕ, ◌*◌, Bool, not, ByteArray, ◌==◌, length, [], if◌then◌else◌}
use private_data_objects.CString.{Text, string_at}
use private_data_objects.Outcome.{Outcome, ok, runtime_error, value_error, throw_if, ◌>>=◌, ◌>>◌}
use private_data_objects.Crypto.Keys.{Keys}
use private_data_objects.State.StateNode.{or_throw}
use private_data_objects.Enclave.Host.{EnclaveHost}

module _ (k : Keys) where
  -- `EnclaveData`
  pub record EnclaveData : Type 0 where
    pub public_signing_key : k.SigPublic
    pub private_signing_key : k.SigPrivate
    pub public_encryption_key : k.EncPublic
    pub private_encryption_key : k.EncPrivate
    pub serialized_private_data : Text
    pub serialized_public_data : Text

  module _ (e : EnclaveHost) where
    unfoldable pub serialize_private_data : EnclaveData → Outcome EnclaveData
    serialize_private_data d = do
      sk ← k.write_sig_private d.private_signing_key
      throw_if (length sk == 0) runtime_error
      pk ← k.write_sig_public d.public_signing_key
      throw_if (length pk == 0) runtime_error
      dk ← k.write_enc_private d.private_encryption_key
      throw_if (length dk == 0) runtime_error
      ek ← k.write_enc_public d.public_encryption_key
      throw_if (length ek == 0) runtime_error
      t ← e.dump_private sk pk dk ek
      ok (record d { serialized_private_data = t })

    unfoldable pub serialize_public_data : EnclaveData → Outcome EnclaveData
    serialize_public_data d = do
      pk ← k.write_sig_public d.public_signing_key
      throw_if (length pk == 0) runtime_error
      ek ← k.write_enc_public d.public_encryption_key
      throw_if (length ek == 0) runtime_error
      t ← e.dump_public pk ek
      ok (record d { serialized_public_data = t })

    -- `EnclaveData(void)`: the draws are those of the two key generations.
    unfoldable new_enclave_data : ℕ → ℕ → Outcome EnclaveData
    unfolding serialize_private_data serialize_public_data
    new_enclave_data draw₁ draw₂ = do
      sk ← k.make_sig draw₁
      pk ← k.sig_public_of sk
      dk ← k.make_enc draw₂
      ek ← k.enc_public_of dk
      d ← serialize_private_data (record {
        public_signing_key = pk;
        private_signing_key = sk;
        public_encryption_key = ek;
        private_encryption_key = dk;
        serialized_private_data = [];
        serialized_public_data = [];
      })
      serialize_public_data d

    unfoldable pub deserialize_sealed_data : Text → Outcome EnclaveData
    deserialize_sealed_data text = do
      document ← or_throw (e.parse_keystore text) value_error
      pk_text ← or_throw document.signing_public_key value_error
      pk ← k.read_sig_public pk_text
      sk_text ← or_throw document.signing_private_key value_error
      sk ← k.read_sig_private sk_text
      ek_text ← or_throw document.encryption_public_key value_error
      ek ← k.read_enc_public ek_text
      dk_text ← or_throw document.encryption_private_key value_error
      dk ← k.read_enc_private dk_text
      ok (record {
        public_signing_key = pk;
        private_signing_key = sk;
        public_encryption_key = ek;
        private_encryption_key = dk;
        serialized_private_data = [];
        serialized_public_data = [];
      })

    -- `EnclaveData(inSealedData)`. Unsealing without a place for the additional data fails if there are
    -- any.
    unfoldable pub unseal_enclave_data : ByteArray → Outcome EnclaveData
    unfolding deserialize_sealed_data serialize_private_data serialize_public_data
    unseal_enclave_data blob = do
      (aad, bytes) ← e.unseal blob
      throw_if (not (length aad == 0)) runtime_error
      text ← string_at bytes
      d ← deserialize_sealed_data text
      d' ← serialize_private_data d
      serialize_public_data d'

  unfoldable pub enclave_encrypt_message : EnclaveData → ByteArray → ℕ → Outcome ByteArray
  enclave_encrypt_message d message draw = k.encrypt d.public_encryption_key message draw

  unfoldable pub enclave_decrypt_message : EnclaveData → ByteArray → Outcome ByteArray
  enclave_decrypt_message d cipher = k.decrypt d.private_encryption_key cipher

  unfoldable pub sign_message : EnclaveData → ByteArray → ℕ → Outcome ByteArray
  sign_message d message draw = k.sign d.private_signing_key message draw

  unfoldable pub verify_signature : EnclaveData → ByteArray → ByteArray → Bool
  verify_signature d message signature = k.verify d.public_signing_key message signature

  -- `max_sig_size(true)`, the size in hexadecimal digits, and `max_sig_size(false)`.
  unfoldable pub max_sig_size : EnclaveData → Bool → ℕ
  max_sig_size d encoded =
      if encoded
      then k.max_sig_size d.private_signing_key * 2
      else k.max_sig_size d.private_signing_key

  unfoldable pub get_enclave_id : EnclaveData → Outcome Text
  get_enclave_id d = k.write_sig_public d.public_signing_key
