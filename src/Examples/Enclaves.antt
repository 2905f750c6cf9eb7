-- ===== src/Examples/Enclaves.antt =====
-- Keys, a host and a store for the enclaves: a signature is one byte, encryption is the identity, sealing
-- puts the length of the additional data in front, and the store is the world itself.
use private_data_objects.Prelude.{
  refl, ℕ, ◌+◌, ◌-◌, true, [], ◌∷◌, ◌++◌, List, Option, none, some, ByteArray, arith, length,
  length-append, replicate, bytes_eq,
}
use private_data_objects.Prelude.Slices.{slice, slice-append_left, slice_rest}
use private_data_objects.CString.{Text}
use private_data_objects.Outcome.{Outcome, ok, err, value_error}
use private_data_objects.Crypto.Keys.{Keys, IsKeysLawful}
use private_data_objects.Ledger.Tables.{lookup, insert}
use private_data_objects.State.KeyValue.{BasicKv}
use private_data_objects.Enclave.Host.{MessageDocument, EnclaveHost, IsHostLawful}
use private_data_objects.Enclave.Data.{EnclaveData}
use private_data_objects.Enclave.Process.{Interpreter}
use private_data_objects.Examples.Libraries.{libraries}

abbrev pub keys : Keys
keys = record {
  SigPublic = Text;
  SigPrivate = Text;
  EncPublic = Text;
  EncPrivate = Text;
  read_sig_public = λ t. ok t;
  read_sig_private = λ t. ok t;
  read_enc_public = λ t. ok t;
  read_enc_private = λ t. ok t;
  write_sig_public = λ t. ok t;
  write_sig_private = λ t. ok t;
  write_enc_public = λ t. ok t;
  write_enc_private = λ t. ok t;
  make_sig = λ n. ok (n ∷ []);
  make_enc = λ n. ok (n ∷ []);
  sig_public_of = λ t. ok t;
  enc_public_of = λ t. ok t;
  sign = λ sk m draw. ok (1 ∷ []);
  verify = λ pk m s. bytes_eq (slice s 0 1) (1 ∷ []);
  max_sig_size = λ sk. 1;
  encrypt = λ pk m draw. ok m;
  decrypt = λ sk c. ok c;
}

pub keys-IsKeysLawful : IsKeysLawful keys
unfolding bytes_eq
keys-IsKeysLawful = record {
  verify-sign = λ sk pk m s pad draw pair signed.
      ground (arith, signed, slice-append_left {A = ℕ} (1 ∷ []) pad 1 refl);
  sign-AreBytes = λ sk m s draw signed. ground (arith, signed);
  decrypt-encrypt = λ sk pk m c draw pair encrypted. ground (arith, encrypted);
}

abbrev pub enclave : EnclaveData keys
enclave = record {
  public_signing_key = 1 ∷ [];
  private_signing_key = 1 ∷ [];
  public_encryption_key = 1 ∷ [];
  private_encryption_key = 1 ∷ [];
  serialized_private_data = [];
  serialized_public_data = [];
}

-- Two bytes of sealed data, without additional data.
abbrev pub signup : ByteArray
signup = 0 ∷ 0 ∷ []

abbrev pub contract_id : Text
contract_id = replicate 32 3

abbrev pub code_hash : ByteArray
code_hash = replicate 32 4

abbrev pub state_hash : ByteArray
state_hash = replicate 32 8

abbrev pub new_state_hash : ByteArray
new_state_hash = 8 ∷ []

abbrev pub secret : ByteArray
secret = replicate 16 7

-- Sealed for the contract.
abbrev pub sealed_key : ByteArray
sealed_key = 32 ∷ (contract_id ++ secret)

abbrev pub message_document : MessageDocument
message_document = record {
  invocation_request = some (5 ∷ []);
  originator_verifying_key = some (6 ∷ []);
  channel_verifying_key = some (2 ∷ []);
  nonce = some (1 ∷ []);
  signature = some (1 ∷ []);
}

abbrev unsealed : ByteArray → Outcome (ByteArray × ByteArray)
unsealed [] = err value_error
unsealed (n ∷ rest) = ok (slice rest 0 n, slice rest n (length rest - n))

abbrev pub host : EnclaveHost
host = record {
  base64_encode = λ m. m;
  base64_decode = λ t. t;
  parse_keystore = λ t. some (record {
    signing_public_key = some (1 ∷ []);
    signing_private_key = some (1 ∷ []);
    encryption_public_key = some (1 ∷ []);
    encryption_private_key = some (1 ∷ []);
  });
  parse_secrets =
      λ t. some (some (record { pspk = some (1 ∷ []); encrypted_secret = some t }) ∷ []);
  parse_request = λ t. some (record {
    contract_id = some contract_id;
    creator_id = some (6 ∷ []);
    encrypted_state_encryption_key = some sealed_key;
    contract_message = some message_document;
    contract_code = none;
    contract_code_hash = some code_hash;
    contract_state_hash = some state_hash;
  });
  dump_private = λ sk pk dk ek. ok [];
  dump_public = λ pk ek. ok [];
  dump_response = λ d. ok (1 ∷ []);
  sealed_size = λ aad m. 1 + aad + m;
  seal = λ aad m draw. ok (length aad ∷ (aad ++ m));
  sealed_length = λ blob. 16;
  unseal = unsealed;
}

pub host-IsHostLawful : IsHostLawful host
host-IsHostLawful = record {
  decode-encode = λ m. refl;
  unseal-seal = λ aad m blob draw sealed. ground (
    arith,
    sealed,
    slice-append_left aad m (length aad) refl,
    length-append aad m,
    slice_rest aad m (length aad) (length (aad ++ m) - length aad) refl
        (omega (arith, length-append aad m)),
  );
}

abbrev or_empty : Option ByteArray → ByteArray
or_empty none = []
or_empty (some v) = v

abbrev pub kv : BasicKv libraries
kv = record {
  Handle = List (ByteArray × ByteArray);
  world = λ s. s;
  create = λ key w. ok [];
  open_at = λ id key w. ok w;
  finalize = λ s. (ok new_state_hash, s);
  get = λ k s. ok (or_empty (lookup k s), s);
  put = λ k v s. ok (insert k v s);
  delete = λ k s. ok (insert k [] s);
}

-- An interpreter that writes one value and answers.
abbrev pub interpreter : Interpreter kv
interpreter = record {
  create_initial_contract_state = λ id creator c m s. (ok tt, insert (b'p' ∷ 1 ∷ []) (5 ∷ []) s);
  send_message_to_contract =
      λ id creator c m hash s. (ok (true, [], 1 ∷ []), insert (b'p' ∷ 1 ∷ []) (5 ∷ []) s);
}
