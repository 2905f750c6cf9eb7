-- ===== src/Enclave/Host.antt =====
-- What the enclaves call of the SGX SDK and of the JSON and Base64 libraries, as one parameter. The
-- members of a parsed object are none where they are absent or have another type.
use private_data_objects.Prelude.{ℕ, ◌≡◌, Bool, List, Option, ByteArray}
use private_data_objects.CString.{Text}
use private_data_objects.Outcome.{Outcome, ok}

-- The private data of an enclave.
pub record KeystoreDocument : Type 0 where
  pub signing_public_key : Option Text
  pub signing_private_key : Option Text
  pub encryption_public_key : Option Text
  pub encryption_private_key : Option Text

pub record SecretDocument : Type 0 where
  pub pspk : Option Text
  pub encrypted_secret : Option Text

pub record MessageDocument : Type 0 where
  pub invocation_request : Option Text
  pub originator_verifying_key : Option Text
  pub channel_verifying_key : Option Text
  pub nonce : Option Text
  pub signature : Option Text

pub record CodeDocument : Type 0 where
  pub code : Option Text
  pub name : Option Text
  pub nonce : Option Text

pub record RequestDocument : Type 0 where
  pub contract_id : Option Text
  pub creator_id : Option Text
  pub encrypted_state_encryption_key : Option Text
  pub contract_message : Option MessageDocument
  pub contract_code : Option CodeDocument
  pub contract_code_hash : Option Text
  pub contract_state_hash : Option Text

-- What a response says of the invocation: the answer of the contract, the message of an exception, or one of the
-- two fixed texts for an error inside.
pub data Invocation : Type 0 where
  answer : Text → Invocation
  exception_message : Invocation
  internal_pdo_error internal_error : Invocation

pub record ResponseDocument : Type 0 where
  pub status : Bool
  pub state_changed : Option Bool
  pub invocation_response : Invocation
  pub signature : Option Text
  pub metadata_hash : Option Text
  pub state_hash : Option Text
  pub dependencies : Option (List (Text × Text))

pub record EnclaveHost : Type 0 where
  -- `base64_encode` and `base64_decode` of packages/base64
  pub base64_encode : ByteArray → Text
  pub base64_decode : Text → ByteArray
  -- `json_parse_string` and the value read as an object or an array: none if it is not one.
  pub parse_keystore : Text → Option KeystoreDocument
  pub parse_secrets : Text → Option (List (Option SecretDocument))
  pub parse_request : Text → Option RequestDocument
  -- The serialization of an object, an exception where a text is no UTF-8.
  pub dump_private : Text → Text → Text → Text → Outcome Text
  pub dump_public : Text → Text → Outcome Text
  pub dump_response : ResponseDocument → Outcome ByteArray
  -- Sealing to the enclave, with additional data that stays visible; the draw is the randomness.
  pub sealed_size : ℕ → ℕ → ℕ
  pub seal : ByteArray → ByteArray → ℕ → Outcome ByteArray
  -- `sgx_get_encrypt_txt_len`, which reads the length from the header without checking anything.
  pub sealed_length : ByteArray → ℕ
  pub unseal : ByteArray → Outcome (ByteArray × ByteArray)

pub record IsHostLawful (e : EnclaveHost) : Type 0 where
  pub decode-encode : (m : ByteArray) → e.base64_decode (e.base64_encode m) ≡ m
  pub unseal-seal :
      (aad m blob : ByteArray) (draw : ℕ)
      → e.seal aad m draw ≡ ok blob
      → e.unseal blob ≡ ok (aad, m)
