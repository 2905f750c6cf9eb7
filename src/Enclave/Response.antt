-- ===== src/Enclave/Response.antt =====
-- contract_response.cpp: what the enclave answers, and what it signs.
use private_data_objects.Prelude.{
  ℕ, Bool, ◌&&◌, List, [], ◌∷◌, ◌++◌, none, some, ByteArray, if◌then◌else◌,
}
use private_data_objects.CString.{Text}
use private_data_objects.Outcome.{Outcome, ok, ◌>>=◌}
use private_data_objects.Platform.{Platform}
use private_data_objects.Crypto.Keys.{Keys}
use private_data_objects.Crypto.Skenc.{encrypt_message}
use private_data_objects.Enclave.Host.{Invocation, ResponseDocument, EnclaveHost}
use private_data_objects.Enclave.Data.{EnclaveData, sign_message}
use private_data_objects.Enclave.Request.{ContractRequest}

-- `ContractResponse`
pub record ContractResponse : Type 0 where
  pub contract_id : Text
  pub creator_id : Text
  pub channel_verifying_key : Text
  pub contract_code_hash : ByteArray
  pub contract_message_hash : ByteArray
  pub result : Invocation
  pub operation_succeeded : Bool

-- The constructor of the base class.
unfoldable pub new_response : ContractRequest → Bool → Invocation → ContractResponse
new_response request succeeded result = record {
  contract_id = request.contract_id;
  creator_id = request.creator_id;
  channel_verifying_key = request.contract_message.channel_verifying_key;
  contract_code_hash = request.contract_code.code_hash;
  contract_message_hash = request.contract_message.message_hash;
  result = result;
  operation_succeeded = succeeded;
}

-- `InitializeStateResponse`
pub record InitializeStateResponse : Type 0 where
  pub base : ContractResponse
  pub output_block_id : ByteArray
  pub contract_metadata_hash : ByteArray

-- `UpdateStateResponse`. The dependencies are in the order of the map.
pub record UpdateStateResponse : Type 0 where
  pub base : ContractResponse
  pub state_changed : Bool
  pub dependencies : List (Text × Text)
  pub input_block_id : ByteArray
  pub output_block_id : ByteArray

-- The object that a `shared_ptr<ContractResponse>` refers to.
pub data Response : Type 0 where
  failed : ContractResponse → Response
  initialized : InitializeStateResponse → Response
  updated : UpdateStateResponse → Response

unfoldable pub serialize_base_for_signing : ContractResponse → ByteArray
serialize_base_for_signing r =
    r.channel_verifying_key ++ (r.contract_id ++ (r.contract_code_hash ++ r.contract_message_hash))

-- The loop over the dependencies.
unfoldable pub concat_pairs : List (Text × Text) → ByteArray
concat_pairs [] = []
concat_pairs ((id, hash) ∷ rest) = id ++ (hash ++ concat_pairs rest)

-- `SerializeForSigning` of the three classes.
unfoldable pub serialize_for_signing : Response → ByteArray
unfolding serialize_base_for_signing concat_pairs
serialize_for_signing (failed r) = serialize_base_for_signing r
serialize_for_signing (initialized r) =
    serialize_base_for_signing r.base
    ++ (r.base.creator_id ++ (r.contract_metadata_hash ++ r.output_block_id))
serialize_for_signing (updated r) =
    serialize_base_for_signing r.base
    ++ (r.input_block_id ++ (r.output_block_id ++ concat_pairs r.dependencies))

module _ (k : Keys) (e : EnclaveHost) where
  unfoldable pub compute_signature : EnclaveData k → Response → ℕ → Outcome ByteArray
  unfolding serialize_for_signing sign_message
  compute_signature d r draw = sign_message k d (serialize_for_signing r) draw

  -- The objects that the three `SerializeAndEncrypt` fill.
  abbrev pub failed_document : ContractResponse → ResponseDocument
  failed_document r = record {
    status = r.operation_succeeded;
    state_changed = none;
    invocation_response = r.result;
    signature = none;
    metadata_hash = none;
    state_hash = none;
    dependencies = none;
  }

  abbrev pub initialized_document : InitializeStateResponse → ByteArray → ResponseDocument
  initialized_document r signature = record {
    status = r.base.operation_succeeded;
    state_changed = none;
    invocation_response = r.base.result;
    signature = some (e.base64_encode signature);
    metadata_hash = some (e.base64_encode r.contract_metadata_hash);
    state_hash = some (e.base64_encode r.output_block_id);
    dependencies = none;
  }

  abbrev pub unchanged_document : UpdateStateResponse → ResponseDocument
  unchanged_document r = record {
    status = r.base.operation_succeeded;
    state_changed = some r.state_changed;
    invocation_response = r.base.result;
    signature = none;
    metadata_hash = none;
    state_hash = none;
    dependencies = none;
  }

  abbrev pub updated_document : UpdateStateResponse → ByteArray → ResponseDocument
  updated_document r signature = record (unchanged_document r) {
    signature = some (e.base64_encode signature);
    state_hash = some (e.base64_encode r.output_block_id);
    dependencies = some r.dependencies;
  }

  unfoldable pub response_document : EnclaveData k → Response → ℕ → Outcome ResponseDocument
  unfolding compute_signature
  response_document d (failed r) draw = ok (failed_document r)
  response_document d (initialized r) draw = do
    signature ← compute_signature d (initialized r) draw
    ok (initialized_document r signature)
  response_document d (updated r) draw =
      if r.base.operation_succeeded && r.state_changed
      then (do signature ← compute_signature d (updated r) draw; ok (updated_document r signature))
      else ok (unchanged_document r)

  -- `SerializeAndEncrypt`
  unfoldable pub serialize_and_encrypt :
      (p : Platform)
      → ByteArray
      → EnclaveData k
      → Response
      → ℕ
      → p.World
      → Outcome (ByteArray × p.World)
  unfolding response_document
  serialize_and_encrypt p session_key d r draw w = do
    document ← response_document d r draw
    serialized ← e.dump_response document
    encrypt_message p session_key serialized w
