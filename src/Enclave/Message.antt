-- ===== src/Enclave/Message.antt =====
-- contract_message.cpp: the message to a contract, signed by its originator.
use private_data_objects.Prelude.{Bool, not, [], ◌++◌, Option, ByteArray}
use private_data_objects.CString.{Text}
use private_data_objects.Outcome.{Outcome, ok, value_error, throw_if, ◌>>=◌, ◌>>◌}
use private_data_objects.Platform.{Platform}
use private_data_objects.Crypto.Keys.{Keys}
use private_data_objects.State.StateNode.{or_throw}
use private_data_objects.Enclave.Host.{MessageDocument, EnclaveHost}

-- `ContractMessage`
pub record ContractMessage : Type 0 where
  pub expression : Text
  pub originator_verifying_key : Text
  pub channel_verifying_key : Text
  pub nonce : Text
  pub message_hash : ByteArray

module _ (p : Platform) (k : Keys) (e : EnclaveHost) where
  unfoldable pub verify_message_signature : ContractMessage → ByteArray → Outcome Bool
  verify_message_signature m signature = do
    verifying_key ← k.read_sig_public m.originator_verifying_key
    ok (k.verify verifying_key (m.expression ++ (m.channel_verifying_key ++ m.nonce)) signature)

  unfoldable pub compute_message_hash : ContractMessage → ByteArray
  compute_message_hash m = p.sha256 (m.expression ++ m.nonce)

  -- `ContractMessage::Unpack`. Every member of a null object is absent.
  unfoldable pub unpack_message : Option MessageDocument → Outcome ContractMessage
  unfolding verify_message_signature compute_message_hash
  unpack_message object = do
    document ← or_throw object value_error
    expression ← or_throw document.invocation_request value_error
    originator ← or_throw document.originator_verifying_key value_error
    channel ← or_throw document.channel_verifying_key value_error
    nonce ← or_throw document.nonce value_error
    signature ← or_throw document.signature value_error
    let m : ContractMessage = record {
      expression = expression;
      originator_verifying_key = originator;
      channel_verifying_key = channel;
      nonce = nonce;
      message_hash = [];
    }
    verified ← verify_message_signature m (e.base64_decode signature)
    throw_if (not verified) value_error
    ok (record m { message_hash = compute_message_hash m })
