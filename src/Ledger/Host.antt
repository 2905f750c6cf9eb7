-- ===== src/Ledger/Host.antt =====
-- What the handlers call of CCF, its JSON and crypto libraries and the SGX SDK, as one parameter.
-- An `Option` is none where the call throws.
use private_data_objects.Prelude.{ℕ, Bool, Option, List, ByteArray}
use private_data_objects.Ledger.Records.{
  Text, ProofData, VerificationReport, ContractEnclaveInfo, Dependency, StateUpdateInfo,
  ContractInfo, SignerKeys,
}

-- The fields of `sgx_quote_t` that a handler reads.
pub record Quote : Type 0 where
  pub report_data : ByteArray
  pub mr_enclave : ByteArray
  pub basename : ByteArray
  pub mode_64_bit : Bool
  pub debug : Bool

pub record Host : Type 1 where
  -- `PublicKeyPtr` and `KeyPairPtr`, not null
  pub Verifier : Type 0
  pub Signer : Type 0
  pub make_public_key : Text → Option Verifier
  pub verify : Verifier → ByteArray → ByteArray → Bool
  pub verify_rsa : Text → ByteArray → ByteArray → Option Bool
  -- A fresh key pair in PEM, by the randomness of the call.
  pub make_key_pair : ℕ → Option SignerKeys
  pub signer_of_pem : Text → Option Signer
  pub sign : Signer → ByteArray → ByteArray
  pub sha256 : ByteArray → ByteArray
  pub to_hex : ByteArray → Text
  pub raw_from_b64 : Text → Option ByteArray
  pub b64_from_raw : ByteArray → Text
  -- The bytes read as a quote: none if they are fewer than a quote has.
  pub quote_of_bytes : ByteArray → Option Quote
  pub parse_proof_data : Text → Option ProofData
  pub parse_report : Text → Option VerificationReport
  pub parse_enclave_infos : Text → Option (List ContractEnclaveInfo)
  pub parse_state_update : Text → Option StateUpdateInfo
  -- `nlohmann::json::dump` of the documents that are signed.
  pub dump_dependencies : List Dependency → Text
  pub dump_provisioning : Text → ContractInfo → Text
