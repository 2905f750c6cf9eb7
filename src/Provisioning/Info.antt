-- ===== src/Provisioning/Info.antt =====
-- `VerifyEnclaveInfo` of secret_enclave.cpp: whether the keys of a contract enclave are attested.
use private_data_objects.Prelude.{
  Bool, true, false, not, ◌&&◌, List, ◌++◌, map, Option, ByteArray, bytes_eq, get_elem?,
  if◌then◌else◌, replicate,
}
use private_data_objects.CString.{Text, c_str}
use private_data_objects.Outcome.{Outcome, ok, value_error, throw_if, ◌>>=◌, ◌>>◌}
use private_data_objects.Crypto.Keys.{Keys}
use private_data_objects.HexString.{hex_string_to_binary, binary_to_hex_string}
use private_data_objects.State.StateNode.{or_throw}
use private_data_objects.Ledger.Attestation.{to_lower}
use private_data_objects.Enclave.Host.{EnclaveHost}

pub record InfoDocument : Type 0 where
  pub verifying_key : Option Text
  pub encryption_key : Option Text
  pub owner_id : Option Text
  pub proof_data : Option Text

pub record ProofDocument : Type 0 where
  pub signature : Option Text
  pub certificates : Option (List (Option Text))
  pub verification_report : Option Text

pub record ReportDocument : Type 0 where
  pub quote_body : Option Text
  pub epid_pseudonym : Option Text

-- The fields of `sgx_quote_t` that are read.
pub record QuoteBody : Type 0 where
  pub report_data : ByteArray
  pub mr_enclave : ByteArray
  pub mode_64_bit : Bool
  pub debug : Bool

-- The library that checks the reports of the attestation service, the JSON library, and the constants of
-- the build.
pub record Attestation : Type 0 where
  pub parse_info : Text → Option InfoDocument
  pub parse_proof : Text → Option ProofDocument
  pub parse_report : Text → Option ReportDocument
  pub is_quote_accepted : Text → Bool
  pub is_chain_valid : Text → Bool
  pub is_report_signed : Text → Text → Text → Bool
  pub sha256 : ByteArray → ByteArray
  -- What the memory of a vector holds after the vector is destroyed.
  pub freed : ByteArray → ByteArray
  pub quote_at : ByteArray → QuoteBody
  pub is_simulator : Bool
  pub allowed_mr_enclave : Text
  pub is_debug_checked : Bool
  pub debug_flag : Bool

-- `a != b` of two flags.
abbrev pub differ : Bool → Bool → Bool
differ true b = not b
differ false b = b

module _ (k : Keys) (e : EnclaveHost) (t : Attestation) where
  -- `CreateReportData`: the hash, and 32 zeros behind it.
  unfoldable pub create_report_data : Text → Text → Text → Outcome ByteArray
  create_report_data originator_hash enclave_id encrypt_key = do
    signing ← k.read_sig_public enclave_id
    encryption ← k.read_enc_public encrypt_key
    signing_text ← k.write_sig_public signing
    encryption_text ← k.write_enc_public encryption
    ok (t.sha256 (signing_text ++ (encryption_text ++ originator_hash)) ++ replicate 32 0)

  -- The checks of the proof. The quote is read from a vector that is destroyed before.
  unfoldable pub verify_proof : Text → Text → Text → Text → Outcome (Unit {0})
  unfolding create_report_data
  verify_proof proof_data enclave_id encrypt_key owner_id = do
    proof ← or_throw (t.parse_proof (c_str proof_data)) value_error
    signature ← or_throw proof.signature value_error
    certificates ← or_throw proof.certificates value_error
    signing_element ← or_throw (get_elem? certificates 0) value_error
    signing_cert ← or_throw signing_element value_error
    ca_element ← or_throw (get_elem? certificates 1) value_error
    ca_cert ← or_throw ca_element value_error
    report_text ← or_throw proof.verification_report value_error
    report ← or_throw (t.parse_report (c_str report_text)) value_error
    body_text ← or_throw report.quote_body value_error
    _ ← or_throw report.epid_pseudonym value_error
    throw_if (not (t.is_quote_accepted report_text)) value_error
    throw_if (not (t.is_chain_valid ca_cert)) value_error
    throw_if (not (t.is_chain_valid signing_cert)) value_error
    throw_if (not (t.is_report_signed signing_cert report_text signature)) value_error
    let quote = t.quote_at (t.freed (e.base64_decode body_text))
    allowed ← hex_string_to_binary t.allowed_mr_enclave
    throw_if (not (bytes_eq quote.mr_enclave allowed)) value_error
    let originator_hash = map to_lower (binary_to_hex_string (t.sha256 owner_id))
    computed ← create_report_data originator_hash enclave_id encrypt_key
    throw_if (not (bytes_eq computed quote.report_data)) value_error
    throw_if (not quote.mode_64_bit) value_error
    throw_if (t.is_debug_checked && differ quote.debug t.debug_flag) value_error

  -- `VerifyEnclaveInfo`: the id and the encryption key of the enclave. Against a simulator nothing is
  -- checked.
  unfoldable pub verify_enclave_info : Text → Outcome (Text × Text)
  unfolding verify_proof
  verify_enclave_info enclave_info = do
    info ← or_throw (t.parse_info (c_str enclave_info)) value_error
    enclave_id ← or_throw info.verifying_key value_error
    encrypt_key ← or_throw info.encryption_key value_error
    owner_id ← or_throw info.owner_id value_error
    let proved = (do
      proof_data ← or_throw info.proof_data value_error
      verify_proof proof_data enclave_id encrypt_key owner_id
      ok (enclave_id, encrypt_key))
    if t.is_simulator then ok (enclave_id, encrypt_key) else proved
