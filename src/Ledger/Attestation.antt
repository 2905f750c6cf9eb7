-- ===== src/Ledger/Attestation.antt =====
-- The attestation check of `register_enclave` (pdo_tp.cpp), and the two governance handlers that
-- set its policy.
use private_data_objects.Prelude.{
  ℕ, ◌+◌, ◌-◌, Bool, true, false, not, ◌&&◌, ◌||◌, [], ◌∷◌, ◌++◌, map, Option, none, some,
  ByteArray, bytes_eq, leb, if◌then◌else◌, take, length, replicate,
}
use private_data_objects.Ledger.Records.{Text, Measurements, VerificationReport, EnclaveInfo}
use private_data_objects.Ledger.Host.{Host, Quote}
use private_data_objects.Ledger.Reply.{
  Reply, success, error, require, expect, or_fault, ◌>>=◌, ◌>>◌, no_value, short_quote,
  library_exception, flag_already_set, flag_not_set, attestation_disabled, no_flag_value,
  no_proof_data, proof_data_unparsed, ias_signature_invalid, report_unparsed, wrong_pseudonym,
  wrong_quote_status, wrong_mrenclave, wrong_nonce, wrong_basename, wrong_report_data, not_64_bit,
  wrong_debug_flag,
}
use private_data_objects.Ledger.Tables.{Ledger}
use private_data_objects.Ledger.Signatures.{verify_ias_signature}

-- `::toupper` and `::tolower` of one byte.
unfoldable pub to_upper : ℕ → ℕ
to_upper c = if leb b'a' c && leb c b'z' then c - 32 else c

unfoldable pub to_lower : ℕ → ℕ
to_lower c = if leb b'A' c && leb c b'Z' then c + 32 else c

-- `v.resize(n, x)`
unfoldable pub resize : ByteArray → ℕ → ℕ → ByteArray
resize v n x = take n v ++ replicate (n - length v) x

-- The four accepted quote statuses, in characters: OK, GROUP_OUT_OF_DATE, SW_HARDENING_NEEDED and
-- CONFIGURATION_AND_SW_HARDENING_NEEDED.
abbrev pub ok_quote_status : Text
ok_quote_status = b'O' ∷ b'K' ∷ []

abbrev group_out_of_date_quote_status : Text
group_out_of_date_quote_status =
    b'G' ∷ b'R' ∷ b'O' ∷ b'U' ∷ b'P' ∷ b'_' ∷ b'O' ∷ b'U' ∷ b'T' ∷ b'_' ∷ b'O' ∷ b'F' ∷ b'_' ∷ b'D'
    ∷ b'A' ∷ b'T' ∷ b'E' ∷ []

abbrev sw_hardening_needed_quote_status : Text
sw_hardening_needed_quote_status =
    b'S' ∷ b'W' ∷ b'_' ∷ b'H' ∷ b'A' ∷ b'R' ∷ b'D' ∷ b'E' ∷ b'N' ∷ b'I' ∷ b'N' ∷ b'G' ∷ b'_' ∷ b'N'
    ∷ b'E' ∷ b'E' ∷ b'D' ∷ b'E' ∷ b'D' ∷ []

abbrev configuration_and_sw_hardening_needed_quote_status : Text
configuration_and_sw_hardening_needed_quote_status =
    b'C' ∷ b'O' ∷ b'N' ∷ b'F' ∷ b'I' ∷ b'G' ∷ b'U' ∷ b'R' ∷ b'A' ∷ b'T' ∷ b'I' ∷ b'O' ∷ b'N' ∷ b'_'
    ∷ b'A' ∷ b'N' ∷ b'D' ∷ b'_' ∷ sw_hardening_needed_quote_status

unfoldable pub is_accepted_status : Text → Bool
unfolding to_upper
is_accepted_status status =
    let s = map to_upper status in
    bytes_eq s ok_quote_status
    || (bytes_eq s group_out_of_date_quote_status
        || (bytes_eq s sw_hardening_needed_quote_status
            || bytes_eq s configuration_and_sw_hardening_needed_quote_status))

-- `a == b` of two `bool`s.
abbrev pub same : Bool → Bool → Bool
same true b = b
same false b = not b

module _ (h : Host) where
  -- What the report data of the quote has to be: the hash of the enclave's keys and its owner's.
  unfoldable pub user_data_hash : EnclaveInfo → ByteArray
  unfolding to_lower resize
  user_data_hash info =
      let originator = map to_lower (resize (h.to_hex (h.sha256 info.ehs_verifying_key)) 64 0) in
      resize (h.sha256 (info.verifying_key ++ (info.encryption_key ++ originator))) 64 0

  -- The checks of the quote against the policy and the registration.
  unfoldable pub verify_quote :
      Measurements → EnclaveInfo → VerificationReport → Quote → Reply (Unit {0})
  unfolding user_data_hash is_accepted_status to_upper
  verify_quote expected info report quote = do
    require (bytes_eq (map to_upper (h.to_hex quote.mr_enclave)) expected.mrenclave) wrong_mrenclave
    require (bytes_eq info.registration_block_context report.nonce) wrong_nonce
    require (bytes_eq (map to_upper (h.to_hex quote.basename)) expected.basename) wrong_basename
    require (bytes_eq (user_data_hash info) quote.report_data) wrong_report_data
    require quote.mode_64_bit not_64_bit
    require (same quote.debug expected.sgx_debug_flag) wrong_debug_flag

  -- The block under `if(check_attestation_flag.check_attestation)`. `value()` of measurements that
  -- are not committed throws: the test before it is on the flag again.
  unfoldable pub verify_attestation : Option Measurements → EnclaveInfo → Reply (Unit {0})
  unfolding verify_quote is_accepted_status verify_ias_signature
  verify_attestation measurements_global info = do
    expected ← or_fault measurements_global no_value
    require (not (bytes_eq info.proof_data [])) no_proof_data
    proof ← expect (h.parse_proof_data info.proof_data) proof_data_unparsed
    signed ←
        verify_ias_signature h proof.signature expected.ias_public_key proof.verification_report
    require signed ias_signature_invalid
    report ← expect (h.parse_report proof.verification_report) report_unparsed
    raw ← or_fault (h.raw_from_b64 report.isv_enclave_quote_body) library_exception
    require (bytes_eq info.enclave_persistent_id report.epid_pseudonym) wrong_pseudonym
    require (is_accepted_status report.isv_enclave_quote_status) wrong_quote_status
    quote ← or_fault (h.quote_of_bytes raw) short_quote
    verify_quote expected info report quote

  -- The attestation part of `register_enclave`, under the committed policy.
  unfoldable pub check_attestation : Ledger h → EnclaveInfo → Reply (Unit {0})
  unfolding verify_attestation
  check_attestation l info = do
    flag ← expect l.check_attestation.committed no_flag_value
    if flag then verify_attestation l.measurements.committed info else success tt

  unfoldable pub set_contract_enclave_attestation_check_flag :
      Bool → Ledger h → Reply (Bool × Ledger h)
  set_contract_enclave_attestation_check_flag flag l = elim l.check_attestation.current [
    | some _ ↦ error flag_already_set
    | none ↦
        success (
          true,
          record l { check_attestation = record l.check_attestation { current = some flag } },
        )
  ]

  unfoldable pub set_contract_enclave_expected_sgx_measurements :
      Measurements → Ledger h → Reply (Bool × Ledger h)
  set_contract_enclave_expected_sgx_measurements m l = do
    flag ← expect l.check_attestation.committed flag_not_set
    require flag attestation_disabled
    success (true, record l { measurements = record l.measurements { current = some m } })
