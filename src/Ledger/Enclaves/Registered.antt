-- ===== src/Ledger/Enclaves/Registered.antt =====
-- What a registration of an enclave has shown, and what is written.
use private_data_objects.Prelude.{
  ◌≡◌, ◌≢◌, sym, ap, ◌∙◌, Bool, true, arith, map, [], Option, none, some, ByteArray, bytes_eq→eq,
  bytes_eq→ne,
}
use private_data_objects.Ledger.Records.{
  EnclaveInfo, RegisterEnclave, Measurements, ProofData, VerificationReport,
}
use private_data_objects.Ledger.Host.{Host, Quote}
use private_data_objects.Ledger.Reply.{
  success, error, fault, >>=-eq-success, require_passed, expect-some, or_fault-some, no_value,
  no_measurements,
}
use private_data_objects.Ledger.Tables.{Ledger, get, put, insert}
use private_data_objects.Ledger.Attestation.{
  to_upper, same, is_accepted_status, user_data_hash, verify_quote, verify_attestation,
  check_attestation,
}
use private_data_objects.Ledger.Signatures.{
  verify_sig, verify_rsa_sig, verify_ias_signature,
  verify_pdo_transaction_signature_register_enclave,
}
use private_data_objects.Ledger.Enclaves.{is_none-eq, register_enclave}

module _ (h : Host) where
  -- The quote is of the expected code, under the expected policy, and binds the enclave's keys and
  -- its owner's key.
  pub record IsAttested (expected : Measurements) (info : EnclaveInfo) (report : VerificationReport)
      (quote : Quote) : Type 0 where
    pub mrenclave : map to_upper (h.to_hex quote.mr_enclave) ≡ expected.mrenclave
    pub basename : map to_upper (h.to_hex quote.basename) ≡ expected.basename
    pub nonce : info.registration_block_context ≡ report.nonce
    pub pseudonym : info.enclave_persistent_id ≡ report.epid_pseudonym
    pub status : is_accepted_status report.isv_enclave_quote_status ≡ true
    pub report_data : quote.report_data ≡ user_data_hash h info
    pub mode_64_bit : quote.mode_64_bit ≡ true
    pub debug : same quote.debug expected.sgx_debug_flag ≡ true

  verify_quote_passed :
      (expected : Measurements) (info : EnclaveInfo) (report : VerificationReport) (quote : Quote)
      → verify_quote h expected info report quote ≡ success tt
      → info.enclave_persistent_id ≡ report.epid_pseudonym
      → is_accepted_status report.isv_enclave_quote_status ≡ true
      → IsAttested expected info report quote
  unfolding verify_quote
  verify_quote_passed expected info report quote e pseudonym status =
      let (_, mrenclave, e₁) = >>=-eq-success _ _ e in
      let (_, nonce, e₂) = >>=-eq-success _ _ e₁ in
      let (_, basename, e₃) = >>=-eq-success _ _ e₂ in
      let (_, hashed, e₄) = >>=-eq-success _ _ e₃ in
      let (_, mode, e₅) = >>=-eq-success _ _ e₄ in
      record {
        mrenclave = bytes_eq→eq _ _ (require_passed _ _ mrenclave);
        basename = bytes_eq→eq _ _ (require_passed _ _ basename);
        nonce = bytes_eq→eq _ _ (require_passed _ _ nonce);
        pseudonym = pseudonym;
        status = status;
        report_data = sym (bytes_eq→eq _ _ (require_passed _ _ hashed));
        mode_64_bit = require_passed _ _ mode;
        debug = require_passed _ _ e₅;
      }

  -- The report that the attestation service signed, and the quote that it holds, of the expected
  -- code.
  pub record IsProven (measurements : Option Measurements) (info : EnclaveInfo) : Type 0 where
    pub expected : Measurements
    pub known : measurements ≡ some expected
    pub proof : ProofData
    pub proof_parsed : h.parse_proof_data info.proof_data ≡ some proof
    pub report_signed :
        verify_ias_signature h proof.signature expected.ias_public_key proof.verification_report
        ≡ success true
    pub report : VerificationReport
    pub report_parsed : h.parse_report proof.verification_report ≡ some report
    pub raw : ByteArray
    pub raw_parsed : h.raw_from_b64 report.isv_enclave_quote_body ≡ some raw
    pub quote : Quote
    pub quote_read : h.quote_of_bytes raw ≡ some quote
    pub attested : IsAttested expected info report quote

  verify_attestation_passed :
      (measurements : Option Measurements) (info : EnclaveInfo) (u : Unit {0})
      → verify_attestation h measurements info ≡ success u
      → (info.proof_data ≢ []) × IsProven measurements info
  unfolding verify_attestation
  verify_attestation_passed measurements info u e =
      let (expected, known, e₁) = >>=-eq-success _ _ e in
      let (_, given, e₂) = >>=-eq-success _ _ e₁ in
      let (proof, parsed, e₃) = >>=-eq-success _ _ e₂ in
      let (signed, checked, e₄) = >>=-eq-success _ _ e₃ in
      let (_, is_signed, e₅) = >>=-eq-success _ _ e₄ in
      let (report, reported, e₆) = >>=-eq-success _ _ e₅ in
      let (raw, decoded, e₇) = >>=-eq-success _ _ e₆ in
      let (_, pseudonym, e₈) = >>=-eq-success _ _ e₇ in
      let (_, status, e₉) = >>=-eq-success _ _ e₈ in
      let (quote, read, quoted) = >>=-eq-success _ _ e₉ in
      let is_true = require_passed _ _ is_signed in
      (
        bytes_eq→ne _ _ (require_passed _ _ given),
        record {
          expected = expected;
          known = or_fault-some _ _ known;
          proof = proof;
          proof_parsed = expect-some _ _ parsed;
          report_signed = checked ∙ ap success is_true;
          report = report;
          report_parsed = expect-some _ _ reported;
          raw = raw;
          raw_parsed = or_fault-some _ _ decoded;
          quote = quote;
          quote_read = or_fault-some _ _ read;
          attested =
              verify_quote_passed expected info report quote quoted
                (bytes_eq→eq _ _ (require_passed _ _ pseudonym)) (require_passed _ _ status);
        },
      )

  -- What is known of an enclave that is registered.
  pub record IsRegistered (x : RegisterEnclave) (l l' : Ledger h) : Type 0 where
    pub new : get l.enclaves x.info.verifying_key ≡ none
    pub flag : Bool
    pub flag_committed : l.check_attestation.committed ≡ some flag
    pub proven : flag ≡ true → IsProven l.measurements.committed x.info
    pub signed :
        verify_pdo_transaction_signature_register_enclave h x.signature x.info.ehs_verifying_key
          x.info
        ≡ success true
    pub verifier : h.Verifier
    pub key : h.make_public_key x.info.verifying_key ≡ some verifier
    pub written : l' ≡ record l {
      enclaves = put l.enclaves x.info.verifying_key x.info;
      enclave_pubk_verifier = insert x.info.verifying_key verifier l.enclave_pubk_verifier;
    }

  -- An enclave is registered only under a key that is new, with a signature of its owner's key, and
  -- only once the attestation flag is committed. Where the flag asks for attestation, the report is
  -- signed under the committed key of the attestation service, and its quote is accepted by the
  -- committed policy and binds the enclave's keys and its owner's. Nothing but its entry and its
  -- verifier is written.
  pub register_enclave_success :
      (x : RegisterEnclave) (l : Ledger h) (r : Bool × Ledger h)
      → register_enclave h x l ≡ success r
      → IsRegistered x l r.1
  unfolding register_enclave check_attestation
  register_enclave_success x l r e =
      let (_, new, e₁) = >>=-eq-success _ _ e in
      let (u, checked, e₂) = >>=-eq-success _ _ e₁ in
      let (flag, known, e₃) = >>=-eq-success _ _ checked in
      let (signed, verified, e₄) = >>=-eq-success _ _ e₂ in
      let (_, is_signed, e₅) = >>=-eq-success _ _ e₄ in
      let (verifier, key, e₆) = >>=-eq-success _ _ e₅ in
      let is_true = require_passed _ _ is_signed in
      record {
        new = is_none-eq _ (require_passed _ _ new);
        flag = flag;
        flag_committed = expect-some _ _ known;
        proven =
            λ on. (verify_attestation_passed l.measurements.committed x.info u (rw on at e₃)).1;
        signed = verified ∙ ap success is_true;
        verifier = verifier;
        key = or_fault-some _ _ key;
        written = ground (arith, e₆);
      }

  quote-not_missing :
      (expected : Measurements) (info : EnclaveInfo) (report : VerificationReport) (quote : Quote)
      → verify_quote h expected info report quote ≢ error no_measurements
  unfolding verify_quote
  quote-not_missing expected info report quote e = ground (arith, e)

  attestation-not_missing :
      (m : Option Measurements) (info : EnclaveInfo)
      → verify_attestation h m info ≢ error no_measurements
  unfolding verify_attestation verify_ias_signature verify_rsa_sig
  attestation-not_missing none info e = ground (arith, e)
  attestation-not_missing (some m) info e = ground (arith, e, quote-not_missing m info)

  register_enclave-not_missing :
      (x : RegisterEnclave) (l : Ledger h) → register_enclave h x l ≢ error no_measurements
  unfolding register_enclave check_attestation verify_pdo_transaction_signature_register_enclave
      verify_sig
  register_enclave-not_missing x l e =
      ground (arith, e, attestation-not_missing l.measurements.committed x.info)

  -- While attestation is asked for and no measurements are committed, a registration of a new
  -- enclave ends in the exception of `value()`, and no registration at all is answered by the
  -- error that the code has for missing measurements.
  pub register_enclave_no_measurements :
      (x y : RegisterEnclave) (l : Ledger h)
      → l.check_attestation.committed ≡ some true
      → l.measurements.committed ≡ none
      → get l.enclaves x.info.verifying_key ≡ none
      → (register_enclave h x l ≡ fault no_value) × (register_enclave h y l ≢ error no_measurements)
  unfolding register_enclave check_attestation verify_attestation
  register_enclave_no_measurements x y l flag absent new =
      ((ground arith), register_enclave-not_missing y l)
