-- ===== src/Ledger/Enclaves.antt =====
-- The handler `register_enclave` of pdo_tp.cpp.
pub mod Registered
use private_data_objects.Prelude.{
  ◌≡◌, refl, Bool, true, false, not, ◌∷◌, Option, none, some, if◌then◌else◌,
}
use private_data_objects.Ledger.Records.{Text, RegisterEnclave, EnclaveInfo}
use private_data_objects.Ledger.Host.{Host}
use private_data_objects.Ledger.Reply.{
  Reply, success, error, require, or_fault, ◌>>=◌, ◌>>◌, enclave_already_registered,
  payload_signature_invalid, library_exception,
}
use private_data_objects.Ledger.Tables.{Ledger, get, put, insert}
use private_data_objects.Ledger.Attestation.{check_attestation}
use private_data_objects.Ledger.Signatures.{verify_pdo_transaction_signature_register_enclave}

abbrev pub is_none {ℓ} : {A : Type ℓ} → Option A → Bool
is_none none = true
is_none (some _) = false

pub is_none-eq {ℓ} : {A : Type ℓ} (o : Option A) → is_none o ≡ true → o ≡ none
is_none-eq none e = refl
is_none-eq (some a) e = cc

module _ (h : Host) where
  unfoldable pub register_enclave : RegisterEnclave → Ledger h → Reply (Bool × Ledger h)
  register_enclave x l = do
    require (is_none (get l.enclaves x.info.verifying_key)) enclave_already_registered
    check_attestation h l x.info
    signed ←
        verify_pdo_transaction_signature_register_enclave h x.signature x.info.ehs_verifying_key
          x.info
    require signed payload_signature_invalid
    verifier ← or_fault (h.make_public_key x.info.verifying_key) library_exception
    success (
      true,
      record l {
        enclaves = put l.enclaves x.info.verifying_key x.info;
        enclave_pubk_verifier = insert x.info.verifying_key verifier l.enclave_pubk_verifier;
      },
    )
