-- ===== src/Protocol.antt =====
-- What the enclaves sign, against what the ledger checks: eservice/lib/libpdo_enclave with
-- ledgers/ccf/transaction_processor.
pub mod Update
pub mod Initialization
pub mod Addition
use private_data_objects.Prelude.{
  ◌≡◌, sym, ap, ◌∙◌, inl, inr, ℕ, true, some, ByteArray, arith, Option-cases,
}
use private_data_objects.CString.{Text}
use private_data_objects.Outcome.{ok}
use private_data_objects.Crypto.Keys.{Keys}
use private_data_objects.Enclave.Host.{EnclaveHost, IsHostLawful}
use private_data_objects.Enclave.Data.{EnclaveData, sign_message}
use private_data_objects.Ledger.Records.{EnclaveInfo, ContractInfo}
use private_data_objects.Ledger.Host.{Host}
use private_data_objects.Ledger.Tables.{Ledger, get, lookup, new_ledger}
use private_data_objects.Ledger.Contracts.{is_enclave_in}
use private_data_objects.Ledger.Steps.{Reach}
use private_data_objects.Ledger.Steps.Kept.{Reach-IsConsistent}

module _ (h : Host) where
  module _ (k : Keys) where
    -- The verifier of the ledger accepts what the key signs.
    abbrev pub IsVerifierOf : h.Verifier → EnclaveData k → Type 0
    IsVerifierOf verifier d =
        (m s : ByteArray) (draw : ℕ) → sign_message k d m draw ≡ ok s → h.verify verifier m s ≡ true

  -- In a reachable ledger a contract is active, and its members are registered under their keys.
  pub registered-lem :
      (l : Ledger h) (id key : Text) (info : ContractInfo)
      → Reach h (new_ledger {h = h}) l
      → get l.contracts id ≡ some info
      → is_enclave_in key info.enclave_info ≡ true
      → (info.is_active ≡ true)
        × (enclave : EnclaveInfo) × (get l.enclaves key ≡ some enclave)
        × (enclave.verifying_key ≡ key)
  unfolding get
  registered-lem l id key info reach contract member =
      let sound = (Reach-IsConsistent l reach).sound in
      let c = sound.contract_sound id info contract in
      let known = c.registered key member in
      elim (Option-cases (lookup key l.enclaves.current)) [
        | inl f ↦ absurd (ground (arith, f, known))
        | inr (enclave, f) ↦ (c.active, enclave, f, sound.enclave_named key enclave f)
      ]

module _ (e : EnclaveHost) (lawful : IsHostLawful e) where
  pub encode_injective :
      (a b : ByteArray) → some (e.base64_encode a) ≡ some (e.base64_encode b) → a ≡ b
  encode_injective a b f =
      sym (lawful.decode-encode a) ∙ ap e.base64_decode (ground (arith, f)) ∙ lawful.decode-encode b
