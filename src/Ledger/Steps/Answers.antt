-- ===== src/Ledger/Steps/Answers.antt =====
-- What the signed answers of the read handlers are about.
use private_data_objects.Prelude.{
  ◌≡◌, ◌≢◌, true, false, not, ◌&&◌, arith, [], ◌++◌, some, ByteArray, Option-cases, inl, inr,
  bytes_eq, bytes_eq_iff,
}
use private_data_objects.Ledger.Records.{Text, EnclaveInfo, ContractInfo, SignerKeys}
use private_data_objects.Ledger.Host.{Host}
use private_data_objects.Ledger.Reply.{
  success, error, require, expect, >>=-eq-success, require_passed, expect-some, enclave_not_found,
  contract_not_found, not_initialized, unknown_state,
}
use private_data_objects.Ledger.Tables.{Ledger, lookup, new_ledger, get_globally_committed}
use private_data_objects.Ledger.Enclaves.{is_none}
use private_data_objects.Ledger.Updates.{ccl_key}
use private_data_objects.Ledger.Signing.{ensure_signer, sign_document}
use private_data_objects.Ledger.Queries.{
  EnclaveAnswer, StateAnswer, verify_enclave, get_current_state_info_for_contract,
  get_details_about_state,
}
use private_data_objects.Ledger.Steps.{Reach}
use private_data_objects.Ledger.Steps.Effect.{IsSignerOf, ensure_signer_success}
use private_data_objects.Ledger.Steps.Kept.{IsConsistent, Reach-IsConsistent}

module _ {h : Host} where
  -- The signer is made of the key pair that is committed.
  pub record IsLedgerSigner (l : Ledger h) (s : h.Signer) : Type 0 where
    pub keys : SignerKeys
    pub committed_key : l.signer.committed ≡ some keys
    pub made : h.signer_of_pem keys.privk ≡ some s

  IsSignerOf-IsLedgerSigner :
      (l l' : Ledger h) (s : h.Signer) → IsConsistent l → IsSignerOf l s l' → IsLedgerSigner l s
  IsSignerOf-IsLedgerSigner l l' s c (inl (g, _)) =
      let (keys, k, m) = c.local_sound s g in record { keys = keys; committed_key = k; made = m }
  IsSignerOf-IsLedgerSigner l l' s c (inr (keys, k, m, _)) = record {
    keys = keys;
    committed_key = k;
    made = m;
  }

  pub record IsEnclaveAnswer (id : Text) (l : Ledger h) (a : EnclaveAnswer) : Type 0 where
    pub enclave : EnclaveInfo
    pub found : get_globally_committed l.enclaves id ≡ some enclave
    pub same_key : a.verifying_key ≡ enclave.verifying_key
    pub same_encryption_key : a.encryption_key ≡ enclave.encryption_key
    pub same_proof : a.proof_data ≡ enclave.proof_data
    pub same_owner : a.owner_id ≡ enclave.ehs_verifying_key
    pub signer : h.Signer
    pub by_ledger : IsLedgerSigner l signer
    pub signed :
        a.signature
        ≡ sign_document h signer (
            a.verifying_key
            ++ (a.encryption_key
                ++ (a.proof_data ++ (a.last_registration_block_context ++ a.owner_id))))

  -- In a state that a node reaches, an answer of `verify_enclave` holds the keys, the proof data and
  -- the owner of the enclave that is committed under the id, and its signature is over the answer's
  -- own fields, by the key pair that is committed as the ledger's.
  pub verify_enclave_success :
      (id : Text) (l : Ledger h) (r : EnclaveAnswer × Ledger h)
      → Reach h (new_ledger {h = h}) l
      → verify_enclave h id l ≡ success r
      → IsEnclaveAnswer id l r.0
  unfolding verify_enclave get_globally_committed
  verify_enclave_success id l r reached e =
      let c = Reach-IsConsistent l reached in
      let (info, found, e₁) =
        >>=-eq-success (expect (get_globally_committed l.enclaves id) enclave_not_found) _ e in
      let (s, made, e₂) = >>=-eq-success (ensure_signer h l) _ e₁ in
      let there = expect-some _ _ found in
      let named : info.verifying_key ≡ id = c.committed_sound.enclave_named id info there in
      record {
        enclave = info;
        found = there;
        same_key = ground (arith, e₂, named);
        same_encryption_key = ground (arith, e₂);
        same_proof = ground (arith, e₂);
        same_owner = ground (arith, e₂);
        signer = s.0;
        by_ledger = IsSignerOf-IsLedgerSigner l s.1 s.0 c (ensure_signer_success l s made);
        signed = ground (arith, e₂);
      }

  pub record IsStateAnswer (id : Text) (l : Ledger h) (a : StateAnswer) : Type 0 where
    pub info : ContractInfo
    pub found : get_globally_committed l.contracts id ≡ some info
    pub active : a.is_active ≡ true
    pub initialized : info.current_state_hash ≢ []
    pub same_hash : a.state_hash ≡ h.b64_from_raw info.current_state_hash
    pub details : get_details_about_state h id info.current_state_hash l ≢ error unknown_state
    pub signer : h.Signer
    pub by_ledger : IsLedgerSigner l signer
    pub signed : a.signature ≡ sign_document h signer (id ++ a.state_hash)

  has_details :
      (id : Text) (hash : ByteArray) (l : Ledger h)
      → is_none (lookup (ccl_key id hash) l.ccl.committed) ≡ false
      → get_details_about_state h id hash l ≢ error unknown_state
  unfolding get_details_about_state get_globally_committed ensure_signer
  has_details id hash l g e = elim (Option-cases (lookup (ccl_key id hash) l.ccl.committed)) [
    | inl n ↦ ground (arith, g, n)
    | inr (s, n) ↦ ground (arith, e, n)
  ]

  -- In a state that a node reaches, an answer of `get_current_state_info_for_contract` holds the hash
  -- of the current state of an initialized contract that is committed, a query for the details of that
  -- state does not answer that the state is unknown, and the signature is over the contract's id and
  -- that hash, by the key pair that is committed as the ledger's.
  pub get_current_state_info_success :
      (id : Text) (l : Ledger h) (r : StateAnswer × Ledger h)
      → Reach h (new_ledger {h = h}) l
      → get_current_state_info_for_contract h id l ≡ success r
      → IsStateAnswer id l r.0
  unfolding get_current_state_info_for_contract get_globally_committed
  get_current_state_info_success id l r reached e =
      let c = Reach-IsConsistent l reached in
      let (info, found, e₁) =
        >>=-eq-success (expect (get_globally_committed l.contracts id) contract_not_found) _ e in
      let (_, passed, e₂) =
        >>=-eq-success
          (require (not (info.is_active && bytes_eq info.current_state_hash [])) not_initialized) _
          e₁ in
      let (s, made, e₃) = >>=-eq-success (ensure_signer h l) _ e₂ in
      let there = expect-some _ _ found in
      let sound = c.committed_sound.contract_sound id info there in
      let given = require_passed _ _ passed in
      let initialized : info.current_state_hash ≢ [] = λ empty.
        ground (arith, given, sound.active, bytes_eq_iff info.current_state_hash [], empty) in
      record {
        info = info;
        found = there;
        active = ground (arith, e₃, sound.active);
        initialized = initialized;
        same_hash = ground (arith, e₃);
        details = has_details id info.current_state_hash l (sound.recorded initialized);
        signer = s.0;
        by_ledger = IsSignerOf-IsLedgerSigner l s.1 s.0 c (ensure_signer_success l s made);
        signed = ground (arith, e₃);
      }
