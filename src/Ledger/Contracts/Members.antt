-- ===== src/Ledger/Contracts/Members.antt =====
-- What a registration of a contract, and an addition of enclaves to it, have shown and written.
use private_data_objects.Prelude.{
  ◌≡◌, refl, ap, ◌∙◌, Bool, true, false, not, ◌&&◌, arith, List, [], ◌∷◌, ◌++◌, none, some,
  bytes_eq→eq, bytes_eq_iff, if◌then◌else◌, append_assoc, append-nil,
}
use private_data_objects.Ledger.Records.{
  Text, EnclaveInfo, ContractInfo, ContractEnclaveInfo, RegisterContract, AddEnclave,
}
use private_data_objects.Ledger.Host.{Host}
use private_data_objects.Ledger.Reply.{
  success, >>=-eq-success, require_passed, expect-some, or_fault-some,
}
use private_data_objects.Ledger.Tables.{Ledger, get, put, lookup}
use private_data_objects.Ledger.Enclaves.{is_none-eq}
use private_data_objects.Ledger.Contracts.{
  is_enclave_in, new_contract, register_contract, add_one, add_all, add_enclave, is_nil,
}
use private_data_objects.Ledger.Signatures.{
  verify_pdo_transaction_signature_register_contract, verify_pdo_transaction_signature_add_enclave,
  verify_enclave_signature_add_enclave,
}

-- No enclave twice.
unfoldable pub are_distinct : List ContractEnclaveInfo → Bool
unfolding is_enclave_in
are_distinct [] = true
are_distinct (e ∷ rest) = not (is_enclave_in e.contract_enclave_id rest) && are_distinct rest

pub is_enclave_in-append :
    (id : Text) (es fs : List ContractEnclaveInfo)
    → is_enclave_in id (es ++ fs) ≡ (if is_enclave_in id es then true else is_enclave_in id fs)
unfolding is_enclave_in
is_enclave_in-append id [] fs = refl
is_enclave_in-append id (e ∷ es) fs = ground (arith, is_enclave_in-append id es fs)

pub are_distinct-snoc :
    (es : List ContractEnclaveInfo) (e : ContractEnclaveInfo)
    → are_distinct es ≡ true
    → is_enclave_in e.contract_enclave_id es ≡ false
    → are_distinct (es ++ e ∷ []) ≡ true
unfolding are_distinct is_enclave_in
are_distinct-snoc [] e d n = refl
are_distinct-snoc (f ∷ es) e d n = ground (
  arith,
  are_distinct-snoc es e,
  is_enclave_in-append f.contract_enclave_id es (e ∷ []),
  bytes_eq_iff f.contract_enclave_id e.contract_enclave_id,
  bytes_eq_iff e.contract_enclave_id f.contract_enclave_id,
)

module _ (h : Host) where
  pub record IsContractRegistered (x : RegisterContract) (l l' : Ledger h) : Type 0 where
    pub new : get l.contracts x.contract_id ≡ none
    pub signed :
        verify_pdo_transaction_signature_register_contract h x.signature
          x.contract_creator_verifying_key x.contract_code_hash x.nonce x.provisioning_service_ids
        ≡ success true
    pub written : l' ≡ record l { contracts = put l.contracts x.contract_id (new_contract x) }

  pub register_contract_success :
      (x : RegisterContract) (l : Ledger h) (r : Bool × Ledger h)
      → register_contract h x l ≡ success r
      → IsContractRegistered x l r.1
  unfolding register_contract
  register_contract_success x l r e =
      let (_, new, e₁) = >>=-eq-success _ _ e in
      let (signed, verified, e₂) = >>=-eq-success _ _ e₁ in
      let (_, is_signed, e₃) = >>=-eq-success _ _ e₂ in
      let is_true = require_passed _ _ is_signed in
      record {
        new = is_none-eq _ (require_passed _ _ new);
        signed = verified ∙ ap success is_true;
        written = ground (arith, e₃);
      }

  -- An entry that one round of the loop has let pass.
  pub record IsMember (contract_id : Text) (l : Ledger h) (info : ContractInfo)
      (e : ContractEnclaveInfo) : Type 0 where
    pub for_contract : e.contract_id ≡ info.contract_id
    pub enclave : EnclaveInfo
    pub registered : get l.enclaves e.contract_enclave_id ≡ some enclave
    pub new : is_enclave_in e.contract_enclave_id info.enclave_info ≡ false
    pub verifier : h.Verifier
    pub cached : lookup enclave.verifying_key l.enclave_pubk_verifier ≡ some verifier
    pub signed :
        verify_enclave_signature_add_enclave h e.signature verifier
          info.contract_creator_verifying_key contract_id e.provisioning_key_state_secret_pairs
          e.encrypted_state_encryption_key
        ≡ success true

  not-eq : (b : Bool) → not b ≡ true → b ≡ false
  not-eq b e = ground arith

  add_one_success :
      (contract_id : Text) (l : Ledger h) (info info' : ContractInfo) (e : ContractEnclaveInfo)
      → add_one h contract_id l info e ≡ success info'
      → IsMember contract_id l info e
        × (info' ≡ record info { enclave_info = info.enclave_info ++ e ∷ [] })
  unfolding add_one
  add_one_success contract_id l info info' e h₀ =
      let (_, same, h₁) = >>=-eq-success _ _ h₀ in
      let (enclave, registered, h₂) = >>=-eq-success _ _ h₁ in
      let (_, new, h₃) = >>=-eq-success _ _ h₂ in
      let (verifier, cached, h₄) = >>=-eq-success _ _ h₃ in
      let (signed, verified, h₅) = >>=-eq-success _ _ h₄ in
      let (_, is_signed, h₆) = >>=-eq-success _ _ h₅ in
      let is_true = require_passed _ _ is_signed in
      (
        record {
          for_contract = bytes_eq→eq _ _ (require_passed _ _ same);
          enclave = enclave;
          registered = expect-some _ _ registered;
          new = not-eq _ (require_passed _ _ new);
          verifier = verifier;
          cached = or_fault-some _ _ cached;
          signed = verified ∙ ap success is_true;
        },
        ground (arith, h₆),
      )

  -- Every entry passes, against the contract with the entries before it.
  abbrev pub AreMembers : Text → Ledger h → ContractInfo → List ContractEnclaveInfo → Type 0
  AreMembers contract_id l info [] = Unit
  AreMembers contract_id l info (e ∷ rest) =
      IsMember contract_id l info e
      × AreMembers contract_id l (record info { enclave_info = info.enclave_info ++ e ∷ [] }) rest

  add_all_success :
      (contract_id : Text) (l : Ledger h) (info info' : ContractInfo)
      (es : List ContractEnclaveInfo)
      → add_all h contract_id l info es ≡ success info'
      → AreMembers contract_id l info es
        × (info' ≡ record info { enclave_info = info.enclave_info ++ es })
  unfolding add_all
  add_all_success contract_id l info info' [] e =
      (tt, ground (arith, e, append-nil info.enclave_info))
  add_all_success contract_id l info info' (e ∷ rest) h₀ =
      let (between, one, h₁) = >>=-eq-success _ _ h₀ in
      let (member, added) = add_one_success contract_id l info between e one in
      let (members, all) =
        add_all_success contract_id l (record info { enclave_info = info.enclave_info ++ e ∷ [] })
          info' rest (rw added at h₁) in
      ((member, members), ground (arith, all, append_assoc info.enclave_info (e ∷ []) rest))

  pub record AreAdded (x : AddEnclave) (l l' : Ledger h) : Type 0 where
    pub info : ContractInfo
    pub contract : get l.contracts x.contract_id ≡ some info
    pub signed :
        verify_pdo_transaction_signature_add_enclave h x.signature
          info.contract_creator_verifying_key x.contract_id x.enclave_info
        ≡ success true
    pub enclaves : List ContractEnclaveInfo
    pub parsed : h.parse_enclave_infos x.enclave_info ≡ some enclaves
    pub not_empty : is_nil enclaves ≡ false
    pub members : AreMembers x.contract_id l info enclaves
    pub written : l' ≡ record l {
      contracts =
          put l.contracts x.contract_id
            (record info { enclave_info = info.enclave_info ++ enclaves });
    }

  -- Enclaves are added only to a registered contract, at its creator's signature over the request,
  -- and at least one. Each entry names the contract and a registered enclave that is not in the contract
  -- yet, counting the entries before it, and that enclave's key signed the entry. The contract's list
  -- grows by all the entries in their order, and nothing else is written.
  pub add_enclave_success :
      (x : AddEnclave) (l : Ledger h) (r : Bool × Ledger h)
      → add_enclave h x l ≡ success r
      → AreAdded x l r.1
  unfolding add_enclave
  add_enclave_success x l r h₀ =
      let (info, contract, h₁) = >>=-eq-success _ _ h₀ in
      let (signed, verified, h₂) = >>=-eq-success _ _ h₁ in
      let (_, is_signed, h₃) = >>=-eq-success _ _ h₂ in
      let (enclaves, parsed, h₄) = >>=-eq-success _ _ h₃ in
      let (_, given, h₅) = >>=-eq-success _ _ h₄ in
      let (info', added, h₆) = >>=-eq-success _ _ h₅ in
      let (members, all) = add_all_success x.contract_id l info info' enclaves added in
      let is_true = require_passed _ _ is_signed in
      record {
        info = info;
        contract = expect-some _ _ contract;
        signed = verified ∙ ap success is_true;
        enclaves = enclaves;
        parsed = expect-some _ _ parsed;
        not_empty = not-eq _ (require_passed _ _ given);
        members = members;
        written = ground (arith, h₆, all);
      }
