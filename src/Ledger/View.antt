-- ===== src/Ledger/View.antt =====
-- The three tables that the registration and state handlers write, as one value: what they hold
-- (`IsSound`), and how they may change (`Extends`).
pub mod Changes
use private_data_objects.Prelude.{
  ◌≡◌, ◌≢◌, refl, sym, ap, ◌∙◌, ◌⊎◌, inl, inr, ◌↔◌, Bool, true, false, not, ◌&&◌, arith, List, [],
  ◌∷◌, ◌++◌, Option, none, some, ByteArray, bytes_eq, bytes_eq→eq, bytes_eq→ne, ne→not_bytes_eq,
  bytes_eq_refl, bytes_eq_iff, Bool-cases, Option-cases, if◌then◌else◌, append_assoc, append-nil,
}
use private_data_objects.Ledger.Records.{
  Text, EnclaveInfo, ContractInfo, ContractStateInfo, ContractEnclaveInfo, RegisterContract,
}
use private_data_objects.Ledger.Tables.{lookup, insert, lookup-insert}
use private_data_objects.Ledger.Enclaves.{is_none, is_none-eq}
use private_data_objects.Ledger.Contracts.{is_enclave_in, new_contract}
use private_data_objects.Ledger.Contracts.Members.{are_distinct}
use private_data_objects.Ledger.Updates.{ccl_key}

pub record View : Type 0 where
  pub enclaves : List (Text × EnclaveInfo)
  pub contracts : List (Text × ContractInfo)
  pub ccl : List (Text × ContractStateInfo)

-- A contract stands under its id and is active, its enclaves are registered, none twice, and its
-- current state, if it has one, is in `ccl`.
pub record IsSoundContract (v : View) (id : Text) (info : ContractInfo) : Type 0 where
  pub named : info.contract_id ≡ id
  pub active : info.is_active ≡ true
  pub registered :
      (e : Text) → is_enclave_in e info.enclave_info ≡ true → is_none (lookup e v.enclaves) ≡ false
  pub distinct : are_distinct info.enclave_info ≡ true
  pub recorded :
      info.current_state_hash ≢ []
      → is_none (lookup (ccl_key id info.current_state_hash) v.ccl) ≡ false

pub record IsSound (v : View) : Type 0 where
  pub enclave_named :
      (k : Text) (e : EnclaveInfo) → lookup k v.enclaves ≡ some e → e.verifying_key ≡ k
  pub contract_sound :
      (id : Text) (info : ContractInfo)
      → lookup id v.contracts ≡ some info
      → IsSoundContract v id info

-- What stays of a contract: its identity and its enclaves.
pub record IsSuccessor (a b : ContractInfo) : Type 0 where
  pub same_id : b.contract_id ≡ a.contract_id
  pub same_code : b.contract_code_hash ≡ a.contract_code_hash
  pub same_creator : b.contract_creator_verifying_key ≡ a.contract_creator_verifying_key
  pub same_services : b.provisioning_service_ids ≡ a.provisioning_service_ids
  pub added : List ContractEnclaveInfo
  pub enclaves : b.enclave_info ≡ a.enclave_info ++ added

pub IsSuccessor-refl : (a : ContractInfo) → IsSuccessor a a
IsSuccessor-refl a = record {
  same_id = refl;
  same_code = refl;
  same_creator = refl;
  same_services = refl;
  added = [];
  enclaves = sym (append-nil a.enclave_info);
}

IsSuccessor-trans : (a b c : ContractInfo) → IsSuccessor a b → IsSuccessor b c → IsSuccessor a c
IsSuccessor-trans a b c p q = record {
  same_id = q.same_id ∙ p.same_id;
  same_code = q.same_code ∙ p.same_code;
  same_creator = q.same_creator ∙ p.same_creator;
  same_services = q.same_services ∙ p.same_services;
  added = p.added ++ q.added;
  enclaves = ground (arith, p.enclaves, q.enclaves, append_assoc a.enclave_info p.added q.added);
}

pub record Extends (v w : View) : Type 0 where
  pub enclaves_kept :
      (k : Text) (e : EnclaveInfo) → lookup k v.enclaves ≡ some e → lookup k w.enclaves ≡ some e
  pub contracts_kept :
      (k : Text) (a : ContractInfo)
      → lookup k v.contracts ≡ some a
      → (b : ContractInfo) × (lookup k w.contracts ≡ some b) × IsSuccessor a b
  pub states_kept : (k : Text) → is_none (lookup k v.ccl) ≡ false → is_none (lookup k w.ccl) ≡ false

pub Extends-refl : (v : View) → Extends v v
Extends-refl v = record {
  enclaves_kept = λ k e p. p;
  contracts_kept = λ k a p. (a, p, IsSuccessor-refl a);
  states_kept = λ k p. p;
}

pub Extends-trans : (u v w : View) → Extends u v → Extends v w → Extends u w
Extends-trans u v w p q = record {
  enclaves_kept = λ k e g. q.enclaves_kept k e (p.enclaves_kept k e g);
  contracts_kept = λ k a g.
      let (b, g', s) = p.contracts_kept k a g in
      let (c, g'', t) = q.contracts_kept k b g' in (c, g'', IsSuccessor-trans a b c s t);
  states_kept = λ k g. q.states_kept k (p.states_kept k g);
}
