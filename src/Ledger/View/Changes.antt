-- ===== src/Ledger/View/Changes.antt =====
-- The three ways in which a handler changes the tables keep them sound, and extend them.
use private_data_objects.Prelude.{
  ◌≡◌, ◌⊎◌, inl, inr, false, arith, List, none, some, bytes_eq, bytes_eq_refl, bytes_eq→eq,
  Bool-cases,
}
use private_data_objects.Ledger.Records.{Text, EnclaveInfo, ContractInfo, ContractStateInfo}
use private_data_objects.Ledger.Tables.{lookup, insert, lookup-insert}
use private_data_objects.Ledger.Enclaves.{is_none}
use private_data_objects.Ledger.Updates.{ccl_key}
use private_data_objects.Ledger.View.{
  View, IsSoundContract, IsSound, IsSuccessor, IsSuccessor-refl, Extends,
}

module _ {ℓ} {V : Type ℓ} where
  pub lookup-insert_same :
      (k : Text) (v : V) (m : List (Text × V)) → lookup k (insert k v m) ≡ some v
  lookup-insert_same k v m = ground (arith, lookup-insert k k v m, bytes_eq_refl k)

  -- An entry is the new one, or was there.
  pub lookup-insert_cases :
      (k j : Text) (v w : V) (m : List (Text × V))
      → lookup j (insert k v m) ≡ some w
      → ((k ≡ j) × (v ≡ w)) ⊎ (lookup j m ≡ some w)
  lookup-insert_cases k j v w m e = ground (arith, e, lookup-insert k j v m, bytes_eq→eq k j)

  lookup-insert_new :
      (k j : Text) (v w : V) (m : List (Text × V))
      → lookup k m ≡ none
      → lookup j m ≡ some w
      → lookup j (insert k v m) ≡ some w
  lookup-insert_new k j v w m n e = ground (arith, n, e, lookup-insert k j v m, bytes_eq→eq k j)

  has-insert :
      (k j : Text) (v : V) (m : List (Text × V))
      → is_none (lookup j m) ≡ false
      → is_none (lookup j (insert k v m)) ≡ false
  has-insert k j v m e = ground (arith, e, lookup-insert k j v m)

abbrev pub with_enclave : Text → EnclaveInfo → View → View
with_enclave k e v = record v { enclaves = insert k e v.enclaves }

abbrev pub with_contract : Text → ContractInfo → View → View
with_contract id info v = record v { contracts = insert id info v.contracts }

abbrev pub with_state : Text → ContractStateInfo → View → View
with_state k s v = record v { ccl = insert k s v.ccl }

pub IsSound-with_enclave :
    (v : View) (e : EnclaveInfo) → IsSound v → IsSound (with_enclave e.verifying_key e v)
IsSound-with_enclave v e s = record {
  enclave_named = λ k f g. elim (lookup-insert_cases e.verifying_key k e f v.enclaves g) [
    | inl (p, q) ↦ ground (arith, p, q)
    | inr g' ↦ s.enclave_named k f g'
  ];
  contract_sound = λ id info g.
      let c = s.contract_sound id info g in
      record {
        named = c.named;
        active = c.active;
        registered = λ i m. has-insert e.verifying_key i e v.enclaves (c.registered i m);
        distinct = c.distinct;
        recorded = c.recorded;
      };
}

pub Extends-with_enclave :
    (v : View) (k : Text) (e : EnclaveInfo)
    → lookup k v.enclaves ≡ none
    → Extends v (with_enclave k e v)
Extends-with_enclave v k e n = record {
  enclaves_kept = λ j f g. lookup-insert_new k j e f v.enclaves n g;
  contracts_kept = λ j a g. (a, g, IsSuccessor-refl a);
  states_kept = λ j g. g;
}

pub IsSound-with_contract :
    (v : View) (id : Text) (info : ContractInfo)
    → IsSoundContract v id info
    → IsSound v
    → IsSound (with_contract id info v)
IsSound-with_contract v id info c s = record {
  enclave_named = s.enclave_named;
  contract_sound = λ j a g.
      let d : IsSoundContract v j a = elim (lookup-insert_cases id j info a v.contracts g) [
        | inl (p, q) ↦ let c' : IsSoundContract v j info = rw p at c in rw q at c'
        | inr g' ↦ s.contract_sound j a g'
      ] in
      record {
        named = d.named;
        active = d.active;
        registered = d.registered;
        distinct = d.distinct;
        recorded = d.recorded;
      };
}

-- A contract is new, or follows the one that is there.
pub Extends-with_contract :
    (v : View) (id : Text) (info : ContractInfo)
    → ((a : ContractInfo) → lookup id v.contracts ≡ some a → IsSuccessor a info)
    → Extends v (with_contract id info v)
Extends-with_contract v id info f = record {
  enclaves_kept = λ j e g. g;
  contracts_kept = λ j a g. elim (Bool-cases (bytes_eq id j)) [
    | inl e ↦
        let same : id ≡ j = bytes_eq→eq id j e in
        let found : lookup id v.contracts ≡ some a = rw same g in
        let here : lookup j (insert id info v.contracts) ≡ some info =
          ground (arith, e, lookup-insert id j info v.contracts) in
        (info, here, f a found)
    | inr e ↦
        let there : lookup j (insert id info v.contracts) ≡ some a =
          ground (arith, e, g, lookup-insert id j info v.contracts) in
        (a, there, IsSuccessor-refl a)
  ];
  states_kept = λ j g. g;
}

pub IsSound-with_state :
    (v : View) (k : Text) (x : ContractStateInfo) → IsSound v → IsSound (with_state k x v)
IsSound-with_state v k x s = record {
  enclave_named = s.enclave_named;
  contract_sound = λ id info g.
      let c = s.contract_sound id info g in
      record {
        named = c.named;
        active = c.active;
        registered = c.registered;
        distinct = c.distinct;
        recorded = λ n. has-insert k (ccl_key id info.current_state_hash) x v.ccl (c.recorded n);
      };
}

pub Extends-with_state :
    (v : View) (k : Text) (x : ContractStateInfo) → Extends v (with_state k x v)
Extends-with_state v k x = record {
  enclaves_kept = λ j e g. g;
  contracts_kept = λ j a g. (a, g, IsSuccessor-refl a);
  states_kept = λ j g. has-insert k j x v.ccl g;
}
