-- ===== src/Ledger/Steps/Node.antt =====
-- The members that a node keeps outside the tables, and what the handlers can answer by them.
use private_data_objects.Prelude.{
  ◌≡◌, ◌≢◌, refl, Bool, true, false, arith, List, [], ◌∷◌, some, Option-cases, inl, inr,
}
use private_data_objects.Ledger.Records.{
  Text, ContractInfo, ContractEnclaveInfo, InitializeState, UpdateState, AddEnclave,
}
use private_data_objects.Ledger.Host.{Host}
use private_data_objects.Ledger.Reply.{success, error, contract_inactive}
use private_data_objects.Ledger.Tables.{Ledger, new_ledger, get}
use private_data_objects.Ledger.Contracts.{add_enclave, is_nil}
use private_data_objects.Ledger.Contracts.Members.{add_enclave_success, AreMembers}
use private_data_objects.Ledger.Signatures.{
  verify_creator_signature_initialize_contract_state, verify_sig,
}
use private_data_objects.Ledger.Updates.{
  enclave_verifier, initialize_contract_state, update_contract_state,
}
use private_data_objects.Ledger.Updates.Accepted.{
  initialize_contract_state_success, update_contract_state_success,
}
use private_data_objects.Ledger.Steps.{Reach, restart}
use private_data_objects.Ledger.Steps.Kept.{Reach-IsConsistent, empty_lookup}

module _ {h : Host} where
  no_members :
      (id : Text) (l : Ledger h) (info : ContractInfo) (es : List ContractEnclaveInfo)
      → is_nil es ≡ false
      → l.enclave_pubk_verifier ≡ []
      → ¬ AreMembers h id l info es
  no_members id l info [] n e m = cc
  no_members id l info (f ∷ es) n e (m, _) =
      empty_lookup m.enclave.verifying_key m.verifier (rw e at m.cached)

  is_active-eq :
      (l : Ledger h) (id : Text) (info : ContractInfo)
      → Reach h (new_ledger {h = h}) l
      → get l.contracts id ≡ some info
      → info.is_active ≡ true
  unfolding get
  is_active-eq l id info r g = ((Reach-IsConsistent l r).sound.contract_sound id info g).active

  initialize-not_inactive :
      (l : Ledger h) (x : InitializeState)
      → Reach h (new_ledger {h = h}) l
      → initialize_contract_state h x l ≢ error contract_inactive
  unfolding initialize_contract_state enclave_verifier
      verify_creator_signature_initialize_contract_state verify_sig
  initialize-not_inactive l x r e = elim (Option-cases (get l.contracts x.contract_id)) [
    | inl n ↦ ground (arith, e, n)
    | inr (info, g) ↦ let a = is_active-eq l x.contract_id info r g in ground (arith, e, g, a)
  ]

  update-not_inactive :
      (l : Ledger h) (x : UpdateState)
      → Reach h (new_ledger {h = h}) l
      → update_contract_state h x l ≢ error contract_inactive
  unfolding update_contract_state enclave_verifier
  update-not_inactive l x r e = elim (Option-cases (h.parse_state_update x.state_update_info)) [
    | inl n ↦ ground (arith, e, n)
    | inr (u, p) ↦ elim (Option-cases (get l.contracts u.contract_id)) [
      | inl n ↦ ground (arith, e, n, p)
      | inr (info, g) ↦ let a = is_active-eq l u.contract_id info r g in ground (arith, e, g, a, p)
    ]
  ]

  -- In no state that a node reaches does `initialize_contract_state` or `update_contract_state`
  -- answer that the contract is inactive.
  pub contract_inactive_unreachable :
      (l : Ledger h) (x : InitializeState) (y : UpdateState)
      → Reach h (new_ledger {h = h}) l
      → (initialize_contract_state h x l ≢ error contract_inactive)
        × (update_contract_state h y l ≢ error contract_inactive)
  contract_inactive_unreachable l x y r = (initialize-not_inactive l x r, update-not_inactive l y r)

  -- Right after a restart, whatever the request and whatever the tables hold, a node answers no
  -- `initialize_contract_state`, no `update_contract_state` and no `add_enclave` by success.
  pub restart-accepts_none :
      (l : Ledger h) (x : InitializeState) (y : UpdateState) (z : AddEnclave) (r : Bool × Ledger h)
      → (initialize_contract_state h x (restart h l) ≢ success r)
        × (update_contract_state h y (restart h l) ≢ success r)
        × (add_enclave h z (restart h l) ≢ success r)
  restart-accepts_none l x y z r = (
    (λ e.
        let i = initialize_contract_state_success h x (restart h l) r e in
        empty_lookup i.by_enclave.enclave.verifying_key i.by_enclave.verifier i.by_enclave.cached),
    (λ e.
        let u = update_contract_state_success h y (restart h l) r e in
        empty_lookup u.by_enclave.enclave.verifying_key u.by_enclave.verifier u.by_enclave.cached),
    (λ e.
        let a = add_enclave_success h z (restart h l) r e in
        no_members z.contract_id (restart h l) a.info a.enclaves a.not_empty refl a.members),
  )
