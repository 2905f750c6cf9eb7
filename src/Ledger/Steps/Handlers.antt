-- ===== src/Ledger/Steps/Handlers.antt =====
-- Every handler has the effect that `Effect` allows.
use private_data_objects.Prelude.{
  ◌≡◌, refl, sym, ◌∙◌, inl, inr, true, false, arith, List, [], ◌∷◌, ◌++◌, some, ByteArray,
  bytes_eq→eq, append-nil, append_assoc,
}
use private_data_objects.Ledger.Records.{
  Text, ContractInfo, ContractEnclaveInfo, ContractStateInfo, RegisterEnclave, RegisterContract,
  AddEnclave, InitializeState, UpdateState,
}
use private_data_objects.Ledger.Host.{Host}
use private_data_objects.Ledger.Tables.{Ledger, get, put, lookup, insert}
use private_data_objects.Ledger.Enclaves.{is_none}
use private_data_objects.Ledger.Enclaves.Registered.{IsRegistered}
use private_data_objects.Ledger.Contracts.{is_enclave_in, new_contract}
use private_data_objects.Ledger.Contracts.Members.{
  IsContractRegistered, AreMembers, AreAdded, are_distinct, is_enclave_in-append, are_distinct-snoc,
}
use private_data_objects.Ledger.Updates.{ccl_key, record_state}
use private_data_objects.Ledger.Updates.Accepted.{IsInitialized, IsUpdated}
use private_data_objects.Ledger.View.{IsSuccessor, Extends-trans}
use private_data_objects.Ledger.View.Changes.{
  with_contract, with_state, IsSound-with_enclave, IsSound-with_contract, IsSound-with_state,
  Extends-with_enclave, Extends-with_contract, Extends-with_state, lookup-insert_cases,
  lookup-insert_same,
}
use private_data_objects.Ledger.Steps.Effect.{current_view, Effect, Effect-view}

module _ (h : Host) where
  pub Effect-register_enclave :
      (x : RegisterEnclave) (l l' : Ledger h) → IsRegistered h x l l' → Effect l l'
  unfolding get put
  Effect-register_enclave x l l' r =
      let k = x.info.verifying_key in
      let v = current_view l in
      let a : Effect l (record l {
        enclaves = put l.enclaves k x.info;
        enclave_pubk_verifier = insert k r.verifier l.enclave_pubk_verifier;
      }) =
        record {
          sound = IsSound-with_enclave v x.info;
          extends = λ _. Extends-with_enclave v k x.info r.new;
          committed_same = refl;
          flag_same = refl;
          signer_same = refl;
          flag_kept = λ b g. g;
          signer_kept = λ s g. g;
          cache_sound = λ c j w g.
              elim (lookup-insert_cases k j r.verifier w l.enclave_pubk_verifier g) [
                | inl (p, q) ↦ ground (arith, p, q, r.key)
                | inr g' ↦ c j w g'
              ];
          local_sound = λ c. c;
        } in
      rw r.written a

  pub Effect-register_contract :
      (x : RegisterContract) (l l' : Ledger h) → IsContractRegistered h x l l' → Effect l l'
  unfolding get put is_enclave_in are_distinct
  Effect-register_contract x l l' r =
      let v = current_view l in
      let info = new_contract x in
      let a : Effect l (record l { contracts = put l.contracts x.contract_id info }) =
        Effect-view l (with_contract x.contract_id info v)
          (IsSound-with_contract v x.contract_id info (record {
            named = refl;
            active = refl;
            registered = λ e m. ground (arith, m);
            distinct = refl;
            recorded = λ n. absurd (n refl);
          }))
          (λ _. Extends-with_contract v x.contract_id info (λ a g. ground (arith, g, r.new))) in
      rw r.written a

  abbrev AreAllRegistered : List ContractEnclaveInfo → Ledger h → Type 0
  AreAllRegistered es l =
      (e : Text) → is_enclave_in e es ≡ true → is_none (lookup e l.enclaves.current) ≡ false

  members_sound :
      (id : Text) (l : Ledger h) (info : ContractInfo) (es : List ContractEnclaveInfo)
      → AreMembers h id l info es
      → AreAllRegistered info.enclave_info l
      → are_distinct info.enclave_info ≡ true
      → AreAllRegistered (info.enclave_info ++ es) l
        × (are_distinct (info.enclave_info ++ es) ≡ true)
  unfolding get is_enclave_in
  members_sound id l info [] m r d =
      let same = append-nil info.enclave_info in ((λ e g. r e (rw same at g)), rw same d)
  members_sound id l info (f ∷ es) (m, ms) r d =
      let with_f = info.enclave_info ++ f ∷ [] in
      let r' : AreAllRegistered with_f l = λ e g. ground (
        arith,
        g,
        r e,
        m.registered,
        is_enclave_in-append e info.enclave_info (f ∷ []),
        bytes_eq→eq e f.contract_enclave_id,
      ) in
      let d' : are_distinct with_f ≡ true = are_distinct-snoc info.enclave_info f d m.new in
      rw (sym (append_assoc info.enclave_info (f ∷ []) es))
        (members_sound id l (record info { enclave_info = with_f }) es ms r' d')

  pub Effect-add_enclave : (x : AddEnclave) (l l' : Ledger h) → AreAdded h x l l' → Effect l l'
  unfolding get put
  Effect-add_enclave x l l' r =
      let v = current_view l in
      let info = r.info in
      let info' = record info { enclave_info = info.enclave_info ++ r.enclaves } in
      let a : Effect l (record l { contracts = put l.contracts x.contract_id info' }) =
        Effect-view l (with_contract x.contract_id info' v)
          (λ s.
            let c = s.contract_sound x.contract_id info r.contract in
            let (registered, distinct) =
              members_sound x.contract_id l info r.enclaves r.members c.registered c.distinct in
            IsSound-with_contract v x.contract_id info'
              (record {
                named = c.named;
                active = c.active;
                registered = registered;
                distinct = distinct;
                recorded = c.recorded;
              })
              s)
          (λ _. Extends-with_contract v x.contract_id info' (λ b g.
            let same : info ≡ b = ground (arith, g, r.contract) in
            let t : IsSuccessor info info' = record {
              same_id = refl;
              same_code = refl;
              same_creator = refl;
              same_services = refl;
              added = r.enclaves;
              enclaves = refl;
            } in
            rw (sym same) t)) in
      rw r.written a

  -- The state of a contract and its place in `ccl`, as both state handlers write them.
  Effect-record_state :
      (id : Text) (state_hash : ByteArray) (state : ContractStateInfo) (info info' : ContractInfo)
      (l l' : Ledger h)
      → get l.contracts id ≡ some info
      → IsSuccessor info info'
      → info'.enclave_info ≡ info.enclave_info
      → info'.is_active ≡ info.is_active
      → info'.current_state_hash ≡ state_hash
      → l' ≡ record_state h id state_hash state info' l
      → Effect l l'
  unfolding get put
  Effect-record_state id state_hash state info info' l l' found t members active hash e =
      let v = current_view l in
      let key = ccl_key id state_hash in
      let w = with_state key state v in
      let a : Effect l (record_state h id state_hash state info' l) =
        Effect-view l (with_contract id info' w)
          (λ s.
            let c = (IsSound-with_state v key state s).contract_sound id info found in
            IsSound-with_contract w id info'
              (record {
                named = t.same_id ∙ c.named;
                active = active ∙ c.active;
                registered = rw members c.registered;
                distinct = rw members c.distinct;
                recorded = λ _. rw hash (ground (arith, lookup-insert_same key state v.ccl));
              })
              (IsSound-with_state v key state s))
          (λ _. Extends-trans v w (with_contract id info' w) (Extends-with_state v key state) (
            Extends-with_contract w id info'
              (λ b g. let same : info ≡ b = ground (arith, g, found) in rw (sym same) t))) in
      rw e a

  pub Effect-initialize :
      (x : InitializeState) (l l' : Ledger h) → IsInitialized h x l l' → Effect l l'
  Effect-initialize x l l' r =
      let t : IsSuccessor r.info (record r.info {
        current_state_hash = x.initial_state_hash;
        contract_metadata_hash = x.metadata_hash;
      }) =
        record {
          same_id = refl;
          same_code = refl;
          same_creator = refl;
          same_services = refl;
          added = [];
          enclaves = sym (append-nil r.info.enclave_info);
        } in
      Effect-record_state x.contract_id x.initial_state_hash _ r.info _ l l' r.contract t refl refl
        refl r.written

  pub Effect-update : (x : UpdateState) (l l' : Ledger h) → IsUpdated h x l l' → Effect l l'
  Effect-update x l l' r =
      let t : IsSuccessor r.info
          (record r.info { current_state_hash = r.update.current_state_hash }) =
        record {
          same_id = refl;
          same_code = refl;
          same_creator = refl;
          same_services = refl;
          added = [];
          enclaves = sym (append-nil r.info.enclave_info);
        } in
      Effect-record_state r.update.contract_id r.update.current_state_hash _ r.info _ l l'
        r.contract t refl refl refl r.written
