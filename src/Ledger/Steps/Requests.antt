-- ===== src/Ledger/Steps/Requests.antt =====
-- Every request that is answered by success has the effect that `Effect` allows.
use private_data_objects.Prelude.{
  ◌≡◌, refl, inl, inr, ℕ, Bool, true, false, not, ◌&&◌, arith, [], some, ByteArray, bytes_eq,
  Option-cases,
}
use private_data_objects.Ledger.Records.{Text, Measurements}
use private_data_objects.Ledger.Host.{Host}
use private_data_objects.Ledger.Reply.{
  Reply, success, ◌>>=◌, require, expect, >>=-eq-success, contract_not_found, not_initialized,
}
use private_data_objects.Ledger.Tables.{Ledger, get_globally_committed}
use private_data_objects.Ledger.Attestation.{
  set_contract_enclave_attestation_check_flag, set_contract_enclave_expected_sgx_measurements,
}
use private_data_objects.Ledger.Signing.{
  KeyStatus, gen_signing_key, load_signer, get_ledger_key, ensure_signer,
}
use private_data_objects.Ledger.Enclaves.Registered.{register_enclave_success}
use private_data_objects.Ledger.Contracts.Members.{register_contract_success, add_enclave_success}
use private_data_objects.Ledger.Updates.Accepted.{
  initialize_contract_state_success, update_contract_state_success,
}
use private_data_objects.Ledger.View.{Extends-refl}
use private_data_objects.Ledger.Queries.{
  EnclaveAnswer, ProvisioningAnswer, ContractAnswer, StateAnswer, DetailsAnswer, verify_enclave,
  get_contract_provisioning_info, get_contract_info, get_current_state_info_for_contract,
  get_details_about_state,
}
use private_data_objects.Ledger.Steps.{
  Request, new_state, handle, set_flag, set_measurements, gen_key, get_key, enclave_registration,
  contract_registration, enclave_addition, initialization, update, enclave_query,
  provisioning_query, contract_query, state_query, details_query,
}
use private_data_objects.Ledger.Steps.Effect.{
  current_view, Effect, Effect-signer, ensure_signer_success, Effect-IsSignerOf,
}
use private_data_objects.Ledger.Steps.Handlers.{
  Effect-register_enclave, Effect-register_contract, Effect-add_enclave, Effect-initialize,
  Effect-update,
}

module _ (h : Host) where
  Effect-set_flag :
      (b : Bool) (l : Ledger h) (r : Bool × Ledger h)
      → set_contract_enclave_attestation_check_flag h b l ≡ success r
      → Effect l r.1
  unfolding set_contract_enclave_attestation_check_flag
  Effect-set_flag b l r e = elim (Option-cases l.check_attestation.current) [
    | inl n ↦
        let a : Effect l
            (record l { check_attestation = record l.check_attestation { current = some b } }) =
          record {
            sound = λ s. s;
            extends = λ _. Extends-refl (current_view l);
            committed_same = refl;
            flag_same = refl;
            signer_same = refl;
            flag_kept = λ c g. absurd (ground (arith, n, g));
            signer_kept = λ k g. g;
            cache_sound = λ c. c;
            local_sound = λ c. c;
          } in
        let w : r.1
            ≡ record l { check_attestation = record l.check_attestation { current = some b } } =
          ground (arith, n, e) in
        rw w a
    | inr (c, n) ↦ absurd (ground (arith, n, e))
  ]

  Effect-set_measurements :
      (m : Measurements) (l : Ledger h) (r : Bool × Ledger h)
      → set_contract_enclave_expected_sgx_measurements h m l ≡ success r
      → Effect l r.1
  unfolding set_contract_enclave_expected_sgx_measurements
  Effect-set_measurements m l r e =
      let a : Effect l (record l { measurements = record l.measurements { current = some m } }) =
        record {
          sound = λ s. s;
          extends = λ _. Extends-refl (current_view l);
          committed_same = refl;
          flag_same = refl;
          signer_same = refl;
          flag_kept = λ c g. g;
          signer_kept = λ k g. g;
          cache_sound = λ c. c;
          local_sound = λ c. c;
        } in
      let w : r.1 ≡ record l { measurements = record l.measurements { current = some m } } =
        elim (Option-cases l.check_attestation.committed) [
          | inl c ↦ absurd (ground (arith, c, e))
          | inr (true, c) ↦ ground (arith, c, e)
          | inr (false, c) ↦ absurd (ground (arith, c, e))
        ] in
      rw w a

  Effect-gen_key :
      (n : ℕ) (l : Ledger h) (r : KeyStatus × Ledger h)
      → gen_signing_key h n l ≡ success r
      → Effect l r.1
  unfolding gen_signing_key
  Effect-gen_key n l r e =
      let same : Effect l l = Effect-signer l l l.ledger_signer_local refl (λ ok. ok) in
      elim (Option-cases l.signer.committed) [
        | inr (k, c) ↦ let w : r.1 ≡ l = ground (arith, c, e) in rw w same
        | inl c ↦ elim (Option-cases l.signer.current) [
          | inr (k, d) ↦ let w : r.1 ≡ l = ground (arith, c, d, e) in rw w same
          | inl d ↦ elim (Option-cases (h.make_key_pair n)) [
            | inl m ↦ absurd (ground (arith, c, d, m, e))
            | inr (keys, m) ↦
                let a : Effect l (record l { signer = record l.signer { current = some keys } }) =
                  record {
                    sound = λ s. s;
                    extends = λ _. Extends-refl (current_view l);
                    committed_same = refl;
                    flag_same = refl;
                    signer_same = refl;
                    flag_kept = λ b g. g;
                    signer_kept = λ k g. absurd (ground (arith, d, g));
                    cache_sound = λ s. s;
                    local_sound = λ s. s;
                  } in
                let w : r.1 ≡ record l { signer = record l.signer { current = some keys } } =
                  ground (arith, c, d, m, e) in
                rw w a
          ]
        ]
      ]

  Effect-get_key :
      (l : Ledger h) (r : Text × Ledger h) → get_ledger_key h l ≡ success r → Effect l r.1
  unfolding get_ledger_key load_signer
  Effect-get_key l r e = elim (Option-cases l.signer.committed) [
    | inl c ↦ elim (Option-cases l.signer.current) [
      | inl d ↦ absurd (ground (arith, c, d, e))
      | inr (k, d) ↦ absurd (ground (arith, c, d, e))
    ]
    | inr (keys, c) ↦ elim (Option-cases l.ledger_signer_local) [
      | inr (s, n) ↦ Effect-IsSignerOf l r.1 s (inl (n, (ground (arith, c, n, e))))
      | inl n ↦ elim (Option-cases (h.signer_of_pem keys.privk)) [
        | inl m ↦ absurd (ground (arith, c, n, m, e))
        | inr (s, m) ↦ Effect-IsSignerOf l r.1 s (inr (keys, c, m, (ground (arith, c, n, m, e))))
      ]
    ]
  ]

  -- A read handler ends with the signer that it signed by.
  Effect-query {ℓ} :
      {A B : Type ℓ} (l : Ledger h) (known : Reply A) (answer : A → h.Signer → B) (r : B × Ledger h)
      → (known >>= λ a. ensure_signer h l >>= λ (s, l'). success (answer a s, l')) ≡ success r
      → Effect l r.1
  Effect-query l known answer r e =
      let (a, found, e₁) = >>=-eq-success known _ e in
      let (s, made, e₂) = >>=-eq-success (ensure_signer h l) _ e₁ in
      let w : r.1 ≡ s.1 = ground (arith, e₂) in
      rw w (Effect-IsSignerOf l s.1 s.0 (ensure_signer_success l s made))

  Effect-verify_enclave :
      (id : Text) (l : Ledger h) (r : EnclaveAnswer × Ledger h)
      → verify_enclave h id l ≡ success r
      → Effect l r.1
  unfolding verify_enclave
  Effect-verify_enclave id l r e = Effect-query l _ _ r e

  Effect-provisioning :
      (id : Text) (l : Ledger h) (r : ProvisioningAnswer × Ledger h)
      → get_contract_provisioning_info h id l ≡ success r
      → Effect l r.1
  unfolding get_contract_provisioning_info
  Effect-provisioning id l r e = Effect-query l _ _ r e

  Effect-contract_info :
      (id : Text) (l : Ledger h) (r : ContractAnswer × Ledger h)
      → get_contract_info h id l ≡ success r
      → Effect l r.1
  unfolding get_contract_info
  Effect-contract_info id l r e = Effect-query l _ _ r e

  Effect-state_info :
      (id : Text) (l : Ledger h) (r : StateAnswer × Ledger h)
      → get_current_state_info_for_contract h id l ≡ success r
      → Effect l r.1
  unfolding get_current_state_info_for_contract
  Effect-state_info id l r e =
      let (info, found, e₁) =
        >>=-eq-success (expect (get_globally_committed l.contracts id) contract_not_found) _ e in
      let (_, there, e₂) =
        >>=-eq-success
          (require (not (info.is_active && bytes_eq info.current_state_hash [])) not_initialized) _
          e₁ in
      let (s, made, e₃) = >>=-eq-success (ensure_signer h l) _ e₂ in
      let w : r.1 ≡ s.1 = ground (arith, e₃) in
      rw w (Effect-IsSignerOf l s.1 s.0 (ensure_signer_success l s made))

  Effect-details :
      (id : Text) (hash : ByteArray) (l : Ledger h) (r : DetailsAnswer × Ledger h)
      → get_details_about_state h id hash l ≡ success r
      → Effect l r.1
  unfolding get_details_about_state
  Effect-details id hash l r e = Effect-query l _ _ r e

  Effect-new_state {ℓ} :
      {A : Type ℓ} (m : Reply (A × Ledger h)) (l l' : Ledger h)
      → ((r : A × Ledger h) → m ≡ success r → Effect l r.1)
      → new_state m ≡ success l'
      → Effect l l'
  Effect-new_state m l l' f e =
      let (r, s, e') = >>=-eq-success m _ e in let w : l' ≡ r.1 = ground (arith, e') in rw w (f r s)

  -- What a request does that is answered by success.
  pub handle-Effect : (q : Request) (l l' : Ledger h) → handle h q l ≡ success l' → Effect l l'
  unfolding handle
  handle-Effect (set_flag b) l l' = Effect-new_state _ l l' (Effect-set_flag b l)
  handle-Effect (set_measurements m) l l' = Effect-new_state _ l l' (Effect-set_measurements m l)
  handle-Effect (gen_key n) l l' = Effect-new_state _ l l' (Effect-gen_key n l)
  handle-Effect get_key l l' = Effect-new_state _ l l' (Effect-get_key l)
  handle-Effect (enclave_registration x) l l' =
      Effect-new_state _ l l'
        (λ r e. Effect-register_enclave h x l r.1 (register_enclave_success h x l r e))
  handle-Effect (contract_registration x) l l' =
      Effect-new_state _ l l'
        (λ r e. Effect-register_contract h x l r.1 (register_contract_success h x l r e))
  handle-Effect (enclave_addition x) l l' =
      Effect-new_state _ l l' (λ r e. Effect-add_enclave h x l r.1 (add_enclave_success h x l r e))
  handle-Effect (initialization x) l l' =
      Effect-new_state _ l l'
        (λ r e. Effect-initialize h x l r.1 (initialize_contract_state_success h x l r e))
  handle-Effect (update x) l l' =
      Effect-new_state _ l l'
        (λ r e. Effect-update h x l r.1 (update_contract_state_success h x l r e))
  handle-Effect (enclave_query id) l l' = Effect-new_state _ l l' (Effect-verify_enclave id l)
  handle-Effect (provisioning_query id) l l' = Effect-new_state _ l l' (Effect-provisioning id l)
  handle-Effect (contract_query id) l l' = Effect-new_state _ l l' (Effect-contract_info id l)
  handle-Effect (state_query id) l l' = Effect-new_state _ l l' (Effect-state_info id l)
  handle-Effect (details_query id s) l l' = Effect-new_state _ l l' (Effect-details id s l)
