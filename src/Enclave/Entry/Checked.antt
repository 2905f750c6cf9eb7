-- ===== src/Enclave/Entry/Checked.antt =====
-- A request is only run on the state of its contract, with the code that this state holds.
use private_data_objects.Prelude.{
  ◌≡◌, ap, ◌∙◌, sym, not, ℕ, false, ByteArray, arith, bytes_eq, bytes_eq→eq, length, ◌==◌,
}
use mathlib.Core.Path.{subst}
use private_data_objects.CString.{codes}
use private_data_objects.Outcome.{
  ok, ok_injective, value_error, throw_if, throw_if_passed, >>=-eq-ok,
}
use private_data_objects.Platform.{Platform}
use private_data_objects.Crypto.Keys.{Keys}
use private_data_objects.State.KeyValue.{BasicKv, privileged_get}
use private_data_objects.Enclave.Host.{EnclaveHost}
use private_data_objects.Enclave.Code.{ContractCode, fetch_value, fetch_from_state}
use private_data_objects.Enclave.ContractState.{ContractState, unpack_state, open_state}
use private_data_objects.Enclave.Request.Parsed.{IsParsed, parse_update_request_lem}
use private_data_objects.Enclave.Process.{Interpreter}
use private_data_objects.Enclave.Entry.{Session, handle_contract_request}
use private_data_objects.Enclave.Entry.Answered.{IsUpdateAnswer, answered-lem}

module _ (p : Platform) (kv : BasicKv p) where
  -- A value that the store has under a name of the enclave's own, and the store after it was read.
  pub record IsStored (name value : ByteArray) (s s' : kv.Handle) : Type 0 where
    pub found : privileged_get kv name s ≡ ok (value, s')
    pub present : (length value == 0) ≡ false

  fetch_value_lem :
      (name v : ByteArray) (s s' : kv.Handle)
      → fetch_value p kv name s ≡ ok (v, s')
      → IsStored name v s s'
  unfolding fetch_value
  fetch_value_lem name v s s' h =
      let ((v₁, s₁), e₁, h₁) = >>=-eq-ok (privileged_get kv name s) _ h in
      let (u, e₂, h₂) = >>=-eq-ok (throw_if (length v₁ == 0) value_error) _ h₁ in
      let same : (v₁, s₁) ≡ (v, s') = ok_injective h₂ in
      record {
        found = e₁ ∙ ap ok same;
        present =
            ap (λ (r : ByteArray × kv.Handle). length r.0 == 0) (sym same)
            ∙ throw_if_passed (length v₁ == 0) value_error e₂;
      }

  -- The store as it was opened for a request: it has the hash of the contract's id.
  pub record IsOpened (key block_id id_hash : ByteArray) (w : p.World) (c : ContractState p kv)
      : Type 0 where
    pub s : kv.Handle
    pub s₁ : kv.Handle
    pub opened : kv.open_at block_id key w ≡ ok s
    pub owned : privileged_get kv (codes "IdHash") s ≡ ok (id_hash, s₁)
    pub described : privileged_get kv (codes "Metadata.Hash") s₁ ≡ ok (c.metadata_hash, c.state)
    pub input : c.input_block_id ≡ block_id

  pub open_state_lem :
      (key block_id id_hash : ByteArray) (w : p.World) (c : ContractState p kv)
      → open_state p kv key block_id id_hash w ≡ ok c
      → IsOpened key block_id id_hash w c
  unfolding open_state unpack_state
  open_state_lem key block_id id_hash w c h =
      let (s, e₁, h₁) = >>=-eq-ok (kv.open_at block_id key w) _ h in
      let ((m, s'), e₂, h₂) = >>=-eq-ok (unpack_state p kv id_hash s) _ h₁ in
      let ((id, s₁), e₃, h₃) = >>=-eq-ok (privileged_get kv (codes "IdHash") s) _ e₂ in
      let (u, e₄, h₄) = >>=-eq-ok (throw_if (not (bytes_eq id_hash id)) value_error) _ h₃ in
      let checked = throw_if_passed (not (bytes_eq id_hash id)) value_error e₄ in
      let same = bytes_eq→eq id_hash id (ground (arith, checked)) in
      let whole = ok_injective h₂ in
      record {
        s = s;
        s₁ = s₁;
        opened = e₁;
        owned = e₃ ∙ ap (λ (t : ByteArray). ok (t, s₁)) (sym same);
        described = h₄ ∙ ap (λ (c : ContractState p kv). ok (c.metadata_hash, c.state)) whole;
        input = ap (λ (c : ContractState p kv). c.input_block_id) (sym whole);
      }

  -- The code is the one that the store has, and its hash there is the one that was asked for.
  pub record IsFetched (code_hash : ByteArray) (s s' : kv.Handle) (code : ContractCode)
      : Type 0 where
    pub s₁ : kv.Handle
    pub s₂ : kv.Handle
    pub s₃ : kv.Handle
    pub is_code : IsStored (codes "ContractCode.Code") code.code s s₁
    pub is_name : IsStored (codes "ContractCode.Name") code.name s₁ s₂
    pub is_nonce : IsStored (codes "ContractCode.Nonce") code.nonce s₂ s₃
    pub is_hash : IsStored (codes "ContractCode.Hash") code_hash s₃ s'
    pub has_hash : code.code_hash ≡ code_hash

  pub fetch_from_state_lem :
      (code_hash : ByteArray) (s s' : kv.Handle) (code : ContractCode)
      → fetch_from_state p kv code_hash s ≡ ok (code, s')
      → IsFetched code_hash s s' code
  unfolding fetch_from_state
  fetch_from_state_lem code_hash s s' code h =
      let ((c, s₁), e₁, h₁) = >>=-eq-ok (fetch_value p kv (codes "ContractCode.Code") s) _ h in
      let ((n, s₂), e₂, h₂) = >>=-eq-ok (fetch_value p kv (codes "ContractCode.Name") s₁) _ h₁ in
      let ((o, s₃), e₃, h₃) = >>=-eq-ok (fetch_value p kv (codes "ContractCode.Nonce") s₂) _ h₂ in
      let ((d, s₄), e₄, h₄) = >>=-eq-ok (fetch_value p kv (codes "ContractCode.Hash") s₃) _ h₃ in
      let (u, e₅, h₅) = >>=-eq-ok (throw_if (not (bytes_eq d code_hash)) value_error) _ h₄ in
      let checked = throw_if_passed (not (bytes_eq d code_hash)) value_error e₅ in
      let same = bytes_eq→eq d code_hash (ground (arith, checked)) in
      let last = ok_injective h₅ in
      subst (λ (r : ContractCode × kv.Handle). IsFetched code_hash s r.1 r.0) last
        (record {
          s₁ = s₁;
          s₂ = s₂;
          s₃ = s₃;
          is_code = fetch_value_lem (codes "ContractCode.Code") c s s₁ e₁;
          is_name = fetch_value_lem (codes "ContractCode.Name") n s₁ s₂ e₂;
          is_nonce = fetch_value_lem (codes "ContractCode.Nonce") o s₂ s₃ e₃;
          is_hash =
              subst (λ t. IsStored (codes "ContractCode.Hash") t s₃ s₄) same
                (fetch_value_lem (codes "ContractCode.Hash") d s₃ s₄ e₄);
          has_hash = same;
        })

  module _ (k : Keys) (e : EnclaveHost) (i : Interpreter kv) where
    pub record IsChecked (sealed_signup encrypted_key serialized : ByteArray) (draw : ℕ)
        (o o' : Session p kv k e i) : Type 0 where
      pub answer : IsUpdateAnswer p kv k e i sealed_signup encrypted_key serialized draw o o'
      pub parsed : IsParsed p k e answer.request.common
      pub store :
          IsOpened answer.request.common.state_encryption_key answer.request.input_state_hash
            (e.base64_decode answer.request.common.contract_id)
            o.world
            answer.c
      pub code : IsFetched answer.request.code_hash answer.c.state answer.s answer.code

    -- A request that is answered was signed by the originator of its message. The key of the state was
    -- sealed for the contract of the request. The store opened with it, at the state hash of the request,
    -- answered the reads of the enclave's own names, one after the other, with the hash of this
    -- contract's id, some metadata hash, and a code, its name and its nonce, none of them empty, whose
    -- hash there is the code hash of the request; with these the request was processed.
    pub handle_contract_request-IsChecked :
        (sealed_signup encrypted_key serialized : ByteArray) (draw : ℕ) (o o' : Session p kv k e i)
        → handle_contract_request p kv k e i sealed_signup encrypted_key serialized draw o ≡ ok o'
        → IsChecked sealed_signup encrypted_key serialized draw o o'
    handle_contract_request-IsChecked sealed_signup encrypted_key serialized draw o o' h =
        let a = answered-lem p kv k e i sealed_signup encrypted_key serialized draw o o' h in
        let r = parse_update_request_lem p k e a.session_key serialized a.request a.parsed in
        let opened = rw r.id_hash at a.opened in
        record {
          answer = a;
          parsed = r;
          store =
              open_state_lem a.request.common.state_encryption_key a.request.input_state_hash
                (e.base64_decode a.request.common.contract_id) o.world a.c opened;
          code = fetch_from_state_lem a.request.code_hash a.c.state a.s a.code a.fetched;
        }
