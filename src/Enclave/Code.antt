-- ===== src/Enclave/Code.antt =====
-- contract_code.cpp: the code of a contract, which its state holds under privileged keys.
use private_data_objects.Prelude.{not, [], ◌++◌, ByteArray, bytes_eq, ◌==◌, length}
use private_data_objects.CString.{Text, codes}
use private_data_objects.Outcome.{Outcome, ok, value_error, throw_if, ◌>>=◌, ◌>>◌}
use private_data_objects.Platform.{Platform}
use private_data_objects.State.StateNode.{or_throw}
use private_data_objects.State.KeyValue.{BasicKv, privileged_get, privileged_put}
use private_data_objects.Enclave.Host.{CodeDocument}

-- `ContractCode`
pub record ContractCode : Type 0 where
  pub code : Text
  pub name : Text
  pub nonce : Text
  pub code_hash : ByteArray

abbrev pub no_code : ContractCode
no_code = record { code = []; name = []; nonce = []; code_hash = [] }

module _ (p : Platform) where
  -- The hash of the code and its name, and the hash of the nonce, hashed together.
  unfoldable pub compute_code_hash : Text → Text → Text → ByteArray
  compute_code_hash code name nonce = p.sha256 (p.sha256 (code ++ name) ++ p.sha256 nonce)

  -- `ContractCode::Unpack`
  unfoldable pub unpack_code : CodeDocument → Outcome ContractCode
  unfolding compute_code_hash
  unpack_code document = do
    code ← or_throw document.code value_error
    name ← or_throw document.name value_error
    nonce ← or_throw document.nonce value_error
    ok (record {
      code = code;
      name = name;
      nonce = nonce;
      code_hash = compute_code_hash code name nonce;
    })

  module _ (kv : BasicKv p) where
    -- A value that has to be in the state.
    unfoldable pub fetch_value : ByteArray → kv.Handle → Outcome (ByteArray × kv.Handle)
    unfolding privileged_get
    fetch_value key s = do
      (v, s') ← privileged_get kv key s
      throw_if (length v == 0) value_error
      ok (v, s')

    -- `ContractCode::FetchFromState`
    unfoldable pub fetch_from_state : ByteArray → kv.Handle → Outcome (ContractCode × kv.Handle)
    unfolding fetch_value
    fetch_from_state code_hash s = do
      (code, s₁) ← fetch_value (codes "ContractCode.Code") s
      (name, s₂) ← fetch_value (codes "ContractCode.Name") s₁
      (nonce, s₃) ← fetch_value (codes "ContractCode.Nonce") s₂
      (hash, s₄) ← fetch_value (codes "ContractCode.Hash") s₃
      throw_if (not (bytes_eq hash code_hash)) value_error
      ok (record { code = code; name = name; nonce = nonce; code_hash = hash }, s₄)

    -- `ContractCode::SaveToState`
    unfoldable pub save_to_state : ContractCode → kv.Handle → Outcome kv.Handle
    unfolding privileged_put
    save_to_state c s = do
      s₁ ← privileged_put kv (codes "ContractCode.Code") c.code s
      s₂ ← privileged_put kv (codes "ContractCode.Name") c.name s₁
      s₃ ← privileged_put kv (codes "ContractCode.Nonce") c.nonce s₂
      privileged_put kv (codes "ContractCode.Hash") c.code_hash s₃
