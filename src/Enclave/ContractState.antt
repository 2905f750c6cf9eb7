-- ===== src/Enclave/ContractState.antt =====
-- contract_state.cpp: the store of a contract, which holds the hash of the contract's id, the contract's
-- keys and the hash of its metadata under privileged keys.
use private_data_objects.Prelude.{ℕ, not, ◌++◌, ByteArray, bytes_eq, replicate}
use private_data_objects.CString.{codes}
use private_data_objects.Outcome.{Outcome, ok, err, value_error, throw_if, ◌>>=◌, ◌>>◌}
use private_data_objects.Platform.{Platform}
use private_data_objects.Crypto.Keys.{Keys}
use private_data_objects.State.KeyValue.{BasicKv, privileged_get, privileged_put}

module _ (p : Platform) (kv : BasicKv p) where
  -- `ContractState`
  pub record ContractState : Type 0 where
    pub input_block_id : ByteArray
    pub output_block_id : ByteArray
    pub state : kv.Handle
    pub metadata_hash : ByteArray

  -- `ContractState::Unpack`: the hash of the contract's id, and the hash of its metadata.
  unfoldable pub unpack_state : ByteArray → kv.Handle → Outcome (ByteArray × kv.Handle)
  unfolding privileged_get
  unpack_state id_hash s = do
    (stored, s₁) ← privileged_get kv (codes "IdHash") s
    throw_if (not (bytes_eq id_hash stored)) value_error
    privileged_get kv (codes "Metadata.Hash") s₁

  -- `ContractState(state_encryption_key, input_block_id, id_hash)`
  unfoldable pub open_state : ByteArray → ByteArray → ByteArray → p.World → Outcome ContractState
  unfolding unpack_state
  open_state state_encryption_key input_block_id id_hash w = do
    s ← kv.open_at input_block_id state_encryption_key w
    (metadata_hash, s') ← unpack_state id_hash s
    ok (record {
      input_block_id = input_block_id;
      output_block_id = replicate 32 0;
      state = s';
      metadata_hash = metadata_hash;
    })

  -- `ContractState::Finalize`, with the state that an exception leaves.
  unfoldable pub finalize_state : ContractState → Outcome (Unit {0}) × ContractState
  finalize_state c =
      let (done, s) = kv.finalize c.state in
      elim done [
        | ok id ↦ (ok tt, record c { state = s; output_block_id = id })
        | err x ↦ (err x, record c { state = s })
      ]

  module _ (k : Keys) where
    -- `ContractState::Initialize`: the hash of the metadata, which are the hash of the id and the public
    -- keys. The draws are those of the two key generations.
    unfoldable pub initialize_state :
        ByteArray → ℕ → ℕ → kv.Handle → Outcome (ByteArray × kv.Handle)
    unfolding privileged_put
    initialize_state id_hash draw₁ draw₂ s = do
      s₁ ← privileged_put kv (codes "IdHash") id_hash s
      sk ← k.make_sig draw₁
      pk ← k.sig_public_of sk
      signing ← k.write_sig_private sk
      verifying ← k.write_sig_public pk
      s₂ ← privileged_put kv (codes "ContractKeys.Signing") signing s₁
      s₃ ← privileged_put kv (codes "ContractKeys.Verifying") verifying s₂
      dk ← k.make_enc draw₂
      ek ← k.enc_public_of dk
      decryption ← k.write_enc_private dk
      encryption ← k.write_enc_public ek
      s₄ ← privileged_put kv (codes "ContractKeys.Decryption") decryption s₃
      s₅ ← privileged_put kv (codes "ContractKeys.Encryption") encryption s₄
      let metadata_hash = p.sha256 (id_hash ++ (verifying ++ encryption))
      s₆ ← privileged_put kv (codes "Metadata.Hash") metadata_hash s₅
      ok (metadata_hash, s₆)

    -- `ContractState(state_encryption_key, id_hash)`
    unfoldable pub create_state : ByteArray → ByteArray → ℕ → ℕ → p.World → Outcome ContractState
    unfolding initialize_state
    create_state state_encryption_key id_hash draw₁ draw₂ w = do
      s ← kv.create state_encryption_key w
      (metadata_hash, s') ← initialize_state id_hash draw₁ draw₂ s
      ok (record {
        input_block_id = replicate 32 0;
        output_block_id = replicate 32 0;
        state = s';
        metadata_hash = metadata_hash;
      })
