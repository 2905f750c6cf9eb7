-- ===== src/State/DataNode/Persist.antt =====
-- `load` and `unload` of data_node.cpp: a block in the untrusted store is its header and its data,
-- encrypted under the state encryption key, and is named by the hash of what is stored.
use private_data_objects.Prelude.{◌≡◌, inl, inr, arith, ByteArray}
use private_data_objects.Prelude.Slices.{overwrite-prefix}
use private_data_objects.Outcome.{Outcome, ok, value_error, throw_if, ◌>>=◌, ◌>>◌, Outcome-cases}
use private_data_objects.Platform.{Platform, IsCryptoLawful, IsStoreHonest}
use private_data_objects.Crypto.Skenc.{encrypt_message, decrypt_message, decrypt-encrypt}
use private_data_objects.State.Offset.{
  make_offset, serialized_offset_to_block_num, serialized_offset_to_bytes,
}
use private_data_objects.State.Sebio.{
  Context, no_crypto, sebio_fetch, sebio_evict, sebio_fetch-sebio_evict, is_failure,
}
use private_data_objects.State.DataNode.{DataNode, serialize_data_header, deserialize_data}
use private_data_objects.State.DataNode.Bytes.{IsDataNode}

module _ (p : Platform) (ctx : Context) where
  -- `load`: the block that `originalEncryptedDataNodeId_` names replaces the node's data.
  unfoldable pub load : DataNode → ByteArray → p.World → Outcome DataNode
  unfolding deserialize_data
  load dn key w = do
    (status, encrypted) ← sebio_fetch p ctx dn.original_id no_crypto w
    throw_if (is_failure status) value_error
    plain ← decrypt_message p key encrypted
    deserialize_data plain dn

  -- `unload`: returns the new identity and the node, whose header and identity have changed.
  unfoldable pub unload : DataNode → ByteArray → p.World → Outcome (ByteArray × DataNode × p.World)
  unfolding serialize_data_header
  unload dn key w = do
    let dn' = serialize_data_header dn
    (encrypted, w') ← encrypt_message p key dn'.bytes w
    (status, id, w'') ← sebio_evict p ctx encrypted no_crypto w'
    throw_if (is_failure status) value_error
    ok (id, record dn' { original_id = id }, w'')

header_round_trip :
    (dn : DataNode)
    → IsDataNode dn
    → (other : DataNode)
    → deserialize_data (serialize_data_header dn).bytes other
      ≡ ok (record other {
        bytes = (serialize_data_header dn).bytes;
        block_num = dn.block_num;
        free_bytes = dn.free_bytes;
      })
unfolding serialize_data_header deserialize_data make_offset serialized_offset_to_block_num
    serialized_offset_to_bytes
header_round_trip dn v other =
    let (r, e) =
      overwrite-prefix dn.bytes (make_offset dn.block_num dn.free_bytes) (omega (arith, v.size)) in
    rw e (ground (arith, v.block_fits, v.free_fits))

module _ (p : Platform) (lawful : IsCryptoLawful p) (honest : IsStoreHonest p) (ctx : Context) where
  -- With lawful libraries and an honest store, a well formed block that was unloaded loads into any
  -- node that names it, with the data, the block number and the free bytes that it had.
  pub load-unload :
      (dn dn' other : DataNode) (key id : ByteArray) (w w' : p.World)
      → IsDataNode dn
      → unload p ctx dn key w ≡ ok (id, dn', w')
      → load p ctx (record other { original_id = id }) key w' ≡ ok dn'
  unfolding load unload
  load-unload dn dn' other key id w w' v h =
      let plain : ByteArray = (serialize_data_header dn).bytes in
      elim (Outcome-cases (encrypt_message p key plain w)) [
        | inl ((sealed, u), e) ↦ elim (Outcome-cases (sebio_evict p ctx sealed no_crypto u)) [
          | inl ((status, i, u'), f) ↦ ground (
            arith,
            e,
            f,
            sebio_fetch-sebio_evict p honest ctx sealed i u u',
            decrypt-encrypt p lawful key plain sealed w u,
            header_round_trip dn v (record other { original_id = id }),
          )
          | inr (x, f) ↦ ground (arith, e, f)
        ]
        | inr (x, e) ↦ ground (arith, e)
      ]
