-- ===== src/State/DataNode.antt =====
-- common/state/data_node.cpp: one block of 8 KB, a header of two words and then data bytes.
pub mod Bytes
pub mod Transfer
pub mod Persist
use private_data_objects.Prelude.{
  ℕ, ◌+◌, ◌-◌, ◌%◌, not, [], ByteArray, ◌==◌, leb, ltb, u32, if◌then◌else◌, length, replicate, ◌++◌,
}
use private_data_objects.Prelude.Slices.{overwrite, slice}
use private_data_objects.Outcome.{Outcome, ok, err, undefined, runtime_error, throw_if, ◌>>=◌, ◌>>◌}
use private_data_objects.State.Offset.{
  Offset, fixed_data_node_byte_size, data_begin_index, data_end_index, make_offset,
  serialized_offset_to_block_num, serialized_offset_to_bytes,
}

-- `data_node`
pub record DataNode : Type 0 where
  pub bytes : ByteArray
  pub original_id : ByteArray
  pub block_num : ℕ
  pub free_bytes : ℕ

-- The constructor: `data_` is value-initialised, so the bytes are zero.
unfoldable pub new_data_node : ℕ → DataNode
new_data_node block_num = record {
  bytes = replicate fixed_data_node_byte_size 0;
  original_id = [];
  block_num = block_num;
  free_bytes = data_end_index - data_begin_index;
}

unfoldable pub cursor : DataNode → Offset
cursor dn = record {
  block_num = dn.block_num;
  bytes = (data_end_index + u32 - dn.free_bytes) % u32;
}

unfoldable pub serialize_data_header : DataNode → DataNode
serialize_data_header dn = record dn {
  bytes = overwrite dn.bytes 0 (make_offset dn.block_num dn.free_bytes);
}

-- What `decrypt_and_deserialize_data` does with the decrypted bytes.
unfoldable pub deserialize_data : ByteArray → DataNode → Outcome DataNode
deserialize_data plain dn = do
  block_num ← serialized_offset_to_block_num plain
  free_bytes ← serialized_offset_to_bytes plain
  ok (record dn { bytes = plain; block_num = block_num; free_bytes = free_bytes })

unfoldable pub consume_free_space : DataNode → ℕ → Outcome DataNode
consume_free_space dn len = do
  throw_if (ltb dn.free_bytes len) runtime_error
  ok (record dn { free_bytes = dn.free_bytes - len })

-- As many bytes as the block takes from `at`: all of them, or up to the block's end.
abbrev pub transferable : ℕ → Offset → ℕ
transferable wanted bo_at =
    let room : ℕ = (data_end_index + u32 - bo_at.bytes) % u32 in
    if leb wanted room then wanted else room

-- Returns the number of bytes written beside the node. A copy past the end of a vector is
-- undefined.
unfoldable pub write_at : DataNode → ByteArray → ℕ → Offset → Outcome (ℕ × DataNode)
write_at dn buffer write_from bo_at = do
  throw_if (not (dn.block_num == bo_at.block_num)) runtime_error
  let bytes_to_write = transferable ((length buffer + u32 - write_from) % u32) bo_at
  throw_if (ltb (length buffer) (write_from + bytes_to_write)) undefined
  throw_if (ltb (length dn.bytes) (bo_at.bytes + bytes_to_write)) undefined
  let at = (bo_at.bytes + bytes_to_write) % u32
  let old_cursor = (data_end_index + u32 - dn.free_bytes) % u32
  ok (
    bytes_to_write,
    record dn {
      bytes = overwrite dn.bytes bo_at.bytes (slice buffer write_from bytes_to_write);
      free_bytes = if leb old_cursor at then (data_end_index + u32 - at) % u32 else dn.free_bytes;
    },
  )

-- Returns the number of bytes read beside the grown buffer.
unfoldable pub read_at : DataNode → Offset → ℕ → ByteArray → Outcome (ℕ × ByteArray)
read_at dn bo_at bytes out = do
  throw_if (not (dn.block_num == bo_at.block_num)) runtime_error
  let bytes_to_read = transferable bytes bo_at
  throw_if (ltb (length dn.bytes) (bo_at.bytes + bytes_to_read)) undefined
  ok (bytes_to_read, out ++ slice dn.bytes bo_at.bytes bytes_to_read)
