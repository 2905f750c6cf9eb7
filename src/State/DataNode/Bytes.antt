-- ===== src/State/DataNode/Bytes.antt =====
-- Reading and writing inside one block.
use Prim.Native.Nat.{min}
use private_data_objects.Prelude.{
  ◌%◌, ◌∙◌, ℕ, ◌+◌, ◌-◌, ◌≤◌, ◌<◌, ◌≡◌, arith, u32, ◌++◌, length, ByteArray, length-replicate,
}
use private_data_objects.Prelude.Slices.{overwrite, slice, length-overwrite}
use private_data_objects.Outcome.{ok}
use private_data_objects.State.Offset.{Offset, data_begin_index, data_end_index}
use private_data_objects.State.Offset.Address.{IsOffset}
use private_data_objects.State.DataNode.{DataNode, new_data_node, write_at, read_at, transferable}

-- The block has its full size, and its free bytes are data bytes.
pub record IsDataNode (dn : DataNode) : Type 0 where
  pub size : length dn.bytes ≡ data_end_index
  pub block_fits : dn.block_num < u32
  pub free_fits : dn.free_bytes ≤ data_end_index - data_begin_index

pub new_data_node-IsDataNode : (n : ℕ) → n < u32 → IsDataNode (new_data_node n)
unfolding new_data_node
new_data_node-IsDataNode n h = record {
  size = length-replicate data_end_index 0;
  block_fits = h;
  free_fits = omega arith;
}

-- The number of bytes of a request of `n` bytes at `bo` that lie in the block.
abbrev pub fitting : ℕ → Offset → ℕ
fitting n bo = min n (data_end_index - bo.bytes)

-- The node with the fitting bytes of `buffer` from `from` at `bo`, and free only behind them.
abbrev pub written : DataNode → ByteArray → ℕ → Offset → DataNode
written dn buffer from bo =
    let n : ℕ = fitting (length buffer - from) bo in
    record dn {
      bytes = overwrite dn.bytes bo.bytes (slice buffer from n);
      free_bytes = min dn.free_bytes (data_end_index - (bo.bytes + n));
    }

transferable-eq-fitting : (n : ℕ) (bo : Offset) → IsOffset bo → transferable n bo ≡ fitting n bo
transferable-eq-fitting n bo o = ground arith

module _ {dn : DataNode} (v : IsDataNode dn) {bo : Offset} (o : IsOffset bo) where
  -- In a well formed node, at an offset of its own data bytes, and for a buffer below 4 GB: a write
  -- from inside the buffer does not throw, and reports and stores the bytes that fit.
  pub write_at_lem :
      (buffer : ByteArray) (from : ℕ)
      → dn.block_num ≡ bo.block_num
      → from ≤ length buffer
      → length buffer < u32
      → write_at dn buffer from bo
        ≡ ok (fitting (length buffer - from) bo, written dn buffer from bo)
  unfolding write_at
  write_at_lem buffer from e lo hi =
      let wanted : (length buffer + u32 - from) % u32 ≡ length buffer - from = omega arith in
      rw (wanted, transferable-eq-fitting (length buffer - from) bo o) (ground arith)

  pub written-IsDataNode : (buffer : ByteArray) (from : ℕ) → IsDataNode (written dn buffer from bo)
  written-IsDataNode buffer from = record {
    size = length-overwrite dn.bytes bo.bytes _ ∙ v.size;
    block_fits = v.block_fits;
    free_fits = omega (arith, v.free_fits);
  }

  -- A read at an offset of this block does not throw: it appends the bytes that fit.
  pub read_at_lem :
      (n : ℕ) (out : ByteArray)
      → dn.block_num ≡ bo.block_num
      → read_at dn bo n out ≡ ok (fitting n bo, out ++ slice dn.bytes bo.bytes (fitting n bo))
  unfolding read_at
  read_at_lem n out e = rw (transferable-eq-fitting n bo o) (ground (arith, v.size))
