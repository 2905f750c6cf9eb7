-- ===== src/State/DataNode/Transfer.antt =====
-- What is read after a write.
use private_data_objects.Prelude.{
  ◌∙◌, ℕ, ◌-◌, ◌≤◌, ◌<◌, ◌≡◌, refl, ap, sym, arith, u32, ◌++◌, length, ByteArray,
}
use private_data_objects.Prelude.Slices.{overwrite, slice, slice-overwrite_self, length-slice}
use private_data_objects.Outcome.{ok, ◌>>=◌}
use private_data_objects.State.Offset.{Offset}
use private_data_objects.State.Offset.Address.{IsOffset}
use private_data_objects.State.DataNode.{DataNode, write_at, read_at}
use private_data_objects.State.DataNode.Bytes.{
  IsDataNode, fitting, write_at_lem, written-IsDataNode, read_at_lem,
}

module _ {dn : DataNode} (v : IsDataNode dn) {bo : Offset} (o : IsOffset bo) where
  -- In a well formed node, at an offset of its own data bytes, and for a buffer below 4 GB: a read of
  -- as many bytes as a write at that offset reported gives back the bytes written.
  pub read_at-write_at :
      (buffer out : ByteArray) (from : ℕ)
      → dn.block_num ≡ bo.block_num
      → from ≤ length buffer
      → length buffer < u32
      → (write_at dn buffer from bo >>= λ (n, dn'). read_at dn' bo n out)
        ≡ ok (
          fitting (length buffer - from) bo,
          out ++ slice buffer from (fitting (length buffer - from) bo),
        )
  read_at-write_at buffer out from e lo hi =
      let n : ℕ = fitting (length buffer - from) bo in
      let v' = slice buffer from n in
      let len : length v' ≡ n = length-slice buffer from n (omega arith) in
      let again : fitting n bo ≡ n = omega arith in
      let same : slice (overwrite dn.bytes bo.bytes v') bo.bytes n ≡ v' =
        ap (λ k. slice (overwrite dn.bytes bo.bytes v') bo.bytes k) (sym len)
        ∙ slice-overwrite_self dn.bytes bo.bytes v' (omega (arith, v.size, len)) in
      rw (write_at_lem v o buffer from e lo hi)
        (read_at_lem (written-IsDataNode v o buffer from) o n out e ∙ rw (again, same) refl)
