-- ===== src/State/FreeSpace/Serialize.antt =====
-- The collection in a data node of its own, and back.
pub mod RoundTrip
use private_data_objects.Prelude.{
  ℕ, zero, suc, ◌+◌, ◌-◌, ◌*◌, ◌/◌, ◌%◌, Bool, not, List, [], ◌∷◌, ◌++◌, ByteArray, ◌==◌, ltb, u32,
  if◌then◌else◌,
}
use private_data_objects.Prelude.Slices.{slice}
use private_data_objects.Outcome.{Outcome, ok, err, undefined, runtime_error, throw_if, ◌>>=◌, ◌>>◌}
use private_data_objects.State.Offset.{
  Offset, data_begin_index, data_end_index, advance_block_offset, le_bytes, le_read, to_byte_array,
  deserialize_offset,
}
use private_data_objects.State.DataNode.{DataNode, write_at, read_at}
use private_data_objects.State.FreeSpace.{Item, Collector, collect_deferred}

-- `sizeof(free_space_item_t)`: a packed offset and an unsigned int.
abbrev pub item_size : ℕ
item_size = 12

unfoldable pub item_bytes : Item → ByteArray
unfolding to_byte_array le_bytes
item_bytes it = to_byte_array it.bo ++ le_bytes it.length

-- `*((free_space_item_t*)p)`
unfoldable pub item_read : ByteArray → Outcome Item
unfolding deserialize_offset le_read slice
item_read s = do
  bo ← deserialize_offset s
  length ← le_read (slice s 8 4)
  ok (record { bo = bo; length = length })

-- Items that do not fit are discarded.
unfoldable pub serialize_loop : List Item → DataNode → Offset → Outcome DataNode
serialize_loop [] dn bo = ok dn
serialize_loop (it ∷ rest) dn bo =
    let more = (do
      (_, dn') ← write_at dn (item_bytes it) 0 bo
      serialize_loop rest dn' (advance_block_offset bo item_size)) in
    if ltb dn.free_bytes item_size then ok dn else more

-- Returns the collector, whose deferred item is folded in, and the node.
unfoldable pub serialize_in_data_node : Collector → DataNode → Outcome (Collector × DataNode)
unfolding serialize_loop
serialize_in_data_node c out_dn = do
  c' ← collect_deferred c
  throw_if (not (out_dn.free_bytes == data_end_index - data_begin_index)) runtime_error
  dn ←
      serialize_loop c'.collection out_dn
        (record { block_num = out_dn.block_num; bytes = data_begin_index })
  ok (c', dn)

-- The loop over `bytes_to_read`, a multiple of the size of an item, by the items that are left.
unfoldable pub deserialize_loop : ℕ → DataNode → Offset → List Item → Outcome (List Item)
deserialize_loop zero in_dn bo collection = ok collection
deserialize_loop (suc n) in_dn bo collection = do
  (_, buffer) ← read_at in_dn bo item_size []
  it ← item_read buffer
  deserialize_loop n in_dn (advance_block_offset bo item_size) (collection ++ it ∷ [])

unfoldable pub deserialize_from_data_node : DataNode → Collector → Outcome Collector
unfolding deserialize_loop
deserialize_from_data_node in_dn c = do
  let bytes_to_read = (data_end_index - data_begin_index + u32 - in_dn.free_bytes) % u32
  throw_if (not (bytes_to_read % item_size == 0)) runtime_error
  items ←
      deserialize_loop (bytes_to_read / item_size) in_dn
        (record { block_num = in_dn.block_num; bytes = data_begin_index }) c.collection
  ok (record c { collection = items })
