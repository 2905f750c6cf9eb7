-- ===== src/State/DataNodeIo.antt =====
-- common/state/data_node_io.cpp: bytes across the blocks, over the cache, and the block that new data are
-- appended to.
pub mod Fuel
use private_data_objects.Prelude.{
  ℕ, zero, suc, ◌+◌, ◌-◌, ◌%◌, Bool, true, false, not, [], ByteArray, ◌==◌, ltb, u32, if◌then◌else◌,
  length, replicate,
}
use private_data_objects.Outcome.{Outcome, ok, err, runtime_error, undefined, throw_if, ◌>>=◌, ◌>>◌}
use private_data_objects.Platform.{Platform}
use private_data_objects.State.Offset.{
  Offset, data_begin_index, data_end_index, advance_block_offset,
}
use private_data_objects.State.DataNode.{
  DataNode, new_data_node, cursor, consume_free_space, write_at, read_at,
}
use private_data_objects.State.Sebio.{Context}
use private_data_objects.State.FreeSpace.{Collector, collect}
use private_data_objects.State.FreeSpace.Serialize.{deserialize_from_data_node}
use private_data_objects.State.StateNode.{
  Formats, StateNode, or_throw, add_block_id, get_last_block_num,
  get_datablock_id_from_datablock_num, remove_block_id_from_datablock_num, deserialize_block_ids,
}
use private_data_objects.State.Cache.{
  Entry, Cache, find, allocate_slot, put, update_entry, done, pin, unpin, mark_modified,
  replacement_policy, retrieve,
}

-- A pointer into a slot of the cache: the number of the block that the slot held when the pointer was
-- taken, and the clock of its entry.
pub record SlotPointer : Type 0 where
  pub block_num : ℕ
  pub clock : ℕ

-- `data_node_io`. The cache has the warehouse that it refers to.
pub record DataNodeIo (p : Platform) : Type 0 where
  pub free_space_collector : Collector
  pub append_dn : SlotPointer
  pub cache : Cache p

module _ {p : Platform} where
  -- `*append_dn_`. Once the block has left the cache the slot is free, or holds another block.
  unfoldable pub append_node : DataNodeIo p → Outcome DataNode
  append_node io = do
    e ← or_throw (find io.append_dn.block_num io.cache.block_cache) undefined
    throw_if (not (e.clock == io.append_dn.clock)) undefined
    ok e.dn

  -- What is written through `append_dn_`.
  unfoldable pub assign_append_node : DataNode → DataNodeIo p → Outcome (DataNodeIo p)
  unfolding append_node
  assign_append_node dn io = do
    _ ← append_node io
    c ← update_entry (λ e. record e { dn = dn }) io.append_dn.block_num io.cache
    ok (record io { cache = c })

  -- The pointer to the block of a number.
  unfoldable pub pointer_to : ℕ → Cache p → Outcome SlotPointer
  pointer_to n c = do
    e ← or_throw (find n c.block_cache) undefined
    ok (record { block_num = n; clock = e.clock })

  unfoldable pub block_offset_for_appending : DataNodeIo p → Outcome Offset
  unfolding append_node cursor
  block_offset_for_appending io = do dn ← append_node io; ok (cursor dn)

  module _ (ctx : Context) where
    unfoldable pub init_append_data_node : DataNodeIo p → Outcome (DataNodeIo p)
    unfolding pointer_to done get_last_block_num
    init_append_data_node io = do
      let n = get_last_block_num io.cache.warehouse
      _ ← get_datablock_id_from_datablock_num n io.cache.warehouse
      c₁ ← retrieve ctx n true io.cache
      append_dn ← pointer_to n c₁
      c₂ ← done n false c₁
      ok (record io { append_dn = append_dn; cache = c₂ })

    -- `initialize`, with the root block that is read.
    unfoldable pub initialize_io :
        Formats → StateNode → DataNodeIo p → Outcome (StateNode × DataNodeIo p)
    unfolding init_append_data_node done
    initialize_io f node io = do
      (node', bw) ← deserialize_block_ids p f node io.cache.warehouse
      let n = get_last_block_num bw
      c₁ ← retrieve ctx n false (record io.cache { warehouse = bw })
      id ← get_datablock_id_from_datablock_num n c₁.warehouse
      e ← or_throw (find n c₁.block_cache) undefined
      collector ←
          deserialize_from_data_node e.dn
            (record io.free_space_collector { original_block_id = id })
      c₂ ← done (get_last_block_num c₁.warehouse) false c₁
      bw' ← remove_block_id_from_datablock_num n c₂.warehouse
      io' ←
          init_append_data_node
            (record io { free_space_collector = collector; cache = record c₂ { warehouse = bw' } })
      ok (node', io')

    unfoldable pub add_and_init_append_data_node : DataNodeIo p → Outcome (DataNodeIo p)
    unfolding append_node pointer_to unpin pin mark_modified get_last_block_num
    add_and_init_append_data_node io = do
      dn ← append_node io
      throw_if (dn.free_bytes == data_end_index - data_begin_index) runtime_error
      let last = get_last_block_num io.cache.warehouse
      c₁ ← unpin last io.cache
      c₂ ← replacement_policy ctx c₁
      let n = (last + 1) % u32
      c₃ ← allocate_slot c₂
      c₄ ← put n (new_data_node n) c₃
      append_dn ← pointer_to n c₄
      c₅ ← pin n c₄
      c₆ ← mark_modified n c₅
      bw ← add_block_id (replicate 32 0) c₆.warehouse
      ok (record io { append_dn = append_dn; cache = record c₆ { warehouse = bw } })

    unfoldable pub consume_add_and_init_append_data_node : DataNodeIo p → Outcome (DataNodeIo p)
    unfolding block_offset_for_appending append_node assign_append_node consume_free_space
        add_and_init_append_data_node
    consume_add_and_init_append_data_node io = do
      bo ← block_offset_for_appending io
      dn ← append_node io
      let consumed = (do
        collector ← collect bo dn.free_bytes io.free_space_collector
        dn' ← consume_free_space dn dn.free_bytes
        assign_append_node dn' (record io { free_space_collector = collector }))
      io' ← if ltb 0 dn.free_bytes then consumed else ok io
      add_and_init_append_data_node io'

    unfoldable pub add_and_init_append_data_node_cond : Bool → DataNodeIo p → Outcome (DataNodeIo p)
    unfolding add_and_init_append_data_node
    add_and_init_append_data_node_cond cond io =
        if cond then add_and_init_append_data_node io else ok io

    unfoldable pub consume_add_and_init_append_data_node_cond :
        Bool → DataNodeIo p → Outcome (DataNodeIo p)
    unfolding consume_add_and_init_append_data_node
    consume_add_and_init_append_data_node_cond cond io =
        if cond then consume_add_and_init_append_data_node io else ok io

    -- One round of the loop of `write_across_data_nodes`: the number of bytes written.
    unfoldable pub write_round : ByteArray → ℕ → Offset → DataNodeIo p → Outcome (ℕ × DataNodeIo p)
    unfolding add_and_init_append_data_node_cond done get_last_block_num
    write_round buffer total bo io = do
      io' ←
          add_and_init_append_data_node_cond
            (ltb (get_last_block_num io.cache.warehouse) bo.block_num) io
      c₁ ← retrieve ctx bo.block_num false io'.cache
      e ← or_throw (find bo.block_num c₁.block_cache) undefined
      (written, dn) ← write_at e.dn buffer total bo
      c₂ ← update_entry (λ e. record e { dn = dn }) bo.block_num c₁
      c₃ ← done bo.block_num (ltb 0 written) c₂
      ok (written, record io' { cache = c₃ })

    unfoldable pub write_loop : ℕ → ByteArray → ℕ → Offset → DataNodeIo p → Outcome (DataNodeIo p)
    unfolding write_round
    write_loop zero buffer total bo io = err undefined
    write_loop (suc fuel) buffer total bo io =
        let more = (do
          (written, io') ← write_round buffer total bo io
          write_loop fuel buffer ((total + written) % u32) (advance_block_offset bo written) io') in
        if ltb total (length buffer) then more else ok io

    -- `write_across_data_nodes`, which does not use `write_from`. Each round but the first writes a byte.
    unfoldable pub write_across_data_nodes :
        ByteArray → ℕ → Offset → DataNodeIo p → Outcome (DataNodeIo p)
    unfolding write_loop
    write_across_data_nodes buffer write_from bo_at io =
        write_loop (length buffer + 2) buffer 0 bo_at io

    -- One round of the loop of `read_across_data_nodes`: the number of bytes read.
    unfoldable pub read_round :
        Offset → ℕ → ByteArray → DataNodeIo p → Outcome (ℕ × ByteArray × DataNodeIo p)
    unfolding done
    read_round bo wanted out io = do
      c₁ ← retrieve ctx bo.block_num false io.cache
      e ← or_throw (find bo.block_num c₁.block_cache) undefined
      (bytes_read, out') ← read_at e.dn bo wanted out
      c₂ ← done bo.block_num false c₁
      ok (bytes_read, out', record io { cache = c₂ })

    unfoldable pub read_loop :
        ℕ → Offset → ℕ → ℕ → ByteArray → DataNodeIo p → Outcome (ByteArray × DataNodeIo p)
    unfolding read_round
    read_loop zero bo length total out io = err undefined
    read_loop (suc fuel) bo length total out io =
        let more = (do
          (bytes_read, out', io') ← read_round bo ((length + u32 - total) % u32) out io
          read_loop fuel (advance_block_offset bo bytes_read) length ((total + bytes_read) % u32)
              out' io') in
        if ltb total length then more else ok (out, io)

    -- `read_across_data_nodes`, with what is appended to the buffer. Each round but the first reads a byte.
    unfoldable pub read_across_data_nodes :
        Offset → ℕ → ByteArray → DataNodeIo p → Outcome (ByteArray × DataNodeIo p)
    unfolding read_loop
    read_across_data_nodes bo_at length out io = read_loop (length + 2) bo_at length 0 out io
