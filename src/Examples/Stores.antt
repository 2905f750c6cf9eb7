-- ===== src/Examples/Stores.antt =====
-- Runs of the key-value store: values that are put are read back, also after it was finalized and opened.
use private_data_objects.Prelude.{
  ◌≡◌, refl, true, false, arith, [], ◌∷◌, ByteArray, length, replicate, bytes_eq, rev_append,
}
use private_data_objects.Prelude.Slices.{overwrite, slice}
use private_data_objects.Outcome.{Outcome, ok, err, ◌>>=◌}
use private_data_objects.Crypto.Skenc.{encrypt_message_iv, encrypt_message, decrypt_message}
use private_data_objects.Ledger.Tables.{lookup, insert}
use private_data_objects.State.Offset.{
  offset_eq, is_empty, precedes, advance_block_offset, le_bytes, le_read, to_byte_array,
  make_offset, serialized_offset_to_block_num, serialized_offset_to_bytes, deserialize_offset,
}
use private_data_objects.State.DataNode.{
  new_data_node, cursor, serialize_data_header, deserialize_data, consume_free_space, write_at,
  read_at,
}
use private_data_objects.State.DataNode.Persist.{load, unload}
use private_data_objects.State.Sebio.{Context, no_crypto, sebio_fetch, sebio_evict}
use private_data_objects.State.FreeSpace.{
  are_adjacent, merge_previous, merge_current, insert_free_space_item, collect_loop, do_collect,
  collect_deferred, collect, first_fit, allocate,
}
use private_data_objects.State.FreeSpace.Serialize.{
  item_bytes, item_read, serialize_loop, serialize_in_data_node, deserialize_loop,
  deserialize_from_data_node,
}
use private_data_objects.State.StateNode.{
  new_state_node, update_datablock_id, add_block_id, remove_block_id_from_datablock_num,
  get_datablock_id_from_datablock_num, get_last_block_num, append_ids, append_child_id,
  clear_children, cumulative_hash, blockify_children, unblockify_loop, unblockify_children,
  serialize_block_ids, deserialize_block_ids,
}
use private_data_objects.State.Cache.{
  find, assign, erase, begin, candidate, most_recent, allocate_slot, release_slot, drop_entry, put,
  update_entry, done, pin, unpin, mark_modified, sync_entry, flush_entry, flush_loop, flush,
  replacement_policy_mru, replacement_loop, replacement_policy, fetch_block, retrieve,
}
use private_data_objects.State.DataNodeIo.{
  DataNodeIo, append_node, assign_append_node, pointer_to, block_offset_for_appending,
  init_append_data_node, initialize_io, add_and_init_append_data_node,
  consume_add_and_init_append_data_node, add_and_init_append_data_node_cond,
  consume_add_and_init_append_data_node_cond, write_round, write_loop, write_across_data_nodes,
  read_round, read_loop, read_across_data_nodes,
}
use private_data_objects.State.Trie.{
  NodeData, empty_trie_header, header_byte, read_header, node_bytes, read_node_bytes,
  shared_prefix_length, create_node, read_trie_node, find_space, write_trie_node,
  delete_trie_node_childless, do_split_trie_node, init_trie_root,
}
use private_data_objects.State.Trie.Values.{
  size_bytes, read_size, first_byte, do_read_value_info, do_read_value, do_delete_value,
  do_write_value,
}
use private_data_objects.State.DataNodeIo.Fuel.{across_data_nodes-fuel}
use private_data_objects.State.Trie.Layout.{IsNodeData, read_node_bytes-node_bytes}
use private_data_objects.State.Trie.Reads.{Reads}
use private_data_objects.State.Trie.Lookup.{get-Reads}
use private_data_objects.State.Trie.Operate.{
  get_op, relink, ready_node, operate_node, visit, descend, leave_node, ascend,
  operate_trie_non_recursive,
}
use private_data_objects.State.StateKv.{
  StateKv, kv_uninitialized, new_data_node_io, create_kv, open_kv, store_collection, store_root,
  finalize_kv, get_kv, put_kv, delete_kv, state_kv,
}
use private_data_objects.State.KeyValue.{
  BasicKv, to_privileged_key, to_unprivileged_key, privileged_get, privileged_put, unprivileged_put,
}
use private_data_objects.Examples.Libraries.{libraries}
use private_data_objects.Examples.Memory.{formats}

program : Unit {0}
unfolding bytes_eq replicate overwrite slice lookup insert encrypt_message_iv encrypt_message
    decrypt_message offset_eq is_empty precedes advance_block_offset le_bytes le_read to_byte_array
    make_offset serialized_offset_to_block_num serialized_offset_to_bytes deserialize_offset
    new_data_node cursor serialize_data_header deserialize_data consume_free_space write_at read_at
    load unload sebio_fetch sebio_evict are_adjacent merge_previous merge_current
    insert_free_space_item collect_loop do_collect collect_deferred collect first_fit allocate
    item_bytes item_read serialize_loop serialize_in_data_node deserialize_loop
    deserialize_from_data_node update_datablock_id add_block_id remove_block_id_from_datablock_num
    get_datablock_id_from_datablock_num get_last_block_num append_ids append_child_id clear_children
    cumulative_hash blockify_children unblockify_loop unblockify_children serialize_block_ids
    deserialize_block_ids find assign erase begin candidate most_recent allocate_slot release_slot
    drop_entry put update_entry done pin unpin mark_modified sync_entry flush_entry flush_loop flush
    replacement_policy_mru replacement_loop replacement_policy fetch_block retrieve append_node
    assign_append_node pointer_to block_offset_for_appending init_append_data_node initialize_io
    add_and_init_append_data_node consume_add_and_init_append_data_node
    add_and_init_append_data_node_cond consume_add_and_init_append_data_node_cond write_round
    write_loop write_across_data_nodes read_round read_loop read_across_data_nodes header_byte
    read_header node_bytes read_node_bytes shared_prefix_length create_node read_trie_node
    find_space write_trie_node delete_trie_node_childless do_split_trie_node init_trie_root
    size_bytes read_size first_byte do_read_value_info do_read_value do_delete_value do_write_value
    relink ready_node operate_node visit descend leave_node ascend operate_trie_non_recursive
    create_kv open_kv store_collection store_root finalize_kv get_kv put_kv delete_kv
    to_privileged_key to_unprivileged_key privileged_get privileged_put unprivileged_put
program = tt

abbrev ctx : Context
ctx = record { key = []; algo = no_crypto }

abbrev memory : NodeData
memory = record {
  hdr = empty_trie_header;
  next_offset = record { block_num = 0; bytes = 0 };
  child_offset = record { block_num = 0; bytes = 0 };
  key_chunk = replicate 15 0;
}

abbrev key : ByteArray
key = replicate 16 1

-- Two keys with a common begin, one of which is the begin of the other.
branching : Outcome (ByteArray × ByteArray × ByteArray)
branching = do
  kv ← create_kv {p = libraries} ctx formats memory key []
  kv₁ ← put_kv ctx formats 20 memory (1 ∷ 2 ∷ 3 ∷ []) (5 ∷ []) kv
  kv₂ ← put_kv ctx formats 20 memory (1 ∷ 2 ∷ 4 ∷ []) (6 ∷ 6 ∷ []) kv₁
  kv₃ ← put_kv ctx formats 20 memory (1 ∷ 2 ∷ []) (7 ∷ []) kv₂
  (v₁, kv₄) ← get_kv ctx formats 20 memory (1 ∷ 2 ∷ 3 ∷ []) kv₃
  (v₂, kv₅) ← get_kv ctx formats 20 memory (1 ∷ 2 ∷ 4 ∷ []) kv₄
  (v₃, _) ← get_kv ctx formats 20 memory (1 ∷ 2 ∷ []) kv₅
  ok (v₁, v₂, v₃)

branching_lem : branching ≡ ok (5 ∷ [], 6 ∷ 6 ∷ [], 7 ∷ [])
unfolding program branching
branching_lem = refl

-- A value over the end of a block is read back after the store was finalized and opened.
reopened : Outcome (ByteArray × ByteArray)
reopened = do
  kv ← create_kv {p = libraries} ctx formats memory key []
  kv₁ ← put_kv ctx formats 20 memory (1 ∷ 2 ∷ 3 ∷ []) (replicate 9000 5) kv
  kv₂ ← put_kv ctx formats 20 memory (1 ∷ 4 ∷ []) (6 ∷ []) kv₁
  (id, kv₃) ← finalize_kv ctx formats kv₂
  kv₄ ← open_kv {p = libraries} ctx formats id key kv₃.dn_io.cache.world
  (v₁, kv₅) ← get_kv ctx formats 20 memory (1 ∷ 2 ∷ 3 ∷ []) kv₄
  (v₂, _) ← get_kv ctx formats 20 memory (1 ∷ 4 ∷ []) kv₅
  ok (v₁, v₂)

deleted : Outcome (ByteArray × ByteArray)
deleted = do
  kv ← create_kv {p = libraries} ctx formats memory key []
  kv₁ ← put_kv ctx formats 20 memory (1 ∷ 2 ∷ 3 ∷ []) (5 ∷ 5 ∷ []) kv
  kv₂ ← put_kv ctx formats 20 memory (1 ∷ 4 ∷ []) (6 ∷ []) kv₁
  kv₃ ← delete_kv ctx formats 20 memory (1 ∷ 2 ∷ 3 ∷ []) kv₂
  (v₁, kv₄) ← get_kv ctx formats 20 memory (1 ∷ 2 ∷ 3 ∷ []) kv₃
  (v₂, _) ← get_kv ctx formats 20 memory (1 ∷ 4 ∷ []) kv₄
  ok (v₁, v₂)

reopened_lem : reopened ≡ ok (replicate 9000 5, 6 ∷ [])
unfolding program reopened
reopened_lem = refl

deleted_lem : deleted ≡ ok ([], 6 ∷ [])
unfolding program deleted rev_append
deleted_lem = refl

abbrev store : BasicKv libraries
store = state_kv ctx formats (λ kv. kv) 20 memory

-- What is found at first under a privileged key, and after a contract writes a value over an empty one.
overwritten : Outcome (ByteArray × ByteArray)
overwritten = do
  kv ← create_kv {p = libraries} ctx formats memory key []
  kv₁ ← privileged_put store (1 ∷ []) (replicate 32 1) kv
  kv₂ ← unprivileged_put store (9 ∷ []) (7 ∷ []) kv₁
  kv₃ ← privileged_put store (1 ∷ []) (replicate 40 1) kv₂
  kv₄ ← unprivileged_put store (9 ∷ []) [] kv₃
  kv₅ ← privileged_put store (2 ∷ []) (replicate 100 1) kv₄
  kv₆ ← privileged_put store (1 ∷ []) (9 ∷ 9 ∷ []) kv₅
  (before, kv₇) ← privileged_get store (1 ∷ []) kv₆
  kv₈ ← unprivileged_put store (9 ∷ []) (5 ∷ []) kv₇
  (after, _) ← privileged_get store (1 ∷ []) kv₈
  ok (before, after)

overwritten_lem : overwritten ≡ ok (9 ∷ 9 ∷ [], [])
unfolding program overwritten rev_append
overwritten_lem = refl

abbrev no_store : StateKv libraries
no_store = record {
  root_node = new_state_node;
  state_encryption_key = key;
  kv_start_mode = kv_uninitialized;
  dn_io = new_data_node_io key [];
}

abbrev or_no_store : Outcome (StateKv libraries) → StateKv libraries
or_no_store (ok kv) = kv
or_no_store (err x) = no_store

-- A store with two values.
abbrev two_values : StateKv libraries
two_values = or_no_store (
    create_kv ctx formats memory key []
    >>= put_kv ctx formats 20 memory (1 ∷ 2 ∷ 3 ∷ []) (5 ∷ [])
    >>= put_kv ctx formats 20 memory (1 ∷ 4 ∷ []) (6 ∷ []))

abbrev filled : DataNodeIo libraries
filled = two_values.dn_io

abbrev after_get : DataNodeIo libraries
after_get = elim (operate_trie_non_recursive ctx 20 memory get_op (1 ∷ 4 ∷ []) filled) [
  | ok (v, io) ↦ io
  | err x ↦ filled
]

get-Reads_example :
    Reads ctx filled after_get
    × (after_get.free_space_collector ≡ filled.free_space_collector)
    × (after_get.append_dn ≡ filled.append_dn)
unfolding program rev_append
get-Reads_example = get-Reads ctx 20 memory (1 ∷ 4 ∷ []) (6 ∷ []) filled after_get refl

across_data_nodes-fuel_example :
    (write_loop ctx 100 (1 ∷ 2 ∷ []) 0 (record { block_num = 0; bytes = 8191 }) filled
      ≡ write_across_data_nodes ctx (1 ∷ 2 ∷ []) 0 (record { block_num = 0; bytes = 8191 }) filled)
    × (read_loop ctx 100 (record { block_num = 0; bytes = 8191 }) 3 0 [] filled
        ≡ read_across_data_nodes ctx (record { block_num = 0; bytes = 8191 }) 3 [] filled)
across_data_nodes-fuel_example =
    across_data_nodes-fuel ctx 100 (1 ∷ 2 ∷ []) [] 0 3 (record { block_num = 0; bytes = 8191 })
      filled (omega arith) (omega arith) (omega arith) (omega arith) (omega arith)

abbrev a_node : NodeData
a_node = record {
  hdr = record {
    is_deleted = false;
    has_next = true;
    has_child = true;
    is_value = false;
    key_chunk_size = 3;
  };
  next_offset = record { block_num = 1; bytes = 40 };
  child_offset = record { block_num = 70000; bytes = 8000 };
  key_chunk = 1 ∷ 2 ∷ 3 ∷ replicate 12 0;
}

a_node-IsNodeData : IsNodeData a_node
unfolding replicate
a_node-IsNodeData = record {
  chunk_size = omega arith;
  chunk = refl;
  next_block = omega arith;
  next_bytes = omega arith;
  child_block = omega arith;
  child_bytes = omega arith;
}

read_node_bytes-node_bytes_example :
    (length (node_bytes a_node) ≡ 32) × (read_node_bytes (node_bytes a_node) ≡ ok a_node)
read_node_bytes-node_bytes_example = read_node_bytes-node_bytes a_node a_node-IsNodeData
