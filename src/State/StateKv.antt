-- ===== src/State/StateKv.antt =====
-- common/state/state_kv.cpp: the key-value store, from its parts.
use private_data_objects.Prelude.{ℕ, Bool, true, false, ◌||◌, [], ByteArray, ltb, if◌then◌else◌}
use private_data_objects.Outcome.{
  Outcome, ok, err, runtime_error, value_error, throw_if, ◌>>=◌, ◌>>◌,
}
use private_data_objects.State.KeyValue.{BasicKv}
use private_data_objects.Platform.{Platform}
use private_data_objects.State.DataNode.{new_data_node}
use private_data_objects.State.DataNode.Persist.{unload}
use private_data_objects.State.Sebio.{Context, no_crypto, is_failure, sebio_fetch, sebio_evict}
use private_data_objects.State.FreeSpace.{new_collector}
use private_data_objects.State.FreeSpace.Serialize.{serialize_in_data_node}
use private_data_objects.State.StateNode.{
  Formats, StateNode, new_state_node, add_block_id, serialize_block_ids,
}
use private_data_objects.State.Cache.{new_cache, pin, flush}
use private_data_objects.State.DataNodeIo.{
  DataNodeIo, append_node, assign_append_node, init_append_data_node, initialize_io,
  add_and_init_append_data_node,
}
use private_data_objects.State.Trie.{NodeData, init_trie_root}
use private_data_objects.State.Trie.Operate.{get_op, put_op, del_op, operate_trie_non_recursive}

-- `kv_start_mode`
pub data StartMode : Type 0 where
  kv_uninitialized kv_create kv_open : StartMode

abbrev is_uninitialized : StartMode → Bool
is_uninitialized kv_uninitialized = true
is_uninitialized _ = false

abbrev is_create : StartMode → Bool
is_create kv_create = true
is_create _ = false

-- `State_KV`
pub record StateKv (p : Platform) : Type 0 where
  pub root_node : StateNode
  pub state_encryption_key : ByteArray
  pub kv_start_mode : StartMode
  pub dn_io : DataNodeIo p

-- `data_node_io(key)`. The pointer to the append node is not set yet.
abbrev pub new_data_node_io : {p : Platform} → ByteArray → p.World → DataNodeIo p
new_data_node_io key w = record {
  free_space_collector = new_collector;
  append_dn = record { block_num = 0; clock = 0 };
  cache = new_cache (record { block_ids = []; state_encryption_key = key }) w;
}

module _ {p : Platform} (ctx : Context) (f : Formats) where
  -- `State_KV(key)`
  unfoldable pub create_kv : NodeData → ByteArray → p.World → Outcome (StateKv p)
  unfolding init_trie_root init_append_data_node pin
  create_kv memory key w = do
    let io : DataNodeIo p = new_data_node_io key w
    (dn_id, _, w₁) ← unload p ctx (new_data_node 0) key io.cache.world
    bw ← add_block_id dn_id io.cache.warehouse
    io₁ ←
        init_append_data_node ctx
          (record io { cache = record io.cache { warehouse = bw; world = w₁ } })
    io₂ ← init_trie_root ctx memory io₁
    c ← pin 0 io₂.cache
    ok (record {
      root_node = new_state_node;
      state_encryption_key = key;
      kv_start_mode = kv_create;
      dn_io = record io₂ { cache = c };
    })

  -- `State_KV(id, key)`
  unfoldable pub open_kv : ByteArray → ByteArray → p.World → Outcome (StateKv p)
  unfolding initialize_io
  open_kv id key w = do
    (status, block) ← sebio_fetch p ctx id no_crypto w
    throw_if (is_failure status) value_error
    (root, io) ←
        initialize_io ctx f (record new_state_node { block_id = id; state_block = block })
          (new_data_node_io key w)
    ok (record {
      root_node = root;
      state_encryption_key = key;
      kv_start_mode = kv_open;
      dn_io = io;
    })

  -- The free space collection, in a block of its own, or the identity of the block that it came from.
  unfoldable pub store_collection : StartMode → DataNodeIo p → Outcome (DataNodeIo p)
  unfolding append_node assign_append_node add_and_init_append_data_node
  store_collection mode io =
      let stored = (do
        io₁ ← add_and_init_append_data_node ctx io
        dn ← append_node io₁
        (collector, dn') ← serialize_in_data_node io₁.free_space_collector dn
        assign_append_node dn' (record io₁ { free_space_collector = collector })) in
      let kept = (do
        bw ← add_block_id io.free_space_collector.original_block_id io.cache.warehouse
        ok (record io { cache = record io.cache { warehouse = bw } })) in
      if is_create mode || io.free_space_collector.is_collection_modified then stored else kept

  -- The root block, where a block was written.
  unfoldable pub store_root : StateNode → DataNodeIo p → Outcome (StateNode × DataNodeIo p)
  store_root root io =
      let stored = (do
        let node = serialize_block_ids p f io.cache.warehouse root
        (status, id, w) ← sebio_evict p ctx node.state_block no_crypto io.cache.world
        throw_if (is_failure status) value_error
        ok (record node { block_id = id }, record io { cache = record io.cache { world = w } })) in
      if ltb 0 io.cache.synced_entries then stored else ok (root, io)

  -- `Finalize`
  unfoldable pub finalize_kv : StateKv p → Outcome (ByteArray × StateKv p)
  unfolding store_collection store_root
  finalize_kv kv = do
    throw_if (is_uninitialized kv.kv_start_mode) runtime_error
    io₁ ← store_collection kv.kv_start_mode kv.dn_io
    c ← flush ctx io₁.cache
    (root, io₂) ← store_root kv.root_node (record io₁ { cache = c })
    ok (root.block_id, record kv { root_node = root; dn_io = io₂ })

  -- `Get`, `Put` and `Delete`
  unfoldable pub get_kv : ℕ → NodeData → ByteArray → StateKv p → Outcome (ByteArray × StateKv p)
  unfolding operate_trie_non_recursive
  get_kv fuel memory key kv = do
    (value, io) ← operate_trie_non_recursive ctx fuel memory get_op key kv.dn_io
    ok (value, record kv { dn_io = io })

  unfoldable pub put_kv : ℕ → NodeData → ByteArray → ByteArray → StateKv p → Outcome (StateKv p)
  unfolding operate_trie_non_recursive
  put_kv fuel memory key value kv = do
    (_, io) ← operate_trie_non_recursive ctx fuel memory (put_op value) key kv.dn_io
    ok (record kv { dn_io = io })

  unfoldable pub delete_kv : ℕ → NodeData → ByteArray → StateKv p → Outcome (StateKv p)
  unfolding operate_trie_non_recursive
  delete_kv fuel memory key kv = do
    (_, io) ← operate_trie_non_recursive ctx fuel memory del_op key kv.dn_io
    ok (record kv { dn_io = io })

  -- `State_KV` as the `Basic_KV` of the enclave. The rounds of the way down and the memory of a new node
  -- are arguments, and so is what an exception of `Finalize` leaves of the store.
  module _ (left : StateKv p → StateKv p) (fuel : ℕ) (memory : NodeData) where
    abbrev pub state_kv : BasicKv p
    state_kv = record {
      Handle = StateKv p;
      world = λ kv. kv.dn_io.cache.world;
      create = create_kv memory;
      open_at = open_kv;
      finalize =
          λ kv. elim (finalize_kv kv) [ ok (id, kv') ↦ (ok id, kv') | err x ↦ (err x, left kv) ];
      get = get_kv fuel memory;
      put = put_kv fuel memory;
      delete = delete_kv fuel memory;
    }
