-- ===== src/State/Trie/Operate.antt =====
-- `operate_trie_non_recursive` of common/state/trie.cpp: the way down through the trie with a stack of the
-- nodes that were passed, and the way up, which writes the nodes that changed.
use private_data_objects.Prelude.{
  ℕ, zero, suc, ◌+◌, ◌-◌, ◌%◌, Bool, true, false, ◌&&◌, ◌||◌, List, [], ◌∷◌, Option, none, some,
  ByteArray, ◌==◌, ltb, u32, if◌then◌else◌, length, replicate,
}
use private_data_objects.Prelude.Slices.{slice}
use private_data_objects.Outcome.{Outcome, ok, err, undefined, ◌>>=◌}
use private_data_objects.Platform.{Platform}
use private_data_objects.State.Offset.{
  Offset, empty_block_offset, data_begin_index, offset_eq, is_empty,
}
use private_data_objects.State.Sebio.{Context}
use private_data_objects.State.DataNodeIo.{DataNodeIo}
use private_data_objects.State.Trie.{
  NodeData, TrieNode, new_trie_node, empty_trie_header, shared_prefix_length, create_node,
  read_trie_node, write_trie_node, delete_trie_node_childless, do_split_trie_node,
}
use private_data_objects.State.Trie.Values.{do_read_value, do_delete_value, do_write_value}

-- `kv_operation_e`, with the value that is put.
pub data Operation : Type 0 where
  get_op : Operation
  put_op : ByteArray → Operation
  del_op : Operation

abbrev pub is_put : Operation → Bool
is_put (put_op value) = true
is_put _ = false

abbrev pub is_del : Operation → Bool
is_del del_op = true
is_del _ = false

-- `recursive_item`
pub record RecursiveItem : Type 0 where
  pub node : TrieNode
  pub go_next : Bool

-- An item that is added to the stack has zeros in its node.
abbrev pub new_item : Offset → RecursiveItem
new_item location = record {
  node =
      record (new_trie_node (record {
        hdr = empty_trie_header;
        next_offset = empty_block_offset;
        child_offset = empty_block_offset;
        key_chunk = replicate 15 0;
      })) { location = location };
  go_next = false;
}

-- What the node that was left does to the one before it in the stack.
unfoldable pub relink : TrieNode → RecursiveItem → RecursiveItem
unfolding offset_eq
relink popped prev =
    let n = prev.node in
    if prev.go_next
    then (if offset_eq n.node.next_offset popped.location then prev else record prev {
      node = record n { node = record n.node { next_offset = popped.location }; modified = true };
    })
    else (if offset_eq n.node.child_offset popped.location then prev else record prev {
      node = record n { node = record n.node { child_offset = popped.location }; modified = true };
    })

-- What a step of the way down leads to: another step, at a depth; the end, on the matching node; or nothing,
-- when the function returns at once.
pub data Step (p : Platform) : Type 0 where
  onward : ℕ → List RecursiveItem → DataNodeIo p → Step p
  finished : List RecursiveItem → ByteArray → DataNodeIo p → Step p
  absent : DataNodeIo p → Step p

module _ {p : Platform} (ctx : Context) where
  -- The node of an item: none where there is none and none is made.
  unfoldable pub ready_node :
      Operation → ByteArray → ℕ → TrieNode → DataNodeIo p → Outcome (Option TrieNode × DataNodeIo p)
  unfolding is_empty create_node read_trie_node
  ready_node operation kvkey depth node io =
      let loaded = (do (node', io') ← read_trie_node ctx node.location io; ok (some node', io')) in
      let made =
        if is_put operation
        then some (create_node kvkey depth (length kvkey % u32) node)
        else none in
      if node.initialized
      then ok (some node, io)
      else if is_empty node.location
      then ok (made, io)
      else loaded

  -- The operation on the node that ends the key: the value that is read.
  unfoldable pub operate_node :
      Operation → TrieNode → DataNodeIo p → Outcome (TrieNode × ByteArray × DataNodeIo p)
  unfolding do_read_value do_delete_value do_write_value
  operate_node get_op node io = do
    (out_value, io') ← do_read_value ctx node io
    ok (node, out_value, io')
  operate_node (put_op value) node io = do
    (node', io') ← do_write_value ctx node value io
    ok (node', [], io')
  operate_node del_op node io = do (node', io') ← do_delete_value ctx node io; ok (node', [], io')

  -- The part of the loop's body behind the node is ready.
  unfoldable pub visit :
      NodeData
      → Operation
      → ByteArray
      → ℕ
      → TrieNode
      → List RecursiveItem
      → DataNodeIo p
      → Outcome (Step p)
  unfolding shared_prefix_length operate_node do_split_trie_node
  visit memory operation kvkey depth node below io =
      let size = node.node.hdr.key_chunk_size in
      let spl =
        shared_prefix_length (slice node.node.key_chunk 0 size)
          (slice kvkey depth (length kvkey - depth)) in
      let item : Bool → RecursiveItem = λ go_next. record { node = node; go_next = go_next } in
      let operated = (do
        (node', out_value, io') ← operate_node operation node io
        ok (finished (record { node = node'; go_next = false } ∷ below) out_value io')) in
      let divided = (do
        (node', io') ← do_split_trie_node ctx memory node spl io
        ok (onward depth (record { node = node'; go_next = false } ∷ below) io')) in
      if spl == 0
      then (if ltb depth (length kvkey) || ltb 0 size
          then ok (onward depth (new_item node.node.next_offset ∷ item true ∷ below) io)
          else operated)
      else if spl == size
      then ok (onward (depth + spl) (new_item node.node.child_offset ∷ item false ∷ below) io)
      else if is_put operation
      then divided
      else ok (absent io)

  -- The loop on the way down: the stack with the value that was read, or none.
  unfoldable pub descend :
      ℕ
      → NodeData
      → Operation
      → ByteArray
      → ℕ
      → List RecursiveItem
      → DataNodeIo p
      → Outcome (Option (List RecursiveItem) × ByteArray × DataNodeIo p)
  unfolding ready_node visit
  descend zero memory operation kvkey depth stack io = err undefined
  descend (suc fuel) memory operation kvkey depth [] io = err undefined
  descend (suc fuel) memory operation kvkey depth (item ∷ below) io = do
    (found, io') ← ready_node operation kvkey depth item.node io
    elim found [
      | none ↦ ok (none, [], io')
      | some node ↦ visit memory operation kvkey depth node below io' >>= λ step. elim step [
        | onward depth' stack io'' ↦ descend fuel memory operation kvkey depth' stack io''
        | finished stack out_value io'' ↦ ok (some stack, out_value, io'')
        | absent io'' ↦ ok (none, [], io'')
      ]
    ]

  -- One round of the way up: the node as it is left. `below` is what is left of the stack.
  unfoldable pub leave_node :
      Operation → TrieNode → List RecursiveItem → DataNodeIo p → Outcome (TrieNode × DataNodeIo p)
  unfolding delete_trie_node_childless write_trie_node
  leave_node operation node below io = do
    (node', io') ←
        if is_del operation && ltb 1 (length below)
        then delete_trie_node_childless ctx node io
        else ok (node, io)
    if node'.modified then write_trie_node ctx node' io' else ok (node', io')

  unfoldable pub ascend :
      Operation → RecursiveItem → List RecursiveItem → DataNodeIo p → Outcome (DataNodeIo p)
  unfolding leave_node relink
  ascend operation popped [] io = do (_, io') ← leave_node operation popped.node [] io; ok io'
  ascend operation popped (prev ∷ below) io = do
    (node, io') ← leave_node operation popped.node (prev ∷ below) io
    ascend operation (relink node prev) below io'

  -- The way up, unless the function returned before.
  abbrev pub after_descent :
      Operation
      → Option (List RecursiveItem)
      → ByteArray
      → DataNodeIo p
      → Outcome (ByteArray × DataNodeIo p)
  after_descent operation none out_value io = ok (out_value, io)
  after_descent operation (some []) out_value io = ok (out_value, io)
  after_descent operation (some (item ∷ below)) out_value io = do
    io' ← ascend operation item below io
    ok (out_value, io')

  -- `operate_trie_non_recursive`: the value that is read. The root is the first node of block 0, and what
  -- is stored hangs on its next node.
  unfoldable pub operate_trie_non_recursive :
      ℕ → NodeData → Operation → ByteArray → DataNodeIo p → Outcome (ByteArray × DataNodeIo p)
  unfolding descend ascend read_trie_node
  operate_trie_non_recursive fuel memory operation kvkey io = do
    (root, io₁) ← read_trie_node ctx (record { block_num = 0; bytes = data_begin_index }) io
    (stack, out_value, io₂) ←
        descend fuel memory operation kvkey 0
          (new_item root.node.next_offset ∷ record { node = root; go_next = true } ∷ []) io₁
    after_descent operation stack out_value io₂
