-- ===== src/State/Trie.antt =====
-- The nodes of common/state/trie.cpp: their layout, and how they are read and written.
pub mod Layout
pub mod Values
pub mod Operate
pub mod Reads
pub mod Lookup
use private_data_objects.Prelude.{
  ℕ, suc, ◌+◌, ◌-◌, ◌*◌, ◌/◌, ◌%◌, Bool, true, false, not, [], ◌∷◌, ◌++◌, none, some, ByteArray,
  ◌==◌, ltb, leb, u32, if◌then◌else◌, length, replicate,
}
use private_data_objects.Prelude.Slices.{overwrite, slice}
use private_data_objects.Outcome.{Outcome, ok, err, runtime_error, undefined, throw_if, ◌>>=◌, ◌>>◌}
use private_data_objects.Platform.{Platform}
use private_data_objects.State.Offset.{
  Offset, empty_block_offset, data_begin_index, is_empty, to_byte_array, deserialize_offset,
}
use private_data_objects.State.Sebio.{Context}
use private_data_objects.State.FreeSpace.{collect, allocate}
use private_data_objects.State.DataNodeIo.{
  DataNodeIo, append_node, block_offset_for_appending, consume_add_and_init_append_data_node_cond,
  write_across_data_nodes, read_across_data_nodes,
}

-- `MAX_KEY_CHUNK_BYTE_SIZE`
abbrev pub max_key_chunk_byte_size : ℕ
max_key_chunk_byte_size = 15

-- `trie_node_header_t`, whose last field has four bits.
pub record TrieNodeHeader : Type 0 where
  pub is_deleted : Bool
  pub has_next : Bool
  pub has_child : Bool
  pub is_value : Bool
  pub key_chunk_size : ℕ

-- `empty_trie_header`
abbrev pub empty_trie_header : TrieNodeHeader
empty_trie_header = record {
  is_deleted = false;
  has_next = false;
  has_child = false;
  is_value = false;
  key_chunk_size = 0;
}

-- `trie_node_h_with_ncc_t`
pub record NodeData : Type 0 where
  pub hdr : TrieNodeHeader
  pub next_offset : Offset
  pub child_offset : Offset
  pub key_chunk : ByteArray

-- `trie_node`
pub record TrieNode : Type 0 where
  pub node : NodeData
  pub modified : Bool
  pub initialized : Bool
  pub location : Offset

-- `trie_node()`, which sets all but the data. These are what the memory holds before, or zeros.
abbrev pub new_trie_node : NodeData → TrieNode
new_trie_node memory = record {
  node = memory;
  modified = false;
  initialized = false;
  location = empty_block_offset;
}

-- `sizeof(trie_node_header_t)` and `sizeof(trie_node_h_with_ncc_t)`
abbrev pub header_size : ℕ
header_size = 1

abbrev pub node_size : ℕ
node_size = 32

abbrev pub new_trie_node_size : ℕ
new_trie_node_size = 17 + max_key_chunk_byte_size

-- The bit fields in their order, from the lowest bit (GCC on x86).
abbrev pub bit : Bool → ℕ
bit b = if b then 1 else 0

unfoldable pub header_byte : TrieNodeHeader → ℕ
header_byte h =
    bit h.is_deleted
    + 2 * bit h.has_next
    + 4 * bit h.has_child
    + 8 * bit h.is_value
    + 16 * (h.key_chunk_size % 16)

unfoldable pub read_header : ℕ → TrieNodeHeader
read_header b = record {
  is_deleted = b % 2 == 1;
  has_next = b / 2 % 2 == 1;
  has_child = b / 4 % 2 == 1;
  is_value = b / 8 % 2 == 1;
  key_chunk_size = b / 16 % 16;
}

unfoldable pub node_bytes : NodeData → ByteArray
unfolding header_byte to_byte_array
node_bytes n =
    header_byte n.hdr
    ∷ (to_byte_array n.next_offset ++ (to_byte_array n.child_offset ++ n.key_chunk))

-- `*((trie_node_h_with_ncc_t*)ba_node.data())` of 32 bytes
unfoldable pub read_node_bytes : ByteArray → Outcome NodeData
unfolding read_header deserialize_offset
read_node_bytes [] = err undefined
read_node_bytes (b ∷ bytes) = do
  next_offset ← deserialize_offset (slice bytes 0 8)
  child_offset ← deserialize_offset (slice bytes 8 8)
  ok (record {
    hdr = read_header b;
    next_offset = next_offset;
    child_offset = child_offset;
    key_chunk = slice bytes 16 15;
  })

-- How many bytes two chunks have in common at their begin.
unfoldable pub shared_prefix_length : ByteArray → ByteArray → ℕ
shared_prefix_length [] key_chunk = 0
shared_prefix_length (x ∷ stored_chunk) [] = 0
shared_prefix_length (x ∷ stored_chunk) (y ∷ key_chunk) =
    let rest = suc (shared_prefix_length stored_chunk key_chunk) in if x == y then rest else 0

-- `create_node`, over what the node holds before. Of the key only a chunk is taken.
unfoldable pub create_node : ByteArray → ℕ → ℕ → TrieNode → TrieNode
create_node key key_chunk_begin key_chunk_end out_node =
    let kcl = (key_chunk_end + u32 - key_chunk_begin) % u32 in
    let size = if ltb max_key_chunk_byte_size kcl then max_key_chunk_byte_size else kcl in
    record out_node {
      node = record out_node.node {
        hdr = record out_node.node.hdr { has_next = true; has_child = true; key_chunk_size = size };
        next_offset = empty_block_offset;
        child_offset = empty_block_offset;
        key_chunk = overwrite out_node.node.key_chunk 0 (slice key key_chunk_begin size);
      };
      modified = true;
      initialized = true;
    }

module _ {p : Platform} (ctx : Context) where
  unfoldable pub read_trie_node : Offset → DataNodeIo p → Outcome (TrieNode × DataNodeIo p)
  unfolding read_node_bytes read_across_data_nodes
  read_trie_node in_block_offset io = do
    (ba_node, io') ← read_across_data_nodes ctx in_block_offset node_size [] io
    throw_if (not (length ba_node == node_size)) runtime_error
    node ← read_node_bytes ba_node
    ok (
      record { node = node; modified = false; initialized = true; location = in_block_offset },
      io',
    )

  -- Free space of a size, or else the place for appending.
  unfoldable pub find_space : ℕ → DataNodeIo p → Outcome (Offset × DataNodeIo p)
  unfolding block_offset_for_appending
  find_space space_required io = do
    (found, collector) ← allocate space_required io.free_space_collector
    let io' = record io { free_space_collector = collector }
    elim found [
      | some bo ↦ ok (bo, io')
      | none ↦ (do bo ← block_offset_for_appending io'; ok (bo, io'))
    ]

  unfoldable pub write_trie_node : TrieNode → DataNodeIo p → Outcome (TrieNode × DataNodeIo p)
  unfolding find_space node_bytes is_empty write_across_data_nodes
  write_trie_node in_trie_node io = do
    (location, io₁) ←
        if is_empty in_trie_node.location
        then find_space new_trie_node_size io
        else ok (in_trie_node.location, io)
    io₂ ← write_across_data_nodes ctx (node_bytes in_trie_node.node) 0 location io₁
    ok (record in_trie_node { location = location; modified = false }, io₂)

  unfoldable pub delete_trie_node_childless :
      TrieNode → DataNodeIo p → Outcome (TrieNode × DataNodeIo p)
  unfolding write_trie_node is_empty
  delete_trie_node_childless node io =
      let deleted = (do
        collector ← collect node.location new_trie_node_size io.free_space_collector
        let marked = record node {
          node = record node.node { hdr = record node.node.hdr { is_deleted = true } };
          modified = true;
        }
        (written, io') ← write_trie_node marked (record io { free_space_collector = collector })
        ok (record written { location = written.node.next_offset }, io')) in
      if is_empty node.node.child_offset then deleted else ok (node, io)

  -- The second node lives on the stack.
  unfoldable pub do_split_trie_node :
      NodeData → TrieNode → ℕ → DataNodeIo p → Outcome (TrieNode × DataNodeIo p)
  unfolding create_node append_node write_trie_node consume_add_and_init_append_data_node_cond
  do_split_trie_node stack node spl io = do
    let size = node.node.hdr.key_chunk_size
    throw_if (not (if ltb 0 size then ltb spl size else false)) runtime_error
    dn ← append_node io
    io₁ ← consume_add_and_init_append_data_node_cond ctx (ltb dn.free_bytes new_trie_node_size) io
    let second_chunk = slice node.node.key_chunk spl (size - spl)
    let made = create_node second_chunk 0 (length second_chunk) (new_trie_node stack)
    (second_node, io₂) ←
        write_trie_node
          (record made {
            node = record made.node {
              next_offset = empty_block_offset;
              child_offset = node.node.child_offset;
            };
            modified = true;
          })
          io₁
    ok (
      record node {
        node = record node.node {
          hdr = record node.node.hdr { key_chunk_size = spl };
          child_offset = second_node.location;
        };
        modified = true;
      },
      io₂,
    )

  -- `init_trie_root`, with the root block 0. The node lives on the stack too.
  unfoldable pub init_trie_root : NodeData → DataNodeIo p → Outcome (DataNodeIo p)
  unfolding create_node write_trie_node
  init_trie_root stack io = do
    (_, io') ←
        write_trie_node
          (create_node [] 0 0 (record (new_trie_node stack) {
            location = record { block_num = 0; bytes = data_begin_index };
          }))
          io
    ok io'
