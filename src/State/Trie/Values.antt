-- ===== src/State/Trie/Values.antt =====
-- The values of common/state/trie.cpp, each stored behind a header and its size.
use private_data_objects.Prelude.{
  ℕ, ◌+◌, ◌-◌, ◌*◌, ◌/◌, ◌%◌, true, not, [], ◌∷◌, ◌++◌, ByteArray, ◌==◌, u32, if◌then◌else◌, length,
}
use private_data_objects.Prelude.Slices.{slice}
use private_data_objects.Outcome.{Outcome, ok, err, runtime_error, undefined, throw_if, ◌>>=◌, ◌>>◌}
use private_data_objects.Platform.{Platform}
use private_data_objects.State.Offset.{
  Offset, empty_block_offset, is_empty, le_bytes, le_read, advance_block_offset,
}
use private_data_objects.State.Sebio.{Context}
use private_data_objects.State.FreeSpace.{collect}
use private_data_objects.State.DataNodeIo.{
  DataNodeIo, write_across_data_nodes, read_across_data_nodes,
}
use private_data_objects.State.Trie.{
  TrieNodeHeader, empty_trie_header, TrieNode, header_size, header_byte, read_header, find_space,
}

-- The eight bytes of a `size_t` in memory, least significant first.
unfoldable pub size_bytes : ℕ → ByteArray
unfolding le_bytes
size_bytes n = le_bytes (n % u32) ++ le_bytes (n / u32 % u32)

unfoldable pub read_size : ByteArray → Outcome ℕ
unfolding le_read
read_size s = do low ← le_read s; high ← le_read (slice s 4 4); ok (low + u32 * high)

unfoldable pub first_byte : ByteArray → Outcome ℕ
first_byte [] = err undefined
first_byte (b ∷ bytes) = ok b

module _ {p : Platform} (ctx : Context) where
  -- The header, the size and the offset behind them.
  unfoldable pub do_read_value_info :
      Offset → DataNodeIo p → Outcome (TrieNodeHeader × ℕ × Offset × DataNodeIo p)
  unfolding first_byte read_header read_size
  do_read_value_info bo_at io = do
    (ba_header, io₁) ← read_across_data_nodes ctx bo_at header_size [] io
    let bo₁ = advance_block_offset bo_at header_size
    b ← first_byte ba_header
    let h = read_header b
    throw_if (not h.is_value) runtime_error
    (ba_value_size, io₂) ← read_across_data_nodes ctx bo₁ 8 [] io₁
    value_size ← read_size ba_value_size
    ok (h, value_size, advance_block_offset bo₁ 8, io₂)

  unfoldable pub do_read_value : TrieNode → DataNodeIo p → Outcome (ByteArray × DataNodeIo p)
  unfolding do_read_value_info is_empty
  do_read_value node io = do
    throw_if (is_empty node.node.child_offset) runtime_error
    (h, value_size, bo, io₁) ← do_read_value_info node.node.child_offset io
    read_across_data_nodes ctx bo (value_size % u32) [] io₁

  -- The deleted header is written behind the header and the size.
  unfoldable pub do_delete_value : TrieNode → DataNodeIo p → Outcome (TrieNode × DataNodeIo p)
  unfolding do_read_value_info header_byte
  do_delete_value node io = do
    (h, value_size, bo, io₁) ← do_read_value_info node.node.child_offset io
    io₂ ← write_across_data_nodes ctx (header_byte (record h { is_deleted = true }) ∷ []) 0 bo io₁
    let freed_bytes = (header_size + 8 + value_size) % u32
    collector ← collect node.node.child_offset freed_bytes io₂.free_space_collector
    ok (
      record node {
        node = record node.node { child_offset = empty_block_offset };
        modified = true;
      },
      record io₂ { free_space_collector = collector },
    )

  unfoldable pub do_write_value :
      TrieNode → ByteArray → DataNodeIo p → Outcome (TrieNode × DataNodeIo p)
  unfolding do_delete_value find_space header_byte size_bytes is_empty
  do_write_value node value io = do
    (node', io₁) ←
        if is_empty node.node.child_offset then ok (node, io) else do_delete_value node io
    let space_required = (header_size + 8 + length value) % u32
    (bo, io₂) ← find_space ctx space_required io₁
    let ba_trie_node = header_byte (record empty_trie_header { is_value = true }) ∷ []
    io₃ ← write_across_data_nodes ctx ba_trie_node 0 bo io₂
    let bo₁ = advance_block_offset bo header_size
    io₄ ← write_across_data_nodes ctx (size_bytes (length value)) 0 bo₁ io₃
    let bo₂ = advance_block_offset bo₁ 8
    io₅ ← write_across_data_nodes ctx value 0 bo₂ io₄
    let left = (space_required + u32 - (header_size + 8 + length value) % u32) % u32
    throw_if (not (left == 0)) runtime_error
    ok (record node' { node = record node'.node { child_offset = bo }; modified = true }, io₅)
