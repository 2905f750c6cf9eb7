-- ===== src/State/Trie/Layout.antt =====
-- The layout of a node of the trie, and the chunks of a key.
use private_data_objects.Prelude.{
  ◌≡◌, refl, ◌∙◌, ℕ, ◌+◌, ◌*◌, ◌/◌, ◌%◌, ◌<◌, ◌++◌, arith, length, length-append, u32,
}
use private_data_objects.Prelude.Slices.{slice, slice-append_left, slice-append_right, slice_all}
use private_data_objects.Outcome.{ok}
use private_data_objects.State.Offset.{Offset, to_byte_array}
use private_data_objects.State.Trie.{
  TrieNodeHeader, NodeData, header_byte, read_header, node_bytes, read_node_bytes,
}

-- The fields are in the ranges of their types.
pub record IsNodeData (n : NodeData) : Type 0 where
  pub chunk_size : n.hdr.key_chunk_size < 16
  pub chunk : length n.key_chunk ≡ 15
  pub next_block : n.next_offset.block_num < u32
  pub next_bytes : n.next_offset.bytes < u32
  pub child_block : n.child_offset.block_num < u32
  pub child_bytes : n.child_offset.bytes < u32

read_header-header_byte :
    (h : TrieNodeHeader) → h.key_chunk_size < 16 → read_header (header_byte h) ≡ h
unfolding read_header header_byte
read_header-header_byte h small = ground arith

word :
    (n : ℕ)
    → n < u32
    → n % 256 + 256 * (n / 256 % 256) + 65536 * (n / 65536 % 256) + 16777216 * (n / 16777216 % 256)
      ≡ n
word n small = omega arith

length-to_byte_array : (bo : Offset) → length (to_byte_array bo) ≡ 8
unfolding to_byte_array
length-to_byte_array bo = refl

-- A node whose fields are in the ranges of their types is read back from the 32 bytes it is written as.
pub read_node_bytes-node_bytes :
    (n : NodeData)
    → IsNodeData n
    → (length (node_bytes n) ≡ 32) × (read_node_bytes (node_bytes n) ≡ ok n)
unfolding read_node_bytes node_bytes
read_node_bytes-node_bytes n v =
    let next = to_byte_array n.next_offset in
    let child = to_byte_array n.child_offset in
    let a = length-to_byte_array n.next_offset in
    let b = length-to_byte_array n.child_offset in
    let c = length-append child n.key_chunk in
    let d = length-append next (child ++ n.key_chunk) in
    let first : slice (next ++ (child ++ n.key_chunk)) 0 8 ≡ next =
      slice-append_left next (child ++ n.key_chunk) 8 a in
    let second : slice (next ++ (child ++ n.key_chunk)) 8 8 ≡ child =
      slice-append_right next (child ++ n.key_chunk) 8 0 8 (omega arith)
      ∙ slice-append_left child n.key_chunk 8 b in
    let third : slice (next ++ (child ++ n.key_chunk)) 16 15 ≡ n.key_chunk =
      slice-append_right next (child ++ n.key_chunk) 16 8 15 (omega arith)
      ∙ slice-append_right child n.key_chunk 8 0 15 (omega arith)
      ∙ rw (← v.chunk) (slice_all n.key_chunk) in
    (
      omega arith,
      rw
          (
            first,
            second,
            third,
            word n.next_offset.block_num v.next_block,
            word n.next_offset.bytes v.next_bytes,
            word n.child_offset.block_num v.child_block,
            word n.child_offset.bytes v.child_bytes,
            read_header-header_byte n.hdr v.chunk_size,
          )
          refl,
    )
