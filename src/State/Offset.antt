-- ===== src/State/Offset.antt =====
-- common/state/block_offset.cpp and the offset arithmetic of data_node.cpp.
pub mod Address
use private_data_objects.Prelude.{
  ℕ, ◌+◌, ◌-◌, ◌*◌, ◌/◌, ◌%◌, ◌<◌, Bool, ◌&&◌, ◌||◌, List, [], ◌∷◌, ◌++◌, ByteArray, ◌==◌, leb, ltb,
  u32, if◌then◌else◌, length,
}
use private_data_objects.Outcome.{Outcome, ok, err, undefined, runtime_error, throw_if, ◌>>=◌, ◌>>◌}
use private_data_objects.Prelude.Slices.{overwrite}

-- `block_offset_t`
pub record Offset : Type 0 where
  pub block_num : ℕ
  pub bytes : ℕ

abbrev pub empty_block_offset : Offset
empty_block_offset = record { block_num = 0; bytes = 0 }

-- `FIXED_DATA_NODE_BYTE_SIZE`
abbrev pub fixed_data_node_byte_size : ℕ
fixed_data_node_byte_size = 8192

abbrev pub data_begin_index : ℕ
data_begin_index = 8

abbrev pub data_end_index : ℕ
data_end_index = fixed_data_node_byte_size

unfoldable pub offset_eq : Offset → Offset → Bool
offset_eq lhs rhs = lhs.block_num == rhs.block_num && lhs.bytes == rhs.bytes

unfoldable pub is_empty : Offset → Bool
unfolding offset_eq
is_empty bo = offset_eq bo empty_block_offset

-- The test that `do_collect` and `are_adjacent` write out.
unfoldable pub precedes : Offset → Offset → Bool
precedes a b = ltb a.block_num b.block_num || (a.block_num == b.block_num && ltb a.bytes b.bytes)

-- Every addition is one of `unsigned int`.
unfoldable pub advance_block_offset : Offset → ℕ → Offset
advance_block_offset bo len =
    let block_data_len : ℕ = data_end_index - data_begin_index in
    let blocks_to_add : ℕ = len / block_data_len in
    let block_num : ℕ = (bo.block_num + blocks_to_add) % u32 in
    let bytes : ℕ = (bo.bytes + (len - blocks_to_add * block_data_len)) % u32 in
    if leb data_end_index bytes
    then record {
      block_num = (block_num + 1) % u32;
      bytes = (data_begin_index + (bytes - data_end_index)) % u32;
    }
    else record { block_num = block_num; bytes = bytes }

-- The four bytes of an `unsigned int` in memory, least significant first (x86).
unfoldable pub le_bytes : ℕ → ByteArray
le_bytes n = (n % 256) ∷ (n / 256 % 256) ∷ (n / 65536 % 256) ∷ (n / 16777216 % 256) ∷ []

-- What `*(unsigned int*)p` reads.
unfoldable pub le_read : ByteArray → Outcome ℕ
le_read (a ∷ b ∷ c ∷ d ∷ r) = ok (a + 256 * b + 65536 * c + 16777216 * d)
le_read _ = err undefined

unfoldable pub to_byte_array : Offset → ByteArray
unfolding le_bytes
to_byte_array bo = le_bytes bo.block_num ++ le_bytes bo.bytes

-- `make_offset` of data_node.cpp
unfoldable pub make_offset : ℕ → ℕ → ByteArray
unfolding le_bytes
make_offset block_num bytes_off = le_bytes block_num ++ le_bytes bytes_off

skip_word : ByteArray → ByteArray
skip_word (a ∷ b ∷ c ∷ d ∷ r) = r
skip_word _ = []

unfoldable pub serialized_offset_to_block_num : ByteArray → Outcome ℕ
unfolding le_read
serialized_offset_to_block_num s = le_read s

unfoldable pub serialized_offset_to_bytes : ByteArray → Outcome ℕ
unfolding le_read skip_word
serialized_offset_to_bytes s = le_read (skip_word s)

unfoldable pub deserialize_offset : ByteArray → Outcome Offset
unfolding serialized_offset_to_block_num serialized_offset_to_bytes
deserialize_offset s = do
  b ← serialized_offset_to_block_num s
  n ← serialized_offset_to_bytes s
  ok (record { block_num = b; bytes = n })

-- The offset is written over the first eight bytes of the buffer.
unfoldable serialize_offset : Offset → ByteArray → Outcome ByteArray
unfolding to_byte_array
serialize_offset bo buffer = do
  throw_if (ltb (length buffer) 8) runtime_error
  ok (overwrite buffer 0 (to_byte_array bo))
