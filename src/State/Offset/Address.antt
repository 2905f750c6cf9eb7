-- ===== src/State/Offset/Address.antt =====
-- An offset as one number: its distance from the first data byte of block 0, headers not counted.
use private_data_objects.Prelude.{ℕ, ◌+◌, ◌-◌, ◌*◌, ◌≤◌, ◌<◌, ◌≡◌, ◌↔◌, true, arith, u32}
use private_data_objects.State.Offset.{
  Offset, data_begin_index, data_end_index, offset_eq, precedes, advance_block_offset,
}

abbrev pub address : Offset → ℕ
address bo = bo.block_num * 8184 + (bo.bytes - data_begin_index)

-- The offset names a data byte of a block.
pub record IsOffset (bo : Offset) : Type 0 where
  pub block_fits : bo.block_num < u32
  pub from_begin : data_begin_index ≤ bo.bytes
  pub before_end : bo.bytes < data_end_index

-- From an offset of a data byte, and as long as the block number stays below 2^32, advancing stays
-- on data bytes and moves by `len` of them.
pub advance_lem :
    (bo : Offset) (len : ℕ)
    → IsOffset bo
    → address bo + len < 8184 * u32
    → IsOffset (advance_block_offset bo len)
      × (address (advance_block_offset bo len) ≡ address bo + len)
unfolding advance_block_offset
advance_lem bo len v h = ground arith

pub eq_of_address : (a b : Offset) → IsOffset a → IsOffset b → address a ≡ address b → a ≡ b
eq_of_address a b va vb h = ground arith

-- The lexicographic test of the free space collector compares the addresses.
pub precedes_iff :
    (a b : Offset) → IsOffset a → IsOffset b → (precedes a b ≡ true) ↔ (address a < address b)
unfolding precedes
precedes_iff a b va vb = ground arith

pub offset_eq_iff : (a b : Offset) → (offset_eq a b ≡ true) ↔ (a ≡ b)
unfolding offset_eq
offset_eq_iff a b = ground arith
