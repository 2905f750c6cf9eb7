-- ===== src/Examples/Blocks.antt =====
-- Offsets, data nodes and stored blocks.
use private_data_objects.Prelude.{
  ◌≡◌, refl, ◌+◌, ◌-◌, arith, List, [], ◌∷◌, ◌++◌, ByteArray, replicate, length, bytes_eq,
}
use private_data_objects.Prelude.Slices.{overwrite, slice}
use private_data_objects.Outcome.{ok, ◌>>=◌}
use private_data_objects.Crypto.Skenc.{
  encrypt_message_iv, encrypt_message, decrypt_message, decrypt-encrypt,
}
use private_data_objects.State.Offset.{Offset, advance_block_offset, make_offset}
use private_data_objects.State.Offset.Address.{IsOffset, address, advance_lem}
use private_data_objects.State.DataNode.{new_data_node, write_at, read_at, serialize_data_header}
use private_data_objects.State.DataNode.Bytes.{IsDataNode, new_data_node-IsDataNode, fitting}
use private_data_objects.State.DataNode.Transfer.{read_at-write_at}
use private_data_objects.State.DataNode.Persist.{load, unload, load-unload}
use private_data_objects.State.Sebio.{
  Context, no_crypto, sebio_fetch, sebio_evict, sebio_fetch_authentic,
}
use private_data_objects.Ledger.Tables.{lookup, insert}
use private_data_objects.Examples.Libraries.{
  libraries, libraries-IsCryptoLawful, libraries-IsStoreHonest,
}

-- Four bytes before the end of block 3.
abbrev near_end : Offset
near_end = record { block_num = 3; bytes = 8188 }

near_end-IsOffset : IsOffset near_end
near_end-IsOffset = record {
  block_fits = omega arith;
  from_begin = omega arith;
  before_end = omega arith;
}

advance_lem_example :
    IsOffset (advance_block_offset near_end 10)
    × (address (advance_block_offset near_end 10) ≡ address near_end + 10)
advance_lem_example = advance_lem near_end 10 near_end-IsOffset (omega arith)

abbrev message : ByteArray
message = 1 ∷ 2 ∷ 3 ∷ 4 ∷ 5 ∷ 6 ∷ []

node : IsDataNode (new_data_node 3)
node = new_data_node-IsDataNode 3 (omega arith)

numbered : (new_data_node 3).block_num ≡ near_end.block_num
unfolding new_data_node
numbered = refl

read_at-write_at_example :
    (write_at (new_data_node 3) message 1 near_end >>= λ (n, dn'). read_at dn' near_end n (9 ∷ []))
    ≡ ok (
      fitting (length message - 1) near_end,
      9 ∷ [] ++ slice message 1 (fitting (length message - 1) near_end),
    )
read_at-write_at_example =
    read_at-write_at node near_end-IsOffset message (9 ∷ []) 1 numbered (omega arith) (omega arith)

abbrev key : ByteArray
key = replicate 16 1

decrypt-encrypt_example :
    decrypt_message libraries key (replicate 12 0 ++ (replicate 16 0 ++ message)) ≡ ok message
unfolding encrypt_message encrypt_message_iv replicate
decrypt-encrypt_example =
    decrypt-encrypt libraries libraries-IsCryptoLawful key message
      (replicate 12 0 ++ (replicate 16 0 ++ message)) [] [] refl

abbrev context : Context
context = record { key = key; algo = no_crypto }

-- The hash of the message.
abbrev name : ByteArray
name = message ++ replicate 26 0

abbrev stored : List (ByteArray × ByteArray)
stored = (name, message) ∷ []

sebio_fetch_authentic_example : libraries.sha256 message ≡ name
unfolding sebio_fetch lookup bytes_eq replicate
sebio_fetch_authentic_example = sebio_fetch_authentic libraries context name message stored refl

-- The block that node 3 is stored as.
abbrev sealed : ByteArray
sealed = replicate 12 0 ++ (replicate 16 0 ++ (serialize_data_header (new_data_node 3)).bytes)

load-unload_example :
    load libraries context
      (record (new_data_node 0) { original_id = libraries.sha256 sealed })
      key
      ((libraries.sha256 sealed, sealed) ∷ [])
    ≡ ok
        (record (serialize_data_header (new_data_node 3)) { original_id = libraries.sha256 sealed })
unfolding unload encrypt_message encrypt_message_iv sebio_evict insert overwrite new_data_node
    replicate make_offset
load-unload_example =
    load-unload libraries libraries-IsCryptoLawful libraries-IsStoreHonest context (new_data_node 3)
      (record (serialize_data_header (new_data_node 3)) { original_id = libraries.sha256 sealed })
      (new_data_node 0) key (libraries.sha256 sealed) [] ((libraries.sha256 sealed, sealed) ∷ [])
      node refl
