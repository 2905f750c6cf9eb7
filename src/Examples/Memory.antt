-- ===== src/Examples/Memory.antt =====
-- The root block and the block cache.
use private_data_objects.Prelude.{
  ◌≡◌, ◌≢◌, refl, zero, suc, true, false, arith, List, [], ◌∷◌, ◌++◌, map, append-nil, some,
  ByteArray, length, replicate, bytes_eq,
}
use private_data_objects.Prelude.Slices.{overwrite, slice}
use private_data_objects.Outcome.{Outcome, ok, err}
use private_data_objects.Crypto.Skenc.{decrypt_message}
use private_data_objects.State.Offset.{
  make_offset, serialized_offset_to_block_num, serialized_offset_to_bytes,
}
use private_data_objects.State.DataNode.{new_data_node, serialize_data_header}
use private_data_objects.State.DataNode.Persist.{load}
use private_data_objects.State.Sebio.{Context, no_crypto, sebio_fetch}
use private_data_objects.State.StateNode.{
  Formats, RootDocument, StateNode, Warehouse, new_state_node, serialize_block_ids,
  deserialize_block_ids, get_datablock_id_from_datablock_num, cumulative_hash,
}
use private_data_objects.State.StateNode.Root.{
  IsFormatsLawful, deserialize-serialize_block_ids, deserialize_block_ids_authentic,
}
use private_data_objects.State.Cache.{Cache, new_cache, begin, erase, find, assign, retrieve, flush}
use private_data_objects.State.Cache.Slots.{new_cache-IsBalanced}
use private_data_objects.State.Cache.Flush.{flush_lem}
use private_data_objects.State.Cache.Retrieve.{IsRetrieved, retrieve_lem}
use private_data_objects.Ledger.Tables.{lookup}
use private_data_objects.Examples.Libraries.{
  libraries, libraries-IsCryptoLawful, libraries-IsStoreHonest,
}
use private_data_objects.State.Cache.WriteBack.{IsWrittenBack, sync_entry-load}
use private_data_objects.State.DataNode.Bytes.{new_data_node-IsDataNode}
use private_data_objects.State.Cache.{Entry, sync_entry}
use private_data_objects.State.StateNode.{update_datablock_id}
use private_data_objects.State.DataNode.Persist.{unload}
use private_data_objects.State.Sebio.{sebio_evict}
use private_data_objects.Crypto.Skenc.{encrypt_message, encrypt_message_iv}
use private_data_objects.Ledger.Tables.{insert}

-- Documents: 0 begins an identity, whose bytes are shifted by two, and 1 begins the authenticator.
abbrev shifted : ByteArray → ByteArray → ByteArray
shifted [] rest = rest
shifted (b ∷ bs) rest = suc (suc b) ∷ shifted bs rest

abbrev spelled : List ByteArray → ByteArray → ByteArray
spelled [] auth = 1 ∷ auth
spelled (id ∷ ids) auth = 0 ∷ shifted id (spelled ids auth)

-- The bytes before the next mark, the identities after it and the authenticator.
abbrev scan : ByteArray → ByteArray × List ByteArray × ByteArray
scan [] = ([], [], [])
scan (zero ∷ rest) = let (id, ids, auth) = scan rest in ([], id ∷ ids, auth)
scan (suc zero ∷ auth) = ([], [], auth)
scan (suc (suc b) ∷ rest) = let (id, ids, auth) = scan rest in (b ∷ id, ids, auth)

scan-shifted :
    (id rest ending : ByteArray) (ids : List ByteArray) (auth : ByteArray)
    → scan rest ≡ (ending, ids, auth)
    → scan (shifted id rest) ≡ (id ++ ending, ids, auth)
scan-shifted [] rest ending ids auth e = e
scan-shifted (b ∷ id) rest ending ids auth e =
    ground (arith, scan-shifted id rest ending ids auth e)

scan-spelled : (ids : List ByteArray) (auth : ByteArray) → scan (spelled ids auth) ≡ ([], ids, auth)
scan-spelled [] auth = refl
scan-spelled (id ∷ ids) auth =
    ground
      (arith, scan-shifted id (spelled ids auth) [] ids auth (scan-spelled ids auth), append-nil id)

abbrev pub formats : Formats
formats = record {
  base64_encode = λ m. m;
  base64_decode = λ m. m;
  dump_root = spelled;
  parse_root =
      λ t. ok (record { block_ids = some (map some (scan t).1); block_ids_auth = some (scan t).2 });
}

spelled-not_empty : (ids : List ByteArray) (auth : ByteArray) → length (spelled ids auth) ≢ 0
spelled-not_empty [] auth e = omega (arith, e)
spelled-not_empty (id ∷ ids) auth e = omega (arith, e)

formats-IsFormatsLawful : IsFormatsLawful formats
formats-IsFormatsLawful = record {
  decode-encode = λ m. refl;
  dump_not_empty = spelled-not_empty;
  parse-dump = λ ids auth. rw (scan-spelled ids auth) refl;
}

-- The block that node 0 is stored as, and its identity.
abbrev sealed : ByteArray
sealed = replicate 12 0 ++ (replicate 16 0 ++ (serialize_data_header (new_data_node 0)).bytes)

abbrev identity : ByteArray
identity = libraries.sha256 sealed

abbrev key : ByteArray
key = replicate 16 1

abbrev warehouse : Warehouse
warehouse = record { block_ids = identity ∷ []; state_encryption_key = key }

abbrev fresh : Warehouse
fresh = record { block_ids = []; state_encryption_key = key }

abbrev root : StateNode
root = serialize_block_ids libraries formats warehouse new_state_node

deserialize-serialize_block_ids_example :
    deserialize_block_ids libraries formats root fresh
    ≡ ok (record root { children = identity ∷ [] }, record fresh { block_ids = identity ∷ [] })
deserialize-serialize_block_ids_example =
    deserialize-serialize_block_ids libraries formats formats-IsFormatsLawful warehouse fresh
      new_state_node refl

root_without_children : root.children ≡ []
unfolding serialize_block_ids
root_without_children = refl

deserialize_block_ids_authentic_example :
    (document : RootDocument) × (auth : ByteArray) × (formats.parse_root root.state_block
      ≡ ok document)
    × (document.block_ids_auth ≡ some auth)
    × (formats.base64_decode auth
        ≡ libraries.hmac key (cumulative_hash libraries [] (identity ∷ [])))
deserialize_block_ids_authentic_example =
    deserialize_block_ids_authentic libraries formats root
      (record root { children = identity ∷ [] }) fresh (record fresh { block_ids = identity ∷ [] })
      root_without_children deserialize-serialize_block_ids_example

abbrev context : Context
context = record { key = key; algo = no_crypto }

abbrev cache : Cache libraries
cache = new_cache warehouse ((identity, sealed) ∷ [])

abbrev after : Outcome (Cache libraries) → Cache libraries
after (ok c) = c
after (err code) = cache

abbrev with_block : Cache libraries
with_block = after (retrieve context 0 true cache)

retrieve_lem_example : IsRetrieved context 0 true cache with_block
unfolding retrieve find get_datablock_id_from_datablock_num load sebio_fetch lookup bytes_eq
    replicate serialize_data_header overwrite new_data_node make_offset decrypt_message
    serialized_offset_to_block_num slice serialized_offset_to_bytes assign
retrieve_lem_example =
    retrieve_lem context 0 true cache with_block
      (new_cache-IsBalanced warehouse ((identity, sealed) ∷ [])) refl

flush_lem_example :
    ((after (flush context with_block)).block_cache ≡ [])
    × ((after (flush context with_block)).available_slots ≡ 512)
unfolding flush retrieve find get_datablock_id_from_datablock_num load sebio_fetch lookup bytes_eq
    replicate serialize_data_header overwrite new_data_node make_offset decrypt_message
    serialized_offset_to_block_num slice serialized_offset_to_bytes assign begin erase
flush_lem_example =
    flush_lem context with_block (after (flush context with_block)) retrieve_lem_example.balanced
      refl

-- A cache whose only block was written to.
abbrev written_entry : Entry
written_entry = record {
  pinned = false;
  references = 0;
  modified = true;
  clock = 0;
  dn = new_data_node 0;
}

abbrev written_cache : Cache libraries
written_cache = record (new_cache warehouse []) {
  block_cache = (0, written_entry) ∷ [];
  available_slots = 511;
}

abbrev synced : Cache libraries
synced = after (sync_entry context 0 written_cache)

sync_entry-load_example : IsWrittenBack libraries context 0 written_entry written_cache synced
unfolding find sync_entry unload encrypt_message encrypt_message_iv sebio_evict insert overwrite
    new_data_node replicate make_offset serialize_data_header assign update_datablock_id
sync_entry-load_example =
    sync_entry-load libraries context libraries-IsCryptoLawful libraries-IsStoreHonest 0
      written_entry written_cache synced (record { ascending = ((omega arith), tt); slots = refl })
      refl refl (new_data_node-IsDataNode 0 (omega arith)) refl
