-- ===== src/State/Cache.antt =====
-- common/state/cache.cpp: the blocks that are in memory. A slot is either free or holds the block of one
-- entry, so the entry has the block itself and the free slots are counted. The map is in the order of
-- the block numbers, as the iterator of `std::map` visits it. An exception gives no state back. Where
-- the enclave itself uses the store, it ends the request; WasmStateExtensions.cpp catches it and lets the
-- contract go on, and the cache that it then works on, with a slot that a failing load has lost, is not
-- modelled.
pub mod Order
pub mod Slots
pub mod Flush
pub mod Retrieve
pub mod WriteBack
use private_data_objects.Prelude.{
  ℕ, zero, suc, ◌+◌, ◌-◌, ◌%◌, ◌^◌, Bool, true, false, not, ◌&&◌, ◌||◌, List, [], ◌∷◌, ◌++◌, Option,
  none, some, ByteArray, ◌==◌, ltb, leb, u32, if◌then◌else◌, length,
}
use private_data_objects.Outcome.{
  Error, Outcome, ok, err, runtime_error, undefined, throw_if, ◌>>=◌, ◌>>◌,
}
use private_data_objects.Platform.{Platform}
use private_data_objects.State.Sebio.{Context}
use private_data_objects.State.DataNode.{DataNode, new_data_node}
use private_data_objects.State.DataNode.Persist.{load, unload}
use private_data_objects.State.StateNode.{
  Warehouse, or_throw, update_datablock_id, get_datablock_id_from_datablock_num,
}

-- `CACHE_SIZE / FIXED_DATA_NODE_BYTE_SIZE`
abbrev pub block_cache_max_items : ℕ
block_cache_max_items = 512

-- `block_cache_entry_t`
pub record Entry : Type 0 where
  pub pinned : Bool
  pub references : ℕ
  pub modified : Bool
  pub clock : ℕ
  pub dn : DataNode

abbrev pub Entries : Type 0
Entries = List (ℕ × Entry)

unfoldable pub find : ℕ → Entries → Option Entry
find n [] = none
find n ((k, e) ∷ m) = if k == n then some e else find n m

-- `block_cache_[n] = e`
unfoldable pub assign : ℕ → Entry → Entries → Entries
assign n e [] = (n, e) ∷ []
assign n e ((k, old) ∷ m) =
    let later = assign n e m in
    if n == k then (n, e) ∷ m else if ltb n k then (n, e) ∷ (k, old) ∷ m else (k, old) ∷ later

unfoldable pub erase : ℕ → Entries → Entries
erase n [] = []
erase n ((k, e) ∷ m) = let later = erase n m in if k == n then m else (k, e) ∷ later

-- `Cache` with its slots, the warehouse that it refers to, and the world outside the enclave.
pub record Cache (p : Platform) : Type 0 where
  pub block_cache : Entries
  pub available_slots : ℕ
  pub cache_clock : ℕ
  pub synced_entries : ℕ
  pub warehouse : Warehouse
  pub world : p.World

abbrev pub new_cache : {p : Platform} → Warehouse → p.World → Cache p
new_cache bw w = record {
  block_cache = [];
  available_slots = block_cache_max_items;
  cache_clock = 0;
  synced_entries = 0;
  warehouse = bw;
  world = w;
}

-- The key at `block_cache_.begin()`.
unfoldable pub begin : Entries → Option ℕ
begin [] = none
begin ((n, _) ∷ _) = some n

-- One round of the search for the entry that is to be replaced: of those that are not pinned and not
-- in use the one with the greatest clock. The source keeps the number in an `int`, as -1 at first;
-- numbers below 2^31 fit.
unfoldable pub candidate : ℕ → Entry → Option (ℕ × ℕ) → Option (ℕ × ℕ)
candidate n e best =
    if not e.pinned && e.references == 0
    then elim best [
      | none ↦ some (n, e.clock)
      | some (k, clock) ↦ if ltb clock e.clock then some (n, e.clock) else some (k, clock)
    ]
    else best

unfoldable pub most_recent : Entries → Option (ℕ × ℕ) → Option (ℕ × ℕ)
unfolding candidate
most_recent [] best = best
most_recent ((n, e) ∷ m) best = most_recent m (candidate n e best)

module _ {p : Platform} where
  -- `cache_slots::allocate`
  unfoldable pub allocate_slot : Cache p → Outcome (Cache p)
  allocate_slot c = do
    throw_if (c.available_slots == 0) runtime_error
    ok (record c { available_slots = c.available_slots - 1 })

  -- `cache_slots::release`
  unfoldable pub release_slot : Cache p → Outcome (Cache p)
  release_slot c = do
    throw_if (leb block_cache_max_items c.available_slots) runtime_error
    ok (record c { available_slots = c.available_slots + 1 })

  unfoldable pub drop_entry : ℕ → Cache p → Outcome (Cache p)
  unfolding release_slot
  drop_entry n c = do
    _ ← or_throw (find n c.block_cache) undefined
    c' ← release_slot c
    ok (record c' { block_cache = erase n c'.block_cache })

  -- The loop of `drop`, with the number of entries at its start as fuel.
  unfoldable drop_loop : ℕ → Cache p → Outcome (Cache p)
  unfolding drop_entry begin
  drop_loop zero c = ok c
  drop_loop (suc fuel) c = elim (begin c.block_cache) [
    | none ↦ ok c
    | some n ↦ do c' ← drop_entry n c; drop_loop fuel c'
  ]

  unfoldable drop : Cache p → Outcome (Cache p)
  unfolding drop_loop
  drop c = drop_loop (length c.block_cache) c

  unfoldable pub put : ℕ → DataNode → Cache p → Outcome (Cache p)
  unfolding drop_entry
  put n dn c = do
    c' ← elim (find n c.block_cache) [ none ↦ ok c | some _ ↦ drop_entry n c ]
    let e : Entry = record {
      pinned = false;
      references = 0;
      modified = false;
      clock = c'.cache_clock;
      dn = dn;
    }
    ok (record c' {
      block_cache = assign n e c'.block_cache;
      cache_clock = (c'.cache_clock + 1) % 2 ^ 64;
    })

  -- The four operations that change a cached entry only.
  unfoldable pub update_entry : (Entry → Entry) → ℕ → Cache p → Outcome (Cache p)
  update_entry f n c = do
    e ← or_throw (find n c.block_cache) runtime_error
    ok (record c { block_cache = assign n (f e) c.block_cache })

  unfoldable pub done : ℕ → Bool → Cache p → Outcome (Cache p)
  unfolding update_entry
  done n modified c =
      update_entry
        (λ e. record e {
          references = (e.references + u32 - 1) % u32;
          modified = if modified then true else e.modified;
        })
        n c

  unfoldable pub pin : ℕ → Cache p → Outcome (Cache p)
  unfolding update_entry
  pin n c = update_entry (λ e. record e { pinned = true }) n c

  unfoldable pub unpin : ℕ → Cache p → Outcome (Cache p)
  unfolding update_entry
  unpin n c = update_entry (λ e. record e { pinned = false }) n c

  unfoldable pub mark_modified : ℕ → Cache p → Outcome (Cache p)
  unfolding update_entry
  mark_modified n c = update_entry (λ e. record e { modified = true }) n c

  module _ (ctx : Context) where
    unfoldable pub sync_entry : ℕ → Cache p → Outcome (Cache p)
    sync_entry n c = do
      e ← or_throw (find n c.block_cache) runtime_error
      if not e.modified then ok c else do
        (id, dn, w) ← unload p ctx e.dn c.warehouse.state_encryption_key c.world
        bw ← update_datablock_id n id c.warehouse
        ok (record c {
          block_cache = assign n (record e { modified = false; dn = dn }) c.block_cache;
          synced_entries = (c.synced_entries + 1) % u32;
          warehouse = bw;
          world = w;
        })

    unfoldable pub flush_entry : ℕ → Cache p → Outcome (Cache p)
    unfolding sync_entry drop_entry
    flush_entry n c = do c' ← sync_entry n c; drop_entry n c'

    -- The loop of `flush`, with the number of entries at its start as fuel.
    unfoldable pub flush_loop : ℕ → Cache p → Outcome (Cache p)
    unfolding flush_entry begin
    flush_loop zero c = ok c
    flush_loop (suc fuel) c = elim (begin c.block_cache) [
      | none ↦ ok c
      | some n ↦ do c' ← flush_entry n c; flush_loop fuel c'
    ]

    unfoldable pub flush : Cache p → Outcome (Cache p)
    unfolding flush_loop
    flush c = flush_loop (length c.block_cache) c

    -- `sync` walks over the map, whose keys a round does not change.
    unfoldable sync_loop : Entries → Cache p → Outcome (Cache p)
    unfolding sync_entry
    sync_loop [] c = ok c
    sync_loop ((n, _) ∷ rest) c = do c' ← sync_entry n c; sync_loop rest c'

    unfoldable sync : Cache p → Outcome (Cache p)
    unfolding sync_loop
    sync c = sync_loop c.block_cache c

    unfoldable pub replacement_policy_mru : Cache p → Outcome (Cache p)
    unfolding most_recent flush_entry
    replacement_policy_mru c = do
      (n, _) ← or_throw (most_recent c.block_cache none) runtime_error
      flush_entry n c

    -- The loop of `replacement_policy`: a round removes one entry.
    unfoldable pub replacement_loop : ℕ → Cache p → Outcome (Cache p)
    unfolding replacement_policy_mru
    replacement_loop zero c = ok c
    replacement_loop (suc fuel) c = do
      let more = (do c' ← replacement_policy_mru c; replacement_loop fuel c')
      if ltb (length c.block_cache) block_cache_max_items then ok c else more

    unfoldable pub replacement_policy : Cache p → Outcome (Cache p)
    unfolding replacement_loop
    replacement_policy c = do
      throw_if (not (length c.block_cache + c.available_slots == block_cache_max_items))
          runtime_error
      replacement_loop (length c.block_cache) c

    -- What `retrieve` does with a block that is not in the cache.
    unfoldable pub fetch_block : ℕ → Bool → Cache p → Outcome (Cache p)
    unfolding replacement_policy allocate_slot put pin
    fetch_block n pinned c = do
      c₁ ← replacement_policy c
      id ← get_datablock_id_from_datablock_num n c₁.warehouse
      c₂ ← allocate_slot c₁
      dn ←
          load p ctx (record (new_data_node 0) { original_id = id })
            c₂.warehouse.state_encryption_key c₂.world
      c₃ ← put n dn c₂
      if pinned then pin n c₃ else ok c₃

    -- The reference that `retrieve` returns is to the block of the entry: its caller finds it by the
    -- block's number. A block that is cached already is not pinned.
    unfoldable pub retrieve : ℕ → Bool → Cache p → Outcome (Cache p)
    unfolding fetch_block update_entry
    retrieve n pinned c = do
      c' ← elim (find n c.block_cache) [ some _ ↦ ok c | none ↦ fetch_block n pinned c ]
      update_entry (λ e. record e { references = (e.references + 1) % u32 }) n c'
