-- ===== src/State/FreeSpace.antt =====
-- common/state/free_space_collector.cpp: which bytes of the blocks may be written again.
-- An iterator of the vector is the pair of the elements before it, nearest first, and the
-- elements from it on. `do_collect` also writes to the item that it is given, which is the
-- deferred item; all its callers assign or drop that item before it is read again.
pub mod Region
pub mod Insert
pub mod Collect
pub mod Allocate
pub mod Serialize
use private_data_objects.Prelude.{
  ℕ, ◌+◌, ◌-◌, ◌*◌, ◌%◌, Bool, true, false, not, ◌&&◌, ◌||◌, List, [], ◌∷◌, ◌++◌, Option, none,
  some, ByteArray, ◌==◌, leb, ltb, u32, if◌then◌else◌, rev_append,
}
use private_data_objects.Outcome.{Outcome, ok, err, runtime_error, throw_if, ◌>>=◌, ◌>>◌}
use private_data_objects.State.Offset.{
  Offset, empty_block_offset, offset_eq, precedes, advance_block_offset,
}

-- `free_space_item_t`
pub record Item : Type 0 where
  pub bo : Offset
  pub length : ℕ

-- `free_space_collector`. C++ leaves `deferred_fsi` unset at first; it is read only while
-- `is_fsi_deferred` is true.
pub record Collector : Type 0 where
  pub is_collection_modified : Bool
  pub is_fsi_deferred : Bool
  pub deferred_fsi : Item
  pub collection : List Item
  pub original_block_id : ByteArray

abbrev pub new_collector : Collector
new_collector = record {
  is_collection_modified = false;
  is_fsi_deferred = false;
  deferred_fsi = record { bo = empty_block_offset; length = 0 };
  collection = [];
  original_block_id = [];
}

unfoldable pub are_adjacent : Offset → ℕ → Offset → Outcome Bool
unfolding precedes
are_adjacent bo1 length1 bo2 = do
  throw_if (precedes bo2 bo1) runtime_error
  ok (offset_eq (advance_block_offset bo1 length1) bo2)

-- The merge with the item before the iterator.
unfoldable pub merge_previous : List Item → Item → Outcome (List Item × Item)
merge_previous [] fsi = ok ([], fsi)
merge_previous (prev ∷ front) fsi = do
  adjacent ← are_adjacent prev.bo prev.length fsi.bo
  ok (
      if adjacent
      then (front, record { bo = prev.bo; length = (fsi.length + prev.length) % u32 })
      else (prev ∷ front, fsi))

-- The merge with the item at the iterator.
unfoldable pub merge_current : Item → List Item → Outcome (Item × List Item)
merge_current fsi [] = ok (fsi, [])
merge_current fsi (it ∷ rest) = do
  adjacent ← are_adjacent fsi.bo fsi.length it.bo
  ok (
      if adjacent
      then (record fsi { length = (fsi.length + it.length) % u32 }, rest)
      else (fsi, it ∷ rest))

unfoldable pub insert_free_space_item : List Item → List Item → Item → Outcome (List Item)
insert_free_space_item front rest fsi = do
  (front', fsi') ← merge_previous front fsi
  (fsi'', rest') ← merge_current fsi' rest
  ok (rev_append front' (fsi'' ∷ rest'))

-- The loop of `do_collect`. The flag tells whether it ran to the end of the vector: only then is
-- `is_collection_modified` set.
unfoldable pub collect_loop : List Item → List Item → Item → Outcome (Bool × List Item)
collect_loop front [] fsi = do items ← insert_free_space_item front [] fsi; ok (true, items)
collect_loop front (it ∷ rest) fsi =
    let later = collect_loop (it ∷ front) rest fsi in
    if precedes fsi.bo it.bo
    then (do items ← insert_free_space_item front (it ∷ rest) fsi; ok (false, items))
    else later

unfoldable pub do_collect : Item → Collector → Outcome Collector
unfolding collect_loop
do_collect fsi c = do
  (at_end, items) ← collect_loop [] c.collection fsi
  ok (record c { collection = items; is_collection_modified = at_end || c.is_collection_modified })

-- `if(is_fsi_deferred) { do_collect(deferred_fsi); is_fsi_deferred = false; }`
unfoldable pub collect_deferred : Collector → Outcome Collector
unfolding do_collect
collect_deferred c =
    if c.is_fsi_deferred
    then (do c' ← do_collect c.deferred_fsi c; ok (record c' { is_fsi_deferred = false }))
    else ok c

unfoldable pub collect : Offset → ℕ → Collector → Outcome Collector
unfolding collect_deferred
collect bo length c = if length == 0 then ok c else do
  c' ← collect_deferred c
  ok (record c' { deferred_fsi = record { bo = bo; length = length }; is_fsi_deferred = true })

-- The loop of `allocate`: the offset found, and the vector without what was taken.
unfoldable pub first_fit : ℕ → List Item → Option (Offset × List Item)
first_fit length [] = none
first_fit length (it ∷ rest) =
    if leb length it.length
    then some (
      it.bo,
      if it.length == length
          then rest
          else record { bo = advance_block_offset it.bo length; length = it.length - length }
            ∷ rest,
    )
    else elim (first_fit length rest) [ none ↦ none | some (bo, rest') ↦ some (bo, it ∷ rest') ]

allocate_scan : ℕ → Collector → Option Offset × Collector
unfolding first_fit
allocate_scan length c = elim (first_fit length c.collection) [
  | none ↦ (none, c)
  | some (bo, items) ↦ (some bo, record c { collection = items; is_collection_modified = true })
]

-- Whether space was found, and where. In C++ the offset of the caller keeps its value on failure.
unfoldable pub allocate : ℕ → Collector → Outcome (Option Offset × Collector)
unfolding do_collect allocate_scan
allocate length c =
    if c.is_fsi_deferred
    then (let c' = record c { is_fsi_deferred = false } in
        if c.deferred_fsi.length == length
        then ok (some c.deferred_fsi.bo, c')
        else (do c'' ← do_collect c.deferred_fsi c'; ok (allocate_scan length c'')))
    else ok (allocate_scan length c)
