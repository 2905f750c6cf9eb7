-- ===== src/Examples/Space.antt =====
-- The free space collector, with the bytes 100 to 109 of block 1 and 200 to 203 of block 2 free, and
-- the bytes 110 to 119 of block 1 deferred.
use private_data_objects.Prelude.{
  ◌≡◌, refl, inl, inr, ℕ, ◌+◌, true, false, ◌||◌, not, arith, [], ◌∷◌, Option, some, length, take,
  rev_append,
}
use private_data_objects.Outcome.{ok}
use private_data_objects.State.Offset.{Offset, advance_block_offset, offset_eq, precedes}
use private_data_objects.State.Offset.Address.{address}
use private_data_objects.State.DataNode.{DataNode, new_data_node}
use private_data_objects.State.DataNode.Bytes.{new_data_node-IsDataNode}
use private_data_objects.State.FreeSpace.{
  Item, Collector, new_collector, are_adjacent, merge_previous, merge_current,
  insert_free_space_item, do_collect, collect, allocate,
}
use private_data_objects.State.FreeSpace.Region.{within, covered, IsItem}
use private_data_objects.State.FreeSpace.Collect.{
  free, free_total, IsCollector, IsFolded, any_behind, collect_lem, modified-do_collect,
}
use private_data_objects.State.FreeSpace.Allocate.{allocate_lem, AllocateSpec}
use private_data_objects.State.FreeSpace.Serialize.{
  serialize_in_data_node, deserialize_from_data_node,
}
use private_data_objects.State.FreeSpace.Serialize.RoundTrip.{deserialize-serialize}

abbrev item : ℕ → ℕ → ℕ → Item
item block_num bytes length = record {
  bo = record { block_num = block_num; bytes = bytes };
  length = length;
}

abbrev first : Item
first = item 1 100 10

abbrev second : Item
second = item 2 200 4

abbrev deferred : Item
deferred = item 1 110 10

abbrev collector : Collector
collector = record {
  is_collection_modified = false;
  is_fsi_deferred = true;
  deferred_fsi = deferred;
  collection = first ∷ second ∷ [];
  original_block_id = [];
}

first-IsItem : IsItem first
first-IsItem = record {
  offset = record { block_fits = omega arith; from_begin = omega arith; before_end = omega arith };
  some_bytes = omega arith;
  end_fits = omega arith;
}

second-IsItem : IsItem second
second-IsItem = record {
  offset = record { block_fits = omega arith; from_begin = omega arith; before_end = omega arith };
  some_bytes = omega arith;
  end_fits = omega arith;
}

deferred-IsItem : IsItem deferred
deferred-IsItem = record {
  offset = record { block_fits = omega arith; from_begin = omega arith; before_end = omega arith };
  some_bytes = omega arith;
  end_fits = omega arith;
}

collector-IsCollector : IsCollector collector
collector-IsCollector = record {
  ordered = ((omega arith), first-IsItem, ((omega arith), second-IsItem, tt));
  deferred = λ _. (deferred-IsItem, ((inr (omega arith)), ((inl (omega arith)), tt)));
}

abbrev next : Offset
next = record { block_num = 2; bytes = 204 }

collect_lem_example :
    (c' : Collector) × (collect next 6 collector ≡ ok c')
    × IsCollector c'
    × ((a : ℕ) → free c' a ≡ (within (address next) 6 a || free collector a))
    × (free_total c' ≡ free_total collector + 6)
collect_lem_example =
    collect_lem next 6 collector collector-IsCollector
      (record { block_fits = omega arith; from_begin = omega arith; before_end = omega arith })
      (omega arith) (omega arith) (λ a h. unfold covered in ground (arith, h))

allocate_lem_example :
    (r : Option Offset × Collector) × (allocate 12 collector ≡ ok r) × AllocateSpec collector 12 r
allocate_lem_example = allocate_lem 12 collector (omega arith) collector-IsCollector

-- The deferred bytes join the first item, and the first twelve of the twenty are taken.
allocated :
    allocate 12 collector
    ≡ ok (
      some (record { block_num = 1; bytes = 100 }),
      record collector {
        is_fsi_deferred = false;
        is_collection_modified = true;
        collection = item 1 112 8 ∷ second ∷ [];
      },
    )
unfolding allocate precedes offset_eq advance_block_offset insert_free_space_item merge_previous
    are_adjacent merge_current rev_append
allocated = refl

abbrev joined : Collector
joined = record collector { collection = item 1 100 20 ∷ second ∷ [] }

modified-do_collect_example :
    joined.is_collection_modified
    ≡ (not (any_behind deferred collector.collection) || collector.is_collection_modified)
unfolding do_collect precedes offset_eq advance_block_offset insert_free_space_item merge_previous
    are_adjacent merge_current rev_append
modified-do_collect_example = modified-do_collect deferred collector joined refl

deserialize-serialize_example :
    (c' : Collector) × (dn' : DataNode) × (serialize_in_data_node collector (new_data_node 5)
      ≡ ok (c', dn'))
    × IsFolded collector c'
    × (deserialize_from_data_node dn' new_collector
        ≡ ok (record new_collector { collection = take 682 c'.collection }))
unfolding new_data_node
deserialize-serialize_example =
    deserialize-serialize collector new_collector (new_data_node 5) collector-IsCollector
      (new_data_node-IsDataNode 5 (omega arith)) refl refl
