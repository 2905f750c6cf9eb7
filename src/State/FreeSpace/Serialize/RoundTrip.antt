-- ===== src/State/FreeSpace/Serialize/RoundTrip.antt =====
-- What is written of a collection is read back.
use Prim.Native.Nat.{min}
use private_data_objects.Prelude.{
  ℕ, zero, suc, ◌+◌, ◌-◌, ◌*◌, ◌/◌, ◌%◌, ◌≤◌, ◌<◌, ◌≡◌, ◌∙◌, refl, ap, List, [], ◌∷◌, ◌++◌,
  ByteArray, ltb, u32, if◌then◌else◌, arith, length, take, inl, inr, Bool-cases,
}
use mathlib.Core.List.{append_assoc, append-nil}
use private_data_objects.Prelude.Slices.{
  slice, overwrite, slice-overwrite_self, slice-overwrite_apart, slice_all, length-overwrite,
}
use private_data_objects.Outcome.{ok}
use private_data_objects.State.Offset.{
  Offset, data_begin_index, data_end_index, advance_block_offset,
}
use private_data_objects.State.Offset.Address.{IsOffset}
use private_data_objects.State.DataNode.{DataNode, write_at}
use private_data_objects.State.DataNode.Bytes.{IsDataNode, fitting, write_at_lem, read_at_lem}
use private_data_objects.State.FreeSpace.{Item, Collector}
use private_data_objects.State.FreeSpace.Region.{IsOrdered, end}
use private_data_objects.State.FreeSpace.Collect.{IsCollector, IsFolded, collect_deferred_lem}
use private_data_objects.State.FreeSpace.Serialize.{
  item_size, item_bytes, item_read, serialize_loop, serialize_in_data_node, deserialize_loop,
  deserialize_from_data_node,
}

length-item_bytes : (it : Item) → length (item_bytes it) ≡ 12
unfolding item_bytes
length-item_bytes it = refl

item_read-item_bytes :
    (it : Item)
    → it.bo.block_num < u32
    → it.bo.bytes < u32
    → it.length < u32
    → item_read (item_bytes it) ≡ ok it
unfolding item_read item_bytes
item_read-item_bytes it a b c = ground arith

-- The items, one behind the other, from `o` on.
abbrev Holds : ByteArray → ℕ → List Item → Type 0
Holds bytes o [] = Unit
Holds bytes o (it ∷ rest) = (slice bytes o 12 ≡ item_bytes it) × Holds bytes (o + 12) rest

-- The items that go into `room` bytes.
abbrev pub stored : ℕ → List Item → List Item
stored room [] = []
stored room (it ∷ rest) = if ltb room item_size then [] else it ∷ stored (room - 12) rest

record IsSerialized (dn dn' : DataNode) (o : ℕ) (items : List Item) : Type 0 where
  node : IsDataNode dn'
  same_num : dn'.block_num ≡ dn.block_num
  holds : Holds dn'.bytes o items
  room : dn'.free_bytes + 12 * length items ≡ dn.free_bytes
  before : (j n : ℕ) → j + n ≤ o → slice dn'.bytes j n ≡ slice dn.bytes j n

-- The node after one item.
abbrev with_item : DataNode → ℕ → Item → DataNode
with_item dn o it = record dn {
  bytes = overwrite dn.bytes o (item_bytes it);
  free_bytes = dn.free_bytes - 12;
}

slice-item_bytes : (it : Item) → slice (item_bytes it) 0 12 ≡ item_bytes it
slice-item_bytes it = rw (← length-item_bytes it) (slice_all (item_bytes it))

slice_written :
    (bytes : ByteArray) (o : ℕ) (it : Item)
    → o + 12 ≤ length bytes
    → slice (overwrite bytes o (item_bytes it)) o 12 ≡ item_bytes it
unfolding item_bytes
slice_written bytes o it h = slice-overwrite_self bytes o (item_bytes it) h

module _ {dn : DataNode} {o : ℕ} (v : IsDataNode dn) (lo : data_begin_index ≤ o) where
  abbrev at : Offset
  at = record { block_num = dn.block_num; bytes = o }

  at-IsOffset : o < data_end_index → IsOffset at
  at-IsOffset h = record { block_fits = v.block_fits; from_begin = lo; before_end = h }

  module _ (room : dn.free_bytes + o ≡ data_end_index) (fits : item_size ≤ dn.free_bytes)
      (it : Item) where
    write_item : write_at dn (item_bytes it) 0 at ≡ ok (12, with_item dn o it)
    write_item =
        let len = length-item_bytes it in
        let whole = slice-item_bytes it in
        let n : fitting (length (item_bytes it) - 0) at ≡ 12 = ground (arith, len) in
        let free : min dn.free_bytes (data_end_index - (o + 12)) ≡ dn.free_bytes - 12 =
          omega arith in
        write_at_lem v (at-IsOffset (omega arith)) (item_bytes it) 0 refl (omega arith)
          (omega (arith, len))
        ∙ rw (n, whole, free)

    with_item-IsDataNode : IsDataNode (with_item dn o it)
    with_item-IsDataNode = record {
      size = length-overwrite dn.bytes o (item_bytes it) ∙ v.size;
      block_fits = v.block_fits;
      free_fits = omega (arith, v.free_fits);
    }

  advance_item :
      12 + o < data_end_index
      → advance_block_offset at 12 ≡ record { block_num = dn.block_num; bytes = o + 12 }
  unfolding advance_block_offset
  advance_item h = ground (arith, v.block_fits)

serialize_loop_lem :
    (items : List Item) (dn : DataNode) (o : ℕ) (bo : Offset)
    → IsDataNode dn
    → data_begin_index ≤ o
    → dn.free_bytes + o ≡ data_end_index
    → (item_size ≤ dn.free_bytes → bo ≡ record { block_num = dn.block_num; bytes = o })
    → (dn' : DataNode) × (serialize_loop items dn bo ≡ ok dn')
      × IsSerialized dn dn' o (stored dn.free_bytes items)
unfolding serialize_loop
serialize_loop_lem [] dn o bo v lo room there = (
  dn,
  refl,
  record { node = v; same_num = refl; holds = tt; room = omega arith; before = λ j n h. refl },
)
serialize_loop_lem (it ∷ rest) dn o bo v lo room there =
    elim (Bool-cases (ltb dn.free_bytes item_size)) [
      | inl full ↦ (
        dn,
        rw full,
        rw full (record {
          node = v;
          same_num = refl;
          holds = tt;
          room = omega arith;
          before = λ j n h. refl;
        }),
      )
      | inr more ↦
          let fits : item_size ≤ dn.free_bytes = ground arith in
          let here = there fits in
          let next = advance_block_offset bo 12 in
          let (dn', run, s) =
            serialize_loop_lem rest (with_item dn o it) (o + 12) next
              (with_item-IsDataNode v lo room fits it) (omega arith) (omega arith)
              (λ h. ap (λ b. advance_block_offset b 12) here ∙ advance_item v lo (omega arith)) in
          (
            dn',
            rw (more, here, write_item v lo room fits it, ← here) run,
            rw more (record {
              node = s.node;
              same_num = s.same_num;
              holds = (
                s.before o 12 (omega arith) ∙ slice_written dn.bytes o it (omega (arith, v.size)),
                s.holds,
              );
              room = omega (arith, s.room);
              before = λ j n h.
                  s.before j n (omega arith)
                  ∙ slice-overwrite_apart dn.bytes o j n (item_bytes it) (inl h);
            }),
          )
    ]

-- The fields of every item are unsigned ints.
abbrev pub AreWords : List Item → Type 0
AreWords [] = Unit
AreWords (it ∷ rest) =
    (it.bo.block_num < u32) × (it.bo.bytes < u32) × (it.length < u32) × AreWords rest

deserialize_loop_lem :
    (items : List Item) (dn : DataNode) (o : ℕ) (bo : Offset) (acc : List Item)
    → IsDataNode dn
    → data_begin_index ≤ o
    → o + 12 * length items ≤ data_end_index
    → (o < data_end_index → bo ≡ record { block_num = dn.block_num; bytes = o })
    → AreWords items
    → Holds dn.bytes o items
    → deserialize_loop (length items) dn bo acc ≡ ok (acc ++ items)
unfolding deserialize_loop
deserialize_loop_lem [] dn o bo acc v lo room there words h = rw append-nil
deserialize_loop_lem (it ∷ rest) dn o bo acc v lo room there words h =
    let here = there (omega arith) in
    let n : fitting 12 (record { block_num = dn.block_num; bytes = o }) ≡ 12 = ground arith in
    let got = read_at_lem v (at-IsOffset v lo (omega arith)) 12 [] refl in
    let value = item_read-item_bytes it words.0 words.1 words.2 in
    let next = advance_block_offset bo 12 in
    rw (here, got, n, h.0, value)
      (deserialize_loop_lem rest dn (o + 12) _ (acc ++ it ∷ []) v (omega arith) (omega arith)
          (λ p. advance_item v lo (omega arith)) words.3 h.1
        ∙ ap ok (append_assoc acc (it ∷ []) rest))

stored-AreWords : (room : ℕ) (items : List Item) → AreWords items → AreWords (stored room items)
stored-AreWords room [] h = tt
stored-AreWords room (it ∷ rest) h = elim (Bool-cases (ltb room item_size)) [
  | inl e ↦ rw e tt
  | inr e ↦ rw e (h.0, h.1, h.2, stored-AreWords (room - 12) rest h.3)
]

stored-eq-take : (room : ℕ) (items : List Item) → stored room items ≡ take (room / 12) items
stored-eq-take room [] = take_nil (room / 12)
  where
    take_nil : (n : ℕ) → [] ≡ take {A = Item} n []
    take_nil zero = refl
    take_nil (suc n) = refl
stored-eq-take room (it ∷ rest) = elim (Bool-cases (ltb room item_size)) [
  | inl e ↦ let z : room / 12 ≡ 0 = ground arith in rw (e, z)
  | inr e ↦
      let z : room / 12 ≡ suc ((room - 12) / 12) = ground arith in
      rw (e, z, stored-eq-take (room - 12) rest)
]

IsOrdered-AreWords : (lo : ℕ) (items : List Item) → IsOrdered lo items → AreWords items
IsOrdered-AreWords lo [] o = tt
IsOrdered-AreWords lo (it ∷ rest) o = (
  o.1.offset.block_fits,
  omega (arith, o.1.offset.before_end),
  omega (arith, o.1.end_fits),
  IsOrdered-AreWords (suc (end it)) rest o.2,
)

-- A well formed collector is serialized into an empty data node without an exception, its deferred
-- item folded in; a collector with an empty vector reads the first 682 items back from the node.
pub deserialize-serialize :
    (c fresh : Collector) (dn : DataNode)
    → IsCollector c
    → IsDataNode dn
    → dn.free_bytes ≡ 8184
    → fresh.collection ≡ []
    → (c' : Collector) × (dn' : DataNode) × (serialize_in_data_node c dn ≡ ok (c', dn'))
      × IsFolded c c'
      × (deserialize_from_data_node dn' fresh
          ≡ ok (record fresh { collection = take 682 c'.collection }))
unfolding serialize_in_data_node deserialize_from_data_node
deserialize-serialize c fresh dn valid v unused empty =
    let (c', run, f) = collect_deferred_lem c valid in
    let first : Offset = record { block_num = dn.block_num; bytes = data_begin_index } in
    let (dn', wrote, s) =
      serialize_loop_lem c'.collection dn data_begin_index first v (omega arith) (omega arith)
        (λ _. refl) in
    let kept = stored dn.free_bytes c'.collection in
    let words =
      stored-AreWords dn.free_bytes c'.collection (IsOrdered-AreWords 0 c'.collection f.ordered) in
    let back =
      deserialize_loop_lem kept dn' data_begin_index
        (record { block_num = dn'.block_num; bytes = data_begin_index }) [] s.node (omega arith)
        (omega (arith, s.room)) (λ _. refl) words s.holds in
    let unread : (data_end_index - data_begin_index + u32 - dn'.free_bytes) % u32
        ≡ 12 * length kept =
      omega (arith, s.room) in
    let rounds : 12 * length kept / 12 ≡ length kept = omega arith in
    let whole : 12 * length kept % 12 ≡ 0 = omega arith in
    let taken : kept ≡ take 682 c'.collection = rw unused (stored-eq-take 8184 c'.collection) in
    (c', dn', ground (arith, run, wrote, unused), f, rw (unread, whole, rounds, empty, back, taken))
