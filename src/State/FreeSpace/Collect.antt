-- ===== src/State/FreeSpace/Collect.antt =====
-- `do_collect` and `collect`: the free bytes are those that were free and those handed in.
use private_data_objects.Prelude.{
  not, ℕ, suc, ◌+◌, ◌≤◌, ◌<◌, ◌≡◌, inl, inr, refl, ◌∙◌, Bool, true, false, ◌&&◌, ◌||◌, arith, u32,
  List, [], ◌∷◌, Bool-cases, if◌then◌else◌,
}
use private_data_objects.Outcome.{Outcome-cases, ok}
use private_data_objects.State.Offset.{Offset, precedes}
use private_data_objects.State.Offset.Address.{IsOffset, address, precedes_iff}
use private_data_objects.State.FreeSpace.{
  Item, Collector, new_collector, insert_free_space_item, collect_loop, do_collect,
  collect_deferred, collect,
}
use private_data_objects.State.FreeSpace.Region.{
  start, end, within, covers, covered, total, IsItem, IsOrdered, IsOrderedBack, IsApart,
  IsOrderedBack-le,
}
use private_data_objects.State.FreeSpace.Insert.{IsInserted, insert_free_space_item_lem}

-- The loop finds the place: nothing is thrown, and the vector is in order with the item in it.
collect_loop_lem :
    (front rest : List Item) (m : ℕ) (fsi : Item)
    → IsItem fsi
    → IsOrderedBack m front
    → m ≤ suc (start fsi)
    → IsOrdered m rest
    → IsApart fsi rest
    → (r : Bool × List Item) × (collect_loop front rest fsi ≡ ok r) × IsInserted front rest fsi r.1
unfolding collect_loop covered total
collect_loop_lem front [] m fsi v b h o apart =
    let (items, run, i) =
      insert_free_space_item_lem front [] fsi v (IsOrderedBack-le m (suc (start fsi)) front h b)
        tt in
    ((true, items), rw run, i)
collect_loop_lem front (it ∷ rest) m fsi v b h o apart = elim (Bool-cases (precedes fsi.bo it.bo)) [
  | inl e ↦
      let before : start fsi < start it = (precedes_iff fsi.bo it.bo v.offset o.1.offset).0 e in
      let (items, run, i) =
        insert_free_space_item_lem front (it ∷ rest) fsi v
          (IsOrderedBack-le m (suc (start fsi)) front h b) (omega arith, o.1, o.2) in
      ((false, items), rw (e, run), i)
  | inr e ↦
      let after : start it ≤ start fsi =
        ground (arith, precedes_iff fsi.bo it.bo v.offset o.1.offset) in
      let (r, run, i) =
        collect_loop_lem (it ∷ front) rest (suc (end it)) fsi v
          (omega arith, o.1, IsOrderedBack-le m (start it) front o.0 b)
          (omega (arith, v.some_bytes)) o.2 apart.1 in
      (
        r,
        rw (e, run),
        record {
          ordered = i.ordered;
          cover = λ a. ground (arith, i.cover a);
          sum = omega (arith, i.sum);
        },
      )
]

-- The addresses that the collector may hand out.
abbrev pub free : Collector → ℕ → Bool
free c a = (c.is_fsi_deferred && covers c.deferred_fsi a) || covered c.collection a

-- The number of free bytes.
abbrev pub free_total : Collector → ℕ
free_total c = (if c.is_fsi_deferred then c.deferred_fsi.length else 0) + total c.collection

-- The vector is in order and the deferred item, if there is one, shares no address with it.
pub record IsCollector (c : Collector) : Type 0 where
  pub ordered : IsOrdered 0 c.collection
  pub deferred :
      c.is_fsi_deferred ≡ true → IsItem c.deferred_fsi × IsApart c.deferred_fsi c.collection

-- No address of the item is in the list.
pub IsApart_of_disjoint :
    (y : Item) (xs : List Item) (lo : ℕ)
    → IsItem y
    → IsOrdered lo xs
    → ((a : ℕ) → covers y a ≡ true → covered xs a ≡ false)
    → IsApart y xs
unfolding covered
IsApart_of_disjoint y [] lo v o h = tt
IsApart_of_disjoint y (x ∷ xs) lo v o h = (
  ground (arith, h (start y), h (start x), v.some_bytes, o.1.some_bytes),
  IsApart_of_disjoint y xs (suc (end x)) v o.2 (λ a c. ground (arith, h a c)),
)

-- What folding the deferred item into the vector does.
pub record IsFolded (c c' : Collector) : Type 0 where
  pub settled : c'.is_fsi_deferred ≡ false
  pub ordered : IsOrdered 0 c'.collection
  pub cover : (a : ℕ) → covered c'.collection a ≡ free c a
  pub sum : total c'.collection ≡ free_total c
  pub same_id : c'.original_block_id ≡ c.original_block_id

pub collect_deferred_lem :
    (c : Collector)
    → IsCollector c
    → (c' : Collector) × (collect_deferred c ≡ ok c') × IsFolded c c'
unfolding collect_deferred
collect_deferred_lem c v = elim (Bool-cases c.is_fsi_deferred) [
  | inl e ↦
      let (item, apart) = v.deferred e in
      let ((at_end, items), run, i) =
        collect_loop_lem [] c.collection 0 c.deferred_fsi item tt (omega arith) v.ordered apart in
      (
        record c {
          collection = items;
          is_collection_modified = at_end || c.is_collection_modified;
          is_fsi_deferred = false;
        },
        rw (e, run),
        record {
          settled = refl;
          ordered = i.ordered;
          cover = λ a. unfold covered in ground (arith, i.cover a, e);
          sum = unfold total in ground (arith, i.sum, e);
          same_id = refl;
        },
      )
  | inr e ↦ (
    c,
    rw e,
    record {
      settled = e;
      ordered = v.ordered;
      cover = λ a. ground (arith, e);
      sum = ground (arith, e);
      same_id = refl;
    },
  )
]

new_collector-IsCollector : IsCollector new_collector
new_collector-IsCollector = record { ordered = tt; deferred = λ e. absurd (ground arith) }

-- On a well formed collector, collecting a range of one or more data bytes that are not free, which
-- ends below 4 GB, does not throw and keeps the collector well formed. Exactly the bytes of the range
-- become free beside those that were, and their number adds up.
pub collect_lem :
    (bo : Offset) (len : ℕ) (c : Collector)
    → IsCollector c
    → IsOffset bo
    → 0 < len
    → address bo + len < u32
    → ((a : ℕ) → within (address bo) len a ≡ true → free c a ≡ false)
    → (c' : Collector) × (collect bo len c ≡ ok c')
      × IsCollector c'
      × ((a : ℕ) → free c' a ≡ (within (address bo) len a || free c a))
      × (free_total c' ≡ free_total c + len)
unfolding collect
collect_lem bo len c v o pos fits taken =
    let (c₀, run, f) = collect_deferred_lem c v in
    let y : Item = record { bo = bo; length = len } in
    let item : IsItem y = record { offset = o; some_bytes = pos; end_fits = fits } in
    (
      record c₀ { deferred_fsi = y; is_fsi_deferred = true },
      rw run (ground arith),
      record {
        ordered = f.ordered;
        deferred = λ e. (
          item,
          IsApart_of_disjoint y c₀.collection 0 item f.ordered (λ a h. f.cover a ∙ taken a h),
        );
      },
      (λ a. ground (arith, f.cover a)),
      omega (arith, f.sum),
    )

-- Whether some item of the list begins behind the item.
unfoldable pub any_behind : Item → List Item → Bool
any_behind fsi [] = false
any_behind fsi (it ∷ rest) = precedes fsi.bo it.bo || any_behind fsi rest

collect_loop_flag :
    (front rest : List Item) (fsi : Item) (r : Bool × List Item)
    → collect_loop front rest fsi ≡ ok r
    → r.0 ≡ not (any_behind fsi rest)
unfolding collect_loop any_behind
collect_loop_flag front [] fsi r h = elim (Outcome-cases (insert_free_space_item front [] fsi)) [
  | inl (items, e) ↦ ground (arith, e)
  | inr (x, e) ↦ ground (arith, e)
]
collect_loop_flag front (it ∷ rest) fsi r h =
    elim (Outcome-cases (insert_free_space_item front (it ∷ rest) fsi)) [
      | inl (items, e) ↦ ground (arith, e, collect_loop_flag (it ∷ front) rest fsi r)
      | inr (x, e) ↦ ground (arith, e, collect_loop_flag (it ∷ front) rest fsi r)
    ]

-- `do_collect` marks the collection as modified only if no item begins behind the new one: an item
-- that is inserted before another, or merged with it, leaves the mark as it was.
pub modified-do_collect :
    (fsi : Item) (c c' : Collector)
    → do_collect fsi c ≡ ok c'
    → c'.is_collection_modified ≡ (not (any_behind fsi c.collection) || c.is_collection_modified)
unfolding do_collect
modified-do_collect fsi c c' h = elim (Outcome-cases (collect_loop [] c.collection fsi)) [
  | inl (r, e) ↦ ground (arith, e, collect_loop_flag [] c.collection fsi r)
  | inr (x, e) ↦ ground (arith, e)
]
