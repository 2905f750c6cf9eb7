-- ===== src/State/FreeSpace/Insert.antt =====
-- `insert_free_space_item` between two parts of an ordered vector.
use private_data_objects.Prelude.{
  ℕ, suc, ◌+◌, ◌≤◌, ◌≡◌, inl, inr, refl, ◌||◌, arith, u32, List, [], ◌∷◌, rev_append, Bool-cases,
  ==_iff, ◌==◌, ◌%◌,
}
use private_data_objects.Outcome.{ok}
use private_data_objects.State.Offset.{advance_block_offset}
use private_data_objects.State.Offset.Address.{
  advance_lem, eq_of_address, precedes_iff, offset_eq_iff,
}
use private_data_objects.State.FreeSpace.{
  Item, are_adjacent, merge_previous, merge_current, insert_free_space_item,
}
use private_data_objects.State.FreeSpace.Region.{
  start, end, within_join, covers, covered, total, IsItem, IsOrdered, IsOrderedBack,
  rev_append-IsOrdered, covered-rev_append, total-rev_append, IsOrdered-le,
}

-- For two items in order the test does not throw: it says whether one ends where the other begins.
are_adjacent_lem :
    (x y : Item)
    → IsItem x
    → IsItem y
    → start x ≤ start y
    → are_adjacent x.bo x.length y.bo ≡ ok (end x == start y)
unfolding are_adjacent
are_adjacent_lem x y vx vy h =
    let adv = advance_lem x.bo x.length vx.offset (omega (arith, vx.end_fits)) in
    ground (
      arith,
      adv,
      precedes_iff y.bo x.bo vy.offset vx.offset,
      offset_eq_iff (advance_block_offset x.bo x.length) y.bo,
      eq_of_address (advance_block_offset x.bo x.length) y.bo adv.0 vy.offset,
    )

-- What a merge with the items before has to keep.
record IsMergedBack (front : List Item) (fsi : Item) (r : List Item × Item) : Type 0 where
  item : IsItem r.1
  same_end : end r.1 ≡ end fsi
  ordered : IsOrderedBack (start r.1) r.0
  cover : (a : ℕ) → (covered r.0 a || covers r.1 a) ≡ (covered front a || covers fsi a)
  sum : total r.0 + r.1.length ≡ total front + fsi.length

merge_previous_lem :
    (front : List Item) (fsi : Item)
    → IsItem fsi
    → IsOrderedBack (suc (start fsi)) front
    → (r : List Item × Item) × (merge_previous front fsi ≡ ok r) × IsMergedBack front fsi r
unfolding merge_previous covered total
merge_previous_lem [] fsi v o = (
  ([], fsi),
  refl,
  record { item = v; same_end = refl; ordered = tt; cover = λ a. refl; sum = refl },
)
merge_previous_lem (prev ∷ front) fsi v o =
    let adj = are_adjacent_lem prev fsi o.1 v (omega arith) in
    elim (Bool-cases (end prev == start fsi)) [
      | inl e ↦
          let touch : end prev ≡ start fsi = (==_iff _ _).0 e in
          let fits : (fsi.length + prev.length) % u32 ≡ fsi.length + prev.length =
            omega (arith, v.end_fits) in
          (
            (front, record { bo = prev.bo; length = (fsi.length + prev.length) % u32 }),
            rw (adj, e),
            record {
              item = record {
                offset = o.1.offset;
                some_bytes = omega (arith, v.some_bytes);
                end_fits = omega (arith, v.end_fits);
              };
              same_end = omega arith;
              ordered = o.2;
              cover = λ a. rw fits (
                  ground
                    (arith, within_join (start prev) (start fsi) prev.length fsi.length a touch));
              sum = omega arith;
            },
          )
      | inr e ↦ (
        (prev ∷ front, fsi),
        rw (adj, e),
        record {
          item = v;
          same_end = refl;
          ordered = (ground arith, o.1, o.2);
          cover = λ a. refl;
          sum = refl;
        },
      )
    ]

record IsMerged (rest : List Item) (fsi : Item) (r : Item × List Item) : Type 0 where
  item : IsItem r.0
  same_start : r.0.bo ≡ fsi.bo
  ordered : IsOrdered (suc (end r.0)) r.1
  cover : (a : ℕ) → (covers r.0 a || covered r.1 a) ≡ (covers fsi a || covered rest a)
  sum : r.0.length + total r.1 ≡ fsi.length + total rest

merge_current_lem :
    (rest : List Item) (fsi : Item)
    → IsItem fsi
    → IsOrdered (end fsi) rest
    → (r : Item × List Item) × (merge_current fsi rest ≡ ok r) × IsMerged rest fsi r
unfolding merge_current covered total
merge_current_lem [] fsi v o = (
  (fsi, []),
  refl,
  record { item = v; same_start = refl; ordered = tt; cover = λ a. refl; sum = refl },
)
merge_current_lem (it ∷ rest) fsi v o =
    let adj = are_adjacent_lem fsi it v o.1 (omega arith) in
    elim (Bool-cases (end fsi == start it)) [
      | inl e ↦
          let touch : end fsi ≡ start it = (==_iff _ _).0 e in
          let fits : (fsi.length + it.length) % u32 ≡ it.length + fsi.length =
            omega (arith, o.1.end_fits) in
          (
            (record fsi { length = (fsi.length + it.length) % u32 }, rest),
            rw (adj, e),
            record {
              item = record {
                offset = v.offset;
                some_bytes = omega (arith, v.some_bytes);
                end_fits = omega (arith, o.1.end_fits);
              };
              same_start = refl;
              ordered = rw fits (IsOrdered-le (suc (end it)) _ rest (omega arith) o.2);
              cover = λ a.
                  rw fits (
                    ground
                      (arith, within_join (start fsi) (start it) fsi.length it.length a touch));
              sum = omega arith;
            },
          )
      | inr e ↦ (
        (fsi, it ∷ rest),
        rw (adj, e),
        record {
          item = v;
          same_start = refl;
          ordered = (ground arith, o.1, o.2);
          cover = λ a. refl;
          sum = refl;
        },
      )
    ]

-- The vector that an insertion leaves: in order, and covering what it covered and the item.
pub record IsInserted (front rest : List Item) (fsi : Item) (items : List Item) : Type 0 where
  pub ordered : IsOrdered 0 items
  pub cover : (a : ℕ) → covered items a ≡ (covers fsi a || (covered front a || covered rest a))
  pub sum : total items ≡ fsi.length + total front + total rest

-- Between items that end before it and items that begin behind it, an item is inserted and merged
-- with its neighbours, and nothing is thrown.
pub insert_free_space_item_lem :
    (front rest : List Item) (fsi : Item)
    → IsItem fsi
    → IsOrderedBack (suc (start fsi)) front
    → IsOrdered (end fsi) rest
    → (items : List Item) × (insert_free_space_item front rest fsi ≡ ok items)
      × IsInserted front rest fsi items
unfolding insert_free_space_item covered total
insert_free_space_item_lem front rest fsi v b o =
    let ((front', fsi'), run, m) = merge_previous_lem front fsi v b in
    let ((fsi'', rest'), run', m') =
      merge_current_lem rest fsi' m.item
        (IsOrdered-le (end fsi) (end fsi') rest (omega (arith, m.same_end)) o) in
    let same = m'.same_start in
    (
      rev_append front' (fsi'' ∷ rest'),
      rw (run, run'),
      record {
        ordered =
            rev_append-IsOrdered front' (fsi'' ∷ rest') (start fsi') m.ordered
              (ground (arith, same), m'.item, m'.ordered);
        cover = λ a. rw covered-rev_append (ground (arith, m.cover a, m'.cover a));
        sum = omega (arith, total-rev_append front' (fsi'' ∷ rest'), m.sum, m'.sum);
      },
    )
