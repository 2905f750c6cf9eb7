-- ===== src/State/FreeSpace/Allocate.antt =====
-- `allocate`: what it hands out was free and is free no more, and it fails only if there is no
-- run of free bytes that is long enough.
use private_data_objects.Prelude.{
  ℕ, suc, ◌+◌, ◌-◌, ◌≤◌, ◌<◌, ◌≡◌, ◌⊎◌, inl, inr, refl, ◌∙◌, Bool, true, false, ◌||◌, arith, u32,
  List, [], ◌∷◌, leb, ◌==◌, ==_iff, Bool-cases, Option, some, none,
}
use private_data_objects.Outcome.{ok}
use private_data_objects.State.Offset.{Offset, advance_block_offset}
use private_data_objects.State.Offset.Address.{IsOffset, address, advance_lem}
use private_data_objects.State.FreeSpace.{
  Item, Collector, first_fit, allocate_scan, allocate, collect_deferred,
}
use private_data_objects.State.FreeSpace.Region.{
  end, within, covers, covered, total, IsOrdered, IsApart, IsOrdered-le,
}
use private_data_objects.State.FreeSpace.Collect.{
  free, free_total, IsCollector, IsFolded, collect_deferred_lem,
}

-- A run of `len` bytes in the list.
abbrev pub IsRun : (ℕ → Bool) → ℕ → ℕ → Type 0
IsRun f len lo = (a : ℕ) → within lo len a ≡ true → f a ≡ true

-- Nothing below where an ordered list begins is covered.
uncovered_below :
    (lo : ℕ) (xs : List Item) (a : ℕ) → IsOrdered lo xs → a < lo → covered xs a ≡ false
unfolding covered
uncovered_below lo [] a o h = refl
uncovered_below lo (x ∷ xs) a o h =
    ground (arith, uncovered_below (suc (end x)) xs a o.2, o.1.some_bytes)

-- What the first fit takes out of an ordered vector.
pub record IsTaken (lo len : ℕ) (xs : List Item) (r : Offset × List Item) : Type 0 where
  pub offset : IsOffset r.0
  pub begins : lo ≤ address r.0
  pub ends : address r.0 + len < u32
  pub ordered : IsOrdered lo r.1
  pub cover : (a : ℕ) → covered xs a ≡ (within (address r.0) len a || covered r.1 a)
  pub apart : (a : ℕ) → within (address r.0) len a ≡ true → covered r.1 a ≡ false
  pub sum : total xs ≡ len + total r.1

-- The run is not in the first item, and so is in the others, of which the first begins behind a gap.
IsRun-rest :
    (lo len : ℕ) (x : Item) (xs : List Item)
    → 0 < len
    → IsOrdered lo (x ∷ xs)
    → x.length < len
    → (b : ℕ) → IsRun (covered (x ∷ xs)) len b
    → IsRun (covered xs) len b
unfolding covered
IsRun-rest lo len x xs pos o short b run a w = ground (
  arith,
  run a w,
  run b,
  run (end x),
  uncovered_below (suc (end x)) xs a o.2,
  uncovered_below (suc (end x)) xs b o.2,
  uncovered_below (suc (end x)) xs (end x) o.2,
)

-- The first fit takes its bytes out of an ordered vector; there is none only if the vector
-- covers no run of that length.
first_fit_lem :
    (lo len : ℕ) (xs : List Item)
    → 0 < len
    → IsOrdered lo xs
    → ((first_fit len xs ≡ none) × ((b : ℕ) → ¬ IsRun (covered xs) len b))
      ⊎ ((r : Offset × List Item) × (first_fit len xs ≡ some r) × IsTaken lo len xs r)
unfolding first_fit covered total
first_fit_lem lo len [] pos o = inl (refl, λ b run. ground (arith, run b))
first_fit_lem lo len (x ∷ xs) pos o = elim (Bool-cases (leb len x.length)) [
  | inl fits ↦ elim (Bool-cases (x.length == len)) [
    | inl e ↦ inr (
      (x.bo, xs),
      rw (fits, e),
      record {
        offset = o.1.offset;
        begins = o.0;
        ends = ground (arith, o.1.end_fits);
        ordered = IsOrdered-le (suc (end x)) lo xs (omega arith) o.2;
        cover = λ a. ground arith;
        apart = λ a w. ground (arith, uncovered_below (suc (end x)) xs a o.2);
        sum = ground arith;
      },
    )
    | inr e ↦
        let adv = advance_lem x.bo len o.1.offset (ground (arith, o.1.end_fits)) in
        inr (
          (x.bo, record { bo = advance_block_offset x.bo len; length = x.length - len } ∷ xs),
          rw (fits, e),
          record {
            offset = o.1.offset;
            begins = o.0;
            ends = ground (arith, o.1.end_fits);
            ordered = (
              omega (arith, adv.1),
              record {
                offset = adv.0;
                some_bytes = ground arith;
                end_fits = ground (arith, adv.1, o.1.end_fits);
              },
              IsOrdered-le (suc (end x)) _ xs (ground (arith, adv.1)) o.2,
            );
            cover = λ a. ground (arith, adv.1);
            apart = λ a w. ground (arith, adv.1, uncovered_below (suc (end x)) xs a o.2);
            sum = ground arith;
          },
        )
  ]
  | inr short ↦ elim (first_fit_lem (suc (end x)) len xs pos o.2) [
    | inl (absent, no_run) ↦
        inl (
          rw (short, absent),
          λ b run. no_run b (IsRun-rest lo len x xs pos o (ground arith) b run),
        )
    | inr ((bo, rest), found, t) ↦ inr (
      (bo, x ∷ rest),
      rw (short, found),
      record {
        offset = t.offset;
        begins = omega (arith, t.begins);
        ends = t.ends;
        ordered = (o.0, o.1, t.ordered);
        cover = λ a. ground (arith, t.cover a);
        apart = λ a w. ground (arith, t.apart a w, t.begins);
        sum = omega (arith, t.sum);
      },
    )
  ]
]

IsApart-uncovered :
    (y : Item) (xs : List Item) (a : ℕ) → IsApart y xs → covers y a ≡ true → covered xs a ≡ false
unfolding covered
IsApart-uncovered y [] a h c = refl
IsApart-uncovered y (x ∷ xs) a h c = ground (arith, h.0, IsApart-uncovered y xs a h.1 c)

-- The bytes at `bo` were free, are free no more, and nothing else has changed.
pub record IsAllocated (c : Collector) (len : ℕ) (bo : Offset) (c' : Collector) : Type 0 where
  pub offset : IsOffset bo
  pub ends : address bo + len < u32
  pub valid : IsCollector c'
  pub cover : (a : ℕ) → free c a ≡ (within (address bo) len a || free c' a)
  pub apart : (a : ℕ) → within (address bo) len a ≡ true → free c' a ≡ false
  pub sum : free_total c ≡ len + free_total c'

-- No run of `len` free bytes exists, and the free bytes are what they were.
pub record IsExhausted (c : Collector) (len : ℕ) (c' : Collector) : Type 0 where
  pub no_run : (b : ℕ) → ¬ IsRun (free c) len b
  pub valid : IsCollector c'
  pub cover : (a : ℕ) → free c' a ≡ free c a

abbrev pub AllocateSpec : Collector → ℕ → Option Offset × Collector → Type 0
AllocateSpec c len (some bo, c') = IsAllocated c len bo c'
AllocateSpec c len (none, c') = IsExhausted c len c'

allocate_scan_lem :
    (c c₀ : Collector) (len : ℕ)
    → 0 < len
    → IsFolded c c₀
    → AllocateSpec c len (allocate_scan len c₀)
unfolding allocate_scan
allocate_scan_lem c c₀ len pos f = elim (first_fit_lem 0 len c₀.collection pos f.ordered) [
  | inl (absent, no_run) ↦
      rw (absent, AllocateSpec, allocate_scan)
        (record {
          no_run = λ b run. no_run b (λ a w. f.cover a ∙ run a w);
          valid = record {
            ordered = f.ordered;
            deferred = λ e. absurd (ground (arith, f.settled));
          };
          cover = λ a. ground (arith, f.cover a, f.settled);
        })
  | inr ((bo, rest), found, t) ↦
      rw (found, AllocateSpec, allocate_scan)
        (record {
          offset = t.offset;
          ends = t.ends;
          valid = record {
            ordered = t.ordered;
            deferred = λ e. absurd (ground (arith, f.settled));
          };
          cover = λ a. ground (arith, f.cover a, f.settled, t.cover a);
          apart = λ a w. ground (arith, f.settled, t.apart a w);
          sum = ground (arith, f.sum, t.sum, f.settled);
        })
]

-- On a well formed collector and for one or more bytes, `allocate` does not throw. If it finds space,
-- the bytes that it hands out were free and are free no more, no other byte changes, and the collector
-- stays well formed; if it finds none, there is no run of that many free bytes.
pub allocate_lem :
    (len : ℕ) (c : Collector)
    → 0 < len
    → IsCollector c
    → (r : Option Offset × Collector) × (allocate len c ≡ ok r) × AllocateSpec c len r
unfolding allocate collect_deferred
allocate_lem len c pos v =
    let (c₀, run, f) = collect_deferred_lem c v in
    elim (Bool-cases c.is_fsi_deferred) [
      | inr e ↦ (allocate_scan len c₀, ground (arith, e, run), allocate_scan_lem c c₀ len pos f)
      | inl e ↦ elim (Bool-cases (c.deferred_fsi.length == len)) [
        | inl same ↦
            let (item, apart) = v.deferred e in
            let size : c.deferred_fsi.length ≡ len = (==_iff _ _).0 same in
            (
              (some c.deferred_fsi.bo, record c { is_fsi_deferred = false }),
              rw (e, same),
              record {
                offset = item.offset;
                ends = rw (← size) item.end_fits;
                valid = record { ordered = v.ordered; deferred = λ h. absurd (ground arith) };
                cover = λ a. ground (arith, e, size);
                apart = λ a w.
                    ground (arith, size, IsApart-uncovered c.deferred_fsi c.collection a apart);
                sum = ground (arith, e, size);
              },
            )
        | inr other ↦
            (allocate_scan len c₀, ground (arith, e, other, run), allocate_scan_lem c c₀ len pos f)
      ]
    ]
