-- ===== src/State/Cache/Slots.antt =====
-- The slots of the cache add up, and what is pinned or in use is not replaced.
use private_data_objects.Prelude.{
  ◌≡◌, refl, ◌∙◌, inl, inr, ℕ, zero, suc, ◌+◌, ◌<◌, arith, Bool, true, false, not, ◌||◌, none, some,
  ◌==◌, ltb, leb, length, if◌then◌else◌, Bool-cases, Option-cases,
}
use private_data_objects.Outcome.{ok, Outcome-cases, >>=-eq-ok}
use private_data_objects.Platform.{Platform}
use private_data_objects.State.Sebio.{Context}
use private_data_objects.State.DataNode.Persist.{unload}
use private_data_objects.State.StateNode.{Warehouse, update_datablock_id}
use private_data_objects.State.Cache.{
  Entry, Cache, new_cache, find, assign, erase, most_recent, release_slot, drop_entry, update_entry,
  sync_entry, flush_entry, replacement_policy_mru, replacement_loop, replacement_policy,
  block_cache_max_items,
}
use private_data_objects.State.Cache.Order.{
  IsAscending, IsAscending-assign, find-assign, length-assign_old, IsAscending-erase, find-erase,
  length-erase, most_recent-IsIdle,
}

abbrev pub is_used : Entry → Bool
is_used e = e.pinned || not (e.references == 0)

module _ {p : Platform} where
  -- The map is in order, and every slot is free or in it.
  pub record IsBalanced (c : Cache p) : Type 0 where
    pub ascending : IsAscending 0 c.block_cache
    pub slots : length c.block_cache + c.available_slots ≡ block_cache_max_items

  pub new_cache-IsBalanced : (bw : Warehouse) (w : p.World) → IsBalanced (new_cache bw w)
  new_cache-IsBalanced bw w = record { ascending = tt; slots = refl }

  pub update_entry_lem :
      (f : Entry → Entry) (n : ℕ) (c c' : Cache p)
      → IsBalanced c
      → update_entry f n c ≡ ok c'
      → IsBalanced c'
        × (e : Entry) × (find n c.block_cache ≡ some e)
        × ((j : ℕ) → find j c'.block_cache ≡ (if n == j then some (f e) else find j c.block_cache))
  unfolding update_entry
  update_entry_lem f n c c' b h = elim (Option-cases (find n c.block_cache)) [
    | inl g ↦ absurd (ground (arith, g, h))
    | inr (e, g) ↦
        let m = assign n (f e) c.block_cache in
        let w : c' ≡ record c { block_cache = m } = ground (arith, g, h) in
        rw w (
          record {
            ascending = IsAscending-assign 0 n (f e) c.block_cache (omega arith) b.ascending;
            slots =
                omega (arith, length-assign_old 0 n (f e) e c.block_cache b.ascending g, b.slots);
          },
          e,
          g,
          λ j. find-assign 0 n j (f e) c.block_cache b.ascending,
        )
  ]

  -- The entry of block `n` is gone and its slot is free.
  pub record IsRemoved (n : ℕ) (c c' : Cache p) : Type 0 where
    pub balanced : IsBalanced c'
    pub shorter : suc (length c'.block_cache) ≡ length c.block_cache
    pub rest : (j : ℕ) → find j c'.block_cache ≡ (if n == j then none else find j c.block_cache)

  drop_entry_lem :
      (n : ℕ) (c c' : Cache p) → IsBalanced c → drop_entry n c ≡ ok c' → IsRemoved n c c'
  unfolding drop_entry release_slot
  drop_entry_lem n c c' b h = elim (Option-cases (find n c.block_cache)) [
    | inl g ↦ absurd (ground (arith, g, h))
    | inr (e, g) ↦
        let shorter = length-erase n e c.block_cache g in
        let room : leb block_cache_max_items c.available_slots ≡ false =
          ground (arith, b.slots, shorter) in
        let w : c' ≡ record c {
          available_slots = c.available_slots + 1;
          block_cache = erase n c.block_cache;
        } =
          ground (arith, g, h, room) in
        let a : IsRemoved n c (record c {
          available_slots = c.available_slots + 1;
          block_cache = erase n c.block_cache;
        }) =
          record {
            balanced = record {
              ascending = IsAscending-erase 0 n c.block_cache b.ascending;
              slots = omega (arith, b.slots, shorter);
            };
            shorter = shorter;
            rest = λ j. find-erase 0 n j c.block_cache b.ascending;
          } in
        rw w a
  ]

  module _ (ctx : Context) where
    sync_entry_lem :
        (n : ℕ) (c c' : Cache p)
        → IsBalanced c
        → sync_entry ctx n c ≡ ok c'
        → IsBalanced c'
          × (length c'.block_cache ≡ length c.block_cache)
          × ((j : ℕ) → (n == j) ≡ false → find j c'.block_cache ≡ find j c.block_cache)
    unfolding sync_entry
    sync_entry_lem n c c' b h = elim (Option-cases (find n c.block_cache)) [
      | inl g ↦ absurd (ground (arith, g, h))
      | inr (e, g) ↦ elim (Bool-cases e.modified) [
        | inr clean ↦
            let w : c' ≡ c = ground (arith, g, clean, h) in rw w (b, refl, λ j other. refl)
        | inl dirty ↦
            elim (Outcome-cases (unload p ctx e.dn c.warehouse.state_encryption_key c.world)) [
              | inr (x, u) ↦ absurd (ground (arith, g, dirty, u, h))
              | inl ((id, dn, w), u) ↦ elim (Outcome-cases (update_datablock_id n id c.warehouse)) [
                | inr (x, k) ↦ absurd (ground (arith, g, dirty, u, k, h))
                | inl (bw, k) ↦
                    let e' = record e { modified = false; dn = dn } in
                    let same : c'.block_cache ≡ assign n e' c.block_cache =
                      ground (arith, g, dirty, u, k, h) in
                    let slots : c'.available_slots ≡ c.available_slots =
                      ground (arith, g, dirty, u, k, h) in
                    let len = length-assign_old 0 n e' e c.block_cache b.ascending g in
                    (
                      record {
                        ascending =
                            rw same
                              (IsAscending-assign 0 n e' c.block_cache (omega arith) b.ascending);
                        slots = rw (same, slots) (omega (arith, len, b.slots));
                      },
                      rw same len,
                      λ j other.
                          rw same
                            (ground (arith, other, find-assign 0 n j e' c.block_cache b.ascending)),
                    )
              ]
            ]
      ]
    ]

    pub flush_entry_lem :
        (n : ℕ) (c c' : Cache p) → IsBalanced c → flush_entry ctx n c ≡ ok c' → IsRemoved n c c'
    unfolding flush_entry
    flush_entry_lem n c c' b h =
        let (d, synced, dropped) = >>=-eq-ok (sync_entry ctx n c) _ h in
        let (b', len, others) = sync_entry_lem n c d b synced in
        let r = drop_entry_lem n d c' b' dropped in
        record {
          balanced = r.balanced;
          shorter = r.shorter ∙ len;
          rest = λ j. ground (arith, r.rest j, others j);
        }

    -- There is a free slot, and every entry that was pinned or in use is as it was.
    pub record IsRoom (c c' : Cache p) : Type 0 where
      pub balanced : IsBalanced c'
      pub room : 0 < c'.available_slots
      pub kept :
          (j : ℕ) (e : Entry)
          → find j c.block_cache ≡ some e
          → is_used e ≡ true
          → find j c'.block_cache ≡ some e
      pub fewer : (j : ℕ) → find j c.block_cache ≡ none → find j c'.block_cache ≡ none

    replacement_policy_mru_lem :
        (c c' : Cache p) → IsBalanced c → replacement_policy_mru ctx c ≡ ok c' → IsRoom c c'
    unfolding replacement_policy_mru
    replacement_policy_mru_lem c c' b h = elim (Option-cases (most_recent c.block_cache none)) [
      | inl g ↦ absurd (ground (arith, g, h))
      | inr ((n, clock), g) ↦
          let flushed : flush_entry ctx n c ≡ ok c' = ground (arith, g, h) in
          let r = flush_entry_lem n c c' b flushed in
          elim (most_recent-IsIdle 0 c.block_cache none (n, clock) b.ascending g) [
            | inl x ↦ absurd (ground (arith, x))
            | inr (idle_entry, f, idle) ↦ record {
              balanced = r.balanced;
              room = omega (arith, r.balanced.slots, r.shorter, b.slots);
              kept = λ j e found used. ground (arith, found, used, f, idle, r.rest j);
              fewer = λ j absent. ground (arith, absent, r.rest j);
            }
          ]
    ]

    replacement_loop_lem :
        (fuel : ℕ) (c c' : Cache p)
        → IsBalanced c
        → length c.block_cache < block_cache_max_items + fuel
        → replacement_loop ctx fuel c ≡ ok c'
        → IsRoom c c'
    unfolding replacement_loop
    replacement_loop_lem zero c c' b enough h =
        let w : c' ≡ c = ground (arith, h) in
        rw w (record {
          balanced = b;
          room = omega (arith, b.slots);
          kept = λ j e found used. found;
          fewer = λ j absent. absent;
        })
    replacement_loop_lem (suc fuel) c c' b enough h =
        elim (Bool-cases (ltb (length c.block_cache) block_cache_max_items)) [
          | inl small ↦
              let w : c' ≡ c = ground (arith, small, h) in
              rw w (record {
                balanced = b;
                room = ground (arith, b.slots, small);
                kept = λ j e found used. found;
                fewer = λ j absent. absent;
              })
          | inr full ↦ elim (Outcome-cases (replacement_policy_mru ctx c)) [
            | inr (x, g) ↦ absurd (ground (arith, full, g, h))
            | inl (d, g) ↦
                let r = replacement_policy_mru_lem c d b g in
                let more : replacement_loop ctx fuel d ≡ ok c' = ground (arith, full, g, h) in
                let t =
                  replacement_loop_lem fuel d c' r.balanced
                    (omega (arith, r.balanced.slots, r.room, b.slots)) more in
                record {
                  balanced = t.balanced;
                  room = t.room;
                  kept = λ j e found used. t.kept j e (r.kept j e found used) used;
                  fewer = λ j absent. t.fewer j (r.fewer j absent);
                }
          ]
        ]

    pub replacement_policy_lem :
        (c c' : Cache p) → IsBalanced c → replacement_policy ctx c ≡ ok c' → IsRoom c c'
    unfolding replacement_policy
    replacement_policy_lem c c' b h =
        let run : replacement_loop ctx (length c.block_cache) c ≡ ok c' =
          ground (arith, h, b.slots) in
        replacement_loop_lem (length c.block_cache) c c' b (omega (arith, b.slots)) run
