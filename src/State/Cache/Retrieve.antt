-- ===== src/State/Cache/Retrieve.antt =====
-- `retrieve`: the block is in the cache and counted as in use, and no used entry is lost for it.
use private_data_objects.Prelude.{
  ◌≡◌, refl, sym, ap, ◌∙◌, inl, inr, ℕ, ◌+◌, ◌-◌, ◌%◌, ◌^◌, ◌<◌, arith, Bool, true, false, none,
  some, ByteArray, ◌==◌, u32, if◌then◌else◌, Option-cases,
}
use private_data_objects.Outcome.{Outcome, ok, Outcome-cases, >>=-eq-ok}
use private_data_objects.Platform.{Platform}
use private_data_objects.State.Sebio.{Context}
use private_data_objects.State.DataNode.{DataNode, new_data_node}
use private_data_objects.State.DataNode.Persist.{load}
use private_data_objects.State.StateNode.{get_datablock_id_from_datablock_num}
use private_data_objects.State.Cache.{
  Entry, Cache, find, assign, allocate_slot, put, update_entry, pin, replacement_policy,
  fetch_block, retrieve,
}
use private_data_objects.State.Cache.Order.{IsAscending-assign, find-assign, length-assign_new}
use private_data_objects.State.Cache.Slots.{
  is_used, IsBalanced, update_entry_lem, IsRoom, replacement_policy_lem,
}

module _ {p : Platform} where
  -- Block `n` has a new entry, and the others are as they were.
  pub record IsPlaced (n : ℕ) (pinned : Bool) (dn : DataNode) (c c' : Cache p) : Type 0 where
    pub balanced : IsBalanced c'
    pub entry : Entry
    pub found : find n c'.block_cache ≡ some entry
    pub is_pinned : entry.pinned ≡ pinned
    pub unused : entry.references ≡ 0
    pub clean : entry.modified ≡ false
    pub holds : entry.dn ≡ dn
    pub others : (j : ℕ) → (n == j) ≡ false → find j c'.block_cache ≡ find j c.block_cache

  put_lem :
      (n : ℕ) (dn : DataNode) (c c₂ d : Cache p)
      → IsBalanced c
      → 0 < c.available_slots
      → find n c.block_cache ≡ none
      → c₂ ≡ record c { available_slots = c.available_slots - 1 }
      → put n dn c₂ ≡ ok d
      → IsPlaced n false dn c d
  unfolding put
  put_lem n dn c c₂ d b room absent taken h =
      let e : Entry = record {
        pinned = false;
        references = 0;
        modified = false;
        clock = c.cache_clock;
        dn = dn;
      } in
      let m = assign n e c.block_cache in
      let len = length-assign_new 0 n e c.block_cache b.ascending absent in
      let w : d ≡ record c {
        available_slots = c.available_slots - 1;
        block_cache = m;
        cache_clock = (c.cache_clock + 1) % 2 ^ 64;
      } =
        ground (arith, absent, taken, h) in
      let a : IsPlaced n false dn c (record c {
        available_slots = c.available_slots - 1;
        block_cache = m;
        cache_clock = (c.cache_clock + 1) % 2 ^ 64;
      }) =
        record {
          balanced = record {
            ascending = IsAscending-assign 0 n e c.block_cache (omega arith) b.ascending;
            slots = omega (arith, len, b.slots, room);
          };
          entry = e;
          found = ground (arith, find-assign 0 n n e c.block_cache b.ascending);
          is_pinned = refl;
          unused = refl;
          clean = refl;
          holds = refl;
          others = λ j other. ground (arith, other, find-assign 0 n j e c.block_cache b.ascending);
        } in
      rw w a

  pin_lem :
      (n : ℕ) (pinned : Bool) (dn : DataNode) (c d c' : Cache p)
      → IsPlaced n false dn c d
      → (if pinned then pin n d else ok d) ≡ ok c'
      → IsPlaced n pinned dn c c'
  unfolding pin
  pin_lem n false dn c d c' q h = let w : c' ≡ d = ground (arith, h) in rw w q
  pin_lem n true dn c d c' q h =
      let (b, e, g, f) = update_entry_lem (λ e. record e { pinned = true }) n d c' q.balanced h in
      let same : e ≡ q.entry = ground (arith, g, q.found) in
      record {
        balanced = b;
        entry = record e { pinned = true };
        found = ground (arith, f n);
        is_pinned = refl;
        unused = rw same q.unused;
        clean = rw same q.clean;
        holds = rw same q.holds;
        others = λ j other. ground (arith, f j, other, q.others j other);
      }

  module _ (ctx : Context) where
    -- The block that a fetch brings in is the one that the warehouse names.
    pub record IsFetched (n : ℕ) (pinned : Bool) (c c' : Cache p) : Type 0 where
      pub dn : DataNode
      pub before : Cache p
      pub room : IsRoom ctx c before
      pub id : ByteArray
      pub named : get_datablock_id_from_datablock_num n before.warehouse ≡ ok id
      pub loaded :
          load p ctx
            (record (new_data_node 0) { original_id = id })
            before.warehouse.state_encryption_key
            before.world
          ≡ ok dn
      pub placed : IsPlaced n pinned dn before c'

    fetch_block_lem :
        (n : ℕ) (pinned : Bool) (c c' : Cache p)
        → IsBalanced c
        → find n c.block_cache ≡ none
        → fetch_block ctx n pinned c ≡ ok c'
        → IsFetched n pinned c c'
    unfolding fetch_block allocate_slot
    fetch_block_lem n pinned c c' b absent h =
        let (c₁, replaced, h₁) = >>=-eq-ok (replacement_policy ctx c) _ h in
        let r = replacement_policy_lem ctx c c₁ b replaced in
        let (id, known, h₂) = >>=-eq-ok (get_datablock_id_from_datablock_num n c₁.warehouse) _ h₁ in
        let (c₂, allocated, h₃) = >>=-eq-ok (allocate_slot c₁) _ h₂ in
        let w : c₂ ≡ record c₁ { available_slots = c₁.available_slots - 1 } =
          ground (arith, r.room, allocated) in
        let (dn, loaded, h₄) =
          >>=-eq-ok
            (load p ctx (record (new_data_node 0) { original_id = id })
              c₂.warehouse.state_encryption_key c₂.world)
            _ h₃ in
        let (d, put_in, h₅) = >>=-eq-ok (put n dn c₂) _ h₄ in
        let q = put_lem n dn c₁ c₂ d r.balanced r.room (r.fewer n absent) w put_in in
        let reading : Cache p → Outcome DataNode = λ x.
          load p ctx (record (new_data_node 0) { original_id = id })
            x.warehouse.state_encryption_key x.world in
        record {
          dn = dn;
          before = c₁;
          room = r;
          id = id;
          named = known;
          loaded = ap reading (sym w) ∙ loaded;
          placed = pin_lem n pinned dn c₁ d c' q h₅;
        }

    pub record IsRetrieved (n : ℕ) (pinned : Bool) (c c' : Cache p) : Type 0 where
      pub balanced : IsBalanced c'
      pub entry : Entry
      pub found : find n c'.block_cache ≡ some entry
      -- A cached entry is counted once more, and is else as it was.
      pub cached :
          (e : Entry)
          → find n c.block_cache ≡ some e
          → entry ≡ record e { references = (e.references + 1) % u32 }
      pub fetched :
          find n c.block_cache ≡ none
          → (entry.references ≡ 1) × (entry.pinned ≡ pinned) × (entry.modified ≡ false)
      pub kept :
          (j : ℕ) (e : Entry)
          → (n == j) ≡ false
          → find j c.block_cache ≡ some e
          → is_used e ≡ true
          → find j c'.block_cache ≡ some e

    -- A retrieval that throws nothing leaves the map in order and every slot free or in the map. The
    -- block is in the cache: with one reference more if it was there before, and else with one
    -- reference, not modified, and pinned if that was asked for. Every other entry that was pinned or in
    -- use is as it was.
    pub retrieve_lem :
        (n : ℕ) (pinned : Bool) (c c' : Cache p)
        → IsBalanced c
        → retrieve ctx n pinned c ≡ ok c'
        → IsRetrieved n pinned c c'
    unfolding retrieve
    retrieve_lem n pinned c c' b h = elim (Option-cases (find n c.block_cache)) [
      | inr (e, g) ↦
          let counted : update_entry (λ e. record e { references = (e.references + 1) % u32 }) n c
              ≡ ok c' =
            ground (arith, g, h) in
          let (b', e', g', f) =
            update_entry_lem (λ e. record e { references = (e.references + 1) % u32 }) n c c' b
              counted in
          let same : e' ≡ e = ground (arith, g, g') in
          record {
            balanced = b';
            entry = record e { references = (e.references + 1) % u32 };
            found = rw (sym same) (ground (arith, f n));
            cached = λ x k. let x_same : x ≡ e = ground (arith, g, k) in rw x_same refl;
            fetched = λ k. absurd (ground (arith, g, k));
            kept = λ j x other k used. ground (arith, f j, other, k);
          }
      | inl g ↦ elim (Outcome-cases (fetch_block ctx n pinned c)) [
        | inr (x, k) ↦ absurd (ground (arith, g, k, h))
        | inl (d, k) ↦
            let t = fetch_block_lem n pinned c d b g k in
            let q = t.placed in
            let counted : update_entry (λ e. record e { references = (e.references + 1) % u32 }) n d
                ≡ ok c' =
              ground (arith, g, k, h) in
            let (b', e', g', f) =
              update_entry_lem (λ e. record e { references = (e.references + 1) % u32 }) n d c'
                q.balanced counted in
            let same : e' ≡ q.entry = ground (arith, q.found, g') in
            record {
              balanced = b';
              entry = record e' { references = (e'.references + 1) % u32 };
              found = ground (arith, f n);
              cached = λ x z. absurd (ground (arith, g, z));
              fetched = λ _. rw same ((ground (arith, q.unused)), q.is_pinned, q.clean);
              kept = λ j x other z used.
                  ground (arith, f j, other, q.others j other, t.room.kept j x z used);
            }
      ]
    ]
