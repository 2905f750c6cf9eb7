-- ===== src/State/Cache/Flush.antt =====
-- `flush`: the cache is empty afterwards.
use private_data_objects.Prelude.{
  ◌≡◌, refl, inl, inr, ℕ, zero, suc, ◌≤◌, arith, [], ◌∷◌, none, length, Option-cases,
}
use private_data_objects.Outcome.{ok, ◌>>=◌, >>=-eq-ok}
use private_data_objects.Platform.{Platform}
use private_data_objects.State.Sebio.{Context}
use private_data_objects.State.Cache.{
  Entries, Cache, begin, flush_entry, flush_loop, flush, block_cache_max_items,
}
use private_data_objects.State.Cache.Slots.{IsBalanced, flush_entry_lem}

length-zero : (m : Entries) → length m ≤ 0 → m ≡ []
length-zero [] h = refl
length-zero (x ∷ m) h = absurd (omega arith)

begin-none : (m : Entries) → begin m ≡ none → m ≡ []
unfolding begin
begin-none [] h = refl
begin-none (x ∷ m) h = cc

module _ {p : Platform} where
  module _ (ctx : Context) where
    flush_loop_lem :
        (fuel : ℕ) (c c' : Cache p)
        → IsBalanced c
        → length c.block_cache ≤ fuel
        → flush_loop ctx fuel c ≡ ok c'
        → (c'.block_cache ≡ []) × (c'.available_slots ≡ block_cache_max_items)
    unfolding flush_loop
    flush_loop_lem zero c c' b enough h =
        let w : c' ≡ c = ground (arith, h) in
        let empty : c.block_cache ≡ [] = length-zero c.block_cache (omega arith) in
        rw w (empty, (ground (arith, empty, b.slots)))
    flush_loop_lem (suc fuel) c c' b enough h = elim (Option-cases (begin c.block_cache)) [
      | inl g ↦
          let empty = begin-none c.block_cache g in
          let w : c' ≡ c = ground (arith, g, h) in rw w (empty, (ground (arith, empty, b.slots)))
      | inr (n, g) ↦
          let h' : (flush_entry ctx n c >>= flush_loop ctx fuel) ≡ ok c' =
            rw (g, flush_loop) at h in
          let (d, flushed, more) = >>=-eq-ok (flush_entry ctx n c) (flush_loop ctx fuel) h' in
          let r = flush_entry_lem ctx n c d b flushed in
          flush_loop_lem fuel d c' r.balanced (omega (arith, r.shorter)) more
    ]

    -- A flush that throws nothing empties the cache, so that its fuel is enough, and frees every slot.
    pub flush_lem :
        (c c' : Cache p)
        → IsBalanced c
        → flush ctx c ≡ ok c'
        → (c'.block_cache ≡ []) × (c'.available_slots ≡ block_cache_max_items)
    unfolding flush
    flush_lem c c' b h = flush_loop_lem (length c.block_cache) c c' b (omega arith) h
