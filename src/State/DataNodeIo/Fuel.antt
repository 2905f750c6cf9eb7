-- ===== src/State/DataNodeIo/Fuel.antt =====
-- The loops of `write_across_data_nodes` and `read_across_data_nodes` end.
use private_data_objects.Prelude.{
  ◌≡◌, refl, ℕ, zero, suc, ◌+◌, ◌-◌, ◌%◌, ◌≤◌, ◌<◌, false, inl, inr, ByteArray, ltb, leb, u32,
  arith, if◌then◌else◌, length, Bool-cases,
}
use private_data_objects.Outcome.{ok, undefined, >>=-eq-ok, Outcome-cases}
use private_data_objects.Platform.{Platform}
use private_data_objects.State.Offset.{Offset, advance_block_offset}
use private_data_objects.State.DataNode.{DataNode, transferable, write_at, read_at}
use private_data_objects.State.Sebio.{Context}
use private_data_objects.State.StateNode.{or_throw, get_last_block_num}
use private_data_objects.State.Cache.{find, update_entry, done, retrieve}
use private_data_objects.State.DataNodeIo.{
  DataNodeIo, add_and_init_append_data_node_cond, write_round, write_loop, write_across_data_nodes,
  read_round, read_loop, read_across_data_nodes,
}

-- How many bytes a round moves: no more than are left and fit, and none only at the end of the block.
record IsRound (left moved : ℕ) (bo : Offset) : Type 0 where
  bounded : moved ≤ left
  fits : bo.bytes + moved ≤ 8192
  none_at_end : moved ≡ 0 → bo.bytes ≡ 8192

transferable-IsRound :
    (left : ℕ) (bo : Offset) → 0 < left → bo.bytes ≤ 8192 → IsRound left (transferable left bo) bo
transferable-IsRound left bo some_left inside = record {
  bounded = ground arith;
  fits = ground arith;
  none_at_end = λ e. ground (arith, e);
}

write_at-IsRound :
    (dn dn' : DataNode) (buffer : ByteArray) (total written : ℕ) (bo : Offset)
    → length buffer < u32
    → total < length buffer
    → bo.bytes ≤ 8192
    → write_at dn buffer total bo ≡ ok (written, dn')
    → IsRound (length buffer - total) written bo
unfolding write_at
write_at-IsRound dn dn' buffer total written bo short some_left inside h =
    let left : (length buffer + u32 - total) % u32 ≡ length buffer - total = omega arith in
    let n : written ≡ transferable (length buffer - total) bo =
      (let h' = rw left at h in ground (arith, h')) in
    rw n (transferable-IsRound (length buffer - total) bo (omega arith) inside)

read_at-IsRound :
    (dn : DataNode) (bo : Offset) (left bytes_read : ℕ) (out out' : ByteArray)
    → 0 < left
    → bo.bytes ≤ 8192
    → read_at dn bo left out ≡ ok (bytes_read, out')
    → IsRound left bytes_read bo
unfolding read_at
read_at-IsRound dn bo left bytes_read out out' some_left inside h =
    let n : bytes_read ≡ transferable left bo = ground (arith, h) in
    rw n (transferable-IsRound left bo some_left inside)

-- After a round the offset is before the end of its block.
advance-before_end :
    (bo : Offset) (left moved : ℕ)
    → IsRound left moved bo
    → (advance_block_offset bo moved).bytes < 8192
unfolding advance_block_offset
advance-before_end bo left moved r = ground (arith, r.fits)

-- How many rounds a loop has at most: the first one may move nothing.
abbrev rounds : ℕ → Offset → ℕ
rounds left bo = if leb 8192 bo.bytes then left + 1 else left

rounds-decrease :
    (left moved fuel : ℕ) (bo : Offset)
    → IsRound left moved bo
    → rounds left bo < suc fuel
    → 0 < left
    → rounds (left - moved) (advance_block_offset bo moved) < fuel
rounds-decrease left moved fuel bo r enough some_left =
    let before = advance-before_end bo left moved r in
    ground (arith, before, r.bounded, r.none_at_end, enough, some_left)

module _ {p : Platform} (ctx : Context) where
  write_round-IsRound :
      (buffer : ByteArray) (total written : ℕ) (bo : Offset) (io io' : DataNodeIo p)
      → length buffer < u32
      → total < length buffer
      → bo.bytes ≤ 8192
      → write_round ctx buffer total bo io ≡ ok (written, io')
      → IsRound (length buffer - total) written bo
  unfolding write_round
  write_round-IsRound buffer total written bo io io' short some_left inside h =
      let last = get_last_block_num io.cache.warehouse in
      let (io₁, e₁, h₁) =
        >>=-eq-ok (add_and_init_append_data_node_cond ctx (ltb last bo.block_num) io) _ h in
      let (c₁, e₂, h₂) = >>=-eq-ok (retrieve ctx bo.block_num false io₁.cache) _ h₁ in
      let (e, e₃, h₃) = >>=-eq-ok (or_throw (find bo.block_num c₁.block_cache) undefined) _ h₂ in
      let ((n, dn), e₄, h₄) = >>=-eq-ok (write_at e.dn buffer total bo) _ h₃ in
      let (c₂, e₅, h₅) =
        >>=-eq-ok (update_entry (λ e. record e { dn = dn }) bo.block_num c₁) _ h₄ in
      let (c₃, e₆, h₆) = >>=-eq-ok (done bo.block_num (ltb 0 n) c₂) _ h₅ in
      let same : n ≡ written = ground (arith, h₆) in
      rw (← same) (write_at-IsRound e.dn dn buffer total n bo short some_left inside e₄)

  read_round-IsRound :
      (bo : Offset) (left bytes_read : ℕ) (out out' : ByteArray) (io io' : DataNodeIo p)
      → 0 < left
      → bo.bytes ≤ 8192
      → read_round ctx bo left out io ≡ ok (bytes_read, out', io')
      → IsRound left bytes_read bo
  unfolding read_round
  read_round-IsRound bo left bytes_read out out' io io' some_left inside h =
      let (c₁, e₁, h₁) = >>=-eq-ok (retrieve ctx bo.block_num false io.cache) _ h in
      let (e, e₂, h₂) = >>=-eq-ok (or_throw (find bo.block_num c₁.block_cache) undefined) _ h₁ in
      let ((n, more), e₃, h₃) = >>=-eq-ok (read_at e.dn bo left out) _ h₂ in
      let (c₂, e₄, h₄) = >>=-eq-ok (done bo.block_num false c₁) _ h₃ in
      let same : n ≡ bytes_read = ground (arith, h₄) in
      rw (← same) (read_at-IsRound e.dn bo left n out more some_left inside e₃)

  write_loop-fuel :
      (fuel fuel' : ℕ) (buffer : ByteArray) (total : ℕ) (bo : Offset) (io : DataNodeIo p)
      → length buffer < u32
      → bo.bytes ≤ 8192
      → rounds (length buffer - total) bo < fuel
      → fuel ≤ fuel'
      → write_loop ctx fuel' buffer total bo io ≡ write_loop ctx fuel buffer total bo io
  unfolding write_loop
  write_loop-fuel zero fuel' buffer total bo io short inside enough more = absurd (omega arith)
  write_loop-fuel (suc fuel) zero buffer total bo io short inside enough more = absurd (omega arith)
  write_loop-fuel (suc fuel) (suc fuel') buffer total bo io short inside enough more =
      elim (Bool-cases (ltb total (length buffer))) [
        | inr over ↦ rw over refl
        | inl left ↦ elim (Outcome-cases (write_round ctx buffer total bo io)) [
          | inr (x, e) ↦ rw (left, e) refl
          | inl ((written, io'), e) ↦
              let some_left : total < length buffer = ground (arith, left) in
              let r = write_round-IsRound buffer total written bo io io' short some_left inside e in
              let fits : (total + written) % u32 ≡ total + written = omega (arith, r.bounded) in
              let same : length buffer - (total + written) ≡ length buffer - total - written =
                omega arith in
              let less : rounds (length buffer - (total + written))
                    (advance_block_offset bo written)
                  < fuel =
                rw same (
                  rounds-decrease (length buffer - total) written fuel bo r enough (omega arith)) in
              let before = advance-before_end bo (length buffer - total) written r in
              rw (left, e, fits)
                (write_loop-fuel fuel fuel' buffer (total + written)
                  (advance_block_offset bo written) io' short (omega arith) less (omega arith))
        ]
      ]

  read_loop-fuel :
      (fuel fuel' : ℕ) (bo : Offset) (length total : ℕ) (out : ByteArray) (io : DataNodeIo p)
      → length < u32
      → bo.bytes ≤ 8192
      → rounds (length - total) bo < fuel
      → fuel ≤ fuel'
      → read_loop ctx fuel' bo length total out io ≡ read_loop ctx fuel bo length total out io
  unfolding read_loop
  read_loop-fuel zero fuel' bo length total out io short inside enough more = absurd (omega arith)
  read_loop-fuel (suc fuel) zero bo length total out io short inside enough more =
      absurd (omega arith)
  read_loop-fuel (suc fuel) (suc fuel') bo length total out io short inside enough more =
      elim (Bool-cases (ltb total length)) [
        | inr over ↦ rw over refl
        | inl left ↦
            let some_left : total < length = ground (arith, left) in
            let wanted : (length + u32 - total) % u32 ≡ length - total = omega arith in
            elim (Outcome-cases (read_round ctx bo (length - total) out io)) [
              | inr (x, e) ↦ rw (left, wanted, e) refl
              | inl ((bytes_read, out', io'), e) ↦
                  let r =
                    read_round-IsRound bo (length - total) bytes_read out out' io io' (omega arith)
                      inside e in
                  let fits : (total + bytes_read) % u32 ≡ total + bytes_read =
                    omega (arith, r.bounded) in
                  let same : length - (total + bytes_read) ≡ length - total - bytes_read =
                    omega arith in
                  let less : rounds (length - (total + bytes_read))
                        (advance_block_offset bo bytes_read)
                      < fuel =
                    rw same (
                      rounds-decrease (length - total) bytes_read fuel bo r enough (omega arith)) in
                  let before = advance-before_end bo (length - total) bytes_read r in
                  rw (left, wanted, e, fits)
                    (read_loop-fuel fuel fuel' (advance_block_offset bo bytes_read) length
                      (total + bytes_read) out' io' (omega arith) (omega arith) less (omega arith))
            ]
      ]

  -- The loops of writing and of reading end, for less than 4 GB and an offset that is not behind the end
  -- of its block: with two rounds more than there are bytes the result is the one of any greater number
  -- of rounds.
  pub across_data_nodes-fuel :
      (fuel : ℕ) (buffer out : ByteArray) (write_from size : ℕ) (bo : Offset) (io : DataNodeIo p)
      → length buffer < u32
      → size < u32
      → bo.bytes ≤ 8192
      → length buffer + 2 ≤ fuel
      → size + 2 ≤ fuel
      → (write_loop ctx fuel buffer 0 bo io ≡ write_across_data_nodes ctx buffer write_from bo io)
        × (read_loop ctx fuel bo size 0 out io ≡ read_across_data_nodes ctx bo size out io)
  unfolding write_across_data_nodes read_across_data_nodes
  across_data_nodes-fuel fuel buffer out write_from size bo io short small inside enough enough' = (
    write_loop-fuel (length buffer + 2) fuel buffer 0 bo io short inside (ground arith) enough,
    read_loop-fuel (size + 2) fuel bo size 0 out io small inside (ground arith) enough',
  )
