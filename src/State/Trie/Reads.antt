-- ===== src/State/Trie/Reads.antt =====
-- Reads across the blocks, and the parts of the trie that only read.
use private_data_objects.Prelude.{
  ◌≡◌, refl, sym, ap, ◌∙◌, inl, inr, ℕ, zero, suc, ◌+◌, ◌-◌, ◌%◌, false, not, [], ByteArray, arith,
  ◌==◌, ltb, u32, length, Bool-cases,
}
use private_data_objects.Outcome.{ok, runtime_error, undefined, throw_if, >>=-eq-ok, ok_injective}
use private_data_objects.Platform.{Platform}
use private_data_objects.State.Offset.{Offset, is_empty, advance_block_offset}
use private_data_objects.State.Sebio.{Context}
use private_data_objects.State.StateNode.{or_throw}
use private_data_objects.State.Cache.{find, retrieve, done}
use private_data_objects.State.DataNode.{read_at}
use private_data_objects.State.DataNodeIo.{
  DataNodeIo, read_round, read_loop, read_across_data_nodes,
}
use private_data_objects.State.Trie.{
  TrieNodeHeader, TrieNode, node_size, header_size, read_header, read_node_bytes, read_trie_node,
}
use private_data_objects.State.Trie.Values.{
  do_read_value_info, do_read_value, first_byte, read_size,
}

module _ {p : Platform} (ctx : Context) where
  -- A run of reads.
  pub data Reads (io : DataNodeIo p) : DataNodeIo p → Type 0 where
    start : Reads io io
    reads :
        {t u : DataNodeIo p} (bo : Offset) (wanted n : ℕ) (out out' : ByteArray)
        → Reads io t
        → read_round ctx bo wanted out t ≡ ok (n, out', u)
        → Reads io u

  -- Reads leave the free space and the place for appending as they are.
  pub Reads-kept :
      {io io' : DataNodeIo p}
      → Reads io io'
      → (io'.free_space_collector ≡ io.free_space_collector) × (io'.append_dn ≡ io.append_dn)
  unfolding read_round
  Reads-kept start = (refl, refl)
  Reads-kept (reads {t} {u} bo wanted n out out' run h) =
      let (c₁, e₁, h₁) = >>=-eq-ok (retrieve ctx bo.block_num false t.cache) _ h in
      let (e, e₂, h₂) = >>=-eq-ok (or_throw (find bo.block_num c₁.block_cache) undefined) _ h₁ in
      let ((m, more), e₃, h₃) = >>=-eq-ok (read_at e.dn bo wanted out) _ h₂ in
      let (c₂, e₄, h₄) = >>=-eq-ok (done bo.block_num false c₁) _ h₃ in
      let last = ok_injective h₄ in
      let kept = Reads-kept run in
      (
        ap (λ (r : ℕ × ByteArray × DataNodeIo p). r.2.free_space_collector) (sym last) ∙ kept.0,
        ap (λ (r : ℕ × ByteArray × DataNodeIo p). r.2.append_dn) (sym last) ∙ kept.1,
      )

  read_loop-Reads :
      (fuel : ℕ) (bo : Offset) (length total : ℕ) (out out' : ByteArray) (s io io' : DataNodeIo p)
      → Reads s io
      → read_loop ctx fuel bo length total out io ≡ ok (out', io')
      → Reads s io'
  unfolding read_loop
  read_loop-Reads zero bo length total out out' s io io' run h = absurd (ground (arith, h))
  read_loop-Reads (suc fuel) bo length total out out' s io io' run h =
      elim (Bool-cases (ltb total length)) [
        | inr over ↦
            let h' = rw over at h in
            let same = ap (λ (r : ByteArray × DataNodeIo p). r.1) (ok_injective h') in
            rw (← same) run
        | inl left ↦
            let h' = rw left at h in
            let ((n, more, io₁), e₁, h₁) =
              >>=-eq-ok (read_round ctx bo ((length + u32 - total) % u32) out io) _ h' in
            read_loop-Reads fuel (advance_block_offset bo n) length ((total + n) % u32) more out' s
              io₁ io' (reads bo _ n out more run e₁) h₁
      ]

  read_across-Reads :
      (bo : Offset) (length : ℕ) (out out' : ByteArray) (s io io' : DataNodeIo p)
      → Reads s io
      → read_across_data_nodes ctx bo length out io ≡ ok (out', io')
      → Reads s io'
  unfolding read_across_data_nodes
  read_across-Reads bo length out out' s io io' run h =
      read_loop-Reads (length + 2) bo length 0 out out' s io io' run h

  pub read_trie_node-Reads :
      (bo : Offset) (node : TrieNode) (s io io' : DataNodeIo p)
      → Reads s io
      → read_trie_node ctx bo io ≡ ok (node, io')
      → Reads s io' × (node.modified ≡ false) × (node.location ≡ bo)
  unfolding read_trie_node
  read_trie_node-Reads bo node s io io' run h =
      let ((ba_node, io₁), e₁, h₁) =
        >>=-eq-ok (read_across_data_nodes ctx bo node_size [] io) _ h in
      let (u, e₂, h₂) =
        >>=-eq-ok (throw_if (not (length ba_node == node_size)) runtime_error) _ h₁ in
      let (data_, e₃, h₃) = >>=-eq-ok (read_node_bytes ba_node) _ h₂ in
      let last = ok_injective h₃ in
      let same = ap (λ (r : TrieNode × DataNodeIo p). r.1) last in
      (
        rw (← same) (read_across-Reads bo node_size [] ba_node s io io₁ run e₁),
        ap (λ (r : TrieNode × DataNodeIo p). r.0.modified) (sym last),
        ap (λ (r : TrieNode × DataNodeIo p). r.0.location) (sym last),
      )

  do_read_value_info-Reads :
      (bo bo' : Offset) (hdr : TrieNodeHeader) (size : ℕ) (s io io' : DataNodeIo p)
      → Reads s io
      → do_read_value_info ctx bo io ≡ ok (hdr, size, bo', io')
      → Reads s io'
  unfolding do_read_value_info
  do_read_value_info-Reads bo bo' hdr size s io io' run h =
      let ((ba_header, io₁), e₁, h₁) =
        >>=-eq-ok (read_across_data_nodes ctx bo header_size [] io) _ h in
      let (b, e₂, h₂) = >>=-eq-ok (first_byte ba_header) _ h₁ in
      let (v, e₃, h₃) = >>=-eq-ok (throw_if (not (read_header b).is_value) runtime_error) _ h₂ in
      let ((ba_size, io₂), e₄, h₄) =
        >>=-eq-ok (read_across_data_nodes ctx (advance_block_offset bo header_size) 8 [] io₁) _
          h₃ in
      let (n, e₅, h₅) = >>=-eq-ok (read_size ba_size) _ h₄ in
      let same = ap (λ (r : TrieNodeHeader × ℕ × Offset × DataNodeIo p). r.3) (ok_injective h₅) in
      let first = read_across-Reads bo header_size [] ba_header s io io₁ run e₁ in
      let second =
        read_across-Reads (advance_block_offset bo header_size) 8 [] ba_size s io₁ io₂ first e₄ in
      rw (← same) second

  pub do_read_value-Reads :
      (node : TrieNode) (value : ByteArray) (s io io' : DataNodeIo p)
      → Reads s io
      → do_read_value ctx node io ≡ ok (value, io')
      → Reads s io'
  unfolding do_read_value
  do_read_value-Reads node value s io io' run h =
      let bo = node.node.child_offset in
      let (u, e₁, h₁) = >>=-eq-ok (throw_if (is_empty bo) runtime_error) _ h in
      let ((hdr, size, bo', io₁), e₂, h₂) = >>=-eq-ok (do_read_value_info ctx bo io) _ h₁ in
      let info = do_read_value_info-Reads bo bo' hdr size s io io₁ run e₂ in
      read_across-Reads bo' (size % u32) [] value s io₁ io' info h₂
