-- ===== src/State/Trie/Lookup.antt =====
-- A lookup in the trie only reads.
use private_data_objects.Prelude.{
  ◌≡◌, refl, sym, ap, ◌∙◌, inl, inr, ℕ, zero, suc, ◌-◌, true, false, ◌||◌, List, [], ◌∷◌, Option,
  none, some, ByteArray, arith, ◌==◌, ltb, if◌then◌else◌, length, Bool-cases, Option-cases,
}
use private_data_objects.Prelude.Slices.{slice}
use private_data_objects.Outcome.{Outcome, ok, >>=-eq-ok, ok_injective}
use private_data_objects.Platform.{Platform}
use private_data_objects.State.Offset.{Offset, data_begin_index, offset_eq, is_empty}
use private_data_objects.State.Sebio.{Context}
use private_data_objects.State.DataNodeIo.{DataNodeIo}
use private_data_objects.State.Trie.{NodeData, TrieNode, shared_prefix_length, read_trie_node}
use private_data_objects.State.Trie.Values.{do_read_value}
use private_data_objects.State.Trie.Operate.{
  get_op, RecursiveItem, Step, onward, finished, absent, relink, ready_node, operate_node, visit,
  descend, leave_node, ascend, after_descent, operate_trie_non_recursive,
}
use private_data_objects.State.Trie.Reads.{
  Reads, start, Reads-kept, read_trie_node-Reads, do_read_value-Reads,
}

offset_eq_refl : (bo : Offset) → offset_eq bo bo ≡ true
unfolding offset_eq
offset_eq_refl bo = ground arith

-- The link of an item to the one above it in the stack.
abbrev link : RecursiveItem → Offset
link item = if item.go_next then item.node.node.next_offset else item.node.node.child_offset

-- No node below changed, and each links to the location of the one above it.
abbrev IsLinked : Offset → List RecursiveItem → Type 0
IsLinked location [] = Unit
IsLinked location (item ∷ below) =
    (item.node.modified ≡ false) × (link item ≡ location) × IsLinked item.node.location below

abbrev IsSettled : List RecursiveItem → Type 0
IsSettled [] = Unit
IsSettled (item ∷ below) = (item.node.modified ≡ false) × IsLinked item.node.location below

abbrev IsSettledOption : Option (List RecursiveItem) → Type 0
IsSettledOption none = Unit
IsSettledOption (some stack) = IsSettled stack

-- The node that is looked at is none, or unchanged at its location.
abbrev IsReady : Offset → Option TrieNode → Type 0
IsReady location none = Unit
IsReady location (some node) = (node.modified ≡ false) × (node.location ≡ location)

relink-linked :
    (node : TrieNode) (prev : RecursiveItem) → link prev ≡ node.location → relink node prev ≡ prev
unfolding relink
relink-linked node prev e = elim (Bool-cases prev.go_next) [
  | inl next ↦
      let same : prev.node.node.next_offset ≡ node.location = rw next at e in
      rw (next, same, offset_eq_refl node.location) refl
  | inr child ↦
      let same : prev.node.node.child_offset ≡ node.location = rw child at e in
      rw (child, same, offset_eq_refl node.location) refl
]

module _ {p : Platform} (ctx : Context) where
  ready_node-Reads :
      (kvkey : ByteArray) (depth : ℕ) (node : TrieNode) (found : Option TrieNode)
      (s io io' : DataNodeIo p)
      → Reads ctx s io
      → node.modified ≡ false
      → ready_node ctx get_op kvkey depth node io ≡ ok (found, io')
      → Reads ctx s io' × IsReady node.location found
  unfolding ready_node
  ready_node-Reads kvkey depth node found s io io' run clean h =
      elim (Bool-cases node.initialized) [
        | inl old ↦
            let last = ok_injective (rw old at h) in
            let same = ap (λ (r : Option TrieNode × DataNodeIo p). r.1) last in
            let is_node = ap (λ (r : Option TrieNode × DataNodeIo p). r.0) last in
            (rw (← same) run, rw (← is_node) (clean, refl))
        | inr new ↦ elim (Bool-cases (is_empty node.location)) [
          | inl nowhere ↦
              let last = ok_injective (rw (new, nowhere) at h) in
              let same = ap (λ (r : Option TrieNode × DataNodeIo p). r.1) last in
              let is_none = ap (λ (r : Option TrieNode × DataNodeIo p). r.0) last in
              (rw (← same) run, rw (← is_none) tt)
          | inr somewhere ↦
              let h' = rw (new, somewhere) at h in
              let ((node', io₁), e₁, h₁) = >>=-eq-ok (read_trie_node ctx node.location io) _ h' in
              let last = ok_injective h₁ in
              let same = ap (λ (r : Option TrieNode × DataNodeIo p). r.1) last in
              let is_node = ap (λ (r : Option TrieNode × DataNodeIo p). r.0) last in
              let (read, unchanged, at) =
                read_trie_node-Reads ctx node.location node' s io io₁ run e₁ in
              (rw (← same) read, rw (← is_node) (unchanged, at))
        ]
      ]

  -- What a step of a lookup keeps.
  abbrev IsKeptStep : DataNodeIo p → Step p → Type 0
  IsKeptStep s (onward depth stack io) = Reads ctx s io × IsSettled stack
  IsKeptStep s (finished stack value io) = Reads ctx s io × IsSettled stack
  IsKeptStep s (absent io) = Reads ctx s io

  visit-IsKeptStep :
      (memory : NodeData) (kvkey : ByteArray) (depth : ℕ) (node : TrieNode)
      (below : List RecursiveItem) (step : Step p) (s io : DataNodeIo p)
      → Reads ctx s io
      → node.modified ≡ false
      → IsLinked node.location below
      → visit ctx memory get_op kvkey depth node below io ≡ ok step
      → IsKeptStep s step
  unfolding visit operate_node
  visit-IsKeptStep memory kvkey depth node below step s io run clean linked h =
      let size = node.node.hdr.key_chunk_size in
      let spl =
        shared_prefix_length (slice node.node.key_chunk 0 size)
          (slice kvkey depth (length kvkey - depth)) in
      elim (Bool-cases (spl == 0)) [
        | inl no_match ↦ elim (Bool-cases (ltb depth (length kvkey) || ltb 0 size)) [
          | inl more ↦
              let is_step = ok_injective (rw (no_match, more) at h) in
              rw (← is_step) (run, (refl, (clean, refl, linked)))
          | inr here ↦
              let h' = rw (no_match, here) at h in
              let ((node', value, io₁), e₁, h₁) =
                >>=-eq-ok (operate_node ctx get_op node io) _ h' in
              let ((value', io₂), e₂, h₂) = >>=-eq-ok (do_read_value ctx node io) _ e₁ in
              let last = ok_injective h₂ in
              let same = ap (λ (r : TrieNode × ByteArray × DataNodeIo p). r.2) last in
              let same_node = ap (λ (r : TrieNode × ByteArray × DataNodeIo p). r.0) last in
              let is_step = ok_injective h₁ in
              let read = do_read_value-Reads ctx node value' s io io₂ run e₂ in
              rw (← is_step, ← same, ← same_node) (read, (clean, linked))
        ]
        | inr match_ ↦ elim (Bool-cases (spl == size)) [
          | inl full ↦
              let is_step = ok_injective (rw (match_, full) at h) in
              rw (← is_step) (run, (refl, (clean, refl, linked)))
          | inr partial ↦
              let is_step = ok_injective (rw (match_, partial) at h) in rw (← is_step) run
        ]
      ]

  -- What the loop does after a step.
  abbrev after_step :
      ℕ
      → NodeData
      → ByteArray
      → Step p
      → Outcome (Option (List RecursiveItem) × ByteArray × DataNodeIo p)
  after_step fuel memory kvkey (onward depth stack io) =
      descend ctx fuel memory get_op kvkey depth stack io
  after_step fuel memory kvkey (finished stack out_value io) = ok (some stack, out_value, io)
  after_step fuel memory kvkey (absent io) = ok (none, [], io)

  -- The rest of the loop, for a number of rounds.
  abbrev IsReading : ℕ → NodeData → ByteArray → DataNodeIo p → DataNodeIo p → Type 0
  IsReading fuel memory kvkey s io' =
      (depth : ℕ) (stack : List RecursiveItem) (found : Option (List RecursiveItem))
      (value : ByteArray) (io : DataNodeIo p)
      → Reads ctx s io
      → IsSettled stack
      → descend ctx fuel memory get_op kvkey depth stack io ≡ ok (found, value, io')
      → Reads ctx s io' × IsSettledOption found

  ended-Reads :
      (result found : Option (List RecursiveItem)) (out_value value : ByteArray)
      (s io io' : DataNodeIo p)
      → Reads ctx s io
      → IsSettledOption result
      → ◌≡◌ {A = Outcome (Option (List RecursiveItem) × ByteArray × DataNodeIo p)}
          (ok (result, out_value, io))
          (ok (found, value, io'))
      → Reads ctx s io' × IsSettledOption found
  ended-Reads result found out_value value s io io' read settled e =
      let last = ok_injective e in
      let same = ap (λ (r : Option (List RecursiveItem) × ByteArray × DataNodeIo p). r.2) last in
      let is_found =
        ap (λ (r : Option (List RecursiveItem) × ByteArray × DataNodeIo p). r.0) last in
      (rw (← same) read, rw (← is_found) settled)

  after_step-Reads :
      (fuel : ℕ) (memory : NodeData) (kvkey : ByteArray) (step : Step p)
      (found : Option (List RecursiveItem)) (value : ByteArray) (s io' : DataNodeIo p)
      → IsReading fuel memory kvkey s io'
      → IsKeptStep s step
      → after_step fuel memory kvkey step ≡ ok (found, value, io')
      → Reads ctx s io' × IsSettledOption found
  after_step-Reads fuel memory kvkey (onward depth stack io) found value s io' rest kept e =
      rest depth stack found value io kept.0 kept.1 e
  after_step-Reads fuel memory kvkey (finished stack out io) found value s io' rest kept e =
      ended-Reads (some stack) found out value s io io' kept.0 kept.1 e
  after_step-Reads fuel memory kvkey (absent io) found value s io' rest kept e =
      ended-Reads none found [] value s io io' kept tt e

  descend-Reads :
      (fuel : ℕ) (memory : NodeData) (kvkey : ByteArray) (s io' : DataNodeIo p)
      → IsReading fuel memory kvkey s io'
  unfolding descend
  descend-Reads zero memory kvkey s io' depth stack found value io run settled h =
      absurd (ground (arith, h))
  descend-Reads (suc fuel) memory kvkey s io' depth [] found value io run settled h =
      absurd (ground (arith, h))
  descend-Reads (suc fuel) memory kvkey s io' depth (item ∷ below) found value io run settled h =
      let ((ready, io₁), e₁, h₁) = >>=-eq-ok (ready_node ctx get_op kvkey depth item.node io) _ h in
      let (read, is_ready) =
        ready_node-Reads kvkey depth item.node ready s io io₁ run settled.0 e₁ in
      elim (Option-cases ready) [
        | inl is_none ↦ ended-Reads none found [] value s io₁ io' read tt (rw is_none at h₁)
        | inr (node, is_node) ↦
            let (clean, at) : IsReady item.node.location (some node) = rw is_node at is_ready in
            let (step, e₂, h₂) =
              >>=-eq-ok (visit ctx memory get_op kvkey depth node below io₁)
                (after_step fuel memory kvkey) (rw is_node at h₁) in
            after_step-Reads fuel memory kvkey step found value s io'
              (descend-Reads fuel memory kvkey s io')
              (visit-IsKeptStep memory kvkey depth node below step s io₁ read clean
                (rw at settled.1) e₂)
              h₂
      ]

  -- Nothing is written on the way up.
  ascend-clean :
      (popped : RecursiveItem) (below : List RecursiveItem) (io : DataNodeIo p)
      → popped.node.modified ≡ false
      → IsLinked popped.node.location below
      → ascend ctx get_op popped below io ≡ ok io
  unfolding ascend leave_node
  ascend-clean popped [] io clean linked = rw clean refl
  ascend-clean popped (prev ∷ below) io clean (unchanged, at, linked) =
      rw (clean, relink-linked popped.node prev at) (ascend-clean prev below io unchanged linked)

  after_descent-clean :
      (found : Option (List RecursiveItem)) (value : ByteArray) (io : DataNodeIo p)
      → IsSettledOption found
      → after_descent ctx get_op found value io ≡ ok (value, io)
  after_descent-clean none value io settled = refl
  after_descent-clean (some []) value io settled = refl
  after_descent-clean (some (item ∷ below)) value io (clean, linked) =
      rw (ascend-clean item below io clean linked) refl

  -- A lookup that succeeds has only read: its effect is a run of reads of the blocks, and the free space and
  -- the place for appending are as before.
  pub get-Reads :
      (fuel : ℕ) (memory : NodeData) (kvkey value : ByteArray) (io io' : DataNodeIo p)
      → operate_trie_non_recursive ctx fuel memory get_op kvkey io ≡ ok (value, io')
      → Reads ctx io io'
        × (io'.free_space_collector ≡ io.free_space_collector)
        × (io'.append_dn ≡ io.append_dn)
  unfolding operate_trie_non_recursive
  get-Reads fuel memory kvkey value io io' h =
      let at : Offset = record { block_num = 0; bytes = data_begin_index } in
      let ((root, io₁), e₁, h₁) = >>=-eq-ok (read_trie_node ctx at io) _ h in
      let (first, clean, there) = read_trie_node-Reads ctx at root io io io₁ start e₁ in
      let ((found, out_value, io₂), e₂, h₂) =
        >>=-eq-ok (descend ctx fuel memory get_op kvkey 0 _ io₁) _ h₁ in
      let (rest, settled) =
        descend-Reads fuel memory kvkey io io₂ 0 _ found out_value io₁ first
          (refl, (clean, refl, tt)) e₂ in
      let ended : ok (out_value, io₂) ≡ ok (value, io') =
        sym (after_descent-clean found out_value io₂ settled) ∙ h₂ in
      let same = ap (λ (r : ByteArray × DataNodeIo p). r.1) (ok_injective ended) in
      let run : Reads ctx io io' = rw (← same) rest in
      let kept = Reads-kept ctx run in (run, kept.0, kept.1)
