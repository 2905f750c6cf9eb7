-- ===== src/State/StateNode/Root.antt =====
-- The root block: what it holds is read back, and what is read is what the key's holder wrote.
use private_data_objects.Prelude.{
  ◌≡◌, ◌≢◌, refl, sym, ap, ◌∙◌, suc, arith, List, [], ◌∷◌, ◌++◌, map, append_assoc, append-nil,
  Option, none, some, ByteArray, bytes_eq_refl, bytes_eq→eq, length, get_elem?, inl, inr,
  Option-cases, length-append,
}
use private_data_objects.Outcome.{ok, Outcome-cases}
use private_data_objects.Platform.{Platform}
use private_data_objects.State.StateNode.{
  RootDocument, Formats, StateNode, append_child_id, clear_children, cumulative_hash,
  blockify_children, unblockify_loop, unblockify_children, Warehouse, append_ids,
  serialize_block_ids, deserialize_block_ids,
}

-- What the two libraries promise: Base64 decodes what it encoded, and a document that is written is
-- not empty and parses to its members.
pub record IsFormatsLawful (f : Formats) : Type 0 where
  pub decode-encode : (m : ByteArray) → f.base64_decode (f.base64_encode m) ≡ m
  pub dump_not_empty : (ids : List ByteArray) (auth : ByteArray) → length (f.dump_root ids auth) ≢ 0
  pub parse-dump :
      (ids : List ByteArray) (auth : ByteArray)
      → f.parse_root (f.dump_root ids auth)
        ≡ ok (record { block_ids = some (map some ids); block_ids_auth = some auth })

get_elem-append :
    (xs : List ByteArray) (x : ByteArray) → get_elem? (xs ++ x ∷ []) (length xs) ≡ some x
get_elem-append [] x = refl
get_elem-append (y ∷ xs) x = get_elem-append xs x

-- The children that a list of elements stands for.
abbrev pub decoded : Formats → List (Option ByteArray) → Option (List ByteArray)
decoded f [] = some []
decoded f (none ∷ rest) = none
decoded f (some text ∷ rest) = elim (decoded f rest) [
  | none ↦ none
  | some ids ↦ some (f.base64_decode text ∷ ids)
]

module _ (p : Platform) (f : Formats) where
  -- Read from no children on, the hash is over the identities read.
  unblockify_loop-encode :
      (lawful : IsFormatsLawful f) (ids before : List ByteArray) (hash : ByteArray)
      → unblockify_loop p f (map some (map f.base64_encode ids)) (length before) before hash
        ≡ ok (before ++ ids, cumulative_hash p hash ids)
  unfolding unblockify_loop cumulative_hash
  unblockify_loop-encode lawful [] before hash = rw (append-nil before) refl
  unblockify_loop-encode lawful (id ∷ ids) before hash =
      let more = unblockify_loop-encode lawful ids (before ++ id ∷ []) (p.sha256 (hash ++ id)) in
      let longer : length (before ++ id ∷ []) ≡ suc (length before) =
        length-append before (id ∷ []) ∙ omega arith in
      let more' : unblockify_loop p f (map some (map f.base64_encode ids)) (suc (length before))
            (before ++ id ∷ []) (p.sha256 (hash ++ id))
          ≡ ok (before ++ id ∷ ids, cumulative_hash p (p.sha256 (hash ++ id)) ids) =
        ap
          (λ i.
            unblockify_loop p f (map some (map f.base64_encode ids)) i (before ++ id ∷ [])
              (p.sha256 (hash ++ id)))
          (sym longer)
        ∙ more
        ∙ rw (append_assoc before (id ∷ []) ids) refl in
      rw (lawful.decode-encode id, get_elem-append before id) more'

  append_ids_lem :
      (ids : List ByteArray) (node : StateNode)
      → append_ids p f ids node ≡ record node { children = node.children ++ ids }
  unfolding append_ids append_child_id
  append_ids_lem [] node = ground (arith, append-nil node.children)
  append_ids_lem (id ∷ ids) node = ground (
    arith,
    append_ids_lem ids (append_child_id id node),
    append_assoc node.children (id ∷ []) ids,
  )

  -- With lawful formats, the identities that a warehouse serializes into a root node are read back from
  -- the node's block by a warehouse with the same key.
  pub deserialize-serialize_block_ids :
      IsFormatsLawful f
      → (bw other : Warehouse) (node : StateNode)
      → other.state_encryption_key ≡ bw.state_encryption_key
      → (deserialize_block_ids p f (serialize_block_ids p f bw node) other)
        ≡ ok (
          record (serialize_block_ids p f bw node) { children = bw.block_ids },
          record other { block_ids = bw.block_ids },
        )
  unfolding deserialize_block_ids serialize_block_ids unblockify_children blockify_children
      clear_children
  deserialize-serialize_block_ids lawful bw other node same =
      let key = bw.state_encryption_key in
      let ids = bw.block_ids in
      let auth = p.hmac key (cumulative_hash p [] ids) in
      let texts = map f.base64_encode ids in
      rw (append_ids_lem ids (record node { children = [] }), same)
        (ground (
          arith,
          lawful.dump_not_empty texts (f.base64_encode auth),
          lawful.parse-dump texts (f.base64_encode auth),
          unblockify_loop-encode lawful ids [] [],
          lawful.decode-encode auth,
          bytes_eq_refl auth,
        ))

  -- A loop that ends well has hashed the identities that it appended.
  unblockify_loop-hash :
      (elements : List (Option ByteArray)) (before : List ByteArray) (hash : ByteArray)
      (r : List ByteArray × ByteArray)
      → unblockify_loop p f elements (length before) before hash ≡ ok r
      → (ids : List ByteArray) × (r.0 ≡ before ++ ids) × (r.1 ≡ cumulative_hash p hash ids)
  unfolding unblockify_loop cumulative_hash
  unblockify_loop-hash [] before hash r e =
      ([], (ground (arith, e, append-nil before)), (ground (arith, e)))
  unblockify_loop-hash (none ∷ rest) before hash r e = absurd (ground (arith, e))
  unblockify_loop-hash (some text ∷ rest) before hash r e =
      let id = f.base64_decode text in
      let longer : length (before ++ id ∷ []) ≡ suc (length before) =
        length-append before (id ∷ []) ∙ omega arith in
      let here : unblockify_loop p f rest (suc (length before)) (before ++ id ∷ [])
            (p.sha256 (hash ++ id))
          ≡ ok r =
        rw (get_elem-append before id) at e in
      let (ids, appended, hashed) =
        unblockify_loop-hash rest (before ++ id ∷ []) (p.sha256 (hash ++ id)) r (
          ap (λ i. unblockify_loop p f rest i (before ++ id ∷ []) (p.sha256 (hash ++ id))) longer
          ∙ here) in
      (id ∷ ids, (appended ∙ append_assoc before (id ∷ []) ids), hashed)

  -- Whatever bytes a fresh root node is given, identities that are read from it without an exception
  -- are authenticated: the document's authenticator is the HMAC, under the warehouse's key, of the
  -- chained hash of exactly these identities in their order.
  pub deserialize_block_ids_authentic :
      (node node' : StateNode) (bw bw' : Warehouse)
      → node.children ≡ []
      → deserialize_block_ids p f node bw ≡ ok (node', bw')
      → (document : RootDocument) × (auth : ByteArray) × (f.parse_root node.state_block
          ≡ ok document)
        × (document.block_ids_auth ≡ some auth)
        × (f.base64_decode auth
            ≡ p.hmac bw.state_encryption_key (cumulative_hash p [] bw'.block_ids))
  unfolding deserialize_block_ids unblockify_children
  deserialize_block_ids_authentic node node' bw bw' fresh e =
      elim (Outcome-cases (f.parse_root node.state_block)) [
        | inr (x, g) ↦ absurd (ground (arith, e, g))
        | inl (document, g) ↦ elim (Option-cases document.block_ids) [
          | inl n ↦ absurd (ground (arith, e, g, n))
          | inr (elements, n) ↦ elim (Outcome-cases (unblockify_loop p f elements 0 [] [])) [
            | inr (x, k) ↦ absurd (ground (arith, e, g, n, k, fresh))
            | inl (r, k) ↦ elim (Option-cases document.block_ids_auth) [
              | inl m ↦ absurd (ground (arith, e, g, n, k, fresh, m))
              | inr (auth, m) ↦
                  let (ids, appended, hashed) = unblockify_loop-hash elements [] [] r k in
                  (
                    document,
                    auth,
                    g,
                    m,
                    ground (
                      arith,
                      e,
                      g,
                      n,
                      k,
                      fresh,
                      m,
                      appended,
                      hashed,
                      bytes_eq→eq (f.base64_decode auth) (p.hmac bw.state_encryption_key r.1),
                    ),
                  )
            ]
          ]
        ]
      ]
