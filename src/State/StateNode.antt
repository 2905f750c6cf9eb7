-- ===== src/State/StateNode.antt =====
-- common/state/StateUtils.cpp and block_warehouse.cpp: the root block, a JSON document of the
-- identities of all blocks with an authenticator, and the list of these identities.
pub mod Root
pub mod Identities
use private_data_objects.Prelude.{
  ℕ, suc, ◌≡◌, ◌+◌, ◌-◌, ◌%◌, Bool, true, false, not, List, [], ◌∷◌, ◌++◌, map, Option, none, some,
  ByteArray, bytes_eq, ◌==◌, ltb, leb, u32, if◌then◌else◌, length, get_elem?, set, erase_at,
  replicate,
}
use private_data_objects.Outcome.{
  Error, Outcome, ok, err, runtime_error, value_error, undefined, throw_if, ◌>>=◌, ◌>>◌,
}
use private_data_objects.Platform.{Platform}

-- The document: a member is none where it is absent or has the wrong type, as is an element of the
-- array that is no string.
pub record RootDocument : Type 0 where
  pub block_ids : Option (List (Option ByteArray))
  pub block_ids_auth : Option ByteArray

-- The JSON and Base64 libraries. A parse is an exception where the text is no object.
pub record Formats : Type 0 where
  pub base64_encode : ByteArray → ByteArray
  pub base64_decode : ByteArray → ByteArray
  pub dump_root : List ByteArray → ByteArray → ByteArray
  pub parse_root : ByteArray → Outcome RootDocument

-- `StateNode`
pub record StateNode : Type 0 where
  pub block_id : ByteArray
  pub state_block : ByteArray
  pub children : List ByteArray
  pub has_parent : Bool

abbrev pub new_state_node : StateNode
new_state_node = record { block_id = []; state_block = []; children = []; has_parent = false }

abbrev pub or_throw {ℓ} : {A : Type ℓ} → Option A → Error → Outcome A
or_throw none e = err e
or_throw (some a) e = ok a

pub or_throw-some {ℓ} :
    {A : Type ℓ} (o : Option A) (e : Error) {a : A} → or_throw o e ≡ ok a → o ≡ some a
or_throw-some none e h = cc
or_throw-some (some a) e h = cc

-- The child comes back beside the node.
unfoldable append_child : StateNode → StateNode → StateNode × StateNode
append_child child node = (
  record child { has_parent = true },
  record node { children = node.children ++ child.block_id ∷ [] },
)

unfoldable pub append_child_id : ByteArray → StateNode → StateNode
append_child_id id node = record node { children = node.children ++ id ∷ [] }

unfoldable pub clear_children : StateNode → StateNode
clear_children node = record node { children = [] }

module _ (p : Platform) where
  -- The hash that both loops accumulate.
  unfoldable pub cumulative_hash : ByteArray → List ByteArray → ByteArray
  cumulative_hash hash [] = hash
  cumulative_hash hash (id ∷ ids) = cumulative_hash (p.sha256 (hash ++ id)) ids

  module _ (f : Formats) where
    unfoldable pub blockify_children : ByteArray → StateNode → StateNode
    unfolding cumulative_hash
    blockify_children key node =
        let auth = p.hmac key (cumulative_hash [] node.children) in
        record node {
          state_block = f.dump_root (map f.base64_encode node.children) (f.base64_encode auth);
          children = [];
        }

    -- The loop appends an identity and then reads the children at its index, which is the identity
    -- only if there were no children before.
    unfoldable pub unblockify_loop :
        List (Option ByteArray)
        → ℕ
        → List ByteArray
        → ByteArray
        → Outcome (List ByteArray × ByteArray)
    unblockify_loop [] i children hash = ok (children, hash)
    unblockify_loop (element ∷ rest) i children hash = do
      text ← or_throw element undefined
      let children' = children ++ f.base64_decode text ∷ []
      id ← or_throw (get_elem? children' i) undefined
      unblockify_loop rest (suc i) children' (p.sha256 (hash ++ id))

    unfoldable pub unblockify_children : ByteArray → StateNode → Outcome StateNode
    unfolding unblockify_loop
    unblockify_children key node = do
      throw_if (length node.state_block == 0) value_error
      document ← f.parse_root node.state_block
      elements ← or_throw document.block_ids value_error
      (children, hash) ← unblockify_loop elements 0 node.children []
      auth ← or_throw document.block_ids_auth value_error
      throw_if (not (bytes_eq (f.base64_decode auth) (p.hmac key hash))) runtime_error
      ok (record node { children = children })

-- `STATE_BLOCK_ID_LENGTH`
abbrev state_block_id_length : ℕ
state_block_id_length = 32

-- `block_warehouse`
pub record Warehouse : Type 0 where
  pub block_ids : List ByteArray
  pub state_encryption_key : ByteArray

unfoldable pub update_datablock_id : ℕ → ByteArray → Warehouse → Outcome Warehouse
update_datablock_id data_block_num new_id bw = do
  throw_if (not (length new_id == state_block_id_length)) runtime_error
  throw_if (leb (length bw.block_ids) data_block_num) undefined
  ok (record bw { block_ids = set bw.block_ids data_block_num new_id })

unfoldable pub add_block_id : ByteArray → Warehouse → Outcome Warehouse
add_block_id id bw = do
  throw_if (not (length id == state_block_id_length)) runtime_error
  ok (record bw { block_ids = bw.block_ids ++ id ∷ [] })

-- The loop erases, and only else moves on.
unfoldable without_empty : List ByteArray → List ByteArray
without_empty [] = []
without_empty (id ∷ ids) =
    let rest = without_empty ids in
    if bytes_eq id (replicate state_block_id_length 0) then rest else id ∷ rest

unfoldable pub remove_empty_block_ids : Warehouse → Warehouse
unfolding without_empty
remove_empty_block_ids bw = record bw { block_ids = without_empty bw.block_ids }

unfoldable pub remove_block_id_from_datablock_num : ℕ → Warehouse → Outcome Warehouse
remove_block_id_from_datablock_num data_block_num bw = do
  throw_if (leb (length bw.block_ids) data_block_num) undefined
  ok (record bw { block_ids = erase_at bw.block_ids data_block_num })

unfoldable pub get_datablock_id_from_datablock_num : ℕ → Warehouse → Outcome ByteArray
get_datablock_id_from_datablock_num data_block_num bw =
    or_throw (get_elem? bw.block_ids data_block_num) undefined

-- `size() - 1`, which wraps on the empty list.
unfoldable pub get_last_block_num : Warehouse → ℕ
get_last_block_num bw = (length bw.block_ids + u32 - 1) % u32

module _ (p : Platform) (f : Formats) where
  unfoldable pub append_ids : List ByteArray → StateNode → StateNode
  unfolding append_child_id
  append_ids [] node = node
  append_ids (id ∷ ids) node = append_ids ids (append_child_id id node)

  unfoldable pub serialize_block_ids : Warehouse → StateNode → StateNode
  unfolding append_ids clear_children blockify_children
  serialize_block_ids bw node =
      blockify_children p f bw.state_encryption_key (append_ids bw.block_ids (clear_children node))

  unfoldable pub deserialize_block_ids : StateNode → Warehouse → Outcome (StateNode × Warehouse)
  unfolding unblockify_children
  deserialize_block_ids node bw = do
    node' ← unblockify_children p f bw.state_encryption_key node
    ok (node', record bw { block_ids = node'.children })
