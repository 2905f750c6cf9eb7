-- ===== src/State/Cache/WriteBack.antt =====
-- A modified block that is written back can be loaded again.
use private_data_objects.Prelude.{
  ◌≡◌, refl, inl, inr, ℕ, arith, true, false, some, ByteArray, ◌==◌, Bool-cases,
}
use private_data_objects.Outcome.{ok, Outcome-cases}
use private_data_objects.Platform.{Platform, IsCryptoLawful, IsStoreHonest}
use private_data_objects.Crypto.Skenc.{encrypt_message}
use private_data_objects.State.Sebio.{Context, no_crypto, sebio_evict, is_failure}
use private_data_objects.State.DataNode.{DataNode, serialize_data_header}
use private_data_objects.State.DataNode.Bytes.{IsDataNode}
use private_data_objects.State.DataNode.Persist.{load, unload, load-unload}
use private_data_objects.State.StateNode.{update_datablock_id, get_datablock_id_from_datablock_num}
use private_data_objects.State.StateNode.Identities.{update_datablock_id_lem}
use private_data_objects.State.Cache.{Entry, Cache, find, assign, sync_entry}
use private_data_objects.State.Cache.Order.{find-assign}
use private_data_objects.State.Cache.Slots.{IsBalanced}

module _ (p : Platform) (ctx : Context) where
  -- The header holds the node's number and its free bytes, and the node has its new identity.
  unload-node :
      (dn dn' : DataNode) (key id : ByteArray) (w w' : p.World)
      → unload p ctx dn key w ≡ ok (id, dn', w')
      → dn' ≡ record (serialize_data_header dn) { original_id = id }
  unfolding unload
  unload-node dn dn' key id w w' h =
      elim (Outcome-cases (encrypt_message p key (serialize_data_header dn).bytes w)) [
        | inr (x, e) ↦ absurd (ground (arith, e, h))
        | inl ((sealed, u), e) ↦ elim (Outcome-cases (sebio_evict p ctx sealed no_crypto u)) [
          | inr (x, f) ↦ absurd (ground (arith, e, f, h))
          | inl ((status, i, v), f) ↦ elim (Bool-cases (is_failure status)) [
            | inl bad ↦ absurd (ground (arith, e, f, bad, h))
            | inr good ↦ ground (arith, e, f, good, h)
          ]
        ]
      ]

  pub record IsWrittenBack (n : ℕ) (e : Entry) (c c' : Cache p) : Type 0 where
    pub id : ByteArray
    pub entry : Entry
    pub found : find n c'.block_cache ≡ some entry
    pub clean : entry.modified ≡ false
    pub holds : entry.dn ≡ record (serialize_data_header e.dn) { original_id = id }
    pub named : get_datablock_id_from_datablock_num n c'.warehouse ≡ ok id
    pub others :
        (j : ℕ)
        → (n == j) ≡ false
        → get_datablock_id_from_datablock_num j c'.warehouse
          ≡ get_datablock_id_from_datablock_num j c.warehouse
    pub loads :
        (other : DataNode)
        → load p ctx (record other { original_id = id }) c'.warehouse.state_encryption_key c'.world
          ≡ ok entry.dn

  -- With lawful libraries and an honest store, writing back a modified entry that throws nothing leaves
  -- the entry unmodified, with its block but for the header and the identity. The warehouse names that
  -- identity for the block and is else unchanged, and loading it gives the block of the entry.
  pub sync_entry-load :
      IsCryptoLawful p
      → IsStoreHonest p
      → (n : ℕ) (e : Entry) (c c' : Cache p) → IsBalanced c
      → find n c.block_cache ≡ some e
      → e.modified ≡ true
      → IsDataNode e.dn
      → sync_entry ctx n c ≡ ok c'
      → IsWrittenBack n e c c'
  unfolding sync_entry
  sync_entry-load lawful honest n e c c' b g dirty v h =
      elim (Outcome-cases (unload p ctx e.dn c.warehouse.state_encryption_key c.world)) [
        | inr (x, u) ↦ absurd (ground (arith, g, dirty, u, h))
        | inl ((id, dn, w), u) ↦ elim (Outcome-cases (update_datablock_id n id c.warehouse)) [
          | inr (x, k) ↦ absurd (ground (arith, g, dirty, u, k, h))
          | inl (bw, k) ↦
              let e' = record e { modified = false; dn = dn } in
              let cached : c'.block_cache ≡ assign n e' c.block_cache =
                ground (arith, g, dirty, u, k, h) in
              let same_warehouse : c'.warehouse ≡ bw = ground (arith, g, dirty, u, k, h) in
              let same_world : c'.world ≡ w = ground (arith, g, dirty, u, k, h) in
              let (_, same_key) = update_datablock_id_lem n n id c.warehouse bw k in
              record {
                id = id;
                entry = e';
                found = rw cached (ground (arith, find-assign 0 n n e' c.block_cache b.ascending));
                clean = refl;
                holds = unload-node e.dn dn c.warehouse.state_encryption_key id c.world w u;
                named =
                    rw same_warehouse
                      (ground (arith, (update_datablock_id_lem n n id c.warehouse bw k).0));
                others = λ j other.
                    rw same_warehouse
                      (ground (arith, other, (update_datablock_id_lem n j id c.warehouse bw k).0));
                loads = λ other.
                    rw (same_warehouse, same_world, same_key)
                      (load-unload p lawful honest ctx e.dn dn other
                        c.warehouse.state_encryption_key id c.world w v u);
              }
        ]
      ]
