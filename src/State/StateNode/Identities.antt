-- ===== src/State/StateNode/Identities.antt =====
-- The list of block identities: what an update, an addition and a removal leave in it.
use private_data_objects.Prelude.{
  ◌≡◌, refl, ℕ, zero, suc, ◌<◌, arith, List, [], ◌∷◌, some, ByteArray, ◌==◌, leb, length, set,
  get_elem?, if◌then◌else◌, inl, inr, Bool-cases,
}
use private_data_objects.Outcome.{ok}
use private_data_objects.State.StateNode.{
  Warehouse, update_datablock_id, get_datablock_id_from_datablock_num,
}

get_elem-set :
    (xs : List ByteArray) (i j : ℕ) (v : ByteArray)
    → i < length xs
    → get_elem? (set xs i v) j ≡ (if i == j then some v else get_elem? xs j)
get_elem-set [] i j v h = absurd (omega arith)
get_elem-set (x ∷ xs) zero zero v h = ground arith
get_elem-set (x ∷ xs) zero (suc j) v h = ground arith
get_elem-set (x ∷ xs) (suc i) zero v h = ground arith
get_elem-set (x ∷ xs) (suc i) (suc j) v h = ground (arith, get_elem-set xs i j v (omega arith))

-- After an update that throws nothing, the updated number has the new identity and every other
-- number the one that it had.
pub update_datablock_id_lem :
    (n j : ℕ) (id : ByteArray) (bw bw' : Warehouse)
    → update_datablock_id n id bw ≡ ok bw'
    → (get_datablock_id_from_datablock_num j bw'
        ≡ (if n == j then ok id else get_datablock_id_from_datablock_num j bw))
      × (bw'.state_encryption_key ≡ bw.state_encryption_key)
unfolding update_datablock_id get_datablock_id_from_datablock_num
update_datablock_id_lem n j id bw bw' h = elim (Bool-cases (leb (length bw.block_ids) n)) [
  | inl outside ↦ absurd (ground (arith, outside, h))
  | inr inside ↦
      let w : bw' ≡ record bw { block_ids = set bw.block_ids n id } = ground (arith, inside, h) in
      rw w ((ground (arith, inside, get_elem-set bw.block_ids n j id)), refl)
]
