-- ===== src/Bridgectrl/MerkleTree/AddLeaf.antt =====
-- bridgectrl/merkletree.go: what `addLeaf` keeps and computes, over any storage.
use xlayer_bridge_service.Base.{
  ℕ, ◌+◌, ◌%◌, ◌^◌, ◌≤◌, ◌<◌, ◌≡◌, refl, sym, ap, subst, true, List, [], ◌∷◌, ◌++◌, arith, length,
  length-append, ◌==◌, Result, ok,
}
use xlayer_bridge_service.Etherman.{Bytes}
use xlayer_bridge_service.Bridgectrl.Store.{MerkleTreeStore}
use xlayer_bridge_service.Bridgectrl.MerkleTree.Defs.{
  MerkleTree, climb, store_climb, after_climb, add_leaf,
}
use xlayer_bridge_service.Bridgectrl.MerkleTree.Spec.{tree_root}
use xlayer_bridge_service.Bridgectrl.MerkleTree.Climb.{
  Frontier, cur-add_levels, add_levels-Frontier,
}

module _ (keccak : Bytes → Bytes) where
  -- The tree in memory is that of these deposits.
  pub record HasLeaves (leaves : List Bytes) (mt : MerkleTree) : Type 0 where
    pub counted : length leaves ≡ mt.count
    pub low : mt.height ≤ 64
    pub front : Frontier keccak leaves mt.count mt.height mt.siblings

  HasLeaves-climb :
      (leaves : List Bytes) (mt : MerkleTree) (leaf : Bytes)
      → HasLeaves leaves mt
      → mt.count + 1 < 2 ^ 32
      → HasLeaves (leaves ++ leaf ∷ []) (record mt {
        count = (mt.count + 1) % 2 ^ 32;
        siblings = (climb keccak mt leaf mt.count).siblings;
      })
  HasLeaves-climb leaves mt leaf inv small =
      let whole : (mt.count + 1) % 2 ^ 32 ≡ mt.count + 1 = omega arith in
      rw whole (record {
        counted = omega (arith, length-append leaves (leaf ∷ []), inv.counted);
        low = inv.low;
        front =
            add_levels-Frontier keccak leaves leaf mt.height mt.count mt.siblings inv.counted
              inv.low inv.front;
      })

  module _ {S : Type 0} (store : MerkleTreeStore S) where
    add_leaf_stored :
        (mt : MerkleTree) (db : S) (deposit_id : ℕ) (leaf : Bytes) (r : Result S)
        → store_climb keccak store db mt deposit_id (climb keccak mt leaf mt.count) ≡ r
        → add_leaf keccak store db mt deposit_id leaf mt.count
          ≡ after_climb keccak store mt (climb keccak mt leaf mt.count) r
    unfolding add_leaf
    add_leaf_stored mt db deposit_id leaf r e =
        let next : (mt.count == mt.count) ≡ true = ground arith in rw (next, e) refl

    -- While there is room (fewer leaves than 2 ^ height, and than 2 ^ 32 - 1), the next leaf is
    -- accepted if the storage takes what it is given. The root that it is given is that of the tree
    -- with the new leaf, and this tree is then in memory.
    pub add_leaf-HasLeaves :
        (leaves : List Bytes) (mt : MerkleTree) (db : S) (deposit_id : ℕ) (leaf : Bytes) {db' : S}
        → HasLeaves leaves mt
        → mt.count < 2 ^ mt.height
        → mt.count + 1 < 2 ^ 32
        → store_climb keccak store db mt deposit_id (climb keccak mt leaf mt.count) ≡ ok db'
        → ((climb keccak mt leaf mt.count).cur ≡ tree_root keccak (leaves ++ leaf ∷ []) mt.height)
          × ((add_leaf keccak store db mt deposit_id leaf mt.count).1 ≡ ok db')
          × HasLeaves (leaves ++ leaf ∷ []) (add_leaf keccak store db mt deposit_id leaf mt.count).0
    unfolding after_climb
    add_leaf-HasLeaves leaves mt db deposit_id leaf inv room small stored = (
      cur-add_levels keccak leaves leaf mt.height mt.count mt.siblings inv.counted inv.low inv.front
          room,
      ap (λ r. r.1) (add_leaf_stored mt db deposit_id leaf _ stored),
      subst (λ r. HasLeaves (leaves ++ leaf ∷ []) r.0)
          (sym (add_leaf_stored mt db deposit_id leaf _ stored))
          (HasLeaves-climb leaves mt leaf inv small),
    )
