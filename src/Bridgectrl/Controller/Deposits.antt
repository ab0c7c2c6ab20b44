-- ===== src/Bridgectrl/Controller/Deposits.antt =====
-- bridgectrl/bridgectrl.go: a deposit goes to the tree of its network, and to no other.
use xlayer_bridge_service.Base.{
  ℕ, ◌+◌, ◌^◌, ◌<◌, ◌≡◌, refl, sym, ◌≢◌, List, [], ◌∷◌, ◌++◌, some, ok, err,
  mismatched_deposit_count, false, ◌==◌, arith, length-append, get_elem?, set, get_elem?-set_self,
  get_elem?-set_ne, get_elem?-lt,
}
use xlayer_bridge_service.Etherman.{Bytes, Deposit}
use xlayer_bridge_service.Bridgectrl.Hash.{hash_deposit}
use xlayer_bridge_service.Bridgectrl.Store.{MerkleTreeStore}
use xlayer_bridge_service.Bridgectrl.MerkleTree.Defs.{MerkleTree, climb, store_climb, add_leaf}
use xlayer_bridge_service.Bridgectrl.MerkleTree.AddLeaf.{HasLeaves, add_leaf-HasLeaves}
use xlayer_bridge_service.Bridgectrl.Controller.{
  BridgeController, tree_id, get_merkle_tree_id, on_tree, add_deposit,
}

module _ (keccak : Bytes → Bytes) {S : Type 0} (store : MerkleTreeStore S) where
  add_deposit_lem :
      (db : S) (bt : BridgeController) (deposit : Deposit) (deposit_id id : ℕ) (mt : MerkleTree)
      (leaf : Bytes)
      → tree_id deposit.network_id bt.merkle_tree_ids ≡ some id
      → get_elem? bt.exit_trees id ≡ some mt
      → hash_deposit keccak deposit ≡ ok leaf
      → let r = add_leaf keccak store db mt deposit_id leaf deposit.deposit_count in
        add_deposit keccak store db bt deposit deposit_id
        ≡ (record bt { exit_trees = set bt.exit_trees id r.0 }, r.1)
  unfolding add_deposit get_merkle_tree_id
  add_deposit_lem db bt deposit deposit_id id mt leaf known found hashed =
      rw (hashed, known, found, add_deposit, get_merkle_tree_id, on_tree) refl

  -- A deposit of a network that has a tree with room, when it is the next one and the storage takes
  -- its calls, is added to that tree, and the other trees stay as they are.
  pub add_deposit-HasLeaves :
      (db : S) (bt : BridgeController) (deposit : Deposit) (deposit_id id : ℕ) (mt : MerkleTree)
      (leaves : List Bytes) (leaf : Bytes) {db' : S}
      → tree_id deposit.network_id bt.merkle_tree_ids ≡ some id
      → get_elem? bt.exit_trees id ≡ some mt
      → HasLeaves keccak leaves mt
      → deposit.deposit_count ≡ mt.count
      → mt.count < 2 ^ mt.height
      → mt.count + 1 < 2 ^ 32
      → hash_deposit keccak deposit ≡ ok leaf
      → store_climb keccak store db mt deposit_id (climb keccak mt leaf mt.count) ≡ ok db'
      → (mt' : MerkleTree) × ((add_deposit keccak store db bt deposit deposit_id).1 ≡ ok db')
        × (get_elem? (add_deposit keccak store db bt deposit deposit_id).0.exit_trees id ≡ some mt')
        × HasLeaves keccak (leaves ++ leaf ∷ []) mt'
        × ((j : ℕ)
            → j ≢ id
            → get_elem? (add_deposit keccak store db bt deposit deposit_id).0.exit_trees j
              ≡ get_elem? bt.exit_trees j)
  add_deposit-HasLeaves db bt deposit deposit_id id mt leaves leaf known found inv next room small
        hashed stored =
      let (root, done, inv') =
        add_leaf-HasLeaves keccak store leaves mt db deposit_id leaf inv room small stored in
      rw (add_deposit_lem db bt deposit deposit_id id mt leaf known found hashed, next)
        (
          (add_leaf keccak store db mt deposit_id leaf mt.count).0,
          done,
          get_elem?-set_self bt.exit_trees id _ (get_elem?-lt bt.exit_trees id found),
          inv',
          λ j ne. get_elem?-set_ne bt.exit_trees id j _ (λ e. ne (sym e)),
        )

  out_of_turn :
      (db : S) (mt : MerkleTree) (deposit_id index : ℕ) (leaf : Bytes)
      → index ≢ mt.count
      → (add_leaf keccak store db mt deposit_id leaf index).1 ≡ err mismatched_deposit_count
  unfolding add_leaf
  out_of_turn db mt deposit_id index leaf other =
      let not_next : (index == mt.count) ≡ false = ground arith in rw (not_next, add_leaf) refl

  one_longer :
      (leaves : List Bytes) (leaf : Bytes) (mt mt' : MerkleTree) (count : ℕ)
      → HasLeaves keccak leaves mt
      → HasLeaves keccak (leaves ++ leaf ∷ []) mt'
      → count ≡ mt.count
      → count ≢ mt'.count
  one_longer leaves leaf mt mt' count inv inv' next same =
      omega (arith, inv.counted, inv'.counted, length-append leaves (leaf ∷ []))

  -- A deposit that the tree of its network had room for and that the storage took is refused when it
  -- is added again, whatever the storage then is: a transaction that is rolled back leaves the deposit
  -- in the tree in memory.
  pub add_deposit_again :
      (db db2 : S) (bt : BridgeController) (deposit : Deposit) (deposit_id deposit_id2 id : ℕ)
      (mt : MerkleTree) (leaves : List Bytes) (leaf : Bytes) {db' : S}
      → tree_id deposit.network_id bt.merkle_tree_ids ≡ some id
      → get_elem? bt.exit_trees id ≡ some mt
      → HasLeaves keccak leaves mt
      → deposit.deposit_count ≡ mt.count
      → mt.count < 2 ^ mt.height
      → mt.count + 1 < 2 ^ 32
      → hash_deposit keccak deposit ≡ ok leaf
      → store_climb keccak store db mt deposit_id (climb keccak mt leaf mt.count) ≡ ok db'
      → (add_deposit keccak store db2
          (add_deposit keccak store db bt deposit deposit_id).0
          deposit
          deposit_id2).1
        ≡ err mismatched_deposit_count
  add_deposit_again db db2 bt deposit deposit_id deposit_id2 id mt leaves leaf known found inv next
        room small hashed stored =
      let (mt', done, at_id, inv', others) =
        add_deposit-HasLeaves db bt deposit deposit_id id mt leaves leaf known found inv next room
          small hashed stored in
      let bt' = (add_deposit keccak store db bt deposit deposit_id).0 in
      let known' : tree_id deposit.network_id bt'.merkle_tree_ids ≡ some id =
        rw (add_deposit_lem db bt deposit deposit_id id mt leaf known found hashed) known in
      rw (add_deposit_lem db2 bt' deposit deposit_id2 id mt' leaf known' at_id hashed) (
        out_of_turn db2 mt' deposit_id2 deposit.deposit_count leaf
          (one_longer leaves leaf mt mt' deposit.deposit_count inv inv' next))
