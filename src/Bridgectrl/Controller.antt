-- ===== src/Bridgectrl/Controller.antt =====
-- bridgectrl/bridgectrl.go: one exit tree for each network, and the rollup tree.
-- The map of the networks is an association list, the last entry first.
pub mod Deposits
use xlayer_bridge_service.Base.{
  ℕ, ◌+◌, ◌%◌, ◌^◌, true, List, [], ◌∷◌, ◌++◌, Option, none, some, ◌==◌, if◌then◌else◌, Result, ok,
  err, network_not_register, panic, ◌>>=◌, get_elem?, set,
}
use xlayer_bridge_service.Etherman.{Bytes, Deposit, RollupExitLeaf}
use xlayer_bridge_service.Bridgectrl.Hash.{hash_deposit}
use xlayer_bridge_service.Bridgectrl.Store.{MerkleTreeStore}
use xlayer_bridge_service.Bridgectrl.MerkleTree.Defs.{
  MerkleTree, new_merkle_tree, add_leaf, reset_leaf, get_root, at,
}
use xlayer_bridge_service.Bridgectrl.MerkleTree.Build.{add_rollup_exit_leaf as add_leaf_of_rollup}

pub record BridgeController : Type 0 where
  pub exit_trees : List MerkleTree
  pub rollups_tree : MerkleTree
  pub merkle_tree_ids : List (ℕ × ℕ)

unfoldable pub tree_id : ℕ → List (ℕ × ℕ) → Option ℕ
tree_id network [] = none
tree_id network ((n, id) ∷ ids) = if n == network then some id else tree_id network ids

unfoldable pub get_merkle_tree_id : BridgeController → ℕ → Result ℕ
unfolding tree_id
get_merkle_tree_id bt network = elim (tree_id network bt.merkle_tree_ids) [
  | none ↦ err network_not_register
  | some id ↦ ok id
]

abbrev pub max_int32 : ℕ
max_int32 = 2147483647

module _ (keccak : Bytes → Bytes) {S : Type 0} (store : MerkleTreeStore S) where
  -- The loop of `NewBridgeController` over the networks; `i` is its index, a uint8 in the map.
  unfoldable pub new_trees :
      S → ℕ → ℕ → List ℕ → List MerkleTree → List (ℕ × ℕ) → Result (List MerkleTree × List (ℕ × ℕ))
  new_trees db height i [] trees ids = ok (trees, ids)
  new_trees db height i (network ∷ networks) trees ids = do
    mt ← new_merkle_tree keccak store db height network
    new_trees db height (i + 1) networks (trees ++ mt ∷ []) ((network, i % 256) ∷ ids)

  unfoldable pub new_bridge_controller : S → ℕ → List ℕ → Result BridgeController
  unfolding new_trees
  new_bridge_controller db height networks = do
    made ← new_trees db height 0 networks [] []
    rollups ← new_merkle_tree keccak store db height max_int32
    ok (record { exit_trees = made.0; rollups_tree = rollups; merkle_tree_ids = made.1 })

  -- Calls a method of the exit tree of a network, which may change it in place.
  abbrev pub on_tree {ℓ} :
      {A : Type ℓ}
      → BridgeController
      → ℕ
      → (MerkleTree → MerkleTree × Result A)
      → BridgeController × Result A
  on_tree bt network method = elim (get_merkle_tree_id bt network) [
    | err e ↦ (bt, err e)
    | ok id ↦ elim (get_elem? bt.exit_trees id) [
      | none ↦ (bt, err panic)
      | some mt ↦ let r = method mt in (record bt { exit_trees = set bt.exit_trees id r.0 }, r.1)
    ]
  ]

  unfoldable pub add_deposit : S → BridgeController → Deposit → ℕ → BridgeController × Result S
  unfolding get_merkle_tree_id
  add_deposit db bt deposit deposit_id = elim (hash_deposit keccak deposit) [
    | err e ↦ (bt, err e)
    | ok leaf ↦
        on_tree bt deposit.network_id
          (λ mt. add_leaf keccak store db mt deposit_id leaf deposit.deposit_count)
  ]

  unfoldable pub reorg_mt : S → BridgeController → ℕ → ℕ → BridgeController × Result (Unit {0})
  unfolding get_merkle_tree_id
  reorg_mt db bt deposit_count network =
      on_tree bt network (λ mt. reset_leaf keccak store db mt deposit_count)

  unfoldable pub get_exit_root : S → BridgeController → ℕ → Result Bytes
  get_exit_root db bt id = do mt ← at bt.exit_trees id; get_root keccak store db mt

  unfoldable pub add_rollup_exit_leaf : S → BridgeController → RollupExitLeaf → Result S
  add_rollup_exit_leaf db bt leaf = add_leaf_of_rollup keccak store db bt.rollups_tree leaf
