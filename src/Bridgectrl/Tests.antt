-- ===== src/Bridgectrl/Tests.antt =====
-- The theorems on the trees at a small input: a toy hash function, and trees of height 2.
use mathlib.Core.List.{foldl}
use xlayer_bridge_service.Base.{
  ℕ, zero, suc, ◌+◌, ◌*◌, ◌/◌, ◌%◌, ◌^◌, ◌≤◌, ◌<◌, ◌≡◌, refl, inl, inr, List, [], ◌∷◌, arith,
  replicate, length, get_or, Result, ok, err, mismatched_deposit_count, more_than_one_root, panic,
  false, some, get_elem?, ◌>>=◌, if◌then◌else◌, ◌≢◌,
}
use xlayer_bridge_service.Etherman.{Bytes, Deposit, RollupExitLeaf, zero_digest, zero_address}
use xlayer_bridge_service.Pgstorage.MerkleTree.{Tables, merkle_tree_store}
use xlayer_bridge_service.Bridgectrl.Hash.{hash, zero_hash, hash_deposit, leaf_preimage, big_endian}
use xlayer_bridge_service.Bridgectrl.MerkleTree.Defs.{
  MerkleTree, climb, store_climb, add_leaf, add_level, add_levels, reset_leaf,
}
use xlayer_bridge_service.Bridgectrl.MerkleTree.Spec.{tree_root, subtree}
use xlayer_bridge_service.Bridgectrl.MerkleTree.AddLeaf.{HasLeaves, add_leaf-HasLeaves}
use xlayer_bridge_service.Bridgectrl.MerkleTree.Siblings.{reset_leaf-HasLeaves, Stores, children}
use xlayer_bridge_service.Bridgectrl.MerkleTree.Build.{
  build_mt_root, compute_siblings, calculate_root, add_rollup_exit_leaf, leaf_rows,
}
use xlayer_bridge_service.Bridgectrl.MerkleTree.Root.{build_mt_root_lem}
use xlayer_bridge_service.Bridgectrl.MerkleTree.Proof.{compute_siblings-calculate_root}
use xlayer_bridge_service.Bridgectrl.MerkleTree.Rollup.{
  Placed, leaves_of, add_rollup_exit_leaf-Placed, add_rollup_exit_leaf_zero,
}
use xlayer_bridge_service.Bridgectrl.Controller.{BridgeController, tree_id, add_deposit}
use xlayer_bridge_service.Bridgectrl.Controller.Deposits.{add_deposit-HasLeaves, add_deposit_again}

abbrev toy : Bytes → Bytes
toy bytes = foldl (λ (a x : ℕ). (a * 31 + x) % 65521) 7 bytes ∷ []

abbrev empty_db : Tables
empty_db = record {
  rht = [];
  roots = [];
  deposits = record { id = 10; deposit_cnt = 0; network_id = 1 } ∷ [];
  rollup_exit = [];
}

abbrev blank : MerkleTree
blank = record { network_id = 1; height = 2; count = 0; siblings = [] }

abbrev start : MerkleTree
start = (reset_leaf toy merkle_tree_store empty_db blank 0).0

start-HasLeaves : HasLeaves toy [] start
start-HasLeaves =
    (reset_leaf-HasLeaves toy merkle_tree_store [] blank empty_db (omega arith) (omega arith)
      (omega arith) (inl refl)).1

abbrev first_leaf : Bytes
first_leaf = replicate 32 5

abbrev result_or : Result Tables → Tables → Tables
result_or (ok db) other = db
result_or (err e) other = other

abbrev write_first : Result Tables
write_first =
    store_climb toy merkle_tree_store empty_db start 10 (climb toy start first_leaf start.count)

abbrev first_db : Tables
first_db = result_or write_first empty_db

first_written : write_first ≡ ok first_db
unfolding reset_leaf add_level add_levels store_climb merkle_tree_store hash zero_hash
first_written = refl

start_count : start.count ≡ 0
unfolding reset_leaf
start_count = refl

add_leaf-HasLeaves_example :
    ((climb toy start first_leaf start.count).cur ≡ tree_root toy (first_leaf ∷ []) start.height)
    × ((add_leaf toy merkle_tree_store empty_db start 10 first_leaf start.count).1 ≡ ok first_db)
    × HasLeaves toy
        (first_leaf ∷ [])
        (add_leaf toy merkle_tree_store empty_db start 10 first_leaf start.count).0
add_leaf-HasLeaves_example =
    add_leaf-HasLeaves toy merkle_tree_store [] start empty_db 10 first_leaf start-HasLeaves
      (unfold reset_leaf in omega arith) (unfold reset_leaf in omega arith) first_written

abbrev one_leaf : MerkleTree
one_leaf = (add_leaf toy merkle_tree_store empty_db start 10 first_leaf start.count).0

first-Stores : Stores toy merkle_tree_store (first_leaf ∷ []) 1 2 first_db
unfolding reset_leaf add_level add_levels store_climb merkle_tree_store hash zero_hash tree_root
first-Stores = record { root = refl; path = path }
  where
    path :
        (h : ℕ)
        → h < 2
        → merkle_tree_store.get first_db (subtree toy (first_leaf ∷ []) (suc h) (0 / 2 ^ suc h))
          ≡ ok (children toy (first_leaf ∷ []) h (0 / 2 ^ suc h))
    path zero lt = refl
    path (suc zero) lt = refl
    path (suc (suc h)) lt = absurd (omega arith)

reset_leaf-HasLeaves_example :
    ((reset_leaf toy merkle_tree_store first_db blank 1).1 ≡ ok tt)
    × HasLeaves toy (first_leaf ∷ []) (reset_leaf toy merkle_tree_store first_db blank 1).0
reset_leaf-HasLeaves_example =
    reset_leaf-HasLeaves toy merkle_tree_store (first_leaf ∷ []) blank first_db (omega arith)
      (omega arith) (omega arith) (inr (omega arith, first-Stores))

abbrev seven : ℕ
seven = 7

abbrev three_leaves : List Bytes
three_leaves = replicate 32 1 ∷ replicate 32 2 ∷ replicate 32 3 ∷ []

build_mt_root_lem_example :
    (length three_leaves ≤ 2 ^ 2
      → build_mt_root toy 2 three_leaves ≡ ok (tree_root toy three_leaves 2))
    × (2 ^ 2 < length three_leaves → build_mt_root toy 2 three_leaves ≡ err more_than_one_root)
build_mt_root_lem_example = build_mt_root_lem toy 2 three_leaves (omega arith) (omega arith)

compute_siblings-calculate_root_example :
    (proof : List Bytes) × (compute_siblings toy 2 three_leaves 2
      ≡ ok (proof, tree_root toy three_leaves 2))
    × (calculate_root toy (get_or three_leaves 2 zero_digest) proof 2 2
        ≡ ok (tree_root toy three_leaves 2))
compute_siblings-calculate_root_example =
    compute_siblings-calculate_root toy three_leaves 2 2 (omega arith) (omega arith) (omega arith)
      (omega arith)

abbrev third_rollup : RollupExitLeaf
third_rollup = record { id = 0; block_id = 9; leaf = first_leaf; rollup_id = 3; root = zero_digest }

add_rollup_exit_leaf-Placed_example :
    (placed : List RollupExitLeaf) × Placed [] third_rollup placed
    × (add_rollup_exit_leaf toy merkle_tree_store empty_db blank third_rollup ≡ (
        merkle_tree_store.is_rollup_exit_root empty_db (tree_root toy (leaves_of placed) 2)
        >>= λ exist.
            if exist
            then ok empty_db
            else merkle_tree_store.add_rollup_exit_leaves empty_db
                (leaf_rows 0 (tree_root toy (leaves_of placed) 2) 9 (leaves_of placed))))
add_rollup_exit_leaf-Placed_example =
    add_rollup_exit_leaf-Placed toy merkle_tree_store empty_db blank third_rollup [] (omega arith)
      (omega arith) (omega arith) (omega arith) (omega arith) (omega arith) (omega arith)
      (λ i lt. absurd (omega arith)) (unfold merkle_tree_store in refl)

add_rollup_exit_leaf_zero_example :
    add_rollup_exit_leaf toy merkle_tree_store empty_db blank
      (record third_rollup { rollup_id = 0 })
    ≡ err panic
add_rollup_exit_leaf_zero_example =
    add_rollup_exit_leaf_zero toy merkle_tree_store empty_db blank
      (record third_rollup { rollup_id = 0 }) [] refl (omega arith)
      (unfold merkle_tree_store in refl)

abbrev deposit : Deposit
deposit = record {
  id = 10;
  leaf_type = 0;
  original_network = 0;
  original_address = zero_address;
  amount = 1000;
  destination_network = 2;
  destination_address = replicate 20 7;
  deposit_count = 0;
  block_id = 1;
  block_number = 100;
  network_id = 1;
  tx_hash = zero_digest;
  metadata = [];
  ready_for_claim = false;
  time = 0;
  ready_time = 0;
  dest_contract_address = zero_address;
}

abbrev controller : BridgeController
controller = record {
  exit_trees = blank ∷ start ∷ [];
  rollups_tree = blank;
  merkle_tree_ids = (1, 1) ∷ (0, 0) ∷ [];
}

abbrev deposit_leaf : Bytes
deposit_leaf = hash toy (leaf_preimage toy deposit)

abbrev write_deposit : Result Tables
write_deposit =
    store_climb toy merkle_tree_store empty_db start 10 (climb toy start deposit_leaf start.count)

deposit_written : write_deposit ≡ ok (result_or write_deposit empty_db)
unfolding reset_leaf add_level add_levels store_climb merkle_tree_store hash zero_hash big_endian
deposit_written = refl

add_deposit-HasLeaves_example :
    (mt' : MerkleTree) × ((add_deposit toy merkle_tree_store empty_db controller deposit 10).1
      ≡ ok (result_or write_deposit empty_db))
    × (get_elem? (add_deposit toy merkle_tree_store empty_db controller deposit 10).0.exit_trees 1
        ≡ some mt')
    × HasLeaves toy (deposit_leaf ∷ []) mt'
    × ((j : ℕ)
        → j ≢ 1
        → get_elem?
            (add_deposit toy merkle_tree_store empty_db controller deposit 10).0.exit_trees
            j
          ≡ get_elem? controller.exit_trees j)
add_deposit-HasLeaves_example =
    add_deposit-HasLeaves toy merkle_tree_store empty_db controller deposit 10 1 start []
      deposit_leaf (unfold tree_id in refl) refl start-HasLeaves (unfold reset_leaf in refl)
      (unfold reset_leaf in omega arith) (unfold reset_leaf in omega arith)
      (unfold hash_deposit in refl) deposit_written

add_deposit_again_example :
    (add_deposit toy merkle_tree_store empty_db
      (add_deposit toy merkle_tree_store empty_db controller deposit 10).0
      deposit
      10).1
    ≡ err mismatched_deposit_count
add_deposit_again_example =
    add_deposit_again toy merkle_tree_store empty_db empty_db controller deposit 10 10 1 start []
      deposit_leaf (unfold tree_id in refl) refl start-HasLeaves (unfold reset_leaf in refl)
      (unfold reset_leaf in omega arith) (unfold reset_leaf in omega arith)
      (unfold hash_deposit in refl) deposit_written
