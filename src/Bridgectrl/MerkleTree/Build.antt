-- ===== src/Bridgectrl/MerkleTree/Build.antt =====
-- bridgectrl/merkletree.go: the tree over a given list of leaves, as the rollup tree is built.
use xlayer_bridge_service.Base.{
  ℕ, zero, suc, ◌+◌, ◌-◌, ◌/◌, ◌%◌, ◌^◌, List, [], ◌∷◌, ◌++◌, map, ltb, ◌==◌, if◌then◌else◌, Result,
  ok, err, more_than_one_root, rollup_id_mismatch, panic, ◌>>=◌, length, set,
}
use mathlib.Core.List.{flatten}
use xlayer_bridge_service.Etherman.{Bytes, RollupExitLeaf, zero_digest}
use xlayer_bridge_service.Bridgectrl.Hash.{hash, zero_hash}
use xlayer_bridge_service.Bridgectrl.Store.{MerkleTreeStore, LeafRow}
use xlayer_bridge_service.Bridgectrl.MerkleTree.Defs.{MerkleTree, Node, row, at}

-- The variables of the loops over the levels: all nodes, those of the last level, and its hashes.
pub record Build : Type 0 where
  pub nodes : List (List Node)
  pub ns : List Node
  pub leaves : List Bytes

-- The variables of the loop of `ComputeSiblings`.
pub record Walk : Type 0 where
  pub index : ℕ
  pub leaves : List Bytes
  pub siblings : List Bytes
  pub ns : List Node

-- `len(ns) != 1` is refused; `ns[0][0]` is the root.
abbrev pub single_root : List Node → Result Bytes
single_root [] = err more_than_one_root
single_root (n ∷ []) = ok n.parent
single_root (n ∷ m ∷ ns) = err more_than_one_root

-- Empty rollups, numbered on from i + 1.
unfoldable pub empty_rollups : ℕ → ℕ → ℕ → List RollupExitLeaf
empty_rollups zero i block_id = []
empty_rollups (suc n) i block_id =
    record {
      id = 0;
      block_id = block_id;
      leaf = zero_digest;
      rollup_id = (i + 1) % 2 ^ 32;
      root = zero_digest;
    }
    ∷ empty_rollups n (i + 1) block_id

-- The leaf takes its place in the stored ones; `RollupId - 1` is in uint32.
unfoldable pub place_leaf : List RollupExitLeaf → RollupExitLeaf → Result (List RollupExitLeaf)
unfolding empty_rollups
place_leaf stored leaf = do
  let missing = empty_rollups (leaf.rollup_id - length stored) (length stored) leaf.block_id
  let position = (leaf.rollup_id + (2 ^ 32 - 1)) % 2 ^ 32
  old ← at (stored ++ missing) position
  if old.rollup_id == leaf.rollup_id
      then ok (set (stored ++ missing) position leaf)
      else err rollup_id_mismatch

-- The rows of `storeLeaves`, numbered from i + 1.
pub leaf_rows : ℕ → Bytes → ℕ → List Bytes → List LeafRow
leaf_rows i root block_id [] = []
leaf_rows i root block_id (leaf ∷ leaves) =
    record { leaf = leaf; rollup_id = i + 1; root = root; block_id = block_id }
    ∷ leaf_rows (i + 1) root block_id leaves

module _ (keccak : Bytes → Bytes) where
  unfoldable pub node_of : Bytes → Bytes → Node
  node_of l r = record { parent = hash keccak (l ∷ r ∷ []); left = l; right = r }

  -- An odd number of leaves would be read out of range.
  unfoldable pub build_intermediate : List Bytes → Result (List Node × List Bytes)
  unfolding node_of
  build_intermediate [] = ok ([], [])
  build_intermediate (x ∷ []) = err panic
  build_intermediate (l ∷ r ∷ rest) = do
    built ← build_intermediate rest
    ok (node_of l r ∷ built.0, (node_of l r).parent ∷ built.1)

  -- `if len(leaves)%2 == 1 { leaves = append(leaves, zeroHashes[h]) }`.
  abbrev pub pad : ℕ → List Bytes → List Bytes
  pad h leaves = if length leaves % 2 == 1 then leaves ++ zero_hash keccak h ∷ [] else leaves

  abbrev pub or_zero_leaf : List Bytes → List Bytes
  or_zero_leaf leaves = if length leaves == 0 then zero_hash keccak 0 ∷ [] else leaves

  -- `rounds` levels from level h upwards.
  unfoldable pub build_levels : ℕ → ℕ → Build → Result Build
  build_levels zero h b = ok b
  build_levels (suc rounds) h b = do
    built ← build_intermediate (pad h b.leaves)
    build_levels rounds (h + 1)
        (record { nodes = b.nodes ++ built.0 ∷ []; ns = built.0; leaves = built.1 })

  abbrev pub build : ℕ → List Bytes → Result Build
  build height leaves =
      build_levels height 0 (record { nodes = []; ns = []; leaves = or_zero_leaf leaves })

  unfoldable pub build_mt_root : ℕ → List Bytes → Result Bytes
  unfolding build_levels
  build_mt_root height leaves = do b ← build height leaves; single_root b.ns

  module _ {S : Type 0} (store : MerkleTreeStore S) where
    set_count : MerkleTree → ℕ → Result S → MerkleTree × Result S
    set_count mt n (ok db) = (record mt { count = n % 2 ^ 32 }, ok db)
    set_count mt n (err e) = (mt, err e)

    -- The tree over these leaves is stored, and the count is set if that succeeds.
    unfoldable pub update_leaf : S → MerkleTree → ℕ → List Bytes → MerkleTree × Result S
    unfolding set_count
    update_leaf db mt deposit_id leaves = set_count mt (length leaves) (do
      b ← build mt.height leaves
      root ← single_root b.ns
      db' ← store.set_root db root deposit_id mt.network_id
      store.bulk_set db' (map (row deposit_id) (flatten b.nodes)))

    -- Leaves whose root is stored are stored already.
    unfoldable pub store_leaves : S → MerkleTree → List Bytes → ℕ → Result S
    store_leaves db mt leaves block_id = do
      root ← build_mt_root mt.height leaves
      exist ← store.is_rollup_exit_root db root
      if exist then ok db else store.add_rollup_exit_leaves db (leaf_rows 0 root block_id leaves)

    unfoldable pub add_rollup_exit_leaf : S → MerkleTree → RollupExitLeaf → Result S
    add_rollup_exit_leaf db mt leaf = do
      stored ← store.get_latest_rollup_exit_leaves db
      placed ← place_leaf stored leaf
      store_leaves db mt (map (λ l. l.leaf) placed) leaf.block_id

  -- The sibling of the index at a level; the padded level has two nodes at least.
  abbrev pub sibling_of : ℕ → List Bytes → List Bytes → Result (List Bytes)
  sibling_of index leaves siblings =
      if index % 2 == 1
      then at leaves (index - 1) >>= (λ s. ok (siblings ++ s ∷ []))
      else (if ltb 1 (length leaves)
          then at leaves (index + 1) >>= (λ s. ok (siblings ++ s ∷ []))
          else ok siblings)

  unfoldable pub walk_levels : ℕ → ℕ → Walk → Result Walk
  walk_levels zero h w = ok w
  walk_levels (suc rounds) h w = do
    siblings ← sibling_of w.index (pad h w.leaves) w.siblings
    built ← build_intermediate (pad h w.leaves)
    walk_levels rounds (h + 1)
        (record { index = w.index / 2; leaves = built.1; siblings = siblings; ns = built.0 })

  unfoldable pub compute_siblings : ℕ → List Bytes → ℕ → Result (List Bytes × Bytes)
  unfolding walk_levels
  compute_siblings rollup_index leaves height = do
    w ←
        walk_levels height 0
          (record { index = rollup_index; leaves = or_zero_leaf leaves; siblings = []; ns = [] })
    root ← single_root w.ns
    ok (w.siblings, root)

  -- `rounds` levels from level h upwards.
  unfoldable pub fold_proof : ℕ → ℕ → ℕ → Bytes → List Bytes → Result Bytes
  fold_proof zero h index node proof = ok node
  fold_proof (suc rounds) h index node proof = do
    s ← at proof h
    fold_proof rounds (h + 1) index
        (if (index / 2 ^ h) % 2 == 1
          then hash keccak (s ∷ node ∷ [])
          else hash keccak (node ∷ s ∷ []))
        proof

  unfoldable pub calculate_root : Bytes → List Bytes → ℕ → ℕ → Result Bytes
  unfolding fold_proof
  calculate_root leaf_hash smt_proof index height = fold_proof height 0 index leaf_hash smt_proof
