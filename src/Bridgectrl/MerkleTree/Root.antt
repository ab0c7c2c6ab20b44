-- ===== src/Bridgectrl/MerkleTree/Root.antt =====
-- bridgectrl/merkletree.go: `buildMTRoot` and `updateLeaf` compute the root of the tree.
use xlayer_bridge_service.Base.{
  ℕ, zero, suc, ◌+◌, ◌^◌, ◌≤◌, ◌<◌, ◌≡◌, refl, sym, ◌∙◌, ap, ◌⊎◌, inl, inr, List, [], ◌∷◌, arith,
  length, get_or, ok, err, more_than_one_root,
}
use xlayer_bridge_service.Base.Powers.{pow_pos}
use xlayer_bridge_service.Etherman.{Bytes}
use xlayer_bridge_service.Bridgectrl.Hash.{zero_at}
use xlayer_bridge_service.Bridgectrl.MerkleTree.Defs.{Node}
use xlayer_bridge_service.Bridgectrl.MerkleTree.Spec.{tree_root, tree_root_lem}
use xlayer_bridge_service.Bridgectrl.MerkleTree.Build.{
  Build, or_zero_leaf, build_levels, single_root, build, build_mt_root,
}
use xlayer_bridge_service.Bridgectrl.MerkleTree.Levels.{
  Level, parents, next-Level, start-Level, build_intermediate-pad, leaf_count, level_size-le,
  le-level_size, level_size_pos,
}

module _ (keccak : Bytes → Bytes) where
  -- What the loop over the levels leaves: level h of the tree, as nodes and as hashes.
  record Built (leaves : List Bytes) (n h : ℕ) (b : Build) : Type 0 where
    level : Level keccak leaves n h b.leaves
    linked : (h ≡ 0) ⊎ (b.leaves ≡ parents b.ns)

  build_levels-Built :
      (leaves : List Bytes) (n rounds h : ℕ) (b : Build)
      → h + rounds ≤ 64
      → Built leaves n h b
      → (c : Build) × (build_levels keccak rounds h b ≡ ok c) × Built leaves n (h + rounds) c
  unfolding build_levels
  build_levels-Built leaves n zero h b low inv =
      (b, refl, let e : h + 0 ≡ h = omega arith in rw e inv)
  build_levels-Built leaves n (suc rounds) h b low inv =
      let one : h + 1 ≡ suc h = omega arith in
      let end : h + suc rounds ≡ suc h + rounds = omega arith in
      rw (build_intermediate-pad keccak h b.leaves, one, end)
        (build_levels-Built leaves n rounds (suc h) _ (omega arith) (record {
          level = next-Level keccak leaves n h b.leaves (omega arith) inv.level;
          linked = inr refl;
        }))

  single-one :
      (ns : List Node) (z : Bytes)
      → length (parents ns) ≡ 1
      → single_root ns ≡ ok (get_or (parents ns) 0 z)
  single-one [] z one = absurd (omega arith)
  single-one (n ∷ []) z one = refl
  single-one (n ∷ m ∷ ns) z one = absurd (omega arith)

  single-many : (ns : List Node) → 1 < length (parents ns) → single_root ns ≡ err more_than_one_root
  single-many [] many = absurd (omega arith)
  single-many (n ∷ []) many = absurd (omega arith)
  single-many (n ∷ m ∷ ns) many = refl

  -- At the last level one node is left, or the loop ends with an error.
  pub root_of_nodes :
      (leaves : List Bytes) (n height : ℕ) (nodes : List Bytes) (ns : List Node)
      → 0 < height
      → 0 < n
      → Level keccak leaves n height nodes
      → (height ≡ 0) ⊎ (nodes ≡ parents ns)
      → (n ≤ 2 ^ height → single_root ns ≡ ok (tree_root keccak leaves height))
        × (2 ^ height < n → single_root ns ≡ err more_than_one_root)
  root_of_nodes leaves n height nodes ns high pos level (inl bottom) = absurd (omega arith)
  root_of_nodes leaves n height nodes ns high pos level (inr linked) = (
    λ fits.
        single-one ns (zero_at keccak height) (rw (← linked) (one_node fits))
        ∙ ap (λ xs. ok (get_or xs 0 (zero_at keccak height))) (sym linked)
        ∙ ap ok (level.values 0 ∙ sym (tree_root_lem keccak leaves height)),
    λ over. single-many ns (rw (← linked) (more_nodes over)),
  )
    where
      one_node : n ≤ 2 ^ height → length nodes ≡ 1
      one_node fits =
          omega (
            arith,
            level.sized,
            level_size-le n height 1 (omega arith),
            level_size_pos n height pos,
          )

      more_nodes : 2 ^ height < n → 1 < length nodes
      more_nodes over = grind (arith, level.sized, le-level_size n height 1)

  pub leaf_count_pos : (leaves : List Bytes) → 0 < leaf_count keccak leaves
  leaf_count_pos [] = omega arith
  leaf_count_pos (x ∷ xs) = ground arith

  pub leaf_count-le :
      (leaves : List Bytes) (m : ℕ) → 0 < m → length leaves ≤ m → leaf_count keccak leaves ≤ m
  leaf_count-le [] m pos le = omega arith
  leaf_count-le (x ∷ xs) m pos le = ground arith

  pub lt-leaf_count :
      (leaves : List Bytes) (m : ℕ) → m < length leaves → m < leaf_count keccak leaves
  lt-leaf_count [] m lt = absurd (omega arith)
  lt-leaf_count (x ∷ xs) m lt = ground arith

  -- `build` makes all levels of the tree, and one root where the leaves fit.
  pub build_lem :
      (height : ℕ) (leaves : List Bytes)
      → 0 < height
      → height ≤ 64
      → (b : Build) × (build keccak height leaves ≡ ok b)
        × (length leaves ≤ 2 ^ height → single_root b.ns ≡ ok (tree_root keccak leaves height))
        × (2 ^ height < length leaves → single_root b.ns ≡ err more_than_one_root)
  build_lem height leaves high low =
      let (b, built, inv) =
        build_levels-Built leaves (leaf_count keccak leaves) height 0
          (record { nodes = []; ns = []; leaves = or_zero_leaf keccak leaves }) (omega arith)
          (record { level = start-Level keccak leaves; linked = inl refl }) in
      let all : 0 + height ≡ height = omega arith in
      let (one, many) =
        root_of_nodes leaves (leaf_count keccak leaves) height b.leaves b.ns high
          (leaf_count_pos leaves) (rw all at (inv.level)) (rw all at (inv.linked)) in
      (
        b,
        built,
        λ fits. one (leaf_count-le leaves (2 ^ height) (pow_pos height) fits),
        λ over. many (lt-leaf_count leaves (2 ^ height) over),
      )

  -- At a height from 1 to 64, `buildMTRoot` returns the root of the tree over its leaves if they fit in the height, and an
  -- error exactly if they do not.
  pub build_mt_root_lem :
      (height : ℕ) (leaves : List Bytes)
      → 0 < height
      → height ≤ 64
      → (length leaves ≤ 2 ^ height
          → build_mt_root keccak height leaves ≡ ok (tree_root keccak leaves height))
        × (2 ^ height < length leaves → build_mt_root keccak height leaves ≡ err more_than_one_root)
  unfolding build_mt_root
  build_mt_root_lem height leaves high low =
      let (b, built, one, many) = build_lem height leaves high low in
      (λ fits. rw built (one fits), λ over. rw built (many over))
