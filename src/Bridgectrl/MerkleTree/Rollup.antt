-- ===== src/Bridgectrl/MerkleTree/Rollup.antt =====
-- bridgectrl/merkletree.go: `addRollupExitLeaf` puts a leaf in its place and stores the new tree.
use Prim.Native.Nat.{max}
use xlayer_bridge_service.Base.{
  ℕ, zero, suc, ◌+◌, ◌-◌, ◌%◌, ◌^◌, ◌≤◌, ◌<◌, ◌≡◌, refl, sym, ◌∙◌, ap, true, ◌⊎◌, inl, inr, ◌≢◌,
  List, [], ◌++◌, map, some, arith, ℕ_discrete, ◌==◌, if◌then◌else◌, length, get_or, get_elem?, set,
  length-append, length-set, get_or-set_self, get_or-set_ne, get_or-append_left,
  get_or-append_right, get_elem?-get_or, get_elem?_beyond, ok, err, panic, ◌>>=◌, length-map,
}
use xlayer_bridge_service.Etherman.{Bytes, RollupExitLeaf, zero_digest}
use xlayer_bridge_service.Bridgectrl.Store.{MerkleTreeStore}
use xlayer_bridge_service.Bridgectrl.MerkleTree.Defs.{MerkleTree, at}
use xlayer_bridge_service.Bridgectrl.MerkleTree.Spec.{tree_root}
use xlayer_bridge_service.Bridgectrl.MerkleTree.Build.{
  empty_rollups, place_leaf, leaf_rows, store_leaves, add_rollup_exit_leaf,
}
use xlayer_bridge_service.Bridgectrl.MerkleTree.Root.{build_mt_root_lem}

abbrev no_rollup : RollupExitLeaf
no_rollup = record { id = 0; block_id = 0; leaf = zero_digest; rollup_id = 0; root = zero_digest }

-- The leaf number i is that of the rollup i + 1.
abbrev pub Numbered : List RollupExitLeaf → Type 0
Numbered leaves = (i : ℕ) → i < length leaves → (get_or leaves i no_rollup).rollup_id ≡ i + 1

length-empty_rollups : (n i block_id : ℕ) → length (empty_rollups n i block_id) ≡ n
unfolding empty_rollups
length-empty_rollups zero i block_id = refl
length-empty_rollups (suc n) i block_id = omega (arith, length-empty_rollups n (i + 1) block_id)

get_or-empty_rollups :
    (n i k block_id : ℕ)
    → k < n
    → i + n < 2 ^ 32
    → ((get_or (empty_rollups n i block_id) k no_rollup).rollup_id ≡ i + k + 1)
      × ((get_or (empty_rollups n i block_id) k no_rollup).leaf ≡ zero_digest)
unfolding empty_rollups
get_or-empty_rollups zero i k block_id lt small = elim lt [ ]
get_or-empty_rollups (suc n) i zero block_id lt small = (omega arith, refl)
get_or-empty_rollups (suc n) i (suc k) block_id lt small =
    let (number, empty) = get_or-empty_rollups n (i + 1) k block_id (omega arith) (omega arith) in
    (number ∙ omega arith, empty)

-- The stored leaves with this one in the place of its rollup, and empty ones up to there.
pub record Placed (stored : List RollupExitLeaf) (leaf : RollupExitLeaf)
    (placed : List RollupExitLeaf) : Type 0 where
  pub sized : length placed ≡ max (length stored) leaf.rollup_id
  pub here : get_or placed (leaf.rollup_id - 1) no_rollup ≡ leaf
  pub kept :
      (i : ℕ)
      → i ≢ leaf.rollup_id - 1
      → i < length stored
      → get_or placed i no_rollup ≡ get_or stored i no_rollup
  pub empty :
      (i : ℕ)
      → i ≢ leaf.rollup_id - 1
      → length stored ≤ i
      → i < length placed
      → (get_or placed i no_rollup).leaf ≡ zero_digest
  pub numbered : Numbered placed

module _ (stored : List RollupExitLeaf) (leaf : RollupExitLeaf) (numbered : Numbered stored)
    (number : 0 < leaf.rollup_id) (small : leaf.rollup_id < 2 ^ 32)
    (few : length stored < 2 ^ 32) where
  abbrev missing : ℕ
  missing = leaf.rollup_id - length stored

  abbrev padded : List RollupExitLeaf
  padded = stored ++ empty_rollups missing (length stored) leaf.block_id

  length-padded : length padded ≡ max (length stored) leaf.rollup_id
  length-padded = omega (
    arith,
    length-append stored (empty_rollups missing (length stored) leaf.block_id),
    length-empty_rollups missing (length stored) leaf.block_id,
  )

  -- Behind the stored leaves stand empty ones.
  added :
      (i : ℕ)
      → length stored ≤ i
      → i < length padded
      → ((get_or padded i no_rollup).rollup_id ≡ i + 1)
        × ((get_or padded i no_rollup).leaf ≡ zero_digest)
  added i le lt =
      let k : ℕ = i - length stored in
      let e : length stored + k ≡ i = omega arith in
      let (n, z) =
        get_or-empty_rollups missing (length stored) k leaf.block_id (omega (arith, length-padded))
          (omega arith) in
      let at_end =
        get_or-append_right stored (empty_rollups missing (length stored) leaf.block_id) k
          no_rollup in
      rw (← e, at_end) (n, z)

  padded-Numbered : Numbered padded
  padded-Numbered i lt = elim (split (length stored) i) [
    | inl old ↦ ap (λ l. l.rollup_id) (get_or-append_left stored _ i no_rollup old) ∙ numbered i old
    | inr new ↦ (added i new lt).0
  ]
    where
      split : (n i : ℕ) → (i < n) ⊎ (n ≤ i)
      split n i = grind arith

  abbrev position : ℕ
  position = leaf.rollup_id - 1

  inside : position < length padded
  inside = omega (arith, length-padded)

  others :
      (i : ℕ)
      → i ≢ position
      → get_or (set padded position leaf) i no_rollup ≡ get_or padded i no_rollup
  others i ne = get_or-set_ne padded position i leaf no_rollup (λ e. ne (sym e))

  placed-Numbered : Numbered (set padded position leaf)
  placed-Numbered i lt = elim (ℕ_discrete i position) [
    | yes e ↦ rw (e, get_or-set_self padded position leaf no_rollup inside) (omega arith)
    | no ne ↦
        ap (λ l. l.rollup_id) (others i ne)
        ∙ padded-Numbered i (omega (arith, length-set padded position leaf))
  ]

  pub place_leaf-Placed :
      (placed : List RollupExitLeaf) × (place_leaf stored leaf ≡ ok placed)
      × Placed stored leaf placed
  unfolding place_leaf
  place_leaf-Placed = (
    set padded position leaf,
    rw (wrapped, found, at, right_number) refl,
    record {
      sized = length-set padded position leaf ∙ length-padded;
      here = get_or-set_self padded position leaf no_rollup inside;
      kept = λ i ne old. others i ne ∙ get_or-append_left stored _ i no_rollup old;
      empty = λ i ne new lt.
          ap (λ l. l.leaf) (others i ne)
          ∙ (added i new (omega (arith, length-set padded position leaf))).1;
      numbered = placed-Numbered;
    },
  )
    where
      wrapped : (leaf.rollup_id + (2 ^ 32 - 1)) % 2 ^ 32 ≡ position
      wrapped = omega arith

      found : get_elem? padded position ≡ some (get_or padded position no_rollup)
      found = get_elem?-get_or padded position no_rollup inside

      right_number : ((get_or padded position no_rollup).rollup_id == leaf.rollup_id) ≡ true
      right_number = ground (arith, padded-Numbered position inside)

place_leaf_zero :
    (stored : List RollupExitLeaf) (leaf : RollupExitLeaf)
    → leaf.rollup_id ≡ 0
    → length stored < 2 ^ 32 - 1
    → place_leaf stored leaf ≡ err panic
unfolding place_leaf empty_rollups
place_leaf_zero stored leaf zero_id few =
    let none_missing : 0 - length stored ≡ 0 = omega arith in
    let beyond : length (stored ++ []) ≤ (0 + (2 ^ 32 - 1)) % 2 ^ 32 =
      omega (arith, length-append stored []) in
    rw
      (
        zero_id,
        none_missing,
        get_elem?_beyond (stored ++ []) ((0 + (2 ^ 32 - 1)) % 2 ^ 32) beyond,
        at,
      )
      refl

abbrev pub leaves_of : List RollupExitLeaf → List Bytes
leaves_of = map (λ l. l.leaf)

module _ (keccak : Bytes → Bytes) {S : Type 0} (store : MerkleTreeStore S) where
  -- A verified batch of a rollup puts its leaf in the place of that rollup among the latest leaves,
  -- with empty leaves up to there. The root of the tree over them decides whether they are stored
  -- already; if not, all of them are written under that root. The rollup's number is from 1 to the
  -- tree's size, the stored leaves are numbered from 1 on and fit in the tree, whose height is from 1
  -- to 64.
  pub add_rollup_exit_leaf-Placed :
      (db : S) (mt : MerkleTree) (leaf : RollupExitLeaf) (stored : List RollupExitLeaf)
      → 0 < leaf.rollup_id
      → leaf.rollup_id ≤ 2 ^ mt.height
      → leaf.rollup_id < 2 ^ 32
      → length stored ≤ 2 ^ mt.height
      → length stored < 2 ^ 32
      → 0 < mt.height
      → mt.height ≤ 64
      → Numbered stored
      → store.get_latest_rollup_exit_leaves db ≡ ok stored
      → (placed : List RollupExitLeaf) × Placed stored leaf placed
        × (add_rollup_exit_leaf keccak store db mt leaf ≡ (
            store.is_rollup_exit_root db (tree_root keccak (leaves_of placed) mt.height)
            >>= λ exist.
                if exist
                then ok db
                else store.add_rollup_exit_leaves db (
                    leaf_rows 0
                      (tree_root keccak (leaves_of placed) mt.height)
                      leaf.block_id
                      (leaves_of placed))))
  unfolding add_rollup_exit_leaf store_leaves
  add_rollup_exit_leaf-Placed db mt leaf stored id fits_id small_id fits few high low numbered
        latest =
      let (placed, e, spec) = place_leaf-Placed stored leaf numbered id small_id few in
      let room : length (leaves_of placed) ≤ 2 ^ mt.height =
        omega (arith, length-map placed (λ l. l.leaf), spec.sized) in
      (
        placed,
        spec,
        rw (latest, e, (build_mt_root_lem keccak mt.height (leaves_of placed) high low).0 room)
            refl,
      )

  -- A rollup numbered 0 makes the service panic, while fewer than 2 ^ 32 - 1 leaves are stored.
  pub add_rollup_exit_leaf_zero :
      (db : S) (mt : MerkleTree) (leaf : RollupExitLeaf) (stored : List RollupExitLeaf)
      → leaf.rollup_id ≡ 0
      → length stored < 2 ^ 32 - 1
      → store.get_latest_rollup_exit_leaves db ≡ ok stored
      → add_rollup_exit_leaf keccak store db mt leaf ≡ err panic
  unfolding add_rollup_exit_leaf
  add_rollup_exit_leaf_zero db mt leaf stored zero_id few latest =
      rw (latest, place_leaf_zero stored leaf zero_id few) refl
