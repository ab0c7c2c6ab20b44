-- ===== src/Bridgectrl/MerkleTree/Proof.antt =====
-- bridgectrl/merkletree.go: `ComputeSiblings` makes a Merkle proof that `calculateRoot` accepts.
use xlayer_bridge_service.Base.{
  ℕ, zero, suc, ◌+◌, ◌-◌, ◌*◌, ◌/◌, ◌%◌, ◌^◌, ◌≤◌, ◌<◌, ◌≡◌, refl, sym, ◌∙◌, ap, ap₂, true, false,
  ◌⊎◌, inl, inr, List, [], ◌∷◌, ◌++◌, arith, Bool-cases, ltb, ◌==◌, if◌then◌else◌, length, get_or,
  length-append, get_or-append_left, get_or-append_last, get_elem?-get_or, get_elem?_beyond, ok,
  err, panic,
}
use xlayer_bridge_service.Base.Powers.{div-pow_suc, div-pow_le, div-pow_zero, pow_pos}
use xlayer_bridge_service.Etherman.{Bytes, zero_digest}
use xlayer_bridge_service.Bridgectrl.Hash.{hash, zero_at}
use xlayer_bridge_service.Bridgectrl.MerkleTree.Defs.{at}
use xlayer_bridge_service.Bridgectrl.MerkleTree.Spec.{
  subtree, subtree-suc, subtree_zero, tree_root, tree_root_lem,
}
use xlayer_bridge_service.Bridgectrl.MerkleTree.Build.{
  Walk, pad, or_zero_leaf, sibling_of, walk_levels, compute_siblings, fold_proof, calculate_root,
}
use xlayer_bridge_service.Bridgectrl.MerkleTree.Root.{
  root_of_nodes, leaf_count_pos, leaf_count-le, lt-leaf_count,
}
use xlayer_bridge_service.Bridgectrl.MerkleTree.Levels.{
  Level, parents, next-Level, start-Level, build_intermediate-pad, leaf_count, level_size,
  le-level_size, length-pad, get_or-pad,
}

-- The other child of the parent of node m.
abbrev pub sibling_index : ℕ → ℕ
sibling_index m = if m % 2 == 1 then m - 1 else m + 1

-- `at` within the list.
pub at_lem : (xs : List Bytes) (i : ℕ) (d : Bytes) → i < length xs → at xs i ≡ ok (get_or xs i d)
at_lem xs i d lt = rw (get_elem?-get_or xs i d lt, at) refl

pub at_beyond : (xs : List Bytes) (i : ℕ) → length xs ≤ i → at xs i ≡ err panic
at_beyond xs i le = rw (get_elem?_beyond xs i le, at) refl

-- A leaf that is there has an ancestor at each level.
lt-level_size : (n index h : ℕ) → index < n → index / 2 ^ h < level_size n h
lt-level_size n index h lt = grind (arith, le-level_size n h (index / 2 ^ h), div-pow_le index h)

module _ (keccak : Bytes → Bytes) where
  -- The siblings on the path from the leaf `index`, from the leaves up to level h.
  unfoldable pub proof_nodes : List Bytes → ℕ → ℕ → List Bytes
  proof_nodes leaves index zero = []
  proof_nodes leaves index (suc h) =
      proof_nodes leaves index h ++ subtree keccak leaves h (sibling_index (index / 2 ^ h)) ∷ []

  length-proof_nodes : (leaves : List Bytes) (index h : ℕ) → length (proof_nodes leaves index h) ≡ h
  unfolding proof_nodes
  length-proof_nodes leaves index zero = refl
  length-proof_nodes leaves index (suc h) = omega (
    arith,
    length-append (proof_nodes leaves index h)
        (subtree keccak leaves h (sibling_index (index / 2 ^ h)) ∷ []),
    length-proof_nodes leaves index h,
  )

  get_or-proof_nodes :
      (leaves : List Bytes) (index h k : ℕ)
      → k < h
      → get_or (proof_nodes leaves index h) k zero_digest
        ≡ subtree keccak leaves k (sibling_index (index / 2 ^ k))
  unfolding proof_nodes
  get_or-proof_nodes leaves index zero k lt = elim lt [ ]
  get_or-proof_nodes leaves index (suc h) k lt = elim (split k lt) [
    | inl old ↦
        get_or-append_left (proof_nodes leaves index h) _ k zero_digest
          (omega (arith, length-proof_nodes leaves index h))
        ∙ get_or-proof_nodes leaves index h k old
    | inr new ↦ rw new (
        get_or-append_last (proof_nodes leaves index h) _ h zero_digest
          (sym (length-proof_nodes leaves index h)))
  ]
    where
      split : (k : ℕ) → k < suc h → (k < h) ⊎ (k ≡ h)
      split k lt = grind arith

  -- A parent, from the node and its sibling.
  fold_step :
      (leaves : List Bytes) (index h : ℕ)
      → (if (index / 2 ^ h) % 2 == 1
          then hash keccak (
              subtree keccak leaves h (sibling_index (index / 2 ^ h))
              ∷ subtree keccak leaves h (index / 2 ^ h)
              ∷ [])
          else hash keccak (
              subtree keccak leaves h (index / 2 ^ h)
              ∷ subtree keccak leaves h (sibling_index (index / 2 ^ h))
              ∷ []))
        ≡ subtree keccak leaves (suc h) (index / 2 ^ suc h)
  fold_step leaves index h = elim (Bool-cases ((index / 2 ^ h) % 2 == 1)) [
    | inl odd ↦ rw odd (
        ap₂ (λ l r. hash keccak (subtree keccak leaves h l ∷ subtree keccak leaves h r ∷ []))
          (odd_left (index / 2 ^ h) odd) (odd_right (index / 2 ^ h) odd)
        ∙ up)
    | inr even ↦ rw even (
        ap₂ (λ l r. hash keccak (subtree keccak leaves h l ∷ subtree keccak leaves h r ∷ []))
          (even_left (index / 2 ^ h) even) (even_right (index / 2 ^ h) even)
        ∙ up)
  ]
    where
      up :
          hash keccak (
            subtree keccak leaves h (2 * (index / 2 ^ h / 2))
            ∷ subtree keccak leaves h (2 * (index / 2 ^ h / 2) + 1)
            ∷ [])
          ≡ subtree keccak leaves (suc h) (index / 2 ^ suc h)
      up =
          sym (subtree-suc keccak leaves h (index / 2 ^ h / 2))
          ∙ ap (subtree keccak leaves (suc h)) (sym (div-pow_suc index h))

      odd_left : (m : ℕ) → (m % 2 == 1) ≡ true → m - 1 ≡ 2 * (m / 2)
      odd_left m odd = ground arith

      odd_right : (m : ℕ) → (m % 2 == 1) ≡ true → m ≡ 2 * (m / 2) + 1
      odd_right m odd = ground arith

      even_left : (m : ℕ) → (m % 2 == 1) ≡ false → m ≡ 2 * (m / 2)
      even_left m even = ground arith

      even_right : (m : ℕ) → (m % 2 == 1) ≡ false → m + 1 ≡ 2 * (m / 2) + 1
      even_right m even = ground arith

  fold_proof_lem :
      (leaves : List Bytes) (index height rounds h : ℕ)
      → h + rounds ≡ height
      → fold_proof keccak rounds h index
          (subtree keccak leaves h (index / 2 ^ h))
          (proof_nodes leaves index height)
        ≡ ok (subtree keccak leaves height (index / 2 ^ height))
  unfolding fold_proof
  fold_proof_lem leaves index height zero h end =
      ap (λ k. ok (subtree keccak leaves k (index / 2 ^ k))) (omega arith)
  fold_proof_lem leaves index height (suc rounds) h end =
      let one : h + 1 ≡ suc h = omega arith in
      rw
        (
          at_lem (proof_nodes leaves index height) h zero_digest
              (omega (arith, length-proof_nodes leaves index height)),
          get_or-proof_nodes leaves index height h (omega arith),
          fold_step leaves index h,
          one,
        )
        (fold_proof_lem leaves index height rounds (suc h) (omega arith))

  record Walks (leaves : List Bytes) (n index h : ℕ) (w : Walk) : Type 0 where
    position : w.index ≡ index / 2 ^ h
    level : Level keccak leaves n h w.leaves
    proved : w.siblings ≡ proof_nodes leaves index h
    linked : (h ≡ 0) ⊎ (w.leaves ≡ parents w.ns)

  value_at :
      (leaves nodes : List Bytes) (n h i : ℕ)
      → h ≤ 64
      → Level keccak leaves n h nodes
      → i < length (pad keccak h nodes)
      → at (pad keccak h nodes) i ≡ ok (subtree keccak leaves h i)
  value_at leaves nodes n h i low level lt =
      at_lem (pad keccak h nodes) i (zero_at keccak h) lt
      ∙ ap ok (get_or-pad keccak h i nodes low ∙ level.values i)

  sibling_of_lem :
      (leaves nodes siblings : List Bytes) (n h i : ℕ)
      → h ≤ 64
      → Level keccak leaves n h nodes
      → i < length (pad keccak h nodes)
      → sibling_of keccak i (pad keccak h nodes) siblings
        ≡ ok (siblings ++ subtree keccak leaves h (sibling_index i) ∷ [])
  sibling_of_lem leaves nodes siblings n h i low level lt = elim (Bool-cases (i % 2 == 1)) [
    | inl odd ↦ rw (odd, value_at leaves nodes n h (i - 1) low level (omega arith)) refl
    | inr even ↦
        let even_length = length-pad keccak h nodes in
        let even_index : i % 2 ≡ 0 = ground arith in
        let inside : i + 1 < length (pad keccak h nodes) = omega arith in
        let two : ltb 1 (length (pad keccak h nodes)) ≡ true = ground arith in
        rw (even, two, value_at leaves nodes n h (i + 1) low level inside) refl
  ]

  walk_levels-Walks :
      (leaves : List Bytes) (n index rounds h : ℕ) (w : Walk)
      → h + rounds ≤ 64
      → index < n
      → Walks leaves n index h w
      → (v : Walk) × (walk_levels keccak rounds h w ≡ ok v) × Walks leaves n index (h + rounds) v
  unfolding walk_levels
  walk_levels-Walks leaves n index zero h w low lt inv =
      (w, refl, let e : h + 0 ≡ h = omega arith in rw e inv)
  walk_levels-Walks leaves n index (suc rounds) h w low lt inv =
      let one : h + 1 ≡ suc h = omega arith in
      let end : h + suc rounds ≡ suc h + rounds = omega arith in
      let there : index / 2 ^ h < length (pad keccak h w.leaves) =
        omega (arith, lt-level_size n index h lt, length-pad keccak h w.leaves, inv.level.sized) in
      rw
        (
          inv.position,
          sibling_of_lem leaves w.leaves w.siblings n h (index / 2 ^ h) (omega arith) inv.level
              there,
          build_intermediate-pad keccak h w.leaves,
          one,
          end,
        )
        (walk_levels-Walks leaves n index rounds (suc h) _ (omega arith) lt (record {
          position = sym (div-pow_suc index h);
          level = next-Level keccak leaves n h w.leaves (omega arith) inv.level;
          proved =
              unfold proof_nodes in
              ap (λ xs. xs ++ subtree keccak leaves h (sibling_index (index / 2 ^ h)) ∷ [])
                inv.proved;
          linked = inr refl;
        }))

  -- The path from the leaf and its siblings ends at the root.
  pub calculate_root_lem :
      (leaves : List Bytes) (index height : ℕ)
      → index < 2 ^ height
      → calculate_root keccak
          (get_or leaves index zero_digest)
          (proof_nodes leaves index height)
          index
          height
        ≡ ok (tree_root keccak leaves height)
  unfolding calculate_root
  calculate_root_lem leaves index height lt =
      let whole : index / 2 ^ 0 ≡ index = omega arith in
      ap (λ node. fold_proof keccak height 0 index node (proof_nodes leaves index height))
        (sym (subtree_zero keccak leaves index) ∙ ap (subtree keccak leaves 0) (sym whole))
      ∙ fold_proof_lem leaves index height height 0 (omega arith)
      ∙ ap (λ i. ok (subtree keccak leaves height i)) (div-pow_zero index height lt)
      ∙ ap ok (sym (tree_root_lem keccak leaves height))

  -- At a height from 1 to 64 in which the leaves fit, a leaf that is there has a proof: `ComputeSiblings` returns it with the root of the tree, and
  -- `calculateRoot` leads from the leaf and the proof to the same root.
  pub compute_siblings-calculate_root :
      (leaves : List Bytes) (index height : ℕ)
      → 0 < height
      → height ≤ 64
      → index < length leaves
      → length leaves ≤ 2 ^ height
      → (proof : List Bytes) × (compute_siblings keccak index leaves height
          ≡ ok (proof, tree_root keccak leaves height))
        × (calculate_root keccak (get_or leaves index zero_digest) proof index height
            ≡ ok (tree_root keccak leaves height))
  unfolding compute_siblings
  compute_siblings-calculate_root leaves index height high low there fits =
      let (w, walked, inv) =
        walk_levels-Walks leaves (leaf_count keccak leaves) index height 0
          (record { index = index; leaves = or_zero_leaf keccak leaves; siblings = []; ns = [] })
          (omega arith) (lt-leaf_count keccak leaves index there)
          (record {
            position = omega arith;
            level = start-Level keccak leaves;
            proved = unfold proof_nodes in refl;
            linked = inl refl;
          }) in
      let all : 0 + height ≡ height = omega arith in
      let (one, many) =
        root_of_nodes keccak leaves (leaf_count keccak leaves) height w.leaves w.ns high
          (leaf_count_pos keccak leaves) (rw all at (inv.level)) (rw all at (inv.linked)) in
      let fit = leaf_count-le keccak leaves (2 ^ height) (pow_pos height) fits in
      let path : w.siblings ≡ proof_nodes leaves index height =
        inv.proved ∙ ap (proof_nodes leaves index) all in
      (
        w.siblings,
        rw (walked, one fit) refl,
        ap (λ proof. calculate_root keccak (get_or leaves index zero_digest) proof index height)
              path
            ∙ calculate_root_lem leaves index height (omega arith),
      )
