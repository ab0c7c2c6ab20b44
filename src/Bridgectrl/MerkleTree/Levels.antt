-- ===== src/Bridgectrl/MerkleTree/Levels.antt =====
-- bridgectrl/merkletree.go: the levels that the loops of `updateLeaf`, `buildMTRoot` and
-- `ComputeSiblings` build are those of the tree.
use xlayer_bridge_service.Base.{
  ℕ, zero, suc, ◌+◌, ◌*◌, ◌/◌, ◌%◌, ◌^◌, ◌≤◌, ◌<◌, ◌≡◌, refl, sym, ◌∙◌, ap, ap₂, false, inl, inr,
  List, [], ◌∷◌, ◌++◌, map, arith, Bool-cases, ◌==◌, length, get_or, length-append, ok,
}
use native.Mathlib.Nat.{pow-suc}
use xlayer_bridge_service.Etherman.{Bytes, zero_digest}
use xlayer_bridge_service.Bridgectrl.Hash.{
  hash, zero_hash, zero_at, zero_at-suc, zero_at_zero, zero_hash-zero_at,
}
use xlayer_bridge_service.Bridgectrl.MerkleTree.Defs.{Node}
use xlayer_bridge_service.Bridgectrl.MerkleTree.Spec.{subtree, subtree-suc, subtree_zero}
use xlayer_bridge_service.Bridgectrl.MerkleTree.Build.{
  node_of, build_intermediate, pad, or_zero_leaf,
}

-- The number of nodes of level h over n leaves.
pub level_size : ℕ → ℕ → ℕ
level_size n zero = n
level_size n (suc h) = (level_size n h + 1) / 2

pub level_size-suc : (n h : ℕ) → level_size n (suc h) ≡ (level_size n h + 1) / 2
unfolding level_size
level_size-suc n h = refl

pub level_size_zero : (n : ℕ) → level_size n 0 ≡ n
unfolding level_size
level_size_zero n = refl

double_bound : (n m p : ℕ) → n ≤ (2 * m) * p → n ≤ m * (p * 2)
double_bound n m p h = omega arith

bound_double : (n m p : ℕ) → n ≤ m * (p * 2) → n ≤ (2 * m) * p
bound_double n m p h = omega arith

-- At most m nodes stand at level h exactly if at most m * 2 ^ h leaves stand below.
pub level_size-le : (n h m : ℕ) → n ≤ m * 2 ^ h → level_size n h ≤ m
unfolding level_size
level_size-le n zero m le = omega arith
level_size-le n (suc h) m le =
    let half : n ≤ (2 * m) * 2 ^ h = bound_double n m (2 ^ h) (rw (pow-suc 2 h) at le) in
    omega (arith, level_size-le n h (2 * m) half)

pub le-level_size : (n h m : ℕ) → level_size n h ≤ m → n ≤ m * 2 ^ h
unfolding level_size
le-level_size n zero m le = omega arith
le-level_size n (suc h) m le =
    rw (pow-suc 2 h) (double_bound n m (2 ^ h) (le-level_size n h (2 * m) (omega arith)))

pub level_size_pos : (n h : ℕ) → 0 < n → 0 < level_size n h
unfolding level_size
level_size_pos n zero pos = pos
level_size_pos n (suc h) pos = omega (arith, level_size_pos n h pos)

get_or-append_default :
    {A : Type 0} (xs : List A) (i : ℕ) (d : A) → get_or (xs ++ d ∷ []) i d ≡ get_or xs i d
get_or-append_default [] zero d = refl
get_or-append_default [] (suc i) d = refl
get_or-append_default (x ∷ xs) zero d = refl
get_or-append_default (x ∷ xs) (suc i) d = get_or-append_default xs i d

abbrev pub parents : List Node → List Bytes
parents = map (λ n. n.parent)

module _ (keccak : Bytes → Bytes) where
  pub pairs : List Bytes → List Node
  pairs [] = []
  pairs (x ∷ []) = []
  pairs (l ∷ r ∷ rest) = node_of keccak l r ∷ pairs rest

  pub build_intermediate_lem :
      (leaves : List Bytes)
      → length leaves % 2 ≡ 0
      → build_intermediate keccak leaves ≡ ok (pairs leaves, parents (pairs leaves))
  unfolding build_intermediate pairs
  build_intermediate_lem [] even = refl
  build_intermediate_lem (x ∷ []) even = absurd (omega arith)
  build_intermediate_lem (l ∷ r ∷ rest) even = rw (build_intermediate_lem rest (omega arith)) refl

  length-pairs :
      (leaves : List Bytes)
      → length leaves % 2 ≡ 0
      → 2 * length (parents (pairs leaves)) ≡ length leaves
  unfolding pairs
  length-pairs [] even = refl
  length-pairs (x ∷ []) even = absurd (omega arith)
  length-pairs (l ∷ r ∷ rest) even = omega (arith, length-pairs rest (omega arith))

  get_or-pairs :
      (leaves : List Bytes) (i : ℕ) (z : Bytes)
      → length leaves % 2 ≡ 0
      → get_or (parents (pairs leaves)) i (hash keccak (z ∷ z ∷ []))
        ≡ hash keccak (get_or leaves (2 * i) z ∷ get_or leaves (2 * i + 1) z ∷ [])
  unfolding pairs node_of
  get_or-pairs [] i z even = refl
  get_or-pairs (x ∷ []) i z even = absurd (omega arith)
  get_or-pairs (l ∷ r ∷ rest) zero z even = refl
  get_or-pairs (l ∷ r ∷ rest) (suc i) z even =
      let first : 2 * suc i ≡ suc (suc (2 * i)) = omega arith in
      let second : 2 * suc i + 1 ≡ suc (suc (2 * i + 1)) = omega arith in
      rw (second, first) (get_or-pairs rest i z (omega arith))

  -- A list of nodes that is level h of the tree over the leaves; `n` counts the leaves.
  pub record Level (leaves : List Bytes) (n h : ℕ) (nodes : List Bytes) : Type 0 where
    pub sized : length nodes ≡ level_size n h
    pub values : (i : ℕ) → get_or nodes i (zero_at keccak h) ≡ subtree keccak leaves h i

  pub length-pad :
      (h : ℕ) (nodes : List Bytes) → length (pad keccak h nodes) ≡ 2 * ((length nodes + 1) / 2)
  length-pad h nodes = elim (Bool-cases (length nodes % 2 == 1)) [
    | inl odd ↦ rw odd (ground (arith, length-append nodes (zero_hash keccak h ∷ [])))
    | inr even ↦ rw even (ground arith)
  ]

  pub pad_even : (h : ℕ) (nodes : List Bytes) → length (pad keccak h nodes) % 2 ≡ 0
  pad_even h nodes = omega (arith, length-pad h nodes)

  pub get_or-pad :
      (h i : ℕ) (nodes : List Bytes)
      → h ≤ 64
      → get_or (pad keccak h nodes) i (zero_at keccak h) ≡ get_or nodes i (zero_at keccak h)
  get_or-pad h i nodes low = elim (Bool-cases (length nodes % 2 == 1)) [
    | inl odd ↦
        rw (odd, zero_hash-zero_at keccak h low) (get_or-append_default nodes i (zero_at keccak h))
    | inr even ↦ rw even refl
  ]

  abbrev pub next_nodes : ℕ → List Bytes → List Node
  next_nodes h nodes = pairs (pad keccak h nodes)

  pub next-Level :
      (leaves : List Bytes) (n h : ℕ) (nodes : List Bytes)
      → h ≤ 64
      → Level leaves n h nodes
      → Level leaves n (suc h) (parents (next_nodes h nodes))
  next-Level leaves n h nodes low level = record {
    sized = omega (
      arith,
      length-pairs (pad keccak h nodes) (pad_even h nodes),
      length-pad h nodes,
      level.sized,
      level_size-suc n h,
    );
    values = λ i.
        ap (get_or (parents (next_nodes h nodes)) i) (zero_at-suc keccak h)
        ∙ get_or-pairs (pad keccak h nodes) i (zero_at keccak h) (pad_even h nodes)
        ∙ ap₂ (λ l r. hash keccak (l ∷ r ∷ []))
            (get_or-pad h (2 * i) nodes low ∙ level.values (2 * i))
            (get_or-pad h (2 * i + 1) nodes low ∙ level.values (2 * i + 1))
        ∙ sym (subtree-suc keccak leaves h i);
  }

  pub build_intermediate-pad :
      (h : ℕ) (nodes : List Bytes)
      → build_intermediate keccak (pad keccak h nodes)
        ≡ ok (next_nodes h nodes, parents (next_nodes h nodes))
  build_intermediate-pad h nodes = build_intermediate_lem (pad keccak h nodes) (pad_even h nodes)

  -- The leaves that are there, or the one zero leaf.
  abbrev pub leaf_count : List Bytes → ℕ
  leaf_count leaves = length (or_zero_leaf keccak leaves)

  pub start-Level :
      (leaves : List Bytes) → Level leaves (leaf_count leaves) 0 (or_zero_leaf keccak leaves)
  start-Level leaves = record {
    sized = sym (level_size_zero (leaf_count leaves));
    values = λ i. rw (zero_at_zero keccak) (value leaves i ∙ sym (subtree_zero keccak leaves i));
  }
    where
      value :
          (leaves : List Bytes) (i : ℕ)
          → get_or (or_zero_leaf keccak leaves) i zero_digest ≡ get_or leaves i zero_digest
      value [] i =
          ap (λ z. get_or (z ∷ []) i zero_digest)
            (zero_hash-zero_at keccak 0 (omega arith) ∙ zero_at_zero keccak)
          ∙ get_or-append_default [] i zero_digest
      value (x ∷ xs) i =
          let some_leaf : (length (x ∷ xs) == 0) ≡ false = ground arith in rw some_leaf refl
