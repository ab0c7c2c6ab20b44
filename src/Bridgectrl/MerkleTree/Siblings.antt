-- ===== src/Bridgectrl/MerkleTree/Siblings.antt =====
-- bridgectrl/merkletree.go: `initSiblings` and `resetLeaf` restore the tree from the storage.
use mathlib.Core.List.{reverse, reverse-append, reverse-reverse}
use xlayer_bridge_service.Base.{
  ℕ, zero, suc, ◌+◌, ◌-◌, ◌*◌, ◌/◌, ◌^◌, ◌≤◌, ◌<◌, ◌≡◌, refl, sym, ◌∙◌, ap, true, false, ◌⊎◌, inl,
  inr, List, [], ◌∷◌, ◌++◌, append-nil, append_assoc, arith, Bool-cases, ◌==◌, ==_iff, length,
  get_or, length-append, get_or-append_left, get_or-append_last, ok,
}
use xlayer_bridge_service.Base.Powers.{div-pow_suc, div-pow_zero, pow_pos, left_of_pred}
use xlayer_bridge_service.Etherman.{Bytes, zero_digest}
use xlayer_bridge_service.Bridgectrl.Hash.{zero_hash}
use xlayer_bridge_service.Bridgectrl.Store.{MerkleTreeStore}
use xlayer_bridge_service.Bridgectrl.MerkleTree.Defs.{
  MerkleTree, bit, rounds_down, descend, zero_siblings, init_siblings, reset_leaf,
}
use xlayer_bridge_service.Bridgectrl.MerkleTree.Spec.{subtree, tree_root, tree_root_lem}
use xlayer_bridge_service.Bridgectrl.MerkleTree.Climb.{Frontier}
use xlayer_bridge_service.Bridgectrl.MerkleTree.AddLeaf.{HasLeaves}

module _ (keccak : Bytes → Bytes) where
  -- The two children of the node i of level h.
  abbrev pub children : List Bytes → ℕ → ℕ → List Bytes
  children leaves h i = subtree keccak leaves h (2 * i) ∷ subtree keccak leaves h (2 * i + 1) ∷ []

  -- The left nodes on the path to the leaf `index`, from the leaves up.
  lefts : List Bytes → ℕ → ℕ → List Bytes
  lefts leaves index zero = []
  lefts leaves index (suc h) =
      lefts leaves index h ++ subtree keccak leaves h (2 * (index / 2 ^ suc h)) ∷ []

  length-lefts : (leaves : List Bytes) (index h : ℕ) → length (lefts leaves index h) ≡ h
  unfolding lefts
  length-lefts leaves index zero = refl
  length-lefts leaves index (suc h) = omega (
    arith,
    length-append (lefts leaves index h) (subtree keccak leaves h (2 * (index / 2 ^ suc h)) ∷ []),
    length-lefts leaves index h,
  )

  get_or-lefts :
      (leaves : List Bytes) (index h k : ℕ)
      → k < h
      → get_or (lefts leaves index h) k zero_digest
        ≡ subtree keccak leaves k (2 * (index / 2 ^ suc k))
  unfolding lefts
  get_or-lefts leaves index zero k lt = elim lt [ ]
  get_or-lefts leaves index (suc h) k lt = elim (split k lt) [
    | inl old ↦
        get_or-append_left (lefts leaves index h) _ k zero_digest
          (omega (arith, length-lefts leaves index h))
        ∙ get_or-lefts leaves index h k old
    | inr new ↦ rw new (
        get_or-append_last (lefts leaves index h) _ h zero_digest
          (sym (length-lefts leaves index h)))
  ]
    where
      split : (k : ℕ) → k < suc h → (k < h) ⊎ (k ≡ h)
      split k lt = grind arith

  module _ {S : Type 0} (store : MerkleTreeStore S) where
    -- The storage has the root after these deposits, and the path from it to the last one.
    pub record Stores (leaves : List Bytes) (network height : ℕ) (db : S) : Type 0 where
      pub root : store.get_root db (length leaves - 1) network ≡ ok (tree_root keccak leaves height)
      pub path :
          (h : ℕ)
          → h < height
          → store.get db (subtree keccak leaves (suc h) ((length leaves - 1) / 2 ^ suc h))
            ≡ ok (children leaves h ((length leaves - 1) / 2 ^ suc h))

    -- Where the next node stands, by the bit that `descend` reads.
    next_right : (index h : ℕ) → bit index h ≡ true → 2 * (index / 2 ^ suc h) + 1 ≡ index / 2 ^ h
    next_right index h right = rw (div-pow_suc index h) (ground arith)

    next_left : (index h : ℕ) → bit index h ≡ false → 2 * (index / 2 ^ suc h) ≡ index / 2 ^ h
    next_left index h left = rw (div-pow_suc index h) (ground arith)

    lefts_order :
        (siblings above : List Bytes) (left : Bytes)
        → (siblings ++ left ∷ []) ++ reverse above ≡ siblings ++ reverse (above ++ left ∷ [])
    lefts_order siblings above left =
        append_assoc siblings (left ∷ []) (reverse above)
        ∙ ap (λ xs. siblings ++ xs) (sym (reverse-append above (left ∷ [])))

    descend-lefts :
        (leaves : List Bytes) (index : ℕ) (db : S) (h : ℕ) (siblings : List Bytes)
        → ((k : ℕ)
            → k < h
            → store.get db (subtree keccak leaves (suc k) (index / 2 ^ suc k))
              ≡ ok (children leaves k (index / 2 ^ suc k)))
        → descend keccak store h db index (subtree keccak leaves h (index / 2 ^ h)) siblings
          ≡ ok (siblings ++ reverse (lefts leaves index h))
    unfolding descend lefts
    descend-lefts leaves index db zero siblings path = ap ok (sym (append-nil siblings))
    descend-lefts leaves index db (suc h) siblings path =
        let left : Bytes = subtree keccak leaves h (2 * (index / 2 ^ suc h)) in
        let rest =
          descend-lefts leaves index db h (siblings ++ left ∷ []) (λ k lt. path k (omega arith)) in
        let ordered = ap ok (lefts_order siblings (lefts leaves index h) left) in
        let follow = λ (i : ℕ) (e : i ≡ index / 2 ^ h).
          ap
            (λ j.
              descend keccak store h db index (subtree keccak leaves h j) (siblings ++ left ∷ []))
            e
          ∙ rest in
        rw (path h (omega arith)) (elim (Bool-cases (bit index h)) [
          | inl right ↦ rw right (follow _ (next_right index h right) ∙ ordered)
          | inr other ↦ rw other (follow _ (next_left index h other) ∙ ordered)
        ])

    Frontier-lefts :
        (leaves : List Bytes) (height : ℕ)
        → 0 < length leaves
        → Frontier keccak leaves (length leaves) height (lefts leaves (length leaves - 1) height)
    Frontier-lefts leaves height some_leaf = record {
      sized = length-lefts leaves (length leaves - 1) height;
      left = λ k lt used.
          get_or-lefts leaves (length leaves - 1) height k lt
          ∙ ap (subtree keccak leaves k)
              (left_of_pred (length leaves) k some_leaf ((==_iff _ _).0 used));
    }

    stored_siblings_lem :
        (leaves : List Bytes) (mt : MerkleTree) (db : S)
        → 0 < length leaves
        → mt.count ≡ length leaves
        → length leaves ≤ 2 ^ mt.height
        → 0 < mt.height
        → mt.height ≤ 64
        → Stores leaves mt.network_id mt.height db
        → init_siblings keccak store db mt ≡ ok (lefts leaves (length leaves - 1) mt.height)
    unfolding init_siblings
    stored_siblings_lem leaves mt db some_leaf counted fits high low stores =
        let rounds : rounds_down mt.height ≡ mt.height = omega arith in
        let not_empty : (mt.count == 0) ≡ false = ground arith in
        rw (not_empty, rounds, counted, stores.root)
          (rw down (ap ok (reverse-reverse (lefts leaves (length leaves - 1) mt.height))))
      where
        top :
            tree_root keccak leaves mt.height
            ≡ subtree keccak leaves mt.height ((length leaves - 1) / 2 ^ mt.height)
        top =
            tree_root_lem keccak leaves mt.height
            ∙ ap (subtree keccak leaves mt.height)
                (sym (div-pow_zero (length leaves - 1) mt.height (omega arith)))

        down :
            descend keccak store mt.height db
              (length leaves - 1)
              (tree_root keccak leaves mt.height)
              []
            ≡ ok (reverse (lefts leaves (length leaves - 1) mt.height))
        down =
            ap (λ cur. descend keccak store mt.height db (length leaves - 1) cur []) top
            ∙ descend-lefts leaves (length leaves - 1) db mt.height [] stores.path

    length-zero_siblings : (h : ℕ) → length (zero_siblings keccak store h) ≡ h
    unfolding zero_siblings
    length-zero_siblings zero = refl
    length-zero_siblings (suc h) = omega (
      arith,
      length-append (zero_siblings keccak store h) (zero_hash keccak h ∷ []),
      length-zero_siblings h,
    )

    no_bit : (k : ℕ) → bit 0 k ≡ false
    no_bit k = rw (div-pow_zero 0 k (pow_pos k)) refl

    -- At a height from 1 to 64, `resetLeaf` to a number of deposits that fit in the tree brings back
    -- the tree of these deposits, if the storage has their root and the path to the last of them, or
    -- if there are none.
    pub reset_leaf-HasLeaves :
        (leaves : List Bytes) (mt : MerkleTree) (db : S)
        → 0 < mt.height
        → mt.height ≤ 64
        → length leaves ≤ 2 ^ mt.height
        → (length leaves ≡ 0) ⊎ (0 < length leaves) × Stores leaves mt.network_id mt.height db
        → ((reset_leaf keccak store db mt (length leaves)).1 ≡ ok tt)
          × HasLeaves keccak leaves (reset_leaf keccak store db mt (length leaves)).0
    unfolding reset_leaf
    reset_leaf-HasLeaves leaves mt db high low fits (inl none_left) =
        rw (none_left, init_siblings)
          (
            refl,
            record {
              counted = none_left;
              low = low;
              front = record {
                sized = length-zero_siblings mt.height;
                left = λ k lt used. absurd (ground (arith, no_bit k));
              };
            },
          )
    reset_leaf-HasLeaves leaves mt db high low fits (inr (some_leaf, stores)) =
        rw
          (stored_siblings_lem leaves (record mt { count = length leaves }) db some_leaf refl fits
            high low stores)
          (
            refl,
            record { counted = refl; low = low; front = Frontier-lefts leaves mt.height some_leaf },
          )
