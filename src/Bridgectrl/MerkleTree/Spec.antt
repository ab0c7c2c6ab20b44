-- ===== src/Bridgectrl/MerkleTree/Spec.antt =====
-- The Merkle tree as its definition has it, over the list of the leaves from the left.
use xlayer_bridge_service.Base.Powers.{pow_span_left, pow_span_right, pow_fill_left, pow_fill_right}
use xlayer_bridge_service.Base.{
  ℕ, zero, suc, ◌+◌, ◌*◌, ◌^◌, ◌≤◌, ◌≡◌, refl, sym, ◌∙◌, ap₂, List, [], ◌∷◌, ◌++◌, arith, length,
  get_or, get_or_beyond, get_or-append_left,
}
use xlayer_bridge_service.Etherman.{Bytes, zero_digest}
use xlayer_bridge_service.Bridgectrl.Hash.{hash, zero_at, zero_at_zero, zero_at-suc}

module _ (keccak : Bytes → Bytes) where
  -- The node i of level h. A leaf that is not there is the zero hash.
  unfoldable pub subtree : List Bytes → ℕ → ℕ → Bytes
  subtree leaves zero i = get_or leaves i zero_digest
  subtree leaves (suc h) i =
      hash keccak (subtree leaves h (2 * i) ∷ subtree leaves h (2 * i + 1) ∷ [])

  unfoldable pub tree_root : List Bytes → ℕ → Bytes
  unfolding subtree
  tree_root leaves height = subtree leaves height 0

  pub subtree_zero :
      (leaves : List Bytes) (i : ℕ) → subtree leaves 0 i ≡ get_or leaves i zero_digest
  unfolding subtree
  subtree_zero leaves i = refl

  pub tree_root_lem : (leaves : List Bytes) (h : ℕ) → tree_root leaves h ≡ subtree leaves h 0
  unfolding tree_root
  tree_root_lem leaves h = refl

  pub subtree-suc :
      (leaves : List Bytes) (h i : ℕ)
      → subtree leaves (suc h) i
        ≡ hash keccak (subtree leaves h (2 * i) ∷ subtree leaves h (2 * i + 1) ∷ [])
  unfolding subtree
  subtree-suc leaves h i = refl

  -- A subtree right of all leaves is the empty one.
  pub subtree_empty :
      (leaves : List Bytes) (h i : ℕ)
      → length leaves ≤ i * 2 ^ h
      → subtree leaves h i ≡ zero_at keccak h
  unfolding subtree
  subtree_empty leaves zero i le =
      get_or_beyond leaves i zero_digest (omega arith) ∙ sym (zero_at_zero keccak)
  subtree_empty leaves (suc h) i le =
      ap₂ (λ l r. hash keccak (l ∷ r ∷ []))
        (subtree_empty leaves h (2 * i) (pow_span_left i h _ le))
        (subtree_empty leaves h (2 * i + 1) (pow_span_right i h _ le))
      ∙ sym (zero_at-suc keccak h)

  -- A subtree that the leaves fill does not change when more are added.
  pub subtree-append :
      (leaves more : List Bytes) (h i : ℕ)
      → (i + 1) * 2 ^ h ≤ length leaves
      → subtree (leaves ++ more) h i ≡ subtree leaves h i
  unfolding subtree
  subtree-append leaves more zero i le = get_or-append_left leaves more i zero_digest (omega arith)
  subtree-append leaves more (suc h) i le =
      ap₂ (λ l r. hash keccak (l ∷ r ∷ []))
        (subtree-append leaves more h (2 * i) (pow_fill_left i h _ le))
        (subtree-append leaves more h (2 * i + 1) (pow_fill_right i h _ le))
