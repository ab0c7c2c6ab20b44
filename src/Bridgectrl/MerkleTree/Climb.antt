-- ===== src/Bridgectrl/MerkleTree/Climb.antt =====
-- bridgectrl/merkletree.go: the loop of `addLeaf` climbs to the root of the tree with the new leaf.
use xlayer_bridge_service.Base.{
  ℕ, zero, suc, ◌+◌, ◌-◌, ◌*◌, ◌/◌, ◌^◌, ◌≤◌, ◌<◌, ◌≡◌, refl, sym, ◌∙◌, ap, ap₂, subst, true, false,
  ◌⊎◌, inl, inr, List, [], ◌∷◌, ◌++◌, arith, Bool-cases, length, get_or, set, length-append,
  length-set, get_or-set_self, get_or-set_ne, get_or-append_last,
}
use xlayer_bridge_service.Base.Powers.{div-pow_suc, div-pow_le, lt-div-pow, div-pow_zero}
use xlayer_bridge_service.Etherman.{Bytes, zero_digest}
use xlayer_bridge_service.Bridgectrl.Hash.{hash, zero_hash, zero_hash-zero_at}
use xlayer_bridge_service.Bridgectrl.MerkleTree.Defs.{Climb, bit, add_level, add_levels}
use xlayer_bridge_service.Bridgectrl.MerkleTree.Spec.{
  subtree, subtree_zero, subtree-suc, subtree_empty, subtree-append, tree_root, tree_root_lem,
}

module _ (keccak : Bytes → Bytes) where
  -- At each level where the count has a bit, the sibling is the full subtree left of the next leaf.
  pub record Frontier (leaves : List Bytes) (count height : ℕ) (siblings : List Bytes)
      : Type 0 where
    pub sized : length siblings ≡ height
    pub left :
        (k : ℕ)
        → k < height
        → bit count k ≡ true
        → get_or siblings k zero_digest ≡ subtree keccak leaves k (count / 2 ^ k - 1)

  -- The loop of `addLeaf` at level h, for the leaf number n; `more` has this leaf too.
  record Climbs (more : List Bytes) (n height : ℕ) (start : List Bytes) (h : ℕ) (c : Climb)
      : Type 0 where
    current : c.cur ≡ subtree keccak more h (n / 2 ^ h)
    sized : length c.siblings ≡ height
    below :
        (k : ℕ)
        → k < h
        → bit (n + 1) k ≡ true
        → get_or c.siblings k zero_digest ≡ subtree keccak more k ((n + 1) / 2 ^ k - 1)
    above : (k : ℕ) → h ≤ k → get_or c.siblings k zero_digest ≡ get_or start k zero_digest
    carried : c.is_filled_sub_tree ≡ true → (n + 1) / 2 ^ h ≡ n / 2 ^ h + 1
    settled : c.is_filled_sub_tree ≡ false → (n + 1) / 2 ^ h ≡ n / 2 ^ h

  module _ (leaves : List Bytes) (leaf : Bytes) (height n : ℕ) (start : List Bytes)
      (counted : length leaves ≡ n) (low : height ≤ 64)
      (front : Frontier leaves n height start) where
    abbrev more : List Bytes
    more = leaves ++ leaf ∷ []

    -- A parent is over its two children.
    parent_at :
        (h : ℕ)
        → subtree keccak more (suc h) (n / 2 ^ suc h)
          ≡ hash keccak (
              subtree keccak more h (2 * (n / 2 ^ h / 2))
              ∷ subtree keccak more h (2 * (n / 2 ^ h / 2) + 1)
              ∷ [])
    parent_at h = rw (div-pow_suc n h) (subtree-suc keccak more h (n / 2 ^ h / 2))

    left_of :
        (h : ℕ)
        → h < height
        → bit n h ≡ true
        → get_or start h zero_digest ≡ subtree keccak more h (n / 2 ^ h - 1)
    left_of h lt odd =
        let pos : n / 2 ^ h - 1 + 1 ≡ n / 2 ^ h = ground arith in
        let full : (n / 2 ^ h - 1 + 1) * 2 ^ h ≤ length leaves =
          rw (pos, counted) (div-pow_le n h) in
        front.left h lt odd ∙ sym (subtree-append keccak leaves (leaf ∷ []) h (n / 2 ^ h - 1) full)

    parent_odd :
        (h : ℕ)
        → h < height
        → bit n h ≡ true
        → hash keccak (get_or start h zero_digest ∷ subtree keccak more h (n / 2 ^ h) ∷ [])
          ≡ subtree keccak more (suc h) (n / 2 ^ suc h)
    parent_odd h lt odd =
        let m : ℕ = n / 2 ^ h in
        let left_child : 2 * (m / 2) ≡ m - 1 = ground arith in
        let right_child : 2 * (m / 2) + 1 ≡ m = ground arith in
        sym (
          parent_at h
          ∙ ap₂ (λ i j. hash keccak (subtree keccak more h i ∷ subtree keccak more h j ∷ []))
              left_child right_child
          ∙ ap (λ l. hash keccak (l ∷ subtree keccak more h m ∷ [])) (sym (left_of h lt odd)))

    parent_even :
        (h : ℕ)
        → h < height
        → bit n h ≡ false
        → hash keccak (subtree keccak more h (n / 2 ^ h) ∷ zero_hash keccak h ∷ [])
          ≡ subtree keccak more (suc h) (n / 2 ^ suc h)
    parent_even h lt even =
        let m : ℕ = n / 2 ^ h in
        let left_child : 2 * (m / 2) ≡ m = ground arith in
        let right_child : 2 * (m / 2) + 1 ≡ m + 1 = omega arith in
        let beyond : length more ≤ (m + 1) * 2 ^ h =
          omega (arith, length-append leaves (leaf ∷ []), lt-div-pow n h) in
        sym (
          parent_at h
          ∙ ap₂ (λ i j. hash keccak (subtree keccak more h i ∷ subtree keccak more h j ∷ []))
              left_child right_child
          ∙ ap (λ r. hash keccak (subtree keccak more h m ∷ r ∷ []))
              (subtree_empty keccak more h (m + 1) beyond
                ∙ sym (zero_hash-zero_at keccak h (omega arith))))

    -- Below level suc h: the levels below h, and h itself.
    below_suc :
        (h : ℕ) (siblings : List Bytes)
        → ((k : ℕ)
            → k < h
            → bit (n + 1) k ≡ true
            → get_or siblings k zero_digest ≡ subtree keccak more k ((n + 1) / 2 ^ k - 1))
        → (bit (n + 1) h ≡ true
            → get_or siblings h zero_digest ≡ subtree keccak more h ((n + 1) / 2 ^ h - 1))
        → (k : ℕ) → k < suc h
        → bit (n + 1) k ≡ true
        → get_or siblings k zero_digest ≡ subtree keccak more k ((n + 1) / 2 ^ k - 1)
    below_suc h siblings low top k lt set_bit = elim (split k lt) [
      | inl old ↦ low k old set_bit
      | inr new ↦ rw new (top (rw new at set_bit))
    ]
      where
        split : (k : ℕ) → k < suc h → (k < h) ⊎ (k ≡ h)
        split k lt = grind arith

    top_settled :
        (h : ℕ) (c : Climb)
        → h < height
        → Climbs more n height start h c
        → c.is_filled_sub_tree ≡ false
        → bit (n + 1) h ≡ true
        → get_or c.siblings h zero_digest ≡ subtree keccak more h ((n + 1) / 2 ^ h - 1)
    top_settled h c lt inv settled set_bit =
        let same : (n + 1) / 2 ^ h ≡ n / 2 ^ h = inv.settled settled in
        rw same (inv.above h (omega arith) ∙ left_of h lt (rw same at set_bit))

    top_odd :
        (h : ℕ) (c : Climb)
        → h < height
        → bit n h ≡ true
        → Climbs more n height start h c
        → bit (n + 1) h ≡ true
        → get_or c.siblings h zero_digest ≡ subtree keccak more h ((n + 1) / 2 ^ h - 1)
    top_odd h c lt odd inv set_bit = elim (Bool-cases c.is_filled_sub_tree) [
      | inl filled ↦ absurd (ground (arith, inv.carried filled))
      | inr settled ↦ top_settled h c lt inv settled set_bit
    ]

    odd_step :
        (h : ℕ) (c : Climb)
        → h < height
        → bit n h ≡ true
        → Climbs more n height start h c
        → Climbs more n height start (suc h) (add_level keccak n h c)
    unfolding add_level
    odd_step h c lt odd inv = rw odd (record {
      current =
          ap₂ (λ l r. hash keccak (l ∷ r ∷ [])) (inv.above h (omega arith)) inv.current
          ∙ parent_odd h lt odd;
      sized = inv.sized;
      below = below_suc h c.siblings inv.below (top_odd h c lt odd inv);
      above = λ k le. inv.above k (omega arith);
      carried =
          λ filled. rw (div-pow_suc (n + 1) h, div-pow_suc n h, inv.carried filled) (ground arith);
      settled = λ filled. rw (div-pow_suc (n + 1) h, div-pow_suc n h, inv.settled filled) refl;
    })

    -- A left child, where the subtree that ends with the new leaf is full: the sibling is set.
    even_filled :
        (h : ℕ) (c : Climb)
        → h < height
        → bit n h ≡ false
        → c.is_filled_sub_tree ≡ true
        → Climbs more n height start h c
        → Climbs more n height start (suc h) (add_level keccak n h c)
    unfolding add_level
    even_filled h c lt even filled inv =
        rw (even, filled)
          (record {
            current =
                ap (λ l. hash keccak (l ∷ zero_hash keccak h ∷ [])) inv.current
                ∙ parent_even h lt even;
            sized = length-set c.siblings h c.cur ∙ inv.sized;
            below =
                below_suc h (set c.siblings h c.cur)
                  (λ k low set_bit.
                    get_or-set_ne c.siblings h k c.cur zero_digest (omega arith)
                    ∙ inv.below k low set_bit)
                  (λ _.
                    get_or-set_self c.siblings h c.cur zero_digest (omega (arith, inv.sized))
                    ∙ new_left);
            above = λ k le.
                get_or-set_ne c.siblings h k c.cur zero_digest (omega arith)
                ∙ inv.above k (omega arith);
            carried = λ e. absurd (ground arith);
            settled =
                λ _. rw (div-pow_suc (n + 1) h, div-pow_suc n h, inv.carried filled) (ground arith);
          })
      where
        new_left : c.cur ≡ subtree keccak more h ((n + 1) / 2 ^ h - 1)
        new_left =
            let last : n / 2 ^ h + 1 - 1 ≡ n / 2 ^ h = omega arith in
            rw (inv.carried filled, last) inv.current

    even_settled :
        (h : ℕ) (c : Climb)
        → h < height
        → bit n h ≡ false
        → c.is_filled_sub_tree ≡ false
        → Climbs more n height start h c
        → Climbs more n height start (suc h) (add_level keccak n h c)
    unfolding add_level
    even_settled h c lt even settled inv =
        rw (even, settled)
          (record {
            current =
                ap (λ l. hash keccak (l ∷ zero_hash keccak h ∷ [])) inv.current
                ∙ parent_even h lt even;
            sized = inv.sized;
            below = below_suc h c.siblings inv.below (top_settled h c lt inv settled);
            above = λ k le. inv.above k (omega arith);
            carried = λ e. absurd (ground arith);
            settled = λ _. rw (div-pow_suc (n + 1) h, div-pow_suc n h, inv.settled settled) refl;
          })

    level_step :
        (h : ℕ) (c : Climb)
        → h < height
        → Climbs more n height start h c
        → Climbs more n height start (suc h) (add_level keccak n h c)
    level_step h c lt inv = elim (Bool-cases (bit n h)) [
      | inl odd ↦ odd_step h c lt odd inv
      | inr even ↦ elim (Bool-cases c.is_filled_sub_tree) [
        | inl filled ↦ even_filled h c lt even filled inv
        | inr settled ↦ even_settled h c lt even settled inv
      ]
    ]

    levels :
        (rounds h : ℕ) (c : Climb)
        → h + rounds ≡ height
        → Climbs more n height start h c
        → Climbs more n height start height (add_levels keccak rounds h n c)
    unfolding add_levels
    levels zero h c end inv = subst (λ k. Climbs more n height start k c) (omega arith) inv
    levels (suc rounds) h c end inv =
        let next : h + 1 ≡ suc h = omega arith in
        rw next (
          levels rounds (suc h) (add_level keccak n h c) (omega arith)
            (level_step h c (omega arith) inv))

    start-Climbs :
        Climbs more n height start 0
          (record { cur = leaf; is_filled_sub_tree = true; siblings = start; leaves = [] })
    start-Climbs = record {
      current =
          let whole : n / 2 ^ 0 ≡ n = omega arith in
          sym (
            subtree_zero keccak more (n / 2 ^ 0)
            ∙ get_or-append_last leaves leaf (n / 2 ^ 0) zero_digest (whole ∙ sym counted));
      sized = front.sized;
      below = λ k lt. absurd (omega arith);
      above = λ k le. refl;
      carried = λ _. omega arith;
      settled = λ e. absurd (cc);
    }

    abbrev top : Climb
    top =
        add_levels keccak height 0 n
          (record { cur = leaf; is_filled_sub_tree = true; siblings = start; leaves = [] })

    top-Climbs : Climbs more n height start height top
    top-Climbs = levels height 0 _ (omega arith) start-Climbs

    pub cur-add_levels : n < 2 ^ height → top.cur ≡ tree_root keccak more height
    cur-add_levels lt =
        top-Climbs.current
        ∙ ap (subtree keccak more height) (div-pow_zero n height lt)
        ∙ sym (tree_root_lem keccak more height)

    pub add_levels-Frontier : Frontier more (n + 1) height top.siblings
    add_levels-Frontier = record { sized = top-Climbs.sized; left = top-Climbs.below }

  -- The siblings that the count uses stay as they are.
  add_level-keeps :
      (n h k : ℕ) (c : Climb)
      → bit n k ≡ true
      → get_or (add_level keccak n h c).siblings k zero_digest ≡ get_or c.siblings k zero_digest
  unfolding add_level
  add_level-keeps n h k c used = elim (Bool-cases (bit n h)) [
    | inl odd ↦ rw odd refl
    | inr even ↦ elim (Bool-cases c.is_filled_sub_tree) [
      | inl filled ↦
          rw (even, filled)
            (get_or-set_ne c.siblings h k c.cur zero_digest
              (λ e. cc (subst (λ j. bit n j ≡ false) e even)))
      | inr settled ↦ rw (even, settled) refl
    ]
  ]

  length-add_level :
      (n h : ℕ) (c : Climb) → length (add_level keccak n h c).siblings ≡ length c.siblings
  unfolding add_level
  length-add_level n h c = ground (arith, length-set c.siblings h c.cur)

  pub add_levels-keeps :
      (rounds h n k : ℕ) (c : Climb)
      → bit n k ≡ true
      → get_or (add_levels keccak rounds h n c).siblings k zero_digest
        ≡ get_or c.siblings k zero_digest
  unfolding add_levels
  add_levels-keeps zero h n k c used = refl
  add_levels-keeps (suc rounds) h n k c used =
      add_levels-keeps rounds (h + 1) n k (add_level keccak n h c) used
      ∙ add_level-keeps n h k c used

  pub length-add_levels :
      (rounds h n : ℕ) (c : Climb)
      → length (add_levels keccak rounds h n c).siblings ≡ length c.siblings
  unfolding add_levels
  length-add_levels zero h n c = refl
  length-add_levels (suc rounds) h n c =
      length-add_levels rounds (h + 1) n (add_level keccak n h c) ∙ length-add_level n h c
