-- ===== src/Server/Proofs/Valid.antt =====
-- The proofs that the service gives lead to the exit roots that it gives with them.
use mathlib.Core.List.{flatten, reverse, reverse-append, reverse-reverse}
use xlayer_bridge_service.Base.Powers.{div-pow_suc, div-pow_zero}
use xlayer_bridge_service.Base.{
  ℕ, zero, suc, ◌+◌, ◌*◌, ◌/◌, ◌^◌, ◌≤◌, ◌<◌, true, false, some, List, [], ◌∷◌, ◌++◌, Result, ok,
  length, length-append, ok-inj, replicate, ◌≡◌, refl, sym, ap, subst, ◌∙◌, append-nil,
  append_assoc, arith, take, get_or, All, if_cases, Option-cases, inl, inr,
}
use xlayer_bridge_service.Etherman.{Bytes, zero_digest}
use xlayer_bridge_service.Bridgectrl.Hash.{copy_into, hash}
use xlayer_bridge_service.Bridgectrl.MerkleTree.Defs.{bit, rounds_down}
use xlayer_bridge_service.Bridgectrl.MerkleTree.Build.{calculate_root}
use xlayer_bridge_service.Bridgectrl.MerkleTree.Spec.{subtree, tree_root, tree_root_lem}
use xlayer_bridge_service.Bridgectrl.MerkleTree.Siblings.{children}
use xlayer_bridge_service.Bridgectrl.MerkleTree.Proof.{
  proof_nodes, sibling_index, calculate_root_lem,
}
use xlayer_bridge_service.Server.Proofs.{
  NodeCache, ProofStorage, child_pair, get_node, descend_proof, get_proof,
}

-- A digest has 32 bytes.
abbrev pub IsDigest : Bytes → Type 0
IsDigest bs = length bs ≡ 32

take_all : {A : Type 0} (xs ys : List A) → take (length xs) (xs ++ ys) ≡ xs
take_all [] [] = refl
take_all [] (y ∷ ys) = refl
take_all (x ∷ xs) ys = ap (λ zs. x ∷ zs) (take_all xs ys)

copy_into_lem : (bs : Bytes) → IsDigest bs → copy_into 32 bs ≡ bs
unfolding copy_into
copy_into_lem bs digest = ap (λ n. take n (bs ++ replicate 32 0)) (sym digest) ∙ take_all bs _

length-take : {A : Type 0} (n : ℕ) (xs : List A) → n ≤ length xs → length (take n xs) ≡ n
length-take zero [] le = refl
length-take zero (x ∷ xs) le = refl
length-take (suc n) [] le = absurd (omega arith)
length-take (suc n) (x ∷ xs) le = ap suc (length-take n xs (omega arith))

hash-IsDigest : (keccak : Bytes → Bytes) (xs : List Bytes) → IsDigest (hash keccak xs)
unfolding hash copy_into
hash-IsDigest keccak xs =
    length-take 32 _ (omega (arith, length-append (keccak (flatten xs)) (replicate 32 0)))

get_or-IsDigest :
    (leaves : List Bytes) (i : ℕ) → All IsDigest leaves → IsDigest (get_or leaves i zero_digest)
get_or-IsDigest [] i all = refl
get_or-IsDigest (x ∷ xs) zero all = all.0
get_or-IsDigest (x ∷ xs) (suc i) all = get_or-IsDigest xs i all.1

subtree-IsDigest :
    (keccak : Bytes → Bytes) (leaves : List Bytes) (h i : ℕ)
    → All IsDigest leaves
    → IsDigest (subtree keccak leaves h i)
unfolding subtree
subtree-IsDigest keccak leaves zero i all = get_or-IsDigest leaves i all
subtree-IsDigest keccak leaves (suc h) i all = hash-IsDigest keccak _

child_pair_lem : (l r : Bytes) → IsDigest l → IsDigest r → child_pair (l ∷ r ∷ []) ≡ ok (l, r)
unfolding child_pair
child_pair_lem l r dl dr = rw (copy_into_lem l dl, copy_into_lem r dr) refl

-- What the cache's documentation says: a value that it gives was added under that key. `Holds` says
-- that each entry of the cache is a row of the storage.
pub record CacheLaws {C : Type 0} (cache : NodeCache C) (storage : ProofStorage)
    (Holds : C → Type 0) : Type 0 where
  pub got :
      (c : C) (key : Bytes) (value : List Bytes)
      → Holds c
      → (cache.get c key).1 ≡ some value
      → storage.get key ≡ ok value
  pub get_keeps : (c : C) (key : Bytes) → Holds c → Holds (cache.get c key).0
  pub add_keeps :
      (c : C) (key : Bytes) (value : List Bytes)
      → Holds c
      → storage.get key ≡ ok value
      → Holds (cache.add c key value)

module _ {C : Type 0} (cache : NodeCache C) (storage : ProofStorage) (Holds : C → Type 0)
    (laws : CacheLaws cache storage Holds) where
  -- Whether the node was cached or not.
  get_node_lem :
      (c : C) (parent l r : Bytes)
      → Holds c
      → storage.get parent ≡ ok (l ∷ r ∷ [])
      → IsDigest l
      → IsDigest r
      → ((get_node cache storage c parent).1 ≡ ok (l, r))
        × Holds (get_node cache storage c parent).0
  unfolding get_node
  get_node_lem c parent l r holds stored dl dr = elim (Option-cases (cache.get c parent).1) [
    | inl missing ↦
        rw (missing, get_node, stored)
          (
            child_pair_lem l r dl dr,
            laws.add_keeps _ parent (l ∷ r ∷ []) (laws.get_keeps c parent holds) stored,
          )
    | inr (value, hit) ↦
        let same : value ≡ l ∷ r ∷ [] = ok-inj (sym (laws.got c parent value holds hit) ∙ stored) in
        rw (hit, get_node, same) (child_pair_lem l r dl dr, laws.get_keeps c parent holds)
  ]

  module _ (keccak : Bytes → Bytes) (leaves : List Bytes) (digests : All IsDigest leaves)
      (index : ℕ) where
    -- The storage has the nodes on the path to the leaf below the level `h`.
    unfoldable pub HasPath : ℕ → Type 0
    HasPath h =
        (k : ℕ)
        → k < h
        → storage.get (subtree keccak leaves (suc k) (index / 2 ^ suc k))
          ≡ ok (children keccak leaves k (index / 2 ^ suc k))

    right_node : (h : ℕ) → bit index h ≡ true → 2 * (index / 2 ^ suc h) + 1 ≡ index / 2 ^ h
    right_node h right = rw (div-pow_suc index h) (ground arith)

    left_node : (h : ℕ) → bit index h ≡ false → 2 * (index / 2 ^ suc h) ≡ index / 2 ^ h
    left_node h left = rw (div-pow_suc index h) (ground arith)

    right_sibling :
        (h : ℕ) → bit index h ≡ true → 2 * (index / 2 ^ suc h) ≡ sibling_index (index / 2 ^ h)
    right_sibling h right = rw (right, div-pow_suc index h) (ground arith)

    left_sibling :
        (h : ℕ) → bit index h ≡ false → 2 * (index / 2 ^ suc h) + 1 ≡ sibling_index (index / 2 ^ h)
    left_sibling h left = rw (left, div-pow_suc index h) (ground arith)

    next_order :
        (siblings above : List Bytes) (x y : Bytes)
        → x ≡ y
        → (siblings ++ x ∷ []) ++ reverse above ≡ siblings ++ reverse (above ++ y ∷ [])
    next_order siblings above x y e =
        append_assoc siblings (x ∷ []) (reverse above)
        ∙ ap (λ xs. siblings ++ xs)
            (ap (λ z. z ∷ reverse above) e ∙ sym (reverse-append above (y ∷ [])))

    unfoldable pub Descends : ℕ → C → Bytes → List Bytes → List Bytes → Type 0
    Descends h c cur siblings expected =
        let found = descend_proof cache storage h c index cur siblings in
        (found.1 ≡ ok expected) × Holds found.0

    -- One level down: the path goes on at the node `j`, and `i` is its sibling.
    Descends-next :
        (h : ℕ) (c : C) (siblings : List Bytes) (i j : ℕ)
        → j ≡ index / 2 ^ h
        → i ≡ sibling_index (index / 2 ^ h)
        → ((more : List Bytes)
            → Descends h c
                (subtree keccak leaves h (index / 2 ^ h))
                more
                (more ++ reverse (proof_nodes keccak leaves index h)))
        → Descends h c
            (subtree keccak leaves h j)
            (siblings ++ subtree keccak leaves h i ∷ [])
            (siblings ++ reverse (proof_nodes keccak leaves index (suc h)))
    unfolding proof_nodes Descends
    Descends-next h c siblings i j node beside rest =
        let x = subtree keccak leaves h i in
        let ordered =
          next_order siblings (proof_nodes keccak leaves index h) x
            (subtree keccak leaves h (sibling_index (index / 2 ^ h)))
            (ap (subtree keccak leaves h) beside) in
        subst (λ ys. Descends h c (subtree keccak leaves h j) (siblings ++ x ∷ []) ys) ordered
          (subst
            (λ k.
              Descends h c (subtree keccak leaves h k) (siblings ++ x ∷ [])
                ((siblings ++ x ∷ []) ++ reverse (proof_nodes keccak leaves index h)))
            (sym node) (rest (siblings ++ x ∷ [])))

    pub descend_proof_lem :
        (h : ℕ) (c : C) (siblings : List Bytes)
        → Holds c
        → HasPath h
        → Descends h c
            (subtree keccak leaves h (index / 2 ^ h))
            siblings
            (siblings ++ reverse (proof_nodes keccak leaves index h))
    unfolding descend_proof proof_nodes HasPath Descends
    descend_proof_lem zero c siblings holds path = (ap ok (sym (append-nil siblings)), holds)
    descend_proof_lem (suc h) c siblings holds path =
        let q = index / 2 ^ suc h in
        let l = subtree keccak leaves h (2 * q) in
        let r = subtree keccak leaves h (2 * q + 1) in
        let (read, holds') =
          get_node_lem c (subtree keccak leaves (suc h) q) l r holds (path h (omega arith))
            (subtree-IsDigest keccak leaves h (2 * q) digests)
            (subtree-IsDigest keccak leaves h (2 * q + 1) digests) in
        let next =
          λ (i j : ℕ) (node : j ≡ index / 2 ^ h) (beside : i ≡ sibling_index (index / 2 ^ h)).
            Descends-next h (get_node cache storage c (subtree keccak leaves (suc h) q)).0 siblings
              i j node beside
              (λ more. descend_proof_lem h _ more holds' (λ k lt. path k (omega arith))) in
        let expected = siblings ++ reverse (proof_nodes keccak leaves index (suc h)) in
        rw (read, descend_proof)
          (if_cases (λ (found : C × Result (List Bytes)). (found.1 ≡ ok expected) × Holds found.0)
            (bit index h)
            (λ right. next (2 * q) (2 * q + 1) (right_node h right) (right_sibling h right))
            (λ left. next (2 * q + 1) (2 * q) (left_node h left) (left_sibling h left)))

    -- At a height from 1 to 64, with leaves of 32 bytes: if the storage has the nodes on the path to
    -- a leaf and the cache only rows of the storage, getProof returns a proof from which
    -- calculateRoot gets the root again, and the cache still has only such rows.
    pub get_proof-calculate_root :
        (height : ℕ) (c : C)
        → 0 < height
        → height ≤ 64
        → index < 2 ^ height
        → Holds c
        → HasPath height
        → let found = get_proof cache storage height c index (tree_root keccak leaves height) in
          (proof : List Bytes) × (found.1 ≡ ok proof)
          × (calculate_root keccak (get_or leaves index zero_digest) proof index height
              ≡ ok (tree_root keccak leaves height))
          × Holds found.0
    unfolding get_proof Descends
    get_proof-calculate_root height c low high fits holds path =
        let rounds : rounds_down height ≡ height = omega arith in
        let top : tree_root keccak leaves height
            ≡ subtree keccak leaves height (index / 2 ^ height) =
          tree_root_lem keccak leaves height
          ∙ ap (subtree keccak leaves height) (sym (div-pow_zero index height fits)) in
        let (found, holds') =
          subst
            (λ root. Descends height c root [] (reverse (proof_nodes keccak leaves index height)))
            (sym top) (descend_proof_lem height c [] holds path) in
        (
          proof_nodes keccak leaves index height,
          rw (rounds, found) (ap ok (reverse-reverse (proof_nodes keccak leaves index height))),
          calculate_root_lem keccak leaves index height fits,
          rw rounds holds',
        )
