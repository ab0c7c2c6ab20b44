-- ===== src/Server/Proofs/Proven.antt =====
-- GetClaimProof gives the exit roots and the proofs that lead to them from the deposit's leaf.
use xlayer_bridge_service.Base.{
  ℕ, zero, suc, ◌-◌, ◌+◌, ◌%◌, ◌^◌, ◌≤◌, ◌<◌, Bool, true, false, List, [], ◌∷◌, map, ok, length,
  ◌==◌, ◌≡◌, refl, sym, ap, ◌∙◌, arith, get_or, get_elem?-get_or, All, ◌⊎◌, inl, inr,
}
use xlayer_bridge_service.Etherman.{
  Bytes, GlobalExitRoot, RollupExitLeaf, Deposit, bytes_eq_refl, zero_digest,
}
use xlayer_bridge_service.Bridgectrl.Hash.{hash_deposit}
use xlayer_bridge_service.Bridgectrl.MerkleTree.Build.{calculate_root, fold_proof}
use xlayer_bridge_service.Bridgectrl.MerkleTree.Spec.{tree_root}
use xlayer_bridge_service.Bridgectrl.MerkleTree.Proof.{compute_siblings-calculate_root}
use xlayer_bridge_service.Server.Proofs.{
  NodeCache, ProofStorage, ClaimProof, empty_proof, checked_proof, get_rollup_exit_proof,
  proof_under, get_claim_proof, get_claim_proof_by_ger,
}
use xlayer_bridge_service.Server.Proofs.Valid.{
  IsDigest, CacheLaws, HasPath, get_proof-calculate_root,
}

abbrev pub leaves_of : List RollupExitLeaf → List Bytes
leaves_of rows = map (λ (l : RollupExitLeaf). l.leaf) rows

module _ (keccak : Bytes → Bytes) where
  -- A proof that leads somewhere at a positive height is not empty.
  some_sibling :
      (leaf root : Bytes) (proof : List Bytes) (index height : ℕ)
      → 0 < height
      → calculate_root keccak leaf proof index height ≡ ok root
      → (length proof == 0) ≡ false
  unfolding calculate_root fold_proof
  some_sibling leaf root [] index (suc h) low e = cc
  some_sibling leaf root [] index zero low e = absurd (omega arith)
  some_sibling leaf root (x ∷ xs) index height low e = ground arith

  -- The leaves of the rollups under a root that the storage has.
  pub record RollupsUnder (storage : ProofStorage) (height : ℕ) (root : Bytes) (rollup_index : ℕ)
      (rows : List RollupExitLeaf) : Type 0 where
    pub stored : storage.get_rollup_exit_leaves_by_root root ≡ ok rows
    pub of_root : tree_root keccak (leaves_of rows) height ≡ root
    pub synced : rollup_index < length (leaves_of rows)
    pub fits : length (leaves_of rows) ≤ 2 ^ height

  get_rollup_exit_proof-calculate_root :
      (storage : ProofStorage) (height rollup_index : ℕ) (root : Bytes) (rows : List RollupExitLeaf)
      → 0 < height
      → height ≤ 64
      → RollupsUnder storage height root rollup_index rows
      → let leaf = get_or (leaves_of rows) rollup_index zero_digest in
        (proof : List Bytes) × (get_rollup_exit_proof keccak storage height rollup_index root
          ≡ ok (proof, leaf))
        × (calculate_root keccak leaf proof rollup_index height ≡ ok root)
  unfolding get_rollup_exit_proof checked_proof
  get_rollup_exit_proof-calculate_root storage height rollup_index root rows low high under =
      let ls = leaves_of rows in
      let (proof, computed, valid) =
        compute_siblings-calculate_root keccak ls rollup_index height low high under.synced
          under.fits in
      let some_leaf : (length ls == 0) ≡ false = ground (arith, under.synced) in
      let found = get_elem?-get_or ls rollup_index zero_digest under.synced in
      let some_proof =
        some_sibling (get_or ls rollup_index zero_digest) (tree_root keccak ls height) proof
          rollup_index height low valid in
      (
        proof,
        rw (under.stored, computed, under.of_root, bytes_eq_refl root, some_proof, some_leaf, found)
            refl,
        rw under.of_root at valid,
      )

  -- The exit tree of a network has these leaves, under the exit roots of the mainnet and of the
  -- rollups.
  abbrev pub IsUnder : ProofStorage → ℕ → ℕ → Bytes → Bytes → List Bytes → Type 0
  IsUnder storage height network_id main rollup leaves =
      (network_id ≡ 0) × (tree_root keccak leaves height ≡ main)
      ⊎ (0 < network_id)
        × (network_id < 4294967296)
        × (rows : List RollupExitLeaf) × RollupsUnder storage height rollup (network_id - 1) rows
        × (get_or (leaves_of rows) (network_id - 1) zero_digest ≡ tree_root keccak leaves height)

  -- A proof for a deposit under exit roots: these are returned as they are, and the proofs lead from
  -- the hash of the deposit, at its count, to the root of the mainnet, or to a root that the second
  -- proof leads from, at the rollup's index, to the root of the rollups.
  abbrev pub Proves : ℕ → ℕ → GlobalExitRoot → Bytes → Bytes → Deposit → ℕ → ClaimProof → Type 0
  Proves height network_id ger main rollup deposit deposit_cnt proof =
      (proof.global_exit_root ≡ ger)
      × (leaf : Bytes) × (hash_deposit keccak deposit ≡ ok leaf)
      × ((network_id ≡ 0)
            × (calculate_root keccak leaf proof.merkle_proof deposit_cnt height ≡ ok main)
          ⊎ (0 < network_id)
            × (local : Bytes) × (calculate_root keccak leaf proof.merkle_proof deposit_cnt height
                ≡ ok local)
            × (calculate_root keccak local proof.rollup_merkle_proof (network_id - 1) height
                ≡ ok rollup))

  module _ {C : Type 0} (cache : NodeCache C) (storage : ProofStorage) (Holds : C → Type 0)
      (laws : CacheLaws cache storage Holds) (height : ℕ) (low : 0 < height) (high : height ≤ 64)
      (leaves : List Bytes) (digests : All IsDigest leaves) (deposit_cnt network_id : ℕ)
      (fits : deposit_cnt < 2 ^ height)
      (path : HasPath cache storage Holds laws keccak leaves digests deposit_cnt height)
      (ger : GlobalExitRoot) (main rollup : Bytes) (roots : ger.exit_roots ≡ main ∷ rollup ∷ [])
      (under : IsUnder storage height network_id main rollup leaves) (deposit : Deposit)
      (of_deposit : hash_deposit keccak deposit ≡ ok (get_or leaves deposit_cnt zero_digest)) where
    proof_under-Proves :
        (c : C)
        → Holds c
        → let found = proof_under keccak cache storage height c deposit_cnt network_id ger in
          (proof : ClaimProof) × (found.1 ≡ ok proof)
          × Proves height network_id ger main rollup deposit deposit_cnt proof
    unfolding proof_under
    proof_under-Proves c holds = elim under [
      | inl (mainnet, of_main) ↦
          let (proof, found, valid, kept) =
            get_proof-calculate_root cache storage Holds laws keccak leaves digests deposit_cnt
              height c low high fits holds path in
          let is_main : (network_id == 0) ≡ true = ground arith in
          (
            record {
              global_exit_root = ger;
              merkle_proof = proof;
              rollup_merkle_proof = empty_proof;
            },
            simp (is_main, roots, proof_under, sym of_main, found) refl,
            (
              refl,
              get_or leaves deposit_cnt zero_digest,
              of_deposit,
              inl (mainnet, valid ∙ ap ok of_main),
            ),
          )
      | inr (of_rollup, small, rows, rollups, leaf) ↦
          let (proof, found, valid, kept) =
            get_proof-calculate_root cache storage Holds laws keccak leaves digests deposit_cnt
              height c low high fits holds path in
          let (above, computed, leads) =
            get_rollup_exit_proof-calculate_root storage height (network_id - 1) rollup rows low
              high rollups in
          let not_main : (network_id == 0) ≡ false = ground arith in
          let index : (network_id + (2 ^ 32 - 1)) % 2 ^ 32 ≡ network_id - 1 = omega arith in
          (
            record { global_exit_root = ger; merkle_proof = proof; rollup_merkle_proof = above },
            simp (not_main, roots, proof_under, index, computed, leaf, found) refl,
            (
              refl,
              get_or leaves deposit_cnt zero_digest,
              of_deposit,
              inr (
                of_rollup,
                tree_root keccak leaves height,
                valid,
                ap (λ l. calculate_root keccak l above (network_id - 1) height) (sym leaf) ∙ leads,
              ),
            ),
          )
    ]

    -- For a deposit that is ready for its claim, at a height from 1 to 64: if the storage has the
    -- exit tree of its network under the latest exit roots, with the path to the deposit's leaf, and
    -- the cache only rows of the storage, then GetClaimProof returns these exit roots and proofs for
    -- which calculateRoot leads from the hash of the deposit, at its count, to the root of the mainnet,
    -- or to the root of its rollup and from there, at the rollup's index, to the root of the rollups.
    pub get_claim_proof-Proves :
        (c : C)
        → Holds c
        → storage.get_deposit deposit_cnt network_id ≡ ok deposit
        → deposit.ready_for_claim ≡ true
        → storage.get_latest_exit_root network_id deposit.destination_network ≡ ok ger
        → let found = get_claim_proof keccak cache storage height c deposit_cnt network_id in
          (proof : ClaimProof) × (found.1 ≡ ok proof)
          × Proves height network_id ger main rollup deposit deposit_cnt proof
    unfolding get_claim_proof
    get_claim_proof-Proves c holds stored is_ready latest =
        simp (stored, is_ready, latest, get_claim_proof) (proof_under-Proves c holds)

    -- The same of GetClaimProofbyGER, under the exit roots of L1 of the given global exit root, for a
    -- call in a transaction or of a deposit that is stored, ready or not.
    pub get_claim_proof_by_ger-Proves :
        (c : C) (in_tx : Bool) (ger_hash : Bytes)
        → Holds c
        → (in_tx ≡ true)
          ⊎ (found : Deposit) × (storage.get_deposit deposit_cnt network_id ≡ ok found)
        → storage.get_l1_exit_root_by_ger ger_hash ≡ ok ger
        → let found =
            get_claim_proof_by_ger keccak cache storage height c in_tx deposit_cnt network_id
              ger_hash in
          (proof : ClaimProof) × (found.1 ≡ ok proof)
          × Proves height network_id ger main rollup deposit deposit_cnt proof
    unfolding get_claim_proof_by_ger
    get_claim_proof_by_ger-Proves c in_tx ger_hash holds (inl yes_tx) known =
        simp (yes_tx, known, get_claim_proof_by_ger) (proof_under-Proves c holds)
    get_claim_proof_by_ger-Proves c true ger_hash holds (inr (found, stored)) known =
        simp (known, get_claim_proof_by_ger) (proof_under-Proves c holds)
    get_claim_proof_by_ger-Proves c false ger_hash holds (inr (found, stored)) known =
        simp (known, stored, get_claim_proof_by_ger) (proof_under-Proves c holds)
