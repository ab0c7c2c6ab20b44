-- ===== src/Server/Proofs.antt =====
-- The Merkle proofs of claims: getNode, getProof, getRollupExitProof, GetClaimProof,
-- GetClaimProofbyGER and GetClaimProofForCompressed of server/service.go.
use mathlib.Core.List.{reverse}
use xlayer_bridge_service.Base.{
  ℕ, zero, suc, ◌-◌, ◌+◌, ◌%◌, ◌^◌, Bool, true, false, not, ◌||◌, Option, none, some, List, [], ◌∷◌,
  ◌++◌, map, Result, ok, err, Error, ◌>>=◌, panic, if◌then◌else◌, leb, length, ◌==◌, replicate,
  get_elem?, deposit_not_synced, root_mismatch, no_siblings, leaf_not_synced,
}
pub mod Valid
pub mod Proven
use xlayer_bridge_service.Etherman.{
  Bytes, Deposit, Claim, GlobalExitRoot, TokenWrapped, RollupExitLeaf, bytes_eq, zero_digest,
}
use xlayer_bridge_service.Bridgectrl.Hash.{copy_into}
use xlayer_bridge_service.Bridgectrl.MerkleTree.Defs.{at, bit, rounds_down}
use xlayer_bridge_service.Bridgectrl.MerkleTree.Build.{compute_siblings}

-- `lru.Cache`: a lookup may change what is evicted next.
pub record NodeCache (C : Type 0) : Type 0 where
  pub get : C → Bytes → C × Option (List Bytes)
  pub add : C → Bytes → List Bytes → C

-- What the proofs read of the storage. It does not change while a call is answered.
pub record ProofStorage : Type 0 where
  pub get : Bytes → Result (List Bytes)
  pub get_deposit : ℕ → ℕ → Result Deposit
  pub get_latest_exit_root : ℕ → ℕ → Result GlobalExitRoot
  pub get_l1_exit_root_by_ger : Bytes → Result GlobalExitRoot
  pub get_rollup_exit_leaves_by_root : Bytes → Result (List RollupExitLeaf)

-- The exit roots with the proof of the deposit and that of its rollup.
pub record ClaimProof : Type 0 where
  pub global_exit_root : GlobalExitRoot
  pub merkle_proof : List Bytes
  pub rollup_merkle_proof : List Bytes

-- The two values, each copied to 32 bytes.
unfoldable pub child_pair : List Bytes → Result (Bytes × Bytes)
child_pair value =
    at value 0 >>= (λ left. at value 1 >>= (λ right. ok (copy_into 32 left, copy_into 32 right)))

abbrev pub empty_proof : List Bytes
empty_proof = replicate 32 zero_digest

module _ {C : Type 0} (cache : NodeCache C) (storage : ProofStorage) where
  -- A node that is not in the cache is read and added to it.
  unfoldable pub get_node : C → Bytes → C × Result (Bytes × Bytes)
  unfolding child_pair
  get_node c parent =
      let (c', cached) = cache.get c parent in
      elim cached [
        | some value ↦ (c', child_pair value)
        | none ↦ elim (storage.get parent) [
          | err e ↦ (c', err e)
          | ok value ↦ (cache.add c' parent value, child_pair value)
        ]
      ]

  -- The nodes from `cur` down `rounds` levels, and what they leave beside the path.
  unfoldable pub descend_proof : ℕ → C → ℕ → Bytes → List Bytes → C × Result (List Bytes)
  unfolding get_node
  descend_proof zero c index cur siblings = (c, ok siblings)
  descend_proof (suc h) c index cur siblings =
      let (c', node) = get_node c cur in
      elim node [
        | err e ↦ (c', err e)
        | ok (left, right) ↦
            let up = descend_proof h c' index right (siblings ++ left ∷ []) in
            let down = descend_proof h c' index left (siblings ++ right ∷ []) in
            if bit index h then up else down
      ]

  -- The siblings are swapped in place to go from the leaf to the root.
  unfoldable pub get_proof : ℕ → C → ℕ → Bytes → C × Result (List Bytes)
  unfolding descend_proof
  get_proof height c index root =
      let (c', found) = descend_proof (rounds_down height) c index root [] in
      (c', found >>= (λ siblings. ok (reverse siblings)))

module _ (keccak : Bytes → Bytes) where
  -- The checks on the siblings and the root that were computed.
  unfoldable pub checked_proof :
      ℕ → Bytes → List Bytes → List Bytes × Bytes → Result (List Bytes × Bytes)
  checked_proof rollup_index root ls (siblings, r) =
      if not (bytes_eq root r)
      then err root_mismatch
      else if (length siblings == 0) || (length ls == 0)
      then err no_siblings
      else at_or_unsynced siblings (get_elem? ls rollup_index)
    where
      at_or_unsynced : List Bytes → Option Bytes → Result (List Bytes × Bytes)
      at_or_unsynced siblings none = err leaf_not_synced
      at_or_unsynced siblings (some leaf) = ok (siblings, leaf)

  unfoldable pub get_rollup_exit_proof : ProofStorage → ℕ → ℕ → Bytes → Result (List Bytes × Bytes)
  unfolding checked_proof
  get_rollup_exit_proof storage height rollup_index root =
      storage.get_rollup_exit_leaves_by_root root >>= (λ leaves.
        let ls = map (λ (l : RollupExitLeaf). l.leaf) leaves in
        compute_siblings keccak rollup_index ls height >>= checked_proof rollup_index root ls)

  module _ {C : Type 0} (cache : NodeCache C) (storage : ProofStorage) (height : ℕ) where
    abbrev with_roots :
        GlobalExitRoot → List Bytes → C × Result (List Bytes) → C × Result ClaimProof
    with_roots ger rollup_proof (c, found) = (
      c,
      found >>= (λ proof. ok (record {
        global_exit_root = ger;
        merkle_proof = proof;
        rollup_merkle_proof = rollup_proof;
      })),
    )

    -- The part that the three functions have in common, once the exit roots are known. The root
    -- of the mainnet comes first; `networkID-1` is a uint32.
    unfoldable pub proof_under : C → ℕ → ℕ → GlobalExitRoot → C × Result ClaimProof
    unfolding get_proof get_rollup_exit_proof
    proof_under c deposit_cnt network_id ger =
        if network_id == 0
        then elim (at ger.exit_roots 0) [
          | err e ↦ (c, err e)
          | ok root ↦ with_roots ger empty_proof (get_proof cache storage height c deposit_cnt root)
        ]
        else elim (at ger.exit_roots 1
            >>= get_rollup_exit_proof storage height ((network_id + (2 ^ 32 - 1)) % 2 ^ 32)) [
              | err e ↦ (c, err e)
              | ok (rollup_proof, leaf) ↦
                  with_roots ger rollup_proof (get_proof cache storage height c deposit_cnt leaf)
            ]

    abbrev under_roots : C → ℕ → ℕ → Result GlobalExitRoot → C × Result ClaimProof
    under_roots c deposit_cnt network_id (err e) = (c, err e)
    under_roots c deposit_cnt network_id (ok ger) = proof_under c deposit_cnt network_id ger

    abbrev ready : Deposit → Result Deposit
    ready d = if not d.ready_for_claim then err deposit_not_synced else ok d

    unfoldable pub get_claim_proof : C → ℕ → ℕ → C × Result ClaimProof
    unfolding proof_under
    get_claim_proof c deposit_cnt network_id = under_roots c deposit_cnt network_id (
        storage.get_deposit deposit_cnt network_id
        >>= ready
        >>= (λ d. storage.get_latest_exit_root network_id d.destination_network))

    -- A call from the REST interface, which has no transaction, looks the deposit up first; one
    -- that is not ready only gets a warning.
    unfoldable pub get_claim_proof_by_ger : C → Bool → ℕ → ℕ → Bytes → C × Result ClaimProof
    unfolding proof_under
    get_claim_proof_by_ger c in_tx deposit_cnt network_id ger =
        let roots = storage.get_l1_exit_root_by_ger ger in
        under_roots c deposit_cnt network_id
          (if in_tx then roots else storage.get_deposit deposit_cnt network_id >>= (λ d. roots))

    unfoldable pub get_claim_proof_for_compressed : C → Bool → Bytes → ℕ → ℕ → C × Result ClaimProof
    unfolding proof_under
    get_claim_proof_for_compressed c in_tx ger deposit_cnt network_id =
        let roots = storage.get_l1_exit_root_by_ger ger in
        under_roots c deposit_cnt network_id (
          if in_tx
          then roots
          else storage.get_deposit deposit_cnt network_id >>= ready >>= (λ d. roots))
