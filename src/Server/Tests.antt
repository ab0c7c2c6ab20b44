-- ===== src/Server/Tests.antt =====
-- The proof of the only deposit of the first rollup, in trees of height 1.
use xlayer_bridge_service.Base.{
  zero, suc, ◌<◌, true, Option, none, some, List, [], ◌∷◌, ◌++◌, ok, err, ◌≡◌, refl, arith,
  replicate, All, inl, inr, storage_not_found, if◌then◌else◌, Bool-cases, get_or, length, panic,
  ◌≤◌, ◌⊎◌,
}
use xlayer_bridge_service.Etherman.{
  Bytes, Deposit, GlobalExitRoot, RollupExitLeaf, bytes_eq, zero_digest, zero_address,
}
use xlayer_bridge_service.Bridgectrl.Hash.{hash, hash_deposit, big_endian}
use xlayer_bridge_service.Bridgectrl.MerkleTree.Spec.{subtree, tree_root}
use xlayer_bridge_service.Bridgectrl.MerkleTree.Build.{calculate_root}
use xlayer_bridge_service.Server.Replies.{
  ReplyStorage, DepositReply, get_bridges, page_limit, get_deposit_status, claim_tx_hash_of,
  proof_reply,
}
use xlayer_bridge_service.Server.Replies.Pages.{AreReplies, HasStatus, get_bridges-AreReplies}
use xlayer_bridge_service.Server.Replies.Lengths.{proof_reply_lem}
use xlayer_bridge_service.Server.Proofs.{
  NodeCache, ProofStorage, ClaimProof, get_claim_proof, get_claim_proof_by_ger, get_proof,
}
use xlayer_bridge_service.Server.Proofs.Valid.{CacheLaws, HasPath, get_proof-calculate_root}
use xlayer_bridge_service.Server.Proofs.Proven.{
  Proves, IsUnder, get_claim_proof-Proves, get_claim_proof_by_ger-Proves,
}

abbrev Entries : Type 0
Entries = List (Bytes × List Bytes)

abbrev cached_value : Entries → Bytes → Option (List Bytes)
cached_value [] key = none
cached_value ((k, v) ∷ rest) key =
    let other = cached_value rest key in if bytes_eq k key then some v else other

-- A cache that drops nothing.
abbrev full_cache : NodeCache Entries
full_cache = record {
  get = λ c key. (c, cached_value c key);
  add = λ c key value. (key, value) ∷ c;
}

abbrev leaf : Bytes
leaf = 1 ∷ replicate 31 0

-- A hash for which the parent is its left child.
abbrev first_half : Bytes → Bytes
first_half bs = bs

abbrev a_deposit : Deposit
a_deposit = record {
  id = 1;
  leaf_type = 1;
  original_network = 0;
  original_address = zero_address;
  amount = 5;
  destination_network = 0;
  destination_address = zero_address;
  deposit_count = 0;
  block_id = 1;
  block_number = 1;
  network_id = 1;
  tx_hash = [];
  metadata = [];
  ready_for_claim = true;
  time = 0;
  ready_time = 0;
  dest_contract_address = [];
}

abbrev roots : GlobalExitRoot
roots = record {
  block_id = 1;
  block_number = 1;
  exit_roots = zero_digest ∷ leaf ∷ [];
  global_exit_root = [];
  network_id = 0;
  id = 1;
  time = 0;
}

abbrev rollup_row : RollupExitLeaf
rollup_row = record { id = 1; block_id = 1; leaf = leaf; rollup_id = 1; root = leaf }

abbrev one_deposit : ProofStorage
one_deposit = record {
  get = λ key. ok (leaf ∷ zero_digest ∷ []);
  get_deposit = λ cnt net. ok a_deposit;
  get_latest_exit_root = λ net dest. ok roots;
  get_l1_exit_root_by_ger = λ ger. ok roots;
  get_rollup_exit_leaves_by_root = λ root. ok (rollup_row ∷ []);
}

OfStorage : Entries → Type 0
OfStorage c = All (λ (e : Bytes × List Bytes). one_deposit.get e.0 ≡ ok e.1) c

cached_value-OfStorage :
    (c : Entries) (key : Bytes) (value : List Bytes)
    → OfStorage c
    → cached_value c key ≡ some value
    → one_deposit.get key ≡ ok value
unfolding OfStorage
cached_value-OfStorage [] key value all e = cc
cached_value-OfStorage ((k, v) ∷ rest) key value all e = elim (Bool-cases (bytes_eq k key)) [
  | inl same ↦ let found = rw same at e in cc
  | inr other ↦ cached_value-OfStorage rest key value all.1 (rw other at e)
]

nothing_cached : OfStorage []
unfolding OfStorage
nothing_cached = tt

full_cache-CacheLaws : CacheLaws full_cache one_deposit OfStorage
unfolding OfStorage
full_cache-CacheLaws = record {
  got = cached_value-OfStorage;
  get_keeps = λ c key holds. holds;
  add_keeps = λ c key value holds stored. (stored, holds);
}

only_path :
    HasPath full_cache one_deposit OfStorage full_cache-CacheLaws first_half
      (leaf ∷ [])
      (refl, tt)
      0
      1
unfolding HasPath subtree
only_path zero lt = refl
only_path (suc k) lt = absurd (omega arith)

only_rollup : IsUnder first_half one_deposit 1 1 zero_digest leaf (leaf ∷ [])
unfolding tree_root subtree hash
only_rollup = inr (
  omega arith,
  omega arith,
  rollup_row ∷ [],
  record { stored = refl; of_root = refl; synced = omega arith; fits = omega arith },
  refl,
)

deposit_leaf : hash_deposit first_half a_deposit ≡ ok leaf
unfolding hash_deposit hash big_endian bytes_eq
deposit_leaf = refl

get_claim_proof-Proves_example :
    let found = get_claim_proof first_half full_cache one_deposit 1 [] 0 1 in
    (proof : ClaimProof) × (found.1 ≡ ok proof)
    × Proves first_half 1 1 roots zero_digest leaf a_deposit 0 proof
get_claim_proof-Proves_example =
    get_claim_proof-Proves first_half full_cache one_deposit OfStorage full_cache-CacheLaws 1
      (omega arith) (omega arith) (leaf ∷ []) (refl, tt) 0 1 (omega arith) only_path roots
      zero_digest leaf refl only_rollup a_deposit deposit_leaf [] nothing_cached refl refl refl

get_claim_proof_by_ger-Proves_example :
    let found = get_claim_proof_by_ger first_half full_cache one_deposit 1 [] true 0 1 [] in
    (proof : ClaimProof) × (found.1 ≡ ok proof)
    × Proves first_half 1 1 roots zero_digest leaf a_deposit 0 proof
get_claim_proof_by_ger-Proves_example =
    get_claim_proof_by_ger-Proves first_half full_cache one_deposit OfStorage full_cache-CacheLaws 1
      (omega arith) (omega arith) (leaf ∷ []) (refl, tt) 0 1 (omega arith) only_path roots
      zero_digest leaf refl only_rollup a_deposit deposit_leaf [] true [] nothing_cached (inl refl)
      refl

get_proof-calculate_root_example :
    let found = get_proof full_cache one_deposit 1 [] 0 (tree_root first_half (leaf ∷ []) 1) in
    (proof : List Bytes) × (found.1 ≡ ok proof)
    × (calculate_root first_half (get_or (leaf ∷ []) 0 zero_digest) proof 0 1
        ≡ ok (tree_root first_half (leaf ∷ []) 1))
    × OfStorage found.0
get_proof-calculate_root_example =
    get_proof-calculate_root full_cache one_deposit OfStorage full_cache-CacheLaws first_half
      (leaf ∷ []) (refl, tt) 0 1 [] (omega arith) (omega arith) (omega arith) nothing_cached
      only_path

abbrev no_claims : ReplyStorage
no_claims = record {
  get_claim = λ cnt origin dest. err storage_not_found;
  get_claims = λ addr limit offset. ok [];
  get_claim_count = λ addr. ok 0;
  get_deposit = λ cnt net. ok a_deposit;
  get_deposits = λ addr limit offset. ok (a_deposit ∷ []);
  get_deposit_count = λ addr. ok 1;
  get_token_wrapped = λ net addr. err storage_not_found;
  get_pending_deposits_to_claim = λ addr net leaf_type limit offset. ok ([], 0);
}

one_row : 1 ≤ page_limit 25 100 1000
unfolding page_limit
one_row = omega arith

no_claim : HasStatus no_claims 25 100 a_deposit
unfolding get_deposit_status claim_tx_hash_of
no_claim = ([], refl)

get_bridges-AreReplies_example :
    (replies : List DepositReply) × (get_bridges no_claims 25 100 [] 1000 0 ≡ ok (replies, 1))
    × (length replies ≤ 100)
    × AreReplies no_claims 25 100 (a_deposit ∷ []) replies
get_bridges-AreReplies_example =
    get_bridges-AreReplies no_claims 25 100 [] 1000 0 1 (a_deposit ∷ []) refl refl one_row
      ((omega arith, omega arith), tt) (no_claim, tt)

abbrev short_proof : ClaimProof
short_proof = record {
  global_exit_root = roots;
  merkle_proof = leaf ∷ leaf ∷ [];
  rollup_merkle_proof = leaf ∷ [];
}

proof_reply_lem_example :
    ((2 ≤ 1)
      × (zs : List Bytes) × (rest : List Bytes) × (leaf ∷ [] ≡ zs ++ rest)
      × (length zs ≡ 2)
      × (proof_reply short_proof
          ≡ ok (record {
            rollup_merkle_proof = zs;
            merkle_proof = leaf ∷ leaf ∷ [];
            main_exit_root = zero_digest;
            rollup_exit_root = leaf;
          })))
    ⊎ (1 < 2) × (proof_reply short_proof ≡ err panic)
proof_reply_lem_example = proof_reply_lem short_proof zero_digest leaf refl
