-- ===== src/Server/Replies.antt =====
-- The answers of server/service.go to the REST interface: CheckAPI aside, all its endpoints. The
-- texts that `Hex`, `String` and `EncodeToString` make of bytes and numbers are left as these.
use xlayer_bridge_service.Base.{
  ℕ, zero, suc, ◌-◌, ◌+◌, Bool, true, false, not, Option, none, some, List, [], ◌∷◌, ◌++◌, map,
  Result, ok, err, Error, storage_not_found, ◌>>=◌, panic, if◌then◌else◌, ltb, length, ◌==◌,
}
pub mod Pages
pub mod Lengths
use xlayer_bridge_service.Etherman.{Bytes, Deposit, Claim, TokenWrapped}
use xlayer_bridge_service.Etherman.GlobalIndex.{generate_global_index}
use xlayer_bridge_service.Bridgectrl.MerkleTree.Defs.{at}
use xlayer_bridge_service.Server.Proofs.{
  NodeCache, ProofStorage, ClaimProof, get_claim_proof, get_claim_proof_by_ger,
}

pub record ReplyStorage : Type 0 where
  pub get_claim : ℕ → ℕ → ℕ → Result Claim
  pub get_claims : Bytes → ℕ → ℕ → Result (List Claim)
  pub get_claim_count : Bytes → Result ℕ
  pub get_deposit : ℕ → ℕ → Result Deposit
  pub get_deposits : Bytes → ℕ → ℕ → Result (List Deposit)
  pub get_deposit_count : Bytes → Result ℕ
  pub get_token_wrapped : ℕ → Bytes → Result TokenWrapped
  pub get_pending_deposits_to_claim : Bytes → ℕ → ℕ → ℕ → ℕ → Result (List Deposit × ℕ)

-- `pb.Deposit`.
pub record DepositReply : Type 0 where
  pub leaf_type : ℕ
  pub orig_net : ℕ
  pub orig_addr : Bytes
  pub amount : ℕ
  pub dest_net : ℕ
  pub dest_addr : Bytes
  pub block_num : ℕ
  pub deposit_cnt : ℕ
  pub network_id : ℕ
  pub tx_hash : Bytes
  pub claim_tx_hash : Bytes
  pub metadata : Bytes
  pub ready_for_claim : Bool
  pub global_index : ℕ

-- `pb.Claim`.
pub record ClaimReply : Type 0 where
  pub index : ℕ
  pub orig_net : ℕ
  pub orig_addr : Bytes
  pub amount : ℕ
  pub network_id : ℕ
  pub dest_addr : Bytes
  pub block_num : ℕ
  pub tx_hash : Bytes
  pub rollup_index : ℕ
  pub mainnet_flag : Bool

-- `pb.TokenWrapped`.
pub record TokenReply : Type 0 where
  pub orig_net : ℕ
  pub original_token_addr : Bytes
  pub wrapped_token_addr : Bytes
  pub network_id : ℕ
  pub name : Bytes
  pub symbol : Bytes
  pub decimals : ℕ

-- `pb.Proof`.
pub record ProofReply : Type 0 where
  pub rollup_merkle_proof : List Bytes
  pub merkle_proof : List Bytes
  pub main_exit_root : Bytes
  pub rollup_exit_root : Bytes

-- The default if none is asked for, and at most the maximum.
unfoldable pub page_limit : ℕ → ℕ → ℕ → ℕ
page_limit default_limit max_limit limit =
    let asked = if limit == 0 then default_limit else limit in
    if ltb max_limit asked then max_limit else asked

abbrev pub rollup_index_of : Deposit → ℕ
rollup_index_of d = if not (d.network_id == 0) then d.network_id - 1 else 0

unfoldable pub deposit_reply : Deposit → Bytes → DepositReply
deposit_reply d claim_tx_hash = record {
  leaf_type = d.leaf_type;
  orig_net = d.original_network;
  orig_addr = d.original_address;
  amount = d.amount;
  dest_net = d.destination_network;
  dest_addr = d.destination_address;
  block_num = d.block_number;
  deposit_cnt = d.deposit_count;
  network_id = d.network_id;
  tx_hash = d.tx_hash;
  claim_tx_hash = claim_tx_hash;
  metadata = d.metadata;
  ready_for_claim = d.ready_for_claim;
  global_index = generate_global_index (d.network_id == 0) (rollup_index_of d) d.deposit_count;
}

unfoldable pub claim_reply : Claim → ClaimReply
claim_reply c = record {
  index = c.index;
  orig_net = c.original_network;
  orig_addr = c.original_address;
  amount = c.amount;
  network_id = c.network_id;
  dest_addr = c.destination_address;
  block_num = c.block_number;
  tx_hash = c.tx_hash;
  rollup_index = c.rollup_index;
  mainnet_flag = c.mainnet_flag;
}

-- The text is empty where there is no claim.
unfoldable pub claim_tx_hash_of : Result Claim → Result Bytes
claim_tx_hash_of (ok claim) = ok claim.tx_hash
claim_tx_hash_of (err storage_not_found) = ok []
claim_tx_hash_of (err e) = err e

-- The proofs as they are sent: as many nodes of the second as the first has.
unfoldable pub pair_proofs : List Bytes → List Bytes → ℕ → Result (List Bytes × List Bytes)
pair_proofs [] rollup i = ok ([], [])
pair_proofs (x ∷ xs) rollup i =
    at rollup i >>= (λ y. pair_proofs xs rollup (i + 1) >>= (λ r. ok (x ∷ r.0, y ∷ r.1)))

-- The test of the lengths compares the lists before they are filled, so it never fails.
unfoldable pub proof_reply : ClaimProof → Result ProofReply
unfolding pair_proofs
proof_reply p = pair_proofs p.merkle_proof p.rollup_merkle_proof 0 >>= (λ r.
    at p.global_exit_root.exit_roots 0 >>= (λ main.
      at p.global_exit_root.exit_roots 1 >>= (λ rollup. ok (record {
        rollup_merkle_proof = r.1;
        merkle_proof = r.0;
        main_exit_root = main;
        rollup_exit_root = rollup;
      }))))

module _ (keccak : Bytes → Bytes) {C : Type 0} (cache : NodeCache C) (proofs : ProofStorage)
    (height : ℕ) where
  -- GetProof and GetProofV2.
  unfoldable pub get_proof_reply : C → ℕ → ℕ → C × Result ProofReply
  unfolding proof_reply
  get_proof_reply c deposit_cnt net_id =
      let (c', found) = get_claim_proof keccak cache proofs height c deposit_cnt net_id in
      (c', found >>= proof_reply)

  unfoldable pub get_proof_by_ger : C → ℕ → ℕ → Bytes → C × Result ProofReply
  unfolding proof_reply
  get_proof_by_ger c deposit_cnt net_id ger =
      let (c', found) =
        get_claim_proof_by_ger keccak cache proofs height c false deposit_cnt net_id ger in
      (c', found >>= proof_reply)

module _ (storage : ReplyStorage) (default_limit max_limit : ℕ) where
  unfoldable pub get_deposit_status : ℕ → ℕ → ℕ → Result Bytes
  unfolding claim_tx_hash_of
  get_deposit_status deposit_count origin_network_id dest_network_id =
      claim_tx_hash_of (storage.get_claim deposit_count origin_network_id dest_network_id)

  unfoldable pub bridge_replies : List Deposit → Result (List DepositReply)
  unfolding get_deposit_status deposit_reply
  bridge_replies [] = ok []
  bridge_replies (d ∷ ds) =
      get_deposit_status d.deposit_count d.network_id d.destination_network >>= (λ claim_tx_hash.
        bridge_replies ds >>= (λ rest. ok (deposit_reply d claim_tx_hash ∷ rest)))

  unfoldable pub get_bridges : Bytes → ℕ → ℕ → Result (List DepositReply × ℕ)
  unfolding page_limit bridge_replies
  get_bridges dest_addr limit offset = storage.get_deposit_count dest_addr >>= (λ total_count.
      storage.get_deposits dest_addr (page_limit default_limit max_limit limit) offset
      >>= (λ deposits. bridge_replies deposits >>= (λ replies. ok (replies, total_count))))

  unfoldable pub get_claims : Bytes → ℕ → ℕ → Result (List ClaimReply × ℕ)
  unfolding page_limit claim_reply
  get_claims dest_addr limit offset = storage.get_claim_count dest_addr >>= (λ total_count.
      storage.get_claims dest_addr (page_limit default_limit max_limit limit) offset
      >>= (λ claims. ok (map claim_reply claims, total_count)))

  unfoldable pub get_bridge : ℕ → ℕ → Result DepositReply
  unfolding get_deposit_status deposit_reply
  get_bridge deposit_cnt net_id = storage.get_deposit deposit_cnt net_id >>= (λ d.
      get_deposit_status deposit_cnt d.network_id d.destination_network
      >>= (λ claim_tx_hash. ok (deposit_reply d claim_tx_hash)))

  unfoldable pub get_token_wrapped : ℕ → Bytes → Result TokenReply
  get_token_wrapped orig_net orig_token_addr =
      storage.get_token_wrapped orig_net orig_token_addr >>= (λ t. ok (record {
        orig_net = t.original_network;
        original_token_addr = t.original_token_address;
        wrapped_token_addr = t.wrapped_token_address;
        network_id = t.network_id;
        name = t.name;
        symbol = t.symbol;
        decimals = t.decimals;
      }))

  -- The claims of these deposits are not looked up.
  unfoldable pub get_pending_bridges_to_claim :
      Bytes → ℕ → ℕ → ℕ → ℕ → Result (List DepositReply × ℕ)
  unfolding page_limit deposit_reply
  get_pending_bridges_to_claim dest_addr dest_net leaf_type limit offset =
      storage.get_pending_deposits_to_claim dest_addr dest_net leaf_type
        (page_limit default_limit max_limit limit) offset
      >>= (λ r. ok (map (λ (d : Deposit). deposit_reply d []) r.0, r.1))
