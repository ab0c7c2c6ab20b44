-- ===== src/Etherman/Events.antt =====
-- The handlers of events of etherman/etherman.go, and getFullBlockTime of xlayer_etherman.go.
use xlayer_bridge_service.Base.{
  ℕ, ◌-◌, ◌*◌, Bool, false, ◌&&◌, List, [], ◌∷◌, ◌++◌, Result, ok, err, ◌>>=◌, panic, if◌then◌else◌,
  length, ◌==◌, none, some, get_elem?,
}
use xlayer_bridge_service.Bridgectrl.Hash.{hash}
use xlayer_bridge_service.Etherman.{
  Bytes, Block, Deposit, Claim, GlobalExitRoot, TokenWrapped, VerifiedBatch, EventOrder, Order,
  bytes_eq, zero_address, global_exit_roots_order, remove_l2_ger_order, deposits_order,
  claims_order, tokens_order, verify_batch_order,
}
use xlayer_bridge_service.Etherman.Logs.{
  Log, Bindings, BridgeEvent, VerifyBatches, ClaimEvent, OldClaimEvent, NewWrappedToken,
}
use xlayer_bridge_service.Etherman.GlobalIndex.{decode_global_index}

-- The blocks read so far, the newest first, and the order of events under a block's hash.
pub record Events : Type 0 where
  pub blocks : List Block
  pub blocks_order : Bytes → List Order

-- `append` on the entry of a hash.
unfoldable pub append_order : (Bytes → List Order) → Bytes → Order → Bytes → List Order
append_order orders key order h = if bytes_eq h key then orders h ++ order ∷ [] else orders h

abbrev pub bare_block : Log → ℕ → Block
bare_block vlog received_at = record {
  id = 0;
  block_number = vlog.block_number;
  block_hash = vlog.block_hash;
  network_id = 0;
  global_exit_roots = [];
  remove_l2_ger = [];
  deposits = [];
  claims = [];
  tokens = [];
  verified_batches = [];
  activate_etrog = [];
  received_at = received_at;
}

abbrev pub is_block_of : Log → Block → Bool
is_block_of vlog b = bytes_eq b.block_hash vlog.block_hash && b.block_number == vlog.block_number

-- The event joins the newest block, or a new one if that is another block than the log's. The
-- third case of the source, which is an error, is left by neither.
unfoldable pub place : Log → Block → (Block → Block) → List Block → List Block
place vlog fresh add [] = fresh ∷ []
place vlog fresh add (b ∷ bs) = if is_block_of vlog b then add b ∷ bs else fresh ∷ b ∷ bs

-- The order of an event that was just placed: its array in the newest block has `count` entries.
unfoldable pub record_order :
    EventOrder → (Block → ℕ) → (Bytes → List Order) → List Block → Result Events
unfolding append_order
record_order name count orders [] = err panic
record_order name count orders (b ∷ bs) = ok (record {
  blocks = b ∷ bs;
  blocks_order = append_order orders b.block_hash (record { name = name; pos = count b - 1 });
})

abbrev pub with_ger : GlobalExitRoot → Block → Block
with_ger ger b = record b { global_exit_roots = b.global_exit_roots ++ ger ∷ [] }

abbrev pub with_removed : GlobalExitRoot → Block → Block
with_removed ger b = record b { remove_l2_ger = b.remove_l2_ger ++ ger ∷ [] }

abbrev pub with_deposit : Deposit → Block → Block
with_deposit d b = record b { deposits = b.deposits ++ d ∷ [] }

abbrev pub with_claim : Claim → Block → Block
with_claim c b = record b { claims = b.claims ++ c ∷ [] }

abbrev pub with_token : TokenWrapped → Block → Block
with_token t b = record b { tokens = b.tokens ++ t ∷ [] }

abbrev pub with_batch : VerifiedBatch → Block → Block
with_batch v b = record b { verified_batches = b.verified_batches ++ v ∷ [] }

-- A zero `GlobalExitRoot` with the fields that the handlers set.
abbrev pub ger_of : Log → List Bytes → Bytes → ℕ → GlobalExitRoot
ger_of vlog exit_roots root time = record {
  block_id = 0;
  block_number = vlog.block_number;
  exit_roots = exit_roots;
  global_exit_root = root;
  network_id = 0;
  id = 0;
  time = time;
}

unfoldable pub remove_l2_ger_event : Bytes → Log → Events → Result Events
unfolding place record_order
remove_l2_ger_event root vlog es =
    let ger = ger_of vlog [] root 0 in
    record_order remove_l2_ger_order (λ b. length b.remove_l2_ger) es.blocks_order
      (place vlog (with_removed ger (bare_block vlog 0)) (with_removed ger) es.blocks)

unfoldable pub add_sovereign_chain_l2_ger : Bytes → Log → Events → Result Events
unfolding place record_order
add_sovereign_chain_l2_ger root vlog es =
    let ger = ger_of vlog [] root 0 in
    record_order global_exit_roots_order (λ b. length b.global_exit_roots) es.blocks_order
      (place vlog (with_ger ger (bare_block vlog 0)) (with_ger ger) es.blocks)

module _ (bindings : Bindings) where
  -- In nanoseconds; the clock's time if the node does not give the block.
  abbrev pub get_full_block_time : Log → ℕ
  get_full_block_time vlog = elim (bindings.block_time vlog.block_hash) [
    | err e ↦ bindings.now vlog
    | ok seconds ↦ seconds * 1000000000
  ]

  unfoldable pub process_update_global_exit_root_event :
      Bytes → Bytes → Log → Events → Result Events
  unfolding place record_order
  process_update_global_exit_root_event mainnet rollup vlog es =
      let time = get_full_block_time vlog in
      let root = hash bindings.keccak (mainnet ∷ rollup ∷ []) in
      let ger = ger_of vlog (mainnet ∷ rollup ∷ []) root time in
      record_order global_exit_roots_order (λ b. length b.global_exit_roots) es.blocks_order
        (place vlog (with_ger ger (bare_block vlog time)) (with_ger ger) es.blocks)

  -- The roots are the second and the third topic.
  unfoldable pub update_global_exit_root_event : Log → Events → Result Events
  unfolding process_update_global_exit_root_event
  update_global_exit_root_event vlog es = elim (get_elem? vlog.topics 1) [
    | none ↦ err panic
    | some mainnet ↦ elim (get_elem? vlog.topics 2) [
      | none ↦ err panic
      | some rollup ↦ process_update_global_exit_root_event mainnet rollup vlog es
    ]
  ]

  abbrev pub deposit_of : BridgeEvent → Log → Deposit
  deposit_of d vlog = record {
    id = 0;
    leaf_type = d.leaf_type;
    original_network = d.origin_network;
    original_address = d.origin_address;
    amount = d.amount;
    destination_network = d.destination_network;
    destination_address = d.destination_address;
    deposit_count = d.deposit_count;
    block_id = 0;
    block_number = vlog.block_number;
    network_id = 0;
    tx_hash = vlog.tx_hash;
    metadata = d.metadata;
    ready_for_claim = false;
    time = 0;
    ready_time = 0;
    dest_contract_address = zero_address;
  }

  -- The time is set in the copy, after the deposit was appended, where the block is a new one.
  unfoldable pub deposit_event_of : BridgeEvent → Log → Events → Result Events
  unfolding place record_order
  deposit_event_of d vlog es =
      let deposit = deposit_of d vlog in
      let fresh = with_deposit deposit (bare_block vlog (get_full_block_time vlog)) in
      record_order deposits_order (λ b. length b.deposits) es.blocks_order
        (place vlog fresh (λ b. with_deposit (record deposit { time = b.received_at }) b) es.blocks)

  unfoldable pub claim_event_of : Claim → Log → Events → Result Events
  unfolding place record_order
  claim_event_of claim vlog es =
      let fresh = with_claim claim (bare_block vlog (get_full_block_time vlog)) in
      record_order claims_order (λ b. length b.claims) es.blocks_order
        (place vlog fresh (λ b. with_claim (record claim { time = b.received_at }) b) es.blocks)

  unfoldable pub new_claim_event : ClaimEvent → Log → Events → Result Events
  unfolding claim_event_of
  new_claim_event c vlog es = decode_global_index c.global_index >>= (λ index.
      claim_event_of
        (record {
          mainnet_flag = index.mainnet_flag;
          rollup_index = index.rollup_index;
          index = index.local_root_index;
          original_network = c.origin_network;
          original_address = c.origin_address;
          amount = c.amount;
          destination_address = c.destination_address;
          block_id = 0;
          block_number = vlog.block_number;
          network_id = 0;
          tx_hash = vlog.tx_hash;
          time = 0;
        })
        vlog es)

  unfoldable pub old_claim_event_of : OldClaimEvent → Log → Events → Result Events
  unfolding claim_event_of
  old_claim_event_of c vlog es =
      claim_event_of
        (record {
          mainnet_flag = false;
          rollup_index = 0;
          index = c.index;
          original_network = c.origin_network;
          original_address = c.origin_address;
          amount = c.amount;
          destination_address = c.destination_address;
          block_id = 0;
          block_number = vlog.block_number;
          network_id = 0;
          tx_hash = vlog.tx_hash;
          time = 0;
        })
        vlog es

  unfoldable pub token_wrapped_event : NewWrappedToken → Log → Events → Result Events
  unfolding place record_order
  token_wrapped_event tw vlog es =
      let token : TokenWrapped = record {
        name = [];
        symbol = [];
        decimals = 0;
        original_network = tw.origin_network;
        original_token_address = tw.origin_token_address;
        wrapped_token_address = tw.wrapped_token_address;
        block_id = 0;
        block_number = vlog.block_number;
        network_id = 0;
      } in
      let fresh = with_token token (bare_block vlog (get_full_block_time vlog)) in
      record_order tokens_order (λ b. length b.tokens) es.blocks_order
        (place vlog fresh (with_token token) es.blocks)

  unfoldable pub verify_batches : VerifyBatches → Log → Events → Result Events
  unfolding place record_order
  verify_batches vb vlog es =
      let batch : VerifiedBatch = record {
        block_number = vlog.block_number;
        batch_number = vb.num_batch;
        rollup_id = vb.rollup_id;
        local_exit_root = vb.exit_root;
        tx_hash = vlog.tx_hash;
        state_root = vb.state_root;
        aggregator = vb.aggregator;
      } in
      let fresh = with_batch batch (bare_block vlog (get_full_block_time vlog)) in
      record_order verify_batch_order (λ b. length b.verified_batches) es.blocks_order
        (place vlog fresh (with_batch batch) es.blocks)
