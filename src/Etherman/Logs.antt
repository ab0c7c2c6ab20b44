-- ===== src/Etherman/Logs.antt =====
-- A log of a node (`types.Log` of go-ethereum) and the events that the generated bindings of the
-- contracts parse from it.
use xlayer_bridge_service.Base.{ℕ, List, Result}
use xlayer_bridge_service.Etherman.{Bytes}

pub record Log : Type 0 where
  pub topics : List Bytes
  pub contents : Bytes
  pub block_number : ℕ
  pub block_hash : Bytes
  pub tx_hash : Bytes

-- The events of the signatures that `processEvent` handles, in the order of its cases.
pub data Kind : Type 0 where
  update_global_exit_root update_l1_info_tree deposit_event claim_event old_claim_event : Kind
  new_wrapped_token_event verify_batches_trusted_aggregator : Kind
  rollup_manager_verify_batches insert_global_exit_root remove_last_global_exit_root : Kind
  update_hash_chain_value update_removal_hash_chain_value : Kind

pub record L1InfoTreeEvent : Type 0 where
  pub mainnet_exit_root : Bytes
  pub rollup_exit_root : Bytes

pub record BridgeEvent : Type 0 where
  pub leaf_type : ℕ
  pub origin_network : ℕ
  pub origin_address : Bytes
  pub destination_network : ℕ
  pub destination_address : Bytes
  pub amount : ℕ
  pub metadata : Bytes
  pub deposit_count : ℕ

pub record ClaimEvent : Type 0 where
  pub global_index : ℕ
  pub origin_network : ℕ
  pub origin_address : Bytes
  pub destination_address : Bytes
  pub amount : ℕ

pub record OldClaimEvent : Type 0 where
  pub index : ℕ
  pub origin_network : ℕ
  pub origin_address : Bytes
  pub destination_address : Bytes
  pub amount : ℕ

pub record NewWrappedToken : Type 0 where
  pub origin_network : ℕ
  pub origin_token_address : Bytes
  pub wrapped_token_address : Bytes

pub record VerifyBatches : Type 0 where
  pub rollup_id : ℕ
  pub num_batch : ℕ
  pub state_root : Bytes
  pub exit_root : Bytes
  pub aggregator : Bytes

-- What the client calls: the parsers of the bindings, the time of a log's block, Keccak-256 and the
-- hash of an event's signature.
pub record Bindings : Type 0 where
  pub signature_hash : Kind → Bytes
  pub keccak : Bytes → Bytes
  pub parse_update_l1_info_tree : Log → Result L1InfoTreeEvent
  pub parse_bridge_event : Log → Result BridgeEvent
  pub parse_claim_event : Log → Result ClaimEvent
  pub parse_old_claim_event : Log → Result OldClaimEvent
  pub parse_new_wrapped_token : Log → Result NewWrappedToken
  pub parse_verify_batches_trusted_aggregator : Log → Result VerifyBatches
  pub parse_verify_batches : Log → Result VerifyBatches
  pub parse_insert_global_exit_root : Log → Result Bytes
  pub parse_remove_last_global_exit_root : Log → Result Bytes
  pub parse_update_hash_chain_value : Log → Result Bytes
  pub parse_update_removal_hash_chain_value : Log → Result Bytes
  -- `BlockByHash`: the seconds of the block's header.
  pub block_time : Bytes → Result ℕ
  -- `time.Now`, read while the log is handled.
  pub now : Log → ℕ
