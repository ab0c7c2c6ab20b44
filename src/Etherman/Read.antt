-- ===== src/Etherman/Read.antt =====
-- processEvent, readEvents and GetRollupInfoByBlockRange of etherman/etherman.go.
use mathlib.Core.List.{reverse}
use xlayer_bridge_service.Base.{
  Option, none, some, List, [], ◌∷◌, Result, ok, err, ◌>>=◌, panic, if◌then◌else◌, get_elem?,
}
use xlayer_bridge_service.Etherman.{Bytes, Block, Order, bytes_eq}
use xlayer_bridge_service.Etherman.Logs.{
  Log, Kind, Bindings, update_global_exit_root, update_l1_info_tree, deposit_event, claim_event,
  old_claim_event, new_wrapped_token_event, verify_batches_trusted_aggregator,
  rollup_manager_verify_batches, insert_global_exit_root, remove_last_global_exit_root,
  update_hash_chain_value, update_removal_hash_chain_value,
}
use xlayer_bridge_service.Etherman.Events.{
  Events, update_global_exit_root_event, process_update_global_exit_root_event, deposit_event_of,
  new_claim_event, old_claim_event_of, token_wrapped_event, verify_batches,
  add_sovereign_chain_l2_ger, remove_l2_ger_event,
}

-- The cases of `processEvent` that are not left without effect, in their order.
abbrev pub kinds : List Kind
kinds =
    update_global_exit_root ∷ update_l1_info_tree ∷ deposit_event ∷ claim_event ∷ old_claim_event
    ∷ new_wrapped_token_event ∷ verify_batches_trusted_aggregator ∷ rollup_manager_verify_batches
    ∷ insert_global_exit_root ∷ remove_last_global_exit_root ∷ update_hash_chain_value
    ∷ update_removal_hash_chain_value ∷ []

-- The first case whose signature has this hash.
unfoldable pub case_of : (Kind → Bytes) → Bytes → List Kind → Option Kind
case_of signature_hash topic [] = none
case_of signature_hash topic (k ∷ ks) =
    let rest = case_of signature_hash topic ks in
    if bytes_eq topic (signature_hash k) then some k else rest

module _ (bindings : Bindings) where
  unfoldable pub handle_event : Kind → Log → Events → Result Events
  handle_event kind vlog es = elim kind [
    | update_global_exit_root ↦ update_global_exit_root_event bindings vlog es
    | update_l1_info_tree ↦ bindings.parse_update_l1_info_tree vlog >>= (λ roots.
        process_update_global_exit_root_event bindings roots.mainnet_exit_root
          roots.rollup_exit_root vlog es)
    | deposit_event ↦
        bindings.parse_bridge_event vlog >>= (λ d. deposit_event_of bindings d vlog es)
    | claim_event ↦ bindings.parse_claim_event vlog >>= (λ c. new_claim_event bindings c vlog es)
    | old_claim_event ↦
        bindings.parse_old_claim_event vlog >>= (λ c. old_claim_event_of bindings c vlog es)
    | new_wrapped_token_event ↦
        bindings.parse_new_wrapped_token vlog >>= (λ tw. token_wrapped_event bindings tw vlog es)
    | verify_batches_trusted_aggregator ↦
        bindings.parse_verify_batches_trusted_aggregator vlog
        >>= (λ vb. verify_batches bindings vb vlog es)
    | rollup_manager_verify_batches ↦
        bindings.parse_verify_batches vlog >>= (λ vb. verify_batches bindings vb vlog es)
    | insert_global_exit_root ↦
        bindings.parse_insert_global_exit_root vlog
        >>= (λ root. add_sovereign_chain_l2_ger root vlog es)
    | remove_last_global_exit_root ↦
        bindings.parse_remove_last_global_exit_root vlog
        >>= (λ root. remove_l2_ger_event root vlog es)
    | update_hash_chain_value ↦
        bindings.parse_update_hash_chain_value vlog
        >>= (λ root. add_sovereign_chain_l2_ger root vlog es)
    | update_removal_hash_chain_value ↦
        bindings.parse_update_removal_hash_chain_value vlog
        >>= (λ root. remove_l2_ger_event root vlog es)
  ]

  -- The other signatures of the switch, and all that it does not name, change nothing.
  unfoldable pub process_event_log : Log → Events → Result Events
  unfolding handle_event case_of
  process_event_log vlog es = elim (get_elem? vlog.topics 0) [
    | none ↦ err panic
    | some topic ↦ elim (case_of bindings.signature_hash topic kinds) [
      | none ↦ ok es
      | some kind ↦ handle_event kind vlog es
    ]
  ]

  unfoldable pub read_logs : List Log → Events → Result Events
  unfolding process_event_log
  read_logs [] es = ok es
  read_logs (vlog ∷ logs) es = process_event_log vlog es >>= (λ es'. read_logs logs es')

  abbrev pub no_events : Events
  no_events = record { blocks = []; blocks_order = λ h. [] }

  abbrev pub in_order : Events → List Block × (Bytes → List Order)
  in_order es = (reverse es.blocks, es.blocks_order)

  -- `filter_logs` is the node's answer to the query of a range of blocks.
  unfoldable pub get_rollup_info_by_block_range :
      Result (List Log) → Result (List Block × (Bytes → List Order))
  unfolding read_logs
  get_rollup_info_by_block_range filter_logs =
      filter_logs >>= (λ logs. read_logs logs no_events >>= (λ es. ok (in_order es)))
