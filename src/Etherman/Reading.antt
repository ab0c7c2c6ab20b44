-- ===== src/Etherman/Reading.antt =====
-- What GetRollupInfoByBlockRange of etherman/etherman.go promises to the synchronizer.
use xlayer_bridge_service.Base.{
  List, [], ◌∷◌, Result, ok, panic, All, Returns, Returns-bind, Returns-Unit, Returns-elim,
  All-reverse_aux, get_elem?, Option, none, some, refl, All-map, ◌>>=◌,
}
use xlayer_bridge_service.Etherman.{Bytes, Block, Order}
use xlayer_bridge_service.Etherman.Logs.{
  Log, Kind, Bindings, update_global_exit_root, update_l1_info_tree, deposit_event, claim_event,
  old_claim_event, new_wrapped_token_event, verify_batches_trusted_aggregator,
  rollup_manager_verify_batches, insert_global_exit_root, remove_last_global_exit_root,
  update_hash_chain_value, update_removal_hash_chain_value,
}
use xlayer_bridge_service.Etherman.Events.{Events}
use xlayer_bridge_service.Etherman.Read.{
  handle_event, process_event_log, read_logs, get_rollup_info_by_block_range, case_of, kinds,
  no_events,
}
use xlayer_bridge_service.Etherman.Placing.{
  Follows, IsOrdered, AreApart, IsWellPlaced, Reads, AheadOf,
}
use xlayer_bridge_service.Etherman.Handlers.{
  remove_l2_ger_event-Reads, add_sovereign_chain_l2_ger-Reads, deposit_event_of-Reads,
  process_update_global_exit_root_event-Reads, update_global_exit_root_event-Reads,
  new_claim_event-Reads, old_claim_event_of-Reads, token_wrapped_event-Reads, verify_batches-Reads,
}

-- The event parsed, whatever it is.
parsed {ℓ} :
    {A : Type ℓ} {B : Type 0} (P : B → Type 0) (r : Result A) (f : A → Result B)
    → ((a : A) → Returns P (f a))
    → Returns P (r >>= f)
parsed P r f p = Returns-bind (λ a. Unit {0}) P r f (Returns-Unit r) (λ a t. p a)

module _ (bindings : Bindings) where
  module _ (vlog : Log) (logs : List Log) (es : Events)
      (follow : All (Follows vlog.block_hash vlog.block_number) logs)
      (r : Reads (vlog ∷ logs) es) where
    handle_event-Reads : (kind : Kind) → Returns (Reads logs) (handle_event bindings kind vlog es)
    unfolding handle_event
    handle_event-Reads update_global_exit_root =
        update_global_exit_root_event-Reads vlog logs es follow r bindings
    handle_event-Reads update_l1_info_tree =
        parsed (Reads logs) _ _
          (λ roots. process_update_global_exit_root_event-Reads vlog logs es follow r bindings _ _)
    handle_event-Reads deposit_event =
        parsed (Reads logs) _ _ (deposit_event_of-Reads vlog logs es follow r bindings)
    handle_event-Reads claim_event =
        parsed (Reads logs) _ _ (new_claim_event-Reads vlog logs es follow r bindings)
    handle_event-Reads old_claim_event =
        parsed (Reads logs) _ _ (old_claim_event_of-Reads vlog logs es follow r bindings)
    handle_event-Reads new_wrapped_token_event =
        parsed (Reads logs) _ _ (token_wrapped_event-Reads vlog logs es follow r bindings)
    handle_event-Reads verify_batches_trusted_aggregator =
        parsed (Reads logs) _ _ (verify_batches-Reads vlog logs es follow r bindings)
    handle_event-Reads rollup_manager_verify_batches =
        parsed (Reads logs) _ _ (verify_batches-Reads vlog logs es follow r bindings)
    handle_event-Reads insert_global_exit_root =
        parsed (Reads logs) _ _ (add_sovereign_chain_l2_ger-Reads vlog logs es follow r)
    handle_event-Reads remove_last_global_exit_root =
        parsed (Reads logs) _ _ (remove_l2_ger_event-Reads vlog logs es follow r)
    handle_event-Reads update_hash_chain_value =
        parsed (Reads logs) _ _ (add_sovereign_chain_l2_ger-Reads vlog logs es follow r)
    handle_event-Reads update_removal_hash_chain_value =
        parsed (Reads logs) _ _ (remove_l2_ger_event-Reads vlog logs es follow r)

    -- A log that is passed over changes nothing.
    Reads-pass : Reads logs es
    Reads-pass = record {
      ahead = All-map (AheadOf (vlog ∷ logs)) (AheadOf logs) es.blocks (λ c f. f.1) r.ahead;
      apart = r.apart;
      placed = r.placed;
      no_order = r.no_order;
    }

    of_case :
        (kind : Option Kind)
        → Returns
            (Reads logs)
            (elim kind [ none ↦ ok es | some k ↦ handle_event bindings k vlog es ])
    of_case none = Reads-pass
    of_case (some k) = handle_event-Reads k

    process_event_log-Reads : Returns (Reads logs) (process_event_log bindings vlog es)
    unfolding process_event_log
    process_event_log-Reads =
        Returns-elim (Reads logs) panic (get_elem? vlog.topics 0) _
          (λ topic. of_case (case_of bindings.signature_hash topic kinds))

  read_logs-Reads :
      (logs : List Log) (es : Events)
      → IsOrdered logs
      → Reads logs es
      → Returns (Reads []) (read_logs bindings logs es)
  unfolding read_logs IsOrdered
  read_logs-Reads [] es ordered r = r
  read_logs-Reads (vlog ∷ logs) es ordered r =
      Returns-bind (Reads logs) (Reads []) (process_event_log bindings vlog es) _
        (process_event_log-Reads vlog logs es ordered.0 r)
        (λ es' r'. read_logs-Reads logs es' ordered.1 r')

  Reads-nothing : (logs : List Log) → Reads logs (no_events bindings)
  unfolding AreApart
  Reads-nothing logs = record { ahead = tt; apart = tt; placed = tt; no_order = λ h all. refl }

  -- Of logs in the order of their blocks, where blocks of one number have one hash and blocks of
  -- two numbers two: if no event fails to parse, the orders of a block give, for each kind of event, the positions
  -- of the block's array of that kind one after the other from the first to the last, and every exit
  -- root of the block has two parts or none.
  pub get_rollup_info_by_block_range-IsWellPlaced :
      (logs : List Log)
      → IsOrdered logs
      → Returns
          (λ (r : List Block × (Bytes → List Order)). All (IsWellPlaced r.1) r.0)
          (get_rollup_info_by_block_range bindings (ok logs))
  unfolding get_rollup_info_by_block_range
  get_rollup_info_by_block_range-IsWellPlaced logs ordered =
      Returns-bind (Reads [])
        (λ (r : List Block × (Bytes → List Order)). All (IsWellPlaced r.1) r.0)
        (read_logs bindings logs (no_events bindings)) _
        (read_logs-Reads logs (no_events bindings) ordered (Reads-nothing logs))
        (λ es r. All-reverse_aux (IsWellPlaced es.blocks_order) es.blocks [] r.placed tt)
