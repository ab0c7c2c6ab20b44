-- ===== src/Etherman/Tests.antt =====
-- The reading of three logs: two of block 10, one of block 11.
use xlayer_bridge_service.Base.{
  ℕ, ◌+◌, ◌^◌, false, List, [], ◌∷◌, Result, ok, err, outside, ◌≡◌, refl, arith, length, All,
  Returns, if◌then◌else◌, leb, panic,
}
use xlayer_bridge_service.Etherman.{Bytes, Block, Order, bytes_eq}
use xlayer_bridge_service.Etherman.Logs.{
  Log, Kind, Bindings, update_global_exit_root, deposit_event, insert_global_exit_root,
}
use xlayer_bridge_service.Etherman.GlobalIndex.{decode_global_index, generate_global_index}
use xlayer_bridge_service.Etherman.GlobalIndex.Roundtrip.{
  fields_of, decode_global_index-fields_of, decode_global_index-generate_global_index,
}
use xlayer_bridge_service.Etherman.Events.{
  append_order, place, record_order, deposit_event_of, add_sovereign_chain_l2_ger,
  update_global_exit_root_event, process_update_global_exit_root_event,
}
use xlayer_bridge_service.Etherman.Read.{
  case_of, handle_event, process_event_log, read_logs, get_rollup_info_by_block_range,
}
use xlayer_bridge_service.Etherman.Placing.{IsOrdered, IsWellPlaced}
use xlayer_bridge_service.Etherman.Reading.{get_rollup_info_by_block_range-IsWellPlaced}

abbrev pub signature_of : Kind → Bytes
signature_of kind = elim kind [
  | update_global_exit_root ↦ 1 ∷ []
  | deposit_event ↦ 3 ∷ []
  | insert_global_exit_root ↦ 9 ∷ []
  | _ ↦ 99 ∷ []
]

-- Every deposit is the same; other events do not parse.
abbrev pub some_bindings : Bindings
some_bindings = record {
  signature_hash = signature_of;
  keccak = λ bs. bs;
  parse_update_l1_info_tree = λ l. err (outside 0);
  parse_bridge_event = λ l. ok (record {
    leaf_type = 0;
    origin_network = 0;
    origin_address = [];
    destination_network = 1;
    destination_address = [];
    amount = 5;
    metadata = [];
    deposit_count = 0;
  });
  parse_claim_event = λ l. err (outside 0);
  parse_old_claim_event = λ l. err (outside 0);
  parse_new_wrapped_token = λ l. err (outside 0);
  parse_verify_batches_trusted_aggregator = λ l. err (outside 0);
  parse_verify_batches = λ l. err (outside 0);
  parse_insert_global_exit_root = λ l. ok (7 ∷ []);
  parse_remove_last_global_exit_root = λ l. err (outside 0);
  parse_update_hash_chain_value = λ l. err (outside 0);
  parse_update_removal_hash_chain_value = λ l. err (outside 0);
  block_time = λ h. ok 3;
  now = λ l. 0;
}

abbrev pub log_of : ℕ → List Bytes → Log
log_of number topics = record {
  topics = topics;
  contents = [];
  block_number = number;
  block_hash = number ∷ [];
  tx_hash = [];
}

abbrev pub three_logs : List Log
three_logs =
    log_of 10 ((3 ∷ []) ∷ [])
    ∷ log_of 10 ((9 ∷ []) ∷ [])
    ∷ log_of 11 ((1 ∷ []) ∷ (4 ∷ []) ∷ (5 ∷ []) ∷ [])
    ∷ []

pub three_logs-IsOrdered : IsOrdered three_logs
unfolding IsOrdered bytes_eq
three_logs-IsOrdered =
    (((omega arith, refl), ((omega arith, refl), tt)), (((omega arith, refl), tt), (tt, tt)))

get_rollup_info_by_block_range-IsWellPlaced_example :
    Returns
      (λ (r : List Block × (Bytes → List Order)). All (IsWellPlaced r.1) r.0)
      (get_rollup_info_by_block_range some_bindings (ok three_logs))
get_rollup_info_by_block_range-IsWellPlaced_example =
    get_rollup_info_by_block_range-IsWellPlaced some_bindings three_logs three_logs-IsOrdered

decode_global_index-fields_of_example :
    decode_global_index (2 ^ 64 + 77)
    ≡ (if leb (2 ^ 256) (2 ^ 64 + 77) then err panic else ok (fields_of (2 ^ 64 + 77)))
decode_global_index-fields_of_example = decode_global_index-fields_of (2 ^ 64 + 77)

decode_global_index-generate_global_index_example :
    decode_global_index (generate_global_index false 3 77)
    ≡ ok (record { mainnet_flag = false; rollup_index = 3; local_root_index = 77 })
decode_global_index-generate_global_index_example =
    decode_global_index-generate_global_index false 3 77 (omega arith) (omega arith)

abbrev sizes : List Block → List (ℕ × ℕ)
sizes [] = []
sizes (b ∷ bs) = (length b.deposits, length b.global_exit_roots) ∷ sizes bs

abbrev summary : Result (List Block × (Bytes → List Order)) → Result (List (ℕ × ℕ) × ℕ × ℕ)
summary (err e) = err e
summary (ok (blocks, orders)) =
    ok (sizes blocks, length (orders (10 ∷ [])), length (orders (11 ∷ [])))

three_logs_run :
    summary (get_rollup_info_by_block_range some_bindings (ok three_logs))
    ≡ ok ((1, 1) ∷ (0, 1) ∷ [], 2, 1)
unfolding get_rollup_info_by_block_range read_logs process_event_log case_of handle_event
    deposit_event_of add_sovereign_chain_l2_ger update_global_exit_root_event
    process_update_global_exit_root_event place record_order append_order bytes_eq
three_logs_run = refl

-- The time of the first deposit of a block is lost.
abbrev first_time : Result (List Block × (Bytes → List Order)) → Result ℕ
first_time (ok ((b ∷ bs), orders)) = elim b.deposits [ [] ↦ err panic | d ∷ ds ↦ ok d.time ]
first_time r = err panic

first_deposit_time :
    first_time (get_rollup_info_by_block_range some_bindings (ok three_logs)) ≡ ok 0
unfolding get_rollup_info_by_block_range read_logs process_event_log case_of handle_event
    deposit_event_of add_sovereign_chain_l2_ger update_global_exit_root_event
    process_update_global_exit_root_event place record_order append_order bytes_eq
first_deposit_time = refl
