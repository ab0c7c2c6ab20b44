-- ===== src/Synchronizer/Tests.antt =====
-- The theorem on reorganisations at a chain of three blocks, the last two of which it has replaced.
use xlayer_bridge_service.Base.{
  ℕ, ◌==◌, if◌then◌else◌, ◌<◌, ◌+◌, false, ◌≡◌, refl, Option, none, some, [], ◌∷◌, Result, ok, err,
  storage_not_found, arith, List, ◌++◌, outside, true, All, Returns,
}
use xlayer_bridge_service.Etherman.{Bytes, Block, Order, bytes_eq}
use xlayer_bridge_service.Etherman.Read.{get_rollup_info_by_block_range}
use xlayer_bridge_service.Etherman.Tests.{some_bindings, three_logs, three_logs-IsOrdered}
use xlayer_bridge_service.Synchronizer.Blocks.Closed.{IsClosed, read_blocks-IsClosed}
use xlayer_bridge_service.Synchronizer.Reorg.{
  Stored, empty_block, check_reorg, check_loop, hash_on_chain, reorg_to, Reorged, Answers,
}
use xlayer_bridge_service.Synchronizer.Reorg.Search.{check_reorg-Answers}
use xlayer_bridge_service.Synchronizer.Events.{SyncStorage, SyncBridge}
use xlayer_bridge_service.Synchronizer.Blocks.{
  process_block, process_blocks, process_events, process_block_range, Sent,
}
use xlayer_bridge_service.Synchronizer.SyncBlocks.{
  SyncCalls, SyncSettings, sync_blocks, sync_loop, sync_round, read_range, with_range, with_genesis,
  store_range, next_round,
}
use xlayer_bridge_service.Synchronizer.SyncBlocks.Ends.{Ends, sync_blocks-Ends}

abbrev stored_block : ℕ → ℕ → Block
stored_block number hash = record empty_block { block_number = number; block_hash = hash ∷ [] }

abbrev previous : ℕ → Result Block
previous n =
    if n == 1
    then ok (stored_block 20 2)
    else if n == 2
    then ok (stored_block 10 1)
    else err storage_not_found

abbrev replaced : Stored
replaced = record {
  header_by_number = λ n. ok (n, 1 ∷ []);
  get_previous_block = previous;
  gen_block_number = 5;
}

check_reorg_run :
    check_reorg replaced 3 (stored_block 30 3) none ≡ some (ok (some (stored_block 10 1)))
unfolding check_reorg check_loop hash_on_chain reorg_to bytes_eq
check_reorg_run = refl

check_reorg-Answers_example :
    (r : Result (Option Block)) × (k : ℕ) × (check_reorg replaced 3 (stored_block 30 3) none
      ≡ some r)
    × ((j : ℕ) → j < k → Reorged replaced (stored_block 30 3) none j)
    × Answers replaced (stored_block 30 3) none k r
check_reorg-Answers_example =
    check_reorg-Answers replaced 3 (stored_block 30 3) none (omega arith) refl

abbrev add_number : List ℕ → Block → Result (List ℕ × ℕ)
add_number s block =
    if block.block_number == 13 then err (outside 1) else ok (s ++ block.block_number ∷ [], 0)

-- A storage that keeps the numbers of blocks and takes no block 13.
abbrev numbers : SyncStorage (List ℕ)
numbers = record {
  begin_db_transaction = λ s. ok s;
  commit = λ s. ok s;
  rollback = λ s. ok tt;
  add_block = add_number;
  add_global_exit_root = λ s g. ok s;
  get_l1_exit_root_by_ger = λ s h. err storage_not_found;
  get_l2_exit_roots_by_ger = λ s h. err storage_not_found;
  update_l2_ger = λ s g. ok s;
  add_remove_l2_ger = λ s g. ok s;
  add_deposit_xlayer = λ s d. ok (s, 0);
  add_claim = λ s c. ok s;
  add_token_wrapped = λ s t. ok s;
  check_if_root_exists = λ s h n. ok true;
  get_latest_l1_synced_exit_root = λ s. err storage_not_found;
  get_latest_trusted_exit_root = λ s n. err storage_not_found;
}

abbrev no_tree : SyncBridge (List ℕ) (Unit {0})
no_tree = record { add_deposit = λ s b d id. (b, ok s); add_rollup_exit_leaf = λ s leaf. ok s }

abbrev three_blocks : List Block
three_blocks = stored_block 12 1 ∷ stored_block 13 2 ∷ stored_block 14 3 ∷ []

process_blocks_run :
    process_blocks numbers no_tree none 0 [] (λ h. []) [] tt three_blocks
    ≡ (12 ∷ [], tt, err (outside 1))
unfolding process_blocks process_block process_events
process_blocks_run = refl

abbrev none_sent : Sent
none_sent = record { l1_rollup_exit_root = []; l1_gers = []; l2_gers = [] }

read_blocks-IsClosed_example :
    Returns
      (λ (r : List Block × (Bytes → List Order)).
        All
          (λ (block : Block).
            IsClosed
              (process_events numbers no_tree none 1 [] [] [] tt
                (record block { network_id = 1 })
                0
                (r.1 block.block_hash)).1)
          r.0)
      (get_rollup_info_by_block_range some_bindings (ok three_logs))
read_blocks-IsClosed_example =
    read_blocks-IsClosed numbers no_tree none 1 [] some_bindings three_logs three_logs-IsOrdered []
      [] tt 0

-- A node whose latest block is 25, and a state that counts the ranges that are stored.
abbrev counted : SyncCalls ℕ
counted = record {
  latest_header = λ n. (n, ok 25);
  header_at = λ n number. (n, ok (number, 1 ∷ []));
  check_reorg = λ n b received. (n, ok none);
  reset_state = λ n number. (n, ok tt);
  get_rollup_info = λ n from to. (n, ok (stored_block from 1 ∷ stored_block to 1 ∷ [], λ h. []));
  get_previous_block = λ n. err storage_not_found;
  process_block_range = λ n orders blocks. (n + 1, ok tt);
}

abbrev tens : SyncSettings
tens = record { sync_chunk_size = 9; gen_block_number = 1; force_sync_chunk = false }

-- Blocks 1 to 10, then 11 to 20, then from the last block that is synced to 25.
sync_blocks_run :
    sync_blocks counted tens 26 0 false empty_block ≡ some (3, true, stored_block 25 1, ok tt)
unfolding sync_blocks sync_loop sync_round read_range with_range with_genesis store_range next_round
sync_blocks_run = refl

sync_blocks-Ends_example : Ends (sync_blocks counted tens 26 0 false empty_block)
sync_blocks-Ends_example =
    sync_blocks-Ends counted tens 25 (omega arith) (omega arith) (λ n. refl) 26 0 false empty_block
      (omega arith)
