-- ===== src/Synchronizer/Blocks.antt =====
-- `processBlockRange` of synchronizer/synchronizer.go: each block in a transaction of its own.
use xlayer_bridge_service.Base.{
  ℕ, ◌+◌, Bool, true, false, not, ◌||◌, Option, none, some, List, [], ◌∷◌, ◌++◌, Result, ok, err,
  Error, invalid_rpc_data, panic, if◌then◌else◌, length, ◌==◌, get_elem?,
}
use xlayer_bridge_service.Etherman.{
  Bytes, Block, Deposit, Claim, GlobalExitRoot, TokenWrapped, VerifiedBatch, bytes_eq, EventOrder,
  Order, global_exit_roots_order, remove_l2_ger_order, deposits_order, claims_order, tokens_order,
  verify_batch_order, other_order,
}
use xlayer_bridge_service.Synchronizer.Events.{
  SyncStorage, SyncBridge, DepositHooks, Handled, handled, rolled_back, left_open, panicked,
  roll_back, process_global_exit_root, process_remove_l2_global_exit_root, process_deposit,
  process_claim, process_token_wrapped, process_verify_batch,
}
pub mod Prefix
pub mod Closed

module _ {S B : Type 0} (storage : SyncStorage S) (bridge : SyncBridge S B)
    (hooks : Option (DepositHooks S)) (network_id : ℕ) (all_network_ids : List ℕ) where
  -- An event of the block at a position; the transaction stays open if there is none.
  abbrev at_pos {ℓ} : {A : Type ℓ} → List A → ℕ → B → (A → B × Handled S) → B × Handled S
  at_pos xs pos b handle = elim (get_elem? xs pos) [
    | none ↦ (b, left_open invalid_rpc_data)
    | some x ↦ handle x
  ]

  -- The handler that the name of the event selects.
  unfoldable pub process_event : S → S → B → Block → ℕ → Order → B × Handled S
  process_event db tx b block block_id order = elim order.name [
    | global_exit_roots_order ↦ at_pos block.global_exit_roots order.pos b (λ ger. (
      b,
      process_global_exit_root storage bridge hooks network_id all_network_ids db tx ger block_id,
    ))
    | remove_l2_ger_order ↦ at_pos block.remove_l2_ger order.pos b (λ ger. (
      b,
      process_remove_l2_global_exit_root storage bridge hooks network_id all_network_ids tx ger
          block_id,
    ))
    | deposits_order ↦
        at_pos block.deposits order.pos b
          (λ d. process_deposit storage bridge hooks network_id all_network_ids tx b d block_id)
    | claims_order ↦
        at_pos block.claims order.pos b
          (λ c. (b, process_claim storage bridge hooks network_id all_network_ids tx c block_id))
    | tokens_order ↦ at_pos block.tokens order.pos b (λ t.
        (b, process_token_wrapped storage bridge hooks network_id all_network_ids tx t block_id))
    | verify_batch_order ↦ at_pos block.verified_batches order.pos b (λ v.
        (b, process_verify_batch storage bridge hooks network_id all_network_ids tx v block_id))
    | other_order ↦ (b, handled tx)
  ]

  unfoldable pub process_events : S → S → B → Block → ℕ → List Order → B × Handled S
  unfolding process_event
  process_events db tx b block block_id [] = (b, handled tx)
  process_events db tx b block block_id (order ∷ orders) =
      let (b', r) = process_event db tx b block block_id order in
      elim r [
        | handled tx' ↦ process_events db tx' b' block block_id orders
        | rolled_back e ↦ (b', rolled_back e)
        | left_open e ↦ (b', left_open e)
        | panicked ↦ (b', panicked)
      ]

  -- The error of a failed commit, or that of the rollback after it.
  abbrev commit_failed : S → Error → Error
  commit_failed tx e = elim (storage.rollback tx) [ err r ↦ r | ok t ↦ e ]

  abbrev end_block : S → B × Handled S → S × B × Result (Unit {0})
  end_block db (b, rolled_back e) = (db, b, err e)
  end_block db (b, left_open e) = (db, b, err e)
  end_block db (b, panicked) = (db, b, err panic)
  end_block db (b, handled tx) = elim (storage.commit tx) [
    | err e ↦ (db, b, err (commit_failed tx e))
    | ok db' ↦ (db', b, ok tt)
  ]

  -- The storage is as before the block unless the block is committed.
  unfoldable pub process_block : (Bytes → List Order) → S → B → Block → S × B × Result (Unit {0})
  unfolding process_events
  process_block orders db b block = elim (storage.begin_db_transaction db) [
    | err e ↦ (db, b, err e)
    | ok tx ↦
        let block' : Block = record block { network_id = network_id } in
        elim (storage.add_block tx block') [
          | err e ↦ (db, b, err (commit_failed tx e))
          | ok (tx', block_id) ↦
              end_block db (process_events db tx' b block' block_id (orders block.block_hash))
        ]
  ]

  -- The loop over the blocks of `processBlockRange`; what comes after it is in `process_block_range`.
  unfoldable pub process_blocks :
      (Bytes → List Order) → S → B → List Block → S × B × Result (Unit {0})
  unfolding process_block
  process_blocks orders db b [] = (db, b, ok tt)
  process_blocks orders db b (block ∷ blocks) =
      let (db', b', r) = process_block orders db b block in
      let (db'', b'', rest) = process_blocks orders db' b' blocks in
      elim r [ err e ↦ (db', b', err e) | ok t ↦ (db'', b'', rest) ]

-- Some event of these brings an exit root with so many parts.
abbrev brings : ℕ → Block → Order → Bool
brings parts block order = elim order.name [
  | global_exit_roots_order ↦ elim (get_elem? block.global_exit_roots order.pos) [
    | none ↦ false
    | some ger ↦ length ger.exit_roots == parts
  ]
  | _ ↦ false
]

unfoldable pub some_brings : ℕ → Block → List Order → Bool
some_brings parts block [] = false
some_brings parts block (order ∷ orders) =
    let rest = some_brings parts block orders in if brings parts block order then true else rest

unfoldable pub new_ger : ℕ → (Bytes → List Order) → List Block → Bool
unfolding some_brings
new_ger parts orders [] = false
new_ger parts orders (block ∷ blocks) =
    let rest = new_ger parts orders blocks in
    if some_brings parts block (orders block.block_hash) then true else rest

-- What the claim managers are sent, and the exit root of the rollups that was sent last.
pub record Sent : Type 0 where
  pub l1_rollup_exit_root : Bytes
  pub l1_gers : List GlobalExitRoot
  pub l2_gers : List GlobalExitRoot

module _ {S B : Type 0} (storage : SyncStorage S) (bridge : SyncBridge S B)
    (hooks : Option (DepositHooks S)) (network_id : ℕ) (all_network_ids : List ℕ) where
  -- The latest exit root of L1, if the root of the rollups in it is another one.
  unfoldable pub send_l1_ger : S → Sent → Result Sent
  send_l1_ger db sent = elim (storage.get_latest_l1_synced_exit_root db) [
    | err e ↦ err e
    | ok ger ↦ elim (get_elem? ger.exit_roots 1) [
      | none ↦ err panic
      | some root ↦
          if bytes_eq sent.l1_rollup_exit_root root
          then ok sent
          else ok (record sent { l1_rollup_exit_root = root; l1_gers = sent.l1_gers ++ ger ∷ [] })
    ]
  ]

  unfoldable pub send_l2_ger : S → Sent → Result Sent
  send_l2_ger db sent = elim (storage.get_latest_trusted_exit_root db network_id) [
    | err e ↦ err e
    | ok ger ↦ ok (record sent { l2_gers = sent.l2_gers ++ ger ∷ [] })
  ]

  -- Exit roots are sent once all blocks are in the storage.
  unfoldable pub process_block_range :
      (Bytes → List Order) → S → B → Sent → List Block → S × B × Sent × Result (Unit {0})
  unfolding process_blocks new_ger send_l1_ger send_l2_ger
  process_block_range orders db b sent blocks =
      let (db', b', r) =
        process_blocks storage bridge hooks network_id all_network_ids orders db b blocks in
      elim r [
        | err e ↦ (db', b', sent, err e)
        | ok t ↦ elim (if new_ger 2 orders blocks then send_l1_ger db' sent else ok sent) [
          | err e ↦ (db', b', sent, err e)
          | ok sent' ↦ elim (if new_ger 0 orders blocks then send_l2_ger db' sent' else ok sent') [
            | err e ↦ (db', b', sent', err e)
            | ok sent'' ↦ (db', b', sent'', ok tt)
          ]
        ]
      ]
