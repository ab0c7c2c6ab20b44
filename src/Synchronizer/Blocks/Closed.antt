-- ===== src/Synchronizer/Blocks/Closed.antt =====
-- The events that etherman read are handled without leaving a transaction open.
use xlayer_bridge_service.Base.{
  ℕ, ◌<◌, true, false, Option, some, List, [], ◌∷◌, Result, ok, err, Error, root_not_found, panic,
  not, if_both, length, ◌==◌, get_elem?, All, Returns, All-map, Returns-map, All-get_elem?,
  get_elem?_within, ◌≡◌, inl, inr, arith, Result-cases, Option-cases,
}
use xlayer_bridge_service.Etherman.{
  Bytes, Block, Deposit, Claim, TokenWrapped, VerifiedBatch, GlobalExitRoot, Order, EventOrder,
  global_exit_roots_order, remove_l2_ger_order, deposits_order, claims_order, tokens_order,
  verify_batch_order, other_order, zero_digest, bytes_eq,
}
use xlayer_bridge_service.Etherman.Logs.{Log, Bindings}
use xlayer_bridge_service.Etherman.Read.{get_rollup_info_by_block_range}
use xlayer_bridge_service.Etherman.Reading.{get_rollup_info_by_block_range-IsWellPlaced}
use xlayer_bridge_service.Etherman.Placing.{IsOrdered, InBlock, HasParts, IsWellPlaced, count_of}
use xlayer_bridge_service.Synchronizer.Events.{
  SyncStorage, SyncBridge, DepositHooks, Handled, handled, rolled_back, left_open, panicked,
  roll_back, or_roll_back, process_global_exit_root, process_remove_l2_global_exit_root,
  process_deposit, process_claim, process_token_wrapped, process_verify_batch, update_gers, before,
  after, no_gers_if_missing, completed_by, root_known,
}
use xlayer_bridge_service.Synchronizer.Blocks.{at_pos, process_event, process_events}

-- The transaction goes on or was rolled back, unless a call panicked.
pub data IsClosed {S : Type 0} : Handled S → Type 0 where
  goes_on : (tx : S) → IsClosed (handled tx)
  is_rolled_back : (e : Error) → IsClosed (rolled_back e)
  is_panic : IsClosed panicked

module _ {S B : Type 0} (storage : SyncStorage S) (bridge : SyncBridge S B)
    (hooks : Option (DepositHooks S)) (network_id : ℕ) (all_network_ids : List ℕ) where
  of_rollback :
      (r : Result (Unit {0})) (e : Error)
      → IsClosed (elim r as (λ q. Handled S) [ err x ↦ rolled_back x | ok t ↦ rolled_back e ])
  of_rollback (ok t) e = is_rolled_back e
  of_rollback (err x) e = is_rolled_back x

  roll_back-IsClosed :
      (tx : S) (e : Error)
      → IsClosed (roll_back storage bridge hooks network_id all_network_ids tx e)
  roll_back-IsClosed tx panic = is_panic
  roll_back-IsClosed tx e = of_rollback (storage.rollback tx) e

  -- A step that rolls back where a call failed.
  elim_result-IsClosed :
      {A : Type 0} (r : Result A) (tx : S) (f : A → Handled S)
      → ((a : A) → IsClosed (f a))
      → IsClosed (elim r [
        | err e ↦ roll_back storage bridge hooks network_id all_network_ids tx e
        | ok a ↦ f a
      ])
  elim_result-IsClosed (err e) tx f closed = roll_back-IsClosed tx e
  elim_result-IsClosed (ok a) tx f closed = closed a

  or_roll_back-IsClosed :
      (tx : S) (r : Result S)
      → IsClosed (or_roll_back storage bridge hooks network_id all_network_ids tx r)
  or_roll_back-IsClosed tx r = elim_result-IsClosed r tx _ goes_on

  process_global_exit_root-IsClosed :
      (db tx : S) (ger : GlobalExitRoot) (block_id : ℕ)
      → HasParts ger
      → IsClosed (
          process_global_exit_root storage bridge hooks network_id all_network_ids db tx ger
            block_id)
  unfolding process_global_exit_root
  process_global_exit_root-IsClosed db tx ger block_id (inl none_of) =
      let no_two : (length ger.exit_roots == 2) ≡ false = ground (arith, none_of) in
      let zero_parts : (length ger.exit_roots == 0) ≡ true = ground (arith, none_of) in
      let completed =
        completed_by storage bridge hooks network_id all_network_ids
          (record ger { block_id = block_id; network_id = network_id })
          (storage.get_l1_exit_root_by_ger db ger.global_exit_root) in
      rw (no_two, zero_parts)
        (elim_result-IsClosed completed tx
          (λ stored.
            or_roll_back storage bridge hooks network_id all_network_ids tx
              (storage.add_global_exit_root tx stored))
          (λ stored. or_roll_back-IsClosed tx _))
  process_global_exit_root-IsClosed db tx ger block_id (inr both) =
      let two : (length ger.exit_roots == 2) ≡ true = ground (arith, both) in
      let stored : GlobalExitRoot = record ger { block_id = block_id; network_id = network_id } in
      let gers =
        no_gers_if_missing storage bridge hooks network_id all_network_ids
          (storage.get_l2_exit_roots_by_ger db ger.global_exit_root) in
      rw two (
        elim_result-IsClosed gers tx _ (λ found.
          elim_result-IsClosed
            (update_gers storage bridge hooks network_id all_network_ids tx ger.exit_roots found) tx
            (λ tx'.
              or_roll_back storage bridge hooks network_id all_network_ids tx'
                (storage.add_global_exit_root tx' stored))
            (λ tx'. or_roll_back-IsClosed tx' _)))

  after-IsClosed :
      (tx : S) (d : Deposit) (deposit_id : ℕ)
      → IsClosed (after storage bridge hooks network_id all_network_ids tx d deposit_id)
  after-IsClosed tx d deposit_id = elim (Option-cases hooks) [
    | inl none_set ↦ rw (none_set, after) (goes_on tx)
    | inr (h, set_to) ↦ simp (set_to, after) (or_roll_back-IsClosed tx _)
  ]

  process_deposit-IsClosed :
      (tx : S) (b : B) (d : Deposit) (block_id : ℕ)
      → IsClosed (process_deposit storage bridge hooks network_id all_network_ids tx b d block_id).1
  unfolding process_deposit
  process_deposit-IsClosed tx b deposit block_id =
      let d : Deposit = record (before storage bridge hooks network_id all_network_ids deposit) {
        block_id = block_id;
        network_id = network_id;
      } in
      elim (Result-cases (storage.add_deposit_xlayer tx d)) [
        | inr (e, failed) ↦ rw (failed, process_deposit) (roll_back-IsClosed tx e)
        | inl (added, stored) ↦
            rw (stored, process_deposit)
              (elim_result-IsClosed (bridge.add_deposit added.0 b d added.1).1 added.0 _
                (λ tx''. after-IsClosed tx'' d added.1))
      ]

  process_verify_batch-IsClosed :
      (tx : S) (batch : VerifiedBatch) (block_id : ℕ)
      → IsClosed
          (process_verify_batch storage bridge hooks network_id all_network_ids tx batch block_id)
  unfolding process_verify_batch
  process_verify_batch-IsClosed tx batch block_id =
      if_both IsClosed (bytes_eq batch.local_exit_root zero_digest) (goes_on tx) (
        elim_result-IsClosed (root_known storage bridge hooks network_id all_network_ids tx batch)
          tx _
          (λ known.
            if_both IsClosed (not known) (roll_back-IsClosed tx root_not_found)
              (or_roll_back-IsClosed tx _)))

  process_remove_l2_global_exit_root-IsClosed :
      (tx : S) (ger : GlobalExitRoot) (block_id : ℕ)
      → IsClosed (
          process_remove_l2_global_exit_root storage bridge hooks network_id all_network_ids tx ger
            block_id)
  unfolding process_remove_l2_global_exit_root
  process_remove_l2_global_exit_root-IsClosed tx ger block_id = or_roll_back-IsClosed tx _

  process_claim-IsClosed :
      (tx : S) (c : Claim) (block_id : ℕ)
      → IsClosed (process_claim storage bridge hooks network_id all_network_ids tx c block_id)
  unfolding process_claim
  process_claim-IsClosed tx c block_id =
      elim_result-IsClosed
        (storage.add_claim tx (record c { block_id = block_id; network_id = network_id })) tx _
        (λ tx'. goes_on _)

  process_token_wrapped-IsClosed :
      (tx : S) (t : TokenWrapped) (block_id : ℕ)
      → IsClosed
          (process_token_wrapped storage bridge hooks network_id all_network_ids tx t block_id)
  unfolding process_token_wrapped
  process_token_wrapped-IsClosed tx t block_id = or_roll_back-IsClosed tx _

  -- What follows an event that went on.
  then_rest :
      (r : Handled S) (b : B) (next : S → B → B × Handled S)
      → IsClosed r
      → ((tx : S) (b' : B) → IsClosed (next tx b').1)
      → IsClosed
          (elim r as (λ x. B × Handled S) [
            | handled tx' ↦ next tx' b
            | rolled_back e ↦ (b, rolled_back e)
            | left_open e ↦ (b, left_open e)
            | panicked ↦ (b, panicked)
          ]).1
  then_rest (handled tx') b next closed rest = rest tx' b
  then_rest (rolled_back e) b next closed rest = is_rolled_back e
  then_rest panicked b next closed rest = is_panic
  then_rest (left_open e) b next closed rest = elim closed [ ]

  at_pos-IsClosed {ℓ} :
      {A : Type ℓ} (xs : List A) (pos : ℕ) (b : B) (handle : A → B × Handled S)
      → pos < length xs
      → ((x : A) → get_elem? xs pos ≡ some x → IsClosed (handle x).1)
      → IsClosed (at_pos storage bridge hooks network_id all_network_ids xs pos b handle).1
  at_pos-IsClosed xs pos b handle lt closed =
      let found = get_elem?_within xs pos lt in rw (found.1, at_pos) (closed found.0 found.1)

  process_event-IsClosed :
      (db tx : S) (b : B) (block : Block) (block_id : ℕ) (name : EventOrder) (pos : ℕ)
      → pos < count_of name block
      → All HasParts block.global_exit_roots
      → IsClosed
          (process_event storage bridge hooks network_id all_network_ids db tx b block block_id
            (record { name = name; pos = pos })).1
  unfolding process_event
  process_event-IsClosed db tx b block block_id global_exit_roots_order pos lt parts =
      at_pos-IsClosed block.global_exit_roots pos b _ lt (λ ger found.
        process_global_exit_root-IsClosed db tx ger block_id
          (All-get_elem? HasParts block.global_exit_roots pos parts found))
  process_event-IsClosed db tx b block block_id remove_l2_ger_order pos lt parts =
      at_pos-IsClosed block.remove_l2_ger pos b _ lt
        (λ ger found. process_remove_l2_global_exit_root-IsClosed tx ger block_id)
  process_event-IsClosed db tx b block block_id deposits_order pos lt parts =
      at_pos-IsClosed block.deposits pos b _ lt
        (λ d found. process_deposit-IsClosed tx b d block_id)
  process_event-IsClosed db tx b block block_id claims_order pos lt parts =
      at_pos-IsClosed block.claims pos b _ lt (λ c found. process_claim-IsClosed tx c block_id)
  process_event-IsClosed db tx b block block_id tokens_order pos lt parts =
      at_pos-IsClosed block.tokens pos b _ lt
        (λ t found. process_token_wrapped-IsClosed tx t block_id)
  process_event-IsClosed db tx b block block_id verify_batch_order pos lt parts =
      at_pos-IsClosed block.verified_batches pos b _ lt
        (λ v found. process_verify_batch-IsClosed tx v block_id)
  process_event-IsClosed db tx b block block_id other_order pos lt parts = goes_on tx

  process_events-IsClosed :
      (db tx : S) (b : B) (block : Block) (block_id : ℕ) (orders : List Order)
      → All (InBlock block) orders
      → All HasParts block.global_exit_roots
      → IsClosed
          (process_events storage bridge hooks network_id all_network_ids db tx b block block_id
            orders).1
  unfolding process_events
  process_events-IsClosed db tx b block block_id [] placed parts = goes_on tx
  process_events-IsClosed db tx b block block_id (order ∷ orders) placed parts =
      let step =
        process_event storage bridge hooks network_id all_network_ids db tx b block block_id
          order in
      then_rest step.1 step.0
        (λ tx' b'.
          process_events storage bridge hooks network_id all_network_ids db tx' b' block block_id
            orders)
        (process_event-IsClosed db tx b block block_id order.name order.pos placed.0 parts)
        (λ tx' b'. process_events-IsClosed db tx' b' block block_id orders placed.1 parts)

  -- The events of logs in the order of their blocks (as in `IsOrdered`), once they are read, are
  -- handled without leaving the transaction of their block open: each block's transaction goes on
  -- to its commit or was rolled back, whatever the storage and the bridge controller answer short of a
  -- panic.
  pub read_blocks-IsClosed :
      (bindings : Bindings) (logs : List Log)
      → IsOrdered logs
      → (db tx : S) (b : B) (block_id : ℕ)
      → Returns
          (λ (r : List Block × (Bytes → List Order)).
            All
              (λ (block : Block).
                IsClosed
                  (process_events storage bridge hooks network_id all_network_ids db tx b
                    (record block { network_id = network_id })
                    block_id
                    (r.1 block.block_hash)).1)
              r.0)
          (get_rollup_info_by_block_range bindings (ok logs))
  read_blocks-IsClosed bindings logs ordered db tx b block_id =
      Returns-map _ _ (get_rollup_info_by_block_range bindings (ok logs))
        (λ r placed.
          All-map (IsWellPlaced r.1) _ r.0
            (λ block p.
              process_events-IsClosed db tx b (record block { network_id = network_id }) block_id
                (r.1 block.block_hash) p.0 p.1)
            placed)
        (get_rollup_info_by_block_range-IsWellPlaced bindings logs ordered)
