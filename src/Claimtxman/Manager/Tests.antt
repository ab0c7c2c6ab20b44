-- ===== src/Claimtxman/Manager/Tests.antt =====
-- A manager of the L2 1 on a storage that counts the claims of the deposit 4.
use xlayer_bridge_service.Base.{
  ℕ, ◌≤◌, suc, Bool, true, false, Option, none, some, List, [], ◌∷◌, Result, ok, err, tx_not_found,
  ◌≡◌, refl, sym, inr, All, replicate, storage_not_found,
}
use xlayer_bridge_service.Etherman.{Bytes, Deposit, GlobalExitRoot, bytes_eq, zero_digest}
use xlayer_bridge_service.Claimtxman.NonceCache.{NonceLru, get_next_nonce, above_cached}
use xlayer_bridge_service.Claimtxman.Single.{L2Node, estimate}
use xlayer_bridge_service.Claimtxman.Manager.{
  ManagerStorage, BridgeService, ClaimCall, ManagerConfig, update_deposits_status,
  process_deposit_status, ready_deposits, claim_deposits, claim_deposit, claim_call, first_nodes,
  is_ignored, is_deposit_message_allowed, add_claim_tx,
}
use xlayer_bridge_service.Claimtxman.Manager.Eligible.{
  ClaimsOnly, IsEligible, update_deposits_status-Holds,
}
use xlayer_bridge_service.Claimtxman.Manager.Start.{
  Event, exit_root, synced, compressor_tick, tick, actions, at_start, no_ger, was_synced,
  IsMonitoring, actions-IsMonitoring, step, on_event, on_exit_root, on_compressor_tick, is_due,
  done, goroutine_runs, update_deposits, monitor_claims,
}
use xlayer_bridge_service.Claimtxman.Manager.Updates.{updates, arrivals, updates-actions}

abbrev ready_deposit : ℕ → ℕ → ℕ → Deposit
ready_deposit id leaf_type destination = record {
  id = id;
  leaf_type = leaf_type;
  original_network = 0;
  original_address = 6 ∷ [];
  amount = 5;
  destination_network = destination;
  destination_address = [];
  deposit_count = id;
  block_id = 1;
  block_number = 1;
  network_id = 0;
  tx_hash = [];
  metadata = [];
  ready_for_claim = true;
  time = 0;
  ready_time = 0;
  dest_contract_address = [];
}

abbrev an_exit_root : ℕ → GlobalExitRoot
an_exit_root n = record no_ger { exit_roots = (1 ∷ []) ∷ (2 ∷ []) ∷ []; global_exit_root = n ∷ [] }

-- The deposits 4, 5 and 6 become ready; only the first is a plain transfer to the L2 1.
abbrev claims_made : ManagerStorage (List ℕ)
claims_made = record {
  begin_db_transaction = λ s. ok s;
  commit = λ s. ok s;
  rollback = λ s. ok tt;
  update_l1_deposits_status = λ s root network.
      ok (s, ready_deposit 4 0 1 ∷ ready_deposit 5 1 1 ∷ ready_deposit 6 0 2 ∷ []);
  update_l2_deposits_status = λ s root rollup network. ok s;
  get_deposits_from_other_l2_to_claim = λ s network. ok [];
  get_latest_trusted_ger_by_deposit = λ s count network dest. err storage_not_found;
  add_claim_tx = λ s tx. ok (tx.deposit_id ∷ s);
  after_wait = λ s. s;
}

abbrev a_service : BridgeService (List ℕ)
a_service = record {
  get_deposit_status = λ count origin dest. ok [];
  get_claim_proof_for_compressed = λ s ger count network. ok (record {
    global_exit_root = an_exit_root 3;
    merkle_proof = replicate 32 zero_digest;
    rollup_merkle_proof = replicate 32 zero_digest;
  });
}

abbrev a_config : Bool → ManagerConfig
a_config grouping = record {
  l2_network_id = 1;
  rollup_id = 1;
  retry_number = 1;
  are_claims_between_l2s_enabled = false;
  authorized_claim_message_addresses = (7 ∷ []) ∷ [];
  grouping_enabled = grouping;
  from = [];
}

abbrev quiet_node : L2Node ℕ
quiet_node = record {
  check_tx_was_mined = λ w h. (w, ok none);
  transaction_by_hash = λ w h. (w, err tx_not_found);
  estimate_gas = λ w tx. (w, ok 100);
  suggest_gas_price = λ w. (w, ok 7);
  nonce_at = λ w from. (w, ok 5);
  send_transaction = λ w signed. (suc w, ok tt);
  sign = λ tx. ok (record { hash_of = 9 ∷ []; nonce = tx.nonce });
  mentions_nonce = λ e. false;
}

abbrev one_nonce : NonceLru (Option ℕ)
one_nonce = record { get = λ c from. (c, c); add = λ c from n. some n; remove = λ c from. none }

abbrev build_call : Deposit → List Bytes → List Bytes → List Bytes → Result ClaimCall
build_call d proof rollup_proof exit_roots = ok (record { to = none; data_of = [] })

update_deposits_status_run :
    update_deposits_status quiet_node one_nonce claims_made a_service
      (a_config false)
      build_call
      0
      none
      []
      (an_exit_root 3)
    ≡ (0, some 5, 4 ∷ [], ok tt)
unfolding update_deposits_status process_deposit_status ready_deposits claim_deposits claim_deposit
    is_ignored is_deposit_message_allowed claim_call first_nodes add_claim_tx estimate
    get_next_nonce above_cached bytes_eq
update_deposits_status_run = refl

-- Each claim in the storage is that of an eligible deposit.
abbrev AllEligible : List ℕ → Type 0
AllEligible s =
    All (λ (id : ℕ). (d : Deposit) × (d.id ≡ id) × IsEligible a_service (a_config false) d) s

claims_made-ClaimsOnly : ClaimsOnly claims_made a_service (a_config false) AllEligible
claims_made-ClaimsOnly = record {
  begin_keeps = λ db holds. holds;
  commit_keeps = λ db holds. holds;
  wait_keeps = λ db holds. holds;
  l1_keeps = λ db root network holds. holds;
  l2_keeps = λ db root rollup network holds. holds;
  add_keeps = λ db tx d holds eligible same. ((d, sym same, eligible), holds);
}

update_deposits_status-Holds_example :
    AllEligible
      (update_deposits_status quiet_node one_nonce claims_made a_service
        (a_config false)
        build_call
        0
        none
        []
        (an_exit_root 3)).2
update_deposits_status-Holds_example =
    update_deposits_status-Holds quiet_node one_nonce claims_made a_service (a_config false)
      build_call AllEligible claims_made-ClaimsOnly 0 none [] (an_exit_root 3) tt

-- The second exit root arrives before the goroutine of the first runs: both read the second.
abbrev some_events : List Event
some_events =
    synced 1
    ∷ exit_root (an_exit_root 3)
    ∷ compressor_tick
    ∷ tick
    ∷ synced 0
    ∷ compressor_tick
    ∷ compressor_tick
    ∷ exit_root (an_exit_root 4)
    ∷ goroutine_runs
    ∷ compressor_tick
    ∷ done
    ∷ tick
    ∷ goroutine_runs
    ∷ goroutine_runs
    ∷ []

actions_run :
    actions (a_config true) at_start some_events
    ≡ monitor_claims ∷ update_deposits (an_exit_root 4) ∷ update_deposits (an_exit_root 4) ∷ []
unfolding actions step on_event on_exit_root on_compressor_tick is_due bytes_eq
actions_run = refl

updates-actions_example :
    updates (actions (a_config true) at_start some_events) ≤ arrivals some_events
updates-actions_example = updates-actions (a_config true) some_events

abbrev only_l2 : List Event
only_l2 = synced 1 ∷ exit_root (an_exit_root 3) ∷ goroutine_runs ∷ tick ∷ []

no_l1 : was_synced 0 only_l2 ≡ false
unfolding was_synced
no_l1 = refl

actions-IsMonitoring_example : All IsMonitoring (actions (a_config false) at_start only_l2)
actions-IsMonitoring_example = actions-IsMonitoring (a_config false) only_l2 (inr no_l1)
