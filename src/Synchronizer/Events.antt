-- ===== src/Synchronizer/Events.antt =====
-- The handlers of events of synchronizer/synchronizer.go: what each does in the block's transaction.
use xlayer_bridge_service.Base.{
  ℕ, Bool, true, false, not, Option, none, some, List, [], ◌∷◌, Result, ok, err, Error,
  storage_not_found, wrong_exit_roots, root_not_found, panic, if◌then◌else◌, length, ◌==◌,
}
use xlayer_bridge_service.Etherman.{
  Bytes, Block, Deposit, Claim, GlobalExitRoot, TokenWrapped, VerifiedBatch, RollupExitLeaf,
  bytes_eq, zero_digest,
}

-- The operations of the storage on an open transaction.
pub record SyncStorage (S : Type 0) : Type 0 where
  pub begin_db_transaction : S → Result S
  pub commit : S → Result S
  pub rollback : S → Result (Unit {0})
  pub add_block : S → Block → Result (S × ℕ)
  pub add_global_exit_root : S → GlobalExitRoot → Result S
  pub get_l1_exit_root_by_ger : S → Bytes → Result GlobalExitRoot
  pub get_l2_exit_roots_by_ger : S → Bytes → Result (List GlobalExitRoot)
  pub update_l2_ger : S → GlobalExitRoot → Result S
  pub add_remove_l2_ger : S → GlobalExitRoot → Result S
  pub add_deposit_xlayer : S → Deposit → Result (S × ℕ)
  pub add_claim : S → Claim → Result S
  pub add_token_wrapped : S → TokenWrapped → Result S
  pub check_if_root_exists : S → Bytes → ℕ → Result Bool
  pub get_latest_l1_synced_exit_root : S → Result GlobalExitRoot
  pub get_latest_trusted_exit_root : S → ℕ → Result GlobalExitRoot

-- The bridge controller; its trees in memory may have changed also where it fails.
pub record SyncBridge (S B : Type 0) : Type 0 where
  pub add_deposit : S → B → Deposit → ℕ → B × Result S
  pub add_rollup_exit_leaf : S → RollupExitLeaf → Result S

-- The steps round a deposit or a claim with a redis storage. afterProcessClaim runs in a goroutine that
-- may write the bridge's balance through the transaction of the block: its start is a step on `S`, and
-- what it writes later is a part of later operations on `S`.
pub record DepositHooks (S : Type 0) : Type 0 where
  pub before_process_deposit : Deposit → Deposit
  pub after_process_deposit : S → Deposit → ℕ → Result S
  pub start_after_process_claim : S → Claim → S

-- How a handler ends: the transaction goes on, was rolled back, was left open with an error, or a call
-- panicked, after which nothing is run.
pub data Handled (S : Type 0) : Type 0 where
  handled : S → Handled S
  rolled_back left_open : Error → Handled S
  panicked : Handled S

module _ {S B : Type 0} (storage : SyncStorage S) (bridge : SyncBridge S B)
    (hooks : Option (DepositHooks S)) (network_id : ℕ) (all_network_ids : List ℕ) where
  -- After an error of a call. A rollback that fails gives its own error.
  abbrev pub roll_back : S → Error → Handled S
  roll_back tx panic = panicked
  roll_back tx e = elim (storage.rollback tx) [ err r ↦ rolled_back r | ok t ↦ rolled_back e ]

  abbrev pub or_roll_back : S → Result S → Handled S
  or_roll_back tx r = elim r [ err e ↦ roll_back tx e | ok tx' ↦ handled tx' ]

  -- The exit roots of L1 complete the entries that L2 has of the same root.
  unfoldable pub update_gers : S → List Bytes → List GlobalExitRoot → Result S
  update_gers tx exit_roots [] = ok tx
  update_gers tx exit_roots (ger ∷ gers) =
      elim (storage.update_l2_ger tx (record ger { exit_roots = exit_roots })) [
        | err e ↦ err e
        | ok tx' ↦ update_gers tx' exit_roots gers
      ]

  abbrev pub no_gers_if_missing : Result (List GlobalExitRoot) → Result (List GlobalExitRoot)
  no_gers_if_missing (ok gers) = ok gers
  no_gers_if_missing (err storage_not_found) = ok []
  no_gers_if_missing (err e) = err e

  abbrev pub completed_by : GlobalExitRoot → Result GlobalExitRoot → Result GlobalExitRoot
  completed_by ger (ok l1) = ok (record ger { exit_roots = l1.exit_roots })
  completed_by ger (err storage_not_found) = ok ger
  completed_by ger (err e) = err e

  -- The lookups of other entries are made outside the transaction, on the storage `db`.
  unfoldable pub process_global_exit_root : S → S → GlobalExitRoot → ℕ → Handled S
  unfolding update_gers
  process_global_exit_root db tx ger block_id =
      let stored : GlobalExitRoot = record ger { block_id = block_id; network_id = network_id } in
      if length ger.exit_roots == 2
      then elim (no_gers_if_missing (storage.get_l2_exit_roots_by_ger db ger.global_exit_root)) [
        | err e ↦ roll_back tx e
        | ok gers ↦ elim (update_gers tx ger.exit_roots gers) [
          | err e ↦ roll_back tx e
          | ok tx' ↦ or_roll_back tx' (storage.add_global_exit_root tx' stored)
        ]
      ]
      else if length ger.exit_roots == 0
      then elim (completed_by stored (storage.get_l1_exit_root_by_ger db ger.global_exit_root)) [
        | err e ↦ roll_back tx e
        | ok completed ↦ or_roll_back tx (storage.add_global_exit_root tx completed)
      ]
      else left_open wrong_exit_roots

  unfoldable pub process_remove_l2_global_exit_root : S → GlobalExitRoot → ℕ → Handled S
  process_remove_l2_global_exit_root tx ger block_id =
      or_roll_back tx
        (storage.add_remove_l2_ger tx (record ger { block_id = block_id; network_id = network_id }))

  abbrev pub before : Deposit → Deposit
  before d = elim hooks [ none ↦ d | some h ↦ h.before_process_deposit d ]

  abbrev pub after : S → Deposit → ℕ → Handled S
  after tx d deposit_id = elim hooks [
    | none ↦ handled tx
    | some h ↦ or_roll_back tx (h.after_process_deposit tx d deposit_id)
  ]

  unfoldable pub process_deposit : S → B → Deposit → ℕ → B × Handled S
  process_deposit tx b deposit block_id =
      let d : Deposit = record (before deposit) { block_id = block_id; network_id = network_id } in
      elim (storage.add_deposit_xlayer tx d) [
        | err e ↦ (b, roll_back tx e)
        | ok (tx', deposit_id) ↦
            let (b', added) = bridge.add_deposit tx' b d deposit_id in
            (b', elim added [ err e ↦ roll_back tx' e | ok tx'' ↦ after tx'' d deposit_id ])
      ]

  abbrev pub after_claim : S → Claim → S
  after_claim tx c = elim hooks [ none ↦ tx | some h ↦ h.start_after_process_claim tx c ]

  unfoldable pub process_claim : S → Claim → ℕ → Handled S
  process_claim tx claim block_id =
      let c : Claim = record claim { block_id = block_id; network_id = network_id } in
      elim (storage.add_claim tx c) [
        | err e ↦ roll_back tx e
        | ok tx' ↦ handled (after_claim tx' c)
      ]

  unfoldable pub process_token_wrapped : S → TokenWrapped → ℕ → Handled S
  process_token_wrapped tx token block_id =
      or_roll_back tx (
        storage.add_token_wrapped tx
          (record token { block_id = block_id; network_id = network_id }))

  unfoldable pub is_syncing : ℕ → List ℕ → Bool
  is_syncing rollup_id [] = false
  is_syncing rollup_id (n ∷ ns) =
      let rest = is_syncing rollup_id ns in if rollup_id == n then true else rest

  -- The root of a rollup that is followed must be one that was computed here.
  abbrev pub root_known : S → VerifiedBatch → Result Bool
  root_known tx batch =
      if is_syncing batch.rollup_id all_network_ids
      then storage.check_if_root_exists tx batch.local_exit_root batch.rollup_id
      else ok true

  unfoldable pub process_verify_batch : S → VerifiedBatch → ℕ → Handled S
  unfolding is_syncing
  process_verify_batch tx batch block_id =
      if bytes_eq batch.local_exit_root zero_digest
      then handled tx
      else elim (root_known tx batch) [
        | err e ↦ roll_back tx e
        | ok known ↦
            if not known
            then roll_back tx root_not_found
            else or_roll_back tx (
                bridge.add_rollup_exit_leaf tx (record {
                  id = 0;
                  block_id = block_id;
                  leaf = batch.local_exit_root;
                  rollup_id = batch.rollup_id;
                  root = zero_digest;
                }))
      ]
