-- ===== src/Claimtxman/Monitor/Storage.antt =====
-- `MonitorTxs`: a round between reading the claims and writing the changes, in one transaction.
use xlayer_bridge_service.Base.{
  ℕ, Bool, true, false, Option, none, some, List, [], ◌∷◌, Result, ok, err, ◌>>=◌, if◌then◌else◌,
  ◌==◌,
}
use xlayer_bridge_service.Claimtxman.Types.{
  MonitoredTx, MonitoredTxStatus, MonitoredTxGroupDbEntry, created, compressing, claiming,
}
use xlayer_bridge_service.Claimtxman.PendingTxs.{PendingTxs, is_empty, new_pending_txs}
use xlayer_bridge_service.Claimtxman.StoreChanges.{Equality, StoreChanges, generate_store_update}
use xlayer_bridge_service.Claimtxman.Monitor.Round.{Monitor, process}

-- `StorageCompressedInterface`; `begin` gives the state that a transaction works on.
pub record StorageCompressed (S : Type 0) : Type 0 where
  pub get_claim_txs_by_status : S → List MonitoredTxStatus → ℕ → Result (List MonitoredTx)
  pub get_monitored_txs_groups : S → List ℕ → Result (ℕ → Option MonitoredTxGroupDbEntry)
  pub add_monitored_txs_group : S → MonitoredTxGroupDbEntry → Result S
  pub update_claim_tx : S → MonitoredTx → Result S
  pub get_latest_monitored_tx_group_id : S → Result ℕ
  pub update_monitored_txs_group : S → MonitoredTxGroupDbEntry → Result S
  pub begin_db_transaction : S → Result S
  pub commit : S → Result S

abbrev is_in : ℕ → List ℕ → Bool
is_in id [] = false
is_in id (x ∷ xs) = let rest = is_in id xs in if x == id then true else rest

abbrev with_id : Option ℕ → List ℕ → List ℕ
with_id none ids = ids
with_id (some id) ids = if is_in id ids then ids else id ∷ ids

-- The groups of the claims, each once.
unfoldable pub get_groups_ids : List MonitoredTx → List ℕ
get_groups_ids [] = []
get_groups_ids (tx ∷ txs) = with_id tx.group_id (get_groups_ids txs)

module _ {S : Type 0} (storage : StorageCompressed S) where
  unfoldable pub get_pending_txs : S → ℕ → Result PendingTxs
  unfolding get_groups_ids
  get_pending_txs db rollup_id = do
    txs ← storage.get_claim_txs_by_status db (created ∷ compressing ∷ claiming ∷ []) rollup_id
    groups ← storage.get_monitored_txs_groups db (get_groups_ids txs)
    last_group_id ← storage.get_latest_monitored_tx_group_id db
    new_pending_txs txs groups last_group_id

  unfoldable pub write_all {ℓ} : {A : Type ℓ} → (S → A → Result S) → S → List A → Result S
  write_all write db [] = ok db
  write_all write db (a ∷ rest) = do db' ← write db a; write_all write db' rest

  module _ {W : Type 0} (tm : Monitor W) (eq : Equality) (rollup_id : ℕ) where
    -- The updated groups of `Execute`, each with the time at which it is written.
    unfoldable pub write_updates : W → S → List MonitoredTxGroupDbEntry → W × Result S
    write_updates w db [] = (w, ok db)
    write_updates w db (entry ∷ entries) =
        let (w', time) = tm.chain.system_now w in
        elim (storage.update_monitored_txs_group db (record entry { updated_at = time })) [
          | err e ↦ (w', err e)
          | ok db' ↦ write_updates w' db' entries
        ]

    unfoldable pub execute : W → S → StoreChanges → W × Result S
    unfolding write_all write_updates
    execute w db changes = elim (write_all storage.add_monitored_txs_group db changes.add_groups) [
      | err e ↦ (w, err e)
      | ok db' ↦
          let (w', updated) = write_updates w db' changes.update_groups in
          (w', (do db'' ← updated; write_all storage.update_claim_tx db'' changes.update_txs))
    ]

    -- What a successful round leaves is compared with what was read before it.
    unfoldable pub store_round : PendingTxs → S → W × Result PendingTxs → W × Result S
    unfolding execute
    store_round initial db (w, err e) = (w, err e)
    store_round initial db (w, ok p) =
        let (w', changes) = generate_store_update eq tm.chain.now initial p w in
        elim changes [ err e ↦ (w', err e) | ok c ↦ execute w' db c ]

    unfoldable pub internal_monitor_txs : W → S → W × Result S
    unfolding get_pending_txs store_round
    internal_monitor_txs w db = elim (get_pending_txs db rollup_id) [
      | err e ↦ (w, err e)
      | ok p ↦ if is_empty p then (w, ok db) else elim (get_pending_txs db rollup_id) [
        | err e ↦ (w, err e)
        | ok initial ↦ store_round initial db (process tm w p)
      ]
    ]

    -- On an error the transaction is rolled back: the storage is as it was.
    unfoldable pub monitor_txs : W → S → W × S × Result (Unit {0})
    unfolding internal_monitor_txs
    monitor_txs w db = elim (storage.begin_db_transaction db) [
      | err e ↦ (w, db, err e)
      | ok tx ↦
          let (w', done) = internal_monitor_txs w tx in
          elim done [
            | err e ↦ (w', db, err e)
            | ok tx' ↦ elim (storage.commit tx') [
              | err e ↦ (w', db, err e)
              | ok db' ↦ (w', db', ok tt)
            ]
          ]
    ]
