-- ===== src/Claimtxman/StoreChanges.antt =====
-- claimtxman/store_changes.go and `GenerateStoreUpdate` of pending_txs.go: what a round has to write.
use xlayer_bridge_service.Base.{
  ℕ, Bool, none, some, List, [], ◌∷◌, ◌++◌, Result, ok, err, tx_not_in_old_state, ◌>>=◌,
  if◌then◌else◌,
}
use xlayer_bridge_service.Claimtxman.Keyed.{lookup}
use xlayer_bridge_service.Claimtxman.Types.{
  MonitoredTx, MonitoredTxGroup, MonitoredTxGroupDbEntry, tx_by_deposit_id, get_txs_deposit_id,
}
use xlayer_bridge_service.Claimtxman.PendingTxs.{PendingTxs}

pub record StoreChanges : Type 0 where
  pub add_groups : List MonitoredTxGroupDbEntry
  pub update_groups : List MonitoredTxGroupDbEntry
  pub update_txs : List MonitoredTx

abbrev pub new_store_changes : StoreChanges
new_store_changes = record { add_groups = []; update_groups = []; update_txs = [] }

-- `cmp.Equal` of the package go-cmp, on the two types that it is used at.
pub record Equality : Type 0 where
  pub same_entry : MonitoredTxGroupDbEntry → MonitoredTxGroupDbEntry → Bool
  pub same_tx : MonitoredTx → MonitoredTx → Bool

-- `now` reads the clock, which may show another time at the next reading.
module _ (eq : Equality) {W : Type 0} (now : W → W × ℕ) where
  -- The first loop: the entries of groups that are new or have changed.
  unfoldable pub update_group :
      List (ℕ × MonitoredTxGroup) → W → ℕ × MonitoredTxGroup → StoreChanges → W × StoreChanges
  update_group old w (id, group) changes = elim (lookup id old) [
    | none ↦
        let (w', time) = now w in
        (
          w',
          record changes {
            add_groups =
                changes.add_groups
                ++ record group.db_entry {
                  updated_at = time;
                  deposit_ids = get_txs_deposit_id group;
                }
                  ∷ [];
          },
        )
    | some old_group ↦
        let (w', time) = now w in
        if eq.same_entry old_group.db_entry group.db_entry then (w, changes) else (
          w',
          record changes {
            update_groups =
                changes.update_groups ++ record group.db_entry { updated_at = time } ∷ [];
          },
        )
  ]

  unfoldable pub update_groups_of :
      List (ℕ × MonitoredTxGroup)
      → W
      → List (ℕ × MonitoredTxGroup)
      → StoreChanges
      → W × StoreChanges
  update_groups_of old w [] changes = (w, changes)
  update_groups_of old w (g ∷ groups) changes =
      let (w', changes') = update_group old w g changes in update_groups_of old w' groups changes'

-- The second loop: the claims of groups that are new, and those that have changed.
module _ (eq : Equality) where
  unfoldable pub changed_txs : List MonitoredTx → List MonitoredTx → Result (List MonitoredTx)
  changed_txs old [] = ok []
  changed_txs old (tx ∷ txs) = elim (tx_by_deposit_id old tx.deposit_id) [
    | none ↦ err tx_not_in_old_state
    | some old_tx ↦ do
      rest ← changed_txs old txs
      ok (if eq.same_tx old_tx tx then rest else tx ∷ rest)
  ]

  unfoldable pub txs_to_update :
      List (ℕ × MonitoredTxGroup) → ℕ × MonitoredTxGroup → Result (List MonitoredTx)
  txs_to_update old (id, group) = elim (lookup id old) [
    | none ↦ ok group.txs
    | some old_group ↦ changed_txs old_group.txs group.txs
  ]

  unfoldable pub all_txs_to_update :
      List (ℕ × MonitoredTxGroup) → List (ℕ × MonitoredTxGroup) → Result (List MonitoredTx)
  all_txs_to_update old [] = ok []
  all_txs_to_update old (g ∷ groups) = do
    txs ← txs_to_update old g
    rest ← all_txs_to_update old groups
    ok (txs ++ rest)

module _ (eq : Equality) {W : Type 0} (now : W → W × ℕ) where
  unfoldable pub generate_store_update : PendingTxs → PendingTxs → W → W × Result StoreChanges
  unfolding update_groups_of all_txs_to_update
  generate_store_update old new w =
      let (w', changes) = update_groups_of eq now old.group_tx w new.group_tx new_store_changes in
      (
        w',
        (do
          txs ← all_txs_to_update eq old.group_tx new.group_tx
          ok (record changes { update_txs = txs })),
      )
