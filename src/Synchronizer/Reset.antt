-- ===== src/Synchronizer/Reset.antt =====
-- `resetState` of synchronizer/synchronizer.go: the storage and the tree go back to a block.
use xlayer_bridge_service.Base.{ℕ, Result, ok, err}

-- The storage (`reset` deletes the blocks above, `get_number_deposits` counts up to the block), and
-- the bridge controller, whose tree in memory `reorg_mt` may have changed also where it fails.
pub record ResetStorage (S B : Type 0) : Type 0 where
  pub begin_db_transaction : S → Result S
  pub reset : S → ℕ → ℕ → Result S
  pub get_number_deposits : S → ℕ → ℕ → Result ℕ
  pub reorg_mt : S → B → ℕ → ℕ → B × Result (Unit {0})
  pub commit : S → Result S

module _ {S B : Type 0} (storage : ResetStorage S B) (network : ℕ) where
  -- With the tree, what the transaction leaves to commit.
  unfoldable pub reset_in : S → B → ℕ → B × Result S
  reset_in tx bridge block_number = elim (storage.reset tx block_number network) [
    | err e ↦ (bridge, err e)
    | ok tx' ↦ elim (storage.get_number_deposits tx' network block_number) [
      | err e ↦ (bridge, err e)
      | ok deposit_count ↦
          let (bridge', reorged) = storage.reorg_mt tx' bridge deposit_count network in
          elim reorged [ err e ↦ (bridge', err e) | ok t ↦ (bridge', ok tx') ]
    ]
  ]

  -- On an error the transaction is rolled back: the storage is as it was.
  unfoldable pub reset_state : S → B → ℕ → S × B × Result (Unit {0})
  unfolding reset_in
  reset_state db bridge block_number = elim (storage.begin_db_transaction db) [
    | err e ↦ (db, bridge, err e)
    | ok tx ↦
        let (bridge', done) = reset_in tx bridge block_number in
        elim done [
          | err e ↦ (db, bridge', err e)
          | ok tx' ↦ elim (storage.commit tx') [
            | err e ↦ (db, bridge', err e)
            | ok db' ↦ (db', bridge', ok tt)
          ]
        ]
  ]
