-- ===== src/Bridgectrl/Store.antt =====
-- bridgectrl/interfaces.go: the storage of the trees, over a database state `S`. Each call gets the
-- state of its database transaction and returns the next one; `err` is an error of the database.
use xlayer_bridge_service.Base.{ℕ, Bool, List, Result}
use xlayer_bridge_service.Etherman.{Bytes, RollupExitLeaf}

-- A row of `BulkSet`: a node, its two children and the deposit that wrote it.
pub record NodeRow : Type 0 where
  pub key : Bytes
  pub value : List Bytes
  pub deposit_id : ℕ

-- A row of `AddRollupExitLeaves`.
pub record LeafRow : Type 0 where
  pub leaf : Bytes
  pub rollup_id : ℕ
  pub root : Bytes
  pub block_id : ℕ

pub record MerkleTreeStore (S : Type 0) : Type 0 where
  pub get : S → Bytes → Result (List Bytes)
  pub bulk_set : S → List NodeRow → Result S
  pub get_root : S → ℕ → ℕ → Result Bytes
  pub set_root : S → Bytes → ℕ → ℕ → Result S
  pub get_last_deposit_count : S → ℕ → Result ℕ
  pub add_rollup_exit_leaves : S → List LeafRow → Result S
  pub get_latest_rollup_exit_leaves : S → Result (List RollupExitLeaf)
  pub is_rollup_exit_root : S → Bytes → Result Bool
