-- ===== src/Claimtxman/PendingTxs.antt =====
-- claimtxman/pending_txs.go: the claims that wait for a group, and the groups in progress.
use xlayer_bridge_service.Base.{
  ℕ, ◌+◌, ◌%◌, ◌^◌, Bool, ◌&&◌, Option, none, some, List, [], ◌∷◌, ◌++◌, Result, ok, err,
  group_not_found, ◌>>=◌, if◌then◌else◌, length, ◌==◌,
}
use xlayer_bridge_service.Etherman.{Bytes, zero_digest}
use xlayer_bridge_service.Claimtxman.Keyed.{lookup, put}
use xlayer_bridge_service.Claimtxman.Types.{
  MonitoredTx, MonitoredTxGroup, MonitoredTxGroupDbEntry, no_status, no_log, assign_txs_group_id,
  add_tx, is_candidate_to_be_grouped,
}
pub mod Placed
pub mod New

pub record PendingTxs : Type 0 where
  pub group_tx : List (ℕ × MonitoredTxGroup)
  pub tx_candidates_for_group : List MonitoredTx
  pub last_group_tx_id : ℕ  -- uint64

abbrev pub is_empty : PendingTxs → Bool
is_empty p = length p.group_tx == 0 && length p.tx_candidates_for_group == 0

-- The new number, with the state that has given it out.
abbrev pub generate_new_group_id : PendingTxs → PendingTxs × ℕ
generate_new_group_id p =
    let id = (p.last_group_tx_id + 1) % 2 ^ 64 in (record p { last_group_tx_id = id }, id)

abbrev pub add_tx_candidates_for_group : PendingTxs → MonitoredTx → PendingTxs
add_tx_candidates_for_group p tx = record p {
  tx_candidates_for_group = p.tx_candidates_for_group ++ tx ∷ [];
}

abbrev pub empty_group : MonitoredTxGroup
empty_group = record {
  db_entry = record {
    group_id = 0;
    status = no_status;
    deposit_ids = [];
    compressed_tx_data = none;
    claim_tx_history = none;
    created_at = 0;
    updated_at = 0;
    num_retries = 0;
    last_log = no_log;
  };
  txs = [];
}

abbrev pub group_or_empty : Option MonitoredTxGroup → MonitoredTxGroup
group_or_empty g = elim g [ none ↦ empty_group | some g ↦ g ]

abbrev pub add_tx_to_group : PendingTxs → ℕ → MonitoredTx → PendingTxs
add_tx_to_group p id tx = record p {
  group_tx = put id (add_tx (group_or_empty (lookup id p.group_tx)) tx) p.group_tx;
}

unfoldable pub add_group : PendingTxs → MonitoredTxGroup → PendingTxs
add_group p g = elim (lookup g.db_entry.group_id p.group_tx) [
  | some there ↦ p
  | none ↦ record p { group_tx = put g.db_entry.group_id g p.group_tx }
]

abbrev pub set_group_db_entry : PendingTxs → MonitoredTxGroupDbEntry → PendingTxs
set_group_db_entry p entry = record p { group_tx = put entry.group_id with_entry p.group_tx }
  where
    with_entry : MonitoredTxGroup
    with_entry =
        assign_txs_group_id
          (record (group_or_empty (lookup entry.group_id p.group_tx)) { db_entry = entry })

-- One round of the loop of `NewPendingTxs`.
unfoldable pub place_tx :
    Bytes → (ℕ → Option MonitoredTxGroupDbEntry) → PendingTxs → MonitoredTx → Result PendingTxs
place_tx ger groups p tx =
    if is_candidate_to_be_grouped tx ger
    then ok (add_tx_candidates_for_group p tx)
    else elim tx.group_id [
      | none ↦ ok p
      | some id ↦ elim (groups id) [
        | none ↦ err group_not_found
        | some entry ↦ ok (add_tx_to_group (set_group_db_entry p entry) id tx)
      ]
    ]

unfoldable pub place_txs :
    Bytes → (ℕ → Option MonitoredTxGroupDbEntry) → PendingTxs → List MonitoredTx → Result PendingTxs
place_txs ger groups p [] = ok p
place_txs ger groups p (tx ∷ txs) = do p' ← place_tx ger groups p tx; place_txs ger groups p' txs

abbrev pub ger_of_first : List MonitoredTx → Bytes
ger_of_first txs = elim txs [ [] ↦ zero_digest | tx ∷ rest ↦ tx.global_exit_root ]

unfoldable pub new_pending_txs :
    List MonitoredTx → (ℕ → Option MonitoredTxGroupDbEntry) → ℕ → Result PendingTxs
new_pending_txs txs groups last_group_id =
    place_txs (ger_of_first txs) groups
      (record { group_tx = []; tx_candidates_for_group = []; last_group_tx_id = last_group_id }) txs
