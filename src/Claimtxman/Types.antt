-- ===== src/Claimtxman/Types.antt =====
-- claimtxman/types/monitoredtx.go: a claim that is monitored, and a group of claims that one
-- transaction sends compressed. Times are counted from a fixed moment.
use mathlib.Core.List.{foldl}
use xlayer_bridge_service.Base.{
  ℕ, ◌+◌, Bool, true, false, ◌&&◌, Option, none, some, List, [], ◌∷◌, ◌++◌, map, Result, ok, err,
  Error, already_exists, ◌==◌, ltb, if◌then◌else◌, length,
}
use xlayer_bridge_service.Etherman.{Bytes, bytes_eq}

pub data MonitoredTxStatus : Type 0 where
  created failed confirmed compressing claiming : MonitoredTxStatus

pub record MonitoredTx : Type 0 where
  pub deposit_id : ℕ
  pub from : Bytes
  pub to : Option Bytes
  pub nonce : ℕ
  pub value : ℕ
  pub data_of : Bytes
  pub gas : ℕ
  pub gas_price : ℕ
  pub status : MonitoredTxStatus
  pub history : List Bytes
  pub created_at : ℕ
  pub updated_at : ℕ
  pub group_id : Option ℕ
  pub global_exit_root : Bytes

-- `no_status` is the empty string of a zero value.
pub data MonitoredTxGroupStatus : Type 0 where
  no_status group_created group_claiming group_failed group_confirmed : MonitoredTxGroupStatus

-- The texts that the group keeps of its last step.
pub data LastLog : Type 0 where
  no_log : LastLog
  mined_successfully : ℕ → Bytes → LastLog
  maximum_retries : ℕ → LastLog
  receipt_failed_or_no_logs maximum_wait_time not_mined_yet : Bytes → LastLog
  check_failed : ℕ → Bytes → Error → LastLog
  send_failed : ℕ → Error → LastLog

-- `receipt_status` is none while no receipt is known.
pub record TxHashHistoryEntry : Type 0 where
  pub tx_hash : Bytes
  pub receipt_status : Option ℕ
  pub created_at : ℕ

abbrev pub receipt_failed : ℕ
receipt_failed = 0

abbrev pub receipt_successful : ℕ
receipt_successful = 1

abbrev pub receipt_outdated : ℕ
receipt_outdated = 2

abbrev pub is_pending : TxHashHistoryEntry → Bool
is_pending t = elim t.receipt_status [ none ↦ true | some s ↦ false ]

abbrev pub is_outdated : TxHashHistoryEntry → Bool
is_outdated t = elim t.receipt_status [ none ↦ false | some s ↦ s == receipt_outdated ]

-- More than `max_time` has passed since the claim was sent.
abbrev pub is_exhausted_time_waiting_for_receipt : TxHashHistoryEntry → ℕ → ℕ → Bool
is_exhausted_time_waiting_for_receipt t now max_time = ltb (t.created_at + max_time) now

pub record TxHistoryV2 : Type 0 where
  pub version : ℕ
  pub tx_hashes : List TxHashHistoryEntry

abbrev later : TxHashHistoryEntry → TxHashHistoryEntry → TxHashHistoryEntry
later best t = if ltb best.created_at t.created_at then t else best

-- The first of those sent last.
unfoldable pub get_more_recent_tx : TxHistoryV2 → Option TxHashHistoryEntry
get_more_recent_tx h = elim h.tx_hashes [ [] ↦ none | t ∷ ts ↦ some (foldl later t (t ∷ ts)) ]

pub record MonitoredTxGroupDbEntry : Type 0 where
  pub group_id : ℕ
  pub status : MonitoredTxGroupStatus
  pub deposit_ids : List ℕ
  pub compressed_tx_data : Option Bytes
  pub claim_tx_history : Option TxHistoryV2
  pub created_at : ℕ
  pub updated_at : ℕ
  pub num_retries : ℕ  -- int32
  pub last_log : LastLog

-- The hashes of the claims sent, none for a nil history.
abbrev pub tx_hashes_of : MonitoredTxGroupDbEntry → List TxHashHistoryEntry
tx_hashes_of m = elim m.claim_tx_history [ none ↦ [] | some h ↦ h.tx_hashes ]

abbrev pub is_claim_tx_history_empty : MonitoredTxGroupDbEntry → Bool
is_claim_tx_history_empty m = length (tx_hashes_of m) == 0

-- Both `AddPendingTx`: a nil history becomes one of version 1.
unfoldable pub add_pending_tx : MonitoredTxGroupDbEntry → Bytes → ℕ → MonitoredTxGroupDbEntry
add_pending_tx m tx_hash now = record m {
  claim_tx_history = some (elim m.claim_tx_history [
    | none ↦ record { version = 1; tx_hashes = entry ∷ [] }
    | some h ↦ record { version = h.version; tx_hashes = h.tx_hashes ++ entry ∷ [] }
  ]);
}
  where
    entry : TxHashHistoryEntry
    entry = record { tx_hash = tx_hash; receipt_status = none; created_at = now }

pub record MonitoredTxGroup : Type 0 where
  pub db_entry : MonitoredTxGroupDbEntry
  pub txs : List MonitoredTx

abbrev pub with_group_id : ℕ → MonitoredTx → MonitoredTx
with_group_id id tx = record tx { group_id = some id }

unfoldable pub assign_txs_group_id : MonitoredTxGroup → MonitoredTxGroup
assign_txs_group_id g = record g { txs = map (with_group_id g.db_entry.group_id) g.txs }

unfoldable pub new_monitored_tx_group :
    MonitoredTxGroupDbEntry → List MonitoredTx → MonitoredTxGroup
unfolding assign_txs_group_id
new_monitored_tx_group entry txs = assign_txs_group_id (record { db_entry = entry; txs = txs })

unfoldable pub add_tx : MonitoredTxGroup → MonitoredTx → MonitoredTxGroup
add_tx g tx = record g { txs = g.txs ++ with_group_id g.db_entry.group_id tx ∷ [] }

unfoldable pub tx_by_deposit_id : List MonitoredTx → ℕ → Option MonitoredTx
tx_by_deposit_id [] id = none
tx_by_deposit_id (tx ∷ txs) id = if tx.deposit_id == id then some tx else tx_by_deposit_id txs id

abbrev pub get_txs_deposit_id : MonitoredTxGroup → List ℕ
get_txs_deposit_id g = map (λ tx. tx.deposit_id) g.txs

-- `AddHistory` and `RemoveHistory`, on the keys of the map.
unfoldable pub in_history : Bytes → List Bytes → Bool
in_history h [] = false
in_history h (x ∷ xs) = if bytes_eq x h then true else in_history h xs

unfoldable pub add_history : MonitoredTx → Bytes → Result MonitoredTx
unfolding in_history
add_history tx tx_hash =
    if in_history tx_hash tx.history
    then err already_exists
    else ok (record tx { history = tx.history ++ tx_hash ∷ [] })

unfoldable pub remove_history : MonitoredTx → Bytes → MonitoredTx
remove_history tx tx_hash = record tx { history = without tx.history }
  where
    without : List Bytes → List Bytes
    without [] = []
    without (x ∷ xs) = if bytes_eq x tx_hash then without xs else x ∷ without xs

abbrev pub is_created : MonitoredTxStatus → Bool
is_created s = elim s [ created ↦ true | _ ↦ false ]

abbrev is_none {ℓ} : {A : Type ℓ} → Option A → Bool
is_none o = elim o [ none ↦ true | some a ↦ false ]

unfoldable pub is_candidate_to_be_grouped : MonitoredTx → Bytes → Bool
is_candidate_to_be_grouped tx ger =
    is_created tx.status
    && length tx.history == 0
    && is_none tx.group_id
    && bytes_eq tx.global_exit_root ger
