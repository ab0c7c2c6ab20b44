-- ===== src/Claimtxman/Monitor/Defs.antt =====
-- What `Process` does to each group. The chain and the clock are a state that every call may change.
use xlayer_bridge_service.Base.{
  ℕ, ◌+◌, ◌%◌, ◌^◌, Bool, true, false, not, ◌&&◌, none, some, List, [], ◌∷◌, map, Result, ok, err,
  panic, if◌then◌else◌, length, update_at, ltb, leb, ◌==◌,
}
use xlayer_bridge_service.Etherman.{Bytes}
use xlayer_bridge_service.Claimtxman.Types.{
  MonitoredTx, MonitoredTxStatus, MonitoredTxGroup, MonitoredTxGroupStatus, TxHistoryV2,
  TxHashHistoryEntry, LastLog, mined_successfully, maximum_retries, receipt_failed_or_no_logs,
  maximum_wait_time, not_mined_yet, check_failed, send_failed, confirmed, failed, group_created,
  group_claiming, group_failed, group_confirmed, receipt_failed, receipt_successful, is_pending,
  is_outdated, is_exhausted_time_waiting_for_receipt, get_more_recent_tx, is_claim_tx_history_empty,
  add_pending_tx,
}
use xlayer_bridge_service.Claimtxman.Trigger.{ConfigGroupingClaims}

pub record TransactOpts : Type 0 where
  pub no_send : Bool
  pub gas_limit : ℕ

pub record Transaction : Type 0 where
  pub hash : Bytes
  pub gas : ℕ

pub record Receipt : Type 0 where
  pub status : ℕ
  pub logs : ℕ

-- The contract, the node and the two clocks that are read.
pub record Chain (W : Type 0) : Type 0 where
  pub send_compressed_claims : W → TransactOpts → Bytes → W × Result Transaction
  pub check_tx_was_mined : W → Bytes → W × Result (Bool × Receipt)
  pub now : W → W × ℕ
  pub system_now : W → W × ℕ

-- `>=` of two int32 in two's complement.
abbrev pub int32_geb : ℕ → ℕ → Bool
int32_geb a b = leb ((b + 2 ^ 31) % 2 ^ 32) ((a + 2 ^ 31) % 2 ^ 32)

abbrev pub status_is : MonitoredTxGroupStatus → MonitoredTxGroupStatus → Bool
status_is group_created group_created = true
status_is group_claiming group_claiming = true
status_is group_failed group_failed = true
status_is group_confirmed group_confirmed = true
status_is s t = false

abbrev pub with_log : MonitoredTxGroup → LastLog → MonitoredTxGroup
with_log g log = record g { db_entry = record g.db_entry { last_log = log } }

abbrev pub receipt : ℕ → TxHashHistoryEntry → TxHashHistoryEntry
receipt status t = record t { receipt_status = some status }

-- The receipt of the claim at an index of the history.
abbrev pub with_receipt : MonitoredTxGroup → ℕ → ℕ → MonitoredTxGroup
with_receipt g index status = record g {
  db_entry = record g.db_entry {
    claim_tx_history = elim g.db_entry.claim_tx_history [
      | none ↦ none
      | some h ↦ some (record h { tx_hashes = update_at h.tx_hashes index (receipt status) })
    ];
  };
}

abbrev pub with_status : MonitoredTxStatus → MonitoredTx → MonitoredTx
with_status status tx = record tx { status = status }

abbrev pub all_txs : MonitoredTxStatus → List MonitoredTx → List MonitoredTx
all_txs status txs = map (with_status status) txs

unfoldable pub on_finish_claim_group_tx_successful :
    MonitoredTxGroup → ℕ → TxHashHistoryEntry → MonitoredTxGroup
on_finish_claim_group_tx_successful g index t = record {
  db_entry = record (with_receipt g index receipt_successful).db_entry {
    last_log = mined_successfully g.db_entry.group_id t.tx_hash;
    status = group_confirmed;
  };
  txs = all_txs confirmed g.txs;
}

unfoldable pub on_fail_group : MonitoredTxGroup → MonitoredTxGroup
on_fail_group g = record {
  db_entry = record g.db_entry {
    status = group_failed;
    last_log = maximum_retries g.db_entry.group_id;
  };
  txs = all_txs failed g.txs;
}

unfoldable pub on_finish_claim_group_tx_failed : MonitoredTxGroup → ℕ → LastLog → MonitoredTxGroup
on_finish_claim_group_tx_failed g index log = with_log (with_receipt g index receipt_failed) log

-- What the node's answer for a pending claim makes of the group, and whether the loop stops there.
unfoldable pub after_check :
    ℕ → TxHashHistoryEntry → Result (Bool × Receipt) → MonitoredTxGroup → MonitoredTxGroup × Bool
unfolding on_finish_claim_group_tx_successful on_finish_claim_group_tx_failed
after_check index t (err e) g = (with_log g (check_failed index t.tx_hash e), false)
after_check index t (ok (mined, r)) g =
    if not mined
    then (with_log g (not_mined_yet t.tx_hash), false)
    else if r.status == 1 && ltb 0 r.logs
    then (on_finish_claim_group_tx_successful g index t, true)
    else (on_finish_claim_group_tx_failed g index (receipt_failed_or_no_logs t.tx_hash), false)

-- A group that has used its retries fails, whatever its status is.
unfoldable pub fail_if_exhausted : ConfigGroupingClaims → MonitoredTxGroup → MonitoredTxGroup
unfolding on_fail_group
fail_if_exhausted cfg g =
    if int32_geb g.db_entry.num_retries cfg.max_retries then on_fail_group g else g

unfoldable pub some_pending : List TxHashHistoryEntry → Bool
some_pending [] = false
some_pending (t ∷ ts) =
    let rest = some_pending ts in if is_pending t && not (is_outdated t) then true else rest

-- A claim has been sent: it waits for its receipt.
unfoldable pub on_sent : MonitoredTxGroup → Bytes → ℕ → MonitoredTxGroup
unfolding add_pending_tx
on_sent g tx_hash time = record g {
  db_entry = record (add_pending_tx g.db_entry tx_hash time) {
    status = group_claiming;
    num_retries = (g.db_entry.num_retries + 1) % 2 ^ 32;
  };
}

module _ {W : Type 0} (chain : Chain W) where
  -- The loop of `CheckReceipts` over the history of a group, from an index on; it stops at a success.
  unfoldable pub check_receipts_from :
      W → MonitoredTxGroup → ℕ → List TxHashHistoryEntry → W × MonitoredTxGroup
  unfolding after_check
  check_receipts_from w g index [] = (w, g)
  check_receipts_from w g index (t ∷ ts) =
      let (w', checked) = chain.check_tx_was_mined w t.tx_hash in
      let (g', stop) = after_check index t checked g in
      let rest = check_receipts_from w' g' (index + 1) ts in
      let skipped = check_receipts_from w g (index + 1) ts in
      if is_pending t then (if stop then (w', g') else rest) else skipped

  -- A claiming group with a nil history would panic.
  unfoldable pub check_receipts_of : W → MonitoredTxGroup → W × Result MonitoredTxGroup
  unfolding check_receipts_from
  check_receipts_of w g =
      if status_is g.db_entry.status group_claiming
      then elim g.db_entry.claim_tx_history [
        | none ↦ (w, err panic)
        | some h ↦ let (w', g') = check_receipts_from w g 0 h.tx_hashes in (w', ok g')
      ]
      else (w, ok g)

  module _ (cfg : ConfigGroupingClaims) where
    -- The loop of `OutdateClaims` over the history of a group.
    unfoldable pub outdate_from :
        W → MonitoredTxGroup → ℕ → List TxHashHistoryEntry → W × MonitoredTxGroup
    unfolding on_finish_claim_group_tx_failed
    outdate_from w g index [] = (w, g)
    outdate_from w g index (t ∷ ts) =
        let (w', time) = chain.now w in
        let g' =
          if is_exhausted_time_waiting_for_receipt t time cfg.retry_timeout
          then on_finish_claim_group_tx_failed g index (maximum_wait_time t.tx_hash)
          else g in
        let rest = outdate_from w' g' (index + 1) ts in
        let skipped = outdate_from w g (index + 1) ts in if is_pending t then rest else skipped

    unfoldable pub outdate_claims_of : W → MonitoredTxGroup → W × Result MonitoredTxGroup
    unfolding outdate_from fail_if_exhausted
    outdate_claims_of w g =
        if status_is g.db_entry.status group_claiming
        then elim g.db_entry.claim_tx_history [
          | none ↦ (w, err panic)
          | some h ↦
              let (w', g') = outdate_from w g 0 h.tx_hashes in (w', ok (fail_if_exhausted cfg g'))
        ]
        else (w, ok (fail_if_exhausted cfg g))

    -- The last claim was sent long enough ago.
    abbrev retry_due : W → TxHistoryV2 → W × Bool
    retry_due w h = elim (get_more_recent_tx h) [
      | none ↦ (w, true)
      | some t ↦ let (w', time) = chain.now w in (w', leb (t.created_at + cfg.retry_interval) time)
    ]

    unfoldable pub can_send_new_claim_call : W → MonitoredTxGroup → W × Bool
    unfolding some_pending get_more_recent_tx
    can_send_new_claim_call w g =
        if status_is g.db_entry.status group_created
        then (w, true)
        else elim g.db_entry.claim_tx_history [
          | none ↦ (w, true)
          | some h ↦
              if length h.tx_hashes == 0
              then (w, true)
              else if some_pending h.tx_hashes
              then (w, false)
              else if int32_geb g.db_entry.num_retries cfg.max_retries
              then (w, false)
              else retry_due w h
        ]

    module _ (auth : TransactOpts) (gas_offset : ℕ) where
      -- The gas is estimated by a call that sends nothing.
      unfoldable pub send_claim_now : W → MonitoredTxGroup → Bytes → W × MonitoredTxGroup
      unfolding on_sent
      send_claim_now w g compressed =
          let (w', estimated) =
            chain.send_compressed_claims w (record auth { no_send = true }) compressed in
          elim estimated [
            | err e ↦ (w', with_log g (send_failed g.db_entry.group_id e))
            | ok estimated_tx ↦
                let (w'', sent) =
                  chain.send_compressed_claims w'
                    (record {
                      no_send = false;
                      gas_limit = (estimated_tx.gas + gas_offset) % 2 ^ 64;
                    })
                    compressed in
                elim sent [
                  | err e ↦ (w'', with_log g (send_failed g.db_entry.group_id e))
                  | ok tx ↦ let (w3, time) = chain.system_now w'' in (w3, on_sent g tx.hash time)
                ]
          ]

      unfoldable pub send_claim : Bool → W → MonitoredTxGroup → W × Result MonitoredTxGroup
      unfolding can_send_new_claim_call send_claim_now
      send_claim only_first_one w g = elim g.db_entry.compressed_tx_data [
        | none ↦ (w, ok g)
        | some compressed ↦
            let (w', can_send) = can_send_new_claim_call w g in
            let (w'', g') = send_claim_now w' g compressed in
            if not can_send
            then (w', ok g)
            else if only_first_one && not (is_claim_tx_history_empty g.db_entry)
            then (w', ok g)
            else (w'', ok g')
      ]
