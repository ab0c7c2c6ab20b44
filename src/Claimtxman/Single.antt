-- ===== src/Claimtxman/Single.antt =====
-- claimtxman/monitortxs.go: the monitoring of claims that are sent one by one. The state `W` stands
-- for the node, which each call may change; the sleeps between retries are left out.
use xlayer_bridge_service.Base.{
  ℕ, zero, suc, ◌-◌, ◌*◌, Bool, true, false, ◌&&◌, Option, none, some, List, [], ◌∷◌, Result, ok,
  err, Error, already_exists, tx_not_found, execution_reverted, if◌then◌else◌, ltb, leb, length,
  ◌==◌,
}
pub mod Round
pub mod Bounded
pub mod Steps
pub mod Confirmed
mod Tests
use xlayer_bridge_service.Etherman.{Bytes}
use xlayer_bridge_service.Claimtxman.Types.{
  MonitoredTx, MonitoredTxStatus, created, failed, confirmed, add_history, remove_history,
}
use xlayer_bridge_service.Claimtxman.NonceCache.{NonceLru, get_next_nonce}

pub record SignedTx : Type 0 where
  pub hash_of : Bytes
  pub nonce : ℕ

-- The client of the L2 node, and the signer of the transactor.
pub record L2Node (W : Type 0) : Type 0 where
  pub check_tx_was_mined : W → Bytes → W × Result (Option ℕ)  -- the status of the receipt, if mined
  pub transaction_by_hash : W → Bytes → W × Result (Unit {0})
  pub estimate_gas : W → MonitoredTx → W × Result ℕ
  pub suggest_gas_price : W → W × Result ℕ
  pub nonce_at : W → Bytes → W × Result ℕ
  pub send_transaction : W → SignedTx → W × Result (Unit {0})
  pub sign : MonitoredTx → Result SignedTx
  pub mentions_nonce : Error → Bool

pub record SingleConfig : Type 0 where
  pub retry_number : ℕ

-- The results of `checkTxHistory`.
pub record Checked : Type 0 where
  pub has_failed_receipts : Bool
  pub all_history_tx_mined : Bool
  pub receipt_successful : Bool

abbrev pub max_history_size : ℕ
max_history_size = 10

abbrev pub is_not_found : Error → Bool
is_not_found e = elim e [ tx_not_found ↦ true | _ ↦ false ]

abbrev pub is_reverted : Error → Bool
is_reverted e = elim e [ execution_reverted ↦ true | _ ↦ false ]

module _ {W : Type 0} (node : L2Node W) where
  -- So many retries after the first look into the pool.
  unfoldable pub find_in_pool : ℕ → W → Bytes → W × Result (Unit {0})
  find_in_pool zero w h = node.transaction_by_hash w h
  find_in_pool (suc retries) w h =
      let (w', found) = node.transaction_by_hash w h in
      let again = find_in_pool retries w' h in elim found [ ok t ↦ (w', ok t) | err e ↦ again ]

  -- What a transaction that is not mined tells, by whether the pool has it.
  abbrev pub not_mined : Checked → Result (Unit {0}) → Checked
  not_mined checked found = elim found [
    | ok t ↦ record checked { all_history_tx_mined = false }
    | err e ↦ if is_not_found e then record checked { has_failed_receipts = true } else checked
  ]

  unfoldable pub check_history : ℕ → W → List Bytes → Checked → W × Checked
  unfolding find_in_pool
  check_history retries w [] checked = (w, checked)
  check_history retries w (h ∷ hs) checked =
      let (w', mined) = node.check_tx_was_mined w h in
      let (w'', found) = find_in_pool retries w' h in
      let unknown = check_history retries w' hs checked in
      let pending = check_history retries w'' hs (not_mined checked found) in
      let reverted = check_history retries w' hs (record checked { has_failed_receipts = true }) in
      elim mined [
        | err e ↦ unknown
        | ok none ↦ pending
        | ok (some receipt_status) ↦
            if receipt_status == 1
            then (w', record checked { receipt_successful = true })
            else reverted
      ]

  abbrev pub nothing_checked : Checked
  nothing_checked = record {
    has_failed_receipts = false;
    all_history_tx_mined = true;
    receipt_successful = false;
  }

  abbrev pub check_tx_history : SingleConfig → W → MonitoredTx → W × Checked
  check_tx_history cfg w tx = check_history cfg.retry_number w tx.history nothing_checked

  -- So many retries after the first estimate, none of a call that is reverted.
  unfoldable pub estimate : ℕ → W → MonitoredTx → W × Result ℕ
  estimate zero w tx = node.estimate_gas w tx
  estimate (suc retries) w tx =
      let (w', gas) = node.estimate_gas w tx in
      let again = estimate retries w' tx in
      elim gas [ ok g ↦ (w', ok g) | err e ↦ if is_reverted e then (w', err e) else again ]

  module _ {C : Type 0} (lru : NonceLru C) (cfg : SingleConfig) where
    abbrev pub with_gas : MonitoredTx → ℕ → MonitoredTx
    with_gas tx gas = record tx { gas = if ltb tx.gas gas then gas else tx.gas }

    abbrev pub with_nonce : MonitoredTx → ℕ → MonitoredTx
    with_nonce tx nonce = record tx { nonce = if ltb tx.nonce nonce then nonce else tx.nonce }

    -- The claim that it points to keeps its gas where the nonce then fails.
    unfoldable pub review_monitored_tx :
        W → C → MonitoredTx → Bool → W × C × MonitoredTx × Result (Unit {0})
    unfolding estimate get_next_nonce
    review_monitored_tx w c tx review_nonce =
        let (w', estimated) = estimate (cfg.retry_number - 1) w tx in
        elim estimated [
          | err e ↦ (w', c, tx, err e)
          | ok gas ↦
              let tx' = with_gas tx gas in
              let (w'', c', next) = get_next_nonce node.nonce_at lru w' c tx.from in
              if review_nonce
              then elim next [
                | err e ↦ (w'', c', tx', err e)
                | ok nonce ↦ (w'', c', with_nonce tx' nonce, ok tt)
              ]
              else (w', c, tx', ok tt)
        ]
