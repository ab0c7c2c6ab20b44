-- ===== src/Claimtxman/Single/Round.antt =====
-- `MonitorTxs` of claimtxman/monitortxs.go: a round over the claims that were created.
use xlayer_bridge_service.Base.{
  ◌*◌, Bool, true, false, not, ◌&&◌, ◌||◌, Option, none, some, List, [], ◌∷◌, Result, ok, err,
  Error, if◌then◌else◌, leb, length,
}
use xlayer_bridge_service.Claimtxman.Types.{
  MonitoredTx, failed, confirmed, add_history, remove_history,
}
use xlayer_bridge_service.Claimtxman.NonceCache.{NonceLru}
use xlayer_bridge_service.Claimtxman.Single.{
  SignedTx, L2Node, SingleConfig, max_history_size, is_not_found, check_tx_history,
  review_monitored_tx, check_history,
}

-- The node, the cache of nonces, whether its entry was removed in this round; and the claim as it is
-- to be stored, none if this round leaves it.
pub record Step (W C : Type 0) : Type 0 where
  pub node_state : W
  pub nonces : C
  pub is_reset_nonce : Bool
  pub to_store : Option MonitoredTx

-- What a round asks of the storage.
pub record SingleStorage (S : Type 0) : Type 0 where
  pub begin_db_transaction : S → Result S
  pub get_created_claim_txs : S → Result (List MonitoredTx)
  pub update_claim_tx : S → MonitoredTx → Result S
  pub commit : S → Result S
  pub rollback : S → Result (Unit {0})

-- A transaction that is in the history already stays there; that is the only error.
abbrev pub recorded : MonitoredTx → SignedTx → MonitoredTx
recorded tx signed = elim (add_history tx signed.hash_of) [ ok t ↦ t | err e ↦ tx ]

abbrev pub step : {W C : Type 0} → W → C → Bool → Option MonitoredTx → Step W C
step w c reset store_step = record {
  node_state = w;
  nonces = c;
  is_reset_nonce = reset;
  to_store = store_step;
}

module _ {W C : Type 0} (node : L2Node W) (lru : NonceLru C) (cfg : SingleConfig) where
  -- The node refused the transaction: its history entry goes, and the claim is reviewed.
  unfoldable pub after_refusal : W → C → Bool → MonitoredTx → SignedTx → Error → Step W C
  unfolding review_monitored_tx
  after_refusal w c reset tx signed e =
      let of_nonce = node.mentions_nonce e in
      let c' = if of_nonce && not reset then lru.remove c tx.from else c in
      let (w', c'', tx', r) =
        review_monitored_tx node lru cfg w c' (remove_history tx signed.hash_of) of_nonce in
      step w' c'' (reset || of_nonce) (some tx')

  -- Sent unless the network has it.
  unfoldable pub send_signed : W → C → Bool → MonitoredTx → SignedTx → Step W C
  unfolding after_refusal
  send_signed w c reset tx signed =
      let (w', found) = node.transaction_by_hash w signed.hash_of in
      let (w'', sent) = node.send_transaction w' signed in
      elim found [
        | ok t ↦ step w' c reset (some tx)
        | err e ↦
            if is_not_found e
            then elim sent [
              | ok t ↦ step w'' c reset (some tx)
              | err e' ↦ after_refusal w'' c reset tx signed e'
            ]
            else step w' c reset (some tx)
      ]

  unfoldable pub sign_and_send : W → C → Bool → MonitoredTx → Step W C
  unfolding send_signed
  sign_and_send w c reset tx =
      let (w', price) = node.suggest_gas_price w in
      elim price [
        | err e ↦ step w' c reset none
        | ok p ↦
            let priced : MonitoredTx = record tx { gas_price = p * 10 } in
            elim (node.sign priced) [
              | err e ↦ step w' c reset none
              | ok signed ↦ send_signed w' c reset (recorded priced signed) signed
            ]
      ]

  -- A claim of which a transaction failed is reviewed before the next is sent.
  unfoldable pub send_again : W → C → Bool → MonitoredTx → Bool → Step W C
  unfolding sign_and_send review_monitored_tx
  send_again w c reset tx has_failed_receipts =
      let (w', c', tx', r) = review_monitored_tx node lru cfg w c tx true in
      if has_failed_receipts
      then elim r [ err e ↦ step w' c' reset none | ok t ↦ sign_and_send w' c' reset tx' ]
      else sign_and_send w c reset tx

  unfoldable pub monitor_tx : W → C → Bool → MonitoredTx → Step W C
  unfolding send_again check_history
  monitor_tx w c reset tx =
      let (w', checked) = check_tx_history node cfg w tx in
      if checked.receipt_successful
      then step w' c reset (some (record tx { status = confirmed }))
      else if checked.all_history_tx_mined && leb max_history_size (length tx.history)
      then step w' c reset (some (record tx { status = failed }))
      else if checked.all_history_tx_mined
      then send_again w' c reset tx checked.has_failed_receipts
      else step w' c reset none

  module _ {S : Type 0} (storage : SingleStorage S) where
    -- A claim that cannot be stored is passed over.
    unfoldable pub store_step : S → Option MonitoredTx → S
    store_step db none = db
    store_step db (some tx) = elim (storage.update_claim_tx db tx) [ err e ↦ db | ok db' ↦ db' ]

    unfoldable pub monitor_all : W → C → Bool → S → List MonitoredTx → W × C × S
    unfolding monitor_tx store_step
    monitor_all w c reset db [] = (w, c, db)
    monitor_all w c reset db (tx ∷ txs) =
        let s = monitor_tx w c reset tx in
        monitor_all s.node_state s.nonces s.is_reset_nonce (store_step db s.to_store) txs

    abbrev error_of : S → Error → Error
    error_of db e = elim (storage.rollback db) [ err r ↦ r | ok t ↦ e ]

    -- The storage is as before where the round ends with an error.
    unfoldable pub monitor_txs : W → C → S → W × C × S × Result (Unit {0})
    unfolding monitor_all
    monitor_txs w c db = elim (storage.begin_db_transaction db) [
      | err e ↦ (w, c, db, err e)
      | ok tx ↦ elim (storage.get_created_claim_txs tx) [
        | err e ↦ (w, c, db, err (error_of tx e))
        | ok claims ↦
            let (w', c', tx') = monitor_all w c false tx claims in
            elim (storage.commit tx') [
              | err e ↦ (w', c', db, err (error_of tx' e))
              | ok db' ↦ (w', c', db', ok tt)
            ]
      ]
    ]
