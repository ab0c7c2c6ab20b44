-- ===== src/Claimtxman/Single/Tests.antt =====
-- A claim whose second transaction was mined, and the nonces of its sender.
use xlayer_bridge_service.Base.{
  ℕ, suc, ◌+◌, ◌<◌, ◌^◌, true, false, Option, none, some, List, [], ◌∷◌, Result, ok, err,
  tx_not_found, ◌≡◌, refl, arith, ◌⊎◌, All, if◌then◌else◌,
}
use xlayer_bridge_service.Etherman.{Bytes, bytes_eq}
use xlayer_bridge_service.Claimtxman.Types.{
  MonitoredTx, created, confirmed, add_history, in_history,
}
use xlayer_bridge_service.Claimtxman.NonceCache.{NonceLru, above_cached, get_next_nonce}
use xlayer_bridge_service.Claimtxman.NonceCache.Increasing.{
  next_nonces, IsIncreasing, next_nonces-IsIncreasing,
}
use xlayer_bridge_service.Claimtxman.Single.{
  L2Node, SingleConfig, check_history, find_in_pool, check_tx_history, estimate,
  review_monitored_tx,
}
use xlayer_bridge_service.Claimtxman.Single.Round.{
  SingleStorage, monitor_tx, send_again, sign_and_send, send_signed, monitor_txs,
}
use xlayer_bridge_service.Claimtxman.Single.Bounded.{IsNext, IfStored}
use xlayer_bridge_service.Claimtxman.Single.Steps.{
  monitor_tx-IsNext, BoundedStorage, IsBounded, monitor_txs-Holds,
}
use xlayer_bridge_service.Claimtxman.Single.Confirmed.{some_success, monitor_tx-some_success}

-- The receipt of the hash 2 is a success, that of 1 a failure; the others are not mined.
abbrev mined_of : Bytes → Result (Option ℕ)
mined_of h =
    if bytes_eq h (2 ∷ [])
    then ok (some 1)
    else if bytes_eq h (1 ∷ [])
    then ok (some 0)
    else ok none

-- The state counts the transactions that were sent.
abbrev a_node : L2Node ℕ
a_node = record {
  check_tx_was_mined = λ w h. (w, mined_of h);
  transaction_by_hash = λ w h. (w, err tx_not_found);
  estimate_gas = λ w tx. (w, ok 100);
  suggest_gas_price = λ w. (w, ok 7);
  nonce_at = λ w from. (w, ok 5);
  send_transaction = λ w signed. (suc w, ok tt);
  sign = λ tx. ok (record { hash_of = 9 ∷ []; nonce = tx.nonce });
  mentions_nonce = λ e. false;
}

-- A cache of one entry.
abbrev last_nonce : NonceLru (Option ℕ)
last_nonce = record { get = λ c from. (c, c); add = λ c from n. some n; remove = λ c from. none }

abbrev sent_claim : List Bytes → MonitoredTx
sent_claim history = record {
  deposit_id = 4;
  from = [];
  to = none;
  nonce = 3;
  value = 0;
  data_of = [];
  gas = 50;
  gas_price = 1;
  status = created;
  history = history;
  created_at = 0;
  updated_at = 0;
  group_id = none;
  global_exit_root = [];
}

abbrev no_retry : SingleConfig
no_retry = record { retry_number = 0 }

next_nonces_run : next_nonces a_node.nonce_at last_nonce [] 3 0 none ≡ 5 ∷ 6 ∷ 7 ∷ []
unfolding next_nonces get_next_nonce above_cached
next_nonces_run = refl

small_nonces : All (λ (n : ℕ). n + 1 < 2 ^ 64) (next_nonces a_node.nonce_at last_nonce [] 3 0 none)
unfolding next_nonces get_next_nonce above_cached
small_nonces = (omega arith, (omega arith, (omega arith, tt)))

next_nonces-IsIncreasing_example : IsIncreasing (next_nonces a_node.nonce_at last_nonce [] 3 0 none)
next_nonces-IsIncreasing_example =
    next_nonces-IsIncreasing a_node.nonce_at last_nonce [] (λ c n. refl) 3 0 none small_nonces

-- After a failed receipt the claim is reviewed, signed and sent.
monitor_tx_run :
    monitor_tx a_node last_nonce no_retry 0 none false (sent_claim ((1 ∷ []) ∷ [])) ≡ record {
      node_state = 1;
      nonces = some 5;
      is_reset_nonce = false;
      to_store =
          some (record (sent_claim ((1 ∷ []) ∷ (9 ∷ []) ∷ [])) {
            nonce = 5;
            gas = 100;
            gas_price = 70;
          });
    }
unfolding monitor_tx send_again sign_and_send send_signed check_history find_in_pool
    review_monitored_tx estimate get_next_nonce above_cached add_history in_history bytes_eq
monitor_tx_run = refl

monitor_tx-IsNext_example :
    IfStored
      (IsNext 10 (sent_claim ((1 ∷ []) ∷ [])))
      (monitor_tx a_node last_nonce no_retry 0 none false (sent_claim ((1 ∷ []) ∷ []))).to_store
monitor_tx-IsNext_example =
    monitor_tx-IsNext a_node last_nonce no_retry 0 none false (sent_claim ((1 ∷ []) ∷ []))
      (omega arith)

monitor_tx-some_success_example :
    let tx = sent_claim ((1 ∷ []) ∷ (2 ∷ []) ∷ []) in
    (some_success mined_of tx.history ≡ true)
      × ((monitor_tx a_node last_nonce no_retry 0 none false tx).to_store
          ≡ some (record tx { status = confirmed }))
    ⊎ (some_success mined_of tx.history ≡ false)
      × ((check_tx_history a_node no_retry 0 tx).1.receipt_successful ≡ false)
monitor_tx-some_success_example =
    monitor_tx-some_success a_node mined_of (λ w h. refl) last_nonce no_retry 0 none false
      (sent_claim ((1 ∷ []) ∷ (2 ∷ []) ∷ []))

abbrev claims_list : SingleStorage (List MonitoredTx)
claims_list = record {
  begin_db_transaction = λ s. ok s;
  get_created_claim_txs = λ s. ok s;
  update_claim_tx = λ s tx. ok (tx ∷ []);
  commit = λ s. ok s;
  rollback = λ s. ok tt;
}

claims_list-BoundedStorage : BoundedStorage claims_list (All IsBounded)
claims_list-BoundedStorage = record {
  begin_keeps = λ s holds. holds;
  reads_bounded = λ s holds. holds;
  update_keeps = λ s tx holds bounded. (bounded, tt);
  commit_keeps = λ s holds. holds;
}

monitor_txs-Holds_example :
    All IsBounded
      (monitor_txs a_node last_nonce no_retry claims_list 0 none
        (sent_claim ((1 ∷ []) ∷ []) ∷ [])).2
monitor_txs-Holds_example =
    monitor_txs-Holds a_node last_nonce no_retry claims_list (All IsBounded)
      claims_list-BoundedStorage 0 none (sent_claim ((1 ∷ []) ∷ []) ∷ []) (omega arith, tt)
