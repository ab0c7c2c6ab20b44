-- ===== src/Claimtxman/Single/Steps.antt =====
-- A round of MonitorTxs keeps each claim the same claim, with a bounded history.
use xlayer_bridge_service.Base.{
  ℕ, ◌*◌, ◌≤◌, ◌<◌, Bool, true, false, ◌&&◌, Option, none, some, List, [], ◌∷◌, ok, err, Error, leb,
  length, refl, arith, if_cases, Result-cases, inl, inr, All, Returns,
}
use xlayer_bridge_service.Claimtxman.Types.{
  MonitoredTx, MonitoredTxStatus, failed, confirmed, remove_history,
}
use xlayer_bridge_service.Claimtxman.NonceCache.{NonceLru}
use xlayer_bridge_service.Claimtxman.Single.{
  SignedTx, L2Node, SingleConfig, max_history_size, is_not_found, check_tx_history,
  review_monitored_tx,
}
use xlayer_bridge_service.Claimtxman.Single.Round.{
  Step, SingleStorage, recorded, after_refusal, send_signed, sign_and_send, send_again, monitor_tx,
  store_step, monitor_all, monitor_txs,
}
use xlayer_bridge_service.Claimtxman.Single.Bounded.{
  IsNext, IsNext-trans, same_claim, remove_history-IsNext, recorded-IsNext, review-IsNext, IfStored,
}

module _ {W C : Type 0} (node : L2Node W) (lru : NonceLru C) (cfg : SingleConfig)
    (base : MonitoredTx) where
  Keeps : Step W C → Type 0
  Keeps s = IfStored (IsNext 10 base) s.to_store

  after_refusal-Keeps :
      (w : W) (c : C) (reset : Bool) (tx : MonitoredTx) (signed : SignedTx) (e : Error)
      → IsNext 10 base tx
      → Keeps (after_refusal node lru cfg w c reset tx signed e)
  unfolding Keeps after_refusal
  after_refusal-Keeps w c reset tx signed e next =
      let removed = remove_history-IsNext tx signed.hash_of 10 next.bounded in
      IsNext-trans next (
        IsNext-trans removed (
          review-IsNext node lru cfg w _ (remove_history tx signed.hash_of) (node.mentions_nonce e)
            10 removed.bounded))

  send_signed-Keeps :
      (w : W) (c : C) (reset : Bool) (tx : MonitoredTx) (signed : SignedTx)
      → IsNext 10 base tx
      → Keeps (send_signed node lru cfg w c reset tx signed)
  unfolding Keeps send_signed
  send_signed-Keeps w c reset tx signed next =
      elim (Result-cases (node.transaction_by_hash w signed.hash_of).1) [
        | inl (t, found) ↦ rw (found, send_signed) next
        | inr (e, failed_look) ↦
            rw (failed_look, send_signed)
              (if_cases Keeps (is_not_found e)
                (λ missing.
                  elim (Result-cases
                    (node.send_transaction (node.transaction_by_hash w signed.hash_of).0
                      signed).1) [
                        | inl (t, sent) ↦ rw sent next
                        | inr (e', refused) ↦
                            rw refused (after_refusal-Keeps _ c reset tx signed e' next)
                      ])
                (λ other. next))
      ]

  sign_and_send-Keeps :
      (w : W) (c : C) (reset : Bool) (tx : MonitoredTx)
      → length tx.history < 10
      → IsNext 9 base tx
      → Keeps (sign_and_send node lru cfg w c reset tx)
  unfolding Keeps sign_and_send
  sign_and_send-Keeps w c reset tx lt next = elim (Result-cases (node.suggest_gas_price w).1) [
    | inr (e, no_price) ↦ rw (no_price, sign_and_send) tt
    | inl (p, price) ↦
        let priced : MonitoredTx = record tx { gas_price = p * 10 } in
        elim (Result-cases (node.sign priced)) [
          | inr (e, no_signature) ↦ rw (price, sign_and_send, no_signature) tt
          | inl (signed, signature) ↦
              rw (price, sign_and_send, signature)
                (send_signed-Keeps _ c reset (recorded priced signed) signed (
                  IsNext-trans next
                    (IsNext-trans (priced_tx tx p) (recorded-IsNext priced signed 10 lt))))
        ]
  ]
    where
      priced_tx :
          (tx : MonitoredTx) (p : ℕ)
          → IsNext (length tx.history) tx (record tx { gas_price = p * 10 })
      priced_tx tx p = record {
        same_id = refl;
        same_from = refl;
        same_to = refl;
        same_value = refl;
        same_data = refl;
        nonce_le = omega arith;
        gas_le = omega arith;
        bounded = omega arith;
      }

  send_again-Keeps :
      (w : W) (c : C) (reset : Bool) (tx : MonitoredTx) (has_failed_receipts : Bool)
      → IsNext 9 base tx
      → Keeps (send_again node lru cfg w c reset tx has_failed_receipts)
  unfolding Keeps send_again
  send_again-Keeps w c reset tx has_failed_receipts next =
      let reviewed = review-IsNext node lru cfg w c tx true 9 next.bounded in
      if_cases Keeps has_failed_receipts
        (λ has_failed. elim (Result-cases (review_monitored_tx node lru cfg w c tx true).3) [
          | inr (e, failed_review) ↦ rw failed_review tt
          | inl (t, passed) ↦ rw passed (
              sign_and_send-Keeps _ _ reset _ (omega (arith, reviewed.bounded))
                (IsNext-trans next reviewed))
        ])
        (λ no_failed. sign_and_send-Keeps w c reset tx (omega (arith, next.bounded)) next)

ended :
    (tx : MonitoredTx) (status_of : MonitoredTxStatus)
    → length tx.history ≤ 10
    → IsNext 10 tx (record tx { status = status_of })
ended tx status_of le = record {
  same_id = refl;
  same_from = refl;
  same_to = refl;
  same_value = refl;
  same_data = refl;
  nonce_le = omega arith;
  gas_le = omega arith;
  bounded = le;
}

-- What is stored of a claim whose history has at most maxHistorySize transactions is the same claim
-- (its deposit, sender, receiver, value and data), with no lower nonce and gas, and again at most
-- maxHistorySize transactions; whatever the node, the signer and the cache of nonces answer.
pub monitor_tx-IsNext :
    {W C : Type 0} (node : L2Node W) (lru : NonceLru C) (cfg : SingleConfig) (w : W) (c : C)
    (reset : Bool) (tx : MonitoredTx)
    → length tx.history ≤ 10
    → IfStored (IsNext 10 tx) (monitor_tx node lru cfg w c reset tx).to_store
unfolding monitor_tx Keeps
monitor_tx-IsNext {W = W} {C = C} node lru cfg w c reset tx le =
    let checked = (check_tx_history node cfg w tx).1 in
    let P = λ (s : Step W C). IfStored (IsNext 10 tx) s.to_store in
    if_cases P checked.receipt_successful (λ mined. ended tx confirmed le)
      (λ not_yet.
        if_cases P (checked.all_history_tx_mined && leb max_history_size (length tx.history))
          (λ full. ended tx failed le)
          (λ room.
            if_cases P checked.all_history_tx_mined
              (λ all_mined.
                send_again-Keeps node lru cfg tx _ c reset tx checked.has_failed_receipts
                  (same_claim tx 9 (ground (arith, room, all_mined))))
              (λ waits. tt)))

-- The history of a claim has at most maxHistorySize transactions.
abbrev pub IsBounded : MonitoredTx → Type 0
IsBounded tx = length tx.history ≤ 10

-- The storage keeps claims with bounded histories, and gives back such claims.
pub record BoundedStorage {S : Type 0} (storage : SingleStorage S) (Holds : S → Type 0)
    : Type 0 where
  pub begin_keeps : (db : S) → Holds db → Returns Holds (storage.begin_db_transaction db)
  pub reads_bounded :
      (db : S) → Holds db → Returns (All IsBounded) (storage.get_created_claim_txs db)
  pub update_keeps :
      (db : S) (tx : MonitoredTx)
      → Holds db
      → IsBounded tx
      → Returns Holds (storage.update_claim_tx db tx)
  pub commit_keeps : (db : S) → Holds db → Returns Holds (storage.commit db)

module _ {W C S : Type 0} (node : L2Node W) (lru : NonceLru C) (cfg : SingleConfig)
    (storage : SingleStorage S) (Holds : S → Type 0) (keeps : BoundedStorage storage Holds) where
  store_step-Holds :
      (db : S) (tx : Option MonitoredTx)
      → Holds db
      → IfStored IsBounded tx
      → Holds (store_step node lru cfg storage db tx)
  unfolding store_step
  store_step-Holds db none holds bounded = holds
  store_step-Holds db (some tx) holds bounded =
      elim (storage.update_claim_tx db tx)
          as (λ r. Returns Holds r → Holds (elim r [ err e ↦ db | ok db' ↦ db' ])) [
            | err e ↦ λ kept. holds
            | ok db' ↦ λ kept. kept
          ]
        (keeps.update_keeps db tx holds bounded)

  is_bounded :
      (tx : MonitoredTx) (o : Option MonitoredTx) → IfStored (IsNext 10 tx) o → IfStored IsBounded o
  is_bounded tx none next = tt
  is_bounded tx (some tx') next = next.bounded

  monitor_all-Holds :
      (w : W) (c : C) (reset : Bool) (db : S) (txs : List MonitoredTx)
      → Holds db
      → All IsBounded txs
      → Holds (monitor_all node lru cfg storage w c reset db txs).2
  unfolding monitor_all
  monitor_all-Holds w c reset db [] holds bounded = holds
  monitor_all-Holds w c reset db (tx ∷ txs) holds bounded =
      let s = monitor_tx node lru cfg w c reset tx in
      monitor_all-Holds s.node_state s.nonces s.is_reset_nonce _ txs
        (store_step-Holds db s.to_store holds
          (is_bounded tx s.to_store (monitor_tx-IsNext node lru cfg w c reset tx bounded.0)))
        bounded.1

  -- MonitorTxs keeps the histories of the stored claims at maxHistorySize transactions or fewer,
  -- whether it commits or fails, if the storage keeps what is written to it.
  pub monitor_txs-Holds :
      (w : W) (c : C) (db : S) → Holds db → Holds (monitor_txs node lru cfg storage w c db).2
  unfolding monitor_txs
  monitor_txs-Holds w c db holds = elim (Result-cases (storage.begin_db_transaction db)) [
    | inr (e, refused) ↦ rw (refused, monitor_txs) holds
    | inl (tx, begun) ↦
        let in_tx : Holds tx = rw begun at (keeps.begin_keeps db holds) in
        elim (Result-cases (storage.get_created_claim_txs tx)) [
          | inr (e, unread) ↦ rw (begun, monitor_txs, unread) holds
          | inl (claims, read) ↦
              let few : All IsBounded claims = rw read at (keeps.reads_bounded tx in_tx) in
              let all = monitor_all node lru cfg storage w c false tx claims in
              let after : Holds all.2 = monitor_all-Holds w c false tx claims in_tx few in
              elim (Result-cases (storage.commit all.2)) [
                | inr (e, lost) ↦ rw (begun, monitor_txs, read, lost) holds
                | inl (db', committed) ↦
                    rw (begun, monitor_txs, read, committed)
                      (let done : Holds db' = rw committed at (keeps.commit_keeps all.2 after) in
                        done)
              ]
        ]
  ]
