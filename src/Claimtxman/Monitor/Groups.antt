-- ===== src/Claimtxman/Monitor/Groups.antt =====
-- What holds of every group between the steps of a round, and why each step keeps it.
use xlayer_bridge_service.Base.{
  if_both, ℕ, zero, suc, ◌+◌, ◌≤◌, ◌≡◌, refl, sym, ap, ◌∙◌, ◌⊎◌, inl, inr, Bool, true, false, not,
  ◌&&◌, Option, none, some, List, [], ◌∷◌, ◌++◌, Result, ok, err, arith, if◌then◌else◌, length,
  update_at, ltb, ◌==◌, Bool-cases, Option-cases,
}
use xlayer_bridge_service.Claimtxman.Types.{
  MonitoredTxGroup, TxHistoryV2, TxHashHistoryEntry, LastLog, group_created, group_claiming,
  is_pending, tx_hashes_of, receipt_failed, receipt_successful, maximum_wait_time,
}
use xlayer_bridge_service.Claimtxman.Trigger.{ConfigGroupingClaims}
use xlayer_bridge_service.Claimtxman.Monitor.Defs.{
  Chain, Receipt, status_is, with_log, with_receipt, receipt, on_finish_claim_group_tx_successful,
  on_finish_claim_group_tx_failed, on_fail_group, after_check, check_receipts_from,
  check_receipts_of, outdate_from, outdate_claims_of, fail_if_exhausted, some_pending, int32_geb,
}

-- The claims that were sent and have no receipt.
unfoldable pub in_flight : List TxHashHistoryEntry → ℕ
in_flight [] = 0
in_flight (t ∷ ts) = (if is_pending t then 1 else 0) + in_flight ts

-- The retries count the claims sent, at most one of which waits for its receipt; a group that is new
-- has sent none, and one that is claiming has a history.
pub record IsGroup (max_retries : ℕ) (g : MonitoredTxGroup) : Type 0 where
  pub counted : g.db_entry.num_retries ≡ length (tx_hashes_of g.db_entry)
  pub fresh :
      status_is g.db_entry.status group_created ≡ true → length (tx_hashes_of g.db_entry) ≡ 0
  pub single : in_flight (tx_hashes_of g.db_entry) ≤ 1
  pub bounded : (g.db_entry.num_retries ≤ 1) ⊎ (g.db_entry.num_retries ≤ max_retries)
  pub has_history :
      status_is g.db_entry.status group_claiming ≡ true
      → (h : TxHistoryV2) × (g.db_entry.claim_tx_history ≡ some h)

in_flight-update_at :
    (ts : List TxHashHistoryEntry) (i s : ℕ) → in_flight (update_at ts i (receipt s)) ≤ in_flight ts
unfolding in_flight
in_flight-update_at [] i s = omega arith
in_flight-update_at (t ∷ ts) zero s = omega arith
in_flight-update_at (t ∷ ts) (suc i) s = omega (arith, in_flight-update_at ts i s)

length-update_at {ℓ} :
    {A : Type ℓ} (xs : List A) (i : ℕ) (f : A → A) → length (update_at xs i f) ≡ length xs
length-update_at [] i f = refl
length-update_at (x ∷ xs) zero f = refl
length-update_at (x ∷ xs) (suc i) f = ap suc (length-update_at xs i f)

pub in_flight-append :
    (ts us : List TxHashHistoryEntry) → in_flight (ts ++ us) ≡ in_flight ts + in_flight us
unfolding in_flight
in_flight-append [] us = omega arith
in_flight-append (t ∷ ts) us = omega (arith, in_flight-append ts us)

pub none_pending : (ts : List TxHashHistoryEntry) → some_pending ts ≡ false → in_flight ts ≡ 0
unfolding some_pending in_flight
none_pending [] h = refl
none_pending (t ∷ ts) h = go t.receipt_status (λ k. none_pending ts k) h
  where
    go :
        (o : Option ℕ)
        → (some_pending ts ≡ false → in_flight ts ≡ 0)
        → (if (elim o [ none ↦ true | some s ↦ false ])
              && not (elim o [ none ↦ false | some s ↦ s == 2 ])
            then true
            else some_pending ts)
          ≡ false
        → (if elim o [ none ↦ true | some s ↦ false ] then 1 else 0) + in_flight ts ≡ 0
    go none rest k = cc
    go (some s) rest k = omega (arith, rest k)

hashes-with_receipt :
    (g : MonitoredTxGroup) (i s : ℕ)
    → tx_hashes_of (with_receipt g i s).db_entry ≡ update_at (tx_hashes_of g.db_entry) i (receipt s)
hashes-with_receipt g i s = elim (Option-cases g.db_entry.claim_tx_history) [
  | inl nil ↦ rw nil refl
  | inr (h, e) ↦ rw e refl
]

module _ {max_retries : ℕ} where
  pub with_log-IsGroup :
      (g : MonitoredTxGroup) (log : LastLog)
      → IsGroup max_retries g
      → IsGroup max_retries (with_log g log)
  with_log-IsGroup g log inv = record {
    counted = inv.counted;
    fresh = inv.fresh;
    single = inv.single;
    bounded = inv.bounded;
    has_history = inv.has_history;
  }

  with_receipt-IsGroup :
      (g : MonitoredTxGroup) (i s : ℕ)
      → IsGroup max_retries g
      → IsGroup max_retries (with_receipt g i s)
  with_receipt-IsGroup g i s inv = record {
    counted =
        inv.counted
        ∙ sym (
            ap length (hashes-with_receipt g i s)
            ∙ length-update_at (tx_hashes_of g.db_entry) i (receipt s));
    fresh = λ new.
        ap length (hashes-with_receipt g i s)
        ∙ length-update_at (tx_hashes_of g.db_entry) i (receipt s)
        ∙ inv.fresh new;
    single =
        rw (hashes-with_receipt g i s)
          (omega (arith, inv.single, in_flight-update_at (tx_hashes_of g.db_entry) i s));
    bounded = inv.bounded;
    has_history = λ claims.
        let (h, e) = inv.has_history claims in
        (record h { tx_hashes = update_at h.tx_hashes i (receipt s) }, rw e refl);
  }

  -- A step that changes only the status and the log, to a status that is not claiming or new.
  settled-IsGroup :
      (g g' : MonitoredTxGroup)
      → IsGroup max_retries g
      → g'.db_entry.num_retries ≡ g.db_entry.num_retries
      → g'.db_entry.claim_tx_history ≡ g.db_entry.claim_tx_history
      → status_is g'.db_entry.status group_created ≡ false
      → status_is g'.db_entry.status group_claiming ≡ false
      → IsGroup max_retries g'
  settled-IsGroup g g' inv same_retries same_history old idle = record {
    counted = same_retries ∙ inv.counted ∙ sym (ap length same_hashes);
    fresh = λ new. cc;
    single = rw same_hashes inv.single;
    bounded = rw same_retries inv.bounded;
    has_history = λ claims. cc;
  }
    where
      same_hashes : tx_hashes_of g'.db_entry ≡ tx_hashes_of g.db_entry
      same_hashes = ap (λ o. elim o [ none ↦ [] | some h ↦ h.tx_hashes ]) same_history

  on_fail_group-IsGroup :
      (g : MonitoredTxGroup) → IsGroup max_retries g → IsGroup max_retries (on_fail_group g)
  unfolding on_fail_group
  on_fail_group-IsGroup g inv = settled-IsGroup g (on_fail_group g) inv refl refl refl refl

  failed_try-IsGroup :
      (g : MonitoredTxGroup) (i : ℕ) (log : LastLog)
      → IsGroup max_retries g
      → IsGroup max_retries (on_finish_claim_group_tx_failed g i log)
  unfolding on_finish_claim_group_tx_failed
  failed_try-IsGroup g i log inv =
      with_log-IsGroup (with_receipt g i receipt_failed) log
        (with_receipt-IsGroup g i receipt_failed inv)

  success-IsGroup :
      (g : MonitoredTxGroup) (i : ℕ) (t : TxHashHistoryEntry)
      → IsGroup max_retries g
      → IsGroup max_retries (on_finish_claim_group_tx_successful g i t)
  unfolding on_finish_claim_group_tx_successful
  success-IsGroup g i t inv =
      settled-IsGroup (with_receipt g i receipt_successful)
        (on_finish_claim_group_tx_successful g i t)
        (with_receipt-IsGroup g i receipt_successful inv) refl refl refl refl

  after_check-IsGroup :
      (i : ℕ) (t : TxHashHistoryEntry) (checked : Result (Bool × Receipt)) (g : MonitoredTxGroup)
      → IsGroup max_retries g
      → IsGroup max_retries (after_check i t checked g).0
  unfolding after_check
  after_check-IsGroup i t (err e) g inv = with_log-IsGroup g _ inv
  after_check-IsGroup i t (ok (mined, r)) g inv =
      if_both (λ (x : MonitoredTxGroup × Bool). IsGroup max_retries x.0) (not mined)
        (with_log-IsGroup g _ inv)
        (if_both (λ (x : MonitoredTxGroup × Bool). IsGroup max_retries x.0)
          (r.status == 1 && ltb 0 r.logs) (success-IsGroup g i t inv)
          (failed_try-IsGroup g i _ inv))

  module _ {W : Type 0} (chain : Chain W) where
    check_receipts_from-IsGroup :
        (w : W) (g : MonitoredTxGroup) (i : ℕ) (ts : List TxHashHistoryEntry)
        → IsGroup max_retries g
        → IsGroup max_retries (check_receipts_from chain w g i ts).1
    unfolding check_receipts_from
    check_receipts_from-IsGroup w g i [] inv = inv
    check_receipts_from-IsGroup w g i (t ∷ ts) inv =
        let (w', checked) = chain.check_tx_was_mined w t.tx_hash in
        let step = after_check i t checked g in
        let inv' = after_check-IsGroup i t checked g inv in
        if_both (λ (x : W × MonitoredTxGroup). IsGroup max_retries x.1) (is_pending t)
          (if_both (λ (x : W × MonitoredTxGroup). IsGroup max_retries x.1) step.1 inv'
            (check_receipts_from-IsGroup w' step.0 (i + 1) ts inv'))
          (check_receipts_from-IsGroup w g (i + 1) ts inv)

    pub check_receipts_of-IsGroup :
        (w : W) (g : MonitoredTxGroup)
        → IsGroup max_retries g
        → (g' : MonitoredTxGroup) × ((check_receipts_of chain w g).1 ≡ ok g')
          × IsGroup max_retries g'
    unfolding check_receipts_of
    check_receipts_of-IsGroup w g inv =
        elim (Bool-cases (status_is g.db_entry.status group_claiming)) [
          | inl claims ↦
              let (h, e) = inv.has_history claims in
              rw (claims, e)
                (
                  (check_receipts_from chain w g 0 h.tx_hashes).1,
                  refl,
                  check_receipts_from-IsGroup w g 0 h.tx_hashes inv,
                )
          | inr idle ↦ rw idle (g, refl, inv)
        ]

    module _ (cfg : ConfigGroupingClaims) where
      outdate_from-IsGroup :
          (w : W) (g : MonitoredTxGroup) (i : ℕ) (ts : List TxHashHistoryEntry)
          → IsGroup max_retries g
          → IsGroup max_retries (outdate_from chain cfg w g i ts).1
      unfolding outdate_from
      outdate_from-IsGroup w g i [] inv = inv
      outdate_from-IsGroup w g i (t ∷ ts) inv =
          let (w', time) = chain.now w in
          let late = ltb (t.created_at + cfg.retry_timeout) time in
          let inv' =
            if_both (λ x. IsGroup max_retries x) late
              (failed_try-IsGroup g i (maximum_wait_time t.tx_hash) inv) inv in
          if_both (λ (x : W × MonitoredTxGroup). IsGroup max_retries x.1) (is_pending t)
            (outdate_from-IsGroup w' _ (i + 1) ts inv') (outdate_from-IsGroup w g (i + 1) ts inv)

      fail_if_exhausted-IsGroup :
          (g : MonitoredTxGroup)
          → IsGroup max_retries g
          → IsGroup max_retries (fail_if_exhausted cfg g)
      unfolding fail_if_exhausted
      fail_if_exhausted-IsGroup g inv =
          if_both (λ x. IsGroup max_retries x) (int32_geb g.db_entry.num_retries cfg.max_retries)
            (on_fail_group-IsGroup g inv) inv

      pub outdate_claims_of-IsGroup :
          (w : W) (g : MonitoredTxGroup)
          → IsGroup max_retries g
          → (g' : MonitoredTxGroup) × ((outdate_claims_of chain cfg w g).1 ≡ ok g')
            × IsGroup max_retries g'
      unfolding outdate_claims_of
      outdate_claims_of-IsGroup w g inv =
          elim (Bool-cases (status_is g.db_entry.status group_claiming)) [
            | inl claims ↦
                let (h, e) = inv.has_history claims in
                rw (claims, e)
                  (
                    fail_if_exhausted cfg (outdate_from chain cfg w g 0 h.tx_hashes).1,
                    refl,
                    fail_if_exhausted-IsGroup (outdate_from chain cfg w g 0 h.tx_hashes).1
                        (outdate_from-IsGroup w g 0 h.tx_hashes inv),
                  )
            | inr idle ↦ rw idle (fail_if_exhausted cfg g, refl, fail_if_exhausted-IsGroup g inv)
          ]
