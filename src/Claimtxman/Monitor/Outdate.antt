-- ===== src/Claimtxman/Monitor/Outdate.antt =====
-- `OutdateClaims`: which groups fail.
use xlayer_bridge_service.Base.{
  if_both, ℕ, ◌+◌, ◌≡◌, refl, ap, inl, inr, true, false, List, [], ◌∷◌, ok, ltb, Bool-cases,
}
use xlayer_bridge_service.Claimtxman.Types.{
  MonitoredTx, MonitoredTxGroup, MonitoredTxGroupStatus, TxHashHistoryEntry, group_failed,
  group_claiming, failed, is_pending, LastLog,
}
use xlayer_bridge_service.Claimtxman.Trigger.{ConfigGroupingClaims}
use xlayer_bridge_service.Claimtxman.Monitor.Defs.{
  Chain, all_txs, status_is, int32_geb, on_fail_group, on_finish_claim_group_tx_failed,
  outdate_from, outdate_claims_of, fail_if_exhausted,
}
use xlayer_bridge_service.Claimtxman.Monitor.Groups.{IsGroup}

-- A group with this status, these retries and these claims.
Same : MonitoredTxGroupStatus → ℕ → List MonitoredTx → MonitoredTxGroup → Type 0
Same was retries txs g =
    (g.db_entry.status ≡ was) × (g.db_entry.num_retries ≡ retries) × (g.txs ≡ txs)

module _ {W : Type 0} (chain : Chain W) (cfg : ConfigGroupingClaims) where
  failed_try-Same :
      (was : MonitoredTxGroupStatus) (retries : ℕ) (txs : List MonitoredTx) (g : MonitoredTxGroup)
      (i : ℕ) (log : LastLog)
      → Same was retries txs g
      → Same was retries txs (on_finish_claim_group_tx_failed g i log)
  unfolding Same on_finish_claim_group_tx_failed
  failed_try-Same was retries txs g i log same = same

  outdate_from-Same :
      (was : MonitoredTxGroupStatus) (retries : ℕ) (txs : List MonitoredTx) (w : W)
      (g : MonitoredTxGroup) (i : ℕ) (ts : List TxHashHistoryEntry)
      → Same was retries txs g
      → Same was retries txs (outdate_from chain cfg w g i ts).1
  unfolding outdate_from
  outdate_from-Same was retries txs w g i [] same = same
  outdate_from-Same was retries txs w g i (t ∷ ts) same =
      let (w', time) = chain.now w in
      let late = ltb (t.created_at + cfg.retry_timeout) time in
      let same' =
        if_both (λ x. Same was retries txs x) late (failed_try-Same was retries txs g i _ same)
          same in
      if_both (λ (x : W × MonitoredTxGroup). Same was retries txs x.1) (is_pending t)
        (outdate_from-Same was retries txs w' _ (i + 1) ts same')
        (outdate_from-Same was retries txs w g (i + 1) ts same)

  exhausted :
      (was : MonitoredTxGroupStatus) (retries : ℕ) (txs : List MonitoredTx) (g : MonitoredTxGroup)
      → Same was retries txs g
      → (int32_geb retries cfg.max_retries ≡ true
          → Same group_failed retries (all_txs failed txs) (fail_if_exhausted cfg g))
        × (int32_geb retries cfg.max_retries ≡ false
            → Same was retries txs (fail_if_exhausted cfg g))
  unfolding Same fail_if_exhausted on_fail_group
  exhausted was retries txs g (st, re, tx) = (
    λ used.
        let used' : int32_geb g.db_entry.num_retries cfg.max_retries ≡ true = rw re used in
        rw (used', fail_if_exhausted) (refl, re, ap (all_txs failed) tx),
    λ left.
        let left' : int32_geb g.db_entry.num_retries cfg.max_retries ≡ false = rw re left in
        rw (left', fail_if_exhausted) (st, re, tx),
  )

  -- `OutdateClaims` succeeds on a group as `IsGroup` says. If its retries have reached the maximum, the
  -- group and all its claims are failed, whatever the group's status was, also when it has just been
  -- confirmed; else its status and its claims stay.
  pub outdate_claims_of-failed :
      (w : W) (g : MonitoredTxGroup)
      → IsGroup cfg.max_retries g
      → (g' : MonitoredTxGroup) × ((outdate_claims_of chain cfg w g).1 ≡ ok g')
        × (int32_geb g.db_entry.num_retries cfg.max_retries ≡ true
            → (g'.db_entry.status ≡ group_failed) × (g'.txs ≡ all_txs failed g.txs))
        × (int32_geb g.db_entry.num_retries cfg.max_retries ≡ false
            → (g'.db_entry.status ≡ g.db_entry.status) × (g'.txs ≡ g.txs))
  unfolding outdate_claims_of Same
  outdate_claims_of-failed w g inv =
      elim (Bool-cases (status_is g.db_entry.status group_claiming)) [
        | inl claims ↦
            let (h, e) = inv.has_history claims in
            let same =
              outdate_from-Same g.db_entry.status g.db_entry.num_retries g.txs w g 0 h.tx_hashes
                (refl, refl, refl) in
            let (used, left) = exhausted _ _ _ _ same in
            (
              fail_if_exhausted cfg (outdate_from chain cfg w g 0 h.tx_hashes).1,
              simp (claims, outdate_claims_of, e),
              λ u. ((used u).0, (used u).2),
              λ l. ((left l).0, (left l).2),
            )
        | inr idle ↦
            let (used, left) =
              exhausted g.db_entry.status g.db_entry.num_retries g.txs g (refl, refl, refl) in
            (
              fail_if_exhausted cfg g,
              simp (idle, outdate_claims_of),
              λ u. ((used u).0, (used u).2),
              λ l. ((left l).0, (left l).2),
            )
      ]
