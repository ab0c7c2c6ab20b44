-- ===== src/Claimtxman/Single/Confirmed.antt =====
-- A claim one of whose transactions was mined successfully is confirmed, in whatever order the
-- history, a Go map, is gone through.
use xlayer_bridge_service.Base.{
  ℕ, Bool, true, false, Option, none, some, List, [], ◌∷◌, Result, ok, err, ◌==◌, ◌≡◌, refl,
  if_both, Bool-cases, inl, inr, ◌||◌, ◌⊎◌, ◌∙◌,
}
use xlayer_bridge_service.Etherman.{Bytes}
use xlayer_bridge_service.Claimtxman.Types.{MonitoredTx, confirmed}
use xlayer_bridge_service.Claimtxman.NonceCache.{NonceLru}
use xlayer_bridge_service.Claimtxman.Single.{
  L2Node, SingleConfig, Checked, check_tx_history, check_history, find_in_pool, not_mined,
  is_not_found, nothing_checked,
}
use xlayer_bridge_service.Claimtxman.Single.Round.{monitor_tx}

-- The answer is a receipt of a successful transaction.
abbrev pub is_success : Result (Option ℕ) → Bool
is_success (err e) = false
is_success (ok none) = false
is_success (ok (some receipt_status)) = receipt_status == 1

unfoldable pub some_success : (Bytes → Result (Option ℕ)) → List Bytes → Bool
some_success mined [] = false
some_success mined (h ∷ hs) = is_success (mined h) || some_success mined hs

module _ {W : Type 0} (node : L2Node W) (mined : Bytes → Result (Option ℕ))
    (answers : (w : W) (h : Bytes) → (node.check_tx_was_mined w h).1 ≡ mined h) where
  still_none :
      (checked : Checked)
      → checked.receipt_successful ≡ false
      → (found : Result (Unit {0})) → (not_mined node checked found).receipt_successful ≡ false
  still_none checked none_yet (ok t) = none_yet
  still_none checked none_yet (err e) =
      if_both (λ (c : Checked). c.receipt_successful ≡ false) (is_not_found e) none_yet none_yet

  check_history-some_success :
      (retries : ℕ) (hs : List Bytes) (w : W) (checked : Checked)
      → checked.receipt_successful ≡ false
      → (check_history node retries w hs checked).1.receipt_successful ≡ some_success mined hs
  unfolding check_history some_success
  check_history-some_success retries [] w checked none_yet = none_yet
  check_history-some_success retries (h ∷ hs) w checked none_yet =
      elim (mined h)
          as (λ m.
            (node.check_tx_was_mined w h).1 ≡ m
            → (check_history node retries w (h ∷ hs) checked).1.receipt_successful
              ≡ (is_success m || some_success mined hs)) [
                | err e ↦ λ told.
                    rw (told, check_history)
                      (check_history-some_success retries hs _ checked none_yet)
                | ok none ↦ λ told.
                    rw (told, check_history)
                      (check_history-some_success retries hs _ _ (
                        still_none checked none_yet
                          (find_in_pool node retries (node.check_tx_was_mined w h).0 h).1))
                | ok (some s) ↦ λ told. elim (Bool-cases (s == 1)) [
                  | inl one ↦ rw (told, check_history, one) refl
                  | inr other ↦
                      rw (told, check_history, other)
                        (check_history-some_success retries hs _ _ none_yet)
                ]
              ]
        (answers w h)

  -- If the node gives the same answer whenever it is asked whether a transaction was mined, a claim
  -- is stored as confirmed in this round if some transaction of its history was mined successfully,
  -- wherever that stands in the history, and checkTxHistory calls no other claim successful.
  pub monitor_tx-some_success :
      {C : Type 0} (lru : NonceLru C) (cfg : SingleConfig) (w : W) (c : C) (reset : Bool)
      (tx : MonitoredTx)
      → (some_success mined tx.history ≡ true)
          × ((monitor_tx node lru cfg w c reset tx).to_store
              ≡ some (record tx { status = confirmed }))
        ⊎ (some_success mined tx.history ≡ false)
          × ((check_tx_history node cfg w tx).1.receipt_successful ≡ false)
  unfolding monitor_tx
  monitor_tx-some_success lru cfg w c reset tx =
      let found =
        check_history-some_success cfg.retry_number tx.history w (nothing_checked node) refl in
      elim (Bool-cases (some_success mined tx.history)) [
        | inl mined_one ↦ inl (mined_one, simp (found, mined_one, monitor_tx) refl)
        | inr mined_none ↦ inr (mined_none, found ∙ mined_none)
      ]
