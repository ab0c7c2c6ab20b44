-- ===== src/Claimtxman/Trigger.antt =====
-- claimtxman/groups_trigger.go: when a new group is made, and of which claims.
use xlayer_bridge_service.Base.{
  ℕ, zero, suc, ◌+◌, ◌<◌, ◌≤◌, ◌≡◌, refl, Bool, true, false, List, [], ◌∷◌, ◌++◌, ltb, leb, ◌==◌,
  if◌then◌else◌, length, take, arith, append-nil, append_assoc, length-append, Bool-cases, inl, inr,
  ◌⊎◌, sym, ap, ◌∙◌, some, get_elem?,
}
use xlayer_bridge_service.Claimtxman.Types.{MonitoredTx}

-- Durations in the unit of the times. A limit of 0 claims per group is none.
pub record ConfigGroupingClaims : Type 0 where
  pub trigger_number_of_claims : ℕ
  pub max_number_of_claims_per_group : ℕ
  pub trigger_retained_claim_period : ℕ
  pub max_retries : ℕ  -- int32
  pub retry_interval : ℕ
  pub retry_timeout : ℕ
  pub gas_offset : ℕ

pred_of : (m : ℕ) → 0 < m → (n : ℕ) × (suc n ≡ m)
pred_of zero h = absurd (omega arith)
pred_of (suc n) h = (n, refl)

module _ (cfg : ConfigGroupingClaims) where
  unfoldable pub is_retained_period_surpassed : ℕ → List MonitoredTx → Bool
  is_retained_period_surpassed now [] = false
  is_retained_period_surpassed now (tx ∷ txs) =
      let rest = is_retained_period_surpassed now txs in
      if ltb (tx.created_at + cfg.trigger_retained_claim_period) now then true else rest

  -- The loop of `chooseGroupTx`; `group` has the claims chosen before.
  unfoldable pub choose_loop : List MonitoredTx → List MonitoredTx → List MonitoredTx
  choose_loop group [] = group
  choose_loop group (tx ∷ txs) =
      let rest = choose_loop (group ++ tx ∷ []) txs in
      if length (group ++ tx ∷ []) == cfg.max_number_of_claims_per_group
      then group ++ tx ∷ []
      else rest

  unfoldable pub choose_group_tx : List MonitoredTx → List MonitoredTx
  unfolding choose_loop
  choose_group_tx txs = choose_loop [] txs

  unfoldable pub choose_txs : ℕ → List MonitoredTx → List MonitoredTx
  unfolding is_retained_period_surpassed choose_group_tx
  choose_txs now txs =
      if is_retained_period_surpassed now txs
      then choose_group_tx txs
      else if leb cfg.trigger_number_of_claims (length txs)
      then choose_group_tx txs
      else []

  -- Some candidate waits longer than the period, or there are enough of them.
  unfoldable pub Triggered : ℕ → List MonitoredTx → Type 0
  Triggered now txs =
      ((i : ℕ) × (tx : MonitoredTx) × (get_elem? txs i ≡ some tx)
        × (tx.created_at + cfg.trigger_retained_claim_period < now))
      ⊎ (cfg.trigger_number_of_claims ≤ length txs)

  surpassed_there :
      (now : ℕ) (txs : List MonitoredTx)
      → is_retained_period_surpassed now txs ≡ true
      → (i : ℕ) × (tx : MonitoredTx) × (get_elem? txs i ≡ some tx)
        × (tx.created_at + cfg.trigger_retained_claim_period < now)
  unfolding is_retained_period_surpassed
  surpassed_there now [] h = cc
  surpassed_there now (tx ∷ txs) h =
      elim (Bool-cases (ltb (tx.created_at + cfg.trigger_retained_claim_period) now)) [
        | inl old ↦ (0, tx, refl, ground arith)
        | inr young ↦
            let (i, found, at_i, late) = surpassed_there now txs (rw young at h) in
            (suc i, found, at_i, late)
      ]

  there_surpassed :
      (now : ℕ) (txs : List MonitoredTx) (i : ℕ) (tx : MonitoredTx)
      → get_elem? txs i ≡ some tx
      → tx.created_at + cfg.trigger_retained_claim_period < now
      → is_retained_period_surpassed now txs ≡ true
  unfolding is_retained_period_surpassed
  there_surpassed now [] i tx at_i late = cc
  there_surpassed now (first ∷ txs) zero tx at_i late = ground arith
  there_surpassed now (first ∷ txs) (suc i) tx at_i late =
      elim (Bool-cases (ltb (first.created_at + cfg.trigger_retained_claim_period) now)) [
        | inl old ↦ rw old refl
        | inr young ↦ rw young (there_surpassed now txs i tx at_i late)
      ]

  choose_loop-take :
      (left : ℕ) (group txs : List MonitoredTx)
      → length group + suc left ≡ cfg.max_number_of_claims_per_group
      → choose_loop group txs ≡ group ++ take (suc left) txs
  unfolding choose_loop
  choose_loop-take left group [] room = sym (append-nil group)
  choose_loop-take zero group (tx ∷ txs) room =
      let full : (length (group ++ tx ∷ []) == cfg.max_number_of_claims_per_group) ≡ true =
        grind (arith, length-append group (tx ∷ [])) in
      rw full refl
  choose_loop-take (suc left) group (tx ∷ txs) room =
      let grown = length-append group (tx ∷ []) in
      let not_full : (length (group ++ tx ∷ []) == cfg.max_number_of_claims_per_group) ≡ false =
        grind arith in
      rw not_full (
        choose_loop-take left (group ++ tx ∷ []) txs (omega (arith, grown))
        ∙ append_assoc group (tx ∷ []) (take (suc left) txs))

  -- When a group may have one claim at least: once triggered, the group has the first candidates, as many as a group may have; before that it
  -- has none.
  pub choose_txs-take :
      (now : ℕ) (txs : List MonitoredTx)
      → 0 < cfg.max_number_of_claims_per_group
      → (Triggered now txs → choose_txs now txs ≡ take cfg.max_number_of_claims_per_group txs)
        × (¬ Triggered now txs → choose_txs now txs ≡ [])
  unfolding choose_txs choose_group_tx Triggered
  choose_txs-take now txs some_room = (triggered, quiet)
    where
      m : ℕ
      m = cfg.max_number_of_claims_per_group

      chosen : choose_loop [] txs ≡ take m txs
      chosen =
          let (left, e) : (left : ℕ) × (suc left ≡ m) = pred_of m some_room in
          choose_loop-take left [] txs (omega (arith, e)) ∙ ap (λ k. take k txs) e

      triggered : Triggered now txs → choose_txs now txs ≡ take m txs
      triggered (inl (i, tx, at_i, late)) = rw (there_surpassed now txs i tx at_i late) chosen
      triggered (inr enough) = elim (Bool-cases (is_retained_period_surpassed now txs)) [
        | inl old ↦ rw old chosen
        | inr young ↦
            let e : leb cfg.trigger_number_of_claims (length txs) ≡ true = ground arith in
            rw (young, e) chosen
      ]

      quiet : ¬ Triggered now txs → choose_txs now txs ≡ []
      quiet none_yet = elim (Bool-cases (is_retained_period_surpassed now txs)) [
        | inl old ↦ absurd (none_yet (inl (surpassed_there now txs old)))
        | inr young ↦ elim (Bool-cases (leb cfg.trigger_number_of_claims (length txs))) [
          | inl enough ↦ absurd (none_yet (inr (ground arith)))
          | inr few ↦ rw (young, few) refl
        ]
      ]
