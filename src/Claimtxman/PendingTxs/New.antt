-- ===== src/Claimtxman/PendingTxs/New.antt =====
-- `NewPendingTxs`: where each claim goes.
use xlayer_bridge_service.Base.{
  ℕ, true, length, arith, All, if_cases, ◌≡◌, refl, sym, ap, subst, ◌∙◌, ◌⊎◌, inl, inr, Option,
  none, some, List, [], ◌∷◌, ◌++◌, append-nil, append_assoc, ok, err, group_not_found, get_elem?,
  suc, Bool-cases, Option-cases,
}
use xlayer_bridge_service.Etherman.{Bytes, bytes_eq}
use xlayer_bridge_service.Claimtxman.Keyed.{lookup}
use xlayer_bridge_service.Claimtxman.Types.{
  MonitoredTx, MonitoredTxGroupDbEntry, created, is_candidate_to_be_grouped,
}
use xlayer_bridge_service.Claimtxman.PendingTxs.{
  PendingTxs, place_tx, place_txs, new_pending_txs, ger_of_first, add_tx_to_group,
  set_group_db_entry,
}
use xlayer_bridge_service.Claimtxman.PendingTxs.Placed.{
  waiting, members, group_with, Holds, place_candidate, place_ungrouped, place_grouped,
}

-- A claim that may join a new group under this exit root.
pub record IsCandidate (ger : Bytes) (tx : MonitoredTx) : Type 0 where
  pub just_created : tx.status ≡ created
  pub no_history : length tx.history ≡ 0
  pub no_group : tx.group_id ≡ none
  pub same_root : bytes_eq tx.global_exit_root ger ≡ true

candidate :
    (ger : Bytes) (tx : MonitoredTx) → is_candidate_to_be_grouped tx ger ≡ true → IsCandidate ger tx
unfolding is_candidate_to_be_grouped
candidate ger tx cand = record {
  just_created = grind (arith, cand);
  no_history = grind (arith, cand);
  no_group = grind (arith, cand);
  same_root = grind (arith, cand);
}

-- Some claim is of a group whose entry is missing.
unfoldable pub Unknown : (ℕ → Option MonitoredTxGroupDbEntry) → List MonitoredTx → Type 0
Unknown groups txs =
    (i : ℕ) × (tx : MonitoredTx) × (id : ℕ) × (get_elem? txs i ≡ some tx)
    × (tx.group_id ≡ some id)
    × (groups id ≡ none)

later_Unknown :
    (groups : ℕ → Option MonitoredTxGroupDbEntry) (tx : MonitoredTx) (txs : List MonitoredTx)
    → Unknown groups txs
    → Unknown groups (tx ∷ txs)
unfolding Unknown
later_Unknown groups tx txs (i, other, id, at_i, of_group, missing) =
    (suc i, other, id, at_i, of_group, missing)

first_Unknown :
    (groups : ℕ → Option MonitoredTxGroupDbEntry) (tx : MonitoredTx) (txs : List MonitoredTx)
    (id : ℕ)
    → tx.group_id ≡ some id
    → groups id ≡ none
    → Unknown groups (tx ∷ txs)
unfolding Unknown
first_Unknown groups tx txs id of_group missing = (0, tx, id, refl, of_group, missing)

module _ (ger : Bytes) (groups : ℕ → Option MonitoredTxGroupDbEntry)
    (keyed : (id : ℕ) (entry : MonitoredTxGroupDbEntry)
      → groups id ≡ some entry
      → entry.group_id ≡ id) where
  -- One claim is placed, or its group is unknown.
  place_tx-Holds :
      (seen : List MonitoredTx) (p : PendingTxs) (tx : MonitoredTx)
      → Holds ger groups seen p
      → ((p' : PendingTxs) × (place_tx ger groups p tx ≡ ok p')
          × Holds ger groups (seen ++ tx ∷ []) p'
          × (p'.last_group_tx_id ≡ p.last_group_tx_id))
        ⊎ ((id : ℕ) × (tx.group_id ≡ some id)
            × (groups id ≡ none)
            × (place_tx ger groups p tx ≡ err group_not_found))
  unfolding place_tx
  place_tx-Holds seen p tx holds = elim (Bool-cases (is_candidate_to_be_grouped tx ger)) [
    | inl cand ↦
        inl (_, rw (cand, place_tx) refl, place_candidate ger groups seen p tx holds cand, refl)
    | inr no_cand ↦ elim (Option-cases tx.group_id) [
      | inl no_group ↦ inl (
        p,
        rw (no_cand, place_tx, no_group) refl,
        place_ungrouped ger groups seen p tx holds no_cand no_group,
        refl,
      )
      | inr (id, of_group) ↦ elim (Option-cases (groups id)) [
        | inl missing ↦ inr (id, of_group, missing, simp (no_cand, place_tx, of_group, missing))
        | inr (entry, known) ↦
            let e = keyed id entry known in
            inl (
              add_tx_to_group (set_group_db_entry p entry) id tx,
              simp (no_cand, place_tx, of_group, known),
              subst
                  (λ k.
                    Holds ger groups (seen ++ tx ∷ [])
                      (add_tx_to_group (set_group_db_entry p entry) k tx))
                  e
                  (place_grouped groups entry ger seen p tx holds no_cand
                    (of_group ∙ ap some (sym e)) (ap groups e ∙ known)),
              refl,
            )
      ]
    ]
  ]

  place_txs-Holds :
      (seen rest : List MonitoredTx) (p : PendingTxs)
      → Holds ger groups seen p
      → ((p' : PendingTxs) × (place_txs ger groups p rest ≡ ok p')
          × Holds ger groups (seen ++ rest) p'
          × (p'.last_group_tx_id ≡ p.last_group_tx_id))
        ⊎ (Unknown groups rest × (place_txs ger groups p rest ≡ err group_not_found))
  unfolding place_txs
  place_txs-Holds seen [] p holds =
      inl (p, refl, subst (λ xs. Holds ger groups xs p) (sym (append-nil seen)) holds, refl)
  place_txs-Holds seen (tx ∷ rest) p holds = elim (place_tx-Holds seen p tx holds) [
    | inr (id, of_group, missing, failed) ↦
        inr (first_Unknown groups tx rest id of_group missing, rw (failed, place_txs) refl)
    | inl (p1, placed, holds1, same1) ↦ elim (place_txs-Holds (seen ++ tx ∷ []) rest p1 holds1) [
      | inr (unknown, failed) ↦
          inr (later_Unknown groups tx rest unknown, rw (placed, place_txs) failed)
      | inl (p2, all, holds2, same2) ↦ inl (
        p2,
        rw (placed, place_txs) all,
        subst (λ xs. Holds ger groups xs p2) (append_assoc seen (tx ∷ []) rest) holds2,
        same2 ∙ same1,
      )
    ]
  ]

IsCandidate-waiting :
    (ger : Bytes) (txs : List MonitoredTx) → All (IsCandidate ger) (waiting ger txs)
unfolding waiting is_candidate_to_be_grouped
IsCandidate-waiting ger [] = tt
IsCandidate-waiting ger (tx ∷ txs) =
    if_cases (λ (xs : List MonitoredTx). All (IsCandidate ger) xs)
      (is_candidate_to_be_grouped tx ger)
      (λ cand. (candidate ger tx cand, IsCandidate-waiting ger txs))
      (λ other. IsCandidate-waiting ger txs)

-- When the entries are filed under their numbers, either the call succeeds or some claim is of a group
-- without an entry and the call fails. Where it succeeds, the candidates wait in their order, each of
-- them just created, without a history and a group, and of the exit root of the first claim; each group
-- that has claims which are no candidates has its entry and these claims in their order; there is no
-- other group. A claim that is no candidate and has no group is left out.
pub new_pending_txs-Holds :
    (txs : List MonitoredTx) (groups : ℕ → Option MonitoredTxGroupDbEntry) (last_group_id : ℕ)
    → ((id : ℕ) (entry : MonitoredTxGroupDbEntry) → groups id ≡ some entry → entry.group_id ≡ id)
    → ((p : PendingTxs) × (new_pending_txs txs groups last_group_id ≡ ok p)
        × Holds (ger_of_first txs) groups txs p
        × All (IsCandidate (ger_of_first txs)) p.tx_candidates_for_group
        × (p.last_group_tx_id ≡ last_group_id))
      ⊎ (Unknown groups txs × (new_pending_txs txs groups last_group_id ≡ err group_not_found))
unfolding new_pending_txs Holds members waiting group_with lookup
new_pending_txs-Holds txs groups last_group_id keyed =
    let ger = ger_of_first txs in
    elim (place_txs-Holds ger groups keyed [] txs
      (record { group_tx = []; tx_candidates_for_group = []; last_group_tx_id = last_group_id })
      (refl, λ id. refl)) [
        | inr fails ↦ inr fails
        | inl (p, placed, holds, same) ↦ inl (
          p,
          placed,
          holds,
          subst (All (IsCandidate ger)) (sym holds.0) (IsCandidate-waiting ger txs),
          same,
        )
      ]
