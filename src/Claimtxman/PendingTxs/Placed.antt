-- ===== src/Claimtxman/PendingTxs/Placed.antt =====
-- What the state holds after some of the claims have been placed, and how one more claim adds to it.
use xlayer_bridge_service.Base.{
  ℕ, ◌≡◌, ◌≢◌, refl, sym, ap, ap₂, subst, ◌∙◌, inl, inr, Bool, true, false, not, ◌&&◌, Option, none,
  some, List, [], ◌∷◌, ◌++◌, map, append-nil, if◌then◌else◌, ==_iff, ◌==◌, arith, Bool-cases,
}
use xlayer_bridge_service.Etherman.{Bytes}
use xlayer_bridge_service.Claimtxman.Keyed.{lookup, lookup-put_self, lookup-put_ne}
use xlayer_bridge_service.Claimtxman.Types.{
  MonitoredTx, MonitoredTxGroup, MonitoredTxGroupDbEntry, assign_txs_group_id, add_tx,
  with_group_id, is_candidate_to_be_grouped,
}
use xlayer_bridge_service.Claimtxman.PendingTxs.{
  PendingTxs, group_or_empty, add_tx_to_group, set_group_db_entry,
}

-- The claims that wait for a group.
unfoldable pub waiting : Bytes → List MonitoredTx → List MonitoredTx
waiting ger [] = []
waiting ger (tx ∷ txs) =
    let rest = waiting ger txs in if is_candidate_to_be_grouped tx ger then tx ∷ rest else rest

abbrev has_id : ℕ → Option ℕ → Bool
has_id id none = false
has_id id (some other) = other == id

-- The claims of a group.
unfoldable pub members : Bytes → ℕ → List MonitoredTx → List MonitoredTx
members ger id [] = []
members ger id (tx ∷ txs) =
    let rest = members ger id txs in
    if not (is_candidate_to_be_grouped tx ger) && has_id id tx.group_id then tx ∷ rest else rest

-- A group's entry with its claims, if it has any.
unfoldable pub group_with :
    (ℕ → Option MonitoredTxGroupDbEntry) → ℕ → List MonitoredTx → Option MonitoredTxGroup
group_with groups id [] = none
group_with groups id (tx ∷ txs) = elim (groups id) [
  | none ↦ none
  | some entry ↦ some (record { db_entry = entry; txs = tx ∷ txs })
]

-- The state has these claims and no others.
unfoldable pub Holds :
    Bytes → (ℕ → Option MonitoredTxGroupDbEntry) → List MonitoredTx → PendingTxs → Type 0
Holds ger groups txs p =
    (p.tx_candidates_for_group ≡ waiting ger txs)
    × ((id : ℕ) → lookup id p.group_tx ≡ group_with groups id (members ger id txs))

waiting-append :
    (ger : Bytes) (xs ys : List MonitoredTx)
    → waiting ger (xs ++ ys) ≡ waiting ger xs ++ waiting ger ys
unfolding waiting
waiting-append ger [] ys = refl
waiting-append ger (x ∷ xs) ys = elim (Bool-cases (is_candidate_to_be_grouped x ger)) [
  | inl cand ↦ rw cand (ap (λ zs. x ∷ zs) (waiting-append ger xs ys))
  | inr other ↦ rw other (waiting-append ger xs ys)
]

members-append :
    (ger : Bytes) (id : ℕ) (xs ys : List MonitoredTx)
    → members ger id (xs ++ ys) ≡ members ger id xs ++ members ger id ys
unfolding members
members-append ger id [] ys = refl
members-append ger id (x ∷ xs) ys =
    elim (Bool-cases (not (is_candidate_to_be_grouped x ger) && has_id id x.group_id)) [
      | inl mine ↦ rw mine (ap (λ zs. x ∷ zs) (members-append ger id xs ys))
      | inr other ↦ rw other (members-append ger id xs ys)
    ]

-- A claim that goes to none of the two changes neither list.
module _ (ger : Bytes) (groups : ℕ → Option MonitoredTxGroupDbEntry) (seen : List MonitoredTx) where
  pub place_candidate :
      (p : PendingTxs) (tx : MonitoredTx)
      → Holds ger groups seen p
      → is_candidate_to_be_grouped tx ger ≡ true
      → Holds ger groups
          (seen ++ tx ∷ [])
          (record p { tx_candidates_for_group = p.tx_candidates_for_group ++ tx ∷ [] })
  unfolding Holds waiting members
  place_candidate p tx (cands, looked) yes_cand = (
    rw (waiting-append ger seen (tx ∷ []), yes_cand) (ap (λ xs. xs ++ tx ∷ []) cands),
    λ id.
        rw (members-append ger id seen (tx ∷ []), yes_cand, append-nil (members ger id seen))
          (looked id),
  )

  pub place_ungrouped :
      (p : PendingTxs) (tx : MonitoredTx)
      → Holds ger groups seen p
      → is_candidate_to_be_grouped tx ger ≡ false
      → tx.group_id ≡ none
      → Holds ger groups (seen ++ tx ∷ []) p
  unfolding Holds waiting members
  place_ungrouped p tx (cands, looked) no_cand no_group = (
    rw (waiting-append ger seen (tx ∷ []), no_cand, append-nil (waiting ger seen)) cands,
    λ id.
        rw
          (
            members-append ger id seen (tx ∷ []),
            no_cand,
            no_group,
            append-nil (members ger id seen),
          )
          (looked id),
  )

own_id : (id : ℕ) (o : Option ℕ) → has_id id o ≡ true → o ≡ some id
own_id id none h = cc
own_id id (some other) h = ap some ((==_iff other id).0 h)

not_other : (id other : ℕ) → id ≢ other → has_id other (some id) ≡ false
not_other id other ne = ground arith

own : (id : ℕ) → has_id id (some id) ≡ true
own id = ground arith

with_own_id : (id : ℕ) (tx : MonitoredTx) → tx.group_id ≡ some id → with_group_id id tx ≡ tx
with_own_id id tx e = ap (λ (o : Option ℕ). record tx { group_id = o }) (sym e)

and_right : (a b : Bool) → (a && b) ≡ true → b ≡ true
and_right true b h = h
and_right false b h = cc

members-with_group_id :
    (ger : Bytes) (id : ℕ) (txs : List MonitoredTx)
    → map (with_group_id id) (members ger id txs) ≡ members ger id txs
unfolding members
members-with_group_id ger id [] = refl
members-with_group_id ger id (tx ∷ txs) =
    elim (Bool-cases (not (is_candidate_to_be_grouped tx ger) && has_id id tx.group_id)) [
      | inl mine ↦ rw mine (
          ap₂ (λ t ts. t ∷ ts) (with_own_id id tx (own_id id tx.group_id (and_right _ _ mine)))
            (members-with_group_id ger id txs))
      | inr other ↦ rw other (members-with_group_id ger id txs)
    ]

module _ (groups : ℕ → Option MonitoredTxGroupDbEntry) (entry : MonitoredTxGroupDbEntry) where
  txs-group_with :
      (ms : List MonitoredTx)
      → groups entry.group_id ≡ some entry
      → (group_or_empty (group_with groups entry.group_id ms)).txs ≡ ms
  unfolding group_with
  txs-group_with [] known = refl
  txs-group_with (tx ∷ txs) known = rw (known, group_or_empty, group_with) refl

  group_with-append :
      (ms : List MonitoredTx) (tx : MonitoredTx)
      → groups entry.group_id ≡ some entry
      → group_with groups entry.group_id (ms ++ tx ∷ [])
        ≡ some (record { db_entry = entry; txs = ms ++ tx ∷ [] })
  unfolding group_with
  group_with-append [] tx known = rw known refl
  group_with-append (m ∷ ms) tx known = rw known refl

  with_last : List MonitoredTx → MonitoredTx → MonitoredTxGroup
  with_last ts t = record { db_entry = entry; txs = ts ++ t ∷ [] }

  -- The group after the claim has been added to it.
  grown :
      (ger : Bytes) (seen : List MonitoredTx) (p : PendingTxs) (tx : MonitoredTx)
      → Holds ger groups seen p
      → tx.group_id ≡ some entry.group_id
      → groups entry.group_id ≡ some entry
      → add_tx
          (assign_txs_group_id
            (record (group_or_empty (lookup entry.group_id p.group_tx)) { db_entry = entry }))
          tx
        ≡ record { db_entry = entry; txs = members ger entry.group_id seen ++ tx ∷ [] }
  unfolding add_tx assign_txs_group_id Holds with_last
  grown ger seen p tx (cands, looked) in_group known =
      let old =
        ap (λ o. (group_or_empty o).txs) (looked entry.group_id)
        ∙ txs-group_with (members ger entry.group_id seen) known in
      let renamed =
        ap (λ ts. map (with_group_id entry.group_id) ts) old
        ∙ members-with_group_id ger entry.group_id seen in
      ap₂ (λ ts t. with_last ts t) renamed (with_own_id entry.group_id tx in_group)

  pub place_grouped :
      (ger : Bytes) (seen : List MonitoredTx) (p : PendingTxs) (tx : MonitoredTx)
      → Holds ger groups seen p
      → is_candidate_to_be_grouped tx ger ≡ false
      → tx.group_id ≡ some entry.group_id
      → groups entry.group_id ≡ some entry
      → Holds ger groups
          (seen ++ tx ∷ [])
          (add_tx_to_group (set_group_db_entry p entry) entry.group_id tx)
  unfolding Holds waiting members
  place_grouped ger seen p tx (cands, looked) no_cand in_group known = (
    rw (waiting-append ger seen (tx ∷ []), no_cand, append-nil (waiting ger seen)) cands,
    λ id. elim (Bool-cases (entry.group_id == id)) [
      | inl same ↦
          subst
            (λ k.
              lookup k (add_tx_to_group (set_group_db_entry p entry) entry.group_id tx).group_tx
              ≡ group_with groups k (members ger k (seen ++ tx ∷ [])))
            ((==_iff entry.group_id id).0 same) here
      | inr other ↦
          let ne : entry.group_id ≢ id = ground arith in
          let not_in : has_id id tx.group_id ≡ false =
            rw in_group (not_other entry.group_id id ne) in
          lookup-put_ne entry.group_id id _ _ ne
          ∙ lookup-put_ne entry.group_id id _ p.group_tx ne
          ∙ rw
              (
                members-append ger id seen (tx ∷ []),
                no_cand,
                not_in,
                append-nil (members ger id seen),
              )
              (looked id)
    ],
  )
    where
      with_entry : MonitoredTxGroup
      with_entry =
          assign_txs_group_id
            (record (group_or_empty (lookup entry.group_id p.group_tx)) { db_entry = entry })

      mine : has_id entry.group_id tx.group_id ≡ true
      mine = rw in_group (own entry.group_id)

      here :
          lookup entry.group_id
            (add_tx_to_group (set_group_db_entry p entry) entry.group_id tx).group_tx
          ≡ group_with groups entry.group_id (members ger entry.group_id (seen ++ tx ∷ []))
      here =
          lookup-put_self entry.group_id _ _
          ∙ ap (λ o. some (add_tx (group_or_empty o) tx))
              (lookup-put_self entry.group_id with_entry p.group_tx)
          ∙ ap some (grown ger seen p tx (cands, looked) in_group known)
          ∙ sym (
              rw (members-append ger entry.group_id seen (tx ∷ []), no_cand, mine)
                (group_with-append (members ger entry.group_id seen) tx known))
