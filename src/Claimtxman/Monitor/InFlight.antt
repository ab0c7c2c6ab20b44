-- ===== src/Claimtxman/Monitor/InFlight.antt =====
-- A round of `Process` keeps what holds of the groups: one claim in flight, numbers of retries.
use xlayer_bridge_service.Base.{
  ℕ, ◌^◌, ◌<◌, ◌≡◌, refl, subst, ◌∙◌, inl, inr, false, Option, some, List, [], ◌∷◌, Result, ok, err,
  Error, arith, length, ◌==◌, Bool-cases, Option-cases, Result-cases,
}
use xlayer_bridge_service.Etherman.{Bytes}
use xlayer_bridge_service.Claimtxman.Keyed.{lookup, put}
use xlayer_bridge_service.Claimtxman.Types.{MonitoredTx, MonitoredTxGroup, new_monitored_tx_group}
use xlayer_bridge_service.Claimtxman.PendingTxs.{PendingTxs, generate_new_group_id, add_group}
use xlayer_bridge_service.Claimtxman.Trigger.{choose_txs}
use xlayer_bridge_service.Claimtxman.Compose.{get_compress_claim_parameters}
use xlayer_bridge_service.Claimtxman.Monitor.Defs.{send_claim, check_receipts_of, outdate_claims_of}
use xlayer_bridge_service.Claimtxman.Monitor.Groups.{
  in_flight, IsGroup, check_receipts_of-IsGroup, outdate_claims_of-IsGroup,
}
use xlayer_bridge_service.Claimtxman.Monitor.Send.{send_claim-IsGroup}
use xlayer_bridge_service.Claimtxman.Monitor.Round.{
  Monitor, each_group, on_groups, new_db_entry, compress_group, create_new_groups, process,
}

-- Every group of the list is as `IsGroup` says.
pub data Groups (max_retries : ℕ) : List (ℕ × MonitoredTxGroup) → Type 0 where
  no_groups : Groups max_retries []
  and_group :
      {id : ℕ} {g : MonitoredTxGroup} {groups : List (ℕ × MonitoredTxGroup)}
      → IsGroup max_retries g
      → Groups max_retries groups
      → Groups max_retries ((id, g) ∷ groups)

err_ok : {A : Type 0} (e : Error) (a : A) → err e ≡ ok a → ⊥
err_ok e a h = cc

ok_injective : {A : Type 0} (a b : A) → ok a ≡ ok b → a ≡ b
ok_injective a b h = cc

put-Groups :
    {max_retries : ℕ} (id : ℕ) (g : MonitoredTxGroup) (groups : List (ℕ × MonitoredTxGroup))
    → IsGroup max_retries g
    → Groups max_retries groups
    → Groups max_retries (put id g groups)
unfolding put
put-Groups id g [] inv no_groups = and_group inv no_groups
put-Groups id g ((k, b) ∷ groups) inv (and_group this rest) = elim (Bool-cases (k == id)) [
  | inl hit ↦ rw hit (and_group inv rest)
  | inr miss ↦ rw miss (and_group this (put-Groups id g groups inv rest))
]

module _ {W : Type 0} {max_retries : ℕ} where
  -- A loop over the groups succeeds when its step does on groups like these, and keeps them so.
  each_group-Groups :
      (step : W → MonitoredTxGroup → W × Result MonitoredTxGroup)
      → ((w : W) (g : MonitoredTxGroup)
          → IsGroup max_retries g
          → (g' : MonitoredTxGroup) × ((step w g).1 ≡ ok g') × IsGroup max_retries g')
      → (w : W) (groups : List (ℕ × MonitoredTxGroup)) → Groups max_retries groups
      → (groups' : List (ℕ × MonitoredTxGroup)) × ((each_group step w groups).1 ≡ ok groups')
        × Groups max_retries groups'
  unfolding each_group
  each_group-Groups step keeps w [] no_groups = ([], refl, no_groups)
  each_group-Groups step keeps w ((id, g) ∷ groups) (and_group this rest) =
      let (g', stepped, inv) = keeps w g this in
      let (groups', looped, invs) = each_group-Groups step keeps (step w g).0 groups rest in
      ((id, g') ∷ groups', rw (stepped, each_group, looped) refl, and_group inv invs)

  on_groups-Groups :
      (step : W → MonitoredTxGroup → W × Result MonitoredTxGroup)
      → ((w : W) (g : MonitoredTxGroup)
          → IsGroup max_retries g
          → (g' : MonitoredTxGroup) × ((step w g).1 ≡ ok g') × IsGroup max_retries g')
      → (w : W) (p : PendingTxs) → Groups max_retries p.group_tx
      → (p' : PendingTxs) × ((on_groups step w p).1 ≡ ok p')
        × Groups max_retries p'.group_tx
        × (p'.tx_candidates_for_group ≡ p.tx_candidates_for_group)
        × (p'.last_group_tx_id ≡ p.last_group_tx_id)
  unfolding on_groups
  on_groups-Groups step keeps w p invs =
      let (groups', looped, invs') = each_group-Groups step keeps w p.group_tx invs in
      (record p { group_tx = groups' }, rw looped refl, invs', refl, refl)

module _ {W : Type 0} (tm : Monitor W) where
  new_entry-IsGroup :
      (id time : ℕ) (compressed : Option Bytes) (txs : List MonitoredTx)
      → IsGroup tm.cfg.max_retries (record {
        db_entry = record (new_db_entry id time) { compressed_tx_data = compressed };
        txs = txs;
      })
  unfolding in_flight
  new_entry-IsGroup id time compressed txs = record {
    counted = refl;
    fresh = λ new. refl;
    single = omega arith;
    bounded = inl (omega arith);
    has_history = λ claims. cc;
  }

  add_group-Groups :
      (p : PendingTxs) (g : MonitoredTxGroup)
      → IsGroup tm.cfg.max_retries g
      → Groups tm.cfg.max_retries p.group_tx
      → Groups tm.cfg.max_retries (add_group p g).group_tx
  unfolding add_group
  add_group-Groups p g inv invs = elim (Option-cases (lookup g.db_entry.group_id p.group_tx)) [
    | inl free ↦ rw (free, add_group) (put-Groups g.db_entry.group_id g p.group_tx inv invs)
    | inr (there, found) ↦ rw (found, add_group) invs
  ]

  compress_group-Groups :
      (w : W) (p : PendingTxs) (g : MonitoredTxGroup)
      → ((bytes : Bytes)
          → IsGroup tm.cfg.max_retries
              (record g { db_entry = record g.db_entry { compressed_tx_data = some bytes } }))
      → Groups tm.cfg.max_retries p.group_tx
      → (p' : PendingTxs) → (compress_group tm w p g).1 ≡ ok p'
      → Groups tm.cfg.max_retries p'.group_tx
  unfolding compress_group
  compress_group-Groups w p g inv invs p' done =
      elim (Result-cases (get_compress_claim_parameters tm.abi g.txs)) [
        | inr (e, failed) ↦ absurd (err_ok e p' (rw (failed, compress_group) at done))
        | inl (params, composed) ↦
            let compressed =
              (tm.compress_claim_call w params.mainnet_exit_root params.rollup_exit_root
                params.claim_data).1 in
            elim (Result-cases compressed) [
              | inr (e, failed) ↦
                  absurd (err_ok e p' (rw (composed, compress_group, failed) at done))
              | inl (bytes, called) ↦
                  let g' : MonitoredTxGroup = record g {
                    db_entry = record g.db_entry { compressed_tx_data = some bytes };
                  } in
                  subst (λ q. Groups tm.cfg.max_retries q.group_tx)
                    (ok_injective (add_group p g') p'
                      (rw (composed, compress_group, called) at done))
                    (add_group-Groups p g' (inv bytes) invs)
            ]
      ]

  create_new_groups-Groups :
      (w : W) (p : PendingTxs)
      → Groups tm.cfg.max_retries p.group_tx
      → (p' : PendingTxs) → (create_new_groups tm w p).1 ≡ ok p'
      → Groups tm.cfg.max_retries p'.group_tx
  unfolding create_new_groups new_monitored_tx_group
  create_new_groups-Groups w p invs p' done =
      let (w', time) = tm.chain.now w in
      let chosen = choose_txs tm.cfg time p.tx_candidates_for_group in
      elim (Bool-cases (length chosen == 0)) [
        | inl nothing ↦
            subst (λ q. Groups tm.cfg.max_retries q.group_tx)
              (ok_injective p p' (rw (nothing, create_new_groups) at done)) invs
        | inr chose ↦
            let (p'', id) = generate_new_group_id p in
            let (w'', at_time) = tm.chain.now w' in
            compress_group-Groups w'' p'' (new_monitored_tx_group (new_db_entry id at_time) chosen)
              (λ bytes. new_entry-IsGroup id at_time (some bytes) _) invs p'
              (rw (chose, create_new_groups) at done)
      ]

  -- From groups as `IsGroup` says, with a maximum of retries below 2 ^ 31, a round that succeeds leaves
  -- such groups: groups whose numbers of retries count their claims, at most one of
  -- which is in flight; and a round can fail only where a new group is made.
  pub process-Groups :
      (w : W) (p : PendingTxs)
      → tm.cfg.max_retries < 2 ^ 31
      → Groups tm.cfg.max_retries p.group_tx
      → ((p' : PendingTxs) → (process tm w p).1 ≡ ok p' → Groups tm.cfg.max_retries p'.group_tx)
        × ((w' : W) × (p' : PendingTxs) × ((process tm w p) ≡ create_new_groups tm w' p')
            × (p'.tx_candidates_for_group ≡ p.tx_candidates_for_group)
            × (p'.last_group_tx_id ≡ p.last_group_tx_id))
  unfolding process
  process-Groups w p small invs =
      let (p1, sent, invs1, c1, l1) =
        on_groups-Groups (send_claim tm.chain tm.cfg tm.auth tm.gas_offset false)
          (λ w g inv. send_claim-IsGroup tm.chain tm.cfg tm.auth tm.gas_offset false w g small inv)
          w p invs in
      let w1 = (on_groups (send_claim tm.chain tm.cfg tm.auth tm.gas_offset false) w p).0 in
      let (p2, checked, invs2, c2, l2) =
        on_groups-Groups (check_receipts_of tm.chain) (check_receipts_of-IsGroup tm.chain) w1 p1
          invs1 in
      let w2 = (on_groups (check_receipts_of tm.chain) w1 p1).0 in
      let (p3, outdated, invs3, c3, l3) =
        on_groups-Groups (outdate_claims_of tm.chain tm.cfg)
          (outdate_claims_of-IsGroup tm.chain tm.cfg) w2 p2 invs2 in
      let w3 = (on_groups (outdate_claims_of tm.chain tm.cfg) w2 p2).0 in
      let steps : process tm w p ≡ create_new_groups tm w3 p3 =
        rw (sent, process, checked, outdated) refl in
      (
        λ p' done. create_new_groups-Groups w3 p3 invs3 p' (rw steps at done),
        (w3, p3, steps, c3 ∙ c2 ∙ c1, l3 ∙ l2 ∙ l1),
      )
