-- ===== src/Claimtxman/Manager/Eligible.antt =====
-- The manager makes claims of no other deposits than those it should.
use xlayer_bridge_service.Base.{
  ℕ, ◌-◌, true, false, not, List, [], ◌∷◌, Result, ok, err, ◌>>=◌, ◌==◌, ◌≡◌, refl, arith, Returns,
  Returns-bind, Returns-Unit, if_cases, Result-cases, inl, inr, ◌⊎◌, ◌≢◌, ◌∙◌, ap, some, suc,
  get_elem?, Bool-cases, false,
}
use xlayer_bridge_service.Etherman.{Bytes, Deposit, GlobalExitRoot, bytes_eq}
use xlayer_bridge_service.Bridgectrl.MerkleTree.Defs.{at}
use xlayer_bridge_service.Claimtxman.Types.{MonitoredTx}
use xlayer_bridge_service.Claimtxman.NonceCache.{NonceLru, get_next_nonce}
use xlayer_bridge_service.Claimtxman.Single.{L2Node, estimate}
use xlayer_bridge_service.Claimtxman.Manager.{
  ManagerStorage, BridgeService, ClaimCall, ManagerConfig, is_ignored, is_deposit_message_allowed,
  add_claim_tx, claim_call, claim_deposit, claim_deposits, root_of_deposits, is_l2_update,
  is_missing, second_lookup, ready_deposits, process_deposit_status, update_deposits_status,
  monitored,
}

-- The sender of the message is one of these addresses.
unfoldable pub IsAuthorized : Deposit → List Bytes → Type 0
IsAuthorized d addresses =
    (i : ℕ) × (address : Bytes) × (get_elem? addresses i ≡ some address)
    × (bytes_eq d.original_address address ≡ true)

-- A deposit to this L2 that is not claimed yet: a transfer, or a message from an authorised address.
pub record IsEligible {S : Type 0} (service : BridgeService S) (cfg : ManagerConfig) (d : Deposit)
    : Type 0 where
  pub to_here : (cfg.l2_network_id == d.destination_network) ≡ true
  pub not_claimed :
      service.get_deposit_status d.deposit_count d.network_id d.destination_network ≡ ok []
  pub allowed : (d.leaf_type ≢ 1) ⊎ IsAuthorized d cfg.authorized_claim_message_addresses

-- A property of the storage that only the claim of another deposit can break.
pub record ClaimsOnly {S : Type 0} (storage : ManagerStorage S) (service : BridgeService S)
    (cfg : ManagerConfig) (Holds : S → Type 0) : Type 0 where
  pub begin_keeps : (db : S) → Holds db → Returns Holds (storage.begin_db_transaction db)
  pub commit_keeps : (db : S) → Holds db → Returns Holds (storage.commit db)
  pub wait_keeps : (db : S) → Holds db → Holds (storage.after_wait db)
  pub l1_keeps :
      (db : S) (root : Bytes) (network : ℕ)
      → Holds db
      → Returns
          (λ (r : S × List Deposit). Holds r.0)
          (storage.update_l1_deposits_status db root network)
  pub l2_keeps :
      (db : S) (root : Bytes) (rollup network : ℕ)
      → Holds db
      → Returns Holds (storage.update_l2_deposits_status db root rollup network)
  pub add_keeps :
      (db : S) (tx : MonitoredTx) (d : Deposit)
      → Holds db
      → IsEligible service cfg d
      → tx.deposit_id ≡ d.id
      → Returns Holds (storage.add_claim_tx db tx)

IsAuthorized-allowed :
    (d : Deposit) (addresses : List Bytes)
    → is_deposit_message_allowed d addresses ≡ true
    → IsAuthorized d addresses
unfolding is_deposit_message_allowed IsAuthorized
IsAuthorized-allowed d [] e = cc
IsAuthorized-allowed d (a ∷ as') e = elim (Bool-cases (bytes_eq d.original_address a)) [
  | inl same ↦ (0, a, refl, same)
  | inr other ↦
      let (i, b, found, same) = IsAuthorized-allowed d as' (rw other at e) in
      (suc i, b, found, same)
]

-- What is not ignored has no claim, and is a transfer or an authorised message.
wanted_unclaimed :
    (cfg : ManagerConfig) (d : Deposit) (h : Bytes) → is_ignored cfg d h ≡ false → h ≡ []
unfolding is_ignored
wanted_unclaimed cfg d [] e = refl
wanted_unclaimed cfg d (x ∷ h) e = absurd (ground (arith, e))

wanted_allowed :
    (cfg : ManagerConfig) (d : Deposit) (h : Bytes)
    → is_ignored cfg d h ≡ false
    → (d.leaf_type ≢ 1) ⊎ IsAuthorized d cfg.authorized_claim_message_addresses
unfolding is_ignored
wanted_allowed cfg d h e =
    elim (Bool-cases (is_deposit_message_allowed d cfg.authorized_claim_message_addresses)) [
      | inl allows ↦ inr (IsAuthorized-allowed d cfg.authorized_claim_message_addresses allows)
      | inr bars ↦ let transfer : d.leaf_type ≢ 1 = ground (arith, e, bars) in inl transfer
    ]

module _ {W C S : Type 0} (node : L2Node W) (lru : NonceLru C) (storage : ManagerStorage S)
    (service : BridgeService S) (cfg : ManagerConfig)
    (build_send_claim : Deposit → List Bytes → List Bytes → List Bytes → Result ClaimCall)
    (Holds : S → Type 0) (only : ClaimsOnly storage service cfg Holds) where
  add_claim_tx-Holds :
      (w : W) (c : C) (db : S) (d : Deposit) (call : ClaimCall) (root : Bytes)
      → Holds db
      → IsEligible service cfg d
      → Returns Holds
          (add_claim_tx node lru storage service cfg build_send_claim w c db d.id call root).2
  unfolding add_claim_tx
  add_claim_tx-Holds w c db d call root holds eligible =
      let tx = monitored node lru storage service cfg build_send_claim d.id call root in
      elim (Result-cases (estimate node (cfg.retry_number - 1) w tx).1) [
        | inr (e, unknown) ↦ rw (unknown, add_claim_tx) holds
        | inl (gas, estimated) ↦
            let w' = (estimate node (cfg.retry_number - 1) w tx).0 in
            elim (Result-cases (get_next_nonce node.nonce_at lru w' c cfg.from).2) [
              | inr (e, no_nonce) ↦ rw (estimated, add_claim_tx, no_nonce) tt
              | inl (nonce, given) ↦
                  rw (estimated, add_claim_tx, given)
                    (only.add_keeps db (record tx { gas = gas; nonce = nonce }) d holds eligible
                      refl)
            ]
      ]

  claim_deposit-Holds :
      (w : W) (c : C) (db : S) (root : Bytes) (d : Deposit)
      → Holds db
      → Returns Holds (claim_deposit node lru storage service cfg build_send_claim w c db root d).2
  unfolding claim_deposit
  claim_deposit-Holds w c db root d holds =
      let P = λ (r : W × C × Result S). Returns Holds r.2 in
      if_cases P (not (cfg.l2_network_id == d.destination_network)) (λ elsewhere. holds)
        (λ here.
          elim (Result-cases
            (service.get_deposit_status d.deposit_count d.network_id d.destination_network)) [
              | inr (e, unknown) ↦ rw unknown tt
              | inl (h, known) ↦ rw known (
                  if_cases P (is_ignored cfg d h) (λ ignored. holds)
                    (λ wanted.
                      elim (Result-cases
                        (claim_call node lru storage service cfg build_send_claim db root d)) [
                          | inr (e, no_call) ↦ rw no_call tt
                          | inl (made, call) ↦ rw call (
                              add_claim_tx-Holds w c db d made.0 made.1 holds (record {
                                to_here = ground arith;
                                not_claimed = known ∙ ap ok (wanted_unclaimed cfg d h wanted);
                                allowed = wanted_allowed cfg d h wanted;
                              }))
                        ]))
            ])

  claim_deposits-Holds :
      (ds : List Deposit) (w : W) (c : C) (db : S) (root : Bytes)
      → Holds db
      → Returns Holds
          (claim_deposits node lru storage service cfg build_send_claim w c db root ds).2
  unfolding claim_deposits
  claim_deposits-Holds [] w c db root holds = holds
  claim_deposits-Holds (d ∷ ds) w c db root holds =
      let first = claim_deposit node lru storage service cfg build_send_claim w c db root d in
      let kept = claim_deposit-Holds w c db root d holds in
      elim (Result-cases first.2) [
        | inr (e, stopped) ↦ rw (stopped, claim_deposits) tt
        | inl (db', added) ↦
            let now : Holds db' = rw added at kept in
            rw (added, claim_deposits) (claim_deposits-Holds ds first.0 first.1 db' root now)
      ]

  any_root :
      (found : Result Bytes) (f : Bytes → S × Bytes)
      → ((root : Bytes) → Holds (f root).0)
      → Returns (λ (r : S × Bytes). Holds r.0) (found >>= (λ root. ok (f root)))
  any_root (ok root) f kept = kept root
  any_root (err e) f kept = tt

  root_of_deposits-Holds :
      (db : S) (ger : Bytes) (ds : List Deposit)
      → Holds db
      → Returns
          (λ (r : S × Bytes). Holds r.0)
          (root_of_deposits node lru storage service cfg build_send_claim db ger ds)
  unfolding root_of_deposits
  root_of_deposits-Holds db ger [] holds = holds
  root_of_deposits-Holds db ger (d ∷ ds) holds =
      let Q = λ (r : S × Bytes). Holds r.0 in
      let lookup_in = λ (s : S).
        storage.get_latest_trusted_ger_by_deposit s d.deposit_count d.network_id
          d.destination_network in
      let later = storage.after_wait db in
      if_cases (Returns Q) (is_missing node lru storage service cfg build_send_claim (lookup_in db))
        (λ missing.
          any_root (second_lookup node lru storage service cfg build_send_claim (lookup_in later))
            (λ root. (later, root)) (λ root. only.wait_keeps db holds))
        (λ found. any_root (lookup_in db) (λ root. (db, root)) (λ root. holds))

  with_root :
      (db : S) (ger : Bytes) (ds : List Deposit)
      → Holds db
      → Returns
          (λ (r : S × List Deposit × Bytes). Holds r.0)
          (root_of_deposits node lru storage service cfg build_send_claim db ger ds
            >>= (λ r. ok (r.0, ds, r.1)))
  with_root db ger ds holds =
      Returns-bind (λ (r : S × Bytes). Holds r.0) (λ (r : S × List Deposit × Bytes). Holds r.0)
        (root_of_deposits node lru storage service cfg build_send_claim db ger ds)
        (λ r. ok (r.0, ds, r.1)) (root_of_deposits-Holds db ger ds holds) (λ r kept. kept)

  ready_deposits-Holds :
      (db : S) (ger : GlobalExitRoot)
      → Holds db
      → Returns
          (λ (r : S × List Deposit × Bytes). Holds r.0)
          (ready_deposits node lru storage service cfg build_send_claim db ger)
  unfolding ready_deposits
  ready_deposits-Holds db ger holds =
      let P = λ (r : S × List Deposit × Bytes). Holds r.0 in
      if_cases (Returns P) (is_l2_update node lru storage service cfg build_send_claim ger)
        (λ l2.
          Returns-bind (λ (root : Bytes). Unit {0}) P (at ger.exit_roots 1) _ (Returns-Unit _)
            (λ root t.
              Returns-bind Holds P _ _ (only.l2_keeps db root cfg.rollup_id cfg.l2_network_id holds)
                (λ db' kept.
                  if_cases (Returns P) cfg.are_claims_between_l2s_enabled
                    (λ enabled.
                      let ds = storage.get_deposits_from_other_l2_to_claim db' cfg.l2_network_id in
                      Returns-bind (λ (xs : List Deposit). Unit {0}) P ds _ (Returns-Unit ds)
                        (λ xs t'. with_root db' ger.global_exit_root xs kept))
                    (λ disabled. kept))))
        (λ l1.
          Returns-bind (λ (root : Bytes). Unit {0}) P (at ger.exit_roots 0) _ (Returns-Unit _)
            (λ root t.
              Returns-bind (λ (r : S × List Deposit). Holds r.0) P _ _
                (only.l1_keeps db root cfg.l2_network_id holds) (λ r kept. kept)))

  -- updateDepositsStatus adds claims of no other deposits than those to this L2 that have no claim
  -- yet and are a transfer or a message from an authorised address: a property of the storage that only the claim of
  -- another deposit can break holds after it as before, whether it succeeds or fails.
  pub update_deposits_status-Holds :
      (w : W) (c : C) (db : S) (ger : GlobalExitRoot)
      → Holds db
      → Holds (update_deposits_status node lru storage service cfg build_send_claim w c db ger).2
  unfolding update_deposits_status process_deposit_status
  update_deposits_status-Holds w c db ger holds =
      elim (Result-cases (storage.begin_db_transaction db)) [
        | inr (e, refused) ↦ rw (refused, update_deposits_status) holds
        | inl (tx, begun) ↦
            let in_tx : Holds tx = rw begun at (only.begin_keeps db holds) in
            elim (Result-cases
              (ready_deposits node lru storage service cfg build_send_claim tx ger)) [
                | inr (e, unread) ↦ rw (begun, update_deposits_status, unread) holds
                | inl (r, read) ↦
                    let ready : Holds r.0 = rw read at (ready_deposits-Holds tx ger in_tx) in
                    let claimed =
                      claim_deposits node lru storage service cfg build_send_claim w c r.0 r.2
                        r.1 in
                    elim (Result-cases claimed.2) [
                      | inr (e, stopped) ↦ rw (begun, update_deposits_status, read, stopped) holds
                      | inl (tx', added) ↦
                          let after : Holds tx' =
                            rw added at (claim_deposits-Holds r.1 w c r.0 r.2 ready) in
                          elim (Result-cases (storage.commit tx')) [
                            | inr (e, lost) ↦
                                rw (begun, update_deposits_status, read, added, lost) holds
                            | inl (db', committed) ↦
                                let done : Holds db' =
                                  rw committed at (only.commit_keeps tx' after) in
                                rw (begun, update_deposits_status, read, added, committed) done
                          ]
                    ]
              ]
      ]
