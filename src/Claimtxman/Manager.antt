-- ===== src/Claimtxman/Manager.antt =====
-- claimtxman/claimtxman.go: the claims that an exit root makes ready, and the events of `Start`.
use xlayer_bridge_service.Base.{
  ℕ, zero, suc, ◌-◌, ◌+◌, Bool, true, false, not, ◌&&◌, ◌||◌, Option, none, some, List, [], ◌∷◌,
  ◌++◌, Result, ok, err, Error, storage_not_found, ◌>>=◌, if◌then◌else◌, ltb, length, ◌==◌,
}
pub mod Eligible
pub mod Start
pub mod Updates
mod Tests
use xlayer_bridge_service.Etherman.{Bytes, Deposit, GlobalExitRoot, bytes_eq, zero_digest}
use xlayer_bridge_service.Bridgectrl.MerkleTree.Defs.{at}
use xlayer_bridge_service.Server.Proofs.{ClaimProof}
use xlayer_bridge_service.Claimtxman.Types.{MonitoredTx, created}
use xlayer_bridge_service.Claimtxman.NonceCache.{NonceLru, get_next_nonce}
use xlayer_bridge_service.Claimtxman.Single.{L2Node, estimate}

-- What the manager asks of the storage, in a transaction.
pub record ManagerStorage (S : Type 0) : Type 0 where
  pub begin_db_transaction : S → Result S
  pub commit : S → Result S
  pub rollback : S → Result (Unit {0})
  pub update_l1_deposits_status : S → Bytes → ℕ → Result (S × List Deposit)
  pub update_l2_deposits_status : S → Bytes → ℕ → ℕ → Result S
  pub get_deposits_from_other_l2_to_claim : S → ℕ → Result (List Deposit)
  pub get_latest_trusted_ger_by_deposit : S → ℕ → ℕ → ℕ → Result Bytes
  pub add_claim_tx : S → MonitoredTx → Result S
  pub after_wait : S → S  -- with what others commit during the retry interval

-- `bridgeServiceInterface`.
pub record BridgeService (S : Type 0) : Type 0 where
  pub get_deposit_status : ℕ → ℕ → ℕ → Result Bytes
  pub get_claim_proof_for_compressed : S → Bytes → ℕ → ℕ → Result ClaimProof

-- The receiver and the data of the claim's transaction.
pub record ClaimCall : Type 0 where
  pub to : Option Bytes
  pub data_of : Bytes

pub record ManagerConfig : Type 0 where
  pub l2_network_id : ℕ
  pub rollup_id : ℕ
  pub retry_number : ℕ
  pub are_claims_between_l2s_enabled : Bool
  pub authorized_claim_message_addresses : List Bytes
  pub grouping_enabled : Bool
  pub from : Bytes  -- the transactor's address

abbrev pub leaf_type_message : ℕ
leaf_type_message = 1

-- `proof[i]` for i from `i` on, so many times.
unfoldable pub first_nodes : ℕ → ℕ → List Bytes → Result (List Bytes)
first_nodes zero i proof = ok []
first_nodes (suc rounds) i proof =
    at proof i >>= (λ x. first_nodes rounds (i + 1) proof >>= (λ xs. ok (x ∷ xs)))

unfoldable pub is_deposit_message_allowed : Deposit → List Bytes → Bool
is_deposit_message_allowed d [] = false
is_deposit_message_allowed d (addr ∷ addrs) =
    let rest = is_deposit_message_allowed d addrs in
    if bytes_eq d.original_address addr then true else rest

-- A deposit that is left: claimed already, or a message that is not authorised.
unfoldable pub is_ignored : ManagerConfig → Deposit → Bytes → Bool
unfolding is_deposit_message_allowed
is_ignored cfg d claim_hash =
    ltb 0 (length claim_hash)
    || (d.leaf_type == leaf_type_message
        && not (is_deposit_message_allowed d cfg.authorized_claim_message_addresses))

module _ {W C S : Type 0} (node : L2Node W) (lru : NonceLru C) (storage : ManagerStorage S)
    (service : BridgeService S) (cfg : ManagerConfig)
    (build_send_claim : Deposit → List Bytes → List Bytes → List Bytes → Result ClaimCall) where
  abbrev pub monitored : ℕ → ClaimCall → Bytes → MonitoredTx
  monitored deposit_id call ger = record {
    deposit_id = deposit_id;
    from = cfg.from;
    to = call.to;
    nonce = 0;
    value = 0;
    data_of = call.data_of;
    gas = 0;
    gas_price = 0;
    status = created;
    history = [];
    created_at = 0;
    updated_at = 0;
    group_id = none;
    global_exit_root = ger;
  }

  -- A claim whose gas cannot be estimated is left out, without an error.
  unfoldable pub add_claim_tx : W → C → S → ℕ → ClaimCall → Bytes → W × C × Result S
  unfolding estimate get_next_nonce
  add_claim_tx w c db deposit_id call ger =
      let tx = monitored deposit_id call ger in
      let (w', estimated) = estimate node (cfg.retry_number - 1) w tx in
      elim estimated [
        | err e ↦ (w', c, ok db)
        | ok gas ↦
            let (w'', c', next) = get_next_nonce node.nonce_at lru w' c cfg.from in
            elim next [
              | err e ↦ (w'', c', err e)
              | ok nonce ↦
                  (w'', c', storage.add_claim_tx db (record tx { gas = gas; nonce = nonce }))
            ]
      ]

  -- The proofs of 32 nodes each, the exit roots, and the call that they make.
  unfoldable pub claim_call : S → Bytes → Deposit → Result (ClaimCall × Bytes)
  unfolding first_nodes
  claim_call db ger d =
      service.get_claim_proof_for_compressed db ger d.deposit_count d.network_id >>= (λ proof.
        first_nodes 32 0 proof.merkle_proof >>= (λ mt_proof.
          first_nodes 32 0 proof.rollup_merkle_proof >>= (λ mt_rollup_proof.
            first_nodes 2 0 proof.global_exit_root.exit_roots >>= (λ roots.
              build_send_claim d mt_proof mt_rollup_proof roots
              >>= (λ call. ok (call, proof.global_exit_root.global_exit_root))))))

  unfoldable pub claim_deposit : W → C → S → Bytes → Deposit → W × C × Result S
  unfolding is_ignored claim_call add_claim_tx
  claim_deposit w c db ger d =
      if not (cfg.l2_network_id == d.destination_network)
      then (w, c, ok db)
      else elim (service.get_deposit_status d.deposit_count d.network_id d.destination_network) [
        | err e ↦ (w, c, err e)
        | ok claim_hash ↦
            if is_ignored cfg d claim_hash then (w, c, ok db) else elim (claim_call db ger d) [
              | err e ↦ (w, c, err e)
              | ok (call, root) ↦ add_claim_tx w c db d.id call root
            ]
      ]

  unfoldable pub claim_deposits : W → C → S → Bytes → List Deposit → W × C × Result S
  unfolding claim_deposit
  claim_deposits w c db ger [] = (w, c, ok db)
  claim_deposits w c db ger (d ∷ ds) =
      let (w', c', r) = claim_deposit w c db ger d in
      elim r [ err e ↦ (w', c', err e) | ok db' ↦ claim_deposits w' c' db' ger ds ]

  -- The second lookup may miss the root as well: then it is the zero hash.
  abbrev pub second_lookup : Result Bytes → Result Bytes
  second_lookup (ok root) = ok root
  second_lookup (err storage_not_found) = ok zero_digest
  second_lookup (err e) = err e

  abbrev pub is_missing : Result Bytes → Bool
  is_missing r = elim r [
    | ok root ↦ false
    | err e ↦ elim e [ storage_not_found ↦ true | _ ↦ false ]
  ]

  -- The root that the deposits of other L2s are claimed under; the lookup is made twice at most.
  unfoldable pub root_of_deposits : S → Bytes → List Deposit → Result (S × Bytes)
  root_of_deposits db ger [] = ok (db, ger)
  root_of_deposits db ger (d ∷ ds) =
      let lookup_in = λ (s : S).
        storage.get_latest_trusted_ger_by_deposit s d.deposit_count d.network_id
          d.destination_network in
      let later = storage.after_wait db in
      if is_missing (lookup_in db)
      then second_lookup (lookup_in later) >>= (λ root. ok (later, root))
      else lookup_in db >>= (λ root. ok (db, root))

  abbrev pub is_l2_update : GlobalExitRoot → Bool
  is_l2_update ger = not (ger.block_id == 0) && ger.network_id == 0

  -- The deposits that the exit root makes ready, and the root they are claimed under.
  unfoldable pub ready_deposits : S → GlobalExitRoot → Result (S × List Deposit × Bytes)
  unfolding root_of_deposits
  ready_deposits db ger =
      if is_l2_update ger
      then at ger.exit_roots 1 >>= (λ root.
        storage.update_l2_deposits_status db root cfg.rollup_id cfg.l2_network_id >>= (λ db'.
          if cfg.are_claims_between_l2s_enabled
          then storage.get_deposits_from_other_l2_to_claim db' cfg.l2_network_id
            >>= (λ ds. root_of_deposits db' ger.global_exit_root ds >>= (λ r. ok (r.0, ds, r.1)))
          else ok (db', [], ger.global_exit_root)))
      else at ger.exit_roots 0 >>= (λ root.
        storage.update_l1_deposits_status db root cfg.l2_network_id
        >>= (λ r. ok (r.0, r.1, ger.global_exit_root)))

  unfoldable pub process_deposit_status : W → C → S → GlobalExitRoot → W × C × Result S
  unfolding ready_deposits claim_deposits
  process_deposit_status w c db ger = elim (ready_deposits db ger) [
    | err e ↦ (w, c, err e)
    | ok (db', ds, root) ↦ claim_deposits w c db' root ds
  ]

  abbrev rolled : S → Error → Error
  rolled db e = elim (storage.rollback db) [ err r ↦ r | ok t ↦ e ]

  -- The storage is as before where it fails.
  unfoldable pub update_deposits_status : W → C → S → GlobalExitRoot → W × C × S × Result (Unit {0})
  unfolding process_deposit_status
  update_deposits_status w c db ger = elim (storage.begin_db_transaction db) [
    | err e ↦ (w, c, db, err e)
    | ok tx ↦
        let (w', c', processed) = process_deposit_status w c tx ger in
        elim processed [
          | err e ↦ (w', c', db, err (rolled tx e))
          | ok tx' ↦ elim (storage.commit tx') [
            | err e ↦ (w', c', db, err (rolled tx' e))
            | ok db' ↦ (w', c', db', ok tt)
          ]
        ]
  ]
