-- ===== src/Claimtxman/Monitor/Round.antt =====
-- A round over all groups, a new group, and the transaction of the storage that it runs in.
use xlayer_bridge_service.Base.{
  ℕ, false, none, some, List, [], ◌∷◌, Result, ok, err, ◌>>=◌, if◌then◌else◌, length, ◌==◌,
}
use xlayer_bridge_service.Etherman.{Bytes}
use xlayer_bridge_service.Claimtxman.Types.{
  MonitoredTxGroup, MonitoredTxGroupDbEntry, no_log, group_created, new_monitored_tx_group,
}
use xlayer_bridge_service.Claimtxman.PendingTxs.{PendingTxs, generate_new_group_id, add_group}
use xlayer_bridge_service.Claimtxman.Trigger.{ConfigGroupingClaims, choose_txs}
use xlayer_bridge_service.Claimtxman.Compose.{
  ClaimAbi, CompressClaimCallData, get_compress_claim_parameters,
}
use xlayer_bridge_service.Claimtxman.Monitor.Defs.{
  Chain, TransactOpts, send_claim, check_receipts_of, outdate_claims_of,
}

pub record Monitor (W : Type 0) : Type 0 where
  pub chain : Chain W
  pub compress_claim_call : W → Bytes → Bytes → List CompressClaimCallData → W × Result Bytes
  pub abi : ClaimAbi
  pub cfg : ConfigGroupingClaims
  pub auth : TransactOpts
  pub gas_offset : ℕ

module _ {W : Type 0} where
  -- A loop over the groups, each of which it may change; a panic ends it.
  unfoldable pub each_group :
      (W → MonitoredTxGroup → W × Result MonitoredTxGroup)
      → W
      → List (ℕ × MonitoredTxGroup)
      → W × Result (List (ℕ × MonitoredTxGroup))
  each_group step w [] = (w, ok [])
  each_group step w ((id, g) ∷ groups) =
      let (w', stepped) = step w g in
      let (w'', rest) = each_group step w' groups in
      elim stepped [ err e ↦ (w', err e) | ok g' ↦ (w'', (rest >>= (λ gs. ok ((id, g') ∷ gs)))) ]

  unfoldable pub on_groups :
      (W → MonitoredTxGroup → W × Result MonitoredTxGroup) → W → PendingTxs → W × Result PendingTxs
  unfolding each_group
  on_groups step w p =
      let (w', groups) = each_group step w p.group_tx in
      (w', (groups >>= (λ gs. ok (record p { group_tx = gs }))))

abbrev pub new_db_entry : ℕ → ℕ → MonitoredTxGroupDbEntry
new_db_entry id time = record {
  group_id = id;
  status = group_created;
  deposit_ids = [];
  compressed_tx_data = none;
  claim_tx_history = none;
  created_at = time;
  updated_at = 0;
  num_retries = 0;
  last_log = no_log;
}

module _ {W : Type 0} (tm : Monitor W) where
  -- The chosen claims become a group once they have been compressed.
  unfoldable pub compress_group : W → PendingTxs → MonitoredTxGroup → W × Result PendingTxs
  compress_group w p g = elim (get_compress_claim_parameters tm.abi g.txs) [
    | err e ↦ (w, err e)
    | ok params ↦
        let (w', compressed) =
          tm.compress_claim_call w params.mainnet_exit_root params.rollup_exit_root
            params.claim_data in
        (
          w',
          (compressed >>= (λ bytes. ok (
              add_group p
                (record g { db_entry = record g.db_entry { compressed_tx_data = some bytes } })))),
        )
  ]

  unfoldable pub create_new_groups : W → PendingTxs → W × Result PendingTxs
  unfolding compress_group
  create_new_groups w p =
      let (w', time) = tm.chain.now w in
      let chosen = choose_txs tm.cfg time p.tx_candidates_for_group in
      if length chosen == 0
      then (w', ok p)
      else let (p', id) = generate_new_group_id p in
        let (w'', at_time) = tm.chain.now w' in
        compress_group w'' p' (new_monitored_tx_group (new_db_entry id at_time) chosen)

  -- One of the steps after another, as long as they succeed.
  abbrev pub then_on :
      W × Result PendingTxs → (W → PendingTxs → W × Result PendingTxs) → W × Result PendingTxs
  then_on before step = elim before.1 [ err e ↦ (before.0, err e) | ok p ↦ step before.0 p ]

  unfoldable pub process : W → PendingTxs → W × Result PendingTxs
  unfolding on_groups create_new_groups
  process w p =
      let sent = on_groups (send_claim tm.chain tm.cfg tm.auth tm.gas_offset false) w p in
      let checked = then_on sent (on_groups (check_receipts_of tm.chain)) in
      let outdated = then_on checked (on_groups (outdate_claims_of tm.chain tm.cfg)) in
      then_on outdated create_new_groups
