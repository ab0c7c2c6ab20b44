-- ===== src/Claimtxman/Tests.antt =====
-- The theorems on claims at small inputs: a chain that mines every claim, a clock that counts calls.
use xlayer_bridge_service.Base.{
  All, ℕ, inr, ◌+◌, ◌≡◌, refl, inl, true, false, none, some, [], ◌∷◌, ok, arith, length, Option,
  List, group_not_found, ◌==◌, if◌then◌else◌, ◌⊎◌, Bool-cases, ==_iff, sym, ap, ◌∙◌, err,
}
use xlayer_bridge_service.Etherman.{zero_digest}
use xlayer_bridge_service.Claimtxman.Types.{
  group_failed, failed, MonitoredTxGroupDbEntry, MonitoredTx, created, claiming, MonitoredTxGroup,
  group_claiming, no_log,
}
use xlayer_bridge_service.Claimtxman.PendingTxs.{PendingTxs, new_pending_txs, ger_of_first}
use xlayer_bridge_service.Claimtxman.PendingTxs.Placed.{Holds}
use xlayer_bridge_service.Claimtxman.PendingTxs.New.{Unknown, new_pending_txs-Holds, IsCandidate}
use xlayer_bridge_service.Claimtxman.Trigger.{
  ConfigGroupingClaims, choose_txs, Triggered, choose_txs-take,
}
use xlayer_bridge_service.Claimtxman.Compose.{ClaimAbi}
use xlayer_bridge_service.Claimtxman.Monitor.Defs.{
  outdate_claims_of, int32_geb, all_txs, Chain, send_claim,
}
use xlayer_bridge_service.Claimtxman.Monitor.Groups.{IsGroup, in_flight}
use xlayer_bridge_service.Claimtxman.Monitor.Outdate.{outdate_claims_of-failed}
use xlayer_bridge_service.Claimtxman.Monitor.Send.{send_claim-in_flight}
use xlayer_bridge_service.Claimtxman.Monitor.InFlight.{Groups, no_groups, and_group, process-Groups}
use xlayer_bridge_service.Claimtxman.Monitor.Round.{Monitor, process, create_new_groups}

abbrev three_retries : ConfigGroupingClaims
three_retries = record {
  trigger_number_of_claims = 2;
  max_number_of_claims_per_group = 2;
  trigger_retained_claim_period = 100;
  max_retries = 3;
  retry_interval = 10;
  retry_timeout = 50;
  gas_offset = 0;
}

abbrev claim_of : ℕ → MonitoredTx
claim_of id = record {
  deposit_id = id;
  from = [];
  to = none;
  nonce = 0;
  value = 0;
  data_of = 1 ∷ 2 ∷ 3 ∷ 4 ∷ [];
  gas = 0;
  gas_price = 0;
  status = created;
  history = [];
  created_at = 7;
  updated_at = 7;
  group_id = none;
  global_exit_root = zero_digest;
}

abbrev waiting_group : MonitoredTxGroup
waiting_group = record {
  db_entry = record {
    group_id = 1;
    status = group_claiming;
    deposit_ids = 4 ∷ [];
    compressed_tx_data = some (9 ∷ []);
    claim_tx_history = some (record {
      version = 1;
      tx_hashes = record { tx_hash = 8 ∷ []; receipt_status = none; created_at = 6 } ∷ [];
    });
    created_at = 5;
    updated_at = 5;
    num_retries = 1;
    last_log = no_log;
  };
  txs = record (claim_of 4) { group_id = some 1; status = claiming } ∷ [];
}

abbrev mining : Chain ℕ
mining = record {
  send_compressed_claims = λ w opts call. (w + 1, ok (record { hash = w ∷ []; gas = 21000 }));
  check_tx_was_mined = λ w h. (w + 1, ok (true, record { status = 1; logs = 1 }));
  now = λ w. (w + 1, w);
  system_now = λ w. (w + 1, w);
}

abbrev toy_abi : ClaimAbi
toy_abi = record {
  claim_assets_id = 1 ∷ 2 ∷ 3 ∷ 4 ∷ [];
  claim_messages_id = 5 ∷ 6 ∷ 7 ∷ 8 ∷ [];
  unpack = λ call. ok (record {
    smt_proof_local_exit_root = [];
    smt_proof_rollup_exit_root = [];
    global_index = 0;
    mainnet_exit_root = zero_digest;
    rollup_exit_root = zero_digest;
    origin_network = 0;
    origin_token_address = [];
    destination_network = 1;
    destination_address = [];
    amount = 0;
    metadata = [];
    is_message = false;
  });
}

abbrev monitor : Monitor ℕ
monitor = record {
  chain = mining;
  compress_claim_call = λ w mainnet rollup claims. (w + 1, ok (length claims ∷ []));
  abi = toy_abi;
  cfg = three_retries;
  auth = record { no_send = false; gas_limit = 0 };
  gas_offset = 80000;
}

abbrev waiting_txs : PendingTxs
waiting_txs = record {
  group_tx = (1, waiting_group) ∷ [];
  tx_candidates_for_group = claim_of 5 ∷ claim_of 6 ∷ claim_of 7 ∷ [];
  last_group_tx_id = 1;
}

waiting_group-IsGroup : IsGroup 3 waiting_group
unfolding in_flight
waiting_group-IsGroup = record {
  counted = refl;
  fresh = λ new. cc;
  single = omega arith;
  bounded = inl (omega arith);
  has_history = λ claims. (_, refl);
}

choose_txs-take_example :
    (Triggered three_retries 20 (claim_of 5 ∷ claim_of 6 ∷ claim_of 7 ∷ [])
      → choose_txs three_retries 20 (claim_of 5 ∷ claim_of 6 ∷ claim_of 7 ∷ [])
        ≡ claim_of 5 ∷ claim_of 6 ∷ [])
    × (¬ Triggered three_retries 20 (claim_of 5 ∷ claim_of 6 ∷ claim_of 7 ∷ [])
        → choose_txs three_retries 20 (claim_of 5 ∷ claim_of 6 ∷ claim_of 7 ∷ []) ≡ [])
choose_txs-take_example =
    choose_txs-take three_retries 20 (claim_of 5 ∷ claim_of 6 ∷ claim_of 7 ∷ []) (omega arith)

send_claim-in_flight_example :
    send_claim mining three_retries
      (record { no_send = false; gas_limit = 0 })
      80000
      false
      20
      waiting_group
    ≡ (20, ok waiting_group)
send_claim-in_flight_example =
    send_claim-in_flight mining three_retries (record { no_send = false; gas_limit = 0 }) 80000
      false 20 waiting_group waiting_group-IsGroup (inl (unfold in_flight in omega arith))

process-Groups_example :
    ((p' : PendingTxs) → (process monitor 20 waiting_txs).1 ≡ ok p' → Groups 3 p'.group_tx)
    × ((w' : ℕ) × (p' : PendingTxs) × (process monitor 20 waiting_txs
          ≡ create_new_groups monitor w' p')
        × (p'.tx_candidates_for_group ≡ waiting_txs.tx_candidates_for_group)
        × (p'.last_group_tx_id ≡ 1))
process-Groups_example =
    process-Groups monitor 20 waiting_txs (omega arith) (and_group waiting_group-IsGroup no_groups)

abbrev one_entry : ℕ → Option MonitoredTxGroupDbEntry
one_entry id = if id == 1 then some waiting_group.db_entry else none

abbrev group_id_of : Option MonitoredTxGroupDbEntry → ℕ
group_id_of none = 0
group_id_of (some entry) = entry.group_id

not_filed : (entry : MonitoredTxGroupDbEntry) → none ≡ some entry → ⊥
not_filed entry h = cc

one_entry-keyed :
    (id : ℕ) (entry : MonitoredTxGroupDbEntry) → one_entry id ≡ some entry → entry.group_id ≡ id
one_entry-keyed id entry found = elim (Bool-cases (id == 1)) [
  | inl is_one ↦
      let same : some waiting_group.db_entry ≡ some entry = rw is_one at found in
      sym (ap group_id_of same) ∙ sym ((==_iff id 1).0 is_one)
  | inr other ↦ absurd (not_filed entry (rw other at found))
]

abbrev three_txs : List MonitoredTx
three_txs =
    claim_of 5 ∷ record (claim_of 4) { group_id = some 1; status = claiming } ∷ claim_of 6 ∷ []

new_pending_txs-Holds_example :
    ((p : PendingTxs) × (new_pending_txs three_txs one_entry 1 ≡ ok p)
      × Holds (ger_of_first three_txs) one_entry three_txs p
      × All (IsCandidate (ger_of_first three_txs)) p.tx_candidates_for_group
      × (p.last_group_tx_id ≡ 1))
    ⊎ (Unknown one_entry three_txs × (new_pending_txs three_txs one_entry 1 ≡ err group_not_found))
new_pending_txs-Holds_example = new_pending_txs-Holds three_txs one_entry 1 one_entry-keyed

outdate_claims_of-failed_example :
    (g' : MonitoredTxGroup) × ((outdate_claims_of mining three_retries 20 waiting_group).1 ≡ ok g')
    × (int32_geb 1 3 ≡ true
        → (g'.db_entry.status ≡ group_failed) × (g'.txs ≡ all_txs failed waiting_group.txs))
    × (int32_geb 1 3 ≡ false → (g'.db_entry.status ≡ group_claiming) × (g'.txs ≡ waiting_group.txs))
outdate_claims_of-failed_example =
    outdate_claims_of-failed mining three_retries 20 waiting_group waiting_group-IsGroup
