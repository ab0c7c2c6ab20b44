-- ===== src/Claimtxman/Compose.antt =====
-- claimtxman/compose_compress_claim.go: the claims of a group as parameters of one compressed claim.
use xlayer_bridge_service.Base.{
  ℕ, Bool, true, false, List, [], ◌∷◌, map, Result, ok, err, panic, method_unknown, ◌>>=◌,
  if◌then◌else◌, ltb, length, take,
}
use xlayer_bridge_service.Etherman.{Bytes, bytes_eq}
use xlayer_bridge_service.Claimtxman.Keyed.{put}
use xlayer_bridge_service.Claimtxman.Types.{MonitoredTx}

pub record BridgeClaimXParams : Type 0 where
  pub smt_proof_local_exit_root : List Bytes
  pub smt_proof_rollup_exit_root : List Bytes
  pub global_index : ℕ
  pub mainnet_exit_root : Bytes
  pub rollup_exit_root : Bytes
  pub origin_network : ℕ
  pub origin_token_address : Bytes
  pub destination_network : ℕ
  pub destination_address : Bytes
  pub amount : ℕ
  pub metadata : Bytes
  pub is_message : Bool

pub record CompressClaimCallData : Type 0 where
  pub smt_proof_local_exit_root : List Bytes
  pub smt_proof_rollup_exit_root : List Bytes
  pub global_index : ℕ
  pub origin_network : ℕ
  pub origin_address : Bytes
  pub destination_address : Bytes
  pub amount : ℕ
  pub metadata : Bytes
  pub is_message : Bool

pub record CompressClaimParameters : Type 0 where
  pub mainnet_exit_root : Bytes
  pub rollup_exit_root : Bytes
  pub claim_data : List CompressClaimCallData

-- The contract's ABI: the ids of the two methods, and go-ethereum's decoding of a call. The field
-- `is_message` of what `unpack` returns is not set yet.
pub record ClaimAbi : Type 0 where
  pub claim_assets_id : Bytes
  pub claim_messages_id : Bytes
  pub unpack : Bytes → Result BridgeClaimXParams

abbrev pub call_data_of : BridgeClaimXParams → CompressClaimCallData
call_data_of p = record {
  smt_proof_local_exit_root = p.smt_proof_local_exit_root;
  smt_proof_rollup_exit_root = p.smt_proof_rollup_exit_root;
  global_index = p.global_index;
  origin_network = p.origin_network;
  origin_address = p.origin_token_address;
  destination_address = p.destination_address;
  amount = p.amount;
  metadata = p.metadata;
  is_message = p.is_message;
}

module _ (abi : ClaimAbi) where
  abbrev unpack_as : Bool → Bytes → Result BridgeClaimXParams
  unpack_as is_message call = do
    params ← abi.unpack call
    ok (record params { is_message = is_message })

  -- A call shorter than a method's id panics.
  unfoldable pub extract_params : Bytes → Result BridgeClaimXParams
  extract_params call =
      if ltb (length call) 4
      then err panic
      else if bytes_eq abi.claim_assets_id (take 4 call)
      then unpack_as false call
      else if bytes_eq abi.claim_messages_id (take 4 call)
      then unpack_as true call
      else err method_unknown

  -- The loop over the map from deposits to calls.
  unfoldable pub extract_all : List (ℕ × Bytes) → Result (List (ℕ × BridgeClaimXParams))
  extract_all [] = ok []
  extract_all ((id, call) ∷ calls) = do
    params ← extract_params call
    rest ← extract_all calls
    ok ((id, params) ∷ rest)

-- The entry with the highest deposit; `slices.Max` panics on none.
abbrev higher {ℓ} : {A : Type ℓ} → ℕ × A → ℕ × A → ℕ × A
higher a b = if ltb a.0 b.0 then b else a

unfoldable pub max_entry {ℓ} : {A : Type ℓ} → ℕ × A → List (ℕ × A) → ℕ × A
max_entry best [] = best
max_entry best (e ∷ es) = max_entry (higher best e) es

unfoldable pub parameters_of : List (ℕ × BridgeClaimXParams) → Result CompressClaimParameters
parameters_of [] = err panic
parameters_of (e ∷ es) = ok (record {
  mainnet_exit_root = (max_entry e es).1.mainnet_exit_root;
  rollup_exit_root = (max_entry e es).1.rollup_exit_root;
  claim_data = map (λ entry. call_data_of entry.1) (e ∷ es);
})

-- The map from deposits to calls; a later claim of the same deposit replaces the earlier one.
unfoldable pub calls_of : List (ℕ × Bytes) → List MonitoredTx → List (ℕ × Bytes)
calls_of calls [] = calls
calls_of calls (tx ∷ txs) = calls_of (put tx.deposit_id tx.data_of calls) txs

unfoldable pub get_compress_claim_parameters :
    ClaimAbi → List MonitoredTx → Result CompressClaimParameters
unfolding calls_of extract_all parameters_of
get_compress_claim_parameters abi txs = do
  params ← extract_all abi (calls_of [] txs)
  parameters_of params
