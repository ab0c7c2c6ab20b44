-- ===== src/Etherman.antt =====
-- The data that the service reads from the chains (etherman/types.go). Addresses and hashes are
-- byte lists; a time is a number of nanoseconds, and 0 is the zero time.
use xlayer_bridge_service.Base.{
  ℕ, ◌≡◌, refl, Bool, true, false, ◌&&◌, List, [], ◌∷◌, replicate, ◌==◌, arith,
}
pub mod Logs
pub mod GlobalIndex
pub mod Events
pub mod Read
pub mod Placing
pub mod Joining
pub mod Handlers
pub mod Reading
pub mod Tests

-- A `common.Hash`, a `[32]byte` or a `common.Address`.
abbrev pub Bytes : Type 0
Bytes = List ℕ

abbrev pub zero_digest : Bytes
zero_digest = replicate 32 0

abbrev pub zero_address : Bytes
zero_address = replicate 20 0

pub record Deposit : Type 0 where
  pub id : ℕ
  pub leaf_type : ℕ
  pub original_network : ℕ
  pub original_address : Bytes
  pub amount : ℕ
  pub destination_network : ℕ
  pub destination_address : Bytes
  pub deposit_count : ℕ
  pub block_id : ℕ
  pub block_number : ℕ
  pub network_id : ℕ
  pub tx_hash : Bytes
  pub metadata : Bytes
  pub ready_for_claim : Bool
  pub time : ℕ
  pub ready_time : ℕ
  pub dest_contract_address : Bytes

pub record GlobalExitRoot : Type 0 where
  pub block_id : ℕ
  pub block_number : ℕ
  pub exit_roots : List Bytes
  pub global_exit_root : Bytes
  pub network_id : ℕ
  pub id : ℕ
  pub time : ℕ

pub record RollupExitLeaf : Type 0 where
  pub id : ℕ
  pub block_id : ℕ
  pub leaf : Bytes
  pub rollup_id : ℕ
  pub root : Bytes

pub record Claim : Type 0 where
  pub mainnet_flag : Bool
  pub rollup_index : ℕ
  pub index : ℕ
  pub original_network : ℕ
  pub original_address : Bytes
  pub amount : ℕ
  pub destination_address : Bytes
  pub block_id : ℕ
  pub block_number : ℕ
  pub network_id : ℕ
  pub tx_hash : Bytes
  pub time : ℕ

pub record TokenWrapped : Type 0 where
  pub name : Bytes
  pub symbol : Bytes
  pub decimals : ℕ
  pub original_network : ℕ
  pub original_token_address : Bytes
  pub wrapped_token_address : Bytes
  pub block_id : ℕ
  pub block_number : ℕ
  pub network_id : ℕ

pub record VerifiedBatch : Type 0 where
  pub block_number : ℕ
  pub batch_number : ℕ
  pub rollup_id : ℕ
  pub local_exit_root : Bytes
  pub tx_hash : Bytes
  pub state_root : Bytes
  pub aggregator : Bytes

pub record Block : Type 0 where
  pub id : ℕ
  pub block_number : ℕ
  pub block_hash : Bytes
  pub network_id : ℕ
  pub global_exit_roots : List GlobalExitRoot
  pub remove_l2_ger : List GlobalExitRoot
  pub deposits : List Deposit
  pub claims : List Claim
  pub tokens : List TokenWrapped
  pub verified_batches : List VerifiedBatch
  pub activate_etrog : List Bool
  pub received_at : ℕ

-- The names of `EventOrder` in etherman.go, and a string that is none of them.
pub data EventOrder : Type 0 where
  global_exit_roots_order remove_l2_ger_order deposits_order claims_order : EventOrder
  tokens_order verify_batch_order other_order : EventOrder

pub record Order : Type 0 where
  pub name : EventOrder
  pub pos : ℕ

-- `==` on arrays of bytes.
unfoldable pub bytes_eq : Bytes → Bytes → Bool
bytes_eq [] [] = true
bytes_eq [] (y ∷ ys) = false
bytes_eq (x ∷ xs) [] = false
bytes_eq (x ∷ xs) (y ∷ ys) = x == y && bytes_eq xs ys

pub bytes_eq_sound : (xs ys : Bytes) → bytes_eq xs ys ≡ true → xs ≡ ys
unfolding bytes_eq
bytes_eq_sound [] [] h = refl
bytes_eq_sound [] (y ∷ ys) h = cc
bytes_eq_sound (x ∷ xs) [] h = cc
bytes_eq_sound (x ∷ xs) (y ∷ ys) h = ground (arith, bytes_eq_sound xs ys)

pub bytes_eq_refl : (xs : Bytes) → bytes_eq xs xs ≡ true
unfolding bytes_eq
bytes_eq_refl [] = refl
bytes_eq_refl (x ∷ xs) = ground (arith, bytes_eq_refl xs)

pub bytes_eq_comm : (xs ys : Bytes) → bytes_eq xs ys ≡ bytes_eq ys xs
unfolding bytes_eq
bytes_eq_comm [] [] = refl
bytes_eq_comm [] (y ∷ ys) = refl
bytes_eq_comm (x ∷ xs) [] = refl
bytes_eq_comm (x ∷ xs) (y ∷ ys) = ground (arith, bytes_eq_comm xs ys)
