-- ===== src/Synchronizer/Reorg.antt =====
-- `checkReorg` of synchronizer/synchronizer.go.
use xlayer_bridge_service.Base.{
  ℕ, zero, suc, ◌+◌, ◌<◌, ◌≤◌, ◌≡◌, refl, sym, ap, subst, ◌∙◌, ◌⊎◌, inl, inr, Bool, true, false,
  not, ◌&&◌, Option, none, some, List, [], ◌∷◌, Result, ok, err, Error, storage_not_found,
  wrong_block_number, ◌>>=◌, if◌then◌else◌, ltb, ◌==◌, arith, Bool-cases, Result-cases,
}
use xlayer_bridge_service.Etherman.{Bytes, Block, bytes_eq, zero_digest}
pub mod Search

abbrev pub empty_block : Block
empty_block = record {
  id = 0;
  block_number = 0;
  block_hash = zero_digest;
  network_id = 0;
  global_exit_roots = [];
  remove_l2_ger = [];
  deposits = [];
  claims = [];
  tokens = [];
  verified_batches = [];
  activate_etrog = [];
  received_at = 0;
}

-- What `checkReorg` asks: the chain for the number and hash of the block of a number, and the storage
-- for the last stored block but so many. Neither changes while it runs.
pub record Stored : Type 0 where
  pub header_by_number : ℕ → Result (ℕ × Bytes)
  pub get_previous_block : ℕ → Result Block
  pub gen_block_number : ℕ

-- The end of the loop: the block that the stored blocks are fine up to, if it is not the latest.
unfoldable pub reorg_to : Block → Block → Option Block
reorg_to latest b = if bytes_eq latest.block_hash b.block_hash then none else some b

unfoldable pub received_at : Option Block → ℕ → Option Block
received_at received zero = received
received_at received (suc k) = none

module _ (s : Stored) where
  -- The hash on the chain of a stored block; a block that was received already is not asked for.
  unfoldable pub hash_on_chain : Option Block → Block → Result Bytes
  hash_on_chain (some received) b = ok received.block_hash
  hash_on_chain none b = do
    header ← s.header_by_number b.block_number
    if header.0 == b.block_number then ok header.1 else err wrong_block_number

  abbrev pub genesis : Block
  genesis = record empty_block { block_number = s.gen_block_number }

  -- Without a block before it, everything down to the genesis block is gone.
  unfoldable pub nothing_before : Error → Result (Option Block)
  nothing_before storage_not_found = ok (some genesis)
  nothing_before e = err e

  -- The loop, for so many rounds; none when these are not enough.
  unfoldable pub check_loop : ℕ → Block → ℕ → Block → Option Block → Option (Result (Option Block))
  unfolding hash_on_chain reorg_to nothing_before
  check_loop zero latest depth b received = none
  check_loop (suc fuel) latest depth b received = elim (hash_on_chain received b) [
    | err e ↦ some (err e)
    | ok h ↦
        if not (bytes_eq h b.block_hash) && ltb s.gen_block_number b.block_number
        then elim (s.get_previous_block (suc depth)) [
          | ok previous ↦ check_loop fuel latest (suc depth) previous none
          | err e ↦ some (nothing_before e)
        ]
        else some (ok (reorg_to latest b))
  ]

  unfoldable pub check_reorg : ℕ → Block → Option Block → Option (Result (Option Block))
  unfolding check_loop
  check_reorg fuel latest received = check_loop fuel latest 0 latest received

  -- The blocks from the latest one backwards, and what was received of each.
  unfoldable pub block_at : Block → ℕ → Result Block
  block_at latest zero = ok latest
  block_at latest (suc k) = s.get_previous_block (suc k)

  -- The chain has another block in the place of the stored one, above the genesis block.
  unfoldable pub Reorged : Block → Option Block → ℕ → Type 0
  Reorged latest received k =
      (b : Block) × (h : Bytes) × (block_at latest k ≡ ok b)
      × (hash_on_chain (received_at received k) b ≡ ok h)
      × (bytes_eq h b.block_hash ≡ false)
      × (s.gen_block_number < b.block_number)

  -- The chain has the stored block, or it is not above the genesis block.
  unfoldable pub Settled : Block → Option Block → ℕ → Block → Type 0
  Settled latest received k b =
      (h : Bytes) × (block_at latest k ≡ ok b)
      × (hash_on_chain (received_at received k) b ≡ ok h)
      × ((bytes_eq h b.block_hash ≡ true) ⊎ (b.block_number ≤ s.gen_block_number))

  -- What the answer says, when all blocks before the one at `k` were reorganised.
  unfoldable pub Answers : Block → Option Block → ℕ → Result (Option Block) → Type 0
  Answers latest received k (ok none) =
      (b : Block) × Settled latest received k b × (bytes_eq latest.block_hash b.block_hash ≡ true)
  Answers latest received k (ok (some b)) =
      (Settled latest received k b × (bytes_eq latest.block_hash b.block_hash ≡ false))
      ⊎ ((s.get_previous_block k ≡ err storage_not_found) × (b ≡ genesis))
  Answers latest received k (err e) =
      (block_at latest k ≡ err e)
      ⊎ ((b : Block) × (block_at latest k ≡ ok b)
          × (hash_on_chain (received_at received k) b ≡ err e))
