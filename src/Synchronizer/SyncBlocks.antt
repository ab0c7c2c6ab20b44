-- ===== src/Synchronizer/SyncBlocks.antt =====
-- `syncBlocks` of synchronizer/synchronizer.go, over the functions that it calls.
use xlayer_bridge_service.Base.{
  ℕ, zero, suc, ◌+◌, ◌%◌, ◌^◌, Bool, true, false, not, ◌&&◌, ◌||◌, Option, none, some, List, [],
  ◌∷◌, Result, ok, err, Error, storage_not_found, below_genesis, reorg_check_failed, reset_failed,
  if◌then◌else◌, ltb, leb, ◌==◌,
}
use xlayer_bridge_service.Etherman.{Bytes, Block, Order}
use xlayer_bridge_service.Synchronizer.Reorg.{empty_block}
pub mod Ends

-- The node, the storage and the functions of the synchronizer that `syncBlocks` calls, on a state `W`
-- that holds what they change.
pub record SyncCalls (W : Type 0) : Type 0 where
  pub latest_header : W → W × Result ℕ
  pub header_at : W → ℕ → W × Result (ℕ × Bytes)
  pub check_reorg : W → Block → Option Block → W × Result (Option Block)
  pub reset_state : W → ℕ → W × Result (Unit {0})
  pub get_rollup_info : W → ℕ → ℕ → W × Result (List Block × (Bytes → List Order))
  pub get_previous_block : W → Result Block
  pub process_block_range : W → (Bytes → List Order) → List Block → W × Result (Unit {0})

pub record SyncSettings : Type 0 where
  pub sync_chunk_size : ℕ
  pub gen_block_number : ℕ
  pub force_sync_chunk : Bool

-- The variables of the loop. `synced` is the synchronizer's; it is announced when it is set.
pub record Flow : Type 0 where
  pub last_block_synced : Block
  pub from_block : ℕ
  pub to_block : ℕ
  pub last_known_block : ℕ
  pub synced : Bool

-- How a round of the loop ends: another one follows, or `syncBlocks` returns its block.
pub data Round (W : Type 0) : Type 0 where
  again : W → Flow → Round W
  returns : W → Bool → Block → Result (Unit {0}) → Round W

-- A sum of uint64.
abbrev pub add64 : ℕ → ℕ → ℕ
add64 a b = (a + b) % 18446744073709551616

abbrev pub last_or : Block → List Block → Block
last_or d [] = d
last_or d (b ∷ bs) = last_or b bs

-- No block in the storage stands for the empty block.
abbrev pub or_empty : Result Block → Result Block
or_empty (ok b) = ok b
or_empty (err storage_not_found) = ok empty_block
or_empty (err e) = err e

abbrev pub kept_in_memory : Flow → ℕ → Bytes → Flow
kept_in_memory f number hash = record f {
  last_block_synced = record empty_block { block_number = number; block_hash = hash };
}

module _ {W : Type 0} (calls : SyncCalls W) (cfg : SyncSettings) where
  -- The range ends at the latest block; reaching it is being synced.
  abbrev pub at_head : Flow → ℕ → Flow
  at_head f head =
      if ltb head f.to_block
      then record f {
        last_known_block = head;
        to_block = head;
        from_block =
            if not f.synced && not cfg.force_sync_chunk
            then f.last_block_synced.block_number
            else f.from_block;
        synced = true;
      }
      else record f { last_known_block = head }

  -- The genesis block is added if the node has no event in it.
  unfoldable pub with_genesis : ℕ → List Block → Result (List Block)
  with_genesis from_block blocks =
      if from_block == cfg.gen_block_number && not cfg.force_sync_chunk
      then elim blocks [
        | [] ↦ ok (empty_block ∷ [])
        | b ∷ bs ↦
            if not (b.block_number == cfg.gen_block_number)
            then ok (empty_block ∷ b ∷ bs)
            else ok (b ∷ bs)
      ]
      else if ltb from_block cfg.gen_block_number
      then err below_genesis
      else ok blocks

  -- The next range, or the end at the latest block that is known.
  unfoldable pub next_round : W → Flow → Round W
  next_round w f =
      if leb f.last_known_block f.to_block
      then returns w true f.last_block_synced (ok tt)
      else if not f.synced || cfg.force_sync_chunk
      then again w (record f {
        from_block = add64 f.to_block 1;
        to_block = add64 (add64 f.to_block 1) cfg.sync_chunk_size;
      })
      else again w (record f {
        from_block = f.last_block_synced.block_number;
        to_block = add64 f.to_block cfg.sync_chunk_size;
      })

  unfoldable pub store_range : W → Flow → List Block → (Bytes → List Order) → Round W
  unfolding next_round
  store_range w f blocks orders =
      let (w', processed) = calls.process_block_range w orders blocks in
      let (w'', header) = calls.header_at w' f.to_block in
      elim processed [
        | err e ↦ returns w' f.synced f.last_block_synced (err e)
        | ok t ↦
            if not cfg.force_sync_chunk
            then next_round w' (record f { last_block_synced = last_or f.last_block_synced blocks })
            else elim header [
              | err e ↦ returns w'' f.synced f.last_block_synced (err e)
              | ok (number, hash) ↦ next_round w'' (kept_in_memory f number hash)
            ]
      ]

  -- Back to a block; an error is replaced by the one given.
  unfoldable pub reset_to : W → Flow → Block → Round W
  reset_to w f block =
      let (w', done) = calls.reset_state w block.block_number in
      elim done [
        | err e ↦ returns w' f.synced f.last_block_synced (err reset_failed)
        | ok t ↦ returns w' f.synced block (ok tt)
      ]

  -- The block that is synced is not in the range any more: back to the block before it.
  unfoldable pub reorged_range : W → Flow → Round W
  unfolding reset_to
  reorged_range w f = elim (or_empty (calls.get_previous_block w)) [
    | err e ↦ returns w f.synced f.last_block_synced (err e)
    | ok previous ↦
        let (w', checked) = calls.check_reorg w previous none in
        elim checked [
          | err e ↦ returns w' f.synced f.last_block_synced (err e)
          | ok none ↦ reset_to w' f previous
          | ok (some b) ↦ reset_to w' f b
        ]
  ]

  -- The chain is checked again, with the block that was received of the one that is synced.
  unfoldable pub store_checked :
      W → Flow → Option Block → List Block → (Bytes → List Order) → Round W
  unfolding store_range reset_to
  store_checked w f received blocks orders =
      let (w', checked) = calls.check_reorg w f.last_block_synced received in
      elim checked [
        | err e ↦ returns w' f.synced f.last_block_synced (err reorg_check_failed)
        | ok (some b) ↦ reset_to w' f b
        | ok none ↦ store_range w' f blocks orders
      ]

  unfoldable pub with_range : W → Flow → List Block → (Bytes → List Order) → Round W
  unfolding store_range store_checked reorged_range
  with_range w f blocks orders =
      if not f.synced
      then store_range w f blocks orders
      else if cfg.force_sync_chunk
      then store_checked w f none blocks orders
      else elim blocks [ [] ↦ reorged_range w f | b ∷ bs ↦ store_checked w f (some b) bs orders ]

  unfoldable pub read_range : W → Flow → Round W
  unfolding with_genesis with_range
  read_range w f =
      if ltb f.to_block f.from_block
      then returns w f.synced f.last_block_synced (ok tt)
      else let (w', read) = calls.get_rollup_info w f.from_block f.to_block in
        elim read [
          | err e ↦ returns w' f.synced f.last_block_synced (err e)
          | ok (blocks, orders) ↦ elim (with_genesis f.from_block blocks) [
            | err e ↦ returns w' f.synced f.last_block_synced (err e)
            | ok blocks' ↦ with_range w' f blocks' orders
          ]
        ]

  unfoldable pub sync_round : W → Flow → Round W
  unfolding read_range
  sync_round w f =
      let (w', header) = calls.latest_header w in
      let looked = elim header as (λ h. Round W) [
        | err e ↦ returns w' f.synced f.last_block_synced (err e)
        | ok head ↦ read_range w' (at_head f head)
      ] in
      if ltb f.last_known_block f.to_block then looked else read_range w f

  -- So many rounds at most; none if they are not enough.
  unfoldable pub sync_loop : ℕ → W → Flow → Option (W × Bool × Block × Result (Unit {0}))
  unfolding sync_round
  sync_loop zero w f = none
  sync_loop (suc fuel) w f = elim (sync_round w f) [
    | again w' f' ↦ sync_loop fuel w' f'
    | returns w' synced block r ↦ some (w', synced, block, r)
  ]

  abbrev pub first_range : Bool → Block → ℕ → Flow
  first_range synced last head =
      let from =
        if synced && not cfg.force_sync_chunk
        then last.block_number
        else add64 last.block_number 1 in
      record {
        last_block_synced = last;
        from_block = from;
        to_block = add64 from cfg.sync_chunk_size;
        last_known_block = head;
        synced = synced;
      }

  unfoldable pub sync_blocks : ℕ → W → Bool → Block → Option (W × Bool × Block × Result (Unit {0}))
  unfolding sync_loop
  sync_blocks fuel w synced last =
      let (w', header) = calls.latest_header w in
      elim header [
        | err e ↦ some (w', synced, last, err e)
        | ok head ↦
            let (w'', checked) = calls.check_reorg w' last none in
            elim checked [
              | err e ↦ some (w'', synced, last, err reorg_check_failed)
              | ok none ↦ sync_loop fuel w'' (first_range synced last head)
              | ok (some b) ↦
                  let (w''', done) = calls.reset_state w'' b.block_number in
                  elim done [
                    | err e ↦ some (w''', synced, last, err reset_failed)
                    | ok t ↦ some (w''', synced, b, ok tt)
                  ]
            ]
      ]
