-- ===== src/Synchronizer/SyncBlocks/Ends.antt =====
-- The loop of `syncBlocks` ends.
use xlayer_bridge_service.Base.{
  ℕ, zero, suc, ◌+◌, ◌-◌, ◌<◌, ◌≡◌, refl, Bool, false, not, ◌||◌, Option, none, some, List, [], ◌∷◌,
  Result, ok, err, Error, arith, if_cases, if_both, ◌⊎◌, inl, inr, ltb, leb,
}
use xlayer_bridge_service.Etherman.{Bytes, Block, Order}
use xlayer_bridge_service.Synchronizer.SyncBlocks.{
  SyncCalls, SyncSettings, Flow, Round, again, returns, at_head, with_genesis, next_round,
  store_range, reset_to, or_empty, reorged_range, store_checked, with_range, read_range, sync_round,
  sync_loop, first_range, sync_blocks, kept_in_memory, last_or,
}

-- A run that returns.
abbrev pub Ends : {W : Type 0} → Option (W × Bool × Block × Result (Unit {0})) → Type 0
Ends {W} o = (r : W × Bool × Block × Result (Unit {0})) × (o ≡ some r)

-- If another round follows, its range ends later, and `m` was before the latest block.
unfoldable Advances : {W : Type 0} → ℕ → ℕ → Round W → Type 0
Advances head m (again w f) = (f.last_known_block ≡ head) × (m < head) × (m < f.to_block)
Advances head m (returns w synced block r) = Unit

-- A property of both ways on from a result.
result_both {ℓ κ} :
    {A : Type 0} {B : Type ℓ} (P : B → Type κ) (r : Result A) {f : A → B} {g : Error → B}
    → ((a : A) → P (f a))
    → ((e : Error) → P (g e))
    → P (elim r as (λ x. B) [ ok a ↦ f a | err e ↦ g e ])
result_both P (ok a) pf pg = pf a
result_both P (err e) pf pg = pg e

checked_both {ℓ κ} :
    {A : Type 0} {B : Type ℓ} (P : B → Type κ) (r : Result (Option A)) {x : B} {y : A → B}
    {z : Error → B}
    → P x
    → ((a : A) → P (y a))
    → ((e : Error) → P (z e))
    → P (elim r as (λ q. B) [ err e ↦ z e | ok (some a) ↦ y a | ok none ↦ x ])
checked_both P (ok none) px py pz = px
checked_both P (ok (some a)) px py pz = py a
checked_both P (err e) px py pz = pz e

list_both {ℓ κ} :
    {A : Type 0} {B : Type ℓ} (P : B → Type κ) (xs : List A) {x : B} {y : A → List A → B}
    → P x
    → ((a : A) (as' : List A) → P (y a as'))
    → P (elim xs as (λ q. B) [ [] ↦ x | a ∷ as' ↦ y a as' ])
list_both P [] px py = px
list_both P (a ∷ as') px py = py a as'

module _ {W : Type 0} (calls : SyncCalls W) (cfg : SyncSettings) (head : ℕ)
    (fits : head + cfg.sync_chunk_size + 1 < 18446744073709551616)
    (positive : 0 < cfg.sync_chunk_size) where
  before :
      (f : Flow)
      → f.last_known_block ≡ head
      → leb f.last_known_block f.to_block ≡ false
      → f.to_block < head
  before f known goes = ground arith

  next_round-Advances :
      (w : W) (f : Flow)
      → f.last_known_block ≡ head
      → Advances head f.to_block (next_round calls cfg w f)
  unfolding next_round Advances
  next_round-Advances w f known =
      if_cases (λ (r : Round W). Advances head f.to_block r) (leb f.last_known_block f.to_block)
        (λ ends. tt)
        (λ goes.
          let lt = before f known goes in
          if_both (λ (r : Round W). Advances head f.to_block r)
            (not f.synced || cfg.force_sync_chunk) (known, lt, omega (arith, lt, fits))
            (known, lt, omega (arith, lt, fits, positive)))

  store_range-Advances :
      (w : W) (f : Flow) (blocks : List Block) (orders : Bytes → List Order)
      → f.last_known_block ≡ head
      → Advances head f.to_block (store_range calls cfg w f blocks orders)
  unfolding store_range Advances
  store_range-Advances w f blocks orders known =
      result_both (λ (r : Round W). Advances head f.to_block r)
        (calls.process_block_range w orders blocks).1
        (λ t.
          let w' = (calls.process_block_range w orders blocks).0 in
          if_both (λ (r : Round W). Advances head f.to_block r) (not cfg.force_sync_chunk)
            (next_round-Advances w'
              (record f { last_block_synced = last_or f.last_block_synced blocks }) known)
            (result_both (λ (r : Round W). Advances head f.to_block r)
              (calls.header_at w' f.to_block).1
              (λ h.
                next_round-Advances (calls.header_at w' f.to_block).0 (kept_in_memory f h.0 h.1)
                  known)
              (λ e. tt)))
        (λ e. tt)

  reset_to-Advances :
      (w : W) (f : Flow) (block : Block) (m : ℕ) → Advances head m (reset_to calls cfg w f block)
  unfolding reset_to Advances
  reset_to-Advances w f block m =
      result_both (λ (r : Round W). Advances head m r) (calls.reset_state w block.block_number).1
        (λ t. tt) (λ e. tt)

  store_checked-Advances :
      (w : W) (f : Flow) (received : Option Block) (blocks : List Block)
      (orders : Bytes → List Order)
      → f.last_known_block ≡ head
      → Advances head f.to_block (store_checked calls cfg w f received blocks orders)
  unfolding store_checked Advances
  store_checked-Advances w f received blocks orders known =
      let w' = (calls.check_reorg w f.last_block_synced received).0 in
      checked_both (λ (r : Round W). Advances head f.to_block r)
        (calls.check_reorg w f.last_block_synced received).1
        (store_range-Advances w' f blocks orders known) (λ b. reset_to-Advances w' f b f.to_block)
        (λ e. tt)

  reorged_range-Advances :
      (w : W) (f : Flow) (m : ℕ) → Advances head m (reorged_range calls cfg w f)
  unfolding reorged_range Advances
  reorged_range-Advances w f m =
      result_both (λ (r : Round W). Advances head m r) (or_empty (calls.get_previous_block w))
        (λ previous.
          let w' = (calls.check_reorg w previous none).0 in
          checked_both (λ (r : Round W). Advances head m r) (calls.check_reorg w previous none).1
            (reset_to-Advances w' f previous m) (λ b. reset_to-Advances w' f b m) (λ e. tt))
        (λ e. tt)

  with_range-Advances :
      (w : W) (f : Flow) (blocks : List Block) (orders : Bytes → List Order)
      → f.last_known_block ≡ head
      → Advances head f.to_block (with_range calls cfg w f blocks orders)
  unfolding with_range
  with_range-Advances w f blocks orders known =
      if_both (λ (r : Round W). Advances head f.to_block r) (not f.synced)
        (store_range-Advances w f blocks orders known)
        (if_both (λ (r : Round W). Advances head f.to_block r) cfg.force_sync_chunk
          (store_checked-Advances w f none blocks orders known)
          (list_both (λ (r : Round W). Advances head f.to_block r) blocks
            (reorged_range-Advances w f f.to_block)
            (λ b bs. store_checked-Advances w f (some b) bs orders known)))

  read_range-Advances :
      (w : W) (f : Flow)
      → f.last_known_block ≡ head
      → Advances head f.to_block (read_range calls cfg w f)
  unfolding read_range Advances
  read_range-Advances w f known =
      if_both (λ (r : Round W). Advances head f.to_block r) (ltb f.to_block f.from_block) tt
        (result_both (λ (r : Round W). Advances head f.to_block r)
          (calls.get_rollup_info w f.from_block f.to_block).1
          (λ read.
            result_both (λ (r : Round W). Advances head f.to_block r)
              (with_genesis calls cfg f.from_block read.0)
              (λ blocks.
                with_range-Advances (calls.get_rollup_info w f.from_block f.to_block).0 f blocks
                  read.1 known)
              (λ e. tt))
          (λ e. tt))

  -- A range that ends at the latest block is the last one.
  moved : (m n : ℕ) (r : Round W) → (n ≡ head) ⊎ (n ≡ m) → Advances head n r → Advances head m r
  unfolding Advances
  moved m n (again w f) (inl e) (known, lt, gt) = omega (arith, e, lt)
  moved m n (again w f) (inr e) (known, lt, gt) =
      (known, omega (arith, e, lt), omega (arith, e, gt))
  moved m n (returns w synced block r) e t = tt

  at_head-known :
      (f : Flow)
      → ((at_head calls cfg f head).last_known_block ≡ head)
        × (((at_head calls cfg f head).to_block ≡ head)
            ⊎ ((at_head calls cfg f head).to_block ≡ f.to_block))
  at_head-known f =
      if_both
        (λ (g : Flow).
          (g.last_known_block ≡ head) × ((g.to_block ≡ head) ⊎ (g.to_block ≡ f.to_block)))
        (ltb head f.to_block) (refl, inl refl) (refl, inr refl)

  module _ (stays : (w : W) → (calls.latest_header w).1 ≡ ok head) where
    sync_round-Advances :
        (w : W) (f : Flow)
        → f.last_known_block ≡ head
        → Advances head f.to_block (sync_round calls cfg w f)
    unfolding sync_round
    sync_round-Advances w f known =
        let w' = (calls.latest_header w).0 in
        let g = at_head calls cfg f head in
        let (known', reached) = at_head-known f in
        if_both (λ (r : Round W). Advances head f.to_block r) (ltb f.last_known_block f.to_block)
          (rw (stays w) (
            moved f.to_block g.to_block (read_range calls cfg w' g) reached
              (read_range-Advances w' g known')))
          (read_range-Advances w f known)

    next-Ends :
        (fuel : ℕ) (w : W) (f : Flow) (round : Round W)
        → sync_round calls cfg w f ≡ round
        → Advances head f.to_block round
        → head - f.to_block < suc fuel
        → ((w' : W) (f' : Flow)
            → f'.last_known_block ≡ head
            → head - f'.to_block < fuel
            → Ends (sync_loop calls cfg fuel w' f'))
        → Ends (sync_loop calls cfg (suc fuel) w f)
    unfolding sync_loop Advances
    next-Ends fuel w f (again w' f') e (known, lt, gt) enough rest =
        rw (e, sync_loop) (rest w' f' known (omega (arith, lt, gt, enough)))
    next-Ends fuel w f (returns w' synced block r) e t enough rest =
        rw (e, sync_loop) ((w', synced, block, r), refl)

    sync_loop-Ends :
        (fuel : ℕ) (w : W) (f : Flow)
        → f.last_known_block ≡ head
        → head - f.to_block < fuel
        → Ends (sync_loop calls cfg fuel w f)
    sync_loop-Ends zero w f known lt = absurd (omega (arith, lt))
    sync_loop-Ends (suc fuel) w f known lt =
        next-Ends fuel w f (sync_round calls cfg w f) refl (sync_round-Advances w f known) lt
          (sync_loop-Ends fuel)

    -- `syncBlocks` returns, with an error or without, while the latest block of the node stays the
    -- same, if the chunk size is positive and the latest block is a chunk below the end of uint64:
    -- one more round than the latest block's number is enough.
    pub sync_blocks-Ends :
        (fuel : ℕ) (w : W) (synced : Bool) (last : Block)
        → head < fuel
        → Ends (sync_blocks calls cfg fuel w synced last)
    unfolding sync_blocks
    sync_blocks-Ends fuel w synced last lt =
        rw (stays w, sync_blocks)
          (checked_both (λ (o : Option (W × Bool × Block × Result (Unit {0}))). Ends o)
            (calls.check_reorg (calls.latest_header w).0 last none).1
            (sync_loop-Ends fuel (calls.check_reorg (calls.latest_header w).0 last none).0
              (first_range calls cfg synced last head) refl (omega (arith, lt)))
            (λ b.
              result_both (λ (o : Option (W × Bool × Block × Result (Unit {0}))). Ends o)
                (calls.reset_state (calls.check_reorg (calls.latest_header w).0 last none).0
                  b.block_number).1
                (λ t. (_, refl)) (λ e. (_, refl)))
            (λ e. (_, refl)))
