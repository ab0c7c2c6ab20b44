-- ===== src/Synchronizer/Reorg/Search.antt =====
-- `checkReorg` finds the block that the stored blocks are fine up to.
use xlayer_bridge_service.Base.{
  ℕ, zero, suc, ◌+◌, ◌<◌, ◌≤◌, ◌≡◌, refl, sym, ap, subst, ◌∙◌, ◌⊎◌, inl, inr, true, false, not,
  ◌&&◌, Option, some, Result, ok, err, Error, storage_not_found, ltb, ◌==◌, arith, Bool-cases,
  Result-cases,
}
use xlayer_bridge_service.Etherman.{Bytes, Block, bytes_eq}
use xlayer_bridge_service.Synchronizer.Reorg.{
  Stored, hash_on_chain, genesis, nothing_before, reorg_to, check_loop, check_reorg, block_at,
  received_at, Reorged, Settled, Answers,
}

ok_err : {A : Type 0} (a : A) (e : Error) → ok a ≡ err e → ⊥
ok_err a e h = cc

bool_absurd : false ≡ true → ⊥
bool_absurd h = cc

module _ (s : Stored) where
  nothing_before-cases :
      (e : Error)
      → ((e ≡ storage_not_found) × (nothing_before s e ≡ ok (some (genesis s))))
        ⊎ (nothing_before s e ≡ err e)
  unfolding nothing_before
  nothing_before-cases storage_not_found = inl (refl, refl)
  nothing_before-cases e = inr refl

  stops_here :
      (latest b : Block) (received : Option Block) (k : ℕ) (h : Bytes)
      → block_at s latest k ≡ ok b
      → hash_on_chain s (received_at received k) b ≡ ok h
      → (not (bytes_eq h b.block_hash) && ltb s.gen_block_number b.block_number) ≡ false
      → Settled s latest received k b
  unfolding Settled
  stops_here latest b received k h at_k asked quiet = elim (Bool-cases (bytes_eq h b.block_hash)) [
    | inl same ↦ (h, at_k, asked, inl same)
    | inr other ↦
        let low : ltb s.gen_block_number b.block_number ≡ false = rw other at quiet in
        (h, at_k, asked, inr (ground arith))
  ]

  stops-Answers :
      (latest b : Block) (received : Option Block) (k : ℕ)
      → Settled s latest received k b
      → Answers s latest received k (ok (reorg_to latest b))
  unfolding reorg_to Answers
  stops-Answers latest b received k settled =
      elim (Bool-cases (bytes_eq latest.block_hash b.block_hash)) [
        | inl same ↦ rw (same, reorg_to) (b, settled, same)
        | inr other ↦ rw (other, reorg_to) (inl (settled, other))
      ]

  missing-Answers :
      (latest : Block) (received : Option Block) (k : ℕ) (e : Error)
      → s.get_previous_block (suc k) ≡ err e
      → Answers s latest received (suc k) (nothing_before s e)
  unfolding Answers block_at
  missing-Answers latest received k e failed = elim (nothing_before-cases e) [
    | inl (gone, r) ↦ rw r (inr (failed ∙ ap err gone, refl))
    | inr r ↦ rw r (inl failed)
  ]

  moved_here :
      (latest b : Block) (received : Option Block) (k : ℕ) (h : Bytes)
      → block_at s latest k ≡ ok b
      → hash_on_chain s (received_at received k) b ≡ ok h
      → (not (bytes_eq h b.block_hash) && ltb s.gen_block_number b.block_number) ≡ true
      → Reorged s latest received k
  unfolding Reorged
  moved_here latest b received k h at_k asked moved = elim (Bool-cases (bytes_eq h b.block_hash)) [
    | inl same ↦ absurd (bool_absurd (rw same at moved))
    | inr other ↦
        let high : ltb s.gen_block_number b.block_number ≡ true = rw other at moved in
        (b, h, at_k, asked, other, ground arith)
  ]

  node_failed :
      (latest b : Block) (received : Option Block) (k : ℕ) (e : Error)
      → block_at s latest k ≡ ok b
      → hash_on_chain s (received_at received k) b ≡ err e
      → Answers s latest received k (err e)
  unfolding Answers
  node_failed latest b received k e at_k failed = inr (b, at_k, failed)

  before_last :
      (n depth : ℕ) (p : Block)
      → s.get_previous_block n ≡ err storage_not_found
      → depth < n
      → s.get_previous_block (suc depth) ≡ ok p
      → suc depth < n
  before_last n depth p last below found = elim (Bool-cases (suc depth == n)) [
    | inl at_end ↦
        let here : suc depth ≡ n = ground arith in
        absurd
          (ok_err p storage_not_found (sym found ∙ ap (λ k. s.get_previous_block k) here ∙ last))
    | inr before ↦ ground arith
  ]

  one_more :
      (latest b : Block) (received : Option Block) (k : ℕ) (h : Bytes)
      → block_at s latest k ≡ ok b
      → hash_on_chain s (received_at received k) b ≡ ok h
      → (not (bytes_eq h b.block_hash) && ltb s.gen_block_number b.block_number) ≡ true
      → ((j : ℕ) → j < k → Reorged s latest received j)
      → (j : ℕ) → j < suc k
      → Reorged s latest received j
  one_more latest b received k h at_k asked moved before j lt = elim (Bool-cases (j == k)) [
    | inl here ↦ subst (λ i. Reorged s latest received i) (ground arith) reorged
    | inr less ↦ before j (ground arith)
  ]
    where
      reorged : Reorged s latest received k
      reorged = moved_here latest b received k h at_k asked moved

  check_loop-Answers :
      (n fuel depth : ℕ) (latest b : Block) (received : Option Block)
      → s.get_previous_block n ≡ err storage_not_found
      → n ≤ depth + fuel
      → depth < n
      → block_at s latest depth ≡ ok b
      → ((j : ℕ) → j < depth → Reorged s latest received j)
      → (r : Result (Option Block)) × (k : ℕ) × (check_loop s fuel latest depth b
            (received_at received depth)
          ≡ some r)
        × ((j : ℕ) → j < k → Reorged s latest received j)
        × Answers s latest received k r
  unfolding check_loop block_at received_at
  check_loop-Answers n zero depth latest b received last enough below at_k gone =
      absurd (omega arith)
  check_loop-Answers n (suc fuel) depth latest b received last enough below at_k gone =
      elim (Result-cases (hash_on_chain s (received_at received depth) b)) [
        | inr (e, failed) ↦ (
          err e,
          depth,
          rw (failed, check_loop) refl,
          gone,
          node_failed latest b received depth e at_k failed,
        )
        | inl (h, asked) ↦
            elim (Bool-cases
              (not (bytes_eq h b.block_hash) && ltb s.gen_block_number b.block_number)) [
                | inr quiet ↦ (
                  ok (reorg_to latest b),
                  depth,
                  rw (asked, check_loop, quiet) refl,
                  gone,
                  stops-Answers latest b received depth
                      (stops_here latest b received depth h at_k asked quiet),
                )
                | inl moved ↦
                    let further = one_more latest b received depth h at_k asked moved gone in
                    elim (Result-cases (s.get_previous_block (suc depth))) [
                      | inr (e, failed) ↦ (
                        nothing_before s e,
                        suc depth,
                        rw (asked, check_loop, moved, failed) refl,
                        further,
                        missing-Answers latest received depth e failed,
                      )
                      | inl (previous, found) ↦
                          let (r, k, looped, all, answer) =
                            check_loop-Answers n fuel (suc depth) latest previous received last
                              (omega arith) (before_last n depth previous last below found) found
                              further in
                          (r, k, rw (asked, check_loop, moved, found) looped, all, answer)
                    ]
              ]
      ]

  -- When the storage has fewer than n blocks before the latest one, n rounds are enough. The answer
  -- follows from the first block, backwards from the latest, that the chain still has or that is not
  -- above the genesis block: no reorganisation if it has the latest block's hash, else that block,
  -- and the genesis block if there is none. A failure of the node or the storage is passed on.
  pub check_reorg-Answers :
      (n : ℕ) (latest : Block) (received : Option Block)
      → 0 < n
      → s.get_previous_block n ≡ err storage_not_found
      → (r : Result (Option Block)) × (k : ℕ) × (check_reorg s n latest received ≡ some r)
        × ((j : ℕ) → j < k → Reorged s latest received j)
        × Answers s latest received k r
  unfolding check_reorg block_at received_at
  check_reorg-Answers n latest received some_rounds last =
      check_loop-Answers n n 0 latest latest received last (omega arith) some_rounds refl
        (λ j lt. absurd (omega (arith, lt)))
