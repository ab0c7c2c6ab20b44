-- ===== src/Etherman/Joining.antt =====
-- An event that joins a block or starts one keeps what stays true while logs are read.
use xlayer_bridge_service.Base.{
  ℕ, ◌-◌, false, List, [], ◌∷◌, ◌++◌, ◌≡◌, subst, inl, inr, arith, Bool-cases, All, Returns,
  All-map, All-zip,
}
use xlayer_bridge_service.Etherman.{Bytes, Block, EventOrder, Order, bytes_eq}
use xlayer_bridge_service.Etherman.Logs.{Log}
use xlayer_bridge_service.Etherman.Events.{
  append_order, bare_block, is_block_of, place, record_order,
}
use xlayer_bridge_service.Etherman.Placing.{
  count_of, InSequence, InSequence-append, InSequence-bare, InBlock, Follows, IsApart, AreApart,
  Reads, Adds, AheadOf, newest_keeps,
}

-- A block older than the newest one, which is not the log's, is not the log's either.
older_away :
    (vlog : Log) (t : ℕ) (b c : Block)
    → IsApart b c
    → Follows b.block_hash b.block_number vlog
    → Follows c.block_hash c.block_number vlog
    → IsApart (bare_block vlog t) c
older_away vlog t b c apart fb fc =
    (omega (arith, apart.0, fb.0), ground (arith, apart.0, fb.0, fc.1))

newest_away :
    (vlog : Log) (t : ℕ) (b : Block)
    → is_block_of vlog b ≡ false
    → Follows b.block_hash b.block_number vlog
    → IsApart (bare_block vlog t) b
newest_away vlog t b other f = (ground (arith, other, f.0, f.1), ground (arith, other, f.1))

blocks_away :
    (vlog : Log) (logs : List Log) (t : ℕ) (b : Block) (bs : List Block)
    → is_block_of vlog b ≡ false
    → All (AheadOf (vlog ∷ logs)) (b ∷ bs)
    → All (IsApart b) bs
    → All (IsApart (bare_block vlog t)) (b ∷ bs)
blocks_away vlog logs t b bs other ahead apart = (
  newest_away vlog t b other ahead.0.0,
  All-zip (IsApart b) (AheadOf (vlog ∷ logs)) (IsApart (bare_block vlog t)) bs
      (λ c away f. older_away vlog t b c away ahead.0.0 f.0) apart ahead.1,
)

module _ (vlog : Log) (logs : List Log) (name : EventOrder) (add : Block → Block)
    (adds : Adds name add) where
  last_of : Block → Order
  last_of b = record { name = name; pos = count_of name b - 1 }

  joined_sequence :
      (b : Block) (orders : Bytes → List Order)
      → InSequence b (orders b.block_hash)
      → InSequence (add b) (
          orders (add b).block_hash ++ record { name = name; pos = count_of name (add b) - 1 } ∷ [])
  joined_sequence b orders seq other =
      rw (adds.same_hash b) (InSequence-append name add b (orders b.block_hash) adds seq other)

  started_sequence :
      (t : ℕ) (orders : Bytes → List Order)
      → orders (bare_block vlog t).block_hash ≡ []
      → let g = bare_block vlog t in
        InSequence (add g) (
          orders (add g).block_hash ++ record { name = name; pos = count_of name (add g) - 1 } ∷ [])
  started_sequence t orders none other =
      let g = bare_block vlog t in
      rw (adds.same_hash g, none)
        (InSequence-append name add g [] adds (InSequence-bare g (λ n. grind arith)) other)

  -- The event joins the newest block `b`.
  Reads-join :
      (b : Block) (bs : List Block) (orders : Bytes → List Order)
      → Reads (vlog ∷ logs) (record { blocks = b ∷ bs; blocks_order = orders })
      → Reads logs (record {
        blocks = add b ∷ bs;
        blocks_order =
            append_order orders
              (add b).block_hash
              (record { name = name; pos = count_of name (add b) - 1 });
      })
  unfolding AreApart
  Reads-join b bs orders r =
      newest_keeps logs (add b) bs orders (record { name = name; pos = count_of name (add b) - 1 })
        (
          rw (adds.same_hash b, adds.same_number b) r.ahead.0.1,
          All-map (AheadOf (vlog ∷ logs)) (AheadOf logs) bs (λ c f. f.1) r.ahead.1,
        )
        (rw (adds.same_hash b, adds.same_number b) r.apart.0, r.apart.1)
        (
          rw (adds.same_hash b) (
              All-map (InBlock b) (InBlock (add b)) (orders b.block_hash)
                (λ o lt. omega (arith, adds.no_less b o.name)) r.placed.0.0),
          adds.keeps_parts b r.placed.0.1,
        )
        (omega (arith, adds.one_more b)) (joined_sequence b orders r.placed.0.2) r.placed.1
        (λ h all. r.no_order h (subst (λ k. bytes_eq k h ≡ false) (adds.same_hash b) all.0, all.1))

  -- The event starts a block of its own.
  Reads-start :
      (t : ℕ) (bs : List Block) (orders : Bytes → List Order)
      → All (IsApart (bare_block vlog t)) bs
      → AreApart bs
      → All (Follows vlog.block_hash vlog.block_number) logs
      → Reads (vlog ∷ logs) (record { blocks = bs; blocks_order = orders })
      → Reads logs (record {
        blocks = add (bare_block vlog t) ∷ bs;
        blocks_order =
            append_order orders
              (add (bare_block vlog t)).block_hash
              (record { name = name; pos = count_of name (add (bare_block vlog t)) - 1 });
      })
  unfolding AreApart
  Reads-start t bs orders away apart follow r =
      let g = bare_block vlog t in
      let unlike =
        All-map (IsApart g) (λ (b : Block). bytes_eq b.block_hash g.block_hash ≡ false) bs
          (λ c a. a.1) away in
      let none : orders g.block_hash ≡ [] = r.no_order g.block_hash unlike in
      newest_keeps logs (add g) bs orders (record { name = name; pos = count_of name (add g) - 1 })
        (
          rw (adds.same_hash g, adds.same_number g) follow,
          All-map (AheadOf (vlog ∷ logs)) (AheadOf logs) bs (λ c f. f.1) r.ahead,
        )
        (rw (adds.same_hash g, adds.same_number g) away, apart)
        (rw (adds.same_hash g, none) tt, adds.keeps_parts g tt) (omega (arith, adds.one_more g))
        (started_sequence t orders none) r.placed (λ h all. r.no_order h all.1)

module _ (vlog : Log) (logs : List Log) (name : EventOrder) (fresh add : Block → Block)
    (fresh_adds : Adds name fresh) (adds : Adds name add) where
  -- Whether the event joins a block or starts one.
  pub record_order-Reads :
      (t : ℕ) (bs : List Block) (orders : Bytes → List Order)
      → All (Follows vlog.block_hash vlog.block_number) logs
      → Reads (vlog ∷ logs) (record { blocks = bs; blocks_order = orders })
      → Returns
          (Reads logs)
          (record_order name (count_of name) orders (place vlog (fresh (bare_block vlog t)) add bs))
  unfolding place record_order AreApart
  record_order-Reads t [] orders follow r =
      Reads-start vlog logs name fresh fresh_adds t [] orders tt tt follow r
  record_order-Reads t (b ∷ bs) orders follow r = elim (Bool-cases (is_block_of vlog b)) [
    | inl same ↦ rw same (Reads-join vlog logs name add adds b bs orders r)
    | inr other ↦ rw other (
        Reads-start vlog logs name fresh fresh_adds t (b ∷ bs) orders
          (blocks_away vlog logs t b bs other r.ahead r.apart.0) r.apart follow r)
  ]
