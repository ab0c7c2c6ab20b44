-- ===== src/Etherman/Placing.antt =====
-- What stays true while logs are read: each block's events stand where their order says.
use xlayer_bridge_service.Base.{
  ℕ, zero, suc, ◌-◌, Bool, true, arith, if◌then◌else◌, if_both, Bool-cases, inl, inr, append-nil,
  ◌≤◌, ◌<◌, false, List, [], ◌∷◌, ◌++◌, length, ◌==◌, ◌≡◌, refl, ◌∙◌, ◌⊎◌, All, All-append, All-zip,
}
use xlayer_bridge_service.Etherman.{
  Bytes, Block, GlobalExitRoot, EventOrder, Order, bytes_eq, bytes_eq_comm, bytes_eq_refl,
  global_exit_roots_order, remove_l2_ger_order, deposits_order, claims_order, tokens_order,
  verify_batch_order, other_order,
}
use xlayer_bridge_service.Etherman.Logs.{Log}
use xlayer_bridge_service.Etherman.Events.{Events, append_order}

-- How many events of this name a block has.
abbrev pub count_of : EventOrder → Block → ℕ
count_of name b = elim name [
  | global_exit_roots_order ↦ length b.global_exit_roots
  | remove_l2_ger_order ↦ length b.remove_l2_ger
  | deposits_order ↦ length b.deposits
  | claims_order ↦ length b.claims
  | tokens_order ↦ length b.tokens
  | verify_batch_order ↦ length b.verified_batches
  | other_order ↦ 0
]

abbrev pub InBlock : Block → Order → Type 0
InBlock b order = order.pos < count_of order.name b

abbrev pub number_of : EventOrder → ℕ
number_of name = elim name [
  | global_exit_roots_order ↦ 1
  | remove_l2_ger_order ↦ 2
  | deposits_order ↦ 3
  | claims_order ↦ 4
  | tokens_order ↦ 5
  | verify_batch_order ↦ 6
  | other_order ↦ 7
]

abbrev pub same_name : EventOrder → EventOrder → Bool
same_name a b = number_of a == number_of b

-- The positions that the orders of this name give, in their order.
unfoldable pub positions : EventOrder → List Order → List ℕ
positions name [] = []
positions name (order ∷ orders) =
    let rest = positions name orders in if same_name order.name name then order.pos ∷ rest else rest

-- The numbers below this one, in their order.
unfoldable pub below : ℕ → List ℕ
below zero = []
below (suc n) = below n ++ n ∷ []

-- The orders of each name go through the block's array from its start to its end.
abbrev pub InSequence : Block → List Order → Type 0
InSequence b orders = (name : EventOrder) → positions name orders ≡ below (count_of name b)

-- An exit root of L1 with its two parts, or one of an L2 with none.
abbrev pub HasParts : GlobalExitRoot → Type 0
HasParts ger = (length ger.exit_roots ≡ 0) ⊎ (length ger.exit_roots ≡ 2)

-- The log is of this block or of a later one; blocks of one number have one hash.
abbrev pub Follows : Bytes → ℕ → Log → Type 0
Follows block_hash number vlog =
    (number ≤ vlog.block_number)
    × (bytes_eq block_hash vlog.block_hash ≡ (number == vlog.block_number))

-- Logs as a node gives them: by their blocks' numbers, of one chain.
unfoldable pub IsOrdered : List Log → Type 0
IsOrdered [] = Unit {0}
IsOrdered (vlog ∷ logs) = All (Follows vlog.block_hash vlog.block_number) logs × IsOrdered logs

abbrev pub IsApart : Block → Block → Type 0
IsApart b c = (c.block_number < b.block_number) × (bytes_eq c.block_hash b.block_hash ≡ false)

-- The newest block comes first.
unfoldable pub AreApart : List Block → Type 0
AreApart [] = Unit {0}
AreApart (b ∷ bs) = All (IsApart b) bs × AreApart bs

abbrev pub IsWellPlaced : (Bytes → List Order) → Block → Type 0
IsWellPlaced orders b =
    All (InBlock b) (orders b.block_hash)
    × All HasParts b.global_exit_roots
    × InSequence b (orders b.block_hash)

-- Where `logs` are still to be read.
pub record Reads (logs : List Log) (es : Events) : Type 0 where
  pub ahead : All (λ b. All (Follows b.block_hash b.block_number) logs) es.blocks
  pub apart : AreApart es.blocks
  pub placed : All (IsWellPlaced es.blocks_order) es.blocks
  pub no_order :
      (h : Bytes)
      → All (λ (b : Block). bytes_eq b.block_hash h ≡ false) es.blocks
      → es.blocks_order h ≡ []

-- `add` puts one more event of this name at the end of its array.
pub record Adds (name : EventOrder) (add : Block → Block) : Type 0 where
  pub same_hash : (b : Block) → (add b).block_hash ≡ b.block_hash
  pub same_number : (b : Block) → (add b).block_number ≡ b.block_number
  pub one_more : (b : Block) → count_of name (add b) ≡ suc (count_of name b)
  pub counts :
      (b : Block) (other : EventOrder)
      → (same_name name other ≡ true)
          × (count_of other (add b) ≡ suc (count_of name b))
          × (count_of other b ≡ count_of name b)
        ⊎ (same_name name other ≡ false) × (count_of other (add b) ≡ count_of other b)
  pub no_less : (b : Block) (other : EventOrder) → count_of other b ≤ count_of other (add b)
  pub keeps_parts :
      (b : Block) → All HasParts b.global_exit_roots → All HasParts (add b).global_exit_roots

append_order_self :
    (orders : Bytes → List Order) (key : Bytes) (order : Order)
    → append_order orders key order key ≡ orders key ++ order ∷ []
unfolding append_order
append_order_self orders key order = rw (bytes_eq_refl key) refl

append_order_other :
    (orders : Bytes → List Order) (key h : Bytes) (order : Order)
    → bytes_eq h key ≡ false
    → append_order orders key order h ≡ orders h
unfolding append_order
append_order_other orders key h order e = rw e refl

positions-append :
    (name : EventOrder) (orders : List Order) (order : Order)
    → positions name (orders ++ order ∷ [])
      ≡ positions name orders ++ (if same_name order.name name then order.pos ∷ [] else [])
unfolding positions
positions-append name [] order =
    if_both (λ (xs : List ℕ). xs ≡ xs) (same_name order.name name) refl refl
positions-append name (o ∷ orders) order = elim (Bool-cases (same_name o.name name)) [
  | inl same ↦ rw (same, positions-append name orders order) refl
  | inr other ↦ rw (other, positions-append name orders order) refl
]

-- The order of one more event follows those of the block's events before it.
pub InSequence-append :
    (name : EventOrder) (add : Block → Block) (b : Block) (orders : List Order)
    → Adds name add
    → InSequence b orders
    → InSequence (add b) (orders ++ record { name = name; pos = count_of name (add b) - 1 } ∷ [])
unfolding below
InSequence-append name add b orders adds seq other =
    let order : Order = record { name = name; pos = count_of name (add b) - 1 } in
    let last : count_of name (add b) - 1 ≡ count_of name b = omega (arith, adds.one_more b) in
    elim (adds.counts b other) [
      | inl (same, counted, before) ↦
          rw (positions-append other orders order, same, seq other, counted, before, last) refl
      | inr (apart, counted) ↦
          rw (positions-append other orders order, apart, seq other, counted) (append-nil _)
    ]

-- A block without events has no orders.
pub InSequence-bare : (b : Block) → ((name : EventOrder) → count_of name b ≡ 0) → InSequence b []
unfolding positions below
InSequence-bare b none name = rw (none name) refl

abbrev pub AheadOf : List Log → Block → Type 0
AheadOf logs b = All (Follows b.block_hash b.block_number) logs

module _ (logs : List Log) (g : Block) (bs : List Block) (orders : Bytes → List Order)
    (order : Order) where
  others_placed :
      All (IsApart g) bs
      → All (IsWellPlaced orders) bs
      → All (IsWellPlaced (append_order orders g.block_hash order)) bs
  others_placed apart placed =
      All-zip (IsApart g) (IsWellPlaced orders)
        (IsWellPlaced (append_order orders g.block_hash order)) bs
        (λ c away p. (
          rw (append_order_other orders g.block_hash c.block_hash order away.1) p.0,
          p.1,
          λ n. rw (append_order_other orders g.block_hash c.block_hash order away.1) (p.2 n),
        ))
        apart placed

  newest_placed :
      All (InBlock g) (orders g.block_hash)
      → InBlock g order
      → All (InBlock g) (append_order orders g.block_hash order g.block_hash)
  newest_placed placed here =
      rw (append_order_self orders g.block_hash order)
        (All-append (InBlock g) (orders g.block_hash) (order ∷ []) placed (here, tt))

  still_no_order :
      ((h : Bytes) → All (λ (b : Block). bytes_eq b.block_hash h ≡ false) (g ∷ bs) → orders h ≡ [])
      → (h : Bytes) → All (λ (b : Block). bytes_eq b.block_hash h ≡ false) (g ∷ bs)
      → append_order orders g.block_hash order h ≡ []
  still_no_order none h all =
      append_order_other orders g.block_hash h order (bytes_eq_comm h g.block_hash ∙ all.0)
      ∙ none h all

  -- The newest block `g` has the event of the order; the others stand as before.
  pub newest_keeps :
      All (AheadOf logs) (g ∷ bs)
      → AreApart (g ∷ bs)
      → All (InBlock g) (orders g.block_hash) × All HasParts g.global_exit_roots
      → InBlock g order
      → InSequence g (orders g.block_hash ++ order ∷ [])
      → All (IsWellPlaced orders) bs
      → ((h : Bytes)
          → All (λ (b : Block). bytes_eq b.block_hash h ≡ false) (g ∷ bs)
          → orders h ≡ [])
      → Reads logs
          (record { blocks = g ∷ bs; blocks_order = append_order orders g.block_hash order })
  unfolding AreApart
  newest_keeps ahead apart placed here seq others none = record {
    ahead = ahead;
    apart = apart;
    placed = (
      (
        newest_placed placed.0 here,
        placed.1,
        λ n. rw (append_order_self orders g.block_hash order) (seq n),
      ),
      others_placed apart.0 others,
    );
    no_order = still_no_order none;
  }
