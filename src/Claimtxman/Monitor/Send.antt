-- ===== src/Claimtxman/Monitor/Send.antt =====
-- `SendClaims`: when a group may send, and what sending makes of it.
use xlayer_bridge_service.Base.{
  if_both, ℕ, suc, ◌+◌, ◌%◌, ◌^◌, ◌≤◌, ◌<◌, ◌≡◌, refl, sym, ◌∙◌, ◌⊎◌, inl, inr, Bool, true, false,
  not, ◌&&◌, none, some, List, [], ◌∷◌, ◌++◌, ok, arith, length, ◌==◌, Bool-cases, Option-cases,
  Result-cases, length-append, ==_iff,
}
use xlayer_bridge_service.Etherman.{Bytes}
use xlayer_bridge_service.Claimtxman.Types.{
  MonitoredTxGroup, MonitoredTxGroupDbEntry, TxHistoryV2, TxHashHistoryEntry, group_created,
  is_pending, tx_hashes_of, add_pending_tx, is_claim_tx_history_empty,
}
use xlayer_bridge_service.Claimtxman.Trigger.{ConfigGroupingClaims}
use xlayer_bridge_service.Claimtxman.Monitor.Defs.{
  Chain, TransactOpts, status_is, some_pending, can_send_new_claim_call, on_sent, send_claim_now,
  send_claim, int32_geb,
}
use xlayer_bridge_service.Claimtxman.Monitor.Groups.{
  in_flight, IsGroup, none_pending, in_flight-append, with_log-IsGroup,
}

-- A group may send only while no claim of it is in flight, and again only while retries are left.
unfoldable MaySend : ℕ → MonitoredTxGroup → Type 0
MaySend max_retries g =
    (in_flight (tx_hashes_of g.db_entry) ≡ 0)
    × ((length (tx_hashes_of g.db_entry) ≡ 0) ⊎ (g.db_entry.num_retries < max_retries))

absurd_bool : false ≡ true → ⊥
absurd_bool h = cc

-- The comparison of int32 on numbers that are not negative.
int32-lt : (n m : ℕ) → m < 2 ^ 31 → (n ≤ 1) ⊎ (n ≤ m) → int32_geb n m ≡ false → n < m
int32-lt n m small bounded less = ground arith

empty-in_flight : (ts : List TxHashHistoryEntry) → length ts ≡ 0 → in_flight ts ≡ 0
unfolding in_flight
empty-in_flight [] h = refl
empty-in_flight (t ∷ ts) h = absurd (omega (arith, h))

hashes-add_pending_tx :
    (m : MonitoredTxGroupDbEntry) (tx_hash : Bytes) (time : ℕ)
    → tx_hashes_of (add_pending_tx m tx_hash time)
      ≡ tx_hashes_of m
        ++ record { tx_hash = tx_hash; receipt_status = none; created_at = time } ∷ []
unfolding add_pending_tx
hashes-add_pending_tx m tx_hash time = elim (Option-cases m.claim_tx_history) [
  | inl nil ↦ rw nil refl
  | inr (h, e) ↦ rw e refl
]

has_history-add_pending_tx :
    (m : MonitoredTxGroupDbEntry) (tx_hash : Bytes) (time : ℕ)
    → (h : TxHistoryV2) × ((add_pending_tx m tx_hash time).claim_tx_history ≡ some h)
unfolding add_pending_tx
has_history-add_pending_tx m tx_hash time = (_, refl)

in_flight-le : (ts : List TxHashHistoryEntry) → in_flight ts ≤ length ts
unfolding in_flight
in_flight-le [] = omega arith
in_flight-le (t ∷ ts) =
    let rest = in_flight-le ts in
    if_both (λ n. n + in_flight ts ≤ suc (length ts)) (is_pending t) (omega arith) (omega arith)

some_sent :
    {P : Type 0} (g : MonitoredTxGroup)
    → (0 < in_flight (tx_hashes_of g.db_entry)) ⊎ ((0 < length (tx_hashes_of g.db_entry)) × P)
    → 0 < length (tx_hashes_of g.db_entry)
some_sent g (inl flying) = omega (arith, in_flight-le (tx_hashes_of g.db_entry))
some_sent g (inr (before, p)) = before

no_hashes :
    (g : MonitoredTxGroup)
    → g.db_entry.claim_tx_history ≡ none
    → 0 < length (tx_hashes_of g.db_entry)
    → ⊥
no_hashes g nil sent = let h : 0 < 0 = rw nil at sent in omega arith

positive : (n : ℕ) → 0 < n → (n == 0) ≡ false
positive n h = ground arith

module _ {max_retries : ℕ} where
  on_sent-IsGroup :
      (g : MonitoredTxGroup) (tx_hash : Bytes) (time : ℕ)
      → max_retries < 2 ^ 31
      → IsGroup max_retries g
      → MaySend max_retries g
      → IsGroup max_retries (on_sent g tx_hash time)
  unfolding on_sent in_flight MaySend
  on_sent-IsGroup g tx_hash time small inv (quiet, left) =
      let counted = inv.counted in
      let bounded = inv.bounded in
      let appended = hashes-add_pending_tx g.db_entry tx_hash time in
      let more : (n : ℕ)
          → n ≡ length (tx_hashes_of g.db_entry) + 1
          → n ≡ length (tx_hashes_of (add_pending_tx g.db_entry tx_hash time)) =
        λ n e. rw appended (e ∙ sym (length-append (tx_hashes_of g.db_entry) _)) in
      record {
        counted = more _ (ground arith);
        fresh = λ new. cc;
        single = rw (appended, in_flight-append (tx_hashes_of g.db_entry)) (omega (arith, quiet));
        bounded = ground arith;
        has_history = λ claims. has_history-add_pending_tx g.db_entry tx_hash time;
      }

module _ {W : Type 0} (chain : Chain W) (cfg : ConfigGroupingClaims) where
  -- When the answer is yes, the group may send.
  can_send-MaySend :
      (w : W) (g : MonitoredTxGroup)
      → cfg.max_retries < 2 ^ 31
      → IsGroup cfg.max_retries g
      → (can_send_new_claim_call chain cfg w g).1 ≡ true
      → MaySend cfg.max_retries g
  unfolding can_send_new_claim_call MaySend
  can_send-MaySend w g small inv sends =
      elim (Bool-cases (status_is g.db_entry.status group_created)) [
        | inl new ↦
            let none_sent = inv.fresh new in
            (empty-in_flight (tx_hashes_of g.db_entry) none_sent, inl none_sent)
        | inr old ↦ elim (Option-cases g.db_entry.claim_tx_history) [
          | inl nil ↦
              let none_sent : tx_hashes_of g.db_entry ≡ [] = rw nil refl in
              (rw none_sent (empty-in_flight [] refl), inl (rw none_sent refl))
          | inr (h, e) ↦
              let hashes : tx_hashes_of g.db_entry ≡ h.tx_hashes = rw e refl in
              elim (Bool-cases (length h.tx_hashes == 0)) [
                | inl empty ↦
                    let none_sent : length (tx_hashes_of g.db_entry) ≡ 0 =
                      rw hashes ((==_iff (length h.tx_hashes) 0).0 empty) in
                    (empty-in_flight (tx_hashes_of g.db_entry) none_sent, inl none_sent)
                | inr sent ↦ elim (Bool-cases (some_pending h.tx_hashes)) [
                  | inl waits ↦ absurd (absurd_bool (rw (old, e, sent, waits) at sends))
                  | inr quiet ↦
                      elim (Bool-cases (int32_geb g.db_entry.num_retries cfg.max_retries)) [
                        | inl used ↦ absurd (absurd_bool (rw (old, e, sent, quiet, used) at sends))
                        | inr left ↦ (
                          rw hashes (none_pending h.tx_hashes quiet),
                          inr (
                              int32-lt g.db_entry.num_retries cfg.max_retries small inv.bounded
                                left),
                        )
                      ]
                ]
              ]
        ]
      ]

  cannot_send :
      (w : W) (g : MonitoredTxGroup)
      → IsGroup cfg.max_retries g
      → (0 < in_flight (tx_hashes_of g.db_entry))
        ⊎ ((0 < length (tx_hashes_of g.db_entry))
            × (int32_geb g.db_entry.num_retries cfg.max_retries ≡ true))
      → can_send_new_claim_call chain cfg w g ≡ (w, false)
  unfolding can_send_new_claim_call
  cannot_send w g inv busy =
      let sent = some_sent g busy in
      elim (Bool-cases (status_is g.db_entry.status group_created)) [
        | inl new ↦ absurd (omega (arith, inv.fresh new, sent))
        | inr old ↦ elim (Option-cases g.db_entry.claim_tx_history) [
          | inl nil ↦ absurd (no_hashes g nil sent)
          | inr (h, e) ↦
              let hashes : tx_hashes_of g.db_entry ≡ h.tx_hashes = rw e refl in
              let some : (length h.tx_hashes == 0) ≡ false =
                positive (length h.tx_hashes) (rw hashes at sent) in
              elim (Bool-cases (some_pending h.tx_hashes)) [
                | inl waits ↦ simp (old, e, some, waits, can_send_new_claim_call)
                | inr quiet ↦ elim busy [
                  | inl flying ↦
                      absurd (omega (arith, (rw hashes at flying), none_pending h.tx_hashes quiet))
                  | inr (before, used) ↦ simp (old, e, some, quiet, used, can_send_new_claim_call)
                ]
              ]
        ]
      ]

  send_claim_now-IsGroup :
      (auth : TransactOpts) (gas_offset : ℕ) (w : W) (g : MonitoredTxGroup) (compressed : Bytes)
      → cfg.max_retries < 2 ^ 31
      → IsGroup cfg.max_retries g
      → MaySend cfg.max_retries g
      → IsGroup cfg.max_retries (send_claim_now chain cfg auth gas_offset w g compressed).1
  unfolding send_claim_now
  send_claim_now-IsGroup auth gas_offset w g compressed small inv may =
      let (w', estimated) =
        chain.send_compressed_claims w (record auth { no_send = true }) compressed in
      elim (Result-cases estimated) [
        | inr (e, failed) ↦ rw (failed, send_claim_now) (with_log-IsGroup g _ inv)
        | inl (estimated_tx, est) ↦
            let sent =
              (chain.send_compressed_claims w'
                (record { no_send = false; gas_limit = (estimated_tx.gas + gas_offset) % 2 ^ 64 })
                compressed).1 in
            elim (Result-cases sent) [
              | inr (e, failed) ↦ rw (est, failed, send_claim_now) (with_log-IsGroup g _ inv)
              | inl (tx, went) ↦
                  rw (est, went, send_claim_now) (on_sent-IsGroup g tx.hash _ small inv may)
            ]
      ]

  pub send_claim-IsGroup :
      (auth : TransactOpts) (gas_offset : ℕ) (only_first_one : Bool) (w : W) (g : MonitoredTxGroup)
      → cfg.max_retries < 2 ^ 31
      → IsGroup cfg.max_retries g
      → (g' : MonitoredTxGroup) × ((send_claim chain cfg auth gas_offset only_first_one w g).1
          ≡ ok g')
        × IsGroup cfg.max_retries g'
  unfolding send_claim
  send_claim-IsGroup auth gas_offset only w g small inv =
      elim (Option-cases g.db_entry.compressed_tx_data) [
        | inl nothing ↦ (g, simp (nothing, send_claim), inv)
        | inr (bytes, e) ↦ elim (Bool-cases (can_send_new_claim_call chain cfg w g).1) [
          | inr refused ↦ (g, simp (e, refused, send_claim), inv)
          | inl sends ↦
              let may = can_send-MaySend w g small inv sends in
              let sent =
                send_claim_now-IsGroup auth gas_offset (can_send_new_claim_call chain cfg w g).0 g
                  bytes small inv may in
              elim (Bool-cases (only && not (is_claim_tx_history_empty g.db_entry))) [
                | inl later ↦ (g, simp (e, sends, later, send_claim), inv)
                | inr first ↦ (_, simp (e, sends, first, send_claim), sent)
              ]
        ]
      ]

  -- In a group as `IsGroup` says, while a claim of the group is in flight, or when it has claimed before and has no retries left,
  -- nothing is called and nothing changes.
  pub send_claim-in_flight :
      (auth : TransactOpts) (gas_offset : ℕ) (only_first_one : Bool) (w : W) (g : MonitoredTxGroup)
      → IsGroup cfg.max_retries g
      → (0 < in_flight (tx_hashes_of g.db_entry))
        ⊎ ((0 < length (tx_hashes_of g.db_entry))
            × (int32_geb g.db_entry.num_retries cfg.max_retries ≡ true))
      → send_claim chain cfg auth gas_offset only_first_one w g ≡ (w, ok g)
  unfolding send_claim can_send_new_claim_call
  send_claim-in_flight auth gas_offset only w g inv busy =
      elim (Option-cases g.db_entry.compressed_tx_data) [
        | inl nothing ↦ simp (nothing, send_claim)
        | inr (bytes, e) ↦ simp (e, send_claim, cannot_send w g inv busy)
      ]
