-- ===== src/Etherman/Handlers.antt =====
-- Each handler of an event keeps what stays true while logs are read.
use xlayer_bridge_service.Base.{
  suc, ◌≤◌, List, [], ◌∷◌, ◌++◌, length, ◌≡◌, refl, inl, inr, arith, All, Returns, All-append,
  length-append, panic, Returns-bind, Returns-Unit, Returns-elim, get_elem?,
}
use xlayer_bridge_service.Etherman.{
  Bytes, Block, GlobalExitRoot, Deposit, Claim, TokenWrapped, VerifiedBatch,
  global_exit_roots_order, remove_l2_ger_order, deposits_order, claims_order, tokens_order,
  verify_batch_order,
}
use xlayer_bridge_service.Etherman.Logs.{
  Log, Bindings, BridgeEvent, ClaimEvent, OldClaimEvent, NewWrappedToken, VerifyBatches,
}
use xlayer_bridge_service.Etherman.GlobalIndex.{GlobalIndex, decode_global_index}
use xlayer_bridge_service.Bridgectrl.Hash.{hash}
use xlayer_bridge_service.Etherman.Events.{
  Events, with_ger, with_removed, with_deposit, with_claim, with_token, with_batch, ger_of,
  remove_l2_ger_event, add_sovereign_chain_l2_ger, process_update_global_exit_root_event,
  update_global_exit_root_event, get_full_block_time, deposit_event_of, deposit_of, claim_event_of,
  new_claim_event, old_claim_event_of, token_wrapped_event, verify_batches,
}
use xlayer_bridge_service.Etherman.Placing.{HasParts, Follows, Reads, Adds}
use xlayer_bridge_service.Etherman.Joining.{record_order-Reads}

length-snoc {ℓ} : {A : Type ℓ} (xs : List A) (x : A) → length (xs ++ x ∷ []) ≡ suc (length xs)
length-snoc xs x = omega (arith, length-append xs (x ∷ []))

length-snoc_le {ℓ} : {A : Type ℓ} (xs : List A) (x : A) → length xs ≤ length (xs ++ x ∷ [])
length-snoc_le xs x = omega (arith, length-snoc xs x)

with_ger-Adds : (ger : GlobalExitRoot) → HasParts ger → Adds global_exit_roots_order (with_ger ger)
with_ger-Adds ger parts = record {
  same_hash = λ b. refl;
  same_number = λ b. refl;
  one_more = λ b. length-snoc b.global_exit_roots ger;
  counts = λ b other. grind (arith, length-append);
  no_less = λ b other. grind (arith, length-append);
  keeps_parts = λ b all. All-append HasParts b.global_exit_roots (ger ∷ []) all (parts, tt);
}

with_removed-Adds : (ger : GlobalExitRoot) → Adds remove_l2_ger_order (with_removed ger)
with_removed-Adds ger = record {
  same_hash = λ b. refl;
  same_number = λ b. refl;
  one_more = λ b. length-snoc b.remove_l2_ger ger;
  counts = λ b other. grind (arith, length-append);
  no_less = λ b other. grind (arith, length-append);
  keeps_parts = λ b all. all;
}

-- The deposit may take its time from the block.
with_deposit-Adds : (d : Block → Deposit) → Adds deposits_order (λ b. with_deposit (d b) b)
with_deposit-Adds d = record {
  same_hash = λ b. refl;
  same_number = λ b. refl;
  one_more = λ b. length-snoc b.deposits (d b);
  counts = λ b other. grind (arith, length-append);
  no_less = λ b other. grind (arith, length-append);
  keeps_parts = λ b all. all;
}

with_claim-Adds : (c : Block → Claim) → Adds claims_order (λ b. with_claim (c b) b)
with_claim-Adds c = record {
  same_hash = λ b. refl;
  same_number = λ b. refl;
  one_more = λ b. length-snoc b.claims (c b);
  counts = λ b other. grind (arith, length-append);
  no_less = λ b other. grind (arith, length-append);
  keeps_parts = λ b all. all;
}

with_token-Adds : (t : TokenWrapped) → Adds tokens_order (with_token t)
with_token-Adds t = record {
  same_hash = λ b. refl;
  same_number = λ b. refl;
  one_more = λ b. length-snoc b.tokens t;
  counts = λ b other. grind (arith, length-append);
  no_less = λ b other. grind (arith, length-append);
  keeps_parts = λ b all. all;
}

with_batch-Adds : (v : VerifiedBatch) → Adds verify_batch_order (with_batch v)
with_batch-Adds v = record {
  same_hash = λ b. refl;
  same_number = λ b. refl;
  one_more = λ b. length-snoc b.verified_batches v;
  counts = λ b other. grind (arith, length-append);
  no_less = λ b other. grind (arith, length-append);
  keeps_parts = λ b all. all;
}

module _ (vlog : Log) (logs : List Log) (es : Events)
    (follow : All (Follows vlog.block_hash vlog.block_number) logs)
    (r : Reads (vlog ∷ logs) es) where
  pub remove_l2_ger_event-Reads :
      (root : Bytes) → Returns (Reads logs) (remove_l2_ger_event root vlog es)
  unfolding remove_l2_ger_event
  remove_l2_ger_event-Reads root =
      let adds = with_removed-Adds (ger_of vlog [] root 0) in
      record_order-Reads vlog logs remove_l2_ger_order (with_removed (ger_of vlog [] root 0))
        (with_removed (ger_of vlog [] root 0)) adds adds 0 es.blocks es.blocks_order follow r

  pub add_sovereign_chain_l2_ger-Reads :
      (root : Bytes) → Returns (Reads logs) (add_sovereign_chain_l2_ger root vlog es)
  unfolding add_sovereign_chain_l2_ger
  add_sovereign_chain_l2_ger-Reads root =
      let ger = ger_of vlog [] root 0 in
      let adds = with_ger-Adds ger (inl refl) in
      record_order-Reads vlog logs global_exit_roots_order (with_ger ger) (with_ger ger) adds adds 0
        es.blocks es.blocks_order follow r

  module _ (bindings : Bindings) where
    pub process_update_global_exit_root_event-Reads :
        (mainnet rollup : Bytes)
        → Returns
            (Reads logs)
            (process_update_global_exit_root_event bindings mainnet rollup vlog es)
    unfolding process_update_global_exit_root_event
    process_update_global_exit_root_event-Reads mainnet rollup =
        let t = get_full_block_time bindings vlog in
        let ger =
          ger_of vlog (mainnet ∷ rollup ∷ []) (hash bindings.keccak (mainnet ∷ rollup ∷ [])) t in
        let adds = with_ger-Adds ger (inr refl) in
        record_order-Reads vlog logs global_exit_roots_order (with_ger ger) (with_ger ger) adds adds
          t es.blocks es.blocks_order follow r

    pub update_global_exit_root_event-Reads :
        Returns (Reads logs) (update_global_exit_root_event bindings vlog es)
    unfolding update_global_exit_root_event
    update_global_exit_root_event-Reads =
        Returns-elim (Reads logs) panic (get_elem? vlog.topics 1) _ (λ mainnet.
          Returns-elim (Reads logs) panic (get_elem? vlog.topics 2) _
            (λ rollup. process_update_global_exit_root_event-Reads mainnet rollup))

    pub deposit_event_of-Reads :
        (d : BridgeEvent) → Returns (Reads logs) (deposit_event_of bindings d vlog es)
    unfolding deposit_event_of
    deposit_event_of-Reads d =
        let deposit = deposit_of bindings d vlog in
        record_order-Reads vlog logs deposits_order (with_deposit deposit)
          (λ b. with_deposit (record deposit { time = b.received_at }) b)
          (with_deposit-Adds (λ b. deposit))
          (with_deposit-Adds (λ b. record deposit { time = b.received_at }))
          (get_full_block_time bindings vlog) es.blocks es.blocks_order follow r

    pub claim_event_of-Reads :
        (c : Claim) → Returns (Reads logs) (claim_event_of bindings c vlog es)
    unfolding claim_event_of
    claim_event_of-Reads c =
        record_order-Reads vlog logs claims_order (with_claim c)
          (λ b. with_claim (record c { time = b.received_at }) b) (with_claim-Adds (λ b. c))
          (with_claim-Adds (λ b. record c { time = b.received_at }))
          (get_full_block_time bindings vlog) es.blocks es.blocks_order follow r

    pub new_claim_event-Reads :
        (c : ClaimEvent) → Returns (Reads logs) (new_claim_event bindings c vlog es)
    unfolding new_claim_event
    new_claim_event-Reads c =
        Returns-bind (λ (i : GlobalIndex). Unit {0}) (Reads logs)
          (decode_global_index c.global_index) _ (Returns-Unit (decode_global_index c.global_index))
          (λ i t. claim_event_of-Reads _)

    pub old_claim_event_of-Reads :
        (c : OldClaimEvent) → Returns (Reads logs) (old_claim_event_of bindings c vlog es)
    unfolding old_claim_event_of
    old_claim_event_of-Reads c = claim_event_of-Reads _

    pub token_wrapped_event-Reads :
        (tw : NewWrappedToken) → Returns (Reads logs) (token_wrapped_event bindings tw vlog es)
    unfolding token_wrapped_event
    token_wrapped_event-Reads tw =
        let adds = with_token-Adds _ in
        record_order-Reads vlog logs tokens_order _ _ adds adds (get_full_block_time bindings vlog)
          es.blocks es.blocks_order follow r

    pub verify_batches-Reads :
        (vb : VerifyBatches) → Returns (Reads logs) (verify_batches bindings vb vlog es)
    unfolding verify_batches
    verify_batches-Reads vb =
        let adds = with_batch-Adds _ in
        record_order-Reads vlog logs verify_batch_order _ _ adds adds
          (get_full_block_time bindings vlog) es.blocks es.blocks_order follow r
