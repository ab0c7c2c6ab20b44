-- ===== src/Server/Replies/Pages.antt =====
-- What the pages of deposits hold.
use xlayer_bridge_service.Base.{
  ℕ, suc, ◌-◌, ◌≤◌, ◌<◌, ◌≡◌, refl, ap, ◌∙◌, Bool, List, [], ◌∷◌, ok, if◌then◌else◌, ltb, length,
  ◌==◌, All, arith, if_cases,
}
use xlayer_bridge_service.Etherman.{Bytes, Deposit}
use xlayer_bridge_service.Etherman.GlobalIndex.{GlobalIndex, decode_global_index}
use xlayer_bridge_service.Etherman.GlobalIndex.Roundtrip.{decode_global_index-generate_global_index}
use xlayer_bridge_service.Server.Replies.{
  ReplyStorage, DepositReply, page_limit, rollup_index_of, deposit_reply, get_deposit_status,
  bridge_replies, get_bridges,
}

page_limit_le :
    (default_limit max_limit limit : ℕ) → page_limit default_limit max_limit limit ≤ max_limit
unfolding page_limit
page_limit_le default_limit max_limit limit =
    if_cases (λ n. n ≤ max_limit) (ltb max_limit (if limit == 0 then default_limit else limit))
      (λ above. omega arith) (λ within. ground arith)

-- The columns are 32-bit integers.
abbrev pub Fits32 : Deposit → Type 0
Fits32 d = (d.network_id < 4294967296) × (d.deposit_count < 4294967296)

-- DecodeGlobalIndex reads the number as the network and the count of the deposit.
abbrev pub IsIndexOf : Deposit → ℕ → Type 0
IsIndexOf d index =
    decode_global_index index
    ≡ ok (record {
      mainnet_flag = d.network_id == 0;
      rollup_index = d.network_id - 1;
      local_root_index = d.deposit_count;
    })

index_named : Bool → ℕ → ℕ → GlobalIndex
index_named flag r l = record { mainnet_flag = flag; rollup_index = r; local_root_index = l }

rollup_of : (d : Deposit) → (if d.network_id == 0 then 0 else rollup_index_of d) ≡ d.network_id - 1
rollup_of d = ground arith

rollup_fits : (d : Deposit) → d.network_id < 4294967296 → rollup_index_of d < 4294967296
rollup_fits d fits = ground arith

reply_index : (d : Deposit) (h : Bytes) → Fits32 d → IsIndexOf d (deposit_reply d h).global_index
unfolding deposit_reply index_named
reply_index d h fits =
    decode_global_index-generate_global_index (d.network_id == 0) (rollup_index_of d)
      d.deposit_count (rollup_fits d fits.0) fits.1
    ∙ ap (λ r. ok (index_named (d.network_id == 0) r d.deposit_count)) (rollup_of d)

module _ (storage : ReplyStorage) (default_limit max_limit : ℕ) where
  -- The claim of the deposit is found, or there is none.
  abbrev pub HasStatus : Deposit → Type 0
  HasStatus d =
      (h : Bytes) × (get_deposit_status storage default_limit max_limit d.deposit_count d.network_id
          d.destination_network
        ≡ ok h)

  -- The answer for a deposit: what the claim's lookup gave, the deposit's own columns, and its index.
  pub record IsReplyTo (d : Deposit) (reply : DepositReply) : Type 0 where
    pub status :
        get_deposit_status storage default_limit max_limit d.deposit_count d.network_id
          d.destination_network
        ≡ ok reply.claim_tx_hash
    pub same_count : reply.deposit_cnt ≡ d.deposit_count
    pub same_network : reply.network_id ≡ d.network_id
    pub same_destination :
        (reply.dest_net ≡ d.destination_network) × (reply.dest_addr ≡ d.destination_address)
    pub same_origin : (reply.orig_net ≡ d.original_network) × (reply.orig_addr ≡ d.original_address)
    pub same_value :
        (reply.amount ≡ d.amount) × (reply.leaf_type ≡ d.leaf_type) × (reply.metadata ≡ d.metadata)
    pub same_tx : (reply.tx_hash ≡ d.tx_hash) × (reply.block_num ≡ d.block_number)
    pub same_state : reply.ready_for_claim ≡ d.ready_for_claim
    pub indexed : IsIndexOf d reply.global_index

  -- One answer for each deposit, in their order.
  unfoldable pub AreReplies : List Deposit → List DepositReply → Type 0
  AreReplies [] [] = Unit {0}
  AreReplies [] (reply ∷ replies) = ⊥
  AreReplies (d ∷ ds) [] = ⊥
  AreReplies (d ∷ ds) (reply ∷ replies) = IsReplyTo d reply × AreReplies ds replies

  deposit_reply-IsReplyTo :
      (d : Deposit) (h : Bytes)
      → Fits32 d
      → get_deposit_status storage default_limit max_limit d.deposit_count d.network_id
          d.destination_network
        ≡ ok h
      → IsReplyTo d (deposit_reply d h)
  unfolding deposit_reply
  deposit_reply-IsReplyTo d h fits found = record {
    status = found;
    same_count = refl;
    same_network = refl;
    same_destination = (refl, refl);
    same_origin = (refl, refl);
    same_value = (refl, refl, refl);
    same_tx = (refl, refl);
    same_state = refl;
    indexed = reply_index d h fits;
  }

  bridge_replies-AreReplies :
      (ds : List Deposit)
      → All Fits32 ds
      → All HasStatus ds
      → (replies : List DepositReply) × (bridge_replies storage default_limit max_limit ds
          ≡ ok replies)
        × (length replies ≡ length ds)
        × AreReplies ds replies
  unfolding bridge_replies AreReplies
  bridge_replies-AreReplies [] fits stored = ([], refl, refl, tt)
  bridge_replies-AreReplies (d ∷ ds) fits stored =
      let (h, status) = stored.0 in
      let (rest, replied, sized, all) = bridge_replies-AreReplies ds fits.1 stored.1 in
      (
        deposit_reply d h ∷ rest,
        rw (status, replied) refl,
        ap suc sized,
        (deposit_reply-IsReplyTo d h fits.0 status, all),
      )

  -- Where the query of deposits returns at most as many as its limit, with 32-bit columns, and the
  -- lookups of their claims do not fail, GetBridges answers one entry for each deposit, in their order
  -- and at most maxPageLimit whatever limit is asked for: an entry has the deposit's columns, the
  -- transaction of its claim that the lookup gave, and a global index that DecodeGlobalIndex reads as
  -- the deposit's network and count.
  pub get_bridges-AreReplies :
      (dest_addr : Bytes) (limit offset total_count : ℕ) (ds : List Deposit)
      → storage.get_deposit_count dest_addr ≡ ok total_count
      → storage.get_deposits dest_addr (page_limit default_limit max_limit limit) offset ≡ ok ds
      → length ds ≤ page_limit default_limit max_limit limit
      → All Fits32 ds
      → All HasStatus ds
      → (replies : List DepositReply) × (get_bridges storage default_limit max_limit dest_addr limit
            offset
          ≡ ok (replies, total_count))
        × (length replies ≤ max_limit)
        × AreReplies ds replies
  unfolding get_bridges
  get_bridges-AreReplies dest_addr limit offset total_count ds counted found few fits stored =
      let (replies, replied, sized, all) = bridge_replies-AreReplies ds fits stored in
      (
        replies,
        rw (counted, found, replied) refl,
        omega (arith, sized, page_limit_le default_limit max_limit limit),
        all,
      )
