-- ===== src/Claimtxman/NonceCache.antt =====
-- claimtxman/nonce_cache.go and xlayer_nonce_cache.go: the nonces of the senders of claims.
use xlayer_bridge_service.Base.{
  ℕ, ◌+◌, ◌-◌, ◌%◌, ◌^◌, Option, none, some, Result, ok, err, if◌then◌else◌, leb,
}
use xlayer_bridge_service.Etherman.{Bytes}
pub mod Increasing

-- `lru.Cache`, by the sender's address.
pub record NonceLru (C : Type 0) : Type 0 where
  pub get : C → Bytes → C × Option ℕ
  pub add : C → Bytes → ℕ → C
  pub remove : C → Bytes → C

-- A nonce that was used is passed over; the sum is one of uint64.
unfoldable pub above_cached : ℕ → Option ℕ → ℕ
above_cached nonce none = nonce
above_cached nonce (some temp_nonce) =
    if leb nonce temp_nonce then (temp_nonce + 1) % 2 ^ 64 else nonce

module _ {W C : Type 0} (nonce_at : W → Bytes → W × Result ℕ) (lru : NonceLru C) where
  unfoldable pub get_next_nonce : W → C → Bytes → W × C × Result ℕ
  unfolding above_cached
  get_next_nonce w c from =
      let (w', asked) = nonce_at w from in
      elim asked [
        | err e ↦ (w', c, err e)
        | ok nonce ↦
            let (c', cached) = lru.get c from in
            let next = above_cached nonce cached in (w', lru.add c' from next, ok next)
      ]

  -- The nonce before the cached one, if the account has not passed it; `--` is one of uint64.
  unfoldable pub decr : W → C → Bytes → W × C
  decr w c from =
      let (w', asked) = nonce_at w from in
      elim asked [
        | err e ↦ (w', c)
        | ok nonce ↦
            let (c', cached) = lru.get c from in
            elim cached [
              | none ↦ (w', c')
              | some temp_nonce ↦
                  let before = (temp_nonce + (2 ^ 64 - 1)) % 2 ^ 64 in
                  (w', if leb nonce before then lru.add c' from before else lru.remove c' from)
            ]
      ]
