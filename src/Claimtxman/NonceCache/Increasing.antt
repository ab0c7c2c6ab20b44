-- ===== src/Claimtxman/NonceCache/Increasing.antt =====
-- A nonce is not given out twice.
use xlayer_bridge_service.Base.{
  ℕ, zero, suc, ◌+◌, ◌^◌, ◌<◌, some, List, [], ◌∷◌, Result, ok, err, Error, ◌⊎◌, leb, All, ◌≡◌,
  refl, arith, Bool-cases, Result-cases, inl, inr,
}
use xlayer_bridge_service.Etherman.{Bytes}
use xlayer_bridge_service.Claimtxman.NonceCache.{NonceLru, above_cached, get_next_nonce}

-- Each nonce is above `low` and those before it.
unfoldable pub IsAbove : ℕ → List ℕ → Type 0
IsAbove low [] = Unit {0}
IsAbove low (n ∷ ns) = (low < n) × IsAbove n ns

unfoldable pub IsIncreasing : List ℕ → Type 0
unfolding IsAbove
IsIncreasing [] = Unit {0}
IsIncreasing (n ∷ ns) = IsAbove n ns

module _ {W C : Type 0} (nonce_at : W → Bytes → W × Result ℕ) (lru : NonceLru C)
    (from : Bytes) where
  -- The nonces that so many calls for one sender give, without the calls that fail.
  unfoldable pub next_nonces : ℕ → W → C → List ℕ
  unfolding get_next_nonce
  next_nonces zero w c = []
  next_nonces (suc calls) w c =
      let (w', c', given) = get_next_nonce nonce_at lru w c from in
      let rest = next_nonces calls w' c' in elim given [ err e ↦ rest | ok n ↦ n ∷ rest ]

  above_cached-lt : (nonce low : ℕ) → low + 1 < 2 ^ 64 → low < above_cached nonce (some low)
  unfolding above_cached
  above_cached-lt nonce low small = elim (Bool-cases (leb nonce low)) [
    | inl used ↦ rw used (omega arith)
    | inr fresh ↦ rw fresh (ground arith)
  ]

  module _ (get-add : (c : C) (n : ℕ) → (lru.get (lru.add c from n) from).1 ≡ some n) where
    -- A call fails and leaves the cache, or gives a nonce and caches it.
    get_next_nonce-cases :
        (w : W) (c : C)
        → let step = get_next_nonce nonce_at lru w c from in
          ((e : Error) × (step.2 ≡ err e) × (step.1 ≡ c))
          ⊎ ((nonce : ℕ) × (step.2 ≡ ok (above_cached nonce (lru.get c from).1))
              × ((lru.get step.1 from).1 ≡ some (above_cached nonce (lru.get c from).1)))
    unfolding get_next_nonce
    get_next_nonce-cases w c = elim (Result-cases (nonce_at w from).1) [
      | inr (e, failed) ↦
          inl (e, rw (failed, get_next_nonce) refl, rw (failed, get_next_nonce) refl)
      | inl (nonce, asked) ↦
          inr (nonce, rw (asked, get_next_nonce) refl, rw (asked, get_next_nonce) (get-add _ _))
    ]

    next_nonces-IsAbove :
        (calls low : ℕ) (w : W) (c : C)
        → (lru.get c from).1 ≡ some low
        → low + 1 < 2 ^ 64
        → All (λ (n : ℕ). n + 1 < 2 ^ 64) (next_nonces calls w c)
        → IsAbove low (next_nonces calls w c)
    unfolding next_nonces IsAbove
    next_nonces-IsAbove zero low w c cached small all = tt
    next_nonces-IsAbove (suc calls) low w c cached small all = elim (get_next_nonce-cases w c) [
      | inl (e, failed, kept) ↦
          let here = rw (failed, next_nonces) at all in
          rw (failed, next_nonces) (next_nonces-IsAbove calls low _ _ (rw kept cached) small here)
      | inr (nonce, given, now) ↦
          let here = rw (given, next_nonces) at all in
          let above : low < above_cached nonce (lru.get c from).1 =
            rw cached (above_cached-lt nonce low small) in
          rw (given, next_nonces) (above, next_nonces-IsAbove calls _ _ _ now here.0 here.1)
    ]

    -- The nonces that calls of GetNextNonce for one sender give are strictly increasing, whatever the
    -- node answers between them, as long as the cache keeps the sender's entry and no nonce reaches
    -- the end of uint64.
    pub next_nonces-IsIncreasing :
        (calls : ℕ) (w : W) (c : C)
        → All (λ (n : ℕ). n + 1 < 2 ^ 64) (next_nonces calls w c)
        → IsIncreasing (next_nonces calls w c)
    unfolding next_nonces IsIncreasing
    next_nonces-IsIncreasing zero w c all = tt
    next_nonces-IsIncreasing (suc calls) w c all = elim (get_next_nonce-cases w c) [
      | inl (e, failed, kept) ↦
          let here = rw (failed, next_nonces) at all in
          rw (failed, next_nonces) (next_nonces-IsIncreasing calls _ _ here)
      | inr (nonce, given, now) ↦
          let here = rw (given, next_nonces) at all in
          rw (given, next_nonces) (next_nonces-IsAbove calls _ _ _ now here.0 here.1)
    ]
