-- ===== src/Bridgectrl/Hash.antt =====
-- bridgectrl/hash.go. `keccak` stands for Keccak-256 of golang.org/x/crypto/sha3 and of
-- go-iden3-crypto, which both hash the concatenation of what is written.
use mathlib.Core.List.{flatten}
use xlayer_bridge_service.Base.{
  ℕ, zero, suc, ◌+◌, ◌-◌, ◌/◌, ◌%◌, ◌^◌, ◌≤◌, ◌≡◌, refl, sym, ◌∙◌, List, [], ◌∷◌, ◌++◌, not, ◌&&◌,
  ◌⊎◌, inl, inr, arith, ltb, ◌==◌, if◌then◌else◌, Result, ok, err, panic, length, get_or, take,
  replicate, length-append, get_or-append_left, get_or-append_last,
}
use xlayer_bridge_service.Etherman.{Bytes, Deposit, bytes_eq, zero_digest, zero_address}

-- `copy(res[:], src)` into a zero array of n bytes.
unfoldable pub copy_into : ℕ → Bytes → Bytes
copy_into n src = take n (src ++ replicate n 0)

-- `binary.BigEndian` and `FillBytes`: n bytes, the most significant first.
unfoldable pub big_endian : ℕ → ℕ → Bytes
big_endian zero x = []
big_endian (suc n) x = big_endian n (x / 256) ++ (x % 256) ∷ []

module _ (keccak : Bytes → Bytes) where
  unfoldable pub hash : List Bytes → Bytes
  unfolding copy_into flatten
  hash xs = copy_into 32 (keccak (flatten xs))

  -- The loop of `generateZeroHashes`: `rounds` rounds are left, the next index is `i`.
  pub zero_hashes_loop : ℕ → ℕ → List Bytes → List Bytes
  zero_hashes_loop zero i hashes = hashes
  zero_hashes_loop (suc rounds) i hashes =
      let last = get_or hashes (i - 1) zero_digest in
      zero_hashes_loop rounds (i + 1) (hashes ++ hash (last ∷ last ∷ []) ∷ [])

  unfoldable pub generate_zero_hashes : ℕ → List Bytes
  unfolding zero_hashes_loop
  generate_zero_hashes height = zero_hashes_loop height 1 (zero_digest ∷ [])

  -- `zeroHashes[h]`, where `init` fills 64 levels. The source panics beyond them.
  unfoldable pub zero_hash : ℕ → Bytes
  unfolding generate_zero_hashes
  zero_hash h = get_or (generate_zero_hashes 64) h zero_digest

  abbrev pub leaf_address : Deposit → Bytes
  leaf_address d =
      if d.leaf_type == 1 && not (bytes_eq d.dest_contract_address zero_address)
      then d.dest_contract_address
      else d.destination_address

  -- What `hashDeposit` hashes.
  abbrev pub leaf_preimage : Deposit → List Bytes
  leaf_preimage d =
      (d.leaf_type ∷ [])
      ∷ big_endian 4 d.original_network
      ∷ d.original_address
      ∷ big_endian 4 d.destination_network
      ∷ leaf_address d
      ∷ big_endian 32 d.amount
      ∷ keccak d.metadata
      ∷ []

  -- `FillBytes` panics if the amount does not fit in 32 bytes.
  unfoldable pub hash_deposit : Deposit → Result Bytes
  hash_deposit d = if ltb d.amount (2 ^ 256) then ok (hash (leaf_preimage d)) else err panic

  -- The hash of an empty subtree of height h.
  pub zero_at : ℕ → Bytes
  zero_at zero = zero_digest
  zero_at (suc h) = hash (zero_at h ∷ zero_at h ∷ [])

  pub zero_at_zero : zero_at 0 ≡ zero_digest
  unfolding zero_at
  zero_at_zero = refl

  pub zero_at-suc : (h : ℕ) → zero_at (suc h) ≡ hash (zero_at h ∷ zero_at h ∷ [])
  unfolding zero_at
  zero_at-suc h = refl

  Known : List Bytes → ℕ → Type 0
  Known hashes i = (k : ℕ) → k ≤ i → get_or hashes k zero_digest ≡ zero_at k

  Known-append :
      (i : ℕ) (hashes : List Bytes) (z : Bytes)
      → length hashes ≡ suc i
      → z ≡ zero_at i
      → Known hashes i
      → Known (hashes ++ hash (z ∷ z ∷ []) ∷ []) (suc i)
  unfolding Known zero_at
  Known-append i hashes z len e known k h = elim (le-cases k i h) [
    | inl old ↦ get_or-append_left hashes _ k _ (omega arith) ∙ known k old
    | inr new ↦
        rw (new, e)
          (get_or-append_last hashes (hash (zero_at i ∷ zero_at i ∷ [])) (suc i) _ (sym len))
  ]
    where
      le-cases : (k i : ℕ) → k ≤ suc i → (k ≤ i) ⊎ (k ≡ suc i)
      le-cases k i h = grind arith

  loop_zero_at :
      (rounds i : ℕ) (hashes : List Bytes)
      → length hashes ≡ suc i
      → Known hashes i
      → Known (zero_hashes_loop rounds (i + 1) hashes) (i + rounds)
  unfolding zero_hashes_loop Known
  loop_zero_at zero i hashes len known k h = known k (omega arith)
  loop_zero_at (suc rounds) i hashes len known k h =
      let z : Bytes = get_or hashes (suc i - 1) zero_digest in
      let one_more : i + 1 ≡ suc i = omega arith in
      let same : suc i - 1 ≡ i = omega arith in
      rw one_more (
        loop_zero_at rounds (suc i) (hashes ++ hash (z ∷ z ∷ []) ∷ [])
          (omega (arith, length-append hashes (hash (z ∷ z ∷ []) ∷ [])))
          (Known-append i hashes z len (rw same (known i (omega arith))) known) k (omega arith))

  pub generate_zero_hashes-zero_at :
      (height k : ℕ) → k ≤ height → get_or (generate_zero_hashes height) k zero_digest ≡ zero_at k
  unfolding generate_zero_hashes Known zero_at
  generate_zero_hashes-zero_at height k h =
      loop_zero_at height 0 (zero_digest ∷ []) refl first k (omega arith)
    where
      first : Known (zero_digest ∷ []) 0
      first zero h = refl
      first (suc k) h = absurd (omega arith)

  pub zero_hash-zero_at : (h : ℕ) → h ≤ 64 → zero_hash h ≡ zero_at h
  unfolding zero_hash
  zero_hash-zero_at h le = generate_zero_hashes-zero_at 64 h le
