-- ===== src/Etherman/GlobalIndex.antt =====
-- DecodeGlobalIndex and GenerateGlobalIndex of etherman/etherman.go.
use xlayer_bridge_service.Base.{
  ℕ, zero, suc, ◌+◌, ◌*◌, ◌^◌, Bool, true, [], ◌∷◌, ◌++◌, Result, ok, err, panic, if◌then◌else◌,
  ◌==◌, ltb, leb, invalid_global_index, get_or, take, ◌≡◌, refl,
}
pub mod Roundtrip
use xlayer_bridge_service.Etherman.{Bytes}
use xlayer_bridge_service.Bridgectrl.Hash.{big_endian}

pub record GlobalIndex : Type 0 where
  pub mainnet_flag : Bool
  pub rollup_index : ℕ
  pub local_root_index : ℕ

-- `SetBytes` after the value `acc` of the bytes before.
unfoldable pub set_bytes_from : ℕ → Bytes → ℕ
set_bytes_from acc [] = acc
set_bytes_from acc (b ∷ bs) = set_bytes_from (acc * 256 + b) bs

abbrev pub set_bytes : Bytes → ℕ
set_bytes bs = set_bytes_from 0 bs

unfoldable pub drop : ℕ → Bytes → Bytes
drop zero bs = bs
drop (suc n) [] = []
drop (suc n) (b ∷ bs) = drop n bs

-- `bs[from:to]`.
abbrev pub slice : ℕ → ℕ → Bytes → Bytes
slice start count bs = take count (drop start bs)

-- The checks on what was read: both indices fit into a uint32.
unfoldable pub checked_index : Bool → ℕ → ℕ → Result GlobalIndex
checked_index flag rollup_index local_root_index =
    if ltb 4294967295 rollup_index
    then err invalid_global_index
    else if ltb 4294967295 local_root_index
    then err invalid_global_index
    else ok (record {
      mainnet_flag = flag;
      rollup_index = rollup_index;
      local_root_index = local_root_index;
    })

-- `FillBytes` panics on a number of more than 32 bytes, and else fills all 32.
unfoldable pub decode_global_index : ℕ → Result GlobalIndex
unfolding set_bytes_from drop big_endian checked_index
decode_global_index global_index =
    let bs = big_endian 32 global_index in
    let fields =
      checked_index (set_bytes (get_or bs 23 0 ∷ []) == 1) (set_bytes (slice 24 4 bs))
        (set_bytes (slice 28 4 bs)) in
    if leb (2 ^ 256) global_index then err panic else fields

-- The bytes of a number without leading zeros (`Bytes`).
abbrev flag_bytes : Bytes
flag_bytes = 1 ∷ []

-- `FillBytes` writes both numbers to one buffer of four bytes; `append` copies it each time.
unfoldable pub generate_global_index : Bool → ℕ → ℕ → ℕ
unfolding set_bytes_from big_endian
generate_global_index mainnet_flag rollup_index local_exit_root_index =
    let upper = if mainnet_flag then flag_bytes ++ big_endian 4 0 else big_endian 4 rollup_index in
    set_bytes (upper ++ big_endian 4 local_exit_root_index)
