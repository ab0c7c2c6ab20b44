-- ===== src/Etherman/GlobalIndex/Roundtrip.antt =====
-- What the bytes of a global index stand for, and that decoding undoes generating.
use xlayer_bridge_service.Base.{
  ℕ, ◌+◌, ◌*◌, ◌/◌, ◌^◌, ◌%◌, ◌<◌, Bool, true, false, [], ◌∷◌, ok, err, panic, if◌then◌else◌, ◌==◌,
  ltb, leb, get_or, ◌≡◌, refl, ap, ◌∙◌, arith,
}
use xlayer_bridge_service.Bridgectrl.Hash.{big_endian}
use xlayer_bridge_service.Etherman.GlobalIndex.{
  GlobalIndex, checked_index, decode_global_index, generate_global_index, set_bytes, set_bytes_from,
  drop, slice,
}

ap₃ {ℓ κ μ ν} :
    {A : Type ℓ} {B : Type κ} {C : Type μ} {D : Type ν} (f : A → B → C → D) {a a' : A} {b b' : B}
    {c c' : C}
    → a ≡ a'
    → b ≡ b'
    → c ≡ c'
    → f a b c ≡ f a' b' c'
ap₃ f p q r = cc

-- Four bytes read back are the number's lower 32 bits.
four_bytes : (x : ℕ) → set_bytes (big_endian 4 x) ≡ x % 4294967296
unfolding set_bytes_from big_endian
four_bytes x = omega arith

lower_slice : (x : ℕ) → slice 28 4 (big_endian 32 x) ≡ big_endian 4 x
unfolding big_endian drop
lower_slice x = refl

upper_slice : (x : ℕ) → slice 24 4 (big_endian 32 x) ≡ big_endian 4 (x / 256 / 256 / 256 / 256)
unfolding big_endian drop
upper_slice x = refl

flag_byte : (x : ℕ) → get_or (big_endian 32 x) 23 0 ≡ x / 18446744073709551616 % 256
unfolding big_endian
flag_byte x = omega arith

upper_number : (x : ℕ) → x / 256 / 256 / 256 / 256 ≡ x / 4294967296
upper_number x = omega arith

-- The fields as the number's bits: the flag from bit 64, the two indices of 32 bits below it.
abbrev pub fields_of : ℕ → GlobalIndex
fields_of x = record {
  mainnet_flag = x / 18446744073709551616 % 256 == 1;
  rollup_index = x / 4294967296 % 4294967296;
  local_root_index = x % 4294967296;
}

never_above : (x : ℕ) → ltb 4294967295 (x % 4294967296) ≡ false
never_above x = ground arith

one_byte : (b : ℕ) → set_bytes (b ∷ []) ≡ b
unfolding set_bytes_from
one_byte b = omega arith

local_number : (x : ℕ) → set_bytes (slice 28 4 (big_endian 32 x)) ≡ x % 4294967296
local_number x = ap set_bytes (lower_slice x) ∙ four_bytes x

rollup_number : (x : ℕ) → set_bytes (slice 24 4 (big_endian 32 x)) ≡ x / 4294967296 % 4294967296
rollup_number x =
    ap set_bytes (upper_slice x)
    ∙ four_bytes (x / 256 / 256 / 256 / 256)
    ∙ ap (λ y. y % 4294967296) (upper_number x)

flag_number :
    (x : ℕ) → set_bytes (get_or (big_endian 32 x) 23 0 ∷ []) ≡ x / 18446744073709551616 % 256
flag_number x = one_byte (get_or (big_endian 32 x) 23 0) ∙ flag_byte x

checked_index-fields_of :
    (x : ℕ)
    → checked_index
        (x / 18446744073709551616 % 256 == 1)
        (x / 4294967296 % 4294967296)
        (x % 4294967296)
      ≡ ok (fields_of x)
unfolding checked_index
checked_index-fields_of x = rw (never_above x, never_above (x / 4294967296)) refl

-- DecodeGlobalIndex fails only on a number of more than 256 bits, where it panics: its checks that
-- the indices fit into 32 bits always pass. Otherwise the local index is the lower 32 bits, the
-- rollup's index the 32 bits above them, and the flag is set where the byte above those is 1.
pub decode_global_index-fields_of :
    (x : ℕ) → decode_global_index x ≡ (if leb (2 ^ 256) x then err panic else ok (fields_of x))
unfolding decode_global_index
decode_global_index-fields_of x =
    ap (λ r. if leb (2 ^ 256) x then err panic else r)
      (ap₃ (λ f r l. checked_index (f == 1) r l) (flag_number x) (rollup_number x) (local_number x)
        ∙ checked_index-fields_of x)

unfoldable generated : Bool → ℕ → ℕ → ℕ
generated flag r l =
    if flag
    then 18446744073709551616 + l % 4294967296
    else r % 4294967296 * 4294967296 + l % 4294967296

generate_global_index_lem :
    (flag : Bool) (r l : ℕ) → generate_global_index flag r l ≡ generated flag r l
unfolding generate_global_index set_bytes_from big_endian generated
generate_global_index_lem true r l = omega arith
generate_global_index_lem false r l = omega arith

index_of : Bool → ℕ → ℕ → GlobalIndex
index_of flag r l = record { mainnet_flag = flag; rollup_index = r; local_root_index = l }

top_one : (l : ℕ) → (18446744073709551616 + l % 4294967296) / 18446744073709551616 % 256 ≡ 1
top_one l = omega arith

top_zero :
    (r l : ℕ) → (r % 4294967296 * 4294967296 + l % 4294967296) / 18446744073709551616 % 256 ≡ 0
top_zero r l = omega arith

fields_of-generated :
    (flag : Bool) (r l : ℕ)
    → r < 4294967296
    → l < 4294967296
    → fields_of (generated flag r l) ≡ index_of flag (if flag then 0 else r) l
unfolding generated index_of
fields_of-generated true r l r_fits l_fits =
    ap₃ (λ f. index_of (f == 1)) (top_one l) (omega arith) (omega arith)
fields_of-generated false r l r_fits l_fits =
    ap₃ (λ f. index_of (f == 1)) (top_zero r l) (omega arith) (omega arith)

generated-lt : (flag : Bool) (r l : ℕ) → leb (2 ^ 256) (generated flag r l) ≡ false
unfolding generated
generated-lt true r l = ground arith
generated-lt false r l = ground arith

-- Decoding a global index that was generated from 32-bit indices gives them back, except that the
-- rollup's index of a deposit on the mainnet is 0.
pub decode_global_index-generate_global_index :
    (flag : Bool) (rollup_index local_index : ℕ)
    → rollup_index < 4294967296
    → local_index < 4294967296
    → decode_global_index (generate_global_index flag rollup_index local_index)
      ≡ ok (record {
        mainnet_flag = flag;
        rollup_index = if flag then 0 else rollup_index;
        local_root_index = local_index;
      })
unfolding index_of
decode_global_index-generate_global_index flag r l r_fits l_fits =
    ap decode_global_index (generate_global_index_lem flag r l)
    ∙ decode_global_index-fields_of (generated flag r l)
    ∙ rw (generated-lt flag r l) (ap ok (fields_of-generated flag r l r_fits l_fits))
