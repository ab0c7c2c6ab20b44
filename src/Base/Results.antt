-- ===== src/Base/Results.antt =====
-- Errors as values. `panic` stands for a Go run-time panic, which no caller handles.
use Prim.Native.Nat.{ℕ}
use mathlib.Core.Path.{◌≡◌, refl}
use mathlib.Core.Logic.{◌⊎◌, inl, inr}

-- `outside n` is an error that a database, a node or another library returned.
pub data Error : Type 0 where
  storage_not_found network_not_register mismatched_deposit_count : Error
  more_than_one_root rollup_id_mismatch group_not_found tx_not_in_old_state : Error
  reorg_check_failed wrong_block_number reset_failed invalid_rpc_data wrong_exit_roots : Error
  root_not_found below_genesis already_exists method_unknown invalid_global_index panic : Error
  deposit_not_synced root_mismatch no_siblings leaf_not_synced : Error
  tx_not_found execution_reverted : Error
  outside : ℕ → Error

pub data Result {ℓ} (A : Type ℓ) : Type ℓ where
  ok : A → Result A
  err : Error → Result A

infixl 5 ◌>>=◌ ◌>>◌
abbrev pub ◌>>=◌ {ℓ κ} : {A : Type ℓ} {B : Type κ} → Result A → (A → Result B) → Result B
ok x >>= next = next x
err e >>= next = err e

abbrev pub ◌>>◌ {ℓ} : {B : Type ℓ} → Result (Unit {0}) → Result B → Result B
first >> second = first >>= (λ _. second)

pub Result-cases {ℓ} :
    {A : Type ℓ} (r : Result A) → ((a : A) × (r ≡ ok a)) ⊎ ((e : Error) × (r ≡ err e))
Result-cases (ok a) = inl (a, refl)
Result-cases (err e) = inr (e, refl)

pub ok-inj {ℓ} : {A : Type ℓ} {a b : A} → ok a ≡ ok b → a ≡ b
ok-inj e = cc
