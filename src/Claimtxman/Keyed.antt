-- ===== src/Claimtxman/Keyed.antt =====
-- Go maps with integer keys as association lists: a range over the map follows the list.
use xlayer_bridge_service.Base.{
  ℕ, ◌≡◌, refl, true, false, Option, none, some, List, [], ◌∷◌, ◌==◌, if◌then◌else◌, arith, ◌≢◌,
  Bool-cases, inl, inr,
}

module _ {ℓ} {A : Type ℓ} where
  unfoldable pub lookup : ℕ → List (ℕ × A) → Option A
  lookup id [] = none
  lookup id ((k, a) ∷ entries) = if k == id then some a else lookup id entries

  unfoldable pub put : ℕ → A → List (ℕ × A) → List (ℕ × A)
  put id a [] = (id, a) ∷ []
  put id a ((k, b) ∷ entries) = if k == id then (k, a) ∷ entries else (k, b) ∷ put id a entries

  pub lookup-put_self :
      (id : ℕ) (a : A) (entries : List (ℕ × A)) → lookup id (put id a entries) ≡ some a
  unfolding lookup put
  lookup-put_self id a [] = let same : (id == id) ≡ true = ground arith in rw same refl
  lookup-put_self id a ((k, b) ∷ entries) = elim (Bool-cases (k == id)) [
    | inl hit_k ↦ rw (hit_k, hit_k) refl
    | inr miss_k ↦ rw (miss_k, miss_k) (lookup-put_self id a entries)
  ]

  pub lookup-put_ne :
      (id other : ℕ) (a : A) (entries : List (ℕ × A))
      → id ≢ other
      → lookup other (put id a entries) ≡ lookup other entries
  unfolding lookup put
  lookup-put_ne id other a [] ne = let diff : (id == other) ≡ false = ground arith in rw diff refl
  lookup-put_ne id other a ((k, b) ∷ entries) ne = elim (Bool-cases (k == id)) [
    | inl hit_k ↦ let diff : (k == other) ≡ false = ground arith in rw (hit_k, diff) refl
    | inr miss_k ↦ elim (Bool-cases (k == other)) [
      | inl hit ↦ rw (miss_k, hit) refl
      | inr miss ↦ rw (miss_k, miss) (lookup-put_ne id other a entries ne)
    ]
  ]
