-- ===== src/Base/Predicates.antt =====
-- A predicate that holds of every element of a list, or of what a result returns.
use mathlib.Core.List.{List, [], ◌∷◌, ◌++◌, reverse_aux}
use Prim.Native.Nat.{ℕ, zero, suc, ◌<◌}
use native.Mathlib.Omega.{arith}
use mathlib.Core.Path.{◌≡◌, refl, subst}
use xlayer_bridge_service.Base.Lists.{length, get_elem?}
use mathlib.Core.Option.{Option, none, some}
use xlayer_bridge_service.Base.Results.{Result, Error, ok, err, ◌>>=◌}

abbrev pub All {ℓ} : {A : Type ℓ} → (A → Type 0) → List A → Type 0
All P [] = Unit {0}
All P (x ∷ xs) = P x × All P xs

-- Nothing is claimed of an error.
abbrev pub Returns {ℓ} : {A : Type ℓ} → (A → Type 0) → Result A → Type 0
Returns P (ok a) = P a
Returns P (err e) = Unit {0}

module _ {ℓ} {A : Type ℓ} where
  pub All-map : (P Q : A → Type 0) (xs : List A) → ((x : A) → P x → Q x) → All P xs → All Q xs
  All-map P Q [] f all = tt
  All-map P Q (x ∷ xs) f all = (f x all.0, All-map P Q xs f all.1)

  pub All-zip :
      (P Q R : A → Type 0) (xs : List A)
      → ((x : A) → P x → Q x → R x)
      → All P xs
      → All Q xs
      → All R xs
  All-zip P Q R [] f ps qs = tt
  All-zip P Q R (x ∷ xs) f ps qs = (f x ps.0 qs.0, All-zip P Q R xs f ps.1 qs.1)

  pub All-append : (P : A → Type 0) (xs ys : List A) → All P xs → All P ys → All P (xs ++ ys)
  All-append P [] ys ps qs = qs
  All-append P (x ∷ xs) ys ps qs = (ps.0, All-append P xs ys ps.1 qs)

  pub All-reverse_aux :
      (P : A → Type 0) (xs ys : List A) → All P xs → All P ys → All P (reverse_aux xs ys)
  All-reverse_aux P [] ys ps qs = qs
  All-reverse_aux P (x ∷ xs) ys ps qs = All-reverse_aux P xs (x ∷ ys) ps.1 (ps.0, qs)

  pub Returns-bind {κ} :
      {B : Type κ} (P : A → Type 0) (Q : B → Type 0) (r : Result A) (f : A → Result B)
      → Returns P r
      → ((a : A) → P a → Returns Q (f a))
      → Returns Q (r >>= f)
  Returns-bind P Q (ok a) f p q = q a p
  Returns-bind P Q (err e) f p q = tt

  pub Returns-Unit : (r : Result A) → Returns (λ (a : A). Unit {0}) r
  Returns-Unit (ok a) = tt
  Returns-Unit (err e) = tt

  pub Returns-elim {κ} :
      {B : Type κ} (P : B → Type 0) (e : Error) (o : Option A) (f : A → Result B)
      → ((a : A) → Returns P (f a))
      → Returns P (elim o [ none ↦ err e | some a ↦ f a ])
  Returns-elim P e none f p = tt
  Returns-elim P e (some a) f p = p a

  pub All-get_elem? :
      (P : A → Type 0) (xs : List A) (i : ℕ) → All P xs → {x : A} → get_elem? xs i ≡ some x → P x
  All-get_elem? P [] i all e = cc
  All-get_elem? P (y ∷ xs) zero all {x} e = let same : y ≡ x = cc in subst P same all.0
  All-get_elem? P (y ∷ xs) (suc i) all e = All-get_elem? P xs i all.1 e

  pub get_elem?_within : (xs : List A) (i : ℕ) → i < length xs → (x : A) × (get_elem? xs i ≡ some x)
  get_elem?_within [] i lt = absurd (omega arith)
  get_elem?_within (x ∷ xs) zero lt = (x, refl)
  get_elem?_within (x ∷ xs) (suc i) lt = get_elem?_within xs i (omega arith)

  pub Returns-map :
      (P Q : A → Type 0) (r : Result A) → ((a : A) → P a → Q a) → Returns P r → Returns Q r
  Returns-map P Q (ok a) f p = f a p
  Returns-map P Q (err e) f p = tt
