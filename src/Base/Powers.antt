-- ===== src/Base/Powers.antt =====
-- Halving and powers of two.
use Prim.Native.Nat.{ℕ, zero, suc, ◌+◌, ◌-◌, ◌*◌, ◌/◌, ◌%◌, ◌^◌, ◌≤◌, ◌<◌}
use mathlib.Core.Path.{◌≡◌, sym, subst, ap, ◌∙◌}
use native.Mathlib.Nat.{pow-suc, div-div-eq-div-mul, div-mul-le_self, div-eq_of_lt, lt-div-mul-add}
use native.Mathlib.Omega.{arith}

span_left : (i p n : ℕ) → n ≤ i * (p * 2) → n ≤ (2 * i) * p
span_left i p n h = omega arith

span_right : (i p n : ℕ) → n ≤ i * (p * 2) → n ≤ (2 * i + 1) * p
span_right i p n h = omega arith

fill_left : (i p n : ℕ) → (i + 1) * (p * 2) ≤ n → (2 * i + 1) * p ≤ n
fill_left i p n h = omega arith

fill_right : (i p n : ℕ) → (i + 1) * (p * 2) ≤ n → (2 * i + 1 + 1) * p ≤ n
fill_right i p n h = omega arith

-- The two halves of a span of 2 ^ suc h numbers.
pub pow_span_left : (i h n : ℕ) → n ≤ i * 2 ^ suc h → n ≤ (2 * i) * 2 ^ h
pow_span_left i h n le = span_left i (2 ^ h) n (subst (λ p. n ≤ i * p) (pow-suc 2 h) le)

pub pow_span_right : (i h n : ℕ) → n ≤ i * 2 ^ suc h → n ≤ (2 * i + 1) * 2 ^ h
pow_span_right i h n le = span_right i (2 ^ h) n (subst (λ p. n ≤ i * p) (pow-suc 2 h) le)

pub pow_fill_left : (i h n : ℕ) → (i + 1) * 2 ^ suc h ≤ n → (2 * i + 1) * 2 ^ h ≤ n
pow_fill_left i h n le = fill_left i (2 ^ h) n (subst (λ p. (i + 1) * p ≤ n) (pow-suc 2 h) le)

pub pow_fill_right : (i h n : ℕ) → (i + 1) * 2 ^ suc h ≤ n → (2 * i + 1 + 1) * 2 ^ h ≤ n
pow_fill_right i h n le = fill_right i (2 ^ h) n (subst (λ p. (i + 1) * p ≤ n) (pow-suc 2 h) le)

pub div-pow_suc : (n h : ℕ) → n / 2 ^ suc h ≡ n / 2 ^ h / 2
div-pow_suc n h = ap (λ p. n / p) (pow-suc 2 h) ∙ sym (div-div-eq-div-mul n (2 ^ h) 2)

pub div-pow_le : (n h : ℕ) → n / 2 ^ h * 2 ^ h ≤ n
div-pow_le n h = div-mul-le_self n (2 ^ h)

pub pow_pos : (h : ℕ) → 0 < 2 ^ h
pow_pos zero = omega arith
pow_pos (suc h) = omega (arith, pow-suc 2 h, pow_pos h)

pow_lt-div : (n p : ℕ) → 0 < p → n + 1 ≤ (n / p + 1) * p
pow_lt-div n p pos = omega (arith, lt-div-mul-add {a = n} pos)

pub lt-div-pow : (n h : ℕ) → n + 1 ≤ (n / 2 ^ h + 1) * 2 ^ h
lt-div-pow n h = pow_lt-div n (2 ^ h) (pow_pos h)

pub div-pow_zero : (n h : ℕ) → n < 2 ^ h → n / 2 ^ h ≡ 0
div-pow_zero n h lt = div-eq_of_lt lt

below_quotient : (c p : ℕ) → 0 < p → 0 < c → c / p ≤ (c - 1) / p + 1
below_quotient c p pos some_c = grind (arith, lt-div-mul-add {a = c - 1} pos, div-mul-le_self c p)

div-pred_le : (c p : ℕ) → (c - 1) / p ≤ c / p
div-pred_le c p = grind arith

halves_of_pred : (a b : ℕ) → a % 2 ≡ 1 → b ≤ a → a ≤ b + 1 → 2 * (b / 2) ≡ a - 1
halves_of_pred a b odd le ge = omega arith

-- Left of the position c, where c has the bit k, stands the left child over the position c - 1.
pub left_of_pred :
    (c k : ℕ) → 0 < c → (c / 2 ^ k) % 2 ≡ 1 → 2 * ((c - 1) / 2 ^ suc k) ≡ c / 2 ^ k - 1
left_of_pred c k pos odd =
    ap (λ q. 2 * q) (div-pow_suc (c - 1) k)
    ∙ halves_of_pred (c / 2 ^ k) ((c - 1) / 2 ^ k) odd (div-pred_le c (2 ^ k))
        (below_quotient c (2 ^ k) (pow_pos k) pos)
