-- ===== src/Tests/Numeric.antt =====
-- A conversion that meets the laws of a numeric column: nearest, and a tie away from zero.
use native.Mathlib.Nat.{div-add-mod, mod-lt, pow-suc}
use djaskt_trading_app.Prelude.{
  ℕ, zero, suc, ◌+◌, ◌-◌, ◌*◌, ◌/◌, ◌^◌, ◌≤◌, ◌<◌, ◌≡◌, refl, Option, none, some, arith, ltb,
  if◌then◌else◌,
}
use djaskt_trading_app.Prelude.Int.{ℤ, pos, negsuc, pos_part, neg_part, sub_ℕ, scale, ◌≤ℤ◌}
use djaskt_trading_app.Decimal.{Decimal, Number, finite, coeff_at}
use djaskt_trading_app.Decimal.Laws.{IsNonneg}
use djaskt_trading_app.Ledger.Column.{IsColumn, IsNearest}

abbrev rounded : ℕ → ℕ → ℕ
rounded n places = (n * 20_000 + 10 ^ places) / (2 * 10 ^ places)

abbrev checked : ℕ → ℤ → Option ℤ
checked m u = if ltb m (10 ^ 19) then some u else none

abbrev numeric_of : ℤ → ℕ → Option ℤ
numeric_of (pos n) p = checked (rounded n p) (pos (rounded n p))
numeric_of (negsuc n) p = checked (rounded (n + 1) p) (sub_ℕ 0 (rounded (n + 1) p))

abbrev pub numeric : Number → Option ℤ
numeric (finite d) = numeric_of d.coeff d.places
numeric _ = none

pow_pos : (k : ℕ) → 0 < 10 ^ k
pow_pos zero = omega arith
pow_pos (suc k) = let e = pow-suc 10 k in let h = pow_pos k in omega arith

-- The two bounds of a quotient.
div_bounds : (a b : ℕ) → 0 < b → (a / b * b ≤ a) × (a < a / b * b + b)
div_bounds a b h = grind (arith, div-add-mod a b, mod-lt)

rounded_bounds :
    (n p : ℕ)
    → (2 * (rounded n p * 10 ^ p) ≤ 2 * (n * 10 ^ 4) + 10 ^ p)
      × (2 * (n * 10 ^ 4) ≤ 2 * (rounded n p * 10 ^ p) + 10 ^ p)
rounded_bounds n p =
    let h = pow_pos p in
    let b = div_bounds (n * 20_000 + 10 ^ p) (2 * 10 ^ p) (omega arith) in grind arith

sub_parts : (m : ℕ) → (pos_part (sub_ℕ 0 m) ≡ 0) × (neg_part (sub_ℕ 0 m) ≡ m)
sub_parts m = (ground arith, ground arith)

numeric_of-IsNearest :
    (z : ℤ) (p : ℕ) (u : ℤ)
    → numeric_of z p ≡ some u
    → IsNearest u (record { coeff = z; places = p })
numeric_of-IsNearest (pos n) p u e =
    let b = rounded_bounds n p in
    let w : pos (rounded n p) ≡ u = ground arith in rw (← w) (omega arith)
numeric_of-IsNearest (negsuc n) p u e =
    let b = rounded_bounds (n + 1) p in
    let w : sub_ℕ 0 (rounded (n + 1) p) ≡ u = ground arith in
    let (x, y) = sub_parts (rounded (n + 1) p) in rw (← w, x, y) (omega arith)

numeric-keeps_sign : (d : Decimal) (u : ℤ) → IsNonneg d → numeric (finite d) ≡ some u → pos 0 ≤ℤ u
numeric-keeps_sign d u n e = ground arith

exact_at : (p n : ℕ) → p ≤ 4 → rounded n p ≡ n * 10 ^ (4 - p)
exact_at zero n h = omega arith
exact_at (suc zero) n h = omega arith
exact_at (suc (suc zero)) n h = omega arith
exact_at (suc (suc (suc zero))) n h = omega arith
exact_at (suc (suc (suc (suc zero)))) n h = omega arith
exact_at (suc (suc (suc (suc (suc p))))) n h = absurd (omega arith)

numeric_of-exact :
    (z : ℤ) (p : ℕ)
    → p ≤ 4
    → pos 0 ≤ℤ scale z (10 ^ (4 - p))
    → pos_part (scale z (10 ^ (4 - p))) < 10 ^ 19
    → numeric_of z p ≡ some (scale z (10 ^ (4 - p)))
unfolding scale
numeric_of-exact (pos n) p k w h = let e = exact_at p n k in ground arith
numeric_of-exact (negsuc n) p k w h =
    let e = exact_at p (n + 1) k in
    let q = pow_pos (4 - p) in
    let m : 0 < suc n * 10 ^ (4 - p) = grind arith in
    let (x, y) = sub_parts (suc n * 10 ^ (4 - p)) in absurd (ground arith)

pub numeric-IsColumn : IsColumn numeric
unfolding coeff_at
numeric-IsColumn = record {
  no_infinity = refl;
  no_neg_infinity = refl;
  nearest = λ d u e. numeric_of-IsNearest d.coeff d.places u e;
  keeps_sign = numeric-keeps_sign;
  exact = λ d p n h. numeric_of-exact d.coeff d.places p n h;
}
