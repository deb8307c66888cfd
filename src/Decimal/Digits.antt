-- ===== src/Decimal/Digits.antt =====
-- The decimal digits of a coefficient, and rounding half-even by a power of ten.
use native.Mathlib.Nat.{pow-suc}
use djaskt_trading_app.Prelude.{
  ℕ, zero, suc, ◌+◌, ◌*◌, ◌/◌, ◌%◌, ◌^◌, ◌≤◌, ◌<◌, ◌≡◌, arith, ltb, ◌==◌, if◌then◌else◌,
}

-- The number of digits, with as much fuel as the number itself.
digits_from : ℕ → ℕ → ℕ
digits_from zero n = 0
digits_from (suc fuel) n = let rest = digits_from fuel (n / 10) in if n == 0 then 0 else rest + 1

unfoldable pub digits : ℕ → ℕ
unfolding digits_from
digits n = digits_from n n

-- `n / d` rounded to the nearest whole number, a tie to the even one.
unfoldable pub round_half_even : ℕ → ℕ → ℕ
round_half_even n d =
    let q = n / d in
    let r = n % d in
    if ltb (2 * r) d then q else if ltb d (2 * r) then q + 1 else if q % 2 == 0 then q else q + 1

digits_from-le : (k fuel n : ℕ) → n < 10 ^ k → digits_from fuel n ≤ k
unfolding digits_from
digits_from-le k zero n h = omega arith
digits_from-le zero (suc fuel) n h = ground arith
digits_from-le (suc k) (suc fuel) n h =
    let e : 10 ^ suc k ≡ 10 * 10 ^ k = omega (arith, pow-suc 10 k) in
    ground (arith, digits_from-le k fuel (n / 10) (omega (arith, e)))

-- A number below 10 ^ k has at most k digits.
pub digits-le : (k n : ℕ) → n < 10 ^ k → digits n ≤ k
unfolding digits
digits-le k n h = digits_from-le k n n h
