-- ===== src/Decimal.antt =====
-- Python's `decimal.Decimal` under the default context, as ledger/ and its schemas use it:
-- comparison is exact, sums and products are rounded half-even to 28 significant digits.
-- A positive exponent is written out in the coefficient, so the value of a finite `Decimal` is
-- `coeff / 10 ^ places`.
pub mod Digits
pub mod Laws
use djaskt_trading_app.Prelude.{
  ℕ, zero, ◌+◌, ◌-◌, ◌*◌, ◌/◌, ◌%◌, ◌^◌, Bool, true, false, ◌&&◌, Option, none, some, ltb, leb,
  ◌==◌, if◌then◌else◌,
}
use djaskt_trading_app.Prelude.Int.{ℤ, pos, negsuc, ◌+ℤ◌, ◌-ℤ◌, ◌*ℤ◌, scale, sub_ℕ, ltb_ℤ, leb_ℤ}
use djaskt_trading_app.Decimal.Digits.{digits, round_half_even}

pub record Decimal : Type 0 where
  pub coeff : ℤ
  pub places : ℕ

-- A `Decimal` that may be special: a price comes from outside the application.
pub data Number : Type 0 where
  finite : Decimal → Number
  infinity neg_infinity nan : Number

abbrev pub context_precision : ℕ
context_precision = 28

-- The magnitude and the places of a coefficient rounded to the context's precision.
unfoldable pub round_magnitude : ℕ → ℕ → ℕ × ℕ
round_magnitude n places =
    let excess = digits n - context_precision in
    if excess == 0
    then (n, places)
    else (let q = round_half_even n (10 ^ excess) in
        if leb excess places then (q, places - excess) else (q * 10 ^ (excess - places), 0))

unfoldable pub round_context : ℤ → ℕ → Decimal
round_context (pos n) places =
    let r = round_magnitude n places in record { coeff = pos (r.0); places = r.1 }
round_context (negsuc n) places =
    let r = round_magnitude (n + 1) places in record { coeff = sub_ℕ 0 (r.0); places = r.1 }

-- The larger number of places of two.
abbrev pub common_places : Decimal → Decimal → ℕ
common_places a b = if leb a.places b.places then b.places else a.places

-- The coefficient at a number of places that is at least its own.
unfoldable pub coeff_at : ℕ → Decimal → ℤ
coeff_at m d = scale d.coeff (10 ^ (m - d.places))

unfoldable pub plus_finite : Decimal → Decimal → Decimal
plus_finite a b = let m = common_places a b in round_context (coeff_at m a +ℤ coeff_at m b) m

unfoldable pub minus_finite : Decimal → Decimal → Decimal
minus_finite a b = let m = common_places a b in round_context (coeff_at m a -ℤ coeff_at m b) m

unfoldable pub times_finite : Decimal → Decimal → Decimal
times_finite a b = round_context (a.coeff *ℤ b.coeff) (a.places + b.places)

unfoldable pub lt_finite : Decimal → Decimal → Bool
lt_finite a b = let m = common_places a b in ltb_ℤ (coeff_at m a) (coeff_at m b)

-- `d <= 0`
unfoldable pub is_nonpositive : Decimal → Bool
is_nonpositive d = leb_ℤ d.coeff (pos 0)

-- `n <= 0`; `none` is `InvalidOperation`, which an ordering with a NaN raises.
unfoldable pub number_is_nonpositive : Number → Option Bool
number_is_nonpositive (finite d) = some (is_nonpositive d)
number_is_nonpositive infinity = some false
number_is_nonpositive neg_infinity = some true
number_is_nonpositive nan = none

-- `d < n`
unfoldable pub lt : Decimal → Number → Option Bool
lt d (finite e) = some (lt_finite d e)
lt d infinity = some true
lt d neg_infinity = some false
lt d nan = none

-- `d + n`
unfoldable pub plus : Decimal → Number → Number
plus d (finite e) = finite (plus_finite d e)
plus d n = n

-- `d - n`
unfoldable pub minus : Decimal → Number → Number
minus d (finite e) = finite (minus_finite d e)
minus d infinity = neg_infinity
minus d neg_infinity = infinity
minus d nan = nan

-- `d * n`; zero times an infinity raises `InvalidOperation`.
unfoldable pub times : Decimal → Number → Option Number
times d (finite e) = some (finite (times_finite d e))
times d nan = some nan
times d infinity =
    if ltb_ℤ (pos 0) d.coeff
    then some infinity
    else if ltb_ℤ d.coeff (pos 0)
    then some neg_infinity
    else none
times d neg_infinity =
    if ltb_ℤ (pos 0) d.coeff
    then some neg_infinity
    else if ltb_ℤ d.coeff (pos 0)
    then some infinity
    else none
