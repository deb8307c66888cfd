-- ===== src/Ledger/Column.antt =====
-- What the services rely on in a DecimalField(max_digits=19, decimal_places=4) column of PostgreSQL:
-- how Django and the server turn a decimal into the whole number of ten-thousandths that is held.
-- Neither is code of this repository, so the conversion is a parameter with these laws.
use djaskt_trading_app.Prelude.{◌+◌, ◌*◌, ◌^◌, ◌≤◌, ◌<◌, ◌≡◌, Option, none, some}
use djaskt_trading_app.Prelude.Int.{ℤ, pos, pos_part, neg_part, ◌≤ℤ◌}
use djaskt_trading_app.Decimal.{Decimal, Number, finite, infinity, neg_infinity}
use djaskt_trading_app.Decimal.Laws.{IsNonneg, units}

-- `u` ten-thousandths are within half a ten-thousandth of the decimal: 2 * |u / 10^4 - d| <= 1 / 10^4,
-- multiplied out.
abbrev pub IsNearest : ℤ → Decimal → Type 0
IsNearest u d =
    (2 * (pos_part u * 10 ^ d.places + neg_part d.coeff * 10 ^ 4)
      ≤ 2 * (neg_part u * 10 ^ d.places + pos_part d.coeff * 10 ^ 4) + 10 ^ d.places)
    × (2 * (neg_part u * 10 ^ d.places + pos_part d.coeff * 10 ^ 4)
        ≤ 2 * (pos_part u * 10 ^ d.places + neg_part d.coeff * 10 ^ 4) + 10 ^ d.places)

pub record IsColumn (store : Number → Option ℤ) : Type 0 where
  -- a special value is refused
  pub no_infinity : store infinity ≡ none
  pub no_neg_infinity : store neg_infinity ≡ none
  -- the column holds the nearest value of its scale, and rounding keeps a value of zero or more so
  pub nearest : (d : Decimal) (u : ℤ) → store (finite d) ≡ some u → IsNearest u d
  pub keeps_sign : (d : Decimal) (u : ℤ) → IsNonneg d → store (finite d) ≡ some u → pos 0 ≤ℤ u
  -- what fits the scale and the 19 digits is held as it is
  pub exact :
      (d : Decimal)
      → d.places ≤ 4
      → pos 0 ≤ℤ units d
      → pos_part (units d) < 10 ^ 19
      → store (finite d) ≡ some (units d)
