-- ===== src/Decimal/Laws.antt =====
-- Laws of the sums and the comparison that the services rest on.
use djaskt_trading_app.Prelude.{ℕ, ◌-◌, ◌^◌, ◌≤◌, ◌<◌, ◌≡◌, false, arith}
use djaskt_trading_app.Prelude.Int.{
  ℤ, pos, negsuc, pos_part, ◌+ℤ◌, ◌-ℤ◌, ◌*ℤ◌, ◌≤ℤ◌, scale, int_laws,
}
use djaskt_trading_app.Decimal.{
  Decimal, round_magnitude, round_context, coeff_at, common_places, plus_finite, minus_finite,
  times_finite, lt_finite, is_nonpositive,
}
use djaskt_trading_app.Decimal.Digits.{digits, digits-le}

-- A decimal of zero or more.
abbrev pub IsNonneg : Decimal → Type 0
IsNonneg d = pos 0 ≤ℤ d.coeff

pub round_context-IsNonneg : (z : ℤ) (p : ℕ) → pos 0 ≤ℤ z → IsNonneg (round_context z p)
unfolding round_context
round_context-IsNonneg (pos n) p h = omega arith
round_context-IsNonneg (negsuc n) p h = absurd (omega arith)

-- A coefficient of at most 28 digits is not rounded.
pub round_context-fits :
    (z : ℤ) (p : ℕ)
    → pos_part z < 10 ^ 28
    → pos 0 ≤ℤ z
    → round_context z p ≡ record { coeff = z; places = p }
unfolding round_context round_magnitude
round_context-fits (pos n) p h k = let few : digits n ≤ 28 = digits-le 28 n h in ground arith
round_context-fits (negsuc n) p h k = absurd (omega arith)

scale-nonneg : (z : ℤ) (k : ℕ) → pos 0 ≤ℤ z → pos 0 ≤ℤ scale z k
unfolding scale
scale-nonneg (pos n) k h = ground arith
scale-nonneg (negsuc n) k h = absurd (omega arith)

*ℤ-nonneg : (a b : ℤ) → pos 0 ≤ℤ a → pos 0 ≤ℤ b → pos 0 ≤ℤ a *ℤ b
unfolding ◌*ℤ◌
*ℤ-nonneg (pos m) (pos n) h k = ground arith
*ℤ-nonneg (negsuc m) b h k = absurd (omega arith)
*ℤ-nonneg (pos m) (negsuc n) h k = absurd (omega arith)

pub times_finite-IsNonneg : (a b : Decimal) → IsNonneg a → IsNonneg b → IsNonneg (times_finite a b)
unfolding times_finite
times_finite-IsNonneg a b h k = round_context-IsNonneg _ _ (*ℤ-nonneg a.coeff b.coeff h k)

pub plus_finite-IsNonneg : (a b : Decimal) → IsNonneg a → IsNonneg b → IsNonneg (plus_finite a b)
unfolding plus_finite coeff_at
plus_finite-IsNonneg a b h k =
    let m = common_places a b in
    let x : pos 0 ≤ℤ scale a.coeff (10 ^ (m - a.places)) = scale-nonneg _ _ h in
    let y : pos 0 ≤ℤ scale b.coeff (10 ^ (m - b.places)) = scale-nonneg _ _ k in
    round_context-IsNonneg _ _ (omega int_laws)

-- Where the comparison `a < b` fails, `a - b` is not negative, rounded or not.
pub minus_finite-IsNonneg : (a b : Decimal) → lt_finite a b ≡ false → IsNonneg (minus_finite a b)
unfolding minus_finite lt_finite
minus_finite-IsNonneg a b h =
    let m = common_places a b in
    let le : coeff_at m b ≤ℤ coeff_at m a = ground arith in
    round_context-IsNonneg _ _ (omega int_laws)

-- A positive decimal passes the test `d <= 0` in neither direction.
pub positive-IsNonneg : (d : Decimal) → is_nonpositive d ≡ false → pos 1 ≤ℤ d.coeff
unfolding is_nonpositive
positive-IsNonneg d h = ground arith

-- The coefficient at four places of a decimal that has at most four.
abbrev pub units : Decimal → ℤ
units d = coeff_at 4 d

-- The decimal of four places that a DecimalField(decimal_places=4) column is read back as.
abbrev pub of_units : ℤ → Decimal
of_units u = record { coeff = u; places = 4 }

scale-one : (z : ℤ) → scale z 1 ≡ z
unfolding scale
scale-one (pos n) = ground arith
scale-one (negsuc n) = ground arith

pub units-of_units : (u : ℤ) → coeff_at 4 (of_units u) ≡ u
unfolding coeff_at
units-of_units u = scale-one u

-- The arithmetic on a stored value and a decimal of at most four places is exact.
module _ (u : ℤ) (d : Decimal) (short : d.places ≤ 4) where
  common_places-of_units : common_places (of_units u) d ≡ 4
  common_places-of_units = ground arith

  pub plus_finite-of_units :
      pos 0 ≤ℤ u +ℤ units d
      → pos_part (u +ℤ units d) < 10 ^ 28
      → plus_finite (of_units u) d ≡ of_units (u +ℤ units d)
  unfolding plus_finite
  plus_finite-of_units h k =
      rw (common_places-of_units, units-of_units) (round_context-fits _ 4 k h)

  pub minus_finite-of_units :
      pos 0 ≤ℤ u -ℤ units d
      → pos_part (u -ℤ units d) < 10 ^ 28
      → minus_finite (of_units u) d ≡ of_units (u -ℤ units d)
  unfolding minus_finite
  minus_finite-of_units h k =
      rw (common_places-of_units, units-of_units) (round_context-fits _ 4 k h)

  -- The comparison of such decimals is that of their units.
  pub units-le : lt_finite (of_units u) d ≡ false → units d ≤ℤ u
  unfolding lt_finite
  units-le h = let k = rw (common_places-of_units, units-of_units) at h in ground arith
