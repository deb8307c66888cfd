-- ===== src/Tests/Overlap.antt =====
-- Calls that overlap, run on the fixtures: two copies of one purchase, and a withdrawal between them.
use djaskt_trading_app.Prelude.{ℕ, ◌≡◌, refl, ◌==◌, if◌then◌else◌, false, some, [], ◌∷◌, List}
use djaskt_trading_app.Prelude.Action.{ok, err}
use djaskt_trading_app.Prelude.Int.{pos, scale, ◌*ℤ◌, ◌+ℤ◌, ◌-ℤ◌}
use djaskt_trading_app.Decimal.{
  finite, round_magnitude, round_context, coeff_at, plus_finite, minus_finite, times_finite,
  lt_finite, lt, plus, minus, times,
}
use djaskt_trading_app.Decimal.Digits.{digits, round_half_even}
use djaskt_trading_app.Ledger.Models.{Error, buy, Db}
use djaskt_trading_app.Ledger.Trade.{TradeInstance, execute_trade}
use djaskt_trading_app.Ledger.Trade.Succeeds.{IsStored, execute_trade_succeeds}
use djaskt_trading_app.Ledger.Overlap.{
  Job, trade_job, transfer_job, priced, traded, advance, run, start,
}
use djaskt_trading_app.Ledger.Overlap.Serial.{IsSerial, overlap-IsSerial}
use djaskt_trading_app.Ledger.Overlap.Race.{late_duplicate_fails}
use djaskt_trading_app.Tests.Fixtures.{env, db, row, two, cost, quote, buy_two, withdraw}
use djaskt_trading_app.Tests.Trades.{bought, entry, asked_well, quoted}

abbrev jobs : ℕ → Job
jobs i = if i == 2 then transfer_job env withdraw else trade_job env buy_two

abbrev schedule : List ℕ
schedule = 0 ∷ 1 ∷ 2 ∷ 0 ∷ 1 ∷ 0 ∷ 2 ∷ 1 ∷ []

overlap-IsSerial_example : IsSerial jobs schedule (start db) (run jobs schedule (start db))
overlap-IsSerial_example = overlap-IsSerial jobs schedule db

late_duplicate_fails_example :
    (e : Error) × (advance (trade_job env buy_two) (priced buy (finite quote) (finite cost)) bought
      ≡ (traded (err e), bought))
late_duplicate_fails_example =
    late_duplicate_fails env buy_two buy (finite quote) (finite cost) bought entry refl

stored : IsStored env buy_two buy (finite quote) (finite cost) row db
unfolding lt lt_finite coeff_at scale times_finite round_context ◌*ℤ◌ round_magnitude digits
    round_half_even minus minus_finite plus plus_finite ◌+ℤ◌ ◌-ℤ◌
stored = record {
  cash = pos 7_990_000;
  holding = pos 20_000;
  quantity = pos 20_000;
  unit_price = pos 1_005_000;
  value = pos 2_010_000;
  stored_cash = refl;
  stored_holding = refl;
  stored_quantity = refl;
  stored_price = refl;
  stored_value = refl;
  short_ticker = refl;
}

costs : times two (finite quote) ≡ some (finite cost)
unfolding times times_finite round_context ◌*ℤ◌ round_magnitude digits round_half_even
costs = refl

affords : lt (record { coeff = pos 10_000_000; places = 4 }) (finite cost) ≡ some false
unfolding lt lt_finite coeff_at scale
affords = refl

execute_trade_succeeds_example :
    (t : TradeInstance) × (db' : Db) × (execute_trade env buy_two db
      ≡ (ok (record { trade = t; is_replay = false }), db'))
execute_trade_succeeds_example =
    execute_trade_succeeds env buy_two buy (finite quote) (finite cost) row db asked_well refl
      quoted costs refl affords stored
