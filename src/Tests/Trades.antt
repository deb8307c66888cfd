-- ===== src/Tests/Trades.antt =====
-- The trade service, run on the fixtures.
use djaskt_trading_app.Prelude.{
  ◌≡◌, refl, Bool-cases, inl, inr, true, false, some, [], ◌∷◌, ◌==◌, arith,
}
use djaskt_trading_app.Prelude.Action.{ok, err}
use djaskt_trading_app.Prelude.Int.{pos, scale, ◌*ℤ◌, ◌+ℤ◌, ◌-ℤ◌}
use djaskt_trading_app.Decimal.{
  finite, round_magnitude, round_context, coeff_at, plus_finite, minus_finite, times_finite,
  lt_finite, is_nonpositive, number_is_nonpositive, lt, plus, minus, times,
}
use djaskt_trading_app.Decimal.Digits.{digits, round_half_even}
use djaskt_trading_app.Ledger.Models.{
  insufficient_position, buy, Db, Trade, trade_type_of, save_immutable, set_cash, set_quantity,
}
use djaskt_trading_app.Ledger.Price.{
  checked_price, parsed_price, price_key, price_of_payload, read_reply, get_live_price,
}
use djaskt_trading_app.Ledger.Trade.{
  TradeInstance, of_row, execute_trade, fresh_trade, trade_block, apply_trade, apply_buy,
  apply_sell, get_or_create_position, save_position, save_portfolio, insert_trade,
}
use djaskt_trading_app.Ledger.Invariant.{IsSound}
use djaskt_trading_app.Ledger.History.{IsReconciled}
use djaskt_trading_app.Tests.Fixtures.{env, db, row, two, cost, quote, buy_two, sell_two}
use djaskt_trading_app.Tests.Numeric.{numeric-IsColumn}
use djaskt_trading_app.Ledger.Trade.Outcome.{IsWellFormed}
use djaskt_trading_app.Ledger.Trade.Safety.{execute_trade-IsSound}
use djaskt_trading_app.Ledger.Trade.Exact.{IsExact, Booked, trade_block_books_exactly}
use djaskt_trading_app.Ledger.Trade.Reconciled.{trade_block-IsReconciled}
use djaskt_trading_app.Ledger.Trade.Replay.{execute_trade_once}

abbrev pub trade : TradeInstance
trade = record {
  id = 9;
  idempotency_key = 600;
  portfolio_id = 1;
  portfolio = some (record {
    id = 1;
    user = 7;
    cash_balance = finite (record { coeff = pos 7_990_000; places = 4 });
  });
  ticker = "AAPL";
  trade_type = buy;
  quantity = finite two;
  price = finite quote;
  total_value = finite cost;
  timestamp = 77;
}

abbrev pub entry : Trade
entry = record {
  id = 9;
  idempotency_key = 600;
  portfolio = 1;
  ticker = "AAPL";
  trade_type = buy;
  quantity = pos 20_000;
  price = pos 1_005_000;
  total_value = pos 2_010_000;
  timestamp = 77;
}

abbrev pub bought : Db
bought = record db {
  portfolios = record row { cash_balance = pos 7_990_000 } ∷ [];
  positions = (record { portfolio = 1; ticker = "AAPL"; quantity = pos 20_000 }) ∷ [];
  trades = entry ∷ [];
}

pub buys : execute_trade env buy_two db ≡ (ok (record { trade = trade; is_replay = false }), bought)
unfolding execute_trade trade_type_of is_nonpositive fresh_trade get_live_price
    number_is_nonpositive times trade_block apply_trade apply_buy lt lt_finite coeff_at scale
    times_finite round_context ◌*ℤ◌ round_magnitude digits round_half_even minus minus_finite plus
    plus_finite save_immutable set_cash set_quantity checked_price parsed_price price_key
    price_of_payload read_reply apply_sell get_or_create_position insert_trade save_portfolio
    save_position ◌+ℤ◌ ◌-ℤ◌
buys = refl

books : trade_block env buy_two buy "AAPL" (finite quote) (finite cost) db ≡ (ok trade, bought)
unfolding execute_trade trade_type_of is_nonpositive fresh_trade get_live_price
    number_is_nonpositive times trade_block apply_trade apply_buy lt lt_finite coeff_at scale
    times_finite round_context ◌*ℤ◌ round_magnitude digits round_half_even minus minus_finite plus
    plus_finite save_immutable set_cash set_quantity checked_price parsed_price price_key
    price_of_payload read_reply apply_sell get_or_create_position insert_trade save_portfolio
    save_position ◌+ℤ◌ ◌-ℤ◌
books = refl

sells_none : execute_trade env sell_two db ≡ (err insufficient_position, db)
unfolding execute_trade trade_type_of is_nonpositive fresh_trade get_live_price
    number_is_nonpositive times trade_block apply_trade apply_buy lt lt_finite coeff_at scale
    times_finite round_context ◌*ℤ◌ round_magnitude digits round_half_even minus minus_finite plus
    plus_finite save_immutable set_cash set_quantity checked_price parsed_price price_key
    price_of_payload read_reply apply_sell get_or_create_position insert_trade save_portfolio
    save_position ◌+ℤ◌ ◌-ℤ◌
sells_none = refl

pub db-IsSound : IsSound db
db-IsSound = record {
  funded = (omega arith, tt);
  long = tt;
  trade_keys = tt;
  transaction_keys = (refl, tt);
}

pub db-IsReconciled : IsReconciled db
unfolding ◌+ℤ◌
db-IsReconciled = record {
  balances = λ id p e. elim (Bool-cases (1 == id)) [ inl y ↦ ground arith | inr n ↦ ground arith ];
  holdings = λ id ticker. refl;
}

fits : IsExact buy (pos 10_000_000) (pos 0) two cost
unfolding scale ◌*ℤ◌ ◌+ℤ◌ ◌-ℤ◌ coeff_at
fits = record {
  short_total = omega arith;
  short_quantity = omega arith;
  nonneg_total = omega arith;
  nonneg_quantity = omega arith;
  total_fits = omega arith;
  quantity_fits = omega arith;
  cash_fits = omega arith;
  holding_fits = omega arith;
}

pub asked_well : IsWellFormed buy_two buy
unfolding trade_type_of is_nonpositive
asked_well = record { known = refl; positive = refl }

execute_trade-IsSound_example : IsSound (execute_trade env buy_two db).1
execute_trade-IsSound_example = execute_trade-IsSound env buy_two db numeric-IsColumn db-IsSound

trade_block-IsReconciled_example : IsReconciled bought
trade_block-IsReconciled_example =
    trade_block-IsReconciled env buy_two buy "AAPL" (finite quote) cost db numeric-IsColumn
      db-IsSound row books refl fits db-IsReconciled

trade_block_books_exactly_example : Booked buy two cost "AAPL" db row bought
trade_block_books_exactly_example =
    trade_block_books_exactly env buy_two buy "AAPL" (finite quote) cost db numeric-IsColumn
      db-IsSound row books refl fits

execute_trade_once_example :
    (t : Trade) × (execute_trade env buy_two bought
      ≡ (ok (record { trade = of_row t; is_replay = true }), bought))
    × (t.id ≡ 9)
    × (t.portfolio ≡ 1)
execute_trade_once_example =
    execute_trade_once env env buy_two buy_two buy db bought
      (record { trade = trade; is_replay = false }) buys asked_well refl

pub quoted : get_live_price env.parsers env.redis "AAPL" ≡ ok (finite quote)
unfolding execute_trade trade_type_of is_nonpositive fresh_trade get_live_price
    number_is_nonpositive times trade_block apply_trade apply_buy lt lt_finite coeff_at scale
    times_finite round_context ◌*ℤ◌ round_magnitude digits round_half_even minus minus_finite plus
    plus_finite save_immutable set_cash set_quantity checked_price parsed_price price_key
    price_of_payload read_reply apply_sell get_or_create_position insert_trade save_portfolio
    save_position ◌+ℤ◌ ◌-ℤ◌
quoted = refl
