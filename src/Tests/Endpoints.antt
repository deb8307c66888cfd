-- ===== src/Tests/Endpoints.antt =====
-- The cash service and the endpoints, run on the fixtures.
use djaskt_trading_app.Prelude.{◌≡◌, refl, true, false, some, [], ◌∷◌, arith}
use djaskt_trading_app.Prelude.Action.{ok, err}
use djaskt_trading_app.Prelude.Int.{pos, scale, ◌*ℤ◌, ◌+ℤ◌, ◌-ℤ◌}
use djaskt_trading_app.Decimal.{
  finite, round_magnitude, round_context, coeff_at, plus_finite, minus_finite, times_finite,
  lt_finite, is_nonpositive, number_is_nonpositive, lt, plus, minus, times,
}
use djaskt_trading_app.Decimal.Digits.{digits, round_half_even}
use djaskt_trading_app.Ledger.Models.{
  insufficient_funds, debit, Db, Portfolio, trade_type_of, direction_of, save_immutable, set_cash,
  set_quantity,
}
use djaskt_trading_app.Ledger.Price.{
  checked_price, parsed_price, price_key, price_of_payload, read_reply, get_live_price,
}
use djaskt_trading_app.Ledger.Trade.{
  TradeInstance, of_row, execute_trade, fresh_trade, trade_block, apply_trade, apply_buy,
  apply_sell, get_or_create_position, save_position, save_portfolio, insert_trade,
}
use djaskt_trading_app.Ledger.Invariant.{IsSound}
use djaskt_trading_app.Ledger.History.{IsReconciled}
use djaskt_trading_app.Tests.Fixtures.{env, db, row, deposit, two, cost, buy_two, withdraw, world}
use djaskt_trading_app.Tests.Numeric.{numeric-IsColumn}
use djaskt_trading_app.Tests.Trades.{trade, entry, bought, db-IsSound, db-IsReconciled}
use djaskt_trading_app.Ledger.Cash.{
  TransactionInstance, new_balance, insert_transaction, transfer_block, apply_transfer,
}
use djaskt_trading_app.Ledger.Cash.Laws.{IsExact, apply_transfer-IsSound}
use djaskt_trading_app.Ledger.Cash.Reconciled.{Booked, transfer_block_books_exactly}
use djaskt_trading_app.Ledger.Orchestrator.{
  World, working, positions_of, get_portfolio_for_user, get_owned_portfolio_or_none, submit_trade,
  broadcast_unless_replay, broadcast_portfolio_update, latest_trade,
}
use djaskt_trading_app.Ledger.Api.{
  TradeBody, created_201, ok_200, conflict_409, validate_trade, validate_type_and_quantity,
  normalize_ticker, submit_valid_trade, post_trade, caught, handled,
}
use djaskt_trading_app.Ledger.Api.Created.{Created, post_trade-Created}
use djaskt_trading_app.Ledger.Api.Laws.{refused_trade_changes_nothing}
use djaskt_trading_app.Ledger.Api.Shared.{key_shows_other_trade}

abbrev transaction : TransactionInstance
transaction = record {
  id = 9;
  idempotency_key = 700;
  portfolio_id = 1;
  portfolio = some (record {
    id = 1;
    user = 7;
    cash_balance = finite (record { coeff = pos 7_990_000; places = 4 });
  });
  direction = debit;
  amount = cost;
  resulting_balance = record { coeff = pos 7_990_000; places = 4 };
  timestamp = 77;
}

abbrev withdrawn : Db
withdrawn = record db {
  portfolios = record row { cash_balance = pos 7_990_000 } ∷ [];
  cash_transactions =
      (record {
        id = 9;
        idempotency_key = 700;
        portfolio = 1;
        direction = debit;
        amount = pos 2_010_000;
        resulting_balance = pos 7_990_000;
        timestamp = 77;
      })
      ∷ deposit
      ∷ [];
}

withdraws : transfer_block env withdraw debit db ≡ (ok transaction, withdrawn)
unfolding transfer_block new_balance insert_transaction execute_trade trade_type_of is_nonpositive
    fresh_trade get_live_price number_is_nonpositive times trade_block apply_trade apply_buy lt
    lt_finite coeff_at scale times_finite round_context ◌*ℤ◌ round_magnitude digits round_half_even
    minus minus_finite plus plus_finite save_immutable set_cash set_quantity checked_price
    parsed_price price_key price_of_payload read_reply apply_sell get_or_create_position
    insert_trade save_portfolio save_position ◌+ℤ◌ ◌-ℤ◌
withdraws = refl

abbrev poor : Db
poor = record db { portfolios = record row { cash_balance = pos 1 } ∷ [] }

refuses : apply_transfer env withdraw poor ≡ (err insufficient_funds, poor)
unfolding apply_transfer direction_of transfer_block new_balance insert_transaction execute_trade
    trade_type_of is_nonpositive fresh_trade get_live_price number_is_nonpositive times trade_block
    apply_trade apply_buy lt lt_finite coeff_at scale times_finite round_context ◌*ℤ◌
    round_magnitude digits round_half_even minus minus_finite plus plus_finite save_immutable
    set_cash set_quantity checked_price parsed_price price_key price_of_payload read_reply
    apply_sell get_or_create_position insert_trade save_portfolio save_position ◌+ℤ◌ ◌-ℤ◌
refuses = refl

fits : IsExact debit (pos 10_000_000) cost
unfolding scale ◌*ℤ◌ ◌+ℤ◌ ◌-ℤ◌ coeff_at
fits = record {
  short = omega arith;
  nonneg = omega arith;
  amount_fits = omega arith;
  cash_fits = omega arith;
}

apply_transfer-IsSound_example : IsSound (apply_transfer env withdraw db).1
apply_transfer-IsSound_example = apply_transfer-IsSound env withdraw db numeric-IsColumn db-IsSound

transfer_block_books_exactly_example :
    Booked debit (pos 2_010_000) db row withdrawn × IsReconciled withdrawn
unfolding scale ◌*ℤ◌ coeff_at
transfer_block_books_exactly_example =
    transfer_block_books_exactly env withdraw debit db numeric-IsColumn db-IsSound row withdraws
      refl fits db-IsReconciled

abbrev announced : World
announced = record {
  db = bought;
  sent =
      (record {
        portfolio_id = 1;
        cash_balance = finite (record { coeff = pos 7_990_000; places = 4 });
        positions = ("AAPL", record { coeff = pos 20_000; places = 4 }) ∷ [];
        latest = latest_trade trade;
      })
      ∷ [];
}

abbrev body : TradeBody
body = record { ticker = "AAPL"; trade_type = "BUY"; quantity = two; idempotency_key = 600 }

abbrev no_key : TradeBody
no_key = record { ticker = "AAPL"; trade_type = "SELL"; quantity = two; idempotency_key = 601 }

posts :
    post_trade working env 7 (λ s. s) body world
    ≡ (ok (created_201 (record { trade = trade; is_replay = false })), announced)
unfolding post_trade validate_trade validate_type_and_quantity normalize_ticker submit_valid_trade
    caught submit_trade broadcast_unless_replay broadcast_portfolio_update positions_of
    get_portfolio_for_user execute_trade trade_type_of is_nonpositive fresh_trade get_live_price
    number_is_nonpositive times trade_block apply_trade apply_buy lt lt_finite coeff_at scale
    times_finite round_context ◌*ℤ◌ round_magnitude digits round_half_even minus minus_finite plus
    plus_finite save_immutable set_cash set_quantity checked_price parsed_price price_key
    price_of_payload read_reply apply_sell get_or_create_position insert_trade save_portfolio
    save_position ◌+ℤ◌ ◌-ℤ◌
posts = refl

post_conflict : post_trade working env 7 (λ s. s) no_key world ≡ (ok conflict_409, world)
unfolding post_trade validate_trade validate_type_and_quantity normalize_ticker submit_valid_trade
    caught handled submit_trade get_portfolio_for_user execute_trade trade_type_of is_nonpositive
    fresh_trade get_live_price number_is_nonpositive times trade_block apply_trade apply_buy lt
    lt_finite coeff_at scale times_finite round_context ◌*ℤ◌ round_magnitude digits round_half_even
    minus minus_finite plus plus_finite save_immutable set_cash set_quantity checked_price
    parsed_price price_key price_of_payload read_reply apply_sell get_or_create_position
    insert_trade save_portfolio save_position ◌+ℤ◌ ◌-ℤ◌
post_conflict = refl

post_trade-Created_example :
    Created working env 7
      (λ s. s)
      body
      world
      (record { trade = trade; is_replay = false })
      announced
post_trade-Created_example =
    post_trade-Created working env 7 (λ s. s) body world
      (record { trade = trade; is_replay = false }) announced posts

refused_trade_changes_nothing_example : world.db ≡ world.db
refused_trade_changes_nothing_example =
    refused_trade_changes_nothing working env 7 (λ s. s) no_key world conflict_409 world
      post_conflict (λ x. x)

-- User 8 has a portfolio too, and sends the key of user 7's trade.
abbrev shared : World
shared = record {
  db = record bought {
    portfolios = (record { id = 3; user = 8; cash_balance = pos 0 }) ∷ bought.portfolios;
  };
  sent = [];
}

validates : validate_trade (λ s. s) (λ s. s) body ≡ some body
unfolding validate_trade validate_type_and_quantity normalize_ticker trade_type_of is_nonpositive
validates = refl

abbrev other : Portfolio
other = record { id = 3; user = 8; cash_balance = pos 0 }

is_eighth : get_portfolio_for_user 8 shared.db ≡ some other
unfolding get_portfolio_for_user
is_eighth = refl

key_shows_other_trade_example :
    (p : Portfolio) × (t : TradeInstance) × (get_portfolio_for_user 7 world.db ≡ some p)
    × (t.portfolio_id ≡ p.id)
    × (t.id ≡ trade.id)
    × (post_trade working env 8 (λ s. s) body shared
        ≡ (ok (ok_200 (record { trade = t; is_replay = true })), shared))
key_shows_other_trade_example =
    key_shows_other_trade working working env env 7 8 (λ s. s) (λ s. s) body body body world
      announced shared (record { trade = trade; is_replay = false }) other posts refl validates refl
      is_eighth

abbrev again : World
again = record { db = bought; sent = [] }

replays :
    (execute_trade env buy_two bought).0 ≡ ok (record { trade = of_row entry; is_replay = true })
unfolding execute_trade trade_type_of is_nonpositive
replays = refl

owned : get_owned_portfolio_or_none 7 1 db ≡ some row
unfolding get_owned_portfolio_or_none
owned = refl
