-- ===== src/Ledger/Trade.antt =====
-- ledger/services/trade_service.py: `TradeExecutionService.execute_trade`.
-- Outside lie the price cache, the ids and the clock, which a call is given, and the value that a
-- numeric column holds for a decimal (`none`: the database refuses it). The row locks order calls,
-- which have no counterpart in the model of one call.
pub mod Branch
pub mod Effect
pub mod Outcome
pub mod Safety
pub mod Replay
pub mod Exact
pub mod Written
pub mod Succeeds
pub mod Reconciled
use Prim.Native.String.{count}
use djaskt_trading_app.Prelude.{
  ℕ, String, Bool, true, false, Option, none, some, ◌∷◌, leb, if◌then◌else◌,
}
use djaskt_trading_app.Prelude.Int.{ℤ, pos}
use djaskt_trading_app.Prelude.Rows.{find}
use djaskt_trading_app.Prelude.Action.{
  Action, pure, raise, lift, gets, or_raise, raise_if, modify, atomic, if_some, ◌>>=◌, ◌>>◌,
}
use djaskt_trading_app.Decimal.{
  Decimal, Number, finite, is_nonpositive, lt, lt_finite, plus, minus, times,
}
use djaskt_trading_app.Decimal.Laws.{of_units}
use djaskt_trading_app.Ledger.Models.{
  Error, portfolio_not_found, insufficient_funds, insufficient_position, invalid_trade_request,
  invalid_operation, data_error, integrity_error, TradeType, buy, sell, trade_type_of, Portfolio,
  Position, Trade, Db, LoadedPortfolio, has_id, holds, trade_has_key, set_cash, set_quantity,
  save_immutable,
}
use djaskt_trading_app.Ledger.Price.{Parsers, Reply, get_live_price}

-- What a call finds outside: the parsers and the price cache, the columns' conversion, and the next
-- id and the time for a row that it adds.
pub record Env : Type 0 where
  pub parsers : Parsers
  pub redis : String → Reply
  pub store : Number → Option ℤ
  pub new_id : ℕ
  pub now : ℕ

pub record TradeRequest : Type 0 where
  pub portfolio_id : ℕ
  pub ticker : String
  pub trade_type : String
  pub quantity : Decimal
  pub idempotency_key : ℕ

-- A `Trade` in memory: a new one keeps the numbers that it was made of, and the portfolio object
-- that it was made with.
pub record TradeInstance : Type 0 where
  pub id : ℕ
  pub idempotency_key : ℕ
  pub portfolio_id : ℕ
  pub portfolio : Option LoadedPortfolio
  pub ticker : String
  pub trade_type : TradeType
  pub quantity : Number
  pub price : Number
  pub total_value : Number
  pub timestamp : ℕ

pub record TradeResult : Type 0 where
  pub trade : TradeInstance
  pub is_replay : Bool

abbrev pub of_row : Trade → TradeInstance
of_row t = record {
  id = t.id;
  idempotency_key = t.idempotency_key;
  portfolio_id = t.portfolio;
  portfolio = none;
  ticker = t.ticker;
  trade_type = t.trade_type;
  quantity = finite (of_units t.quantity);
  price = finite (of_units t.price);
  total_value = finite (of_units t.total_value);
  timestamp = t.timestamp;
}

-- CharField(max_length=10)
abbrev pub fits_ticker : String → Bool
fits_ticker ticker = leb (count ticker) 10

abbrev pub find_portfolio : ℕ → Db → Option Portfolio
find_portfolio id db = find (has_id id) db.portfolios

abbrev pub find_position : ℕ → String → Db → Option Position
find_position portfolio ticker db = find (holds portfolio ticker) db.positions

abbrev pub find_trade : ℕ → Db → Option Trade
find_trade key db = find (trade_has_key key) db.trades

module _ (env : Env) where
  abbrev pub to_column : Number → Action Db Error ℤ
  to_column n = or_raise (env.store n) data_error

  -- `portfolio.save()`
  unfoldable pub save_portfolio : LoadedPortfolio → Action Db Error (Unit {0})
  save_portfolio p = do
    cash ← to_column p.cash_balance
    modify (λ db. record db { portfolios = set_cash p.id cash db.portfolios })

  -- `position.save()`
  unfoldable pub save_position : ℕ → String → Number → Action Db Error (Unit {0})
  save_position portfolio ticker n = do
    quantity ← to_column n
    modify (λ db. record db { positions = set_quantity portfolio ticker quantity db.positions })

  create_position : ℕ → String → Action Db Error Position
  create_position portfolio ticker = do
    let p : Position = record { portfolio = portfolio; ticker = ticker; quantity = pos 0 }
    raise_if (if fits_ticker ticker then false else true) data_error
    modify (λ db. record db { positions = p ∷ db.positions })
    pure p

  unfoldable pub get_or_create_position : ℕ → String → Action Db Error Position
  unfolding create_position
  get_or_create_position portfolio ticker = do
    found ← gets (find_position portfolio ticker)
    if_some found pure (create_position portfolio ticker)

  -- The BUY branch, up to `portfolio.save()`: the portfolio with what is left of its cash.
  unfoldable pub apply_buy : Portfolio → String → Decimal → Number → Action Db Error LoadedPortfolio
  unfolding get_or_create_position save_position
  apply_buy p ticker quantity total = do
    short ← or_raise (lt (of_units p.cash_balance) total) invalid_operation
    raise_if short insufficient_funds
    position ← get_or_create_position p.id ticker
    save_position p.id ticker (plus (of_units position.quantity) (finite quantity))
    pure (record { id = p.id; user = p.user; cash_balance = minus (of_units p.cash_balance) total })

  -- The SELL branch.
  unfoldable pub apply_sell :
      Portfolio → String → Decimal → Number → Action Db Error LoadedPortfolio
  unfolding save_position
  apply_sell p ticker quantity total = do
    position ← or_raise (← gets (find_position p.id ticker)) insufficient_position
    raise_if (lt_finite (of_units position.quantity) quantity) insufficient_position
    save_position p.id ticker (minus (of_units position.quantity) (finite quantity))
    pure (record { id = p.id; user = p.user; cash_balance = plus (of_units p.cash_balance) total })

  unfoldable pub apply_trade :
      TradeType → Portfolio → String → Decimal → Number → Action Db Error LoadedPortfolio
  apply_trade buy = apply_buy
  apply_trade sell = apply_sell

  -- The INSERT: the columns refuse what does not fit, and the key is unique.
  unfoldable pub insert_trade : TradeInstance → Action Db Error (Unit {0})
  insert_trade t = do
    quantity ← to_column t.quantity
    price ← to_column t.price
    total ← to_column t.total_value
    raise_if (if fits_ticker t.ticker then false else true) data_error
    same ← gets (find_trade t.idempotency_key)
    if_some same (λ _. raise integrity_error)
        (modify (λ db. record db {
          trades =
              (record {
                id = t.id;
                idempotency_key = t.idempotency_key;
                portfolio = t.portfolio_id;
                ticker = t.ticker;
                trade_type = t.trade_type;
                quantity = quantity;
                price = price;
                total_value = total;
                timestamp = t.timestamp;
              })
              ∷ db.trades;
        }))

  -- The block under `transaction.atomic()`; `ticker` is in upper case here.
  unfoldable pub trade_block :
      TradeRequest → TradeType → String → Number → Number → Action Db Error TradeInstance
  unfolding save_immutable
  trade_block r kind ticker price total = do
    row ← or_raise (← gets (find_portfolio r.portfolio_id)) portfolio_not_found
    portfolio ← apply_trade kind row ticker r.quantity total
    save_portfolio portfolio
    let trade : TradeInstance = record {
      id = env.new_id;
      idempotency_key = r.idempotency_key;
      portfolio_id = portfolio.id;
      portfolio = some portfolio;
      ticker = ticker;
      trade_type = kind;
      quantity = finite r.quantity;
      price = price;
      total_value = total;
      timestamp = env.now;
    }
    save_immutable true (insert_trade trade)
    pure trade

  -- From the look-up of the price on.
  unfoldable pub fresh_trade : TradeRequest → TradeType → Action Db Error TradeResult
  fresh_trade r kind = do
    price ← lift (get_live_price env.parsers env.redis r.ticker)
    total ← or_raise (times r.quantity price) invalid_operation
    trade ← atomic (trade_block r kind (env.parsers.upper r.ticker) price total)
    pure (record { trade = trade; is_replay = false })

  unfoldable pub execute_trade : TradeRequest → Action Db Error TradeResult
  execute_trade r = do
    kind ← or_raise (trade_type_of r.trade_type) invalid_trade_request
    raise_if (is_nonpositive r.quantity) invalid_trade_request
    existing ← gets (find_trade r.idempotency_key)
    if_some existing (λ t. pure (record { trade = of_row t; is_replay = true }))
        (fresh_trade r kind)
