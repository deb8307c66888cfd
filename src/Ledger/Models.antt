-- ===== src/Ledger/Models.antt =====
-- ledger/exceptions.py and ledger/models.py: the errors, the rows of the four tables, the database
-- as the tables, and the instances that the services hold in memory.
-- Ids and keys are UUIDs that are only compared, so they are numbers. A money or quantity column is
-- DecimalField(max_digits=19, decimal_places=4): its value is a whole number of ten-thousandths.
-- The timestamps that no code reads (created_at, updated_at, last_updated) are left out.
use text.Mathlib.Text.{◌==◌ as str_eq}
use djaskt_trading_app.Prelude.{
  ℕ, String, Bool, true, false, ◌&&◌, Option, none, some, List, [], ◌∷◌, ◌==◌, if◌then◌else◌,
}
use djaskt_trading_app.Prelude.Int.{ℤ}
use djaskt_trading_app.Prelude.Action.{Action, raise}
use djaskt_trading_app.Decimal.{Number}

-- The domain errors, then what no handler translates: a decimal signal, a value that a column
-- refuses, a violated constraint, a `ValueError`, a failing channel layer.
pub data Error : Type 0 where
  portfolio_not_found price_unavailable insufficient_funds insufficient_position : Error
  invalid_trade_request : Error
  invalid_operation data_error integrity_error value_error channel_error : Error

pub data TradeType : Type 0 where
  buy sell : TradeType

pub data Direction : Type 0 where
  credit debit : Direction

-- `trade_type in Trade.TradeType.values`, with the member that is meant.
unfoldable pub trade_type_of : String → Option TradeType
trade_type_of s = if str_eq s "BUY" then some buy else if str_eq s "SELL" then some sell else none

unfoldable pub direction_of : String → Option Direction
direction_of s =
    if str_eq s "CREDIT" then some credit else if str_eq s "DEBIT" then some debit else none

pub record Portfolio : Type 0 where
  pub id : ℕ
  pub user : ℕ
  pub cash_balance : ℤ

pub record Position : Type 0 where
  pub portfolio : ℕ
  pub ticker : String
  pub quantity : ℤ

pub record Trade : Type 0 where
  pub id : ℕ
  pub idempotency_key : ℕ
  pub portfolio : ℕ
  pub ticker : String
  pub trade_type : TradeType
  pub quantity : ℤ
  pub price : ℤ
  pub total_value : ℤ
  pub timestamp : ℕ

pub record CashTransaction : Type 0 where
  pub id : ℕ
  pub idempotency_key : ℕ
  pub portfolio : ℕ
  pub direction : Direction
  pub amount : ℤ
  pub resulting_balance : ℤ
  pub timestamp : ℕ

-- The tables; the append-only ones have the latest entry first.
pub record Db : Type 0 where
  pub portfolios : List Portfolio
  pub positions : List Position
  pub trades : List Trade
  pub cash_transactions : List CashTransaction

-- A portfolio in memory: its balance is not yet what the column will hold.
pub record LoadedPortfolio : Type 0 where
  pub id : ℕ
  pub user : ℕ
  pub cash_balance : Number

-- `PortfolioQuerySet.for_user`, as a test on a row.
abbrev pub for_user : ℕ → Portfolio → Bool
for_user user p = p.user == user

abbrev pub has_id : ℕ → Portfolio → Bool
has_id id p = p.id == id

abbrev pub holds : ℕ → String → Position → Bool
holds portfolio ticker p = p.portfolio == portfolio && str_eq p.ticker ticker

abbrev pub trade_has_key : ℕ → Trade → Bool
trade_has_key key t = t.idempotency_key == key

abbrev pub transaction_has_key : ℕ → CashTransaction → Bool
transaction_has_key key t = t.idempotency_key == key

-- UPDATE of the balance of the row with an id.
unfoldable pub set_cash : ℕ → ℤ → List Portfolio → List Portfolio
set_cash id cash [] = []
set_cash id cash (p ∷ ps) =
    if p.id == id then record p { cash_balance = cash } ∷ ps else p ∷ set_cash id cash ps

-- UPDATE of the quantity of the row of a portfolio and a ticker.
unfoldable pub set_quantity : ℕ → String → ℤ → List Position → List Position
set_quantity portfolio ticker quantity [] = []
set_quantity portfolio ticker quantity (p ∷ ps) =
    if holds portfolio ticker p
    then record p { quantity = quantity } ∷ ps
    else p ∷ set_quantity portfolio ticker quantity ps

-- `Trade.save` and `CashTransaction.save`: only an instance that is being added passes on to the
-- write that it is given.
unfoldable pub save_immutable : {A : Type 0} → Bool → Action Db Error A → Action Db Error A
save_immutable true write = write
save_immutable false write = raise value_error
