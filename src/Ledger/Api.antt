-- ===== src/Ledger/Api.antt =====
-- ledger/api/router.py: `LedgerController`, and the request schemas of ledger/api/schemas.py. A request
-- has passed the authentication, and its body is a JSON object of the schema's fields; `str.strip` is given.
pub mod Laws
pub mod Created
pub mod Shared
use text.Mathlib.Text.{◌==◌ as str_eq}
use Prim.Native.String.{count}
use djaskt_trading_app.Prelude.{
  ℕ, String, ◌==◌, ◌||◌, Bool, true, false, not, Option, none, some, List, [], ◌∷◌, leb,
  if◌then◌else◌,
}
use djaskt_trading_app.Prelude.Int.{ℤ}
use djaskt_trading_app.Prelude.Action.{
  Result, ok, err, Action, pure, raise, gets, if_some, ◌>>=◌, ◌>>◌,
}
use djaskt_trading_app.Decimal.{Decimal, is_nonpositive}
use djaskt_trading_app.Ledger.Models.{
  Error, portfolio_not_found, price_unavailable, insufficient_funds, insufficient_position,
  invalid_trade_request, trade_type_of, direction_of, Portfolio, Trade, Db,
}
use djaskt_trading_app.Ledger.Trade.{Env, TradeRequest, TradeInstance, TradeResult}
use djaskt_trading_app.Ledger.Cash.{TransferRequest, TransactionInstance, CashTransferResult}
use djaskt_trading_app.Ledger.Listing.{listed}
use djaskt_trading_app.Ledger.Orchestrator.{
  ChannelLayer, World, positions_of, submit_trade, submit_cash_transfer, get_portfolio_for_user,
}

pub record TradeBody : Type 0 where
  pub ticker : String
  pub trade_type : String
  pub quantity : Decimal
  pub idempotency_key : ℕ

pub record TransferBody : Type 0 where
  pub direction : String
  pub amount : Decimal
  pub idempotency_key : ℕ

-- The answers, by status.
pub data Response (A : Type 0) : Type 0 where
  created_201 ok_200 : A → Response A
  not_found_404 conflict_409 unprocessable_422 : Response A

-- `not value or len(value) > 10` of the stripped text in upper case
abbrev pub bad_ticker : String → Bool
bad_ticker value = str_eq value "" || not (leb (count value) 10)

abbrev pub is_none : {A : Type 0} → Option A → Bool
is_none none = true
is_none (some _) = false

unfoldable pub normalize_ticker : (String → String) → (String → String) → String → Option String
normalize_ticker strip upper value =
    if bad_ticker (upper (strip value)) then none else some (upper (strip value))

unfoldable pub validate_type_and_quantity : TradeBody → Option String → Option TradeBody
validate_type_and_quantity b none = none
validate_type_and_quantity b (some ticker) =
    if is_none (trade_type_of b.trade_type) || is_nonpositive b.quantity
    then none
    else some (record b { ticker = ticker })

-- `TradeRequestSchema`: `none` is a 422.
unfoldable pub validate_trade : (String → String) → (String → String) → TradeBody → Option TradeBody
validate_trade strip upper b = validate_type_and_quantity b (normalize_ticker strip upper b.ticker)

-- `CashTransferRequestSchema`
unfoldable pub validate_transfer : TransferBody → Option TransferBody
validate_transfer b =
    if is_none (direction_of b.direction) || is_nonpositive b.amount then none else some b

-- The `except` clauses; an error of no such class goes on.
unfoldable pub handled : {A : Type 0} → Error → Result Error (Response A)
handled portfolio_not_found = ok not_found_404
handled insufficient_funds = ok conflict_409
handled insufficient_position = ok conflict_409
handled price_unavailable = ok conflict_409
handled invalid_trade_request = ok conflict_409
handled e = err e

abbrev pub answer : {A : Type 0} → (A → Bool) → A → Response A
answer is_replay a = if is_replay a then ok_200 a else created_201 a

unfoldable pub caught :
    {A : Type 0} → (A → Bool) → Result Error A × World → Result Error (Response A) × World
caught is_replay (ok a, w) = (ok (answer is_replay a), w)
caught is_replay (err e, w) = (handled e, w)

abbrev pub trade_request : Portfolio → TradeBody → TradeRequest
trade_request p b = record {
  portfolio_id = p.id;
  ticker = b.ticker;
  trade_type = b.trade_type;
  quantity = b.quantity;
  idempotency_key = b.idempotency_key;
}

abbrev pub transfer_request : Portfolio → TransferBody → TransferRequest
transfer_request p b = record {
  portfolio_id = p.id;
  direction = b.direction;
  amount = b.amount;
  idempotency_key = b.idempotency_key;
}

pub record PortfolioResponse : Type 0 where
  pub portfolio_id : ℕ
  pub cash_balance : ℤ
  pub positions : List (String × Decimal)

module _ (layer : ChannelLayer) (env : Env) (user : ℕ) where
  unfoldable pub submit_valid_trade :
      TradeBody → Option Portfolio → Action World Error (Response TradeResult)
  submit_valid_trade b none w = (ok not_found_404, w)
  submit_valid_trade b (some p) w =
      caught (λ (r : TradeResult). r.is_replay) (submit_trade layer env (trade_request p b) w)

  unfoldable pub post_trade :
      (String → String) → TradeBody → Action World Error (Response TradeResult)
  post_trade strip b =
      if_some (validate_trade strip env.parsers.upper b)
        (λ valid w. submit_valid_trade valid (get_portfolio_for_user user w.db) w)
        (pure unprocessable_422)

  unfoldable pub transfer_valid_cash :
      TransferBody → Option Portfolio → Action World Error (Response CashTransferResult)
  transfer_valid_cash b none w = (ok not_found_404, w)
  transfer_valid_cash b (some p) w =
      caught (λ (r : CashTransferResult). r.is_replay)
        (submit_cash_transfer layer env (transfer_request p b) w)

  unfoldable pub post_cash_transfer :
      TransferBody → Action World Error (Response CashTransferResult)
  post_cash_transfer b =
      if_some (validate_transfer b)
        (λ valid w. transfer_valid_cash valid (get_portfolio_for_user user w.db) w)
        (pure unprocessable_422)

-- `get_portfolio`
unfoldable pub portfolio_response : Option Portfolio → Db → Response PortfolioResponse
portfolio_response none db = not_found_404
portfolio_response (some p) db = ok_200 (record {
  portfolio_id = p.id;
  cash_balance = p.cash_balance;
  positions = positions_of p.id db.positions;
})

unfoldable pub get_portfolio : ℕ → Db → Response PortfolioResponse
get_portfolio user db = portfolio_response (get_portfolio_for_user user db) db

-- `list_trades`, before the pagination
unfoldable pub list_trades : ℕ → Db → List Trade
list_trades user db = listed (get_portfolio_for_user user db) db
