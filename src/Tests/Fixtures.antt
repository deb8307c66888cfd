-- ===== src/Tests/Fixtures.antt =====
-- Test data: one user with a deposit of 1000, and AAPL quoted at 100.5.
use text.Mathlib.Text.{◌==◌ as str_eq}
use djaskt_trading_app.Prelude.{String, Option, none, some, [], ◌∷◌, if◌then◌else◌}
use djaskt_trading_app.Prelude.Int.{pos}
use djaskt_trading_app.Decimal.{Decimal, Number, finite}
use djaskt_trading_app.Ledger.Models.{Db, Portfolio, CashTransaction, credit}
use djaskt_trading_app.Ledger.Price.{Parsers, present, object, number}
use djaskt_trading_app.Ledger.Trade.{Env, TradeRequest}
use djaskt_trading_app.Ledger.Cash.{TransferRequest}
use djaskt_trading_app.Ledger.Orchestrator.{World}
use djaskt_trading_app.Tests.Numeric.{numeric}

abbrev pub quote : Decimal
quote = record { coeff = pos 1005; places = 1 }

abbrev parse_decimal : String → Option Number
parse_decimal t = if str_eq t "100.5" then some (finite quote) else none

abbrev pub parsers : Parsers
parsers = record {
  json_loads = λ raw. some (object (some (number raw)));
  decimal = parse_decimal;
  upper = λ s. s;
}

abbrev pub env : Env
env = record {
  parsers = parsers;
  redis = λ key. present "100.5";
  store = numeric;
  new_id = 9;
  now = 77;
}

abbrev pub row : Portfolio
row = record { id = 1; user = 7; cash_balance = pos 10_000_000 }

abbrev pub deposit : CashTransaction
deposit = record {
  id = 2;
  idempotency_key = 500;
  portfolio = 1;
  direction = credit;
  amount = pos 10_000_000;
  resulting_balance = pos 10_000_000;
  timestamp = 70;
}

abbrev pub db : Db
db = record { portfolios = row ∷ []; positions = []; trades = []; cash_transactions = deposit ∷ [] }

abbrev pub two : Decimal
two = record { coeff = pos 2; places = 0 }

-- Two AAPL cost 201.0.
abbrev pub cost : Decimal
cost = record { coeff = pos 2010; places = 1 }

abbrev pub buy_two : TradeRequest
buy_two = record {
  portfolio_id = 1;
  ticker = "AAPL";
  trade_type = "BUY";
  quantity = two;
  idempotency_key = 600;
}

abbrev pub sell_two : TradeRequest
sell_two = record {
  portfolio_id = 1;
  ticker = "AAPL";
  trade_type = "SELL";
  quantity = two;
  idempotency_key = 601;
}

abbrev pub withdraw : TransferRequest
withdraw = record { portfolio_id = 1; direction = "DEBIT"; amount = cost; idempotency_key = 700 }

abbrev pub world : World
world = record { db = db; sent = [] }
