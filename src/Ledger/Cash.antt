-- ===== src/Ledger/Cash.antt =====
-- ledger/services/cash_service.py: `CashTransferService.apply_transfer`.
pub mod Effect
pub mod Laws
pub mod Reconciled
use djaskt_trading_app.Prelude.{
  ℕ, String, Bool, true, false, Option, none, some, ◌∷◌, if◌then◌else◌,
}
use djaskt_trading_app.Prelude.Int.{ℤ}
use djaskt_trading_app.Prelude.Rows.{find}
use djaskt_trading_app.Prelude.Action.{
  Action, pure, raise, gets, or_raise, raise_if, modify, atomic, if_some, ◌>>=◌, ◌>>◌,
}
use djaskt_trading_app.Decimal.{
  Decimal, Number, finite, is_nonpositive, lt_finite, plus_finite, minus_finite,
}
use djaskt_trading_app.Decimal.Laws.{of_units}
use djaskt_trading_app.Ledger.Models.{
  Error, portfolio_not_found, insufficient_funds, invalid_trade_request, integrity_error, Direction,
  credit, debit, direction_of, Portfolio, CashTransaction, Db, LoadedPortfolio, transaction_has_key,
  save_immutable,
}
use djaskt_trading_app.Ledger.Trade.{Env, find_portfolio, to_column, save_portfolio}

pub record TransferRequest : Type 0 where
  pub portfolio_id : ℕ
  pub direction : String
  pub amount : Decimal
  pub idempotency_key : ℕ

-- A `CashTransaction` in memory; a new one keeps the decimals that it was made of and its portfolio
-- object.
pub record TransactionInstance : Type 0 where
  pub id : ℕ
  pub idempotency_key : ℕ
  pub portfolio_id : ℕ
  pub portfolio : Option LoadedPortfolio
  pub direction : Direction
  pub amount : Decimal
  pub resulting_balance : Decimal
  pub timestamp : ℕ

pub record CashTransferResult : Type 0 where
  pub transaction : TransactionInstance
  pub is_replay : Bool

abbrev pub of_row : CashTransaction → TransactionInstance
of_row t = record {
  id = t.id;
  idempotency_key = t.idempotency_key;
  portfolio_id = t.portfolio;
  portfolio = none;
  direction = t.direction;
  amount = of_units t.amount;
  resulting_balance = of_units t.resulting_balance;
  timestamp = t.timestamp;
}

abbrev pub find_transaction : ℕ → Db → Option CashTransaction
find_transaction key db = find (transaction_has_key key) db.cash_transactions

-- The balance in memory after the branch of the direction.
unfoldable pub new_balance : Direction → Portfolio → Decimal → Action Db Error Decimal
new_balance credit p amount = pure (plus_finite (of_units p.cash_balance) amount)
new_balance debit p amount = do
  raise_if (lt_finite (of_units p.cash_balance) amount) insufficient_funds
  pure (minus_finite (of_units p.cash_balance) amount)

module _ (env : Env) where
  unfoldable pub insert_transaction : TransactionInstance → Action Db Error (Unit {0})
  insert_transaction t = do
    amount ← to_column env (finite t.amount)
    balance ← to_column env (finite t.resulting_balance)
    same ← gets (find_transaction t.idempotency_key)
    if_some same (λ _. raise integrity_error)
        (modify (λ db. record db {
          cash_transactions =
              (record {
                id = t.id;
                idempotency_key = t.idempotency_key;
                portfolio = t.portfolio_id;
                direction = t.direction;
                amount = amount;
                resulting_balance = balance;
                timestamp = t.timestamp;
              })
              ∷ db.cash_transactions;
        }))

  -- The block under `transaction.atomic()`.
  unfoldable pub transfer_block : TransferRequest → Direction → Action Db Error TransactionInstance
  unfolding save_immutable
  transfer_block r direction = do
    row ← or_raise (← gets (find_portfolio r.portfolio_id)) portfolio_not_found
    balance ← new_balance direction row r.amount
    let portfolio : LoadedPortfolio = record {
      id = row.id;
      user = row.user;
      cash_balance = finite balance;
    }
    save_portfolio env portfolio
    let transaction : TransactionInstance = record {
      id = env.new_id;
      idempotency_key = r.idempotency_key;
      portfolio_id = row.id;
      portfolio = some portfolio;
      direction = direction;
      amount = r.amount;
      resulting_balance = balance;
      timestamp = env.now;
    }
    save_immutable true (insert_transaction transaction)
    pure transaction

  unfoldable pub apply_transfer : TransferRequest → Action Db Error CashTransferResult
  apply_transfer r = do
    direction ← or_raise (direction_of r.direction) invalid_trade_request
    raise_if (is_nonpositive r.amount) invalid_trade_request
    existing ← gets (find_transaction r.idempotency_key)
    if_some existing (λ t. pure (record { transaction = of_row t; is_replay = true }))
        (do
          transaction ← atomic (transfer_block r direction)
          pure (record { transaction = transaction; is_replay = false }))
