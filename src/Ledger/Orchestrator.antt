-- ===== src/Ledger/Orchestrator.antt =====
-- ledger/services/main_service.py: `LedgerOrchestratorService`, and ledger/services/authorization.py.
-- The channel layer is outside: it is absent, or takes a group's message, or fails.
pub mod Laws
use Prim.Native.String.{◌++◌ as append}
use djaskt_trading_app.Prelude.{
  ℕ, String, Bool, true, false, ◌&&◌, Option, none, some, List, [], ◌∷◌, ◌==◌, if◌then◌else◌,
}
use djaskt_trading_app.Prelude.Int.{ℤ, pos}
use djaskt_trading_app.Prelude.Rows.{find}
use djaskt_trading_app.Prelude.Action.{
  Result, ok, err, Action, pure, raise, gets, modify, if_some, ◌>>=◌, ◌>>◌,
}
use djaskt_trading_app.Decimal.{Decimal, Number, finite}
use djaskt_trading_app.Decimal.Laws.{of_units}
use djaskt_trading_app.Ledger.Models.{
  Error, integrity_error, channel_error, Portfolio, Position, Db, LoadedPortfolio, for_user, has_id,
}
use djaskt_trading_app.Ledger.Trade.{Env, TradeRequest, TradeInstance, TradeResult, execute_trade}
use djaskt_trading_app.Ledger.Cash.{
  TransferRequest, TransactionInstance, CashTransferResult, apply_transfer,
}

-- `get_channel_layer()`
pub data ChannelLayer : Type 0 where
  absent working failing : ChannelLayer

pub data Latest : Type 0 where
  latest_trade : TradeInstance → Latest
  latest_cash_transaction : TransactionInstance → Latest

-- The event that is sent to the group of a portfolio.
pub record Update : Type 0 where
  pub portfolio_id : ℕ
  pub cash_balance : Number
  pub positions : List (String × Decimal)
  pub latest : Latest

-- The database, and the events sent so far, the latest first.
pub record World : Type 0 where
  pub db : Db
  pub sent : List Update

-- A call that works on the database alone.
abbrev pub with_db : {A : Type 0} → Result Error A × Db → World → Result Error A × World
with_db (r, db) w = (r, record w { db = db })

abbrev pub on_db : {A : Type 0} → Action Db Error A → Action World Error A
on_db m w = with_db (m w.db) w

-- `Position.objects.filter(portfolio=portfolio)`, each with its ticker and quantity
unfoldable pub positions_of : ℕ → List Position → List (String × Decimal)
positions_of id [] = []
positions_of id (p ∷ ps) =
    let rest = positions_of id ps in
    if p.portfolio == id then (p.ticker, of_units p.quantity) ∷ rest else rest

unfoldable pub broadcast_portfolio_update :
    ChannelLayer → LoadedPortfolio → Latest → Action World Error (Unit {0})
broadcast_portfolio_update absent p latest = pure tt
broadcast_portfolio_update failing p latest = raise channel_error
broadcast_portfolio_update working p latest = modify (λ w. record w {
  sent =
      (record {
        portfolio_id = p.id;
        cash_balance = p.cash_balance;
        positions = positions_of p.id w.db.positions;
        latest = latest;
      })
      ∷ w.sent;
})

-- The broadcast of a committed change: only of one that was made in this call.
unfoldable pub broadcast_unless_replay :
    ChannelLayer → Bool → Option LoadedPortfolio → Latest → Action World Error (Unit {0})
broadcast_unless_replay layer true p latest = pure tt
broadcast_unless_replay layer false none latest = pure tt
broadcast_unless_replay layer false (some p) latest = broadcast_portfolio_update layer p latest

module _ (layer : ChannelLayer) (env : Env) where
  unfoldable pub submit_trade : TradeRequest → Action World Error TradeResult
  submit_trade r = do
    result ← on_db (execute_trade env r)
    broadcast_unless_replay layer result.is_replay result.trade.portfolio
        (latest_trade result.trade)
    pure result

  unfoldable pub submit_cash_transfer : TransferRequest → Action World Error CashTransferResult
  submit_cash_transfer r = do
    result ← on_db (apply_transfer env r)
    broadcast_unless_replay layer result.is_replay result.transaction.portfolio
        (latest_cash_transaction result.transaction)
    pure result

-- `get_portfolio_for_user`
unfoldable pub get_portfolio_for_user : ℕ → Db → Option Portfolio
get_portfolio_for_user user db = find (for_user user) db.portfolios

-- `get_owned_portfolio_or_none`
unfoldable pub get_owned_portfolio_or_none : ℕ → ℕ → Db → Option Portfolio
get_owned_portfolio_or_none user id db = find (λ p. for_user user p && has_id id p) db.portfolios

-- `create_user_portfolio`: the one-to-one field is unique.
unfoldable pub create_user_portfolio : ℕ → ℕ → Action Db Error Portfolio
create_user_portfolio new_id user = do
  same ← gets (get_portfolio_for_user user)
  if_some same (λ _. raise integrity_error)
      (do
        let p : Portfolio = record { id = new_id; user = user; cash_balance = pos 0 }
        modify (λ db. record db { portfolios = p ∷ db.portfolios })
        pure p)
