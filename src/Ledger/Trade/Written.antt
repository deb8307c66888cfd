-- ===== src/Ledger/Trade/Written.antt =====
-- The tables that a committed trade leaves, as one row change each.
use mathlib.Core.Path.{subst}
use djaskt_trading_app.Prelude.{String, ◌≡◌, ap, sym, ◌∙◌, some, ◌∷◌, arith}
use djaskt_trading_app.Prelude.Rows.{find, find-passes}
use djaskt_trading_app.Decimal.{Number}
use djaskt_trading_app.Ledger.Models.{TradeType, Db, has_id, set_cash}
use djaskt_trading_app.Ledger.Invariant.{find-set_cash_self}
use djaskt_trading_app.Ledger.Trade.{Env, TradeRequest, TradeInstance, find_portfolio}
use djaskt_trading_app.Ledger.Trade.Effect.{Committed, positions_after, row_of}

module _ (env : Env) (r : TradeRequest) (kind : TradeType) (ticker : String) (price total : Number)
    (db : Db) {t : TradeInstance} {db' : Db}
    (c : Committed env r kind ticker price total db t db') where
  pub row_id : c.row.id ≡ r.portfolio_id
  row_id =
      let passes = find-passes (has_id r.portfolio_id) db.portfolios c.row c.found in ground arith

  pub row_found : find_portfolio c.row.id db ≡ some c.row
  row_found = subst (λ k. find_portfolio k db ≡ some c.row) (sym row_id) c.found

  pub written_by : db' ≡ record db {
    portfolios = set_cash c.row.id c.cash db.portfolios;
    positions = positions_after c.row.id ticker c.quantity db;
    trades = row_of t c.inserted.quantity c.inserted.price c.inserted.total ∷ db.trades;
  }
  written_by =
      c.inserted.written
      ∙ ap
          (λ (b : Db). record b {
            trades = row_of t c.inserted.quantity c.inserted.price c.inserted.total ∷ b.trades;
          })
          c.moved

  -- The row of the portfolio afterwards.
  pub balance_written :
      find_portfolio r.portfolio_id db' ≡ some (record (c.row) { cash_balance = c.cash })
  balance_written =
      let self = find-set_cash_self c.row.id c.cash db.portfolios c.row row_found in
      let there =
        subst
          (λ k.
            find (has_id k) (set_cash c.row.id c.cash db.portfolios)
            ≡ some (record (c.row) { cash_balance = c.cash }))
          row_id self in
      rw written_by there
