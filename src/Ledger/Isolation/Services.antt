-- ===== src/Ledger/Isolation/Services.antt =====
-- A trade or a transfer of one portfolio is not seen by the user of another one.
use djaskt_trading_app.Prelude.{ℕ, ◌≡◌, ◌≢◌, refl, ap, ◌∙◌, arith, some, ◌∷◌}
use djaskt_trading_app.Prelude.Rows.{find-passes}
use djaskt_trading_app.Prelude.Action.{Result}
use djaskt_trading_app.Decimal.{Number}
use djaskt_trading_app.Ledger.Models.{Error, TradeType, Direction, Portfolio, Db, has_id}
use djaskt_trading_app.Ledger.Trade.{Env, TradeRequest, TradeInstance, TradeResult, execute_trade}
use djaskt_trading_app.Ledger.Trade.Effect.{Committed, row_of, trade_block-eq-ok, positions_after}
use djaskt_trading_app.Ledger.Trade.Written.{row_id, written_by}
use djaskt_trading_app.Ledger.Trade.Outcome.{
  TradeOutcome, rejected, replayed, executed, execute_trade_outcome,
}
use djaskt_trading_app.Ledger.Cash.{
  TransferRequest, TransactionInstance, CashTransferResult, apply_transfer,
}
use djaskt_trading_app.Ledger.Cash.Effect as CashEffect
use djaskt_trading_app.Ledger.Cash.Effect.{
  Transferred, transfer_block-eq-ok, TransferOutcome, apply_transfer_outcome,
}
use djaskt_trading_app.Ledger.Orchestrator.{get_portfolio_for_user}
use djaskt_trading_app.Ledger.Isolation.{
  SeesSame, unchanged, update_unseen, positions_of_other, filter_trades_other,
}

module _ (env : Env) (r : TradeRequest) (other : ℕ) (db : Db)
    (differs : (q : Portfolio)
      → get_portfolio_for_user other db ≡ some q
      → q.id ≢ r.portfolio_id) where
  Committed-SeesSame :
      (kind : TradeType) (price total : Number) (t : TradeInstance) (db' : Db)
      → Committed env r kind (env.parsers.upper r.ticker) price total db t db'
      → SeesSame other db db'
  Committed-SeesSame kind price total t db' c =
      let id = row_id env r kind (env.parsers.upper r.ticker) price total db c in
      let w = written_by env r kind (env.parsers.upper r.ticker) price total db c in
      let entry = row_of t c.inserted.quantity c.inserted.price c.inserted.total in
      let of_own : entry.portfolio ≡ c.row.id = ap (λ (i : TradeInstance). i.portfolio_id) c.made in
      update_unseen other c.row.id c.cash db
        (positions_after c.row.id (env.parsers.upper r.ticker) c.quantity db) (entry ∷ db.trades)
        db' (λ q e s. differs q e (s ∙ id))
        (λ n d.
          positions_of_other c.row.id n (env.parsers.upper r.ticker) c.quantity _ db.positions d)
        (λ n d. filter_trades_other n entry db.trades (λ s. d (s ∙ of_own)))
        (ap (λ (x : Db). x.portfolios) w) (ap (λ (x : Db). x.positions) w)
        (ap (λ (x : Db). x.trades) w)

  pub execute_trade-SeesSame : SeesSame other db (execute_trade env r db).1
  execute_trade-SeesSame = after (execute_trade_outcome env r db)
    where
      after : {x : Result Error TradeResult × Db} → TradeOutcome env r db x → SeesSame other db x.1
      after (rejected _) = unchanged other db db refl
      after (replayed kind t g f) = unchanged other db db refl
      after (executed kind price total t db₁ g f m v b) =
          Committed-SeesSame kind price total t db₁
            (trade_block-eq-ok env r kind _ price total db b)

module _ (env : Env) (r : TransferRequest) (other : ℕ) (db : Db)
    (differs : (q : Portfolio)
      → get_portfolio_for_user other db ≡ some q
      → q.id ≢ r.portfolio_id) where
  Transferred-SeesSame :
      (direction : Direction) (t : TransactionInstance) (db' : Db)
      → Transferred env r direction db t db'
      → SeesSame other db db'
  Transferred-SeesSame direction t db' c =
      let id : c.row.id ≡ r.portfolio_id =
        let k = find-passes (has_id r.portfolio_id) db.portfolios c.row c.found in ground arith in
      let w = c.inserted.written in
      let m = c.moved in
      update_unseen other c.row.id c.cash db db.positions db.trades db'
        (λ q e s. differs q e (s ∙ id)) (λ n d. refl) (λ n d. refl)
        (ap (λ (x : Db). x.portfolios) w ∙ ap (λ (x : Db). x.portfolios) m)
        (ap (λ (x : Db). x.positions) w ∙ ap (λ (x : Db). x.positions) m)
        (ap (λ (x : Db). x.trades) w ∙ ap (λ (x : Db). x.trades) m)

  pub apply_transfer-SeesSame : SeesSame other db (apply_transfer env r db).1
  apply_transfer-SeesSame = after (apply_transfer_outcome env r db)
    where
      after :
          {x : Result Error CashTransferResult × Db}
          → TransferOutcome env r db x
          → SeesSame other db x.1
      after (CashEffect.rejected _) = unchanged other db db refl
      after (CashEffect.replayed d t g f) = unchanged other db db refl
      after (CashEffect.executed d t db₁ g f b) =
          Transferred-SeesSame d t db₁ (transfer_block-eq-ok env r d db b)
