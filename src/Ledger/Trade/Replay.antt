-- ===== src/Ledger/Trade/Replay.antt =====
-- Atomicity and idempotency of `execute_trade`.
use djaskt_trading_app.Prelude.{String, ap, ◌≡◌, true, some, arith}
use djaskt_trading_app.Prelude.Action.{Result, ok, err}
use djaskt_trading_app.Decimal.{Number}
use djaskt_trading_app.Ledger.Models.{Error, TradeType, Trade, Db}
use djaskt_trading_app.Ledger.Trade.{
  Env, TradeRequest, TradeInstance, TradeResult, of_row, find_trade, execute_trade,
}
use djaskt_trading_app.Ledger.Trade.Effect.{Committed, row_of, trade_block-eq-ok}
use djaskt_trading_app.Ledger.Trade.Outcome.{
  IsWellFormed, TradeOutcome, rejected, replayed, executed, execute_trade_outcome,
}

-- A call that raises, whatever the error and wherever it is raised, leaves every table as it was.
pub execute_trade_atomic :
    (env : Env) (r : TradeRequest) (db db' : Db) (e : Error)
    → execute_trade env r db ≡ (err e, db')
    → db' ≡ db
execute_trade_atomic env r db db' e h = after (execute_trade_outcome env r db) h
  where
    after :
        {x : Result Error TradeResult × Db} → TradeOutcome env r db x → x ≡ (err e, db') → db' ≡ db
    after (rejected _) p = ground arith
    after (replayed kind t w f) p = cc
    after (executed kind price total t db₁ w n p m b) q = cc

-- A well-formed request under a key that a trade has, whatever its other fields, returns that trade
-- as a replay and leaves the tables alone; no price is looked up.
pub execute_trade_replays :
    (env : Env) (r : TradeRequest) (kind : TradeType) (db : Db) (t : Trade)
    → IsWellFormed r kind
    → find_trade r.idempotency_key db ≡ some t
    → execute_trade env r db ≡ (ok (record { trade = of_row t; is_replay = true }), db)
unfolding execute_trade
execute_trade_replays env r kind db t w f = rw (w.known, w.positive, f)

-- The entry that a committed block has written is found under the key of its request.
pub Committed-find_trade :
    (env : Env) (r : TradeRequest) (kind : TradeType) (ticker : String) (price total : Number)
    (db : Db) {t : TradeInstance} {db' : Db}
    → (c : Committed env r kind ticker price total db t db')
    → find_trade r.idempotency_key db'
      ≡ some (row_of t c.inserted.quantity c.inserted.price c.inserted.total)
Committed-find_trade env r kind ticker price total db c =
    let key = ap (λ (x : TradeInstance). x.idempotency_key) c.made in
    rw c.inserted.written (ground arith)

-- After a call that returned a trade, every well-formed request under the same key, at any time and
-- at any price, is a replay of that trade, by its id and its portfolio, and changes nothing.
pub execute_trade_once :
    (env env' : Env) (r r' : TradeRequest) (kind' : TradeType) (db db' : Db) (res : TradeResult)
    → execute_trade env r db ≡ (ok res, db')
    → IsWellFormed r' kind'
    → r'.idempotency_key ≡ r.idempotency_key
    → (t : Trade) × (execute_trade env' r' db'
        ≡ (ok (record { trade = of_row t; is_replay = true }), db'))
      × (t.id ≡ res.trade.id)
      × (t.portfolio ≡ res.trade.portfolio_id)
execute_trade_once env env' r r' kind' db db' res h w' same =
    after (execute_trade_outcome env r db) h
  where
    Again : Type 0
    Again =
        (t : Trade) × (execute_trade env' r' db'
          ≡ (ok (record { trade = of_row t; is_replay = true }), db'))
        × (t.id ≡ res.trade.id)
        × (t.portfolio ≡ res.trade.portfolio_id)

    after :
        {x : Result Error TradeResult × Db} → TradeOutcome env r db x → x ≡ (ok res, db') → Again
    after (rejected _) p = absurd (ground arith)
    after (replayed kind t w f) p =
        let e : db ≡ db' = ground arith in
        (
          t,
          execute_trade_replays env' r' kind' db' t w' (rw (same, ← e) f),
          ground arith,
          ground arith,
        )
    after (executed kind price total t db₁ w n p m b) q =
        let c = trade_block-eq-ok env r kind (env.parsers.upper r.ticker) price total db b in
        let f = Committed-find_trade env r kind (env.parsers.upper r.ticker) price total db c in
        let e : db₁ ≡ db' = ground arith in
        (
          row_of t c.inserted.quantity c.inserted.price c.inserted.total,
          execute_trade_replays env' r' kind' db' _ w' (rw (same, ← e) f),
          ground arith,
          ground arith,
        )
