-- ===== src/Ledger/Overlap/Race.antt =====
-- Two calls with one key that both find it new.
use djaskt_trading_app.Prelude.{refl, ◌≡◌, inl, inr, some}
use djaskt_trading_app.Prelude.Action.{err, outcome}
use djaskt_trading_app.Decimal.{Number}
use djaskt_trading_app.Ledger.Models.{Error, TradeType, Trade, Db}
use djaskt_trading_app.Ledger.Trade.{Env, TradeRequest, find_trade, trade_block}
use djaskt_trading_app.Ledger.Overlap.{trade_job, priced, traded, trade_ends, commit_trade, advance}
use djaskt_trading_app.Ledger.Overlap.Pieces.{trade_block-is_new}

-- A trade that found its key new, and whose key another call has entered before its block, ends with an
-- error, never with that entry as a replay, and changes nothing.
pub late_duplicate_fails :
    (env : Env) (r : TradeRequest) (kind : TradeType) (price total : Number) (db : Db) (t : Trade)
    → find_trade r.idempotency_key db ≡ some t
    → (e : Error) × (advance (trade_job env r) (priced kind price total) db ≡ (traded (err e), db))
unfolding advance commit_trade trade_ends
late_duplicate_fails env r kind price total db t f =
    elim (outcome (trade_block env r kind (env.parsers.upper r.ticker) price total db)) [
      | inr (e, db', b) ↦ (e, rw (b, commit_trade) refl)
      | inl (i, db', b) ↦
          let n = trade_block-is_new env r kind _ price total db db' i b in absurd (cc)
    ]
