-- ===== src/Ledger/Trade/Outcome.antt =====
-- The ways in which `execute_trade` ends.
use djaskt_trading_app.Prelude.{◌≡◌, true, false, none, some, Option-cases, inl, inr, Bool-cases}
use djaskt_trading_app.Prelude.Action.{Result-cases, Result, ok, err, outcome}
use djaskt_trading_app.Decimal.{Number, is_nonpositive, times}
use djaskt_trading_app.Ledger.Models.{
  Error, TradeType, trade_type_of, Trade, Db, invalid_trade_request,
}
use djaskt_trading_app.Ledger.Price.{get_live_price}
use djaskt_trading_app.Ledger.Trade.{
  Env, TradeRequest, TradeInstance, TradeResult, of_row, find_trade, trade_block, fresh_trade,
  execute_trade,
}

-- A request that passes the two structural checks.
pub record IsWellFormed (r : TradeRequest) (kind : TradeType) : Type 0 where
  pub known : trade_type_of r.trade_type ≡ some kind
  pub positive : is_nonpositive r.quantity ≡ false

pub data TradeOutcome (env : Env) (r : TradeRequest) (db : Db)
    : Result Error TradeResult × Db → Type 0 where
  rejected : (e : Error) → TradeOutcome env r db (err e, db)
  replayed :
      (kind : TradeType) (t : Trade)
      → IsWellFormed r kind
      → find_trade r.idempotency_key db ≡ some t
      → TradeOutcome env r db (ok (record { trade = of_row t; is_replay = true }), db)
  executed :
      (kind : TradeType) (price total : Number) (t : TradeInstance) (db' : Db)
      → IsWellFormed r kind
      → find_trade r.idempotency_key db ≡ none
      → get_live_price env.parsers env.redis r.ticker ≡ ok price
      → times r.quantity price ≡ some total
      → trade_block env r kind (env.parsers.upper r.ticker) price total db ≡ (ok t, db')
      → TradeOutcome env r db (ok (record { trade = t; is_replay = false }), db')

module _ (env : Env) (r : TradeRequest) (db : Db) where
  fresh_trade_outcome :
      (kind : TradeType)
      → IsWellFormed r kind
      → find_trade r.idempotency_key db ≡ none
      → TradeOutcome env r db (fresh_trade env r kind db)
  unfolding fresh_trade
  fresh_trade_outcome kind w n =
      elim (Result-cases (get_live_price env.parsers env.redis r.ticker)) [
        | inr (e, p) ↦ rw p (rejected e)
        | inl (price, p) ↦ elim (Option-cases (times r.quantity price)) [
          | inl t ↦ rw (p, t) (rejected _)
          | inr (total, t) ↦
              elim (outcome (trade_block env r kind (env.parsers.upper r.ticker) price total db)) [
                | inr (e, s, b) ↦ rw (p, t, b) (rejected e)
                | inl (x, db', b) ↦ rw (p, t, b) (executed kind price total x db' w n p t b)
              ]
        ]
      ]

  -- A call raises and leaves the tables alone, or returns the trade that has its key and leaves them
  -- alone, or is well formed under a new key and commits one block at a live price.
  pub execute_trade_outcome : TradeOutcome env r db (execute_trade env r db)
  unfolding execute_trade
  execute_trade_outcome = elim (Option-cases (trade_type_of r.trade_type)) [
    | inl k ↦ rw k (rejected invalid_trade_request)
    | inr (kind, k) ↦ elim (Bool-cases (is_nonpositive r.quantity)) [
      | inl q ↦ rw (k, q) (rejected invalid_trade_request)
      | inr q ↦
          let w : IsWellFormed r kind = record { known = k; positive = q } in
          elim (Option-cases (find_trade r.idempotency_key db)) [
            | inl n ↦ rw (k, q, n) (fresh_trade_outcome kind w n)
            | inr (t, f) ↦ rw (k, q, f) (replayed kind t w f)
          ]
    ]
  ]
