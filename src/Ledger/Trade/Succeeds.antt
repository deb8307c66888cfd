-- ===== src/Ledger/Trade/Succeeds.antt =====
-- When a trade is made.
use native.Mathlib.Nat.{pow-suc}
use djaskt_trading_app.Prelude.{
  zero, suc, ◌*◌, ◌^◌, ℕ, String, refl, ◌≡◌, arith, ◌<◌, true, false, none, some, Option-cases, inl,
  inr, ◌∷◌,
}
use djaskt_trading_app.Prelude.Int.{ℤ, pos, negsuc, scale, leb_ℤ, ltb_ℤ}
use djaskt_trading_app.Prelude.Action.{ok}
use djaskt_trading_app.Decimal.{Decimal, Number, finite, lt_finite, coeff_at, is_nonpositive, times}
use djaskt_trading_app.Decimal.Laws.{of_units}
use djaskt_trading_app.Ledger.Models.{TradeType, buy, sell, Portfolio, Db, set_cash}
use djaskt_trading_app.Ledger.Price.{get_live_price}
use djaskt_trading_app.Ledger.Trade.{
  Env, TradeRequest, TradeInstance, find_portfolio, find_position, find_trade, fits_ticker,
  apply_buy, apply_sell, apply_trade, get_or_create_position, save_position, save_portfolio,
  insert_trade, trade_block, fresh_trade, execute_trade,
}
use djaskt_trading_app.Ledger.Trade.Effect.{
  held_quantity, cash_after, quantity_after, Allowed, loaded_after, positions_after, instance_of,
  row_of,
}
use djaskt_trading_app.Ledger.Trade.Outcome.{IsWellFormed}

-- What the columns hold of everything that a trade writes.
pub record IsStored (env : Env) (r : TradeRequest) (kind : TradeType) (price total : Number)
    (row : Portfolio) (db : Db) : Type 0 where
  pub cash : ℤ
  pub holding : ℤ
  pub quantity : ℤ
  pub unit_price : ℤ
  pub value : ℤ
  pub stored_cash : env.store (cash_after kind row.cash_balance total) ≡ some cash
  pub stored_holding :
      env.store
        (quantity_after kind (held_quantity row.id (env.parsers.upper r.ticker) db) r.quantity)
      ≡ some holding
  pub stored_quantity : env.store (finite r.quantity) ≡ some quantity
  pub stored_price : env.store price ≡ some unit_price
  pub stored_value : env.store total ≡ some value
  pub short_ticker : fits_ticker (env.parsers.upper r.ticker) ≡ true

pow_pos : (k : ℕ) → 0 < 10 ^ k
pow_pos zero = omega arith
pow_pos (suc k) = let e = pow-suc 10 k in let h = pow_pos k in omega arith

positive_scaled :
    (z : ℤ) (j k : ℕ) → 0 < k → leb_ℤ z (pos 0) ≡ false → ltb_ℤ (scale (pos 0) j) (scale z k) ≡ true
unfolding scale
positive_scaled (pos n) j k h p = let q : 0 < n * k = grind arith in ground arith
positive_scaled (negsuc n) j k h p = absurd (ground arith)

-- A positive quantity is more than a holding of nothing.
lt_zero : (q : Decimal) → is_nonpositive q ≡ false → lt_finite (of_units (pos 0)) q ≡ true
unfolding is_nonpositive lt_finite coeff_at
lt_zero q h = positive_scaled q.coeff _ _ (pow_pos _) h

module _ (env : Env) (r : TradeRequest) (p : Portfolio) (ticker : String) (q : Decimal)
    (total : Number) (db : Db) (u : ℤ) where
  Applies : TradeType → Type 0
  Applies kind =
      apply_trade env kind p ticker q total db
      ≡ (ok (loaded_after kind p total), record db { positions = positions_after p.id ticker u db })

  buy_applies :
      Allowed buy p.cash_balance (held_quantity p.id ticker db) q total
      → fits_ticker ticker ≡ true
      → env.store (quantity_after buy (held_quantity p.id ticker db) q) ≡ some u
      → Applies buy
  unfolding apply_trade apply_buy get_or_create_position save_position Applies
  buy_applies a s h = elim (Option-cases (find_position p.id ticker db)) [
    | inl f ↦ ground arith
    | inr (x, f) ↦ ground arith
  ]

  sell_applies :
      is_nonpositive q ≡ false
      → Allowed sell p.cash_balance (held_quantity p.id ticker db) q total
      → env.store (quantity_after sell (held_quantity p.id ticker db) q) ≡ some u
      → Applies sell
  unfolding apply_trade apply_sell save_position Applies
  sell_applies n a h = elim (Option-cases (find_position p.id ticker db)) [
    | inl f ↦ let z = lt_zero q n in absurd (ground arith)
    | inr (x, f) ↦ ground arith
  ]

  applies :
      (kind : TradeType)
      → is_nonpositive q ≡ false
      → Allowed kind p.cash_balance (held_quantity p.id ticker db) q total
      → fits_ticker ticker ≡ true
      → env.store (quantity_after kind (held_quantity p.id ticker db) q) ≡ some u
      → Applies kind
  applies buy n a s h = buy_applies a s h
  applies sell n a s h = sell_applies n a h

-- A well-formed request under a new key, with a live price, of a portfolio that is there, whose cash or
-- holding allows it, and whose values the columns hold, makes a trade: the call returns it as fresh.
pub execute_trade_succeeds :
    (env : Env) (r : TradeRequest) (kind : TradeType) (price total : Number) (row : Portfolio)
    (db : Db)
    → IsWellFormed r kind
    → find_trade r.idempotency_key db ≡ none
    → get_live_price env.parsers env.redis r.ticker ≡ ok price
    → times r.quantity price ≡ some total
    → find_portfolio r.portfolio_id db ≡ some row
    → Allowed kind row.cash_balance
        (held_quantity row.id (env.parsers.upper r.ticker) db)
        r.quantity
        total
    → IsStored env r kind price total row db
    → (t : TradeInstance) × (db' : Db) × (execute_trade env r db
        ≡ (ok (record { trade = t; is_replay = false }), db'))
unfolding execute_trade fresh_trade trade_block save_portfolio insert_trade Applies
execute_trade_succeeds env r kind price total row db w n p m f a s =
    let e =
      applies env r row (env.parsers.upper r.ticker) r.quantity total db s.holding kind w.positive a
        s.short_ticker s.stored_holding in
    (
      instance_of env r kind (env.parsers.upper r.ticker) price total (loaded_after kind row total),
      record db {
        portfolios = set_cash row.id s.cash db.portfolios;
        positions = positions_after row.id (env.parsers.upper r.ticker) s.holding db;
        trades =
            row_of
              (instance_of env r kind (env.parsers.upper r.ticker) price total
                (loaded_after kind row total))
              s.quantity s.unit_price s.value
            ∷ db.trades;
      },
      rw
          (
            w.known, w.positive, n, p, m, f, e, s.stored_cash, s.stored_quantity, s.stored_price,
            s.stored_value, s.short_ticker, n,
          )
          refl,
    )
