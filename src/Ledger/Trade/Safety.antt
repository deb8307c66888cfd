-- ===== src/Ledger/Trade/Safety.antt =====
-- A trade keeps the tables well formed: it never overdraws and never oversells.
use mathlib.Core.Path.{subst}
use djaskt_trading_app.Prelude.{◌≡◌, String, Option, some, arith}
use djaskt_trading_app.Prelude.Int.{ℤ, pos, ◌≤ℤ◌}
use djaskt_trading_app.Prelude.Rows.{All-find}
use djaskt_trading_app.Prelude.Action.{Result}
use djaskt_trading_app.Decimal.{
  Decimal, Number, finite, infinity, neg_infinity, nan, lt, plus, minus, times, times_finite,
}
use djaskt_trading_app.Decimal.Laws.{
  IsNonneg, of_units, times_finite-IsNonneg, plus_finite-IsNonneg, minus_finite-IsNonneg,
  positive-IsNonneg,
}
use djaskt_trading_app.Ledger.Models.{Error, TradeType, buy, sell, Db, has_id}
use djaskt_trading_app.Ledger.Price.{IsLive, live_finite, live_infinity, get_live_price-IsLive}
use djaskt_trading_app.Ledger.Column.{IsColumn}
use djaskt_trading_app.Ledger.Invariant.{
  IsSound, IsFunded, set_cash-IsFunded, set_quantity-IsLong, with_row-IsLong, held-nonneg,
}
use djaskt_trading_app.Ledger.Trade.{Env, TradeRequest, TradeInstance, TradeResult, execute_trade}
use djaskt_trading_app.Ledger.Trade.Effect.{
  held_quantity, cash_after, quantity_after, Allowed, Committed, trade_block-eq-ok,
}
use djaskt_trading_app.Ledger.Trade.Outcome.{
  TradeOutcome, rejected, replayed, executed, execute_trade_outcome,
}

-- What a positive quantity comes to at a live price.
abbrev pub IsCharge : Number → Type 0
IsCharge (finite d) = IsNonneg d
IsCharge infinity = Unit
IsCharge neg_infinity = ⊥
IsCharge nan = ⊥

pub times-IsCharge :
    (q : Decimal) {price : Number} (total : Number)
    → pos 1 ≤ℤ q.coeff
    → IsLive price
    → times q price ≡ some total
    → IsCharge total
unfolding times
times-IsCharge q total h (live_finite d l) t =
    let e : finite (times_finite q d) ≡ total = cc in
    subst IsCharge e (times_finite-IsNonneg q d (omega arith) (omega arith))
times-IsCharge q infinity h live_infinity t = tt
times-IsCharge q (finite e) h live_infinity t = absurd (ground arith)
times-IsCharge q neg_infinity h live_infinity t = ground arith
times-IsCharge q nan h live_infinity t = ground arith

module _ (store : Number → Option ℤ) (column : IsColumn store) where
  -- The balance that the column holds after a trade that its branch allowed.
  cash_after-nonneg :
      (kind : TradeType) (cash quantity : ℤ) (q : Decimal) (total : Number) (u : ℤ)
      → pos 0 ≤ℤ cash
      → IsCharge total
      → Allowed kind cash quantity q total
      → store (cash_after kind cash total) ≡ some u
      → pos 0 ≤ℤ u
  unfolding lt plus minus
  cash_after-nonneg buy cash quantity q (finite d) u c t a s =
      column.keeps_sign _ u (minus_finite-IsNonneg (of_units cash) d (ground arith)) s
  cash_after-nonneg buy cash quantity q infinity u c t a s = cc
  cash_after-nonneg buy cash quantity q neg_infinity u c t a s = absurd t
  cash_after-nonneg buy cash quantity q nan u c t a s = absurd t
  cash_after-nonneg sell cash quantity q (finite d) u c t a s =
      column.keeps_sign _ u (plus_finite-IsNonneg (of_units cash) d c t) s
  cash_after-nonneg sell cash quantity q infinity u c t a s = cc (column.no_infinity)
  cash_after-nonneg sell cash quantity q neg_infinity u c t a s = absurd t
  cash_after-nonneg sell cash quantity q nan u c t a s = absurd t

  quantity_after-nonneg :
      (kind : TradeType) (cash quantity : ℤ) (q : Decimal) (total : Number) (u : ℤ)
      → pos 0 ≤ℤ quantity
      → IsNonneg q
      → Allowed kind cash quantity q total
      → store (quantity_after kind quantity q) ≡ some u
      → pos 0 ≤ℤ u
  unfolding plus minus
  quantity_after-nonneg buy cash quantity q total u h n a s =
      column.keeps_sign _ u (plus_finite-IsNonneg (of_units quantity) q h n) s
  quantity_after-nonneg sell cash quantity q total u h n a s =
      column.keeps_sign _ u (minus_finite-IsNonneg (of_units quantity) q a) s

-- A committed block keeps the tables sound.
pub Committed-IsSound :
    (env : Env) (r : TradeRequest) (kind : TradeType) (ticker : String) (price total : Number)
    (db : Db) {t : TradeInstance} {db' : Db}
    → IsColumn env.store
    → IsNonneg r.quantity
    → IsCharge total
    → IsSound db
    → Committed env r kind ticker price total db t db'
    → IsSound db'
Committed-IsSound env r kind ticker price total db column n ch s c =
    let cash : pos 0 ≤ℤ c.row.cash_balance =
      All-find IsFunded (has_id r.portfolio_id) db.portfolios c.row s.funded c.found in
    let q : pos 0 ≤ℤ held_quantity c.row.id ticker db =
      held-nonneg c.row.id ticker db.positions s.long in
    let cash' : pos 0 ≤ℤ c.cash =
      cash_after-nonneg env.store column kind _ _ r.quantity total c.cash cash ch c.allowed
        c.stored_cash in
    let q' : pos 0 ≤ℤ c.quantity =
      quantity_after-nonneg env.store column kind _ _ r.quantity total c.quantity q n c.allowed
        c.stored_quantity in
    let new = c.inserted.is_new in
    rw (c.inserted.written, c.moved)
      (record {
        funded = set_cash-IsFunded c.row.id c.cash db.portfolios cash' s.funded;
        long =
            set_quantity-IsLong c.row.id ticker c.quantity _ q'
              (with_row-IsLong c.row.id ticker _ db.positions s.long);
        trade_keys = (rw c.moved at new, s.trade_keys);
        transaction_keys = s.transaction_keys;
      })

-- From well-formed tables every call, whatever its request and however it ends, leaves well-formed
-- tables: no negative balance, no negative holding, no idempotency key twice.
pub execute_trade-IsSound :
    (env : Env) (r : TradeRequest) (db : Db)
    → IsColumn env.store
    → IsSound db
    → IsSound (execute_trade env r db).1
execute_trade-IsSound env r db column s = after (execute_trade_outcome env r db)
  where
    after : {x : Result Error TradeResult × Db} → TradeOutcome env r db x → IsSound x.1
    after (rejected e) = s
    after (replayed kind t w f) = s
    after (executed kind price total t db' w n p m b) =
        let q : pos 1 ≤ℤ r.quantity.coeff = positive-IsNonneg r.quantity w.positive in
        Committed-IsSound env r kind (env.parsers.upper r.ticker) price total db column
          (omega arith)
          (times-IsCharge r.quantity total q
            (get_live_price-IsLive env.parsers env.redis r.ticker price p).0 m)
          s (trade_block-eq-ok env r kind (env.parsers.upper r.ticker) price total db b)
