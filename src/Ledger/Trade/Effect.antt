-- ===== src/Ledger/Trade/Effect.antt =====
-- What a committed trade has done to the tables.
use mathlib.Core.Path.{subst₂}
use djaskt_trading_app.Prelude.{String, ◌≡◌, none, some, ◌∷◌, arith, Option-cases, inl, inr}
use djaskt_trading_app.Prelude.Int.{ℤ}
use djaskt_trading_app.Prelude.Action.{ok, outcome}
use djaskt_trading_app.Decimal.{Number, finite}
use djaskt_trading_app.Ledger.Models.{
  TradeType, buy, sell, Portfolio, Trade, Db, LoadedPortfolio, set_cash,
}
use djaskt_trading_app.Ledger.Trade.{
  Env, TradeRequest, TradeInstance, find_portfolio, find_trade, apply_trade, insert_trade,
  save_portfolio, trade_block,
}
pub use djaskt_trading_app.Ledger.Trade.Branch.{
  held, held_quantity, with_row, cash_after, quantity_after, Allowed, loaded_after, positions_after,
  Applied, apply_buy-eq-ok, apply_sell-eq-ok,
}

-- The row that a trade's INSERT writes, given what the columns hold.
abbrev pub row_of : TradeInstance → ℤ → ℤ → ℤ → Trade
row_of t quantity price total = record {
  id = t.id;
  idempotency_key = t.idempotency_key;
  portfolio = t.portfolio_id;
  ticker = t.ticker;
  trade_type = t.trade_type;
  quantity = quantity;
  price = price;
  total_value = total;
  timestamp = t.timestamp;
}

-- What an INSERT that was not refused has done.
pub record Inserted (env : Env) (t : TradeInstance) (db db' : Db) : Type 0 where
  pub quantity : ℤ
  pub price : ℤ
  pub total : ℤ
  pub stored_quantity : env.store t.quantity ≡ some quantity
  pub stored_price : env.store t.price ≡ some price
  pub stored_total : env.store t.total_value ≡ some total
  pub is_new : find_trade t.idempotency_key db ≡ none
  pub written : db' ≡ record db { trades = row_of t quantity price total ∷ db.trades }

module _ (env : Env) (t : TradeInstance) (db : Db) where
  insert_trade-eq-ok :
      {x : Unit {0}} {db' : Db} → insert_trade env t db ≡ (ok x, db') → Inserted env t db db'
  unfolding insert_trade
  insert_trade-eq-ok e = elim (Option-cases (env.store t.quantity)) [
    | inl no_value ↦ absurd (ground arith)
    | inr (q, sq) ↦ elim (Option-cases (env.store t.price)) [
      | inl no_value ↦ absurd (ground arith)
      | inr (p, sp) ↦ elim (Option-cases (env.store t.total_value)) [
        | inl no_value ↦ absurd (ground arith)
        | inr (v, sv) ↦ record {
          quantity = q;
          price = p;
          total = v;
          stored_quantity = sq;
          stored_price = sp;
          stored_total = sv;
          is_new = ground arith;
          written = ground arith;
        }
      ]
    ]
  ]

pub save_portfolio-eq-ok :
    (env : Env) (lp : LoadedPortfolio) (db : Db) {x : Unit {0}} {db' : Db}
    → save_portfolio env lp db ≡ (ok x, db')
    → (c : ℤ) × (env.store lp.cash_balance ≡ some c)
      × (db' ≡ record db { portfolios = set_cash lp.id c db.portfolios })
unfolding save_portfolio
save_portfolio-eq-ok env lp db e = elim (Option-cases (env.store lp.cash_balance)) [
  | inl bad ↦ absurd (ground arith)
  | inr (u, p) ↦ (u, p, ground arith)
]

-- The instance that the block makes of the portfolio that its branch returned.
abbrev pub instance_of :
    Env → TradeRequest → TradeType → String → Number → Number → LoadedPortfolio → TradeInstance
instance_of env r kind ticker price total lp = record {
  id = env.new_id;
  idempotency_key = r.idempotency_key;
  portfolio_id = lp.id;
  portfolio = some lp;
  ticker = ticker;
  trade_type = kind;
  quantity = finite r.quantity;
  price = price;
  total_value = total;
  timestamp = env.now;
}

module _ (env : Env) (r : TradeRequest) (kind : TradeType) (ticker : String)
    (price total : Number) where
  -- What a committed block has done.
  pub record Committed (db : Db) (t : TradeInstance) (db' : Db) : Type 0 where
    pub row : Portfolio
    pub found : find_portfolio r.portfolio_id db ≡ some row
    pub allowed : Allowed kind row.cash_balance (held_quantity row.id ticker db) r.quantity total
    pub made : t ≡ instance_of env r kind ticker price total (loaded_after kind row total)
    pub cash : ℤ
    pub stored_cash : env.store (cash_after kind row.cash_balance total) ≡ some cash
    pub quantity : ℤ
    pub stored_quantity :
        env.store (quantity_after kind (held_quantity row.id ticker db) r.quantity) ≡ some quantity
    pub before_insert : Db
    pub moved : before_insert ≡ record db {
      portfolios = set_cash row.id cash db.portfolios;
      positions = positions_after row.id ticker quantity db;
    }
    pub inserted : Inserted env t before_insert db'

  apply_trade-eq-ok :
      (p : Portfolio) (db : Db) {lp : LoadedPortfolio} {db' : Db}
      → apply_trade env kind p ticker r.quantity total db ≡ (ok lp, db')
      → Applied env p ticker r.quantity total db kind lp db'
  unfolding apply_trade
  apply_trade-eq-ok p db = by_kind kind
    where
      by_kind :
          (k : TradeType) {lp : LoadedPortfolio} {db' : Db}
          → apply_trade env k p ticker r.quantity total db ≡ (ok lp, db')
          → Applied env p ticker r.quantity total db k lp db'
      by_kind buy e = apply_buy-eq-ok env p ticker r.quantity total db e
      by_kind sell e = apply_sell-eq-ok env p ticker r.quantity total db e

  -- Every block that commits has these effects and no other.
  pub trade_block-eq-ok :
      (db : Db) {t : TradeInstance} {db' : Db}
      → trade_block env r kind ticker price total db ≡ (ok t, db')
      → Committed db t db'
  unfolding trade_block
  trade_block-eq-ok db e = elim (Option-cases (find_portfolio r.portfolio_id db)) [
    | inl f ↦ absurd (ground arith)
    | inr (row, f) ↦ elim (outcome (apply_trade env kind row ticker r.quantity total db)) [
      | inr (x, s, bad) ↦ absurd (ground arith)
      | inl (lp, db₁, applied) ↦ elim (outcome (save_portfolio env lp db₁)) [
        | inr (x, s, bad) ↦ absurd (ground arith)
        | inl (x, db₂, saved) ↦
            let t' = instance_of env r kind ticker price total lp in
            elim (outcome (insert_trade env t' db₂)) [
              | inr (y, s, bad) ↦ absurd (ground arith)
              | inl (y, db₃, added) ↦
                  let (rule, same, moved₁) = apply_trade-eq-ok row db applied in
                  let (u, su, w₁) = moved₁ in
                  let (c, sc, w₂) = save_portfolio-eq-ok env lp db₁ saved in
                  record {
                    row = row;
                    found = f;
                    allowed = rule;
                    made = ground arith;
                    cash = c;
                    stored_cash = ground arith;
                    quantity = u;
                    stored_quantity = su;
                    before_insert = db₂;
                    moved = ground arith;
                    inserted =
                        subst₂ (λ a b. Inserted env a db₂ b) (ground arith) (ground arith)
                          (insert_trade-eq-ok env t' db₂ added);
                  }
            ]
      ]
    ]
  ]
