-- ===== src/Ledger/Trade/Branch.antt =====
-- What the branch of a purchase or of a sale has done to the tables.
use djaskt_trading_app.Prelude.{
  ℕ, String, ◌≡◌, false, Option, none, some, List, ◌∷◌, arith, Option-cases, inl, inr,
}
use djaskt_trading_app.Prelude.Int.{ℤ, pos}
use djaskt_trading_app.Prelude.Action.{ok}
use djaskt_trading_app.Decimal.{Decimal, Number, finite, lt, lt_finite, plus, minus}
use djaskt_trading_app.Decimal.Laws.{of_units}
use djaskt_trading_app.Ledger.Models.{
  TradeType, buy, sell, Portfolio, Position, Db, LoadedPortfolio, set_quantity,
}
use djaskt_trading_app.Ledger.Trade.{
  Env, find_position, apply_buy, apply_sell, save_position, get_or_create_position,
}

-- The quantity that a portfolio holds of a ticker: 0 where there is no row.
abbrev pub held : Option Position → ℤ
held none = pos 0
held (some p) = p.quantity

abbrev pub held_quantity : ℕ → String → Db → ℤ
held_quantity portfolio ticker db = held (find_position portfolio ticker db)

-- The positions with a row for the portfolio and the ticker.
abbrev pub with_row : ℕ → String → Option Position → List Position → List Position
with_row portfolio ticker none ps =
    (record { portfolio = portfolio; ticker = ticker; quantity = pos 0 }) ∷ ps
with_row portfolio ticker (some _) ps = ps

module _ (env : Env) (portfolio : ℕ) (ticker : String) (db : Db) where
  save_position-eq-ok :
      (n : Number) {x : Unit {0}} {db' : Db}
      → save_position env portfolio ticker n db ≡ (ok x, db')
      → (u : ℤ) × (env.store n ≡ some u)
        × (db' ≡ record db { positions = set_quantity portfolio ticker u db.positions })
  unfolding save_position
  save_position-eq-ok n e = elim (Option-cases (env.store n)) [
    | inl bad ↦ ground arith
    | inr (u, p) ↦ (u, p, ground arith)
  ]

  get_or_create_position-eq-ok :
      {p : Position} {db' : Db}
      → get_or_create_position env portfolio ticker db ≡ (ok p, db')
      → (p.quantity ≡ held_quantity portfolio ticker db)
        × (db' ≡ record db {
          positions = with_row portfolio ticker (find_position portfolio ticker db) db.positions;
        })
  unfolding get_or_create_position
  get_or_create_position-eq-ok e = elim (Option-cases (find_position portfolio ticker db)) [
    | inl f ↦ ground arith
    | inr (p, f) ↦ ground arith
  ]

-- The balance and the quantity that a trade computes, before the columns hold them.
abbrev pub cash_after : TradeType → ℤ → Number → Number
cash_after buy cash total = minus (of_units cash) total
cash_after sell cash total = plus (of_units cash) total

abbrev pub quantity_after : TradeType → ℤ → Decimal → Number
quantity_after buy quantity q = plus (of_units quantity) (finite q)
quantity_after sell quantity q = minus (of_units quantity) (finite q)

-- The business rule of each branch.
abbrev pub Allowed : TradeType → ℤ → ℤ → Decimal → Number → Type 0
Allowed buy cash quantity q total = lt (of_units cash) total ≡ some false
Allowed sell cash quantity q total = lt_finite (of_units quantity) q ≡ false

abbrev pub loaded_after : TradeType → Portfolio → Number → LoadedPortfolio
loaded_after kind p total = record {
  id = p.id;
  user = p.user;
  cash_balance = cash_after kind p.cash_balance total;
}

abbrev pub positions_after : ℕ → String → ℤ → Db → List Position
positions_after portfolio ticker u db =
    set_quantity portfolio ticker u
      (with_row portfolio ticker (find_position portfolio ticker db) db.positions)

module _ (env : Env) (p : Portfolio) (ticker : String) (q : Decimal) (total : Number)
    (db : Db) where
  -- What a branch that did not raise has done.
  abbrev pub Applied : TradeType → LoadedPortfolio → Db → Type 0
  Applied kind lp db' =
      Allowed kind p.cash_balance (held_quantity p.id ticker db) q total
      × (lp ≡ loaded_after kind p total)
      × ((u : ℤ) × (env.store (quantity_after kind (held_quantity p.id ticker db) q) ≡ some u)
          × (db' ≡ record db { positions = positions_after p.id ticker u db }))

  pub apply_buy-eq-ok :
      {lp : LoadedPortfolio} {db' : Db}
      → apply_buy env p ticker q total db ≡ (ok lp, db')
      → Applied buy lp db'
  unfolding apply_buy
  apply_buy-eq-ok e = elim (Option-cases (lt (of_units p.cash_balance) total)) [
    | inl l ↦ ground arith
    | inr (b, l) ↦ elim (Option-cases (find_position p.id ticker db)) [
      | inl f ↦ elim (Option-cases (env.store (plus (of_units (pos 0)) (finite q)))) [
        | inl no_value ↦ ground arith
        | inr (u, st) ↦ (ground arith, ground arith, (u, rw f st, ground arith))
      ]
      | inr (x, f) ↦ elim (Option-cases (env.store (plus (of_units x.quantity) (finite q)))) [
        | inl no_value ↦ ground arith
        | inr (u, st) ↦ (ground arith, ground arith, (u, rw f st, ground arith))
      ]
    ]
  ]

  pub apply_sell-eq-ok :
      {lp : LoadedPortfolio} {db' : Db}
      → apply_sell env p ticker q total db ≡ (ok lp, db')
      → Applied sell lp db'
  unfolding apply_sell
  apply_sell-eq-ok e = elim (Option-cases (find_position p.id ticker db)) [
    | inl f ↦ ground arith
    | inr (x, f) ↦ elim (Option-cases (env.store (minus (of_units x.quantity) (finite q)))) [
      | inl no_value ↦ ground arith
      | inr (u, st) ↦ (ground arith, ground arith, (u, rw f st, ground arith))
    ]
  ]
