-- ===== src/Ledger/Invariant.antt =====
-- The well-formedness of the tables, and the updates that keep it.
use text.Mathlib.Text.{◌==◌ as str_eq}
use text.Mathlib.TextEquality.{eq_iff}
use djaskt_trading_app.Prelude.{
  ℕ, String, ap, ◌&&◌, ◌≡◌, ◌≢◌, refl, false, Option, none, some, List, [], ◌∷◌, arith, ◌==◌,
}
use djaskt_trading_app.Prelude.Int.{ℤ, pos, ◌≤ℤ◌}
use djaskt_trading_app.Prelude.Rows.{find, All}
use djaskt_trading_app.Ledger.Models.{
  Portfolio, Position, Trade, CashTransaction, Db, has_id, holds, trade_has_key,
  transaction_has_key, set_cash, set_quantity,
}
use djaskt_trading_app.Ledger.Trade.Effect.{held, with_row}

abbrev pub IsFunded : Portfolio → Type 0
IsFunded p = pos 0 ≤ℤ p.cash_balance

abbrev pub IsLong : Position → Type 0
IsLong p = pos 0 ≤ℤ p.quantity

-- No two entries have one idempotency key: the unique constraint.
abbrev pub UniqueTradeKeys : List Trade → Type 0
UniqueTradeKeys [] = Unit
UniqueTradeKeys (t ∷ ts) = (find (trade_has_key t.idempotency_key) ts ≡ none) × UniqueTradeKeys ts

abbrev pub UniqueTransactionKeys : List CashTransaction → Type 0
UniqueTransactionKeys [] = Unit
UniqueTransactionKeys (t ∷ ts) =
    (find (transaction_has_key t.idempotency_key) ts ≡ none) × UniqueTransactionKeys ts

-- No balance and no holding is negative, and the keys are unique.
pub record IsSound (db : Db) : Type 0 where
  pub funded : All IsFunded db.portfolios
  pub long : All IsLong db.positions
  pub trade_keys : UniqueTradeKeys db.trades
  pub transaction_keys : UniqueTransactionKeys db.cash_transactions

pub set_cash-IsFunded :
    (id : ℕ) (cash : ℤ) (ps : List Portfolio)
    → pos 0 ≤ℤ cash
    → All IsFunded ps
    → All IsFunded (set_cash id cash ps)
unfolding set_cash
set_cash-IsFunded id cash [] c h = tt
set_cash-IsFunded id cash (p ∷ ps) c h = ground (arith, set_cash-IsFunded id cash ps c h.1)

pub set_quantity-IsLong :
    (id : ℕ) (ticker : String) (u : ℤ) (ps : List Position)
    → pos 0 ≤ℤ u
    → All IsLong ps
    → All IsLong (set_quantity id ticker u ps)
unfolding set_quantity
set_quantity-IsLong id ticker u [] c h = tt
set_quantity-IsLong id ticker u (p ∷ ps) c h =
    ground (arith, set_quantity-IsLong id ticker u ps c h.1)

pub with_row-IsLong :
    (id : ℕ) (ticker : String) (o : Option Position) (ps : List Position)
    → All IsLong ps
    → All IsLong (with_row id ticker o ps)
with_row-IsLong id ticker none ps h = (omega arith, h)
with_row-IsLong id ticker (some p) ps h = h

pub held-nonneg :
    (id : ℕ) (ticker : String) (ps : List Position)
    → All IsLong ps
    → pos 0 ≤ℤ held (find (holds id ticker) ps)
held-nonneg id ticker [] h = omega arith
held-nonneg id ticker (p ∷ ps) h = ground (arith, held-nonneg id ticker ps h.1)

-- The balance of a portfolio after an update of the same or of another one.
pub find-set_cash_self :
    (id : ℕ) (cash : ℤ) (ps : List Portfolio) (p : Portfolio)
    → find (has_id id) ps ≡ some p
    → find (has_id id) (set_cash id cash ps) ≡ some (record p { cash_balance = cash })
unfolding set_cash
find-set_cash_self id cash [] p e = cc
find-set_cash_self id cash (x ∷ ps) p e = ground (arith, find-set_cash_self id cash ps p)

pub find-set_cash_ne :
    (id other : ℕ) (cash : ℤ) (ps : List Portfolio)
    → other ≢ id
    → find (has_id other) (set_cash id cash ps) ≡ find (has_id other) ps
unfolding set_cash
find-set_cash_ne id other cash [] h = refl
find-set_cash_ne id other cash (x ∷ ps) h = ground (arith, find-set_cash_ne id other cash ps h)

-- The holding of a portfolio and a ticker after an update of the same or of another one.
module _ (id : ℕ) (ticker : String) (u : ℤ) where
  held-set_quantity :
      (ps : List Position) (p : Position)
      → find (holds id ticker) ps ≡ some p
      → held (find (holds id ticker) (set_quantity id ticker u ps)) ≡ u
  unfolding set_quantity
  held-set_quantity [] p e = cc
  held-set_quantity (x ∷ ps) p e = ground (arith, held-set_quantity ps p)

  pub held-set_quantity_self :
      (ps : List Position) (o : Option Position)
      → find (holds id ticker) ps ≡ o
      → held (find (holds id ticker) (set_quantity id ticker u (with_row id ticker o ps))) ≡ u
  unfolding set_quantity
  held-set_quantity_self ps none e = ground (arith, eq_iff ticker ticker)
  held-set_quantity_self ps (some p) e = held-set_quantity ps p e

  module _ (id' : ℕ) (ticker' : String) (other : (id' == id && str_eq ticker' ticker) ≡ false) where
    find-set_quantity_ne :
        (ps : List Position)
        → find (holds id' ticker') (set_quantity id ticker u ps) ≡ find (holds id' ticker') ps
    unfolding set_quantity
    find-set_quantity_ne [] = refl
    find-set_quantity_ne (x ∷ ps) = ground (
      arith,
      find-set_quantity_ne ps,
      eq_iff x.ticker ticker,
      eq_iff x.ticker ticker',
      eq_iff ticker' ticker,
    )

    pub held-set_quantity_ne :
        (ps : List Position) (o : Option Position)
        → held (find (holds id' ticker') (set_quantity id ticker u (with_row id ticker o ps)))
          ≡ held (find (holds id' ticker') ps)
    unfolding set_quantity
    held-set_quantity_ne ps none =
        ground (arith, eq_iff ticker ticker, eq_iff ticker ticker', eq_iff ticker' ticker)
    held-set_quantity_ne ps (some p) = ap held (find-set_quantity_ne ps)
