-- ===== src/Ledger/History.antt =====
-- The balance and the holdings that the append-only entries add up to.
use text.Mathlib.Text.{◌==◌ as str_eq}
use djaskt_trading_app.Prelude.{
  Bool-cases, inl, inr, ℕ, String, refl, ap, ◌∙◌, ◌≡◌, ◌&&◌, some, List, [], ◌∷◌, ◌==◌,
  if◌then◌else◌,
}
use djaskt_trading_app.Prelude.Int.{ℤ, pos, ◌+ℤ◌, ◌-ℤ◌, int_laws}
use djaskt_trading_app.Ledger.Models.{
  TradeType, buy, sell, Direction, credit, debit, Portfolio, Trade, CashTransaction, Db,
}
use djaskt_trading_app.Ledger.Trade.{find_portfolio}
use djaskt_trading_app.Ledger.Trade.Effect.{held_quantity}

-- What a trade does to the cash and to the holding.
abbrev pub add_cash : TradeType → ℤ → ℤ → ℤ
add_cash buy value sum = sum -ℤ value
add_cash sell value sum = sum +ℤ value

abbrev pub add_quantity : TradeType → ℤ → ℤ → ℤ
add_quantity buy quantity sum = sum +ℤ quantity
add_quantity sell quantity sum = sum -ℤ quantity

abbrev pub add_transfer : Direction → ℤ → ℤ → ℤ
add_transfer credit amount sum = sum +ℤ amount
add_transfer debit amount sum = sum -ℤ amount

-- The deposits less the withdrawals.
abbrev pub transferred : ℕ → List CashTransaction → ℤ
transferred id [] = pos 0
transferred id (t ∷ ts) =
    if t.portfolio == id
    then add_transfer t.direction t.amount (transferred id ts)
    else transferred id ts

-- With the sales, less the purchases, on top of what was transferred.
abbrev pub traded : ℕ → ℤ → List Trade → ℤ
traded id start [] = start
traded id start (t ∷ ts) =
    if t.portfolio == id
    then add_cash t.trade_type t.total_value (traded id start ts)
    else traded id start ts

abbrev pub balance_of_entries : ℕ → Db → ℤ
balance_of_entries id db = traded id (transferred id db.cash_transactions) db.trades

abbrev pub holding_of_entries : ℕ → String → List Trade → ℤ
holding_of_entries id ticker [] = pos 0
holding_of_entries id ticker (t ∷ ts) =
    if t.portfolio == id && str_eq t.ticker ticker
    then add_quantity t.trade_type t.quantity (holding_of_entries id ticker ts)
    else holding_of_entries id ticker ts

-- Every balance and every holding is what the entries add up to.
pub record IsReconciled (db : Db) : Type 0 where
  pub balances :
      (id : ℕ) (p : Portfolio)
      → find_portfolio id db ≡ some p
      → p.cash_balance ≡ balance_of_entries id db
  pub holdings :
      (id : ℕ) (ticker : String)
      → held_quantity id ticker db ≡ holding_of_entries id ticker db.trades

add_cash-add_transfer :
    (k : TradeType) (d : Direction) (v amount sum : ℤ)
    → add_cash k v (add_transfer d amount sum) ≡ add_transfer d amount (add_cash k v sum)
add_cash-add_transfer buy credit v amount sum = omega int_laws
add_cash-add_transfer buy debit v amount sum = omega int_laws
add_cash-add_transfer sell credit v amount sum = omega int_laws
add_cash-add_transfer sell debit v amount sum = omega int_laws

-- A deposit or a withdrawal before the trades moves what they end at by its amount.
pub traded-start :
    (d : Direction) (amount : ℤ) (id : ℕ) (start : ℤ) (ts : List Trade)
    → traded id (add_transfer d amount start) ts ≡ add_transfer d amount (traded id start ts)
traded-start d amount id start [] = refl
traded-start d amount id start (t ∷ ts) = elim (Bool-cases (t.portfolio == id)) [
  | inl s ↦ rw s (
      ap (add_cash t.trade_type t.total_value) (traded-start d amount id start ts)
      ∙ add_cash-add_transfer t.trade_type d t.total_value amount (traded id start ts))
  | inr o ↦ rw o (traded-start d amount id start ts)
]
