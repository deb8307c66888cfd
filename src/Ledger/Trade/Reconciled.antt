-- ===== src/Ledger/Trade/Reconciled.antt =====
-- An exact trade keeps the balances and the holdings reconstructible from the entries.
use text.Mathlib.Text.{◌==◌ as str_eq}
use text.Mathlib.TextEquality.{eq_iff}
use mathlib.Core.Path.{subst}
use mathlib.Core.Option.{some-injective}
use djaskt_trading_app.Prelude.{
  ℕ, String, ◌≡◌, ap, sym, ◌∙◌, ◌&&◌, false, some, List, ◌∷◌, arith, ◌==◌, if◌then◌else◌,
  Bool-cases, inl, inr,
}
use djaskt_trading_app.Prelude.Int.{ℤ}
use djaskt_trading_app.Prelude.Action.{ok}
use djaskt_trading_app.Decimal.{Decimal, Number, finite}
use djaskt_trading_app.Decimal.Laws.{units}
use djaskt_trading_app.Ledger.Models.{TradeType, Portfolio, Trade, Db}
use djaskt_trading_app.Ledger.Column.{IsColumn}
use djaskt_trading_app.Ledger.Invariant.{IsSound}
use djaskt_trading_app.Ledger.History.{
  add_cash, add_quantity, traded, transferred, balance_of_entries, holding_of_entries, IsReconciled,
}
use djaskt_trading_app.Ledger.Trade.{Env, TradeRequest, TradeInstance, find_portfolio, trade_block}
use djaskt_trading_app.Ledger.Trade.Effect.{held_quantity, Committed, row_of, trade_block-eq-ok}
use djaskt_trading_app.Ledger.Trade.Written.{row_found, written_by}
use djaskt_trading_app.Ledger.Trade.Exact.{IsExact, Committed-exact, Committed-Booked}

-- One more entry, of a known portfolio, type and value.
traded-cons :
    (id : ℕ) (start : ℤ) (entry : Trade) (ts : List Trade) {owner : ℕ} {kind : TradeType} {v : ℤ}
    → entry.portfolio ≡ owner
    → entry.trade_type ≡ kind
    → entry.total_value ≡ v
    → traded id start (entry ∷ ts)
      ≡ (if owner == id then add_cash kind v (traded id start ts) else traded id start ts)
traded-cons id start entry ts a b c = ground arith

holding-cons :
    (id : ℕ) (name : String) (entry : Trade) (ts : List Trade) {owner : ℕ} {ticker : String}
    {kind : TradeType} {q : ℤ}
    → entry.portfolio ≡ owner
    → entry.ticker ≡ ticker
    → entry.trade_type ≡ kind
    → entry.quantity ≡ q
    → holding_of_entries id name (entry ∷ ts) ≡ (
        if owner == id && str_eq ticker name
        then add_quantity kind q (holding_of_entries id name ts)
        else holding_of_entries id name ts)
holding-cons id name entry ts a t b c = ground (arith, ap (λ x. str_eq x name) t)

module _ (env : Env) (r : TradeRequest) (kind : TradeType) (ticker : String) (price : Number)
    (d : Decimal) (db : Db) {t : TradeInstance} {db' : Db} (column : IsColumn env.store)
    (sound : IsSound db) where
  Committed-balances :
      (c : Committed env r kind ticker price (finite d) db t db')
      → IsExact kind c.row.cash_balance (held_quantity c.row.id ticker db) r.quantity d
      → IsReconciled db
      → (id : ℕ) (p : Portfolio) → find_portfolio id db' ≡ some p
      → p.cash_balance ≡ balance_of_entries id db'
  Committed-balances c x rec id p e =
      let (_, _, value, _) = Committed-exact env r kind ticker price d db column sound c x in
      let (own, _, others, _) = Committed-Booked env r kind ticker price d db column sound c x in
      let owner = ap (λ (i : TradeInstance). i.portfolio_id) c.made in
      let type = ap (λ (i : TradeInstance). i.trade_type) c.made in
      let old = rec.balances c.row.id c.row (row_found env r kind ticker price (finite d) db c) in
      let entry = row_of t c.inserted.quantity c.inserted.price c.inserted.total in
      let entries =
        ap (balance_of_entries id) (written_by env r kind ticker price (finite d) db c)
        ∙ traded-cons id (transferred id db.cash_transactions) entry db.trades owner type value in
      elim (Bool-cases (c.row.id == id)) [
        | inl s ↦
            let i : c.row.id ≡ id = ground arith in
            let found : find_portfolio c.row.id db' ≡ some p = rw i e in
            let new =
              ap (λ (x : Portfolio). x.cash_balance) (some-injective _ _ (sym found ∙ own)) in
            new ∙ ap (add_cash kind (units d)) (rw i at old) ∙ sym (rw s at entries)
        | inr o ↦ rec.balances id p (sym (others id (ground arith)) ∙ e) ∙ sym (rw o at entries)
      ]

  Committed-holdings :
      (c : Committed env r kind ticker price (finite d) db t db')
      → IsExact kind c.row.cash_balance (held_quantity c.row.id ticker db) r.quantity d
      → IsReconciled db
      → (id : ℕ) (name : String) → held_quantity id name db' ≡ holding_of_entries id name db'.trades
  Committed-holdings c x rec id name =
      let (_, _, _, amount) = Committed-exact env r kind ticker price d db column sound c x in
      let (_, own, _, others) = Committed-Booked env r kind ticker price d db column sound c x in
      let owner = ap (λ (i : TradeInstance). i.portfolio_id) c.made in
      let type = ap (λ (i : TradeInstance). i.trade_type) c.made in
      let what = ap (λ (i : TradeInstance). i.ticker) c.made in
      let entry = row_of t c.inserted.quantity c.inserted.price c.inserted.total in
      let entries =
        ap (λ (b : Db). holding_of_entries id name b.trades)
          (written_by env r kind ticker price (finite d) db c)
        ∙ holding-cons id name entry db.trades owner what type amount in
      elim (Bool-cases (c.row.id == id && str_eq ticker name)) [
        | inl s ↦
            let i : c.row.id ≡ id = ground arith in
            let w : ticker ≡ name = ground (arith, eq_iff ticker name) in
            let new : held_quantity id name db'
                ≡ add_quantity kind (units r.quantity) (held_quantity id name db) =
              subst
                (λ k.
                  held_quantity k name db'
                  ≡ add_quantity kind (units r.quantity) (held_quantity k name db))
                i
                (subst
                  (λ n.
                    held_quantity c.row.id n db'
                    ≡ add_quantity kind (units r.quantity) (held_quantity c.row.id n db))
                  w own) in
            new
            ∙ ap (add_quantity kind (units r.quantity)) (rec.holdings id name)
            ∙ sym (rw s at entries)
        | inr o ↦
            let apart : (id == c.row.id && str_eq name ticker) ≡ false =
              ground (arith, eq_iff ticker name, eq_iff name ticker) in
            others id name apart ∙ rec.holdings id name ∙ sym (rw o at entries)
      ]

  -- A trade whose quantity and total value have at most four decimal places, and fit, keeps every
  -- balance equal to the deposits less the withdrawals less the purchases plus the sales, and every
  -- holding equal to the quantities bought less those sold.
  pub trade_block-IsReconciled :
      (row : Portfolio)
      → trade_block env r kind ticker price (finite d) db ≡ (ok t, db')
      → find_portfolio r.portfolio_id db ≡ some row
      → IsExact kind row.cash_balance (held_quantity row.id ticker db) r.quantity d
      → IsReconciled db
      → IsReconciled db'
  trade_block-IsReconciled row b f x rec =
      let c = trade_block-eq-ok env r kind ticker price (finite d) db b in
      let same : row ≡ c.row = some-injective _ _ (sym f ∙ c.found) in
      let x' =
        subst
          (λ (p : Portfolio).
            IsExact kind p.cash_balance (held_quantity p.id ticker db) r.quantity d)
          same x in
      record { balances = Committed-balances c x' rec; holdings = Committed-holdings c x' rec }
