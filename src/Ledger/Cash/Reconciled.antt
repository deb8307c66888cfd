-- ===== src/Ledger/Cash/Reconciled.antt =====
-- A transfer of an amount with at most four places is booked exactly, and keeps the balances
-- reconstructible from the entries.
use mathlib.Core.Path.{subst}
use mathlib.Core.Option.{some-injective}
use djaskt_trading_app.Prelude.{
  ℕ, String, ◌≡◌, ◌≢◌, ap, sym, ◌∙◌, some, List, ◌∷◌, arith, ◌==◌, if◌then◌else◌, Bool-cases, inl,
  inr,
}
use djaskt_trading_app.Prelude.Int.{ℤ}
use djaskt_trading_app.Prelude.Rows.{All-find}
use djaskt_trading_app.Prelude.Action.{ok}
use djaskt_trading_app.Decimal.{finite}
use djaskt_trading_app.Decimal.Laws.{units}
use djaskt_trading_app.Ledger.Models.{Direction, Portfolio, CashTransaction, Db, has_id}
use djaskt_trading_app.Ledger.Column.{IsColumn}
use djaskt_trading_app.Ledger.Invariant.{IsSound, IsFunded, find-set_cash_self, find-set_cash_ne}
use djaskt_trading_app.Ledger.History.{
  add_transfer, transferred, traded, traded-start, balance_of_entries, holding_of_entries,
  IsReconciled,
}
use djaskt_trading_app.Ledger.Trade.Effect.{held_quantity}
use djaskt_trading_app.Ledger.Trade.{Env, find_portfolio}
use djaskt_trading_app.Ledger.Cash.{TransferRequest, TransactionInstance, transfer_block}
use djaskt_trading_app.Ledger.Cash.Effect.{Transferred, entry_of, transfer_block-eq-ok}
use djaskt_trading_app.Ledger.Cash.Laws.{IsExact, balance_after-exact, row_found, written_by}

-- One more entry, of a known portfolio, direction and amount.
transferred-cons :
    (id : ℕ) (entry : CashTransaction) (ts : List CashTransaction) {owner : ℕ} {d : Direction}
    {v : ℤ}
    → entry.portfolio ≡ owner
    → entry.direction ≡ d
    → entry.amount ≡ v
    → transferred id (entry ∷ ts)
      ≡ (if owner == id then add_transfer d v (transferred id ts) else transferred id ts)
transferred-cons id entry ts a b c = ground arith

-- The balances after an exact transfer of `amount`, the portfolio's own and all others.
abbrev pub Booked : Direction → ℤ → Db → Portfolio → Db → Type 0
Booked direction amount db row after =
    (find_portfolio row.id after
      ≡ some (record row { cash_balance = add_transfer direction amount row.cash_balance }))
    × ((id : ℕ) → id ≢ row.id → find_portfolio id after ≡ find_portfolio id db)

module _ (env : Env) (r : TransferRequest) (direction : Direction) (db : Db)
    {t : TransactionInstance} {db' : Db} (column : IsColumn env.store) (sound : IsSound db) where
  Transferred-cash :
      (c : Transferred env r direction db t db')
      → IsExact direction c.row.cash_balance r.amount
      → c.cash ≡ add_transfer direction (units r.amount) c.row.cash_balance
  Transferred-cash c x =
      balance_after-exact env.store column direction c.row.cash_balance r.amount c.cash
        (All-find IsFunded (has_id r.portfolio_id) db.portfolios c.row sound.funded c.found) x
        c.covered c.stored_cash

  Transferred-amount :
      (c : Transferred env r direction db t db')
      → IsExact direction c.row.cash_balance r.amount
      → c.inserted.amount ≡ units r.amount
  Transferred-amount c x =
      let amount = ap (λ (i : TransactionInstance). env.store (finite i.amount)) c.made in
      some-injective _ _ (
        sym c.inserted.stored_amount
        ∙ amount
        ∙ column.exact r.amount x.short x.nonneg x.amount_fits)

  Transferred-Booked :
      (c : Transferred env r direction db t db')
      → IsExact direction c.row.cash_balance r.amount
      → Booked direction (units r.amount) db c.row db'
  Transferred-Booked c x =
      subst (Booked direction (units r.amount) db c.row) (sym (written_by env r direction db c)) (
        find-set_cash_self c.row.id c.cash db.portfolios c.row (row_found env r direction db c)
            ∙ ap (λ u. some (record (c.row) { cash_balance = u })) (Transferred-cash c x),
        λ id ne. find-set_cash_ne c.row.id id c.cash db.portfolios ne,
      )

  Transferred-balances :
      (c : Transferred env r direction db t db')
      → IsExact direction c.row.cash_balance r.amount
      → IsReconciled db
      → (id : ℕ) (p : Portfolio) → find_portfolio id db' ≡ some p
      → p.cash_balance ≡ balance_of_entries id db'
  Transferred-balances c x rec id p e =
      let (own, others) = Transferred-Booked c x in
      let owner = ap (λ (i : TransactionInstance). i.portfolio_id) c.made in
      let way = ap (λ (i : TransactionInstance). i.direction) c.made in
      let old = rec.balances c.row.id c.row (row_found env r direction db c) in
      let entry = entry_of t c.inserted.amount c.inserted.balance in
      let entries =
        ap (balance_of_entries id) (written_by env r direction db c)
        ∙ ap (λ s. traded id s db.trades)
            (transferred-cons id entry db.cash_transactions owner way (Transferred-amount c x)) in
      elim (Bool-cases (c.row.id == id)) [
        | inl s ↦
            let i : c.row.id ≡ id = ground arith in
            let found : find_portfolio c.row.id db' ≡ some p = rw i e in
            let new =
              ap (λ (x : Portfolio). x.cash_balance) (some-injective _ _ (sym found ∙ own)) in
            new
            ∙ ap (add_transfer direction (units r.amount)) (rw i at old)
            ∙ sym (traded-start direction (units r.amount) id _ db.trades)
            ∙ sym (rw s at entries)
        | inr o ↦ rec.balances id p (sym (others id (ground arith)) ∙ e) ∙ sym (rw o at entries)
      ]

  -- A committed transfer of an amount that has at most four places, and fits, adds it to the portfolio's
  -- balance or takes it off, changes no other portfolio, and keeps every balance equal to the deposits
  -- less the withdrawals less the purchases plus the sales, and every holding as it was booked.
  pub transfer_block_books_exactly :
      (row : Portfolio)
      → transfer_block env r direction db ≡ (ok t, db')
      → find_portfolio r.portfolio_id db ≡ some row
      → IsExact direction row.cash_balance r.amount
      → IsReconciled db
      → Booked direction (units r.amount) db row db' × IsReconciled db'
  transfer_block_books_exactly row b f x rec =
      let c = transfer_block-eq-ok env r direction db b in
      let same : row ≡ c.row = some-injective _ _ (sym f ∙ c.found) in
      let x' = subst (λ (p : Portfolio). IsExact direction p.cash_balance r.amount) same x in
      (
        subst (λ p. Booked direction (units r.amount) db p db') (sym same)
            (Transferred-Booked c x'),
        record {
          balances = Transferred-balances c x' rec;
          holdings =
              subst
                (λ (b : Db).
                  (id : ℕ) (ticker : String)
                  → held_quantity id ticker b ≡ holding_of_entries id ticker b.trades)
                (sym (written_by env r direction db c)) rec.holdings;
        },
      )
