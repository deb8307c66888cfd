-- ===== src/Ledger/Trade/Exact.antt =====
-- Trades whose quantity and total value have at most four decimal places are booked exactly, and
-- keep balances and holdings reconstructible from the entries.
use text.Mathlib.Text.{◌==◌ as str_eq}
use mathlib.Core.Option.{some-injective}
use mathlib.Core.Path.{subst}
use djaskt_trading_app.Prelude.{
  ℕ, String, ◌^◌, ◌≤◌, ◌<◌, ◌≡◌, ◌≢◌, refl, ap, sym, ◌∙◌, ◌&&◌, false, Option, some, arith, ◌==◌,
}
use djaskt_trading_app.Prelude.Int.{ℤ, pos, pos_part, ◌≤ℤ◌, int_laws}
use djaskt_trading_app.Prelude.Rows.{All-find}
use djaskt_trading_app.Decimal.{Decimal, Number, finite, lt, plus, minus}
use djaskt_trading_app.Decimal.Laws.{
  of_units, units, units-of_units, units-le, plus_finite-of_units, minus_finite-of_units,
}
use djaskt_trading_app.Ledger.Models.{TradeType, buy, sell, Portfolio, Db, has_id}
use djaskt_trading_app.Ledger.Trade.Written.{row_found, written_by}
use djaskt_trading_app.Ledger.Column.{IsColumn}
use djaskt_trading_app.Ledger.Invariant.{
  IsSound, IsFunded, held-nonneg, find-set_cash_self, find-set_cash_ne, held-set_quantity_self,
  held-set_quantity_ne,
}
use djaskt_trading_app.Ledger.History.{add_cash, add_quantity}
use djaskt_trading_app.Ledger.Trade.{Env, TradeRequest, TradeInstance, find_portfolio, trade_block}
use djaskt_trading_app.Prelude.Action.{ok}
use djaskt_trading_app.Ledger.Trade.Effect.{
  held_quantity, cash_after, quantity_after, Allowed, Committed, trade_block-eq-ok,
}

module _ (store : Number → Option ℤ) (column : IsColumn store) where
  -- A stored value comes back from the column as it was.
  pub store-of_units :
      (z u : ℤ) → pos 0 ≤ℤ z → pos_part z < 10 ^ 19 → store (finite (of_units z)) ≡ some u → u ≡ z
  store-of_units z u n s e =
      let same : units (of_units z) ≡ z = units-of_units z in
      let x = column.exact (of_units z) (omega arith) (rw same n) (rw same s) in
      some-injective _ _ (sym e ∙ x) ∙ same

  -- The new balance of a branch, for a total of at most four places.
  cash_after-exact :
      (kind : TradeType) (cash : ℤ) (d : Decimal) (u : ℤ)
      → d.places ≤ 4
      → pos 0 ≤ℤ add_cash kind (units d) cash
      → pos_part (add_cash kind (units d) cash) < 10 ^ 19
      → store (cash_after kind cash (finite d)) ≡ some u
      → u ≡ add_cash kind (units d) cash
  unfolding plus minus
  cash_after-exact buy cash d u short n s e =
      store-of_units _ u n s (rw (minus_finite-of_units cash d short n (omega arith)) at e)
  cash_after-exact sell cash d u short n s e =
      store-of_units _ u n s (rw (plus_finite-of_units cash d short n (omega arith)) at e)

  quantity_after-exact :
      (kind : TradeType) (quantity : ℤ) (q : Decimal) (u : ℤ)
      → q.places ≤ 4
      → pos 0 ≤ℤ add_quantity kind (units q) quantity
      → pos_part (add_quantity kind (units q) quantity) < 10 ^ 19
      → store (quantity_after kind quantity q) ≡ some u
      → u ≡ add_quantity kind (units q) quantity
  unfolding plus minus
  quantity_after-exact buy quantity d u short n s e =
      store-of_units _ u n s (rw (plus_finite-of_units quantity d short n (omega arith)) at e)
  quantity_after-exact sell quantity d u short n s e =
      store-of_units _ u n s (rw (minus_finite-of_units quantity d short n (omega arith)) at e)

-- A total and a quantity of at most four places, and a balance and a holding that fit the columns
-- after the trade.
pub record IsExact (kind : TradeType) (cash quantity : ℤ) (q d : Decimal) : Type 0 where
  pub short_total : d.places ≤ 4
  pub short_quantity : q.places ≤ 4
  pub nonneg_total : pos 0 ≤ℤ units d
  pub nonneg_quantity : pos 0 ≤ℤ units q
  pub total_fits : pos_part (units d) < 10 ^ 19
  pub quantity_fits : pos_part (units q) < 10 ^ 19
  pub cash_fits : pos_part (add_cash kind (units d) cash) < 10 ^ 19
  pub holding_fits : pos_part (add_quantity kind (units q) quantity) < 10 ^ 19

-- The balance and the holding stay zero or more under the rule of the branch.
add_cash-nonneg :
    (kind : TradeType) (cash quantity : ℤ) (q d : Decimal)
    → d.places ≤ 4
    → pos 0 ≤ℤ cash
    → pos 0 ≤ℤ units d
    → Allowed kind cash quantity q (finite d)
    → pos 0 ≤ℤ add_cash kind (units d) cash
unfolding lt
add_cash-nonneg buy cash quantity q d p h n a =
    let le = units-le cash d p (ground arith) in omega int_laws
add_cash-nonneg sell cash quantity q d p h n a = omega int_laws

add_quantity-nonneg :
    (kind : TradeType) (cash quantity : ℤ) (q : Decimal) (total : Number)
    → q.places ≤ 4
    → pos 0 ≤ℤ quantity
    → pos 0 ≤ℤ units q
    → Allowed kind cash quantity q total
    → pos 0 ≤ℤ add_quantity kind (units q) quantity
add_quantity-nonneg buy cash quantity q total p h n a = omega int_laws
add_quantity-nonneg sell cash quantity q total p h n a =
    let le = units-le quantity q p a in omega int_laws

-- What an exact trade of `q` for `d` does to the balances and the holdings, its own and all others.
abbrev pub Booked : TradeType → Decimal → Decimal → String → Db → Portfolio → Db → Type 0
Booked kind q d ticker db row after =
    (find_portfolio row.id after
      ≡ some (record row { cash_balance = add_cash kind (units d) row.cash_balance }))
    × (held_quantity row.id ticker after
        ≡ add_quantity kind (units q) (held_quantity row.id ticker db))
    × ((id : ℕ) → id ≢ row.id → find_portfolio id after ≡ find_portfolio id db)
    × ((id : ℕ) (other : String)
        → (id == row.id && str_eq other ticker) ≡ false
        → held_quantity id other after ≡ held_quantity id other db)

-- The values that an exact trade has written.
module _ (env : Env) (r : TradeRequest) (kind : TradeType) (ticker : String) (price : Number)
    (d : Decimal) (db : Db) {t : TradeInstance} {db' : Db} (column : IsColumn env.store)
    (sound : IsSound db) where
  pub Committed-exact :
      (c : Committed env r kind ticker price (finite d) db t db')
      → IsExact kind c.row.cash_balance (held_quantity c.row.id ticker db) r.quantity d
      → (c.cash ≡ add_cash kind (units d) c.row.cash_balance)
        × (c.quantity ≡ add_quantity kind (units r.quantity) (held_quantity c.row.id ticker db))
        × (c.inserted.total ≡ units d)
        × (c.inserted.quantity ≡ units r.quantity)
  Committed-exact c x =
      let cash =
        All-find IsFunded (has_id r.portfolio_id) db.portfolios c.row sound.funded c.found in
      let held = held-nonneg c.row.id ticker db.positions sound.long in
      let value = ap (λ (i : TradeInstance). env.store i.total_value) c.made in
      let amount = ap (λ (i : TradeInstance). env.store i.quantity) c.made in
      (
        cash_after-exact env.store column kind c.row.cash_balance d c.cash x.short_total
            (add_cash-nonneg kind _ _ r.quantity d x.short_total cash x.nonneg_total c.allowed)
            x.cash_fits c.stored_cash,
        quantity_after-exact env.store column kind _ r.quantity c.quantity x.short_quantity
            (add_quantity-nonneg kind _ _ r.quantity (finite d) x.short_quantity held
              x.nonneg_quantity c.allowed)
            x.holding_fits c.stored_quantity,
        some-injective _ _ (
            sym c.inserted.stored_total
            ∙ value
            ∙ column.exact d x.short_total x.nonneg_total x.total_fits),
        some-injective _ _ (
            sym c.inserted.stored_quantity
            ∙ amount
            ∙ column.exact r.quantity x.short_quantity x.nonneg_quantity x.quantity_fits),
      )

  pub Committed-Booked :
      (c : Committed env r kind ticker price (finite d) db t db')
      → IsExact kind c.row.cash_balance (held_quantity c.row.id ticker db) r.quantity d
      → Booked kind r.quantity d ticker db c.row db'
  Committed-Booked c x =
      let (cash, quantity, _, _) = Committed-exact c x in
      subst (Booked kind r.quantity d ticker db c.row)
        (sym (written_by env r kind ticker price (finite d) db c))
        (
          find-set_cash_self c.row.id c.cash db.portfolios c.row
                (row_found env r kind ticker price (finite d) db c)
              ∙ ap (λ u. some (record (c.row) { cash_balance = u })) cash,
          held-set_quantity_self c.row.id ticker c.quantity db.positions _ refl ∙ quantity,
          λ id ne. find-set_cash_ne c.row.id id c.cash db.portfolios ne,
          λ id other ne. held-set_quantity_ne c.row.id ticker c.quantity id other ne db.positions _,
        )

  -- A committed block whose quantity and total value have at most four places, and fit, moves exactly
  -- these: the portfolio's balance falls by the total on a BUY and grows by it on a SELL, its holding of
  -- the ticker grows or falls by the quantity, and no other portfolio and no other holding changes.
  pub trade_block_books_exactly :
      (row : Portfolio)
      → trade_block env r kind ticker price (finite d) db ≡ (ok t, db')
      → find_portfolio r.portfolio_id db ≡ some row
      → IsExact kind row.cash_balance (held_quantity row.id ticker db) r.quantity d
      → Booked kind r.quantity d ticker db row db'
  trade_block_books_exactly row b f x =
      let c = trade_block-eq-ok env r kind ticker price (finite d) db b in
      let same : row ≡ c.row = some-injective _ _ (sym f ∙ c.found) in
      subst (λ p. Booked kind r.quantity d ticker db p db') (sym same)
        (Committed-Booked c (
          subst
            (λ (p : Portfolio).
              IsExact kind p.cash_balance (held_quantity p.id ticker db) r.quantity d)
            same x))
