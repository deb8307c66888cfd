-- ===== src/Ledger/Cash/Laws.antt =====
-- Transfers keep the tables well formed and the balances reconstructible, and are idempotent.
use mathlib.Core.Path.{subst}
use mathlib.Core.Option.{some-injective}
use djaskt_trading_app.Prelude.{◌≤◌, ◌<◌, ◌^◌, ◌≡◌, ap, sym, ◌∙◌, Option, some, ◌∷◌, arith}
use djaskt_trading_app.Prelude.Int.{ℤ, pos, pos_part, ◌+ℤ◌, ◌-ℤ◌, ◌≤ℤ◌, int_laws}
use djaskt_trading_app.Prelude.Rows.{find, find-passes, All-find}
use djaskt_trading_app.Prelude.Action.{Result, ok, err}
use djaskt_trading_app.Decimal.{Decimal, Number, finite}
use djaskt_trading_app.Decimal.Laws.{
  IsNonneg, of_units, units, units-le, plus_finite-of_units, minus_finite-of_units,
  plus_finite-IsNonneg, minus_finite-IsNonneg, positive-IsNonneg,
}
use djaskt_trading_app.Ledger.Models.{
  Error, Direction, credit, debit, Portfolio, CashTransaction, Db, has_id, set_cash,
}
use djaskt_trading_app.Ledger.Column.{IsColumn}
use djaskt_trading_app.Ledger.Invariant.{IsSound, IsFunded, set_cash-IsFunded, find-set_cash_self}
use djaskt_trading_app.Ledger.History.{add_transfer}
use djaskt_trading_app.Ledger.Trade.{Env, find_portfolio}
use djaskt_trading_app.Ledger.Trade.Exact.{store-of_units}
use djaskt_trading_app.Ledger.Cash.{
  TransferRequest, TransactionInstance, CashTransferResult, find_transaction, transfer_block,
  apply_transfer,
}
use djaskt_trading_app.Ledger.Cash.Effect.{
  balance_after, Covered, entry_of, Transferred, transfer_block-eq-ok, TransferOutcome, rejected,
  replayed, executed, apply_transfer_outcome,
}

balance_after-IsNonneg :
    (direction : Direction) (cash : ℤ) (amount : Decimal)
    → pos 0 ≤ℤ cash
    → IsNonneg amount
    → Covered direction cash amount
    → IsNonneg (balance_after direction cash amount)
balance_after-IsNonneg credit cash amount h n c = plus_finite-IsNonneg (of_units cash) amount h n
balance_after-IsNonneg debit cash amount h n c = minus_finite-IsNonneg (of_units cash) amount c

Transferred-IsSound :
    (env : Env) (r : TransferRequest) (direction : Direction) (db : Db) {t : TransactionInstance}
    {db' : Db}
    → IsColumn env.store
    → IsNonneg r.amount
    → IsSound db
    → Transferred env r direction db t db'
    → IsSound db'
Transferred-IsSound env r direction db column n s c =
    let cash = All-find IsFunded (has_id r.portfolio_id) db.portfolios c.row s.funded c.found in
    let after = balance_after-IsNonneg direction c.row.cash_balance r.amount cash n c.covered in
    let new = c.inserted.is_new in
    rw (c.inserted.written, c.moved)
      (record {
        funded =
            set_cash-IsFunded c.row.id c.cash db.portfolios
              (column.keeps_sign _ c.cash after c.stored_cash) s.funded;
        long = s.long;
        trade_keys = s.trade_keys;
        transaction_keys = (rw c.moved at new, s.transaction_keys);
      })

-- From well-formed tables every transfer, however it ends, leaves well-formed tables: no negative
-- balance, no negative holding, no idempotency key twice.
pub apply_transfer-IsSound :
    (env : Env) (r : TransferRequest) (db : Db)
    → IsColumn env.store
    → IsSound db
    → IsSound (apply_transfer env r db).1
apply_transfer-IsSound env r db column s = after (apply_transfer_outcome env r db)
  where
    after : {x : Result Error CashTransferResult × Db} → TransferOutcome env r db x → IsSound x.1
    after (rejected e) = s
    after (replayed d t w f) = s
    after (executed d t db' w n b) =
        let q : pos 1 ≤ℤ r.amount.coeff = positive-IsNonneg r.amount w.positive in
        Transferred-IsSound env r d db column (omega arith) s (transfer_block-eq-ok env r d db b)

-- A transfer that raises, whatever the error and wherever it is raised, leaves every table as it was.
pub apply_transfer_atomic :
    (env : Env) (r : TransferRequest) (db db' : Db) (e : Error)
    → apply_transfer env r db ≡ (err e, db')
    → db' ≡ db
apply_transfer_atomic env r db db' e h = after (apply_transfer_outcome env r db) h
  where
    after :
        {x : Result Error CashTransferResult × Db}
        → TransferOutcome env r db x
        → x ≡ (err e, db')
        → db' ≡ db
    after (rejected _) p = ground arith
    after (replayed d t w f) p = cc
    after (executed d t db₁ w n b) q = cc

module _ (env : Env) (r : TransferRequest) (direction : Direction) (db : Db)
    {t : TransactionInstance} {db' : Db} where
  pub row_found :
      (c : Transferred env r direction db t db') → find_portfolio c.row.id db ≡ some c.row
  row_found c =
      let passes = find-passes (has_id r.portfolio_id) db.portfolios c.row c.found in
      let id : c.row.id ≡ r.portfolio_id = ground arith in
      subst (λ k. find_portfolio k db ≡ some c.row) (sym id) c.found

  pub written_by :
      (c : Transferred env r direction db t db')
      → db' ≡ record db {
        portfolios = set_cash c.row.id c.cash db.portfolios;
        cash_transactions = entry_of t c.inserted.amount c.inserted.balance ∷ db.cash_transactions;
      }
  written_by c =
      c.inserted.written
      ∙ ap
          (λ (b : Db). record b {
            cash_transactions =
                entry_of t c.inserted.amount c.inserted.balance ∷ b.cash_transactions;
          })
          c.moved

  -- The entry of a committed transfer names its portfolio, and its resulting balance is the balance that
  -- the portfolio's row holds afterwards, also where the column has rounded it.
  pub resulting_balance_lem :
      transfer_block env r direction db ≡ (ok t, db')
      → (p : Portfolio) × (e : CashTransaction) × (find_portfolio r.portfolio_id db' ≡ some p)
        × (find_transaction r.idempotency_key db' ≡ some e)
        × (e.portfolio ≡ p.id)
        × (e.resulting_balance ≡ p.cash_balance)
  resulting_balance_lem b =
      let c = transfer_block-eq-ok env r direction db b in
      let passes = find-passes (has_id r.portfolio_id) db.portfolios c.row c.found in
      let id : c.row.id ≡ r.portfolio_id = ground arith in
      let key = ap (λ (i : TransactionInstance). i.idempotency_key) c.made in
      let balance =
        ap (λ (i : TransactionInstance). env.store (finite i.resulting_balance)) c.made in
      let self = find-set_cash_self c.row.id c.cash db.portfolios c.row (row_found c) in
      let there =
        subst
          (λ k.
            find (has_id k) (set_cash c.row.id c.cash db.portfolios)
            ≡ some (record (c.row) { cash_balance = c.cash }))
          id self in
      (
        record (c.row) { cash_balance = c.cash },
        entry_of t c.inserted.amount c.inserted.balance,
        rw (written_by c) there,
        rw (written_by c) (ground arith),
        ap (λ (i : TransactionInstance). i.portfolio_id) c.made,
        some-injective _ _ (sym c.inserted.stored_balance ∙ balance ∙ c.stored_cash),
      )

-- An amount of at most four places, and a balance that fits the column afterwards.
pub record IsExact (direction : Direction) (cash : ℤ) (amount : Decimal) : Type 0 where
  pub short : amount.places ≤ 4
  pub nonneg : pos 0 ≤ℤ units amount
  pub amount_fits : pos_part (units amount) < 10 ^ 19
  pub cash_fits : pos_part (add_transfer direction (units amount) cash) < 10 ^ 19

pub balance_after-exact :
    (store : Number → Option ℤ) (column : IsColumn store) (direction : Direction) (cash : ℤ)
    (amount : Decimal) (u : ℤ)
    → pos 0 ≤ℤ cash
    → IsExact direction cash amount
    → Covered direction cash amount
    → store (finite (balance_after direction cash amount)) ≡ some u
    → u ≡ add_transfer direction (units amount) cash
balance_after-exact store column credit cash amount u h x c e =
    let n : pos 0 ≤ℤ cash +ℤ units amount = let k = x.nonneg in omega int_laws in
    let f : pos_part (cash +ℤ units amount) < 10 ^ 28 = let k = x.cash_fits in omega arith in
    store-of_units store column _ u n x.cash_fits
      (rw (plus_finite-of_units cash amount x.short n f) at e)
balance_after-exact store column debit cash amount u h x c e =
    let le = units-le cash amount x.short c in
    let n : pos 0 ≤ℤ cash -ℤ units amount = omega int_laws in
    let f : pos_part (cash -ℤ units amount) < 10 ^ 28 = let k = x.cash_fits in omega arith in
    store-of_units store column _ u n x.cash_fits
      (rw (minus_finite-of_units cash amount x.short n f) at e)
