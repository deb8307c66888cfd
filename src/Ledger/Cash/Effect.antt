-- ===== src/Ledger/Cash/Effect.antt =====
-- What a committed transfer has done to the tables, and the ways in which a call ends.
use mathlib.Core.Path.{subst₂}
use djaskt_trading_app.Prelude.{
  ◌≡◌, true, false, none, some, ◌∷◌, arith, Option-cases, Bool-cases, inl, inr,
}
use djaskt_trading_app.Prelude.Int.{ℤ}
use djaskt_trading_app.Prelude.Action.{Result, ok, err, outcome}
use djaskt_trading_app.Decimal.{
  Decimal, finite, is_nonpositive, lt_finite, plus_finite, minus_finite,
}
use djaskt_trading_app.Decimal.Laws.{of_units}
use djaskt_trading_app.Ledger.Models.{
  Error, invalid_trade_request, Direction, credit, debit, direction_of, Portfolio, CashTransaction,
  Db, LoadedPortfolio, set_cash,
}
use djaskt_trading_app.Ledger.Trade.{Env, find_portfolio, save_portfolio}
use djaskt_trading_app.Ledger.Trade.Effect.{save_portfolio-eq-ok}
use djaskt_trading_app.Ledger.Cash.{
  TransferRequest, TransactionInstance, CashTransferResult, of_row, find_transaction, new_balance,
  insert_transaction, transfer_block, apply_transfer,
}

abbrev pub balance_after : Direction → ℤ → Decimal → Decimal
balance_after credit cash amount = plus_finite (of_units cash) amount
balance_after debit cash amount = minus_finite (of_units cash) amount

-- The business rule: a withdrawal is covered.
abbrev pub Covered : Direction → ℤ → Decimal → Type 0
Covered credit cash amount = Unit
Covered debit cash amount = lt_finite (of_units cash) amount ≡ false

abbrev pub entry_of : TransactionInstance → ℤ → ℤ → CashTransaction
entry_of t amount balance = record {
  id = t.id;
  idempotency_key = t.idempotency_key;
  portfolio = t.portfolio_id;
  direction = t.direction;
  amount = amount;
  resulting_balance = balance;
  timestamp = t.timestamp;
}

pub record Inserted (env : Env) (t : TransactionInstance) (db db' : Db) : Type 0 where
  pub amount : ℤ
  pub balance : ℤ
  pub stored_amount : env.store (finite t.amount) ≡ some amount
  pub stored_balance : env.store (finite t.resulting_balance) ≡ some balance
  pub is_new : find_transaction t.idempotency_key db ≡ none
  pub written :
      db' ≡ record db { cash_transactions = entry_of t amount balance ∷ db.cash_transactions }

module _ (env : Env) (t : TransactionInstance) (db : Db) where
  insert_transaction-eq-ok :
      {x : Unit {0}} {db' : Db} → insert_transaction env t db ≡ (ok x, db') → Inserted env t db db'
  unfolding insert_transaction
  insert_transaction-eq-ok e = elim (Option-cases (env.store (finite t.amount))) [
    | inl no_value ↦ absurd (ground arith)
    | inr (q, sq) ↦ elim (Option-cases (env.store (finite t.resulting_balance))) [
      | inl no_value ↦ absurd (ground arith)
      | inr (p, sp) ↦ record {
        amount = q;
        balance = p;
        stored_amount = sq;
        stored_balance = sp;
        is_new = ground arith;
        written = ground arith;
      }
    ]
  ]

new_balance-eq-ok :
    (direction : Direction) (p : Portfolio) (amount : Decimal) (db : Db) {b : Decimal} {db' : Db}
    → new_balance direction p amount db ≡ (ok b, db')
    → Covered direction p.cash_balance amount
      × (b ≡ balance_after direction p.cash_balance amount)
      × (db' ≡ db)
unfolding new_balance
new_balance-eq-ok credit p amount db e = ground arith
new_balance-eq-ok debit p amount db e = ground arith

module _ (env : Env) (r : TransferRequest) (direction : Direction) where
  abbrev pub instance_of : Portfolio → Decimal → TransactionInstance
  instance_of row balance = record {
    id = env.new_id;
    idempotency_key = r.idempotency_key;
    portfolio_id = row.id;
    portfolio = some (record { id = row.id; user = row.user; cash_balance = finite balance });
    direction = direction;
    amount = r.amount;
    resulting_balance = balance;
    timestamp = env.now;
  }

  -- What a committed block has done.
  pub record Transferred (db : Db) (t : TransactionInstance) (db' : Db) : Type 0 where
    pub row : Portfolio
    pub found : find_portfolio r.portfolio_id db ≡ some row
    pub covered : Covered direction row.cash_balance r.amount
    pub made : t ≡ instance_of row (balance_after direction row.cash_balance r.amount)
    pub cash : ℤ
    pub stored_cash :
        env.store (finite (balance_after direction row.cash_balance r.amount)) ≡ some cash
    pub before_insert : Db
    pub moved : before_insert ≡ record db { portfolios = set_cash row.id cash db.portfolios }
    pub inserted : Inserted env t before_insert db'

  -- Every block that commits has these effects and no other.
  pub transfer_block-eq-ok :
      (db : Db) {t : TransactionInstance} {db' : Db}
      → transfer_block env r direction db ≡ (ok t, db')
      → Transferred db t db'
  unfolding transfer_block
  transfer_block-eq-ok db e = elim (Option-cases (find_portfolio r.portfolio_id db)) [
    | inl f ↦ absurd (ground arith)
    | inr (row, f) ↦ elim (outcome (new_balance direction row r.amount db)) [
      | inr (x, s, bad) ↦ absurd (ground arith)
      | inl (b, db₁, computed) ↦
          let lp : LoadedPortfolio = record {
            id = row.id;
            user = row.user;
            cash_balance = finite b;
          } in
          elim (outcome (save_portfolio env lp db₁)) [
            | inr (x, s, bad) ↦ absurd (ground arith)
            | inl (x, db₂, saved) ↦
                elim (outcome (insert_transaction env (instance_of row b) db₂)) [
                  | inr (y, s, bad) ↦ absurd (ground arith)
                  | inl (y, db₃, added) ↦
                      let (rule, same, w₁) = new_balance-eq-ok direction row r.amount db computed in
                      let (c, sc, w₂) = save_portfolio-eq-ok env lp db₁ saved in
                      record {
                        row = row;
                        found = f;
                        covered = rule;
                        made = ground arith;
                        cash = c;
                        stored_cash = rw same at sc;
                        before_insert = db₂;
                        moved = ground arith;
                        inserted =
                            subst₂ (λ a z. Inserted env a db₂ z) (ground arith) (ground arith)
                              (insert_transaction-eq-ok env (instance_of row b) db₂ added);
                      }
                ]
          ]
    ]
  ]

pub record IsWellFormed (r : TransferRequest) (direction : Direction) : Type 0 where
  pub known : direction_of r.direction ≡ some direction
  pub positive : is_nonpositive r.amount ≡ false

pub data TransferOutcome (env : Env) (r : TransferRequest) (db : Db)
    : Result Error CashTransferResult × Db → Type 0 where
  rejected : (e : Error) → TransferOutcome env r db (err e, db)
  replayed :
      (direction : Direction) (t : CashTransaction)
      → IsWellFormed r direction
      → find_transaction r.idempotency_key db ≡ some t
      → TransferOutcome env r db (ok (record { transaction = of_row t; is_replay = true }), db)
  executed :
      (direction : Direction) (t : TransactionInstance) (db' : Db)
      → IsWellFormed r direction
      → find_transaction r.idempotency_key db ≡ none
      → transfer_block env r direction db ≡ (ok t, db')
      → TransferOutcome env r db (ok (record { transaction = t; is_replay = false }), db')

-- A call raises and leaves the tables alone, or returns the transaction that has its key and leaves
-- them alone, or is well formed under a new key and commits one block.
pub apply_transfer_outcome :
    (env : Env) (r : TransferRequest) (db : Db) → TransferOutcome env r db (apply_transfer env r db)
unfolding apply_transfer
apply_transfer_outcome env r db = elim (Option-cases (direction_of r.direction)) [
  | inl k ↦ rw k (rejected invalid_trade_request)
  | inr (d, k) ↦ elim (Bool-cases (is_nonpositive r.amount)) [
    | inl q ↦ rw (k, q) (rejected invalid_trade_request)
    | inr q ↦
        let w : IsWellFormed r d = record { known = k; positive = q } in
        elim (Option-cases (find_transaction r.idempotency_key db)) [
          | inr (t, f) ↦ rw (k, q, f) (replayed d t w f)
          | inl n ↦ elim (outcome (transfer_block env r d db)) [
            | inr (e, s, b) ↦ rw (k, q, n, b) (rejected e)
            | inl (x, db', b) ↦ rw (k, q, n, b) (executed d x db' w n b)
          ]
        ]
  ]
]
