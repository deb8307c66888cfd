-- ===== src/Ledger/Isolation.antt =====
-- What a user sees of the ledger through `get_portfolio` and `list_trades` of ledger/api/router.py, and
-- the updates that leave it as it is: those of another portfolio.
pub mod Services
pub mod Endpoints
use djaskt_trading_app.Prelude.{
  ℕ, String, ◌==◌, ◌≡◌, ◌≢◌, refl, sym, ap, ◌∙◌, arith, true, false, Bool-cases, inl, inr, Option,
  none, some, Option-cases, List, [], ◌∷◌,
}
use djaskt_trading_app.Prelude.Int.{ℤ}
use djaskt_trading_app.Prelude.Rows.{find, find-passes}
use djaskt_trading_app.Ledger.Models.{
  Portfolio, Position, Trade, Db, for_user, has_id, set_cash, set_quantity,
}
use djaskt_trading_app.Ledger.Trade.Effect.{with_row}
use djaskt_trading_app.Ledger.Orchestrator.{positions_of, get_portfolio_for_user}
use djaskt_trading_app.Ledger.Listing.{filter_trades, newest_first}
use djaskt_trading_app.Ledger.Api.{
  Response, PortfolioResponse, portfolio_response, get_portfolio, list_trades,
}

-- The primary key of the portfolios.
unfoldable pub HasIdsOnce : List Portfolio → Type 0
HasIdsOnce [] = Unit
HasIdsOnce (p ∷ ps) = (find (has_id p.id) ps ≡ none) × HasIdsOnce ps

own_row :
    (user : ℕ) (ps : List Portfolio) (q : Portfolio)
    → HasIdsOnce ps
    → find (for_user user) ps ≡ some q
    → find (has_id q.id) ps ≡ some q
unfolding HasIdsOnce
own_row user [] q h e = cc
own_row user (p ∷ ps) q (n, h) e = elim (Bool-cases (p.user == user)) [
  | inl y ↦ ground arith
  | inr y ↦
      let k = own_row user ps q h (rw y at e) in
      elim (Bool-cases (p.id == q.id)) [
        | inl s ↦ let t : p.id ≡ q.id = ground arith in absurd (ground arith)
        | inr s ↦ rw s k
      ]
]

-- The portfolios of two users have two ids.
pub ids_differ :
    (user other : ℕ) (ps : List Portfolio) (p q : Portfolio)
    → HasIdsOnce ps
    → (other == user) ≡ false
    → find (for_user user) ps ≡ some p
    → find (for_user other) ps ≡ some q
    → q.id ≢ p.id
ids_differ user other ps p q h n e f same =
    let a = own_row user ps p h e in
    let b = own_row other ps q h f in
    let b' : find (has_id p.id) ps ≡ some q = ap (λ n. find (has_id n) ps) (sym same) ∙ b in
    let u : p.user ≡ user = let k = find-passes (for_user user) ps p e in ground arith in
    let v : q.user ≡ other = let k = find-passes (for_user other) ps q f in ground arith in
    absurd (ground arith)

find-set_cash_other :
    (other id : ℕ) (cash : ℤ) (ps : List Portfolio)
    → ((q : Portfolio) → find (for_user other) ps ≡ some q → q.id ≢ id)
    → find (for_user other) (set_cash id cash ps) ≡ find (for_user other) ps
unfolding set_cash
find-set_cash_other other id cash [] h = refl
find-set_cash_other other id cash (p ∷ ps) h = elim (Bool-cases (p.id == id)) [
  | inl s ↦ elim (Bool-cases (p.user == other)) [
    | inl y ↦ absurd (h p (rw y refl) (ground arith))
    | inr y ↦ rw (s, y) refl
  ]
  | inr s ↦ elim (Bool-cases (p.user == other)) [
    | inl y ↦ rw (s, y) refl
    | inr y ↦ rw (s, y) (find-set_cash_other other id cash ps (λ q e. h q (rw y e)))
  ]
]

positions_of-set_quantity :
    (id other : ℕ) (ticker : String) (u : ℤ) (ps : List Position)
    → other ≢ id
    → positions_of other (set_quantity id ticker u ps) ≡ positions_of other ps
unfolding positions_of set_quantity
positions_of-set_quantity id other ticker u [] n = refl
positions_of-set_quantity id other ticker u (p ∷ ps) n =
    ground (arith, positions_of-set_quantity id other ticker u ps n)

pub positions_of_other :
    (id other : ℕ) (ticker : String) (u : ℤ) (o : Option Position) (ps : List Position)
    → other ≢ id
    → positions_of other (set_quantity id ticker u (with_row id ticker o ps))
      ≡ positions_of other ps
unfolding positions_of
positions_of_other id other ticker u (some p) ps n =
    positions_of-set_quantity id other ticker u ps n
positions_of_other id other ticker u none ps n =
    positions_of-set_quantity id other ticker u _ n ∙ ground arith

pub filter_trades_other :
    (other : ℕ) (t : Trade) (ts : List Trade)
    → other ≢ t.portfolio
    → filter_trades other (t ∷ ts) ≡ filter_trades other ts
unfolding filter_trades
filter_trades_other other t ts n = ground arith

-- A user sees the same portfolio, holdings and history.
pub record SeesSame (user : ℕ) (db db' : Db) : Type 0 where
  pub portfolio : get_portfolio user db' ≡ get_portfolio user db
  pub trades : list_trades user db' ≡ list_trades user db

pub unchanged : (user : ℕ) (db db' : Db) → db' ≡ db → SeesSame user db db'
unchanged user db db' e = record {
  portfolio = ap (get_portfolio user) e;
  trades = ap (list_trades user) e;
}

-- An update of one portfolio, its positions and its entries is not seen by a user who has another one.
pub update_unseen :
    (other id : ℕ) (cash : ℤ) (db : Db) (positions : List Position) (trades : List Trade) (db' : Db)
    → ((q : Portfolio) → get_portfolio_for_user other db ≡ some q → q.id ≢ id)
    → ((n : ℕ) → n ≢ id → positions_of n positions ≡ positions_of n db.positions)
    → ((n : ℕ) → n ≢ id → filter_trades n trades ≡ filter_trades n db.trades)
    → db'.portfolios ≡ set_cash id cash db.portfolios
    → db'.positions ≡ positions
    → db'.trades ≡ trades
    → SeesSame other db db'
unfolding get_portfolio list_trades portfolio_response get_portfolio_for_user
update_unseen other id cash db positions trades db' h k l a b c =
    let row = find-set_cash_other other id cash db.portfolios h in
    elim (Option-cases (find (for_user other) db.portfolios)) [
      | inl n ↦ record { portfolio = rw (a, row, n) refl; trades = rw (a, row, n) refl }
      | inr (q, f) ↦
          let d = h q f in
          record {
            portfolio = rw (a, row, f, b, k q.id d) refl;
            trades = rw (a, row, f, c, l q.id d) refl;
          }
    ]
