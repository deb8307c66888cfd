-- ===== src/Ledger/Listing.antt =====
-- The trade histories: `list_trades` of ledger/api/router.py, and `_get_recent_trades` of
-- ledger/realtime/consumers.py. `order_by("-timestamp")` leaves the order of equal times open; here the
-- later entry of the table comes first.
use djaskt_trading_app.Prelude.{
  ℕ, zero, suc, ◌≤◌, ◌≡◌, ◌==◌, refl, arith, Bool, Bool-cases, inl, inr, none, some, Option, List,
  [], ◌∷◌, leb, if◌then◌else◌,
}
use djaskt_trading_app.Prelude.Rows.{All}
use djaskt_trading_app.Ledger.Models.{Trade, Db, Portfolio}

abbrev pub of_portfolio : ℕ → Trade → Bool
of_portfolio id t = t.portfolio == id

-- `Trade.objects.filter(portfolio=...)`
unfoldable pub filter_trades : ℕ → List Trade → List Trade
filter_trades id [] = []
filter_trades id (t ∷ ts) =
    let rest = filter_trades id ts in if of_portfolio id t then t ∷ rest else rest

-- `order_by("-timestamp")`
unfoldable pub insert_newest : Trade → List Trade → List Trade
insert_newest t [] = t ∷ []
insert_newest t (u ∷ us) =
    let rest = insert_newest t us in if leb u.timestamp t.timestamp then t ∷ u ∷ us else u ∷ rest

unfoldable pub newest_first : List Trade → List Trade
newest_first [] = []
newest_first (t ∷ ts) = insert_newest t (newest_first ts)

-- `[:limit]`
unfoldable pub first_rows : ℕ → List Trade → List Trade
first_rows zero ts = []
first_rows (suc n) [] = []
first_rows (suc n) (t ∷ ts) = t ∷ first_rows n ts

abbrev pub portfolio_trades : ℕ → Db → List Trade
portfolio_trades id db = newest_first (filter_trades id db.trades)

abbrev pub listed : Option Portfolio → Db → List Trade
listed none db = []
listed (some p) db = portfolio_trades p.id db

unfoldable pub get_recent_trades : ℕ → ℕ → Db → List Trade
get_recent_trades id limit db = first_rows limit (portfolio_trades id db)

-- No entry is older than one that comes after it.
abbrev pub IsNewestFirst : List Trade → Type 0
IsNewestFirst [] = Unit
IsNewestFirst (t ∷ ts) = All (λ (u : Trade). u.timestamp ≤ t.timestamp) ts × IsNewestFirst ts

All-insert :
    (P : Trade → Type 0) (t : Trade) (us : List Trade) → P t → All P us → All P (insert_newest t us)
unfolding insert_newest
All-insert P t [] p h = (p, tt)
All-insert P t (u ∷ us) p (q, h) = elim (Bool-cases (leb u.timestamp t.timestamp)) [
  | inl b ↦ rw b (p, (q, h))
  | inr b ↦ rw b (q, All-insert P t us p h)
]

All-weaken :
    (n m : ℕ) (us : List Trade)
    → n ≤ m
    → All (λ (u : Trade). u.timestamp ≤ n) us
    → All (λ (u : Trade). u.timestamp ≤ m) us
All-weaken n m [] h a = tt
All-weaken n m (u ∷ us) h (p, a) = (omega arith, All-weaken n m us h a)

insert_newest-IsNewestFirst :
    (t : Trade) (us : List Trade) → IsNewestFirst us → IsNewestFirst (insert_newest t us)
unfolding insert_newest
insert_newest-IsNewestFirst t [] h = (tt, tt)
insert_newest-IsNewestFirst t (u ∷ us) (a, h) = elim (Bool-cases (leb u.timestamp t.timestamp)) [
  | inl b ↦
      let le : u.timestamp ≤ t.timestamp = ground arith in
      rw b ((le, All-weaken u.timestamp t.timestamp us le a), (a, h))
  | inr b ↦
      let le : t.timestamp ≤ u.timestamp = ground arith in
      rw b (All-insert _ t us le a, insert_newest-IsNewestFirst t us h)
]

newest_first-IsNewestFirst : (ts : List Trade) → IsNewestFirst (newest_first ts)
unfolding newest_first
newest_first-IsNewestFirst [] = tt
newest_first-IsNewestFirst (t ∷ ts) =
    insert_newest-IsNewestFirst t (newest_first ts) (newest_first-IsNewestFirst ts)

All-newest_first : (P : Trade → Type 0) (ts : List Trade) → All P ts → All P (newest_first ts)
unfolding newest_first
All-newest_first P [] h = tt
All-newest_first P (t ∷ ts) (p, h) = All-insert P t (newest_first ts) p (All-newest_first P ts h)

filter_trades-owned :
    (id : ℕ) (ts : List Trade) → All (λ (t : Trade). t.portfolio ≡ id) (filter_trades id ts)
unfolding filter_trades
filter_trades-owned id [] = tt
filter_trades-owned id (t ∷ ts) = elim (Bool-cases (t.portfolio == id)) [
  | inl b ↦ rw b (ground arith, filter_trades-owned id ts)
  | inr b ↦ rw b (filter_trades-owned id ts)
]

-- How many entries have an id.
abbrev pub occurrences : ℕ → List Trade → ℕ
occurrences id [] = 0
occurrences id (t ∷ ts) = let rest = occurrences id ts in if t.id == id then suc rest else rest

occurrences-insert :
    (id : ℕ) (t : Trade) (us : List Trade)
    → occurrences id (insert_newest t us) ≡ occurrences id (t ∷ us)
unfolding insert_newest
occurrences-insert id t [] = refl
occurrences-insert id t (u ∷ us) = let ih = occurrences-insert id t us in ground arith

occurrences-newest_first :
    (id : ℕ) (ts : List Trade) → occurrences id (newest_first ts) ≡ occurrences id ts
unfolding newest_first
occurrences-newest_first id [] = refl
occurrences-newest_first id (t ∷ ts) =
    let ih = occurrences-newest_first id ts in
    let step = occurrences-insert id t (newest_first ts) in ground arith

-- The history of a portfolio has only that portfolio's trades, newest first, each as often as the
-- filtered table has it.
pub portfolio_trades_lem :
    (id : ℕ) (db : Db)
    → All (λ (t : Trade). t.portfolio ≡ id) (portfolio_trades id db)
      × IsNewestFirst (portfolio_trades id db)
      × ((n : ℕ)
          → occurrences n (portfolio_trades id db) ≡ occurrences n (filter_trades id db.trades))
portfolio_trades_lem id db = (
  All-newest_first _ (filter_trades id db.trades) (filter_trades-owned id db.trades),
  newest_first-IsNewestFirst (filter_trades id db.trades),
  λ n. occurrences-newest_first n (filter_trades id db.trades),
)
