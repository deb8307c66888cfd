-- ===== src/Ledger/Orchestrator/Laws.antt =====
-- What a submission broadcasts, and that data stays with its owner.
use mathlib.Core.Path.{subst₂}
use djaskt_trading_app.Ledger.Trade.Written.{balance_written}
use djaskt_trading_app.Prelude.{
  ℕ, String, ap, ◌∙◌, ◌⊎◌, ◌≡◌, refl, Bool, true, false, ◌&&◌, Option, none, some, ◌∷◌, arith, inl,
  inr,
}
use djaskt_trading_app.Decimal.{Number}
use djaskt_trading_app.Prelude.Rows.{find-passes}
use djaskt_trading_app.Prelude.Action.{Result, ok, err, outcome, continue, pure}
use djaskt_trading_app.Ledger.Models.{
  Error, TradeType, LoadedPortfolio, Portfolio, Db, for_user, has_id,
}
use djaskt_trading_app.Ledger.Trade.{
  Env, TradeRequest, TradeInstance, TradeResult, find_portfolio, execute_trade,
}
use djaskt_trading_app.Ledger.Cash.{TransferRequest, apply_transfer}
use djaskt_trading_app.Ledger.Trade.Effect.{cash_after, Committed, trade_block-eq-ok}
use djaskt_trading_app.Ledger.Trade.Outcome.{
  TradeOutcome, rejected, replayed, executed, execute_trade_outcome,
}
use djaskt_trading_app.Ledger.Orchestrator.{
  ChannelLayer, absent, working, failing, World, Update, Latest, latest_trade, positions_of,
  broadcast_portfolio_update, broadcast_unless_replay, submit_trade, submit_cash_transfer,
  latest_cash_transaction, get_owned_portfolio_or_none,
}

-- A portfolio is handed to a user only if it is that user's, and has the id that was asked for.
pub get_owned_portfolio_or_none-owner :
    (user id : ℕ) (db : Db) (p : Portfolio)
    → get_owned_portfolio_or_none user id db ≡ some p
    → (p.user ≡ user) × (p.id ≡ id)
unfolding get_owned_portfolio_or_none
get_owned_portfolio_or_none-owner user id db p e =
    let h = find-passes (λ p. for_user user p && has_id id p) db.portfolios p e in ground arith

broadcast-db :
    (layer : ChannelLayer) (replay : Bool) (p : Option LoadedPortfolio) (latest : Latest)
    (w : World)
    → (broadcast_unless_replay layer replay p latest w).1.db ≡ w.db
unfolding broadcast_unless_replay broadcast_portfolio_update
broadcast-db layer true p latest w = refl
broadcast-db layer false none latest w = refl
broadcast-db absent false (some p) latest w = refl
broadcast-db working false (some p) latest w = refl
broadcast-db failing false (some p) latest w = refl

returning-state :
    {S E A B : Type 0} (x : Result E A × S) (b : B) → (continue x (λ _. pure b)).1 ≡ x.1
returning-state (ok a, s) b = refl
returning-state (err e, s) b = refl

-- A submission leaves the database as the trade service left it, whatever becomes of the broadcast: a
-- channel layer that fails takes back no committed trade.
pub submit_trade_db :
    (layer : ChannelLayer) (env : Env) (r : TradeRequest) (w : World)
    → (submit_trade layer env r w).1.db ≡ (execute_trade env r w.db).1
unfolding submit_trade
submit_trade_db layer env r w = elim (outcome (execute_trade env r w.db)) [
  | inr (e, db', h) ↦ rw h
  | inl (res, db', h) ↦ rw h (
      ap (λ (v : World). v.db)
        (returning-state
          (broadcast_unless_replay layer res.is_replay res.trade.portfolio (latest_trade res.trade)
            (record w { db = db' }))
          res)
      ∙ broadcast-db layer res.is_replay res.trade.portfolio (latest_trade res.trade)
          (record w { db = db' }))
]

-- The same of a cash transfer.
pub submit_cash_transfer_db :
    (layer : ChannelLayer) (env : Env) (r : TransferRequest) (w : World)
    → (submit_cash_transfer layer env r w).1.db ≡ (apply_transfer env r w.db).1
unfolding submit_cash_transfer
submit_cash_transfer_db layer env r w = elim (outcome (apply_transfer env r w.db)) [
  | inr (e, db', h) ↦ rw h
  | inl (res, db', h) ↦ rw h (
      ap (λ (v : World). v.db)
        (returning-state
          (broadcast_unless_replay layer res.is_replay res.transaction.portfolio
            (latest_cash_transaction res.transaction) (record w { db = db' }))
          res)
      ∙ broadcast-db layer res.is_replay res.transaction.portfolio
          (latest_cash_transaction res.transaction) (record w { db = db' }))
]

-- A submission that raises in the service, or that is a replay, sends nothing.
pub submit_trade_quiet :
    (layer : ChannelLayer) (env : Env) (r : TradeRequest) (w : World)
    → ((e : Error) × ((execute_trade env r w.db).0 ≡ err e))
      ⊎ ((res : TradeResult) × ((execute_trade env r w.db).0 ≡ ok res) × (res.is_replay ≡ true))
    → (submit_trade layer env r w).1.sent ≡ w.sent
unfolding submit_trade broadcast_unless_replay
submit_trade_quiet layer env r w (inl (e, h)) = elim (outcome (execute_trade env r w.db)) [
  | inr (e', db', k) ↦ rw k
  | inl (res, db', k) ↦ ground arith
]
submit_trade_quiet layer env r w (inr (res, h, p)) = elim (outcome (execute_trade env r w.db)) [
  | inr (e', db', k) ↦ ground arith
  | inl (res', db', k) ↦ let q : res'.is_replay ≡ true = ground arith in rw (k, q)
]

-- What a fresh trade announces on a working channel layer: one event, of its portfolio's positions as
-- they now are, and of a balance that the column holds as the row's.
pub record Announced (env : Env) (r : TradeRequest) (w : World) (res : TradeResult) (db' : Db)
    : Type 0 where
  pub update : Update
  pub row : Portfolio
  pub submitted :
      submit_trade working env r w ≡ (ok res, record { db = db'; sent = update ∷ w.sent })
  pub found : find_portfolio r.portfolio_id db' ≡ some row
  pub to_owner : update.portfolio_id ≡ row.id
  pub balance : env.store update.cash_balance ≡ some row.cash_balance
  pub positions : update.positions ≡ positions_of row.id db'.positions
  pub latest : update.latest ≡ latest_trade res.trade

module _ (env : Env) (r : TradeRequest) (w : World) where
  Committed-Announced :
      (kind : TradeType) (ticker : String) (price total : Number) (t : TradeInstance) (db' : Db)
      → execute_trade env r w.db ≡ (ok (record { trade = t; is_replay = false }), db')
      → Committed env r kind ticker price total w.db t db'
      → Announced env r w (record { trade = t; is_replay = false }) db'
  unfolding submit_trade broadcast_unless_replay broadcast_portfolio_update
  Committed-Announced kind ticker price total t db' h c =
      let p = ap (λ (i : TradeInstance). i.portfolio) c.made in
      record {
        update = record {
          portfolio_id = c.row.id;
          cash_balance = cash_after kind c.row.cash_balance total;
          positions = positions_of c.row.id db'.positions;
          latest = latest_trade t;
        };
        row = record (c.row) { cash_balance = c.cash };
        submitted = rw (h, p);
        found = balance_written env r kind ticker price total w.db c;
        to_owner = refl;
        balance = c.stored_cash;
        positions = refl;
        latest = refl;
      }

  -- Every fresh trade is announced.
  pub fresh_trade_is_Announced :
      (res : TradeResult) (db' : Db)
      → execute_trade env r w.db ≡ (ok res, db')
      → res.is_replay ≡ false
      → Announced env r w res db'
  fresh_trade_is_Announced res db' h n = after (execute_trade_outcome env r w.db) h refl
    where
      after :
          {x : Result Error TradeResult × Db}
          → TradeOutcome env r w.db x
          → x ≡ (ok res, db')
          → execute_trade env r w.db ≡ x
          → Announced env r w res db'
      after (rejected _) p q = absurd (ground arith)
      after (replayed kind t g f) p q = absurd (ground arith)
      after (executed kind price total t db₁ g f m v b) p q =
          let same : record { trade = t; is_replay = false } ≡ res = ground arith in
          let same_db : db₁ ≡ db' = ground arith in
          subst₂ (Announced env r w) same same_db (
            Committed-Announced kind (env.parsers.upper r.ticker) price total t db₁ q
              (trade_block-eq-ok env r kind _ price total w.db b))
