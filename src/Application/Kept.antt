-- ===== src/Application/Kept.antt =====
-- What stays true of the tables whatever is requested.
use djaskt_trading_app.Prelude.{
  ℕ, String, ◌==◌, ◌≢◌, refl, sym, ap, ◌∙◌, arith, Bool-cases, inl, inr, none, Option-cases, List,
  [], ◌∷◌,
}
use djaskt_trading_app.Prelude.Int.{ℤ}
use djaskt_trading_app.Prelude.Rows.{All, find}
use djaskt_trading_app.Prelude.Action.{Result}
use djaskt_trading_app.Ledger.Models.{Error, Portfolio, Db, for_user, set_cash}
use djaskt_trading_app.Ledger.Column.{IsColumn}
use djaskt_trading_app.Ledger.Invariant.{IsSound}
use djaskt_trading_app.Ledger.Trade.{Env, TradeRequest, TradeResult, execute_trade}
use djaskt_trading_app.Ledger.Trade.Safety.{execute_trade-IsSound}
use djaskt_trading_app.Ledger.Trade.Effect.{trade_block-eq-ok}
use djaskt_trading_app.Ledger.Trade.Written.{written_by}
use djaskt_trading_app.Ledger.Trade.Outcome.{
  TradeOutcome, rejected, replayed, executed, execute_trade_outcome,
}
use djaskt_trading_app.Ledger.Cash.{TransferRequest, CashTransferResult, apply_transfer}
use djaskt_trading_app.Ledger.Cash.Laws.{apply_transfer-IsSound}
use djaskt_trading_app.Ledger.Cash.Effect as CashEffect
use djaskt_trading_app.Ledger.Cash.Effect.{
  TransferOutcome, apply_transfer_outcome, transfer_block-eq-ok,
}
use djaskt_trading_app.Ledger.Orchestrator.{
  ChannelLayer, World, get_portfolio_for_user, submit_trade, submit_cash_transfer,
}
use djaskt_trading_app.Ledger.Orchestrator.Laws.{submit_trade_db, submit_cash_transfer_db}
use djaskt_trading_app.Ledger.Api.{
  TradeBody, TransferBody, validate_trade, validate_transfer, trade_request, transfer_request,
  submit_valid_trade, post_trade, transfer_valid_cash, post_cash_transfer,
}
use djaskt_trading_app.Ledger.Api.Laws.{caught-world}
use djaskt_trading_app.Accounts.Auth.{User}
use djaskt_trading_app.Accounts.Signup.{Site, SignupEnv, signup}
use djaskt_trading_app.Accounts.Signup.Laws.{signup_outcome, IsPeopled, signup-IsPeopled}
use djaskt_trading_app.Accounts.Superuser.Laws.{HasEmailsOnce}

-- A change of the ledger that leaves it well formed, and every portfolio with its owner.
pub record Keeps (db db' : Db) : Type 0 where
  pub sound : IsSound db → IsSound db'
  pub owners :
      (user : ℕ) → get_portfolio_for_user user db ≢ none → get_portfolio_for_user user db' ≢ none

no_change : (db : Db) → Keeps db db
no_change db = record { sound = λ s. s; owners = λ user h. h }

set_cash-owners :
    (user id : ℕ) (cash : ℤ) (ps : List Portfolio)
    → find (for_user user) ps ≢ none
    → find (for_user user) (set_cash id cash ps) ≢ none
unfolding set_cash
set_cash-owners user id cash [] h = h
set_cash-owners user id cash (p ∷ ps) h = λ e. elim (Bool-cases (p.user == user)) [
  | inl y ↦ elim (Bool-cases (p.id == id)) [
    | inl s ↦ cc (rw (s, y) at e)
    | inr s ↦ cc (rw (s, y) at e)
  ]
  | inr y ↦ elim (Bool-cases (p.id == id)) [
    | inl s ↦ let e' = rw (s, y) at e in h (rw y e')
    | inr s ↦ set_cash-owners user id cash ps (λ k. h (rw y k)) (rw (s, y) at e)
  ]
]

execute_trade-Keeps :
    (env : Env) (r : TradeRequest) (db : Db)
    → IsColumn env.store
    → Keeps db (execute_trade env r db).1
unfolding get_portfolio_for_user
execute_trade-Keeps env r db column = record {
  sound = execute_trade-IsSound env r db column;
  owners = after (execute_trade_outcome env r db);
}
  where
    after :
        {x : Result Error TradeResult × Db}
        → TradeOutcome env r db x
        → (user : ℕ) → get_portfolio_for_user user db ≢ none
        → get_portfolio_for_user user x.1 ≢ none
    after (rejected e) user h = h
    after (replayed kind t g f) user h = h
    after (executed kind price total t db₁ g f m v b) user h = λ e.
        let c = trade_block-eq-ok env r kind (env.parsers.upper r.ticker) price total db b in
        let w = written_by env r kind (env.parsers.upper r.ticker) price total db c in
        set_cash-owners user c.row.id c.cash db.portfolios h
          (sym (ap (λ (x : Db). find (for_user user) x.portfolios) w) ∙ e)

apply_transfer-Keeps :
    (env : Env) (r : TransferRequest) (db : Db)
    → IsColumn env.store
    → Keeps db (apply_transfer env r db).1
unfolding get_portfolio_for_user
apply_transfer-Keeps env r db column = record {
  sound = apply_transfer-IsSound env r db column;
  owners = after (apply_transfer_outcome env r db);
}
  where
    after :
        {x : Result Error CashTransferResult × Db}
        → TransferOutcome env r db x
        → (user : ℕ) → get_portfolio_for_user user db ≢ none
        → get_portfolio_for_user user x.1 ≢ none
    after (CashEffect.rejected e) user h = h
    after (CashEffect.replayed d t g f) user h = h
    after (CashEffect.executed d t db₁ g f b) user h = λ e.
        let c = transfer_block-eq-ok env r d db b in
        let w =
          ap (λ (x : Db). x.portfolios) c.inserted.written
          ∙ ap (λ (x : Db). x.portfolios) c.moved in
        set_cash-owners user c.row.id c.cash db.portfolios h (sym (ap (find (for_user user)) w) ∙ e)

module _ (layer : ChannelLayer) (env : Env) (user : ℕ) (w : World)
    (column : IsColumn env.store) where
  pub post_trade-Keeps :
      (strip : String → String) (b : TradeBody)
      → Keeps w.db (post_trade layer env user strip b w).1.db
  unfolding post_trade submit_valid_trade
  post_trade-Keeps strip b = elim (Option-cases (validate_trade strip env.parsers.upper b)) [
    | inl i ↦ rw i (no_change w.db)
    | inr (v, i) ↦ elim (Option-cases (get_portfolio_for_user user w.db)) [
      | inl j ↦ rw (i, j) (no_change w.db)
      | inr (p, j) ↦
          let x = submit_trade layer env (trade_request p v) w in
          let db =
            ap (λ (z : World). z.db) (caught-world (λ (r : TradeResult). r.is_replay) x)
            ∙ submit_trade_db layer env (trade_request p v) w in
          rw (i, j, db) (execute_trade-Keeps env (trade_request p v) w.db column)
    ]
  ]

  pub post_cash_transfer-Keeps :
      (b : TransferBody) → Keeps w.db (post_cash_transfer layer env user b w).1.db
  unfolding post_cash_transfer transfer_valid_cash
  post_cash_transfer-Keeps b = elim (Option-cases (validate_transfer b)) [
    | inl i ↦ rw i (no_change w.db)
    | inr (v, i) ↦ elim (Option-cases (get_portfolio_for_user user w.db)) [
      | inl j ↦ rw (i, j) (no_change w.db)
      | inr (p, j) ↦
          let x = submit_cash_transfer layer env (transfer_request p v) w in
          let db =
            ap (λ (z : World). z.db) (caught-world (λ (r : CashTransferResult). r.is_replay) x)
            ∙ submit_cash_transfer_db layer env (transfer_request p v) w in
          rw (i, j, db) (apply_transfer-Keeps env (transfer_request p v) w.db column)
    ]
  ]

-- What holds of the tables at any time.
pub record IsWell (s : Site) : Type 0 where
  pub sound : IsSound s.ledger
  pub emails : HasEmailsOnce s.users
  pub peopled : IsPeopled s

All-owners :
    (db db' : Db) (users : List User)
    → Keeps db db'
    → All (λ (u : User). get_portfolio_for_user u.id db ≢ none) users
    → All (λ (u : User). get_portfolio_for_user u.id db' ≢ none) users
All-owners db db' [] k h = tt
All-owners db db' (u ∷ us) k (h, hs) = (k.owners u.id h, All-owners db db' us k hs)

pub Keeps-IsWell :
    (s : Site) (db' : Db) → Keeps s.ledger db' → IsWell s → IsWell (record s { ledger = db' })
Keeps-IsWell s db' k h = record {
  sound = k.sound h.sound;
  emails = h.emails;
  peopled = All-owners s.ledger db' s.users k h.peopled;
}

pub signup-IsWell :
    (env : SignupEnv) (email : String) (s : Site) → IsWell s → IsWell (signup env email s).1
unfolding HasEmailsOnce
signup-IsWell env email s h =
    let people = signup-IsPeopled env email s h.peopled in
    elim (signup_outcome env email s (signup env email s).0 (signup env email s).1 refl) [
      | inl (user, _, c) ↦ record {
        sound = rw c.written (record {
          funded = (omega arith, h.sound.funded);
          long = h.sound.long;
          trade_keys = h.sound.trade_keys;
          transaction_keys = h.sound.transaction_keys;
        });
        emails = rw c.written (c.new_email, h.emails);
        peopled = people;
      }
      | inr (same, _) ↦ rw same h
    ]
