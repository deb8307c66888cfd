-- ===== src/Ledger/Api/Laws.antt =====
-- What the answers of the ledger's endpoints say about the tables.
use mathlib.Core.Path.{subst}
use djaskt_trading_app.Prelude.{
  ℕ, String, ◌≡◌, ◌⊎◌, refl, ap, sym, ◌∙◌, arith, Bool, true, false, Option, none, some,
  Option-cases, Bool-cases, inl, inr,
}
use djaskt_trading_app.Prelude.Action.{Result, ok, err, outcome, continue, pure}
use djaskt_trading_app.Ledger.Models.{Error, channel_error, Portfolio, Db, LoadedPortfolio}
use djaskt_trading_app.Ledger.Trade.{Env, TradeRequest, TradeResult, execute_trade}
use djaskt_trading_app.Ledger.Trade.Outcome.{
  TradeOutcome, rejected, replayed, executed, execute_trade_outcome,
}
use djaskt_trading_app.Ledger.Trade.Replay.{execute_trade_atomic}
use djaskt_trading_app.Ledger.Orchestrator.{
  ChannelLayer, absent, working, failing, World, Latest, latest_trade, submit_trade,
  broadcast_unless_replay, broadcast_portfolio_update, get_portfolio_for_user,
}
use djaskt_trading_app.Ledger.Orchestrator.Laws.{submit_trade_db}
use djaskt_trading_app.Ledger.Api.{
  TradeBody, Response, created_201, handled, caught, trade_request, validate_trade,
  submit_valid_trade, post_trade, answer,
}

broadcast-err :
    (layer : ChannelLayer) (replay : Bool) (p : Option LoadedPortfolio) (latest : Latest)
    (w : World)
    → ((broadcast_unless_replay layer replay p latest w).0 ≡ ok tt)
      ⊎ ((broadcast_unless_replay layer replay p latest w).0 ≡ err channel_error)
unfolding broadcast_unless_replay broadcast_portfolio_update
broadcast-err layer true p latest w = inl refl
broadcast-err layer false none latest w = inl refl
broadcast-err absent false (some p) latest w = inl refl
broadcast-err working false (some p) latest w = inl refl
broadcast-err failing false (some p) latest w = inr refl

-- A call that is followed by `return result`.
finish :
    {A : Type 0} (x : Result Error (Unit {0}) × World) (a : A)
    → (x.0 ≡ ok tt) ⊎ (x.0 ≡ err channel_error)
    → ((continue x (λ _. pure a)).0 ≡ ok a) ⊎ ((continue x (λ _. pure a)).0 ≡ err channel_error)
finish (ok tt, w) a h = inl refl
finish (err e, w) a (inl h) = cc
finish (err e, w) a (inr h) = inr (ground arith)

module _ (layer : ChannelLayer) (env : Env) (r : TradeRequest) (w : World) where
  -- How a submission ends, by how the service ended.
  pub submit_trade-ends :
      ((res : TradeResult) × (db' : Db) × (execute_trade env r w.db ≡ (ok res, db'))
        × (((submit_trade layer env r w).0 ≡ ok res)
            ⊎ ((submit_trade layer env r w).0 ≡ err channel_error)))
      ⊎ ((e : Error) × (db' : Db) × (execute_trade env r w.db ≡ (err e, db'))
          × ((submit_trade layer env r w).0 ≡ err e))
  unfolding submit_trade
  submit_trade-ends = elim (outcome (execute_trade env r w.db)) [
    | inr (e, db', h) ↦ inr (e, db', h, rw h refl)
    | inl (res, db', h) ↦ inl (
      res,
      db',
      h,
      rw h (
          finish
            (broadcast_unless_replay layer res.is_replay res.trade.portfolio
              (latest_trade res.trade) (record w { db = db' }))
            res
            (broadcast-err layer res.is_replay res.trade.portfolio (latest_trade res.trade)
              (record w { db = db' }))),
    )
  ]

pub ok-injective : {E A : Type 0} {a a' : A} → Path (Result E A) (ok a) (ok a') → a ≡ a'
ok-injective h = ground arith

-- The answers that say that a trade was committed.
abbrev pub IsCreated : {A : Type 0} → Response A → Type 0
IsCreated (created_201 _) = Unit
IsCreated _ = ⊥

module _ {A : Type 0} (f : A → Bool) where
  pub caught-world : (x : Result Error A × World) → (caught f x).1 ≡ x.1
  unfolding caught
  caught-world (ok a, w) = refl
  caught-world (err e, w) = refl

  pub caught-ok :
      (x : Result Error A × World) (a : A) → x.0 ≡ ok a → (caught f x).0 ≡ ok (answer f a)
  unfolding caught
  caught-ok (ok a', w) a h = let p : a' ≡ a = ground arith in ap (λ z. ok (answer f z)) p
  caught-ok (err e, w) a h = cc

  pub caught-err :
      (x : Result Error A × World) (e : Error) → x.0 ≡ err e → (caught f x).0 ≡ handled e
  unfolding caught
  caught-err (ok a', w) e h = cc
  caught-err (err e', w) e h = let p : e' ≡ e = ground arith in ap handled p

-- A replay changes no table.
replay_unchanged :
    (env : Env) (r : TradeRequest) (db db' : Db) (res : TradeResult)
    → execute_trade env r db ≡ (ok res, db')
    → res.is_replay ≡ true
    → db' ≡ db
replay_unchanged env r db db' res h n = after (execute_trade_outcome env r db) h
  where
    after :
        {x : Result Error TradeResult × Db} → TradeOutcome env r db x → x ≡ (ok res, db') → db' ≡ db
    after (rejected _) p = absurd (ground arith)
    after (replayed kind t g f) p = ground arith
    after (executed kind price total t db₁ g f m v b) p = absurd (ground arith)

pub not_ok : {A : Type 0} {a : Response A} → handled channel_error ≡ ok a → ⊥
unfolding handled
not_ok h = cc

module _ (layer : ChannelLayer) (env : Env) (user : ℕ) (strip : String → String) (b : TradeBody)
    (w : World) where
  valid_unchanged :
      (p : Portfolio) (v : TradeBody) (a : Response TradeResult)
      → (submit_valid_trade layer env user v (some p) w).0 ≡ ok a
      → ¬ IsCreated a
      → (submit_valid_trade layer env user v (some p) w).1.db ≡ w.db
  unfolding submit_valid_trade
  valid_unchanged p v a e n =
      let x = submit_trade layer env (trade_request p v) w in
      let world = ap (λ (z : World). z.db) (caught-world (λ (r : TradeResult). r.is_replay) x) in
      let db = world ∙ submit_trade_db layer env (trade_request p v) w in
      elim (submit_trade-ends layer env (trade_request p v) w) [
        | inl (res, db', h, inl o) ↦ elim (Bool-cases res.is_replay) [
          | inl y ↦
              db
              ∙ ap (λ (z : Result Error TradeResult × Db). z.1) h
              ∙ replay_unchanged env (trade_request p v) w.db db' res h y
          | inr y ↦
              let c = sym (caught-ok (λ (r : TradeResult). r.is_replay) x res o) ∙ e in
              absurd (n (subst IsCreated (ok-injective c) (rw y tt)))
        ]
        | inl (res, db', h, inr o) ↦
            absurd
              (not_ok (sym (caught-err (λ (r : TradeResult). r.is_replay) x channel_error o) ∙ e))
        | inr (er, db', h, o) ↦
            db
            ∙ ap (λ (z : Result Error TradeResult × Db). z.1) h
            ∙ execute_trade_atomic env (trade_request p v) w.db db' er h
      ]

  none_unchanged :
      (v : TradeBody) (a : Response TradeResult) (w' : World)
      → submit_valid_trade layer env user v none w ≡ (ok a, w')
      → w'.db ≡ w.db
  unfolding submit_valid_trade
  none_unchanged v a w' q = ground arith

  -- An answer other than 201 to a trade, a 200, 404, 409 or 422, comes with tables that are as they were.
  pub refused_trade_changes_nothing :
      (a : Response TradeResult) (w' : World)
      → post_trade layer env user strip b w ≡ (ok a, w')
      → ¬ IsCreated a
      → w'.db ≡ w.db
  unfolding post_trade
  refused_trade_changes_nothing a w' e n =
      elim (Option-cases (validate_trade strip env.parsers.upper b)) [
        | inl i ↦ ground arith
        | inr (v, i) ↦ elim (Option-cases (get_portfolio_for_user user w.db)) [
          | inl j ↦ none_unchanged v a w' (rw (i, j) at e)
          | inr (p, j) ↦
              let q : submit_valid_trade layer env user v (some p) w ≡ (ok a, w') =
                rw (i, j) at e in
              sym (ap (λ (z : Result Error (Response TradeResult) × World). z.1.db) q)
              ∙ valid_unchanged p v a
                  (ap (λ (z : Result Error (Response TradeResult) × World). z.0) q) n
        ]
      ]
