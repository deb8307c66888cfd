-- ===== src/Ledger/Api/Created.antt =====
-- What a trade that is answered by 201 has done.
use mathlib.Core.Path.{subst}
use djaskt_trading_app.Prelude.{
  ℕ, String, ◌≡◌, ap, sym, ◌∙◌, arith, Bool, false, none, some, Option-cases, Bool-cases, inl, inr,
  if◌then◌else◌,
}
use djaskt_trading_app.Prelude.Action.{Result, ok}
use djaskt_trading_app.Ledger.Models.{Error, channel_error, Portfolio, Trade, Db}
use djaskt_trading_app.Ledger.Trade.{
  Env, TradeRequest, TradeInstance, TradeResult, find_trade, execute_trade,
}
use djaskt_trading_app.Ledger.Trade.Effect.{trade_block-eq-ok, row_of}
use djaskt_trading_app.Ledger.Trade.Written.{row_id}
use djaskt_trading_app.Ledger.Trade.Outcome.{
  TradeOutcome, rejected, replayed, executed, execute_trade_outcome,
}
use djaskt_trading_app.Ledger.Trade.Replay.{Committed-find_trade}
use djaskt_trading_app.Ledger.Orchestrator.{
  ChannelLayer, World, submit_trade, get_portfolio_for_user,
}
use djaskt_trading_app.Ledger.Orchestrator.Laws.{submit_trade_db}
use djaskt_trading_app.Ledger.Api.{
  TradeBody, Response, created_201, ok_200, handled, trade_request, validate_trade,
  submit_valid_trade, post_trade, answer,
}
use djaskt_trading_app.Ledger.Api.Laws.{
  submit_trade-ends, ok-injective, caught-world, caught-ok, caught-err, not_ok,
}

ok_not_created : {A : Type 0} {a a' : A} → ok_200 a ≡ created_201 a' → ⊥
ok_not_created h = cc

created-injective : {A : Type 0} {a a' : A} → created_201 a ≡ created_201 a' → a ≡ a'
created-injective h = ground arith

answer-eq-created :
    {A : Type 0} (f : A → Bool) (a a' : A) → f a ≡ false → answer f a ≡ created_201 a' → a ≡ a'
answer-eq-created f a a' n h =
    created-injective (subst (λ b. (if b then ok_200 a else created_201 a) ≡ created_201 a') n h)

handled-eq-created : {A : Type 0} {a : A} (e : Error) → handled e ≡ ok (created_201 a) → ⊥
unfolding handled
handled-eq-created e h = ground arith

-- A fresh trade's entry.
freshly_entered :
    (env : Env) (r : TradeRequest) (db db' : Db) (res : TradeResult)
    → execute_trade env r db ≡ (ok res, db')
    → res.is_replay ≡ false
    → (t : Trade) × (find_trade r.idempotency_key db ≡ none)
      × (find_trade r.idempotency_key db' ≡ some t)
      × (t.portfolio ≡ r.portfolio_id)
      × (t.id ≡ res.trade.id)
freshly_entered env r db db' res h n = after (execute_trade_outcome env r db) h
  where
    Entered : Type 0
    Entered =
        (t : Trade) × (find_trade r.idempotency_key db ≡ none)
        × (find_trade r.idempotency_key db' ≡ some t)
        × (t.portfolio ≡ r.portfolio_id)
        × (t.id ≡ res.trade.id)

    after :
        {x : Result Error TradeResult × Db} → TradeOutcome env r db x → x ≡ (ok res, db') → Entered
    after (rejected _) p = absurd (ground arith)
    after (replayed kind t g f) p = absurd (ground arith)
    after (executed kind price total t db₁ g f m v b) p =
        let c = trade_block-eq-ok env r kind (env.parsers.upper r.ticker) price total db b in
        let same : db₁ ≡ db' = ground arith in
        let found = Committed-find_trade env r kind (env.parsers.upper r.ticker) price total db c in
        let id = row_id env r kind (env.parsers.upper r.ticker) price total db c in
        let owner = ap (λ (i : TradeInstance). i.portfolio_id) c.made in
        (
          row_of t c.inserted.quantity c.inserted.price c.inserted.total,
          f,
          subst
              (λ z.
                find_trade r.idempotency_key z
                ≡ some (row_of t c.inserted.quantity c.inserted.price c.inserted.total))
              same found,
          owner ∙ id,
          ground arith,
        )

module _ (layer : ChannelLayer) (env : Env) (user : ℕ) (strip : String → String) (b : TradeBody)
    (w : World) where
  -- What a 201 stands for.
  pub record Created (res : TradeResult) (w' : World) : Type 0 where
    pub valid : TradeBody
    pub portfolio : Portfolio
    pub entry : Trade
    pub validated : validate_trade strip env.parsers.upper b ≡ some valid
    pub own : get_portfolio_for_user user w.db ≡ some portfolio
    pub not_before : find_trade valid.idempotency_key w.db ≡ none
    pub entered : find_trade valid.idempotency_key w'.db ≡ some entry
    pub of_own : entry.portfolio ≡ portfolio.id
    pub same_trade : entry.id ≡ res.trade.id

  valid-Created :
      (v : TradeBody) (p : Portfolio) (res : TradeResult) (w' : World)
      → validate_trade strip env.parsers.upper b ≡ some v
      → get_portfolio_for_user user w.db ≡ some p
      → submit_valid_trade layer env user v (some p) w ≡ (ok (created_201 res), w')
      → Created res w'
  unfolding submit_valid_trade
  valid-Created v p res w' i j e =
      let replay = λ (r : TradeResult). r.is_replay in
      let x = submit_trade layer env (trade_request p v) w in
      let answered = ap (λ (z : Result Error (Response TradeResult) × World). z.0) e in
      let kept = ap (λ (z : Result Error (Response TradeResult) × World). z.1.db) e in
      let db =
        sym kept
        ∙ ap (λ (z : World). z.db) (caught-world replay x)
        ∙ submit_trade_db layer env (trade_request p v) w in
      elim (submit_trade-ends layer env (trade_request p v) w) [
        | inl (res₁, db', h, inl o) ↦
            let c = ok-injective (sym (caught-ok replay x res₁ o) ∙ answered) in
            elim (Bool-cases res₁.is_replay) [
              | inl y ↦ absurd (ok_not_created (rw y at c))
              | inr y ↦
                  let same : res₁ ≡ res = answer-eq-created replay res₁ res y c in
                  let stored = db ∙ ap (λ (z : Result Error TradeResult × Db). z.1) h in
                  let (t, before, found, owner, id) =
                    freshly_entered env (trade_request p v) w.db db' res₁ h y in
                  record {
                    valid = v;
                    portfolio = p;
                    entry = t;
                    validated = i;
                    own = j;
                    not_before = before;
                    entered = rw stored found;
                    of_own = owner;
                    same_trade = rw (← same) id;
                  }
            ]
        | inl (res₁, db', h, inr o) ↦
            absurd (not_ok (sym (caught-err replay x channel_error o) ∙ answered))
        | inr (er, db', h, o) ↦
            absurd (handled-eq-created er (sym (caught-err replay x er o) ∙ answered))
      ]

  none_created :
      (v : TradeBody) (res : TradeResult) (w' : World)
      → submit_valid_trade layer env user v none w ≡ (ok (created_201 res), w')
      → ⊥
  unfolding submit_valid_trade
  none_created v res w' q = ground arith

  -- An answer 201 to a trade comes with an entry under the request's key, which no entry had before, of
  -- the user's own portfolio.
  pub post_trade-Created :
      (res : TradeResult) (w' : World)
      → post_trade layer env user strip b w ≡ (ok (created_201 res), w')
      → Created res w'
  unfolding post_trade
  post_trade-Created res w' e = elim (Option-cases (validate_trade strip env.parsers.upper b)) [
    | inl i ↦ absurd (ground arith)
    | inr (v, i) ↦ elim (Option-cases (get_portfolio_for_user user w.db)) [
      | inl j ↦ absurd (none_created v res w' (rw (i, j) at e))
      | inr (p, j) ↦ valid-Created v p res w' i j (rw (i, j) at e)
    ]
  ]
