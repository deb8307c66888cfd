-- ===== src/Ledger/Api/Shared.antt =====
-- Two users send one idempotency key.
use djaskt_trading_app.Prelude.{
  ℕ, String, ◌≡◌, refl, ap, sym, ◌∙◌, true, false, Option, none, some, Option-cases, Bool-cases,
  inl, inr,
}
use djaskt_trading_app.Prelude.Action.{ok}
use djaskt_trading_app.Decimal.{is_nonpositive}
use djaskt_trading_app.Ledger.Models.{TradeType, trade_type_of, Portfolio, Trade, Db}
use djaskt_trading_app.Ledger.Trade.{Env, TradeInstance, TradeResult, find_trade, of_row}
use djaskt_trading_app.Ledger.Trade.Outcome.{IsWellFormed}
use djaskt_trading_app.Ledger.Trade.Replay.{execute_trade_replays}
use djaskt_trading_app.Ledger.Orchestrator.{
  ChannelLayer, World, submit_trade, broadcast_unless_replay, get_portfolio_for_user,
}
use djaskt_trading_app.Ledger.Api.{
  TradeBody, created_201, ok_200, caught, trade_request, validate_type_and_quantity, validate_trade,
  submit_valid_trade, post_trade,
}
use djaskt_trading_app.Ledger.Api.Created.{post_trade-Created}

-- A validated body has a trade type, a positive quantity, and the key that was sent.
record IsValidated (b v : TradeBody) : Type 0 where
  kind : TradeType
  known : trade_type_of v.trade_type ≡ some kind
  positive : is_nonpositive v.quantity ≡ false
  same_key : v.idempotency_key ≡ b.idempotency_key

checked-IsValidated :
    (b : TradeBody) (ticker : Option String) (v : TradeBody)
    → validate_type_and_quantity b ticker ≡ some v
    → IsValidated b v
unfolding validate_type_and_quantity
checked-IsValidated b none v h = cc
checked-IsValidated b (some ticker) v h = elim (Option-cases (trade_type_of b.trade_type)) [
  | inl n ↦ let h' = rw n at h in cc
  | inr (kind, k) ↦ elim (Bool-cases (is_nonpositive b.quantity)) [
    | inl y ↦ let h' = rw (k, y) at h in cc
    | inr n ↦
        let same : record b { ticker = ticker } ≡ v = let h' = rw (k, n) at h in cc in
        record {
          kind = kind;
          known = ap (λ (x : TradeBody). trade_type_of x.trade_type) (sym same) ∙ k;
          positive = ap (λ (x : TradeBody). is_nonpositive x.quantity) (sym same) ∙ n;
          same_key = ap (λ (x : TradeBody). x.idempotency_key) (sym same);
        }
  ]
]

validate_trade-IsValidated :
    (strip upper : String → String) (b v : TradeBody)
    → validate_trade strip upper b ≡ some v
    → IsValidated b v
unfolding validate_trade
validate_trade-IsValidated strip upper b v h = checked-IsValidated b _ v h

module _ (layer : ChannelLayer) (env : Env) (user : ℕ) (strip : String → String) (b : TradeBody)
    (w : World) where
  -- Whoever sends a valid body with a key that a trade has, and has a portfolio, is given that trade.
  key_is_replayed :
      (v : TradeBody) (p : Portfolio) (t : Trade)
      → validate_trade strip env.parsers.upper b ≡ some v
      → get_portfolio_for_user user w.db ≡ some p
      → find_trade b.idempotency_key w.db ≡ some t
      → post_trade layer env user strip b w
        ≡ (ok (ok_200 (record { trade = of_row t; is_replay = true })), w)
  unfolding post_trade submit_valid_trade submit_trade caught broadcast_unless_replay
  key_is_replayed v p t i j f =
      let x = validate_trade-IsValidated strip env.parsers.upper b v i in
      let well_formed : IsWellFormed (trade_request p v) x.kind = record {
        known = x.known;
        positive = x.positive;
      } in
      let f' = ap (λ k. find_trade k w.db) x.same_key ∙ f in
      let h = execute_trade_replays env (trade_request p v) x.kind w.db t well_formed f' in
      rw (i, j, h) refl

-- A user's trade is answered by 201. If another request, of any user who has a portfolio, then has a
-- valid body with the same key, while no trade was entered in between, it is answered by 200 with
-- that trade, which is of the first user's portfolio; nothing is changed, so nothing is traded.
pub key_shows_other_trade :
    (layer layer' : ChannelLayer) (env env' : Env) (user other : ℕ) (strip strip' : String → String)
    (b b' v : TradeBody) (w w₁ w₂ : World) (res : TradeResult) (q : Portfolio)
    → post_trade layer env user strip b w ≡ (ok (created_201 res), w₁)
    → w₂.db.trades ≡ w₁.db.trades
    → validate_trade strip' env'.parsers.upper b' ≡ some v
    → b'.idempotency_key ≡ b.idempotency_key
    → get_portfolio_for_user other w₂.db ≡ some q
    → (p : Portfolio) × (t : TradeInstance) × (get_portfolio_for_user user w.db ≡ some p)
      × (t.portfolio_id ≡ p.id)
      × (t.id ≡ res.trade.id)
      × (post_trade layer' env' other strip' b' w₂
          ≡ (ok (ok_200 (record { trade = t; is_replay = true })), w₂))
key_shows_other_trade layer layer' env env' user other strip strip' b b' v w w₁ w₂ res q h s i k j =
    let c = post_trade-Created layer env user strip b w res w₁ h in
    let x = validate_trade-IsValidated strip env.parsers.upper b c.valid c.validated in
    let key = k ∙ sym x.same_key in
    let stored : find_trade b'.idempotency_key w₂.db ≡ some c.entry =
      ap (λ n. find_trade n w₂.db) key
      ∙ still_there c.valid.idempotency_key w₂.db w₁.db s
      ∙ c.entered in
    (
      c.portfolio,
      of_row c.entry,
      c.own,
      c.of_own,
      c.same_trade,
      key_is_replayed layer' env' other strip' b' w₂ v q c.entry i j stored,
    )
  where
    still_there :
        (n : ℕ) (db db' : Db) → db.trades ≡ db'.trades → find_trade n db ≡ find_trade n db'
    still_there n db db' e = rw e refl
