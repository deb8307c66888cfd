-- ===== src/Ledger/Isolation/Endpoints.antt =====
-- What a user posts is not seen by any other user.
use djaskt_trading_app.Prelude.{
  ℕ, String, ◌==◌, ◌≡◌, ◌≢◌, refl, ap, ◌∙◌, false, some, Option-cases, inl, inr,
}
use djaskt_trading_app.Ledger.Models.{Portfolio}
use djaskt_trading_app.Ledger.Trade.{Env, TradeResult}
use djaskt_trading_app.Ledger.Cash.{CashTransferResult}
use djaskt_trading_app.Ledger.Orchestrator.{
  ChannelLayer, World, get_portfolio_for_user, submit_trade, submit_cash_transfer,
}
use djaskt_trading_app.Ledger.Orchestrator.Laws.{submit_trade_db, submit_cash_transfer_db}
use djaskt_trading_app.Ledger.Api.{
  TradeBody, TransferBody, validate_trade, validate_transfer, trade_request, transfer_request,
  submit_valid_trade, post_trade, transfer_valid_cash, post_cash_transfer,
}
use djaskt_trading_app.Ledger.Api.Laws.{caught-world}
use djaskt_trading_app.Ledger.Isolation.{HasIdsOnce, ids_differ, SeesSame, unchanged}
use djaskt_trading_app.Ledger.Isolation.Services.{execute_trade-SeesSame, apply_transfer-SeesSame}

module _ (layer : ChannelLayer) (env : Env) (user other : ℕ) (w : World)
    (once : HasIdsOnce w.db.portfolios) (ne : (other == user) ≡ false) where
  -- The other user's portfolio is not the one that the user was found to have.
  differs :
      (p : Portfolio)
      → get_portfolio_for_user user w.db ≡ some p
      → (q : Portfolio) → get_portfolio_for_user other w.db ≡ some q
      → q.id ≢ p.id
  unfolding get_portfolio_for_user
  differs p e q f = ids_differ user other w.db.portfolios p q once ne e f

  submit_valid_trade-SeesSame :
      (p : Portfolio) (v : TradeBody)
      → get_portfolio_for_user user w.db ≡ some p
      → SeesSame other w.db (submit_valid_trade layer env user v (some p) w).1.db
  unfolding submit_valid_trade
  submit_valid_trade-SeesSame p v e =
      let db =
        ap (λ (z : World). z.db)
          (caught-world (λ (r : TradeResult). r.is_replay)
            (submit_trade layer env (trade_request p v) w))
        ∙ submit_trade_db layer env (trade_request p v) w in
      rw db (execute_trade-SeesSame env (trade_request p v) other w.db (differs p e))

  transfer_valid_cash-SeesSame :
      (p : Portfolio) (v : TransferBody)
      → get_portfolio_for_user user w.db ≡ some p
      → SeesSame other w.db (transfer_valid_cash layer env user v (some p) w).1.db
  unfolding transfer_valid_cash
  transfer_valid_cash-SeesSame p v e =
      let db =
        ap (λ (z : World). z.db)
          (caught-world (λ (r : CashTransferResult). r.is_replay)
            (submit_cash_transfer layer env (transfer_request p v) w))
        ∙ submit_cash_transfer_db layer env (transfer_request p v) w in
      rw db (apply_transfer-SeesSame env (transfer_request p v) other w.db (differs p e))

  pub post_trade-SeesSame :
      (strip : String → String) (b : TradeBody)
      → SeesSame other w.db (post_trade layer env user strip b w).1.db
  unfolding post_trade submit_valid_trade
  post_trade-SeesSame strip b = elim (Option-cases (validate_trade strip env.parsers.upper b)) [
    | inl i ↦ rw i (unchanged other w.db w.db refl)
    | inr (v, i) ↦ elim (Option-cases (get_portfolio_for_user user w.db)) [
      | inl j ↦ rw (i, j) (unchanged other w.db w.db refl)
      | inr (p, j) ↦ rw (i, j) (submit_valid_trade-SeesSame p v j)
    ]
  ]

  pub post_cash_transfer-SeesSame :
      (b : TransferBody) → SeesSame other w.db (post_cash_transfer layer env user b w).1.db
  unfolding post_cash_transfer transfer_valid_cash
  post_cash_transfer-SeesSame b = elim (Option-cases (validate_transfer b)) [
    | inl i ↦ rw i (unchanged other w.db w.db refl)
    | inr (v, i) ↦ elim (Option-cases (get_portfolio_for_user user w.db)) [
      | inl j ↦ rw (i, j) (unchanged other w.db w.db refl)
      | inr (p, j) ↦ rw (i, j) (transfer_valid_cash-SeesSame p v j)
    ]
  ]

-- Whatever trade or transfer a user posts, and however the request ends, every other user sees the same
-- portfolio with the same balance and holdings, and the same history of trades, as before it. The ids
-- of portfolios are unique.
pub posts_are_unseen_by_others :
    (layer : ChannelLayer) (env : Env) (strip : String → String) (user other : ℕ)
    (trade : TradeBody) (transfer : TransferBody) (w : World)
    → HasIdsOnce w.db.portfolios
    → (other == user) ≡ false
    → SeesSame other w.db (post_trade layer env user strip trade w).1.db
      × SeesSame other w.db (post_cash_transfer layer env user transfer w).1.db
posts_are_unseen_by_others layer env strip user other trade transfer w once ne = (
  post_trade-SeesSame layer env user other w once ne strip trade,
  post_cash_transfer-SeesSame layer env user other w once ne transfer,
)
