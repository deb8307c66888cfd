-- ===== src/Application/Unseen.antt =====
-- What one user requests is not seen by the others.
use djaskt_trading_app.Prelude.{
  ℕ, String, ◌==◌, ◌≡◌, refl, sym, ap, ◌∙◌, arith, false, Option-cases, inl, inr, ◌∷◌,
}
use djaskt_trading_app.Prelude.Rows.{find}
use djaskt_trading_app.Prelude.Action.{Result, ok, err, Action}
use djaskt_trading_app.Ledger.Models.{Error, Portfolio, Db, for_user}
use djaskt_trading_app.Ledger.Orchestrator.{World, get_portfolio_for_user}
use djaskt_trading_app.Ledger.Api.{Response, portfolio_response, get_portfolio, list_trades}
use djaskt_trading_app.Ledger.Isolation.{HasIdsOnce, SeesSame, unchanged}
use djaskt_trading_app.Ledger.Isolation.Endpoints.{post_trade-SeesSame, post_cash_transfer-SeesSame}
use djaskt_trading_app.Accounts.Redis.{Redis}
use djaskt_trading_app.Accounts.Auth.{User, Jwt, AuthError}
use djaskt_trading_app.Accounts.Signup.{Site, SignupEnv, signup}
use djaskt_trading_app.Accounts.Signup.Laws.{signup_outcome}
use djaskt_trading_app.Application.{
  Request, signs_up, trades, transfers, refreshes, logs_out, logs_out_all, State, world_of,
  enter_ledger, user_of_bearer, serve,
}

-- A new portfolio is not seen by a user who is not its owner.
portfolio_unseen :
    (other : ℕ) (p : Portfolio) (db : Db)
    → (other == p.user) ≡ false
    → SeesSame other db (record db { portfolios = p ∷ db.portfolios })
unfolding get_portfolio list_trades portfolio_response get_portfolio_for_user
portfolio_unseen other p db n =
    let m : (p.user == other) ≡ false = ground arith in
    elim (Option-cases (find (for_user other) db.portfolios)) [
      | inl f ↦ record { portfolio = rw (m, f) refl; trades = rw (m, f) refl }
      | inr (q, f) ↦ record { portfolio = rw (m, f) refl; trades = rw (m, f) refl }
    ]

signup-SeesSame :
    (env : SignupEnv) (email : String) (other : ℕ) (s : Site)
    → (other == env.new_user_id) ≡ false
    → SeesSame other s.ledger (signup env email s).1.ledger
signup-SeesSame env email other s n =
    elim (signup_outcome env email s (signup env email s).0 (signup env email s).1 refl) [
      | inr (same, _) ↦ rw same (unchanged other s.ledger s.ledger refl)
      | inl (user, _, c) ↦
          let id : env.new_user_id ≡ user.id = ap (λ (u : User). u.id) (sym c.made) in
          let m : (other == user.id) ≡ false = ap (λ k. other == k) (sym id) ∙ n in
          rw c.written (portfolio_unseen other _ s.ledger m)
    ]

module _ (jwt : Jwt) (redis : Redis) (other now : ℕ) (st : State jwt redis) where
  -- The request is not made by a user, nor does it make that user's account.
  unfoldable pub IsNotBy : Request → Type 0
  IsNotBy (signs_up env email) = (other == env.new_user_id) ≡ false
  IsNotBy (trades layer env strip bearer body) =
      (u : User) → user_of_bearer jwt redis now bearer st ≡ ok u → (other == u.id) ≡ false
  IsNotBy (transfers layer env bearer body) =
      (u : User) → user_of_bearer jwt redis now bearer st ≡ ok u → (other == u.id) ≡ false
  IsNotBy _ = Unit

  enter_ledger-SeesSame :
      {A : Type 0} (x : Result AuthError User) (handler : ℕ → Action World Error (Response A))
      → ((u : User)
          → x ≡ ok u
          → SeesSame other st.site.ledger (handler u.id (world_of jwt redis st)).1.db)
      → SeesSame other st.site.ledger (enter_ledger jwt redis x handler st).site.ledger
  unfolding enter_ledger
  enter_ledger-SeesSame (err e) handler k = unchanged other st.site.ledger st.site.ledger refl
  enter_ledger-SeesSame (ok u) handler k = k u refl

  -- After any one request that a user has not made, a signup, a trade, a transfer, a refresh or a
  -- logout, with whatever token, and however it ends, that user sees the same portfolio with the same
  -- balance and holdings, and the same history of trades, as before it. The ids of portfolios are unique,
  -- and a signup's new account is not that user's.
  pub served_is_unseen_by_others :
      (r : Request)
      → HasIdsOnce st.site.ledger.portfolios
      → IsNotBy r
      → SeesSame other st.site.ledger (serve jwt redis now r st).site.ledger
  unfolding serve IsNotBy
  served_is_unseen_by_others (signs_up env email) once n = signup-SeesSame env email other st.site n
  served_is_unseen_by_others (trades layer env strip bearer body) once n =
      enter_ledger-SeesSame (user_of_bearer jwt redis now bearer st) _ (λ u e.
        post_trade-SeesSame layer env u.id other (world_of jwt redis st) once (n u e) strip body)
  served_is_unseen_by_others (transfers layer env bearer body) once n =
      enter_ledger-SeesSame (user_of_bearer jwt redis now bearer st) _ (λ u e.
        post_cash_transfer-SeesSame layer env u.id other (world_of jwt redis st) once (n u e) body)
  served_is_unseen_by_others (refreshes issuer token) once n = unchanged other _ _ refl
  served_is_unseen_by_others (logs_out bearer access refresh) once n = unchanged other _ _ refl
  served_is_unseen_by_others (logs_out_all bearer) once n = unchanged other _ _ refl
