-- ===== src/Application/Well.antt =====
-- The tables stay well formed through any requests.
use djaskt_trading_app.Prelude.{ℕ, List, [], ◌∷◌}
use djaskt_trading_app.Prelude.Rows.{All}
use djaskt_trading_app.Prelude.Action.{Result, ok, err, Action}
use djaskt_trading_app.Ledger.Models.{Error}
use djaskt_trading_app.Ledger.Column.{IsColumn}
use djaskt_trading_app.Ledger.Orchestrator.{World}
use djaskt_trading_app.Ledger.Api.{Response}
use djaskt_trading_app.Accounts.Redis.{Redis}
use djaskt_trading_app.Accounts.Auth.{User, Jwt, AuthError}
use djaskt_trading_app.Application.{
  Request, signs_up, trades, transfers, refreshes, logs_out, logs_out_all, State, world_of,
  enter_ledger, user_of_bearer, serve, serve_all,
}
use djaskt_trading_app.Application.Kept.{
  Keeps, post_trade-Keeps, post_cash_transfer-Keeps, IsWell, Keeps-IsWell, signup-IsWell,
}

-- The decimal columns are those of the database.
abbrev pub HasColumn : Request → Type 0
HasColumn (trades layer env strip bearer body) = IsColumn env.store
HasColumn (transfers layer env bearer body) = IsColumn env.store
HasColumn _ = Unit

module _ (jwt : Jwt) (redis : Redis) where
  enter_ledger-IsWell :
      {A : Type 0} (x : Result AuthError User) (handler : ℕ → Action World Error (Response A))
      (st : State jwt redis)
      → ((user : ℕ) → Keeps st.site.ledger (handler user (world_of jwt redis st)).1.db)
      → IsWell st.site
      → IsWell (enter_ledger jwt redis x handler st).site
  unfolding enter_ledger
  enter_ledger-IsWell (err e) handler st k h = h
  enter_ledger-IsWell (ok u) handler st k h = Keeps-IsWell st.site _ (k u.id) h

  serve-IsWell :
      (now : ℕ) (r : Request) (st : State jwt redis)
      → HasColumn r
      → IsWell st.site
      → IsWell (serve jwt redis now r st).site
  unfolding serve
  serve-IsWell now (signs_up env email) st c h = signup-IsWell env email st.site h
  serve-IsWell now (trades layer env strip bearer body) st c h =
      enter_ledger-IsWell (user_of_bearer jwt redis now bearer st) _ st
        (λ user. post_trade-Keeps layer env user (world_of jwt redis st) c strip body) h
  serve-IsWell now (transfers layer env bearer body) st c h =
      enter_ledger-IsWell (user_of_bearer jwt redis now bearer st) _ st
        (λ user. post_cash_transfer-Keeps layer env user (world_of jwt redis st) c body) h
  serve-IsWell now (refreshes issuer token) st c h = h
  serve-IsWell now (logs_out bearer access refresh) st c h = h
  serve-IsWell now (logs_out_all bearer) st c h = h

  -- Whatever signups, trades, transfers, refreshes and logouts are requested, with whatever tokens and in
  -- whatever order, and however each of them ends: no balance and no holding becomes negative, no
  -- idempotency key is used twice, every email belongs to one account, and every user has a portfolio.
  pub serve_all-IsWell :
      (rs : List (ℕ × Request)) (st : State jwt redis)
      → All (λ (r : ℕ × Request). HasColumn r.1) rs
      → IsWell st.site
      → IsWell (serve_all jwt redis rs st).site
  unfolding serve_all
  serve_all-IsWell [] st c h = h
  serve_all-IsWell ((now, r) ∷ rs) st (c, cs) h =
      serve_all-IsWell rs (serve jwt redis now r st) cs (serve-IsWell now r st c h)
