-- ===== src/Application.antt =====
-- The application as a whole: the requests of accounts/api.py and ledger/api/router.py that change a
-- table or the denylist, one after the other. The controllers of the ledger have
-- `auth=DenylistCheckingJWTAuth()`, so a handler is entered with the user of the bearer token or not at
-- all.
pub mod Kept
pub mod Well
pub mod Unseen
use djaskt_trading_app.Prelude.{ℕ, String, Option, List, [], ◌∷◌}
use djaskt_trading_app.Prelude.Action.{Result, ok, err, Action}
use djaskt_trading_app.Ledger.Models.{Error}
use djaskt_trading_app.Ledger.Trade.{Env}
use djaskt_trading_app.Ledger.Orchestrator.{ChannelLayer, Update, World}
use djaskt_trading_app.Ledger.Api.{
  TradeBody, TransferBody, Response, post_trade, post_cash_transfer,
}
use djaskt_trading_app.Accounts.Redis.{Redis}
use djaskt_trading_app.Accounts.Auth.{User, Jwt, AuthError, validate_and_get_user}
use djaskt_trading_app.Accounts.Api.{
  Issuer, ApiError, Tokens, seconds, authenticated, refresh, logout, logout_all,
}
use djaskt_trading_app.Accounts.Api as Accounts
use djaskt_trading_app.Accounts.Signup.{Site, SignupEnv, signup}

-- A request, with what its call finds outside.
pub data Request : Type 0 where
  signs_up : SignupEnv → (email : String) → Request
  trades : ChannelLayer → Env → (strip : String → String) → (bearer : String) → TradeBody → Request
  transfers : ChannelLayer → Env → (bearer : String) → TransferBody → Request
  refreshes : Issuer → (token : String) → Request
  logs_out : (bearer : String) → (access refresh : Option String) → Request
  logs_out_all : (bearer : String) → Request

module _ (jwt : Jwt) (redis : Redis) where
  -- The tables, the events sent so far, and what Redis holds.
  pub record State : Type 0 where
    pub site : Site
    pub sent : List Update
    pub denylist : redis.State

  abbrev pub world_of : State → World
  world_of st = record { db = st.site.ledger; sent = st.sent }

  abbrev pub with_world : State → World → State
  with_world st w = record st { site = record (st.site) { ledger = w.db }; sent = w.sent }

  -- A handler of the ledger, behind the authentication.
  unfoldable pub enter_ledger :
      {A : Type 0} → Result AuthError User → (ℕ → Action World Error (Response A)) → State → State
  enter_ledger (err e) handler st = st
  enter_ledger (ok u) handler st = with_world st (handler u.id (world_of st)).1

  abbrev pub user_of_bearer : ℕ → String → State → Result AuthError User
  user_of_bearer now bearer st =
      validate_and_get_user jwt redis st.site.users (seconds now) st.denylist bearer

  -- One request at a moment.
  unfoldable pub serve : ℕ → Request → State → State
  serve now (signs_up env email) st = record st { site = (signup env email st.site).1 }
  serve now (trades layer env strip bearer body) st =
      enter_ledger (user_of_bearer now bearer st) (λ user. post_trade layer env user strip body) st
  serve now (transfers layer env bearer body) st =
      enter_ledger (user_of_bearer now bearer st) (λ user. post_cash_transfer layer env user body)
        st
  serve now (refreshes issuer token) st = record st {
    denylist = (refresh jwt issuer redis st.site.users now token st.denylist).1;
  }
  serve now (logs_out bearer access refresh) st = record st {
    denylist =
        (authenticated jwt redis st.site.users now bearer
          (λ _. logout jwt redis st.site.users now access refresh) st.denylist).1;
  }
  serve now (logs_out_all bearer) st = record st {
    denylist =
        (authenticated jwt redis st.site.users now bearer
          (λ user. logout_all jwt redis st.site.users now user) st.denylist).1;
  }

  -- The requests in their order, each at its moment.
  unfoldable pub serve_all : List (ℕ × Request) → State → State
  serve_all [] st = st
  serve_all ((now, r) ∷ rs) st = serve_all rs (serve now r st)
