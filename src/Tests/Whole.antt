-- ===== src/Tests/Whole.antt =====
-- Requests one after the other: a signup, trades with a token, a logout, and a trade with the same token.
use djaskt_trading_app.Prelude.{ℕ, ◌==◌, refl, sym, ap, ◌∙◌, some, none, List, [], ◌∷◌}
use djaskt_trading_app.Prelude.Int.{pos}
use djaskt_trading_app.Prelude.Action.{Result, ok, err}
use djaskt_trading_app.Ledger.Models.{Db}
use djaskt_trading_app.Accounts.Auth.{User, AuthError}
use djaskt_trading_app.Ledger.Isolation.{HasIdsOnce, SeesSame}
use djaskt_trading_app.Application.Unseen.{IsNotBy, served_is_unseen_by_others}
use djaskt_trading_app.Ledger.Orchestrator.{working}
use djaskt_trading_app.Ledger.Api.{TradeBody, TransferBody}
use djaskt_trading_app.Application.{
  Request, signs_up, trades, transfers, logs_out, State, serve, serve_all,
}
use djaskt_trading_app.Application.Kept.{IsWell}
use djaskt_trading_app.Application.Well.{serve_all-IsWell}
use djaskt_trading_app.Tests.Numeric.{numeric-IsColumn}
use djaskt_trading_app.Tests.Fixtures.{env, cost, two, db}
use djaskt_trading_app.Tests.Trades.{db-IsSound}
use djaskt_trading_app.Tests.Accounts.{
  redis, jwt, at_100, site, signup_env, peopled, users, lets_in,
}
use djaskt_trading_app.Tests.Login.{emails_once}

abbrev buys : TradeBody
buys = record { ticker = "AAPL"; trade_type = "BUY"; quantity = two; idempotency_key = 600 }

abbrev debits : TransferBody
debits = record { direction = "DEBIT"; amount = cost; idempotency_key = 701 }

abbrev requests : List (ℕ × Request)
requests =
    (at_100, signs_up signup_env "b@x.org")
    ∷ (at_100, trades working env (λ s. s) "access" buys)
    ∷ (at_100, transfers working env "access" debits)
    ∷ (at_100, logs_out "access" (some "access") none)
    ∷ (at_100, trades working env (λ s. s) "access" buys)
    ∷ []

abbrev before : State jwt redis
before = record { site = site; sent = []; denylist = [] }

well : IsWell site
well = record { sound = db-IsSound; emails = emails_once; peopled = peopled }

serve_all-IsWell_example : IsWell (serve_all jwt redis requests before).site
serve_all-IsWell_example =
    serve_all-IsWell jwt redis requests before
      (tt, (numeric-IsColumn, (numeric-IsColumn, (tt, (numeric-IsColumn, tt))))) well

-- Alice, with portfolio 1, trades; user 8 has portfolio 3.
abbrev two_portfolios : Db
two_portfolios = record db {
  portfolios = (record { id = 3; user = 8; cash_balance = pos 0 }) ∷ db.portfolios;
}

abbrev shared : State jwt redis
shared = record {
  site = record { users = users; ledger = two_portfolios };
  sent = [];
  denylist = [];
}

ids_once : HasIdsOnce two_portfolios.portfolios
unfolding HasIdsOnce
ids_once = (refl, (refl, tt))

abbrev id_of : Result AuthError User → ℕ
id_of (ok u) = u.id
id_of (err e) = 0

abbrev alice_buys : Request
alice_buys = trades working env (λ s. s) "access" buys

alice_asks : IsNotBy jwt redis 8 at_100 shared alice_buys
unfolding IsNotBy
alice_asks = λ u e. ap (λ r. 8 == id_of r) (sym e ∙ lets_in)

served_is_unseen_by_others_example :
    SeesSame 8 shared.site.ledger (serve jwt redis at_100 alice_buys shared).site.ledger
served_is_unseen_by_others_example =
    served_is_unseen_by_others jwt redis 8 at_100 shared alice_buys ids_once alice_asks
