-- ===== src/Brokerage/Orchestrator.antt =====
-- brokerage/services/orchestrator.py: `BrokerAuthOrchestrator`, and brokerage/strategies/registry.py.
pub mod Laws
pub mod Login
use package.text.Mathlib.Text.{◌==◌ as str_eq}
use djaskt_trading_app.Prelude.{ℕ, String, Bool, true, false, Option, none, some, if◌then◌else◌}
use djaskt_trading_app.Prelude.Rows.{find}
use djaskt_trading_app.Prelude.Action.{
  Result, ok, err, Action, pure, lift, raise_if, gets, or_raise, ◌>>=◌, ◌>>◌,
}
use djaskt_trading_app.Brokerage.Json.{Fields}
use djaskt_trading_app.Brokerage.Models.{
  BrokerError, unknown_broker, no_brokerage_link, broker_api, broker_rate_limited, Brokerage,
  BrokerageEndpoint, UserBrokerageLink, Tables, is_active_named, is_link, has_purpose,
}
use djaskt_trading_app.Brokerage.Strategy.{
  BrokerSession, CachedSession, Request, Reply, authenticate, logout,
}
use djaskt_trading_app.Brokerage.Cache.{SessionRedis, at, store, cached}

abbrev pub login_cooldown_seconds : ℕ
login_cooldown_seconds = 2

-- `BROKER_STRATEGIES`: the one strategy is Angel One's.
abbrev pub is_registered : String → Bool
is_registered name = str_eq name "angel_one"

unfoldable pub acquired : {S : Type 0} → Bool × S → Result BrokerError (Unit {0}) × S
acquired (true, s) = (ok tt, s)
acquired (false, s) = (err broker_rate_limited, s)

module _ (redis : SessionRedis) (http : Request → Reply) (tables : Tables) (now : ℕ) (user : ℕ)
    (name : String) where
  unfoldable pub get_strategy_class : Action redis.State BrokerError (Unit {0})
  get_strategy_class = raise_if (if is_registered name then false else true) unknown_broker

  unfoldable pub get_brokerage_and_link :
      Action redis.State BrokerError (Brokerage × UserBrokerageLink)
  get_brokerage_and_link = do
    brokerage ← or_raise (find (is_active_named name) tables.brokerages) unknown_broker
    link ← or_raise (find (is_link user brokerage) tables.links) no_brokerage_link
    pure (brokerage, link)

  unfoldable pub enforce_login_cooldown : Action redis.State BrokerError (Unit {0})
  enforce_login_cooldown s = acquired (redis.set_nx user name login_cooldown_seconds (at now) s)

  unfoldable pub authenticate_and_cache :
      Fields → Action redis.State BrokerError (BrokerSession × ℕ)
  authenticate_and_cache login_secrets = do
    get_strategy_class
    found ← get_brokerage_and_link
    endpoint ← or_raise (find (has_purpose found.0 "login") tables.endpoints) unknown_broker
    enforce_login_cooldown
    session ← lift (authenticate http endpoint found.1.user_brokerage_data login_secrets)
    ttl_seconds ← store redis now user name session
    pure (session, ttl_seconds)

  -- The `try` block: a missing endpoint is only logged.
  unfoldable pub broker_side_logout :
      Option BrokerageEndpoint → UserBrokerageLink → CachedSession → Result BrokerError (Unit {0})
  broker_side_logout none link c = ok tt
  broker_side_logout (some e) link c = logout http e link.user_brokerage_data c

  -- Its `except`: a `BrokerAPIError` is only logged, any other error goes on.
  unfoldable pub logged : Result BrokerError (Unit {0}) → Result BrokerError Bool
  logged (ok _) = ok true
  logged (err broker_api) = ok true
  logged (err e) = err e

  -- With the `finally`.
  unfoldable pub clear :
      Brokerage → UserBrokerageLink → Option CachedSession → Action redis.State BrokerError Bool
  clear b link none s = (ok false, s)
  clear b link (some c) s = (
    logged (broker_side_logout (find (has_purpose b "logout") tables.endpoints) link c),
    redis.delete user name s,
  )

  unfoldable pub logout_and_clear : Action redis.State BrokerError Bool
  logout_and_clear = do
    get_strategy_class
    found ← get_brokerage_and_link
    session ← gets (cached redis now user name)
    clear found.0 found.1 session
