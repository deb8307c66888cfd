-- ===== src/Brokerage/Api.antt =====
-- brokerage/api/router.py: the endpoints that log a user in at a broker, and out.
pub mod Laws
use djaskt_trading_app.Prelude.{ℕ, String, Bool, true, false, Option, none, some, if◌then◌else◌}
use djaskt_trading_app.Prelude.Action.{Result, ok, err}
use djaskt_trading_app.Brokerage.Json.{Json, text}
use djaskt_trading_app.Brokerage.Models.{
  BrokerError, unknown_broker, no_brokerage_link, broker_api, invalid_broker_credentials,
  broker_rate_limited, uncaught, Tables,
}
use djaskt_trading_app.Brokerage.Strategy.{BrokerSession, Request, Reply}
use djaskt_trading_app.Brokerage.Cache.{SessionRedis}
use djaskt_trading_app.Brokerage.Schemas.{
  BrokerLoginRequest, BrokerLoginResponse, BrokerLogoutResponse, brokerage_must_be_known, Answer,
  ok_200, not_found_404, conflict_409, unprocessable_422, too_many_requests_429, bad_gateway_502,
}
use djaskt_trading_app.Brokerage.Orchestrator.{authenticate_and_cache, logout_and_clear}

-- `BrokerLoginResponseSchema` takes a text for `client_id`: of anything else it raises a `ValidationError`.
abbrev pub login_response : String → ℕ → Json → Result BrokerError (Answer BrokerLoginResponse)
login_response name ttl_seconds (text c) =
    ok (ok_200 (record { brokerage_name = name; client_id = c; expires_in_seconds = ttl_seconds }))
login_response name ttl_seconds _ = err uncaught

-- The `except` clauses of `broker_login`.
unfoldable pub login_failed : BrokerError → Result BrokerError (Answer BrokerLoginResponse)
login_failed unknown_broker = ok not_found_404
login_failed no_brokerage_link = ok not_found_404
login_failed invalid_broker_credentials = ok conflict_409
login_failed broker_rate_limited = ok too_many_requests_429
login_failed broker_api = ok bad_gateway_502
login_failed uncaught = err uncaught

-- Those of `broker_logout`.
unfoldable pub logout_failed : BrokerError → Result BrokerError (Answer BrokerLogoutResponse)
logout_failed unknown_broker = ok not_found_404
logout_failed no_brokerage_link = ok not_found_404
logout_failed e = err e

module _ {S : Type 0} (name : String) where
  unfoldable pub login_answer :
      Result BrokerError (BrokerSession × ℕ) × S
      → Result BrokerError (Answer BrokerLoginResponse) × S
  login_answer (ok (session, ttl_seconds), s) =
      (login_response name ttl_seconds session.client_id, s)
  login_answer (err e, s) = (login_failed e, s)

  unfoldable pub logout_answer :
      Result BrokerError Bool × S → Result BrokerError (Answer BrokerLogoutResponse) × S
  logout_answer (ok disconnected, s) =
      (ok (ok_200 (record { brokerage_name = name; disconnected = disconnected })), s)
  logout_answer (err e, s) = (logout_failed e, s)

module _ (redis : SessionRedis) (http : Request → Reply) (tables : Tables) (now : ℕ)
    (user : ℕ) where
  unfoldable pub broker_login :
      BrokerLoginRequest
      → redis.State
      → Result BrokerError (Answer BrokerLoginResponse) × redis.State
  broker_login payload s =
      if brokerage_must_be_known payload.brokerage_name
      then login_answer payload.brokerage_name (
          authenticate_and_cache redis http tables now user payload.brokerage_name
            payload.user_credentials s)
      else (ok unprocessable_422, s)

  -- The request's one field is the brokerage's name.
  unfoldable pub broker_logout :
      String → redis.State → Result BrokerError (Answer BrokerLogoutResponse) × redis.State
  broker_logout name s =
      if brokerage_must_be_known name
      then logout_answer name (logout_and_clear redis http tables now user name s)
      else (ok unprocessable_422, s)
