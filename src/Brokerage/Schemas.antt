-- ===== src/Brokerage/Schemas.antt =====
-- brokerage/api/schemas.py: the bodies of requests and answers, and the answers by status.
use djaskt_trading_app.Prelude.{ℕ, String, Bool}
use djaskt_trading_app.Brokerage.Json.{Fields}
use djaskt_trading_app.Brokerage.Orchestrator.{is_registered}

pub record UserBrokerageLinkCreate : Type 0 where
  pub brokerage_name : String
  pub user_brokerage_data : Fields

pub record UserBrokerageLinkResponse : Type 0 where
  pub id : ℕ
  pub brokerage_name : String
  pub user_brokerage_data : Fields
  pub is_connected : Bool

pub record BrokerLoginRequest : Type 0 where
  pub brokerage_name : String
  pub user_credentials : Fields

pub record BrokerLoginResponse : Type 0 where
  pub brokerage_name : String
  pub client_id : String
  pub expires_in_seconds : ℕ

-- The message follows from `disconnected`, and is left out.
pub record BrokerLogoutResponse : Type 0 where
  pub brokerage_name : String
  pub disconnected : Bool

-- The field validator of every body with a brokerage's name.
abbrev pub brokerage_must_be_known : String → Bool
brokerage_must_be_known name = is_registered name

pub data Answer (A : Type 0) : Type 0 where
  ok_200 created_201 : A → Answer A
  no_content_204 not_found_404 conflict_409 unprocessable_422 too_many_requests_429
        bad_gateway_502 :
      Answer A
