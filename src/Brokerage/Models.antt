-- ===== src/Brokerage/Models.antt =====
-- brokerage/models.py and brokerage/exceptions.py. The columns that no code reads are left out: times,
-- a brokerage's display name, and the reference structures of an endpoint.
use package.text.Mathlib.Text.{◌==◌ as str_eq}
use djaskt_trading_app.Prelude.{ℕ, String, Bool, List, ◌==◌, ◌&&◌}
use djaskt_trading_app.Brokerage.Json.{Fields}

-- The domain errors, then what no handler catches: an `AttributeError`, a `TypeError`, a `ValueError`,
-- redis' `DataError`, a violated constraint.
pub data BrokerError : Type 0 where
  unknown_broker no_brokerage_link broker_api invalid_broker_credentials : BrokerError
  broker_rate_limited uncaught : BrokerError

pub data PayloadType : Type 0 where
  json form : PayloadType

pub record Brokerage : Type 0 where
  pub id : ℕ
  pub name : String
  pub is_active : Bool

pub record BrokerageEndpoint : Type 0 where
  pub brokerage : ℕ
  pub purpose : String
  pub url : String
  pub http_method : String
  pub payload_type : PayloadType
  pub default_headers : Fields

pub record UserBrokerageLink : Type 0 where
  pub id : ℕ
  pub user : ℕ
  pub brokerage : ℕ
  pub user_brokerage_data : Fields

pub record Tables : Type 0 where
  pub brokerages : List Brokerage
  pub endpoints : List BrokerageEndpoint
  pub links : List UserBrokerageLink

-- `UserBrokerageLinkQuerySet.for_user`, as a test on a row.
abbrev pub for_user : ℕ → UserBrokerageLink → Bool
for_user user l = l.user == user

abbrev pub is_active_named : String → Brokerage → Bool
is_active_named name b = str_eq b.name name && b.is_active

abbrev pub is_link : ℕ → Brokerage → UserBrokerageLink → Bool
is_link user b l = for_user user l && l.brokerage == b.id

abbrev pub has_purpose : Brokerage → String → BrokerageEndpoint → Bool
has_purpose b purpose e = e.brokerage == b.id && str_eq e.purpose purpose
