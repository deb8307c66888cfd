-- ===== src/Brokerage/Strategy.antt =====
-- brokerage/strategies/base.py and angel_one.py: what is sent to a broker, and how its reply is read.
-- The HTTP client is outside: it gives a reply to each request.
pub mod Laws
use Prim.Native.String.{◌++◌ as append}
use djaskt_trading_app.Prelude.{
  ℕ, String, ◌&&◌, Bool, true, false, not, Option, none, some, if◌then◌else◌,
}
use djaskt_trading_app.Prelude.Action.{Result, ok, err}
use djaskt_trading_app.Brokerage.Json.{
  Json, boolean, text, null, array, number, object, Fields, end, field, get, put, is_true, is_given,
}
use djaskt_trading_app.Brokerage.Models.{
  BrokerError, broker_api, invalid_broker_credentials, uncaught, PayloadType, json, form,
  BrokerageEndpoint,
}

pub record BrokerSession : Type 0 where
  pub jwt_token : Json
  pub feed_token : Json
  pub client_id : Json

-- A session as Redis holds it: three texts.
pub record CachedSession : Type 0 where
  pub jwt_token : String
  pub feed_token : String
  pub client_id : String

pub record Request : Type 0 where
  pub http_method : String
  pub url : String
  pub headers : Fields
  pub json : Option Fields
  pub form : Option Fields

-- An `httpx.HTTPError`, a status that is no success included; any other error, as of a header that is no
-- text or a body that is no JSON; a body.
pub data Reply : Type 0 where
  failed raised : Reply
  body : Json → Reply

unfoldable pub dispatched : Reply → Result BrokerError Json
dispatched failed = err broker_api
dispatched raised = err uncaught
dispatched (body j) = ok j

abbrev pub json_part : PayloadType → Fields → Option Fields
json_part json b = some b
json_part form b = none

abbrev pub form_part : PayloadType → Fields → Option Fields
form_part json b = none
form_part form b = some b

abbrev pub request_of : BrokerageEndpoint → Fields → Fields → Request
request_of e headers b = record {
  http_method = e.http_method;
  url = e.url;
  headers = headers;
  json = json_part e.payload_type b;
  form = form_part e.payload_type b;
}

unfoldable pub dispatch_request :
    (Request → Reply) → BrokerageEndpoint → Fields → Fields → Result BrokerError Json
dispatch_request http e headers b = dispatched (http (request_of e headers b))

-- `raw_response.get("status") is not True`: only an object has `get`.
unfoldable pub status_checked : Option Json → Fields → Result BrokerError Fields
status_checked (some (boolean true)) d = ok d
status_checked _ d = err broker_api

unfoldable pub reply_checked : Json → Result BrokerError Fields
reply_checked (object d) = status_checked (get "status" d) d
reply_checked _ = err uncaught

-- `raw_response.get("data") or {}`
abbrev pub or_empty : Option Json → Json
or_empty none = object end
or_empty (some v) = if is_true v then v else object end

unfoldable pub session_of :
    Option Json → Option Json → Option Json → Result BrokerError BrokerSession
session_of (some jwt) (some feed) (some client) =
    ok (record { jwt_token = jwt; feed_token = feed; client_id = client })
session_of _ _ _ = err broker_api

-- `data["jwtToken"]` and so on: a missing key is caught, a value that takes no key is not.
unfoldable pub tokens_of : Json → Fields → Result BrokerError BrokerSession
tokens_of (object d) link_data =
    session_of (get "jwtToken" d) (get "feedToken" d) (get "client_id" link_data)
tokens_of _ link_data = err uncaught

-- A missing or empty field is refused before any call.
unfoldable pub validate_credentials : Fields → Fields → Bool
validate_credentials link_data login_secrets =
    is_given (get "client_id" link_data)
    && is_given (get "api_key" link_data)
    && is_given (get "password" login_secrets)
    && is_given (get "totp" login_secrets)

-- `d[key]` of a key that was checked.
abbrev pub item : Option Json → Json
item none = null
item (some v) = v

abbrev pub login_headers : BrokerageEndpoint → Fields → Fields
login_headers e link_data = put "X-PrivateKey" (item (get "api_key" link_data)) e.default_headers

abbrev pub login_body : Fields → Fields → Fields
login_body link_data login_secrets = field "clientcode" (item (get "client_id" link_data)) (
    field "password" (item (get "password" login_secrets))
      (field "totp" (item (get "totp" login_secrets)) (field "state" (text "live") end)))

unfoldable pub tokens_checked :
    Result BrokerError Fields → Fields → Result BrokerError BrokerSession
tokens_checked (err x) link_data = err x
tokens_checked (ok d) link_data = tokens_of (or_empty (get "data" d)) link_data

unfoldable pub parse_response : Json → Fields → Result BrokerError BrokerSession
parse_response raw link_data = tokens_checked (reply_checked raw) link_data

unfoldable pub parsed : Result BrokerError Json → Fields → Result BrokerError BrokerSession
parsed (err x) link_data = err x
parsed (ok raw) link_data = parse_response raw link_data

unfoldable pub validate_logout_credentials : Fields → CachedSession → Bool
validate_logout_credentials link_data c =
    is_given (get "client_id" link_data)
    && is_given (get "api_key" link_data)
    && is_true (text c.jwt_token)

abbrev pub logout_headers : BrokerageEndpoint → Fields → CachedSession → Fields
logout_headers e link_data c =
    put "X-PrivateKey" (item (get "api_key" link_data))
      (put "Authorization" (text (append "Bearer " c.jwt_token)) e.default_headers)

unfoldable pub logout_checked : Result BrokerError Json → Result BrokerError (Unit {0})
logout_checked (err x) = err x
logout_checked (ok raw) = elim (reply_checked raw) [ ok d ↦ ok tt | err x ↦ err x ]

module _ (http : Request → Reply) (e : BrokerageEndpoint) where
  unfoldable pub call_broker_api : Fields → Fields → Result BrokerError Json
  call_broker_api link_data login_secrets =
      dispatch_request http e (login_headers e link_data) (login_body link_data login_secrets)

  -- `authenticate`
  unfoldable pub authenticate : Fields → Fields → Result BrokerError BrokerSession
  authenticate link_data login_secrets =
      if validate_credentials link_data login_secrets
      then parsed (call_broker_api link_data login_secrets) link_data
      else err invalid_broker_credentials

  unfoldable pub call_broker_logout : Fields → CachedSession → Result BrokerError (Unit {0})
  call_broker_logout link_data c = logout_checked (
      dispatch_request http e (logout_headers e link_data c)
        (field "clientcode" (item (get "client_id" link_data)) end))

  -- `logout`
  unfoldable pub logout : Fields → CachedSession → Result BrokerError (Unit {0})
  logout link_data c =
      if validate_logout_credentials link_data c
      then call_broker_logout link_data c
      else err invalid_broker_credentials
