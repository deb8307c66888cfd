-- ===== src/Realtime/FirstMessage.antt =====
-- ledger/realtime/auth.py: `authenticate_first_message`. `json.loads` is outside.
use text.Mathlib.Text.{◌==◌ as str_eq}
use djaskt_trading_app.Prelude.{ℕ, String, Option, none, some, List, if◌then◌else◌}
use djaskt_trading_app.Prelude.Action.{Result, ok, err}
use djaskt_trading_app.Accounts.Redis.{Redis}
use djaskt_trading_app.Accounts.Auth.{User, Jwt, AuthError, validate_and_get_user}

-- A value of the payload: text, or something else.
pub data Value : Type 0 where
  text_value : String → Value
  other_value : Value

-- What the text is as JSON: an object, by its fields "type" and "access_token", or another value.
pub data Message : Type 0 where
  object : Option Value → Option Value → Message
  not_object : Message

-- `WebSocketAuthError`, by its reason.
pub data WebSocketAuthError : Type 0 where
  not_json not_auth no_token : WebSocketAuthError
  bad_token : AuthError → WebSocketAuthError

module _ (json_loads : String → Option Message) (jwt : Jwt) (redis : Redis) (users : List User)
    (now : ℕ) (s : redis.State) where
  unfoldable pub token_checked : Result AuthError User → Result WebSocketAuthError User
  token_checked (ok user) = ok user
  token_checked (err e) = err (bad_token e)

  -- `not access_token or not isinstance(access_token, str)`
  unfoldable pub with_token : Option Value → Result WebSocketAuthError User
  with_token none = err no_token
  with_token (some other_value) = err no_token
  with_token (some (text_value token)) =
      if str_eq token ""
      then err no_token
      else token_checked (validate_and_get_user jwt redis users now s token)

  unfoldable pub of_message : Option Message → Result WebSocketAuthError User
  of_message none = err not_json
  of_message (some not_object) = err not_auth
  of_message (some (object none token)) = err not_auth
  of_message (some (object (some other_value) token)) = err not_auth
  of_message (some (object (some (text_value type)) token)) =
      if str_eq type "auth" then with_token token else err not_auth

  unfoldable pub authenticate_first_message : String → Result WebSocketAuthError User
  authenticate_first_message raw_message = of_message (json_loads raw_message)
