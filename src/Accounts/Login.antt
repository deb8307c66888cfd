-- ===== src/Accounts/Login.antt =====
-- accounts/api.py: `login`, and what ninja_jwt reads of an access token that was made for a user. The
-- check of the password is inside ninja_jwt.
pub mod Claimed
pub mod Accepted
use djaskt_trading_app.Prelude.{
  ℕ, String, ◌+◌, ◌/◌, ◌<◌, ◌≡◌, Bool, false, Option, none, some, List, [], ◌∷◌,
}
use djaskt_trading_app.Prelude.Action.{Action, pure, if_some}
use djaskt_trading_app.Accounts.Redis.{Redis}
use djaskt_trading_app.Accounts.Lifetime.{second, seconds_until_utc_midnight}
use djaskt_trading_app.Accounts.Auth.{User, Claims, Jwt}
use djaskt_trading_app.Accounts.Api.{
  ClaimValue, text_value, number_value, Payload, get_claim, member, Issuer, access_payload, Tokens,
  get_token, ApiError, Response, ok_200, unauthorized_401, seconds,
}

pub record Credentials : Type 0 where
  pub email : String
  pub password : String

-- `check_user_authentication_rule()`: the active user with that password, if there is one; its
-- `AuthenticationFailed` is answered with 401.
abbrev pub Authenticate : Type 0
Authenticate = List User → Credentials → Option User

unfoldable pub login :
    Authenticate
    → Issuer
    → (redis : Redis) → List User
    → ℕ
    → Credentials
    → Action redis.State ApiError (Response Tokens)
login authenticate issuer redis users now credentials =
    if_some (authenticate users credentials) (λ user. pure (ok_200 (get_token issuer user now)))
      (pure unauthorized_401)

-- `payload.get(claim)` where the claim is a number.
abbrev pub number_of : Option ClaimValue → Option ℕ
number_of none = none
number_of (some (text_value _)) = none
number_of (some (number_value n)) = some n

-- What the code reads of a token with this payload and this expiry.
unfoldable pub claims_of : ℕ → Payload → Claims
claims_of exp p = record {
  jti = number_of (get_claim "jti" p);
  user_id = number_of (get_claim "user_id" p);
  iat = number_of (get_claim "iat" p);
  exp = exp;
}

-- A payload is a dict: each of its keys is there once.
unfoldable pub HasKeysOnce : Payload → Type 0
HasKeysOnce [] = Unit
HasKeysOnce ((c, v) ∷ p) = (get_claim c p ≡ none) × HasKeysOnce p

-- The expiry of an access token made at a moment, in whole seconds.
abbrev pub expiry : ℕ → ℕ
expiry now = (now + seconds_until_utc_midnight now) / second

-- What ninja_jwt documents of the tokens that it makes for a user at a moment: a signed payload is read
-- back until it expires, the refresh token names the user and the second, and these two claims are
-- copied.
pub record Signs (jwt : Jwt) (issuer : Issuer) (user : User) (now : ℕ) : Type 0 where
  pub decoded :
      (t : ℕ)
      → t < expiry now
      → get_claim "exp" (access_payload issuer user now) ≡ some (number_value (expiry now))
      → jwt.access_token (issuer.sign_access (access_payload issuer user now)) t
        ≡ some (claims_of (expiry now) (access_payload issuer user now))
  pub keys_once : HasKeysOnce (issuer.for_user user now)
  pub names_user : get_claim "user_id" (issuer.for_user user now) ≡ some (number_value user.id)
  pub names_second : get_claim "iat" (issuer.for_user user now) ≡ some (number_value (seconds now))
  pub copies_user : member "user_id" issuer.no_copy_claims ≡ false
  pub copies_second : member "iat" issuer.no_copy_claims ≡ false
