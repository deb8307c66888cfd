-- ===== src/Accounts/Api.antt =====
-- accounts/api.py: login's tokens, `refresh`, `logout` and `logout_all` of `AuthController`. ninja_jwt is
-- outside: it makes and signs tokens. A payload is its claims in order; the moment of a call is
-- given in microseconds.
pub mod Laws
use text.Mathlib.Text.{◌==◌ as str_eq}
use djaskt_trading_app.Prelude.{
  ℕ, String, ◌+◌, ◌-◌, ◌/◌, ◌==◌, ◌≡◌, Bool, true, false, Option, none, some, List, [], ◌∷◌,
  if◌then◌else◌,
}
use djaskt_trading_app.Prelude.Rows.{find}
use djaskt_trading_app.Prelude.Action.{
  Result, ok, err, Action, pure, raise, gets, or_raise, modify, if_some, ◌>>=◌, ◌>>◌,
}
use djaskt_trading_app.Accounts.Redis.{Redis}
use djaskt_trading_app.Accounts.Denylist.{deny, is_denied, deny_all_for_user}
use djaskt_trading_app.Accounts.Lifetime.{second, seconds_until_utc_midnight}
use djaskt_trading_app.Accounts.Auth.{User, Claims, Jwt, validate_and_get_user}

pub data ClaimValue : Type 0 where
  text_value : String → ClaimValue
  number_value : ℕ → ClaimValue

abbrev pub Payload : Type 0
Payload = List (String × ClaimValue)

-- `payload[claim] = value` and `payload.get(claim)`
unfoldable pub set_claim : String → ClaimValue → Payload → Payload
set_claim claim value [] = (claim, value) ∷ []
set_claim claim value ((c, v) ∷ p) =
    let rest = set_claim claim value p in
    if str_eq c claim then (claim, value) ∷ p else (c, v) ∷ rest

unfoldable pub get_claim : String → Payload → Option ClaimValue
get_claim claim [] = none
get_claim claim ((c, v) ∷ p) =
    let rest = get_claim claim p in if str_eq c claim then some v else rest

abbrev pub member : String → List String → Bool
member c [] = false
member c (n ∷ ns) = let rest = member c ns in if str_eq n c then true else rest

-- What ninja_jwt makes in one call of a handler, its random token ids included: each call has an issuer of
-- its own. The payload of `RefreshToken.for_user(user)` and of `AccessToken()`, the claims
-- that are not copied, and the two `str(token)`.
pub record Issuer : Type 0 where
  pub for_user : User → ℕ → Payload
  pub access_token : ℕ → Payload
  pub no_copy_claims : List String
  pub sign_refresh : Payload → String
  pub sign_access : Payload → String

-- `for claim, value in refresh.payload.items()`
unfoldable pub copy_claims : List String → Payload → Payload → Payload
copy_claims no_copy [] access = access
copy_claims no_copy ((claim, value) ∷ p) access =
    if member claim no_copy
    then copy_claims no_copy p access
    else copy_claims no_copy p (set_claim claim value access)

-- `access.set_exp(from_time=now, lifetime=...)`: whole seconds since 1970
unfoldable pub set_exp : ℕ → ℕ → Payload → Payload
set_exp from_time lifetime access =
    set_claim "exp" (number_value ((from_time + lifetime) / second)) access

unfoldable pub access_payload : Issuer → User → ℕ → Payload
access_payload i user now =
    set_exp now (seconds_until_utc_midnight now)
      (copy_claims i.no_copy_claims (i.for_user user now) (i.access_token now))

pub record Tokens : Type 0 where
  pub refresh : String
  pub access : String

-- `EmailTokenObtainPairInputSchema.get_token`
unfoldable pub get_token : Issuer → User → ℕ → Tokens
get_token i user now = record {
  refresh = i.sign_refresh (i.for_user user now);
  access = i.sign_access (access_payload i user now);
}

-- What a handler does not catch: `KeyError`, `User.DoesNotExist`.
pub data ApiError : Type 0 where
  key_error user_does_not_exist : ApiError

pub data Response (A : Type 0) : Type 0 where
  ok_200 : A → Response A
  unauthorized_401 : Response A

abbrev pub seconds : ℕ → ℕ
seconds now = now / second

module _ (jwt : Jwt) (issuer : Issuer) (redis : Redis) (users : List User) (now : ℕ) where
  -- After the denylist has been asked.
  unfoldable pub rotate : ℕ → Claims → Action redis.State ApiError (Response Tokens)
  rotate old_jti old = do
    id ← or_raise old.user_id key_error
    user ← or_raise (find (λ (u : User). u.id == id) users) user_does_not_exist
    modify (deny redis old_jti (old.exp - seconds now) (seconds now))
    pure (ok_200 (get_token issuer user now))

  unfoldable pub exchange : Claims → Action redis.State ApiError (Response Tokens)
  exchange old = do
    old_jti ← or_raise old.jti key_error
    denied ← gets (is_denied redis old_jti (seconds now))
    if denied then pure unauthorized_401 else rotate old_jti old

  unfoldable pub refresh : String → Action redis.State ApiError (Response Tokens)
  refresh token = if_some (jwt.refresh_token token (seconds now)) exchange (pure unauthorized_401)

module _ (jwt : Jwt) (redis : Redis) (users : List User) (now : ℕ) where
  -- One token of a logout: an invalid one is passed over.
  unfoldable pub deny_token : Option Claims → Action redis.State ApiError (Unit {0})
  deny_token none = pure tt
  deny_token (some c) = do
    jti ← or_raise c.jti key_error
    modify (deny redis jti (c.exp - seconds now) (seconds now))

  -- `if not raw_token: continue`
  abbrev pub given : (String → Option Claims) → Option String → Option Claims
  given read none = none
  given read (some raw) = if str_eq raw "" then none else read raw

  abbrev pub read_access : Option String → Option Claims
  read_access raw = given (λ t. jwt.access_token t (seconds now)) raw

  abbrev pub read_refresh : Option String → Option Claims
  read_refresh raw = given (λ t. jwt.refresh_token t (seconds now)) raw

  unfoldable pub logout :
      Option String → Option String → Action redis.State ApiError (Response (Unit {0}))
  logout access refresh = do
    deny_token (read_access access)
    deny_token (read_refresh refresh)
    pure (ok_200 tt)

  unfoldable pub logout_all : User → Action redis.State ApiError (Response (Unit {0}))
  logout_all user = do
    modify (deny_all_for_user redis user.id (seconds now) (seconds now))
    pure (ok_200 tt)

  -- An endpoint under `auth=DenylistCheckingJWTAuth()`: it is not entered without a user.
  unfoldable pub entered :
      {A : Type 0} {E : Type 0}
      → Result E User
      → (User → Action redis.State ApiError (Response A))
      → Action redis.State ApiError (Response A)
  entered (ok user) handler = handler user
  entered (err _) handler = pure unauthorized_401

  unfoldable pub authenticated :
      {A : Type 0}
      → String
      → (User → Action redis.State ApiError (Response A))
      → Action redis.State ApiError (Response A)
  authenticated bearer handler s =
      entered (validate_and_get_user jwt redis users (seconds now) s bearer) handler s
