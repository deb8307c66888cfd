-- ===== src/Accounts/Auth.antt =====
-- ledger/api/auth.py: `DenylistCheckingJWTAuth`. ninja_jwt is outside: it checks a token's signature and
-- expiry, and finds the user of its claims.
pub mod Revocation
use djaskt_trading_app.Prelude.{
  ℕ, String, ◌<◌, ◌≡◌, Bool, true, false, Option, none, some, List, ◌&&◌, if◌then◌else◌,
}
use djaskt_trading_app.Prelude.Action.{Result, ok, err}
use djaskt_trading_app.Accounts.Redis.{Redis}
use djaskt_trading_app.Accounts.Denylist.{is_denied, is_denied_for_user}

-- accounts/models.py: a `User`, less the username, the name and the password, which no code here reads.
pub record User : Type 0 where
  pub id : ℕ
  pub email : String

-- The claims that the code reads of a verified token; `get` gives `None` for an absent one. Times are
-- whole seconds.
pub record Claims : Type 0 where
  pub jti : Option ℕ
  pub user_id : Option ℕ
  pub iat : Option ℕ
  pub exp : ℕ

-- ninja_jwt: `AccessToken(raw)` and `RefreshToken(raw)` at a time (`none`: `TokenError`), and
-- `get_user`. A token that has expired is refused, and a token has the same claims whenever it is
-- read; the user that is found is the one that the claims name.
pub record Jwt : Type 0 where
  pub access_token : String → ℕ → Option Claims
  pub refresh_token : String → ℕ → Option Claims
  pub get_user : List User → Claims → Option User
  pub access-unexpired :
      (raw : String) (now : ℕ) (c : Claims) → access_token raw now ≡ some c → now < c.exp
  pub access-same :
      (raw : String) (now later : ℕ) (c c' : Claims)
      → access_token raw now ≡ some c
      → access_token raw later ≡ some c'
      → c' ≡ c
  pub refresh-unexpired :
      (raw : String) (now : ℕ) (c : Claims) → refresh_token raw now ≡ some c → now < c.exp
  pub refresh-same :
      (raw : String) (now later : ℕ) (c c' : Claims)
      → refresh_token raw now ≡ some c
      → refresh_token raw later ≡ some c'
      → c' ≡ c
  pub get_user-id :
      (users : List User) (c : Claims) (u : User)
      → get_user users c ≡ some u
      → c.user_id ≡ some u.id

pub data AuthError : Type 0 where
  invalid_token token_revoked all_sessions_logged_out authentication_failed : AuthError

module _ (jwt : Jwt) (redis : Redis) (users : List User) (now : ℕ) (s : redis.State) where
  -- `jti and self._get_denylist().is_denied(jti)`
  unfoldable pub token_is_denied : Option ℕ → Bool
  token_is_denied none = false
  token_is_denied (some jti) = is_denied redis jti now s

  -- `user_id is not None and issued_at is not None and ...is_denied_for_user(user_id, issued_at)`
  unfoldable pub user_is_denied : Option ℕ → Option ℕ → Bool
  user_is_denied none _ = false
  user_is_denied (some user_id) none = false
  user_is_denied (some user_id) (some issued_at) = is_denied_for_user redis user_id issued_at now s

  unfoldable pub find_user : Option User → Result AuthError User
  find_user none = err authentication_failed
  find_user (some u) = ok u

  -- After `get_validated_token`.
  unfoldable pub check_claims : Claims → Result AuthError User
  check_claims c =
      if token_is_denied c.jti
      then err token_revoked
      else (if user_is_denied c.user_id c.iat
          then err all_sessions_logged_out
          else find_user (jwt.get_user users c))

  unfoldable pub checked_token : Option Claims → Result AuthError User
  checked_token none = err invalid_token
  checked_token (some c) = check_claims c

  unfoldable pub validate_and_get_user : String → Result AuthError User
  validate_and_get_user token = checked_token (jwt.access_token token now)
