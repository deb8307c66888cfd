-- ===== src/Accounts/Login/Accepted.antt =====
-- How long the access token of a login lets its user in.
use djaskt_trading_app.Prelude.{
  ℕ, ◌+◌, ◌*◌, ◌%◌, ◌≤◌, ◌<◌, ◌≡◌, ◌≢◌, refl, ap, ◌∙◌, arith, false, Bool-cases, ltb, Option, none,
  some, inl, inr, List,
}
use djaskt_trading_app.Prelude.Action.{ok}
use djaskt_trading_app.Accounts.Redis.{Redis, logout_all_key}
use djaskt_trading_app.Accounts.Denylist.{
  at_or_before, is_denied, is_denied_for_user, deny_all_for_user, user_cutoff_ttl_seconds,
}
use djaskt_trading_app.Accounts.Denylist.History.{Later, is_denied_cutoff}
use djaskt_trading_app.Accounts.Lifetime.{second, day, seconds_until_utc_midnight_lem}
use djaskt_trading_app.Accounts.Auth.{
  User, Claims, Jwt, token_is_denied, user_is_denied, find_user, check_claims, checked_token,
  validate_and_get_user,
}
use djaskt_trading_app.Accounts.Auth.Revocation.{logged_out_everywhere}
use djaskt_trading_app.Accounts.Api.{Issuer, get_claim, access_payload, get_token, ok_200, seconds}
use djaskt_trading_app.Accounts.Login.{
  Credentials, Authenticate, login, number_of, claims_of, Signs, expiry,
}
use djaskt_trading_app.Accounts.Login.Claimed.{claims_user, claims_second, claims_expiry}

module _ (jwt : Jwt) (issuer : Issuer) (redis : Redis) (users : List User) (user : User) (now : ℕ)
    (signs : Signs jwt issuer user now) where
  decodes :
      (t : ℕ)
      → t < expiry now
      → jwt.access_token (get_token issuer user now).access t
        ≡ some (claims_of (expiry now) (access_payload issuer user now))
  unfolding get_token
  decodes t l = signs.decoded t l (claims_expiry jwt issuer user now signs)

  not_denied :
      (t : ℕ) (s : redis.State) (o : Option ℕ)
      → ((jti : ℕ) → o ≡ some jti → is_denied redis jti t s ≡ false)
      → token_is_denied jwt redis users t s o ≡ false
  unfolding token_is_denied
  not_denied t s none d = refl
  not_denied t s (some jti) d = d jti refl

  token_is_accepted :
      (t : ℕ) (s : redis.State)
      → t < expiry now
      → ((jti : ℕ)
          → number_of (get_claim "jti" (access_payload issuer user now)) ≡ some jti
          → is_denied redis jti t s ≡ false)
      → is_denied_for_user redis user.id (seconds now) t s ≡ false
      → ((c : Claims) → c.user_id ≡ some user.id → jwt.get_user users c ≡ some user)
      → validate_and_get_user jwt redis users t s (get_token issuer user now).access ≡ ok user
  unfolding validate_and_get_user checked_token check_claims user_is_denied find_user claims_of
  token_is_accepted t s l d c g =
      let read : Claims = record {
        jti = number_of (get_claim "jti" (access_payload issuer user now));
        user_id = some user.id;
        iat = some (seconds now);
        exp = expiry now;
      } in
      rw
        (
          decodes t l,
          checked_token,
          check_claims,
          not_denied t s _ d,
          claims_user jwt issuer user now signs,
          claims_second jwt issuer user now signs,
          user_is_denied,
          c,
          find_user,
        )
        (rw (g read refl, find_user) refl)

  login_eq :
      (authenticate : Authenticate) (at_login : List User) (credentials : Credentials)
      (s : redis.State)
      → authenticate at_login credentials ≡ some user
      → login authenticate issuer redis at_login now credentials s
        ≡ (ok (ok_200 (get_token issuer user now)), s)
  unfolding login
  login_eq authenticate at_login credentials s a = rw a refl

  cutoff_before :
      (t at : ℕ) (s : redis.State)
      → at < seconds now
      → seconds now ≤ t
      → is_denied_for_user redis user.id (seconds now) t (deny_all_for_user redis user.id at at s)
        ≡ false
  unfolding is_denied_for_user deny_all_for_user at_or_before
  cutoff_before t at s b l = elim (Bool-cases (ltb t (at + user_cutoff_ttl_seconds))) [
    | inl m ↦
        rw
          (redis.get-set_ex (logout_all_key user.id) at user_cutoff_ttl_seconds at t s (omega arith)
            (ground arith))
          (ground arith)
    | inr m ↦
        rw
          (redis.get-set_ex_expired (logout_all_key user.id) at user_cutoff_ttl_seconds at t s
            (ground arith))
          refl
  ]

-- A login with the right password gives tokens and changes nothing in Redis, and its access token lets
-- the user in at every later time before the next midnight of UTC, so long as the account is there,
-- the token's id is not denied, and no logout everywhere has reached the second of the login.
pub login_lets_in :
    (jwt : Jwt) (issuer : Issuer) (redis : Redis) (authenticate : Authenticate)
    (users users' : List User) (credentials : Credentials) (user : User) (now t : ℕ)
    (s s' : redis.State)
    → Signs jwt issuer user now
    → authenticate users credentials ≡ some user
    → (t < expiry now)
    → ((jti : ℕ)
        → number_of (get_claim "jti" (access_payload issuer user now)) ≡ some jti
        → is_denied redis jti t s' ≡ false)
    → is_denied_for_user redis user.id (seconds now) t s' ≡ false
    → ((c : Claims) → c.user_id ≡ some user.id → jwt.get_user users' c ≡ some user)
    → (login authenticate issuer redis users now credentials s
        ≡ (ok (ok_200 (get_token issuer user now)), s))
      × (validate_and_get_user jwt redis users' t s' (get_token issuer user now).access ≡ ok user)
      × (expiry now * second % day ≡ 0)
      × (now < expiry now * second)
login_lets_in jwt issuer redis authenticate users users' credentials user now t s s' signs a l d c
      g =
    let (positive, short, midnight) = seconds_until_utc_midnight_lem now in
    (
      login_eq jwt issuer redis users' user now signs authenticate users credentials s a,
      token_is_accepted jwt issuer redis users' user now signs t s' l d c g,
      omega arith,
      omega arith,
    )

-- After a logout everywhere, the access token of a login in a later second lets the user in until it
-- expires, so long as the account is there and its id is not denied.
pub login_after_logout_all_lets_in :
    (jwt : Jwt) (issuer : Issuer) (redis : Redis) (users : List User) (user : User) (now t at : ℕ)
    (s : redis.State)
    → Signs jwt issuer user now
    → at < seconds now
    → seconds now ≤ t
    → t < expiry now
    → ((jti : ℕ)
        → number_of (get_claim "jti" (access_payload issuer user now)) ≡ some jti
        → is_denied redis jti t s ≡ false)
    → ((c : Claims) → c.user_id ≡ some user.id → jwt.get_user users c ≡ some user)
    → validate_and_get_user jwt redis users t
        (deny_all_for_user redis user.id at at s)
        (get_token issuer user now).access
      ≡ ok user
login_after_logout_all_lets_in jwt issuer redis users user now t at s signs b m l d g =
    token_is_accepted jwt issuer redis users user now signs t _ l
      (λ jti j. is_denied_cutoff redis (λ n. n) jti user.id at at t s ∙ d jti j)
      (cutoff_before jwt issuer redis users user now signs t at s b m) g

-- The access token of a login in the second of a logout everywhere lets nobody in for as long as it
-- lives, whether the login came before that call or after it.
pub login_in_that_second_is_refused :
    (jwt : Jwt) (issuer : Issuer) (redis : Redis) (exp_of : ℕ → ℕ) (users : List User)
    (user u : User) (now t : ℕ) (s s' : redis.State)
    → Signs jwt issuer user now
    → t < expiry now
    → Later redis exp_of
        (deny_all_for_user redis user.id (seconds now) (seconds now) s)
        (seconds now)
        s'
        t
    → validate_and_get_user jwt redis users t s' (get_token issuer user now).access ≢ ok u
unfolding claims_of
login_in_that_second_is_refused jwt issuer redis exp_of users user u now t s s' signs l h =
    let (positive, short, midnight) = seconds_until_utc_midnight_lem now in
    logged_out_everywhere jwt redis users exp_of (get_token issuer user now).access
      (claims_of (expiry now) (access_payload issuer user now)) user.id (seconds now) (seconds now)
      t s s' u (decodes jwt issuer redis users user now signs t l)
      (ap number_of (claims_user jwt issuer user now signs))
      (ap number_of (claims_second jwt issuer user now signs)) (omega arith) (omega arith) h
