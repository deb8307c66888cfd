-- ===== src/Tests/Login.antt =====
-- Logins and refreshes that overlap, run on a small Redis.
use djaskt_trading_app.Prelude.{
  ℕ, ◌*◌, ◌%◌, ◌<◌, ◌≡◌, ◌≢◌, refl, arith, true, false, none, some, List, [], ◌∷◌,
}
use djaskt_trading_app.Prelude.Action.{ok}
use djaskt_trading_app.Accounts.Denylist.{
  is_denied, is_denied_for_user, at_or_before, deny_all_for_user, deny,
}
use djaskt_trading_app.Accounts.Denylist.History.{Later, here, waits}
use djaskt_trading_app.Accounts.Lifetime.{second, day, seconds_until_utc_midnight}
use djaskt_trading_app.Accounts.Auth.{Claims, Jwt, validate_and_get_user}
use djaskt_trading_app.Accounts.Api.{
  Issuer, number_value, get_claim, set_claim, copy_claims, set_exp, access_payload, get_token,
  ok_200, rotate, refresh, Tokens,
}
use djaskt_trading_app.Accounts.Login.{
  Credentials, Authenticate, login, claims_of, HasKeysOnce, Signs, expiry,
}
use djaskt_trading_app.Accounts.Login.Accepted.{
  login_lets_in, login_after_logout_all_lets_in, login_in_that_second_is_refused,
}
use djaskt_trading_app.Accounts.Overlap.{waiting, answered, asked, ask, advance, step, run, start}
use djaskt_trading_app.Accounts.Overlap.Once.{later_refresh_is_refused}
use djaskt_trading_app.Accounts.Overlap.Reuse.{overlapping_refreshes_both_rotate}
use djaskt_trading_app.Accounts.Superuser.{Change, signs_up, makes_superuser, changed}
use djaskt_trading_app.Accounts.Superuser.Laws.{HasEmailsOnce, changed-HasEmailsOnce}
use djaskt_trading_app.Tests.Accounts.{
  site, signup_env, redis, Writes, alice, users, user_of, user_of-id, read_token,
  read_token-unexpired, read_token-same, jwt, refresh_claims, issuer, at_100, new_tokens, rotated,
  one_expiry, refreshes,
}
use djaskt_trading_app.Tests.Accounts as Accounts

-- The payloads of a login at second 100, and what is read of its access token.
-- Every call has the same small issuer.
abbrev issuers : ℕ → Issuer
issuers i = issuer

abbrev signer : Issuer
signer = record {
  for_user = λ u now.
      ("exp", number_value 700_000)
      ∷ ("iat", number_value 100)
      ∷ ("user_id", number_value u.id)
      ∷ [];
  access_token = λ now. ("jti", number_value 11) ∷ [];
  no_copy_claims = "exp" ∷ "jti" ∷ [];
  sign_refresh = λ p. "refresh";
  sign_access = λ p. "access";
}

abbrev login_claims : Claims
login_claims = record { jti = some 11; user_id = some 7; iat = some 100; exp = 86_400 }

abbrev reader : Jwt
reader = record {
  access_token = read_token "access" login_claims;
  refresh_token = read_token "refresh" refresh_claims;
  get_user = λ users c. user_of users c.user_id;
  access-unexpired = read_token-unexpired "access" login_claims;
  access-same = read_token-same "access" login_claims;
  refresh-unexpired = read_token-unexpired "refresh" refresh_claims;
  refresh-same = read_token-same "refresh" refresh_claims;
  get_user-id = λ users c u e. user_of-id users c.user_id u e;
}

reads : (t : ℕ) → t < 86_400 → read_token "access" login_claims "access" t ≡ some login_claims
reads t l = ground arith

signs : Signs reader signer alice at_100
unfolding HasKeysOnce claims_of access_payload set_exp copy_claims set_claim get_claim
    seconds_until_utc_midnight
signs = record {
  decoded = λ t l e. reads t l;
  keys_once = (refl, (refl, (refl, tt)));
  names_user = refl;
  names_second = refl;
  copies_user = refl;
  copies_second = refl;
}

abbrev password_of_alice : Authenticate
password_of_alice _ c = some alice

abbrev credentials : Credentials
credentials = record { email = "a@x.org"; password = "secret" }

none_denied : (jti t : ℕ) → is_denied redis jti t [] ≡ false
unfolding is_denied
none_denied jti t = refl

not_cut : is_denied_for_user redis 7 100 200 [] ≡ false
unfolding is_denied_for_user at_or_before
not_cut = refl

before_midnight : 200 < expiry at_100
unfolding seconds_until_utc_midnight
before_midnight = omega arith

has_account : (c : Claims) → c.user_id ≡ some 7 → user_of users c.user_id ≡ some alice
has_account c e = rw e refl

login_lets_in_example :
    (login password_of_alice signer redis users at_100 credentials []
      ≡ (ok (ok_200 (get_token signer alice at_100)), []))
    × (validate_and_get_user reader redis users 200 [] (get_token signer alice at_100).access
        ≡ ok alice)
    × (expiry at_100 * second % day ≡ 0)
    × (at_100 < expiry at_100 * second)
login_lets_in_example =
    login_lets_in reader signer redis password_of_alice users users credentials alice at_100 200 []
      [] signs refl before_midnight (λ jti j. none_denied jti 200) not_cut has_account

login_after_logout_all_lets_in_example :
    validate_and_get_user reader redis users 200
      (deny_all_for_user redis 7 99 99 [])
      (get_token signer alice at_100).access
    ≡ ok alice
login_after_logout_all_lets_in_example =
    login_after_logout_all_lets_in reader signer redis users alice at_100 200 99 [] signs
      (omega arith) (omega arith) before_midnight (λ jti j. none_denied jti 200) has_account

abbrev same_second : Writes
same_second = deny_all_for_user redis 7 100 100 []

later : Later redis (λ n. n) same_second 100 same_second 200
later = waits 200 here (omega arith)

login_in_that_second_is_refused_example :
    validate_and_get_user reader redis users 200 same_second (get_token signer alice at_100).access
    ≢ ok alice
login_in_that_second_is_refused_example =
    login_in_that_second_is_refused reader signer redis (λ n. n) users alice alice at_100 200 []
      same_second signs before_midnight later

first_is_given :
    (run jwt issuers redis users
        ((0, 0) ∷ (0, 0) ∷ [])
        (start jwt issuers redis users [] at_100 (λ k. "refresh"))).point
      0
    ≡ answered (ok (ok_200 new_tokens))
unfolding run step advance ask asked rotate is_denied deny get_token
first_is_given = refl

second_waits :
    (run jwt issuers redis users
        ((0, 0) ∷ (0, 0) ∷ [])
        (start jwt issuers redis users [] at_100 (λ k. "refresh"))).point
      1
    ≡ waiting "refresh"
unfolding run step advance ask asked rotate is_denied deny
second_waits = refl

later_refresh_is_refused_example :
    (run jwt issuers redis users ((1, 0) ∷ (1, 0) ∷ []) (
        run jwt issuers redis users
          ((0, 0) ∷ (0, 0) ∷ [])
          (start jwt issuers redis users [] at_100 (λ k. "refresh")))).point
      1
    ≢ answered (ok (ok_200 new_tokens))
later_refresh_is_refused_example =
    later_refresh_is_refused jwt issuers redis users Accounts.expiry (λ k. "refresh") [] at_100
      ((0, 0) ∷ (0, 0) ∷ []) ((1, 0) ∷ (1, 0) ∷ []) 0 1 new_tokens new_tokens one_expiry refl
      first_is_given second_waits

overlapping_refreshes_both_rotate_example :
    (let y =
        run jwt issuers redis users
          ((0, 0) ∷ (1, 0) ∷ (0, 0) ∷ (1, 0) ∷ [])
          (start jwt issuers redis users [] at_100 (λ k. "refresh")) in
      (new' : Tokens) × ((refresh jwt issuer redis users at_100 "refresh" []).0 ≡ ok (ok_200 new'))
      × (y.point 0 ≡ answered (ok (ok_200 new_tokens)))
      × (y.point 1 ≡ answered (ok (ok_200 new'))))
overlapping_refreshes_both_rotate_example =
    overlapping_refreshes_both_rotate jwt issuers redis users
      (start jwt issuers redis users [] at_100 (λ k. "refresh")) 0 1 "refresh" rotated new_tokens
      refl refl refl refreshes

-- A signup, a superuser, and a signup with an email that was taken after its look-up.
abbrev changes : List Change
changes =
    signs_up signup_env "b@x.org"
    ∷ makes_superuser signup_env (record { is_staff = none; is_superuser = some true }) "c@x.org"
    ∷ signs_up signup_env "b@x.org"
    ∷ []

pub emails_once : HasEmailsOnce site.users
unfolding HasEmailsOnce
emails_once = (refl, tt)

changed-HasEmailsOnce_example : HasEmailsOnce (changed changes site).users
changed-HasEmailsOnce_example = changed-HasEmailsOnce changes site emails_once
