-- ===== src/Tests/Accounts.antt =====
-- The denylist, the token checks and the account endpoints, run on a small Redis and two tokens.
use text.Mathlib.Text.{◌==◌ as str_eq}
use djaskt_trading_app.Prelude.{
  ap, ℕ, String, ◌+◌, ◌*◌, ◌<◌, ◌==◌, ◌&&◌, ◌≡◌, ◌≢◌, inl, inr, refl, arith, Bool, true, false,
  Bool-cases, Option, none, some, List, [], ◌∷◌, ltb, if◌then◌else◌,
}
use djaskt_trading_app.Prelude.Int.{pos}
use djaskt_trading_app.Prelude.Rows.{find, find-passes}
use djaskt_trading_app.Prelude.Action.{ok}
use djaskt_trading_app.Accounts.Redis.{Redis, Key, deny_key, logout_all_key}
use djaskt_trading_app.Accounts.Denylist.{
  deny, is_denied, deny_all_for_user, is_denied_for_user, at_or_before,
}
use djaskt_trading_app.Accounts.Denylist.History.{Later, here, waits}
use djaskt_trading_app.Accounts.Auth.{
  User, Claims, Jwt, token_is_denied, user_is_denied, find_user, check_claims, checked_token,
  validate_and_get_user,
}
use djaskt_trading_app.Accounts.Auth.Revocation.{denied_token_is_rejected, logged_out_everywhere}
use djaskt_trading_app.Accounts.Api.{
  Issuer, number_value, Tokens, get_token, ok_200, refresh, exchange, rotate, logout, deny_token,
}
use djaskt_trading_app.Accounts.Api.Laws.{
  HasOneExpiry, refresh_token_is_used_once, refresh_ignores_logout_all, logout_ends_access,
}
use djaskt_trading_app.Accounts.Signup.{
  Site, SignupEnv, created_201, signup, signup_block, create_user, save_user,
}
use djaskt_trading_app.Accounts.Signup.Laws.{IsPeopled}
use djaskt_trading_app.Ledger.Orchestrator.{create_user_portfolio, get_portfolio_for_user}
use djaskt_trading_app.Tests.Fixtures.{db}

abbrev pub same_key : Key → Key → Bool
same_key (deny_key a) (deny_key b) = a == b
same_key (deny_key a) (logout_all_key b) = false
same_key (logout_all_key a) (deny_key b) = false
same_key (logout_all_key a) (logout_all_key b) = a == b

pub same_key_refl : (k : Key) → same_key k k ≡ true
same_key_refl (deny_key a) = ground arith
same_key_refl (logout_all_key a) = ground arith

pub same_key-false : (k l : Key) → k ≢ l → same_key k l ≡ false
same_key-false (deny_key a) (deny_key b) n = elim (Bool-cases (a == b)) [
  | inl y ↦ let p : a ≡ b = ground arith in absurd (n (ap deny_key p))
  | inr y ↦ y
]
same_key-false (deny_key a) (logout_all_key b) n = refl
same_key-false (logout_all_key a) (deny_key b) n = refl
same_key-false (logout_all_key a) (logout_all_key b) n = elim (Bool-cases (a == b)) [
  | inl y ↦ let p : a ≡ b = ground arith in absurd (n (ap logout_all_key p))
  | inr y ↦ y
]

-- The writes, the latest first: a key, its value, and when it expires.
abbrev pub Writes : Type 0
Writes = List (Key × ℕ × ℕ)

abbrev pub lookup : Key → ℕ → Writes → Option ℕ
lookup k now [] = none
lookup k now ((l, v, e) ∷ s) =
    let rest = lookup k now s in if same_key l k then (if ltb now e then some v else none) else rest

abbrev pub redis : Redis
redis = record {
  State = Writes;
  set_ex = λ k v ttl now s. (k, v, now + ttl) ∷ s;
  get = lookup;
  get-set_ex = λ k v ttl now later s h l. rw (same_key_refl k) (ground arith);
  get-set_ex_expired = λ k v ttl now later s h. rw (same_key_refl k) (ground arith);
  get-set_ex_ne = λ k l v ttl now later s n. rw (same_key-false k l n) refl;
}

abbrev pub alice : User
alice = record { id = 7; email = "a@x.org" }

abbrev pub access_claims : Claims
access_claims = record { jti = some 1; user_id = some 7; iat = some 50; exp = 1_000 }

abbrev pub refresh_claims : Claims
refresh_claims = record { jti = some 2; user_id = some 7; iat = some 50; exp = 5_000 }

abbrev pub read_token : String → Claims → String → ℕ → Option Claims
read_token name c raw now = if str_eq raw name && ltb now c.exp then some c else none

pub read_token-unexpired :
    (name : String) (d : Claims) (raw : String) (now : ℕ) (c : Claims)
    → read_token name d raw now ≡ some c
    → now < c.exp
read_token-unexpired name d raw now c e = ground arith

pub read_token-same :
    (name : String) (d : Claims) (raw : String) (now later : ℕ) (c c' : Claims)
    → read_token name d raw now ≡ some c
    → read_token name d raw later ≡ some c'
    → c' ≡ c
read_token-same name d raw now later c c' e e' = ground arith

abbrev pub user_of : List User → Option ℕ → Option User
user_of users none = none
user_of users (some id) = find (λ (u : User). u.id == id) users

pub user_of-id :
    (users : List User) (o : Option ℕ) (u : User) → user_of users o ≡ some u → o ≡ some u.id
user_of-id users none u e = cc
user_of-id users (some id) u e =
    let p = find-passes (λ (v : User). v.id == id) users u e in ground arith

abbrev pub jwt : Jwt
jwt = record {
  access_token = read_token "access" access_claims;
  refresh_token = read_token "refresh" refresh_claims;
  get_user = λ users c. user_of users c.user_id;
  access-unexpired = read_token-unexpired "access" access_claims;
  access-same = read_token-same "access" access_claims;
  refresh-unexpired = read_token-unexpired "refresh" refresh_claims;
  refresh-same = read_token-same "refresh" refresh_claims;
  get_user-id = λ users c u e. user_of-id users c.user_id u e;
}

abbrev pub expiry : ℕ → ℕ
expiry jti = if jti == 1 then 1_000 else 5_000

pub one_expiry : HasOneExpiry jwt expiry
one_expiry = record {
  of_access = λ raw t jti c e f. ground arith;
  of_refresh = λ raw t jti c e f. ground arith;
}

abbrev pub issuer : Issuer
issuer = record {
  for_user = λ u now. ("user_id", number_value u.id) ∷ [];
  access_token = λ now. [];
  no_copy_claims = "exp" ∷ [];
  sign_refresh = λ p. "refresh2";
  sign_access = λ p. "access2";
}

abbrev pub users : List User
users = alice ∷ []

-- Second 100.
abbrev pub at_100 : ℕ
at_100 = 100 * 1_000_000

abbrev denied_access : Writes
denied_access = deny redis 1 900 100 []

passes : Later redis expiry denied_access 100 denied_access 200
passes = waits 200 here (omega arith)

denied_token_is_rejected_example :
    validate_and_get_user jwt redis users 200 denied_access "access" ≢ ok alice
denied_token_is_rejected_example =
    denied_token_is_rejected jwt redis users expiry "access" access_claims 1 100 200 []
      denied_access alice refl refl refl passes

abbrev cut : Writes
cut = deny_all_for_user redis 7 100 100 []

cut_passes : Later redis expiry cut 100 cut 200
cut_passes = waits 200 here (omega arith)

logged_out_everywhere_example : validate_and_get_user jwt redis users 200 cut "access" ≢ ok alice
logged_out_everywhere_example =
    logged_out_everywhere jwt redis users expiry "access" access_claims 7 50 100 200 [] cut alice
      refl refl refl (omega arith) (omega arith) cut_passes

pub lets_in : validate_and_get_user jwt redis users 100 [] "access" ≡ ok alice
unfolding validate_and_get_user checked_token check_claims token_is_denied user_is_denied find_user
    is_denied is_denied_for_user at_or_before
lets_in = refl

abbrev pub new_tokens : Tokens
new_tokens = record { refresh = "refresh2"; access = "access2" }

abbrev pub rotated : Writes
rotated = (deny_key 2, 1, 5_000) ∷ []

pub refreshes :
    refresh jwt issuer redis users at_100 "refresh" [] ≡ (ok (ok_200 new_tokens), rotated)
unfolding refresh exchange rotate is_denied deny get_token
refreshes = refl

refresh_token_is_used_once_example :
    refresh jwt issuer redis users at_100 "refresh" rotated ≢ (ok (ok_200 new_tokens), rotated)
refresh_token_is_used_once_example =
    refresh_token_is_used_once jwt issuer issuer redis users users expiry at_100 at_100 "refresh" []
      rotated rotated rotated new_tokens new_tokens one_expiry refreshes here

refresh_ignores_logout_all_example :
    (refresh jwt issuer redis users at_100 "refresh" (deny_all_for_user redis 7 100 100 [])).0
    ≡ ok (ok_200 new_tokens)
refresh_ignores_logout_all_example =
    refresh_ignores_logout_all jwt issuer redis users at_100 100 7 "refresh" [] rotated new_tokens
      refreshes

abbrev logged_out : Writes
logged_out = (deny_key 2, 1, 5_000) ∷ (deny_key 1, 1, 1_000) ∷ []

logs_out :
    logout jwt redis users at_100 (some "access") (some "refresh") [] ≡ (ok (ok_200 tt), logged_out)
unfolding logout deny_token deny
logs_out = refl

logout_ends_access_example :
    validate_and_get_user jwt redis users 100 logged_out "access" ≢ ok alice
logout_ends_access_example =
    logout_ends_access jwt redis users at_100 expiry "access" access_claims 1 (some "refresh") []
      logged_out logged_out 100 alice (ok_200 tt) one_expiry refl refl refl logs_out here

abbrev pub site : Site
site = record { users = users; ledger = db }

abbrev pub signup_env : SignupEnv
signup_env = record { normalize_email = λ e. e; new_user_id = 8; new_portfolio_id = 3 }

abbrev bob : User
bob = record { id = 8; email = "b@x.org" }

abbrev joined : Site
joined = record {
  users = bob ∷ alice ∷ [];
  ledger = record db {
    portfolios = (record { id = 3; user = 8; cash_balance = pos 0 }) ∷ db.portfolios;
  };
}

signs_up : signup signup_env "b@x.org" site ≡ (ok (created_201 bob), joined)
unfolding signup signup_block create_user save_user create_user_portfolio get_portfolio_for_user
signs_up = refl

pub peopled : IsPeopled site
unfolding get_portfolio_for_user
peopled = (λ e. cc, tt)
