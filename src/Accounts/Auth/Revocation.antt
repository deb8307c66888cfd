-- ===== src/Accounts/Auth/Revocation.antt =====
-- What the revocation check promises.
use mathlib.Core.Path.{subst}
use djaskt_trading_app.Prelude.{
  sym, ℕ, String, ◌-◌, ◌+◌, ◌≤◌, ◌<◌, ◌≡◌, ◌≢◌, arith, false, some, List, Option-cases, inl, inr,
}
use djaskt_trading_app.Prelude.Action.{ok}
use djaskt_trading_app.Accounts.Redis.{Redis}
use djaskt_trading_app.Accounts.Denylist.{
  deny, deny_all_for_user, is_denied, is_denied_for_user, user_cutoff_ttl_seconds,
}
use djaskt_trading_app.Accounts.Denylist.History.{Later, denied_until_exp, denied_after_logout_all}
use djaskt_trading_app.Accounts.Auth.{
  User, Claims, Jwt, token_is_denied, user_is_denied, find_user, check_claims, checked_token,
  validate_and_get_user,
}

module _ (jwt : Jwt) (redis : Redis) (users : List User) where
  -- What is known of a request that is let in.
  record Admitted (now : ℕ) (s : redis.State) (token : String) (u : User) : Type 0 where
    pub claims : Claims
    pub verified : jwt.access_token token now ≡ some claims
    pub unexpired : now < claims.exp
    pub not_denied : (jti : ℕ) → claims.jti ≡ some jti → is_denied redis jti now s ≡ false
    pub not_cut :
        (issued_at : ℕ)
        → claims.iat ≡ some issued_at
        → is_denied_for_user redis u.id issued_at now s ≡ false
    pub is_theirs : claims.user_id ≡ some u.id

  check_claims-eq-ok :
      (now : ℕ) (s : redis.State) (c : Claims) (u : User)
      → check_claims jwt redis users now s c ≡ ok u
      → (token_is_denied jwt redis users now s c.jti ≡ false)
        × (user_is_denied jwt redis users now s c.user_id c.iat ≡ false)
        × (jwt.get_user users c ≡ some u)
  unfolding check_claims find_user
  check_claims-eq-ok now s c u e = elim (Option-cases (jwt.get_user users c)) [
    | inl n ↦ absurd (ground arith)
    | inr (v, f) ↦ (ground arith, ground arith, ground arith)
  ]

  -- Whoever is let in has presented an access token that verifies and has not expired, whose id is not
  -- denied and whose time of issue no cutoff of the user covers, and is the user whom it names.
  validate_and_get_user-Admitted :
      (now : ℕ) (s : redis.State) (token : String) (u : User)
      → validate_and_get_user jwt redis users now s token ≡ ok u
      → Admitted now s token u
  unfolding validate_and_get_user checked_token token_is_denied user_is_denied
  validate_and_get_user-Admitted now s token u e =
      elim (Option-cases (jwt.access_token token now)) [
        | inl n ↦ absurd (ground arith)
        | inr (c, v) ↦
            let (d, k, f) = check_claims-eq-ok now s c u (rw v at e) in
            let id = jwt.get_user-id users c u f in
            record {
              claims = c;
              verified = v;
              unexpired = jwt.access-unexpired token now c v;
              not_denied = λ jti j. ground arith;
              not_cut = λ issued_at i. ground arith;
              is_theirs = id;
            }
      ]

  -- An access token that has been denied lets nobody in at any later time, whatever the denylist goes
  -- through in between: before its expiry the denylist holds it, and afterwards it does not verify.
  pub denied_token_is_rejected :
      (exp_of : ℕ → ℕ) (token : String) (c : Claims) (jti t t' : ℕ) (s s' : redis.State) (u : User)
      → jwt.access_token token t ≡ some c
      → c.jti ≡ some jti
      → exp_of jti ≡ c.exp
      → Later redis exp_of (deny redis jti (c.exp - t) t s) t s' t'
      → validate_and_get_user jwt redis users t' s' token ≢ ok u
  denied_token_is_rejected exp_of token c jti t t' s s' u v j x l e =
      let a = validate_and_get_user-Admitted t' s' token u e in
      let same = jwt.access-same token t t' c a.claims v a.verified in
      let claimed : a.claims.jti ≡ some jti = cc in
      let in_time : t' < exp_of jti = let h = a.unexpired in ground arith in
      let free = a.not_denied jti claimed in
      let held =
        denied_until_exp redis exp_of jti s s' t t'
          (subst (λ n. Later redis exp_of (deny redis jti (n - t) t s) t s' t') (sym x) l)
          in_time in
      absurd (ground arith)

  -- For seven days after a user is logged out everywhere, no access token of theirs that was issued by
  -- then lets anybody in, whatever the denylist goes through in between.
  pub logged_out_everywhere :
      (exp_of : ℕ → ℕ) (token : String) (c : Claims) (user issued_at t t' : ℕ) (s s' : redis.State)
      (u : User)
      → jwt.access_token token t' ≡ some c
      → c.user_id ≡ some user
      → c.iat ≡ some issued_at
      → issued_at ≤ t
      → t' < t + user_cutoff_ttl_seconds
      → Later redis exp_of (deny_all_for_user redis user t t s) t s' t'
      → validate_and_get_user jwt redis users t' s' token ≢ ok u
  logged_out_everywhere exp_of token c user issued_at t t' s s' u v k i b w l e =
      let a = validate_and_get_user-Admitted t' s' token u e in
      let same = jwt.access-same token t' t' c a.claims v a.verified in
      let id : user ≡ u.id = let h = a.is_theirs in ground arith in
      let free = a.not_cut issued_at cc in
      let held = denied_after_logout_all redis exp_of user t issued_at s s' t' l w b in
      absurd (ground arith)
