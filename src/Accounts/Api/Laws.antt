-- ===== src/Accounts/Api/Laws.antt =====
-- The lifetime of tokens, their rotation, and logout.
use text.Mathlib.Text.{◌==◌ as str_eq}
use text.Mathlib.TextEquality.{eq_iff}
use mathlib.Core.Path.{subst}
use mathlib.Core.Option.{some-injective}
use djaskt_trading_app.Prelude.{
  ℕ, String, ◌+◌, ◌-◌, ◌*◌, ◌/◌, ◌%◌, ◌≤◌, ◌<◌, ◌≡◌, ◌≢◌, ◌∙◌, ap, ◌==◌, refl, sym, arith, false,
  Option, none, some, List, [], ◌∷◌, Option-cases, Bool-cases, inl, inr,
}
use djaskt_trading_app.Prelude.Rows.{find}
use djaskt_trading_app.Prelude.Action.{ok, continue-eq-ok, pure}
use djaskt_trading_app.Accounts.Redis.{Redis}
use djaskt_trading_app.Accounts.Denylist.{deny, is_denied, deny_all_for_user}
use djaskt_trading_app.Accounts.Denylist.History.{
  Later, here, denies, trans, denied_until_exp, is_denied_cutoff,
}
use djaskt_trading_app.Accounts.Lifetime.{
  second, day, seconds_until_utc_midnight, seconds_until_utc_midnight_lem,
}
use djaskt_trading_app.Accounts.Auth.{User, Claims, Jwt, validate_and_get_user}
use djaskt_trading_app.Accounts.Auth.Revocation.{denied_token_is_rejected}
use djaskt_trading_app.Accounts.Api.{
  ClaimValue, number_value, Payload, set_claim, get_claim, Issuer, set_exp, access_payload,
  get_token, Tokens, Response, ok_200, seconds, rotate, exchange, refresh, deny_token, read_refresh,
  logout,
}

pub get_claim-set_claim :
    (c : String) (v : ClaimValue) (p : Payload) → get_claim c (set_claim c v p) ≡ some v
unfolding get_claim set_claim
get_claim-set_claim c v [] = ground (arith, eq_iff c c)
get_claim-set_claim c v ((d, w) ∷ p) =
    let ih = get_claim-set_claim c v p in ground (arith, eq_iff c c)

-- An access token that login or a refresh makes expires at the next midnight of UTC, whatever claims it
-- is copied from: after the moment of the call, and at most 24 hours after it.
pub access_payload_expires :
    (i : Issuer) (user : User) (now : ℕ)
    → (e : ℕ) × (get_claim "exp" (access_payload i user now) ≡ some (number_value e))
      × (now < e * second)
      × (e * second ≤ now + day)
      × (e * second % day ≡ 0)
unfolding access_payload set_exp
access_payload_expires i user now =
    let (positive, short, midnight) = seconds_until_utc_midnight_lem now in
    (
      (now + seconds_until_utc_midnight now) / second,
      get_claim-set_claim "exp" _ _,
      omega arith,
      omega arith,
      omega arith,
    )

module _ (jwt : Jwt) (issuer : Issuer) (redis : Redis) (users : List User) (now : ℕ) where
  -- What a refresh that gives tokens has found and done.
  pub record Rotated (token : String) (s : redis.State) (new : Tokens) (s' : redis.State)
      : Type 0 where
    pub claims : Claims
    pub jti : ℕ
    pub verified : jwt.refresh_token token (seconds now) ≡ some claims
    pub has_jti : claims.jti ≡ some jti
    pub not_denied : is_denied redis jti (seconds now) s ≡ false
    pub id : ℕ
    pub user : User
    pub has_user : claims.user_id ≡ some id
    pub found : find (λ (u : User). u.id == id) users ≡ some user
    pub issued : new ≡ get_token issuer user now
    pub denied : s' ≡ deny redis jti (claims.exp - seconds now) (seconds now) s

  pub refresh-eq-ok :
      (token : String) (s : redis.State) (new : Tokens) (s' : redis.State)
      → refresh jwt issuer redis users now token s ≡ (ok (ok_200 new), s')
      → Rotated token s new s'
  unfolding refresh exchange rotate
  refresh-eq-ok token s new s' e = elim (Option-cases (jwt.refresh_token token (seconds now))) [
    | inl n ↦ absurd (ground arith)
    | inr (c, v) ↦ elim (Option-cases c.jti) [
      | inl n ↦ absurd (ground arith)
      | inr (j, f) ↦ elim (Bool-cases (is_denied redis j (seconds now) s)) [
        | inl d ↦ absurd (ground arith)
        | inr d ↦ elim (Option-cases c.user_id) [
          | inl n ↦ absurd (ground arith)
          | inr (id, k) ↦ elim (Option-cases (find (λ (u : User). u.id == id) users)) [
            | inl n ↦ absurd (ground arith)
            | inr (u, g) ↦ record {
              claims = c;
              jti = j;
              verified = v;
              has_jti = f;
              not_denied = d;
              id = id;
              user = u;
              has_user = k;
              found = g;
              issued = ground arith;
              denied = ground arith;
            }
          ]
        ]
      ]
    ]
  ]

-- Every token id has one expiry: ids are unique to a token.
pub record HasOneExpiry (jwt : Jwt) (exp_of : ℕ → ℕ) : Type 0 where
  pub of_access :
      (raw : String) (t jti : ℕ) (c : Claims)
      → jwt.access_token raw t ≡ some c
      → c.jti ≡ some jti
      → exp_of jti ≡ c.exp
  pub of_refresh :
      (raw : String) (t jti : ℕ) (c : Claims)
      → jwt.refresh_token raw t ≡ some c
      → c.jti ≡ some jti
      → exp_of jti ≡ c.exp

-- A refresh token that has been exchanged for new tokens is exchanged for none at any later time,
-- whatever the denylist goes through in between.
pub refresh_token_is_used_once :
    (jwt : Jwt) (issuer issuer' : Issuer) (redis : Redis) (users users' : List User)
    (exp_of : ℕ → ℕ) (now now' : ℕ) (token : String) (s s' s₁ s₂ : redis.State) (new new' : Tokens)
    → HasOneExpiry jwt exp_of
    → refresh jwt issuer redis users now token s ≡ (ok (ok_200 new), s')
    → Later redis exp_of s' (seconds now) s₁ (seconds now')
    → refresh jwt issuer' redis users' now' token s₁ ≢ (ok (ok_200 new'), s₂)
refresh_token_is_used_once jwt issuer issuer' redis users users' exp_of now now' token s s' s₁ s₂
      new new' x e l e' =
    let a = refresh-eq-ok jwt issuer redis users now token s new s' e in
    let b = refresh-eq-ok jwt issuer' redis users' now' token s₁ new' s₂ e' in
    let same =
      jwt.refresh-same token (seconds now) (seconds now') a.claims b.claims a.verified b.verified in
    let id : b.jti ≡ a.jti = let h = a.has_jti in let k = b.has_jti in some-injective _ _ cc in
    let exp = x.of_refresh token (seconds now) a.jti a.claims a.verified a.has_jti in
    let fresh = jwt.refresh-unexpired token (seconds now') b.claims b.verified in
    let in_time : seconds now' < exp_of a.jti = let h = fresh in ground arith in
    let l' = subst (λ z. Later redis exp_of z (seconds now) s₁ (seconds now')) a.denied l in
    let l'' =
      subst
        (λ n.
          Later redis exp_of (deny redis a.jti (n - seconds now) (seconds now) s) (seconds now) s₁
            (seconds now'))
        (sym exp) l' in
    let held = denied_until_exp redis exp_of a.jti s s₁ (seconds now) (seconds now') l'' in_time in
    let free = b.not_denied in absurd (ground arith)

-- A logout everywhere does not reach refresh tokens: one that is exchanged for new tokens is exchanged
-- for the same ones after it, though it was issued before.
pub refresh_ignores_logout_all :
    (jwt : Jwt) (issuer : Issuer) (redis : Redis) (users : List User) (now at user : ℕ)
    (token : String) (s s' : redis.State) (new : Tokens)
    → refresh jwt issuer redis users now token s ≡ (ok (ok_200 new), s')
    → (refresh jwt issuer redis users now token (deny_all_for_user redis user at at s)).0
      ≡ ok (ok_200 new)
unfolding refresh exchange rotate
refresh_ignores_logout_all jwt issuer redis users now at user token s s' new e =
    let a = refresh-eq-ok jwt issuer redis users now token s new s' e in
    let free = is_denied_cutoff redis (λ n. n) a.jti user at at (seconds now) s ∙ a.not_denied in
    rw (a.verified, a.has_jti, free, a.has_user, a.found) (ap (λ n. ok (ok_200 n)) (sym a.issued))

module _ (jwt : Jwt) (redis : Redis) (users : List User) (now : ℕ) (exp_of : ℕ → ℕ) where
  -- What is known of an optional token that has been read.
  HasExpiry : Option Claims → Type 0
  HasExpiry o = (c : Claims) (jti : ℕ) → o ≡ some c → c.jti ≡ some jti → exp_of jti ≡ c.exp

  -- One token of a logout is a step of the denylist, or none.
  deny_token-Later :
      (o : Option Claims) (s s' s₀ : redis.State) (t : ℕ) {x : Unit {0}}
      → HasExpiry o
      → deny_token jwt redis users now o s ≡ (ok x, s')
      → Later redis exp_of s₀ t s (seconds now)
      → Later redis exp_of s₀ t s' (seconds now)
  unfolding deny_token HasExpiry
  deny_token-Later none s s' s₀ t x e l =
      let p : s ≡ s' = ground arith in subst (λ z. Later redis exp_of s₀ t z (seconds now)) p l
  deny_token-Later (some c) s s' s₀ t x e l = elim (Option-cases c.jti) [
    | inl n ↦ absurd (ground arith)
    | inr (j, f) ↦
        let p : deny redis j (c.exp - seconds now) (seconds now) s ≡ s' = ground arith in
        let y = x c j refl f in
        let q : deny redis j (exp_of j - seconds now) (seconds now) s ≡ s' = rw y p in
        subst (λ z. Later redis exp_of s₀ t z (seconds now)) q (denies j l)
  ]

  given_refresh :
      (one : HasOneExpiry jwt exp_of) (raw : Option String)
      → HasExpiry (read_refresh jwt redis users now raw)
  unfolding HasExpiry
  given_refresh one none c jti v f = absurd (ground arith)
  given_refresh one (some raw) c jti v f = elim (Bool-cases (str_eq raw "")) [
    | inl b ↦ absurd (ground arith)
    | inr b ↦ one.of_refresh raw (seconds now) jti c (rw b at v) f
  ]

  -- An access token that a logout was given lets nobody in at any later time, whatever refresh token
  -- came with it and whatever the denylist goes through in between.
  pub logout_ends_access :
      (raw : String) (c : Claims) (jti : ℕ) (refresh : Option String) (s s' s₁ : redis.State)
      (t : ℕ) (u : User) (r : Response (Unit {0}))
      → HasOneExpiry jwt exp_of
      → str_eq raw "" ≡ false
      → jwt.access_token raw (seconds now) ≡ some c
      → c.jti ≡ some jti
      → logout jwt redis users now (some raw) refresh s ≡ (ok r, s')
      → Later redis exp_of s' (seconds now) s₁ t
      → validate_and_get_user jwt redis users t s₁ raw ≢ ok u
  unfolding logout deny_token
  logout_ends_access raw c jti refresh s s' s₁ t u r one b v f e l =
      let after = deny redis jti (c.exp - seconds now) (seconds now) s in
      let (x, s₂, d, k) =
        continue-eq-ok
          (deny_token jwt redis users now (read_refresh jwt redis users now refresh) after)
          (λ _. pure (ok_200 tt)) {b = r} {s' = s'} (rw (b, v, f) at e) in
      let first =
        deny_token-Later (read_refresh jwt redis users now refresh) after s₂ after (seconds now)
          (given_refresh one refresh) d here in
      denied_token_is_rejected jwt redis users exp_of raw c jti (seconds now) t s s₁ u v f
        (one.of_access raw (seconds now) jti c v f)
        (trans redis exp_of first
          (subst (λ z. Later redis exp_of z (seconds now) s₁ t) (ground arith) l))
