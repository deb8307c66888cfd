-- ===== src/Accounts/Overlap/Moves.antt =====
-- What one piece of a refresh does to the denylist, and what is known of a call at each of its points.
use djaskt_trading_app.Prelude.{
  ℕ, String, ◌==◌, ◌≡◌, refl, sym, Bool-cases, inl, inr, Option, none, some, Option-cases, List,
}
use djaskt_trading_app.Prelude.Action.{ok, err}
use djaskt_trading_app.Accounts.Redis.{Redis}
use djaskt_trading_app.Accounts.Denylist.{is_denied}
use djaskt_trading_app.Accounts.Denylist.History.{
  Later, here, denies, DeniedUntilExp, deny_lem, still_denied,
}
use djaskt_trading_app.Accounts.Auth.{User, Claims, Jwt}
use djaskt_trading_app.Accounts.Api.{Issuer, ok_200, unauthorized_401, seconds, rotate}
use djaskt_trading_app.Accounts.Api.Laws.{HasOneExpiry}
use djaskt_trading_app.Accounts.Overlap.{
  Point, waiting, cleared, answered, asked, ask, ended, advance,
}
use djaskt_trading_app.Prelude.Rows.{find}

module _ (jwt : Jwt) (issuer : ℕ → Issuer) (redis : Redis) (users : List User)
    (exp_of : ℕ → ℕ) where
  -- The token has been read, with this id.
  pub record Read (token : String) (jti : ℕ) (c : Claims) : Type 0 where
    pub time : ℕ
    pub verified : jwt.refresh_token token time ≡ some c
    pub has_jti : c.jti ≡ some jti

  -- The token's id is denied for the rest of its life.
  pub record Spent (token : String) (s : redis.State) (t : ℕ) : Type 0 where
    pub claims : Claims
    pub jti : ℕ
    pub is_read : Read token jti claims
    pub denied : DeniedUntilExp redis exp_of jti t s

  -- What is known of a call with a token, at a point.
  unfoldable pub Holds : String → redis.State → ℕ → Point → Type 0
  Holds token s t (waiting w) = w ≡ token
  Holds token s t (cleared jti c) = Read token jti c
  Holds token s t (answered (ok (ok_200 new))) = Spent token s t
  Holds token s t (answered (ok unauthorized_401)) = Unit
  Holds token s t (answered (err e)) = Unit

  pub Spent-Later :
      (token : String) (s s' : redis.State) (t t' : ℕ)
      → Later redis exp_of s t s' t'
      → Spent token s t
      → Spent token s' t'
  Spent-Later token s s' t t' l h = record {
    claims = h.claims;
    jti = h.jti;
    is_read = h.is_read;
    denied = still_denied redis exp_of h.jti h.denied l;
  }

  pub Holds-Later :
      (token : String) (s s' : redis.State) (t t' : ℕ) (p : Point)
      → Later redis exp_of s t s' t'
      → Holds token s t p
      → Holds token s' t' p
  unfolding Holds
  Holds-Later token s s' t t' (waiting w) l h = h
  Holds-Later token s s' t t' (cleared jti c) l h = h
  Holds-Later token s s' t t' (answered (ok (ok_200 new))) l h = Spent-Later token s s' t t' l h
  Holds-Later token s s' t t' (answered (ok unauthorized_401)) l h = tt
  Holds-Later token s s' t t' (answered (err e)) l h = tt

  -- A piece at a moment, of a call of which its point's condition holds.
  pub record IsMove (token : String) (now : ℕ) (s : redis.State) (x : Point × redis.State)
      : Type 0 where
    pub holds : Holds token x.1 (seconds now) x.0
    pub later : Later redis exp_of s (seconds now) x.1 (seconds now)

  asked-Holds :
      (token : String) (now : ℕ) (s : redis.State) (c : Claims) (j : Option ℕ)
      → c.jti ≡ j
      → jwt.refresh_token token (seconds now) ≡ some c
      → Holds token s (seconds now) (asked jwt issuer redis users now j c s)
  unfolding asked Holds
  asked-Holds token now s c none e v = tt
  asked-Holds token now s c (some jti) e v =
      elim (Bool-cases (is_denied redis jti (seconds now) s)) [
        | inl d ↦ rw d tt
        | inr d ↦ rw d (record { time = seconds now; verified = v; has_jti = e })
      ]

  ask-Holds :
      (token : String) (now : ℕ) (s : redis.State) (o : Option Claims)
      → jwt.refresh_token token (seconds now) ≡ o
      → Holds token s (seconds now) (ask jwt issuer redis users now o s)
  unfolding ask Holds
  ask-Holds token now s none v = tt
  ask-Holds token now s (some c) v = asked-Holds token now s c c.jti refl v

  rotate-IsMove :
      (one : HasOneExpiry jwt exp_of) (i : ℕ) (token : String) (now jti : ℕ) (c : Claims)
      (s : redis.State)
      → Read token jti c
      → IsMove token now s
          (ended jwt issuer redis users (rotate jwt (issuer i) redis users now jti c s))
  unfolding rotate Holds
  rotate-IsMove one i token now jti c s r = elim (Option-cases c.user_id) [
    | inl n ↦ rw (n, rotate) (record { holds = tt; later = here })
    | inr (id, k) ↦ elim (Option-cases (find (λ (u : User). u.id == id) users)) [
      | inl n ↦ rw (k, n, rotate) (record { holds = tt; later = here })
      | inr (u, f) ↦
          let x : exp_of jti ≡ c.exp = one.of_refresh token r.time jti c r.verified r.has_jti in
          rw (k, f, rotate, sym x)
            (record {
              holds = record {
                claims = c;
                jti = jti;
                is_read = r;
                denied = deny_lem redis exp_of jti (seconds now) s;
              };
              later = denies jti here;
            })
    ]
  ]

  pub advance-IsMove :
      (one : HasOneExpiry jwt exp_of) (i : ℕ) (token : String) (now : ℕ) (s : redis.State)
      (p : Point)
      → Holds token s (seconds now) p
      → IsMove token now s (advance jwt issuer redis users i now p s)
  unfolding advance Holds
  advance-IsMove one i token now s (waiting w) h =
      let a = ask-Holds token now s (jwt.refresh_token token (seconds now)) refl in
      record { holds = rw h a; later = here }
  advance-IsMove one i token now s (cleared jti c) h = rotate-IsMove one i token now jti c s h
  advance-IsMove one i token now s (answered r) h = record { holds = h; later = here }
