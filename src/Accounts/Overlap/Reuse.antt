-- ===== src/Accounts/Overlap/Reuse.antt =====
-- Two calls that both ask the denylist before either of them denies.
use djaskt_trading_app.Prelude.{
  eq_refl, ℕ, String, ◌+◌, ◌==◌, ◌≡◌, refl, sym, ap, arith, false, List, [], ◌∷◌,
}
use djaskt_trading_app.Prelude.Action.{ok}
use djaskt_trading_app.Accounts.Redis.{Redis}
use djaskt_trading_app.Accounts.Auth.{User, Jwt}
use djaskt_trading_app.Accounts.Api.{
  Issuer, Tokens, ok_200, seconds, get_token, rotate, exchange, refresh,
}
use djaskt_trading_app.Accounts.Api.Laws.{Rotated, refresh-eq-ok}
use djaskt_trading_app.Accounts.Overlap.{
  Point, waiting, cleared, answered, asked, ask, advance, System, put_point, step, run,
}

add_zero : (n : ℕ) → n + 0 ≡ n
add_zero n = omega arith

module _ (jwt : Jwt) (issuer : ℕ → Issuer) (redis : Redis) (users : List User) where
  -- A call that asks when a whole refresh at that moment would give tokens is cleared.
  ask-cleared :
      (k now : ℕ) (token : String) (s s' : redis.State) (new : Tokens)
      (a : Rotated jwt (issuer k) redis users now token s new s')
      → ask jwt issuer redis users now (jwt.refresh_token token (seconds now)) s
        ≡ cleared a.jti a.claims
  unfolding ask asked
  ask-cleared k now token s s' new a = rw (a.verified, a.has_jti, a.not_denied) refl

  -- A call that was cleared makes tokens, whatever the denylist holds by then.
  rotate-Rotated :
      (k i now : ℕ) (token : String) (s s' t : redis.State) (new : Tokens)
      (a : Rotated jwt (issuer k) redis users now token s new s')
      → (rotate jwt (issuer i) redis users now a.jti a.claims t).0
        ≡ ok (ok_200 (get_token (issuer i) a.user now))
  unfolding rotate
  rotate-Rotated k i now token s s' t new a = rw (a.has_user, a.found) refl

  -- A whole refresh at that moment would give any call tokens.
  refresh-Rotated :
      (k i now : ℕ) (token : String) (s s' : redis.State) (new : Tokens)
      (a : Rotated jwt (issuer k) redis users now token s new s')
      → (refresh jwt (issuer i) redis users now token s).0
        ≡ ok (ok_200 (get_token (issuer i) a.user now))
  unfolding refresh exchange rotate
  refresh-Rotated k i now token s s' new a =
      rw (a.verified, a.has_jti, a.not_denied, a.has_user, a.found) refl

  -- What the two pieces of such a call do to a system whose clock stands at that moment.
  step-waiting :
      (x : System jwt issuer redis users) (k i : ℕ) (token : String) (s' : redis.State)
      (new : Tokens) (a : Rotated jwt (issuer k) redis users x.clock token x.state new s')
      → x.point i ≡ waiting token
      → step jwt issuer redis users i 0 x ≡ record {
        state = x.state;
        clock = x.clock;
        point = put_point jwt issuer redis users i (cleared a.jti a.claims) x.point;
      }
  unfolding step advance
  step-waiting x k i token s' new a p =
      rw (add_zero x.clock, p, ask-cleared k x.clock token x.state s' new a) refl

  step-cleared :
      (x : System jwt issuer redis users) (k i now : ℕ) (token : String) (s s' : redis.State)
      (new : Tokens) (a : Rotated jwt (issuer k) redis users now token s new s')
      → x.clock ≡ now
      → x.point i ≡ cleared a.jti a.claims
      → (t : redis.State) × (step jwt issuer redis users i 0 x ≡ record {
        state = t;
        clock = now;
        point =
            put_point jwt issuer redis users i
              (answered (ok (ok_200 (get_token (issuer i) a.user now))))
              x.point;
      })
  unfolding step advance
  step-cleared x k i now token s s' new a c p =
      let r = rotate-Rotated k i now token s s' x.state new a in
      (
        (rotate jwt (issuer i) redis users now a.jti a.claims x.state).1,
        rw (add_zero x.clock, c, p, r) refl,
      )

  -- When one refresh would give tokens, two calls with that token that overlap both give tokens, each those
  -- that it would give alone: each asks the denylist before the other has denied the token.
  pub overlapping_refreshes_both_rotate :
      (x : System jwt issuer redis users) (i j : ℕ) (token : String) (s' : redis.State)
      (new : Tokens)
      → (i == j) ≡ false
      → x.point i ≡ waiting token
      → x.point j ≡ waiting token
      → refresh jwt (issuer i) redis users x.clock token x.state ≡ (ok (ok_200 new), s')
      → (let y = run jwt issuer redis users ((i, 0) ∷ (j, 0) ∷ (i, 0) ∷ (j, 0) ∷ []) x in
          (new' : Tokens) × ((refresh jwt (issuer j) redis users x.clock token x.state).0
            ≡ ok (ok_200 new'))
          × (y.point i ≡ answered (ok (ok_200 new)))
          × (y.point j ≡ answered (ok (ok_200 new'))))
  unfolding run
  overlapping_refreshes_both_rotate x i j token s' new n p q e =
      let m : (j == i) ≡ false = ground arith in
      let a = refresh-eq-ok jwt (issuer i) redis users x.clock token x.state new s' e in
      let give : Point = answered (ok (ok_200 (get_token (issuer i) a.user x.clock))) in
      let clear : Point = cleared a.jti a.claims in
      let f₁ : ℕ → Point = put_point jwt issuer redis users i clear x.point in
      let f₂ : ℕ → Point = put_point jwt issuer redis users j clear f₁ in
      let f₃ : ℕ → Point = put_point jwt issuer redis users i give f₂ in
      let x₁ : System jwt issuer redis users = record {
        state = x.state;
        clock = x.clock;
        point = f₁;
      } in
      let x₂ : System jwt issuer redis users = record {
        state = x.state;
        clock = x.clock;
        point = f₂;
      } in
      let e₁ : step jwt issuer redis users i 0 x ≡ x₁ = step-waiting x i i token s' new a p in
      let e₂ : step jwt issuer redis users j 0 x₁ ≡ x₂ =
        step-waiting x₁ i j token s' new a (rw m q) in
      let (t, e₃) =
        step-cleared x₂ i i x.clock token x.state s' new a refl (rw (n, eq_refl i) refl) in
      let x₃ : System jwt issuer redis users = record { state = t; clock = x.clock; point = f₃ } in
      let (t', e₄) =
        step-cleared x₃ i j x.clock token x.state s' new a refl (rw (m, eq_refl j) refl) in
      rw (e₁, e₂, e₃, e₄)
        (
          get_token (issuer j) a.user x.clock,
          refresh-Rotated i j x.clock token x.state s' new a,
          rw (n, eq_refl i) (ap (λ t. answered (ok (ok_200 t))) (sym a.issued)),
          rw (eq_refl j) refl,
        )
