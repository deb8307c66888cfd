-- ===== src/Accounts/Overlap/Once.antt =====
-- A call that begins after another has been given tokens for its token is given none.
use djaskt_trading_app.Prelude.{
  ℕ, String, ◌+◌, ◌==◌, ◌≡◌, ◌≢◌, refl, arith, true, Bool-cases, inl, inr, Option, none, some, List,
  [], ◌∷◌,
}
use djaskt_trading_app.Prelude.Action.{ok, err}
use djaskt_trading_app.Accounts.Redis.{Redis}
use djaskt_trading_app.Accounts.Denylist.{is_denied}
use djaskt_trading_app.Accounts.Denylist.History.{Later, here, waits, trans, DeniedUntilExp}
use djaskt_trading_app.Accounts.Auth.{User, Claims, Jwt}
use djaskt_trading_app.Accounts.Api.{Issuer, Tokens, ok_200, unauthorized_401, seconds}
use djaskt_trading_app.Accounts.Api.Laws.{HasOneExpiry}
use djaskt_trading_app.Accounts.Overlap.{
  Point, waiting, cleared, answered, asked, ask, advance, System, put_point, step, run, start,
}
use djaskt_trading_app.Accounts.Overlap.Moves.{
  Spent, Holds, Spent-Later, Holds-Later, IsMove, advance-IsMove,
}

module _ (jwt : Jwt) (issuer : ℕ → Issuer) (redis : Redis) (users : List User) (exp_of : ℕ → ℕ)
    (one : HasOneExpiry jwt exp_of) (token_of : ℕ → String) where
  -- Every call is where the token that it was sent can have brought it.
  unfoldable pub IsGood : System jwt issuer redis users → Type 0
  IsGood x =
      (k : ℕ)
      → Holds jwt issuer redis users exp_of (token_of k) x.state (seconds x.clock) (x.point k)

  put-Holds :
      (i k now : ℕ) (s : redis.State) (p : Point) (f : ℕ → Point)
      → Holds jwt issuer redis users exp_of (token_of i) s now p
      → Holds jwt issuer redis users exp_of (token_of k) s now (f k)
      → Holds jwt issuer redis users exp_of
          (token_of k)
          s
          now
          (put_point jwt issuer redis users i p f k)
  put-Holds i k now s p f h g = elim (Bool-cases (k == i)) [
    | inl e ↦ let q : k ≡ i = ground arith in rw (e, q) h
    | inr e ↦ rw e g
  ]

  passes :
      (x : System jwt issuer redis users) (delay : ℕ)
      → Later redis exp_of x.state (seconds x.clock) x.state (seconds (x.clock + delay))
  passes x delay = waits (seconds (x.clock + delay)) here (omega arith)

  move :
      (i delay : ℕ) (x : System jwt issuer redis users)
      → IsGood x
      → IsMove jwt issuer redis users exp_of
          (token_of i)
          (x.clock + delay)
          x.state
          (advance jwt issuer redis users i (x.clock + delay) (x.point i) x.state)
  unfolding IsGood
  move i delay x g =
      advance-IsMove jwt issuer redis users exp_of one i (token_of i) (x.clock + delay) x.state
        (x.point i)
        (Holds-Later jwt issuer redis users exp_of (token_of i) x.state x.state (seconds x.clock)
          (seconds (x.clock + delay)) (x.point i) (passes x delay) (g i))

  -- What one step of call `i` is for the denylist.
  step-Later :
      (i delay : ℕ) (x : System jwt issuer redis users)
      → IsGood x
      → Later redis exp_of x.state
          (seconds x.clock)
          (step jwt issuer redis users i delay x).state
          (seconds (step jwt issuer redis users i delay x).clock)
  unfolding step
  step-Later i delay x g = let m = move i delay x g in trans redis exp_of (passes x delay) m.later

  step-IsGood :
      (i delay : ℕ) (x : System jwt issuer redis users)
      → IsGood x
      → IsGood (step jwt issuer redis users i delay x)
  unfolding step IsGood
  step-IsGood i delay x g =
      let m = move i delay x g in
      let l = trans redis exp_of (passes x delay) m.later in
      λ k.
        put-Holds i k _ _ _ x.point m.holds
          (Holds-Later jwt issuer redis users exp_of (token_of k) _ _ _ _ (x.point k) l (g k))

  pub run-IsGood :
      (schedule : List (ℕ × ℕ)) (x : System jwt issuer redis users)
      → IsGood x
      → IsGood (run jwt issuer redis users schedule x)
  unfolding run
  run-IsGood [] x g = g
  run-IsGood ((i, delay) ∷ schedule) x g =
      run-IsGood schedule (step jwt issuer redis users i delay x) (step-IsGood i delay x g)

  -- A call that has not asked yet, or was given no tokens.
  unfoldable pub IsBarred : Point → Type 0
  IsBarred (waiting w) = Unit
  IsBarred (cleared jti c) = ⊥
  IsBarred (answered (ok (ok_200 new))) = ⊥
  IsBarred (answered (ok unauthorized_401)) = Unit
  IsBarred (answered (err e)) = Unit

  asked-IsBarred :
      (now jti : ℕ) (c : Claims) (j : Option ℕ) (s : redis.State)
      → j ≡ some jti
      → is_denied redis jti (seconds now) s ≡ true
      → IsBarred (asked jwt issuer redis users now j c s)
  unfolding asked IsBarred
  asked-IsBarred now jti c j s e d = rw (e, asked, d) tt

  ask-IsBarred :
      (token : String) (now : ℕ) (s : redis.State) (o : Option Claims)
      → jwt.refresh_token token (seconds now) ≡ o
      → Spent jwt issuer redis users exp_of token s (seconds now)
      → IsBarred (ask jwt issuer redis users now o s)
  unfolding ask IsBarred DeniedUntilExp
  ask-IsBarred token now s none v h = tt
  ask-IsBarred token now s (some c) v h =
      let r = h.is_read in
      let same = jwt.refresh-same token r.time (seconds now) h.claims c r.verified v in
      let fresh = jwt.refresh-unexpired token (seconds now) c v in
      let j : c.jti ≡ some h.jti = let k = r.has_jti in cc in
      let x = one.of_refresh token (seconds now) h.jti c v j in
      asked-IsBarred now h.jti c c.jti s j (h.denied (seconds now) (omega arith) (rw x fresh))

  advance-IsBarred :
      (i : ℕ) (token : String) (now : ℕ) (s : redis.State) (p : Point)
      → Holds jwt issuer redis users exp_of token s (seconds now) p
      → Spent jwt issuer redis users exp_of token s (seconds now)
      → IsBarred p
      → IsBarred (advance jwt issuer redis users i now p s).0
  unfolding advance Holds IsBarred
  advance-IsBarred i token now s (waiting w) e h b = rw e (ask-IsBarred token now s _ refl h)
  advance-IsBarred i token now s (cleared jti c) e h b = absurd b
  advance-IsBarred i token now s (answered r) e h b = b

  step-IsBarred :
      (i delay j : ℕ) (x : System jwt issuer redis users)
      → IsGood x
      → Spent jwt issuer redis users exp_of (token_of j) x.state (seconds x.clock)
      → IsBarred (x.point j)
      → IsBarred ((step jwt issuer redis users i delay x).point j)
  unfolding step IsGood
  step-IsBarred i delay j x g h b = elim (Bool-cases (j == i)) [
    | inr e ↦ rw e b
    | inl e ↦
        let q : i ≡ j = ground arith in
        let l = passes x delay in
        rw (e, q)
          (advance-IsBarred j (token_of j) (x.clock + delay) x.state (x.point j)
            (Holds-Later jwt issuer redis users exp_of (token_of j) _ _ _ _ (x.point j) l (g j))
            (Spent-Later jwt issuer redis users exp_of (token_of j) _ _ _ _ l h) b)
  ]

  run-IsBarred :
      (schedule : List (ℕ × ℕ)) (j : ℕ) (x : System jwt issuer redis users)
      → IsGood x
      → Spent jwt issuer redis users exp_of (token_of j) x.state (seconds x.clock)
      → IsBarred (x.point j)
      → IsBarred ((run jwt issuer redis users schedule x).point j)
  unfolding run
  run-IsBarred [] j x g h b = b
  run-IsBarred ((i, delay) ∷ schedule) j x g h b =
      run-IsBarred schedule j (step jwt issuer redis users i delay x) (step-IsGood i delay x g)
        (Spent-Later jwt issuer redis users exp_of (token_of j) _ _ _ _ (step-Later i delay x g) h)
        (step-IsBarred i delay j x g h b)

  given-Spent :
      (token : String) (s : redis.State) (t : ℕ) (p : Point) (new : Tokens)
      → p ≡ answered (ok (ok_200 new))
      → Holds jwt issuer redis users exp_of token s t p
      → Spent jwt issuer redis users exp_of token s t
  unfolding Holds
  given-Spent token s t (answered (ok (ok_200 n))) new e h = h
  given-Spent token s t (answered (ok unauthorized_401)) new e h = cc
  given-Spent token s t (answered (err x)) new e h = cc
  given-Spent token s t (waiting w) new e h = cc
  given-Spent token s t (cleared jti c) new e h = cc

-- Any number of refreshes run at once, each sent its token. When one of them has been given tokens and
-- another one with the same token has not begun by then, that one is given none, however the calls go on
-- and however long they take.
pub later_refresh_is_refused :
    (jwt : Jwt) (issuer : ℕ → Issuer) (redis : Redis) (users : List User) (exp_of : ℕ → ℕ)
    (token_of : ℕ → String) (s : redis.State) (clock : ℕ) (before after : List (ℕ × ℕ)) (i j : ℕ)
    (new new' : Tokens)
    → HasOneExpiry jwt exp_of
    → token_of j ≡ token_of i
    → (run jwt issuer redis users before (start jwt issuer redis users s clock token_of)).point i
      ≡ answered (ok (ok_200 new))
    → (run jwt issuer redis users before (start jwt issuer redis users s clock token_of)).point j
      ≡ waiting (token_of j)
    → (run jwt issuer redis users after
          (run jwt issuer redis users before (start jwt issuer redis users s clock token_of))).point
        j
      ≢ answered (ok (ok_200 new'))
unfolding IsGood IsBarred Holds
later_refresh_is_refused jwt issuer redis users exp_of token_of s clock before after i j new new'
      one t p q e =
    let x₀ = start jwt issuer redis users s clock token_of in
    let x = run jwt issuer redis users before x₀ in
    let g = run-IsGood jwt issuer redis users exp_of one token_of before x₀ (λ k. refl) in
    let h =
      given-Spent jwt issuer redis users exp_of one token_of (token_of i) x.state (seconds x.clock)
        (x.point i) new p (g i) in
    let h' : Spent jwt issuer redis users exp_of (token_of j) x.state (seconds x.clock) = rw t h in
    let b : IsBarred jwt issuer redis users exp_of one token_of (x.point j) = rw q tt in
    let z = run-IsBarred jwt issuer redis users exp_of one token_of after j x g h' b in rw e at z
