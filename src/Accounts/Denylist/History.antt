-- ===== src/Accounts/Denylist/History.antt =====
-- A revocation holds through every later use of the denylist, whatever its order.
use djaskt_trading_app.Prelude.{
  ℕ, ◌+◌, ◌-◌, ◌≤◌, ◌<◌, ◌==◌, ◌≡◌, ◌≢◌, inl, inr, ◌∙◌, Bool-cases, some, true, false, arith, leb,
}
use djaskt_trading_app.Accounts.Redis.{Redis, deny_key, logout_all_key}
use djaskt_trading_app.Accounts.Denylist.{
  user_cutoff_ttl_seconds, at_or_before, deny, is_denied, deny_all_for_user, is_denied_for_user,
}

module _ (redis : Redis) (exp_of : ℕ → ℕ) where
  -- What the denylist can go through from a state at a time. A token id has one expiry, `exp_of`, and
  -- a token is denied for what remains of its life; a user's cutoff is the time of the call.
  pub data Later (s : redis.State) (t : ℕ) : redis.State → ℕ → Type 0 where
    here : Later s t s t
    waits : {s' : redis.State} {t' : ℕ} (t'' : ℕ) → Later s t s' t' → t' ≤ t'' → Later s t s' t''
    denies :
        {s' : redis.State} {t' : ℕ} (jti : ℕ)
        → Later s t s' t'
        → Later s t (deny redis jti (exp_of jti - t') t' s') t'
    logs_out_all :
        {s' : redis.State} {t' : ℕ} (user : ℕ)
        → Later s t s' t'
        → Later s t (deny_all_for_user redis user t' t' s') t'

  -- The id is denied at every time from one on, until its token expires.
  unfoldable pub DeniedUntilExp : ℕ → ℕ → redis.State → Type 0
  DeniedUntilExp jti t s =
      (later : ℕ) → t ≤ later → later < exp_of jti → is_denied redis jti later s ≡ true

  pub deny_lem :
      (jti t : ℕ) (s : redis.State) → DeniedUntilExp jti t (deny redis jti (exp_of jti - t) t s)
  unfolding deny is_denied DeniedUntilExp
  deny_lem jti t s later h l =
      let set = redis.get-set_ex (deny_key jti) 1 (exp_of jti - t) t later s h (omega arith) in
      ground arith

  is_denied_other :
      (jti other ttl now later : ℕ) (s : redis.State)
      → (other == jti) ≡ false
      → is_denied redis jti later (deny redis other ttl now s) ≡ is_denied redis jti later s
  unfolding deny is_denied
  is_denied_other jti other ttl now later s n = elim (Bool-cases (leb ttl 0)) [
    | inl z ↦ rw z
    | inr p ↦
        let k : deny_key other ≢ deny_key jti = λ e. ground arith in
        rw (p, redis.get-set_ex_ne (deny_key other) (deny_key jti) 1 ttl now later s k)
  ]

  pub is_denied_cutoff :
      (jti user cutoff now later : ℕ) (s : redis.State)
      → is_denied redis jti later (deny_all_for_user redis user cutoff now s)
        ≡ is_denied redis jti later s
  unfolding deny_all_for_user is_denied
  is_denied_cutoff jti user cutoff now later s = rw (
      redis.get-set_ex_ne (logout_all_key user) (deny_key jti) cutoff user_cutoff_ttl_seconds now
        later s (λ e. ground arith))

  pub trans :
      {s : redis.State} {t : ℕ} {s₁ : redis.State} {t₁ : ℕ} {s' : redis.State} {t' : ℕ}
      → Later s t s₁ t₁
      → Later s₁ t₁ s' t'
      → Later s t s' t'
  trans l here = l
  trans l (waits t'' m h) = waits t'' (trans l m) h
  trans l (denies jti m) = denies jti (trans l m)
  trans l (logs_out_all user m) = logs_out_all user (trans l m)

  Later-time : {s : redis.State} {t : ℕ} {s' : redis.State} {t' : ℕ} → Later s t s' t' → t ≤ t'
  Later-time here = omega arith
  Later-time (waits t'' l h) = let k = Later-time l in omega arith
  Later-time (denies jti l) = Later-time l
  Later-time (logs_out_all user l) = Later-time l

  pub still_denied :
      (jti : ℕ) {s : redis.State} {t : ℕ} {s' : redis.State} {t' : ℕ}
      → DeniedUntilExp jti t s
      → Later s t s' t'
      → DeniedUntilExp jti t' s'
  unfolding DeniedUntilExp
  still_denied jti d here = d
  still_denied jti d (waits t'' l h) = λ later k e. still_denied jti d l later (omega arith) e
  still_denied jti d (denies {s'} {t'} other l) = λ later k e. elim (Bool-cases (other == jti)) [
    | inl same ↦ let p : other ≡ jti = ground arith in rw p (deny_lem jti t' s' later k e)
    | inr n ↦
        is_denied_other jti other (exp_of other - t') t' later s' n ∙ still_denied jti d l later k e
  ]
  still_denied jti d (logs_out_all {s'} {t'} user l) =
      λ later k e. is_denied_cutoff jti user t' t' later s' ∙ still_denied jti d l later k e

  -- A token that is denied for the rest of its life is denied at every later time before its expiry,
  -- whatever the denylist goes through in between: waiting, denying tokens, its own id again included,
  -- and logging users out everywhere.
  pub denied_until_exp :
      (jti : ℕ) (s s' : redis.State) (t t' : ℕ)
      → Later (deny redis jti (exp_of jti - t) t s) t s' t'
      → t' < exp_of jti
      → is_denied redis jti t' s' ≡ true
  unfolding DeniedUntilExp
  denied_until_exp jti s s' t t' l e = still_denied jti (deny_lem jti t s) l t' (omega arith) e

  -- The user has a cutoff from one time up to another, and it is not before a given time.
  Cut : ℕ → ℕ → ℕ → ℕ → redis.State → Type 0
  Cut user cutoff t until s =
      (later : ℕ)
      → t ≤ later
      → later < until
      → (c : ℕ) × (redis.get (logout_all_key user) later s ≡ some c) × (cutoff ≤ c)

  set_lem :
      (user now later : ℕ) (s : redis.State)
      → now ≤ later
      → later < now + user_cutoff_ttl_seconds
      → redis.get (logout_all_key user) later (deny_all_for_user redis user now now s) ≡ some now
  unfolding deny_all_for_user
  set_lem user now later s h l =
      redis.get-set_ex (logout_all_key user) now user_cutoff_ttl_seconds now later s h l

  cut_other :
      (jti ttl now later user : ℕ) (s : redis.State)
      → redis.get (logout_all_key user) later (deny redis jti ttl now s)
        ≡ redis.get (logout_all_key user) later s
  unfolding deny
  cut_other jti ttl now later user s = elim (Bool-cases (leb ttl 0)) [
    | inl z ↦ rw z
    | inr p ↦ rw (
      p,
      redis.get-set_ex_ne (deny_key jti) (logout_all_key user) 1 ttl now later s
          (λ e. ground arith),
    )
  ]

  cut_user :
      (user other cutoff now later : ℕ) (s : redis.State)
      → (other == user) ≡ false
      → redis.get (logout_all_key user) later (deny_all_for_user redis other cutoff now s)
        ≡ redis.get (logout_all_key user) later s
  unfolding deny_all_for_user
  cut_user user other cutoff now later s n =
      redis.get-set_ex_ne (logout_all_key other) (logout_all_key user) cutoff
        user_cutoff_ttl_seconds now later s (λ e. ground arith)

  still-Cut :
      (user cutoff until : ℕ) {s : redis.State} {t : ℕ} {s' : redis.State} {t' : ℕ}
      → cutoff ≤ t
      → until ≤ t + user_cutoff_ttl_seconds
      → Cut user cutoff t until s
      → Later s t s' t'
      → Cut user cutoff t' until s'
  unfolding Cut
  still-Cut user cutoff until b u d here = d
  still-Cut user cutoff until b u d (waits t'' l h) =
      λ later k e. still-Cut user cutoff until b u d l later (omega arith) e
  still-Cut user cutoff until b u d (denies {s'} {t'} jti l) = λ later k e.
      let (c, g, m) = still-Cut user cutoff until b u d l later k e in
      (c, cut_other jti (exp_of jti - t') t' later user s' ∙ g, m)
  still-Cut user cutoff until {t} b u d (logs_out_all {s'} {t'} other l) = λ later k e.
      elim (Bool-cases (other == user)) [
        | inl same ↦
            let p : other ≡ user = ground arith in
            let h = Later-time l in
            (t', rw p (set_lem user t' later s' k (omega arith)), omega arith)
        | inr n ↦
            let (c, g, m) = still-Cut user cutoff until b u d l later k e in
            (c, cut_user user other t' t' later s' n ∙ g, m)
      ]

  -- After a user is logged out everywhere, every token of theirs that was issued by then is denied for
  -- seven days, whatever the denylist goes through in between, a second such call included.
  pub denied_after_logout_all :
      (user t issued_at : ℕ) (s s' : redis.State) (t' : ℕ)
      → Later (deny_all_for_user redis user t t s) t s' t'
      → t' < t + user_cutoff_ttl_seconds
      → issued_at ≤ t
      → is_denied_for_user redis user issued_at t' s' ≡ true
  unfolding is_denied_for_user at_or_before Cut
  denied_after_logout_all user t issued_at s s' t' l e i =
      let first : Cut user t t (t + user_cutoff_ttl_seconds) (deny_all_for_user redis user t t s) =
        λ later k x. (t, set_lem user t later s k x, omega arith) in
      let (c, g, m) =
        still-Cut user t (t + user_cutoff_ttl_seconds) (omega arith) (omega arith) first l t'
          (omega arith) e in
      rw g (ground arith)
