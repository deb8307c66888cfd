-- ===== src/Accounts/Signup/Laws.antt =====
-- What a signup leaves.
use text.Mathlib.Text.{◌==◌ as str_eq}
use mathlib.Core.Path.{subst}
use djaskt_trading_app.Prelude.{
  eq_refl, String, ◌==◌, ◌≡◌, ◌≢◌, ◌⊎◌, refl, arith, none, List, [], ◌∷◌, Option-cases, Bool-cases,
  inl, inr,
}
use djaskt_trading_app.Prelude.Int.{pos}
use djaskt_trading_app.Prelude.Rows.{All}
use djaskt_trading_app.Prelude.Action.{Result, ok, err, outcome}
use djaskt_trading_app.Ledger.Models.{Error, Portfolio, Db}
use djaskt_trading_app.Ledger.Orchestrator.{get_portfolio_for_user, create_user_portfolio}
use djaskt_trading_app.Accounts.Auth.{User}
use djaskt_trading_app.Accounts.Signup.{
  Site, SignupEnv, SignupResponse, created_201, conflict_409, find_email, save_user, create_user,
  signup_block, signup,
}

-- What a signup that answers 201 has done: a user under the normalised email, with an empty portfolio
-- of their own.
pub record SignedUp (env : SignupEnv) (email : String) (s : Site) (user : User) (s' : Site)
    : Type 0 where
  pub made : user ≡ record { id = env.new_user_id; email = env.normalize_email email }
  pub new_email : find_email user.email s ≡ none
  pub no_portfolio : get_portfolio_for_user user.id s.ledger ≡ none
  pub written : s' ≡ record {
    users = user ∷ s.users;
    ledger = record (s.ledger) {
      portfolios =
          (record { id = env.new_portfolio_id; user = user.id; cash_balance = pos 0 })
          ∷ s.ledger.portfolios;
    };
  }

module _ (env : SignupEnv) (email : String) (s : Site) where
  pub signup_block-eq-ok :
      (user : User) (s' : Site)
      → signup_block env email s ≡ (ok user, s')
      → SignedUp env email s user s'
  unfolding signup_block create_user save_user create_user_portfolio
  signup_block-eq-ok user s' e = elim (Bool-cases (str_eq email "")) [
    | inl b ↦ absurd (ground arith)
    | inr b ↦ elim (Option-cases (find_email (env.normalize_email email) s)) [
      | inr (u, f) ↦ absurd (ground arith)
      | inl f ↦ elim (Option-cases (get_portfolio_for_user env.new_user_id s.ledger)) [
        | inr (p, g) ↦ absurd (ground arith)
        | inl g ↦ record {
          made = ground arith;
          new_email = ground arith;
          no_portfolio = ground arith;
          written = ground arith;
        }
      ]
    ]
  ]

  -- A signup either answers 409 or raises, and then changes no table, or it answers 201 and has added
  -- one user, under the normalised email, which no user had, and one portfolio, that user's, with
  -- nothing in it.
  pub signup_outcome :
      (r : Result Error SignupResponse) (s' : Site)
      → signup env email s ≡ (r, s')
      → ((user : User) × (r ≡ ok (created_201 user)) × SignedUp env email s user s')
        ⊎ ((s' ≡ s) × ((r ≡ ok conflict_409) ⊎ ((e : Error) × (r ≡ err e))))
  unfolding signup
  signup_outcome r s' e = elim (Option-cases (find_email email s)) [
    | inr (u, f) ↦ inr (ground arith, inl (ground arith))
    | inl f ↦ elim (outcome (signup_block env email s)) [
      | inr (x, t, b) ↦ inr (ground arith, inr (x, ground arith))
      | inl (user, t, b) ↦
          let same : t ≡ s' = ground arith in
          inl (
            user,
            ground arith,
            subst (SignedUp env email s user) same (signup_block-eq-ok user t b),
          )
    ]
  ]

-- Every user has a portfolio.
abbrev pub IsPeopled : Site → Type 0
IsPeopled s = All (λ (u : User). get_portfolio_for_user u.id s.ledger ≢ none) s.users

-- A portfolio more takes nobody's away.
still_peopled :
    (db : Db) (p : Portfolio) (users : List User)
    → All (λ (u : User). get_portfolio_for_user u.id db ≢ none) users
    → All
        (λ (u : User).
          get_portfolio_for_user u.id (record db { portfolios = p ∷ db.portfolios }) ≢ none)
        users
unfolding get_portfolio_for_user
still_peopled db p [] h = tt
still_peopled db p (u ∷ us) (h, hs) = (
  λ e. elim (Bool-cases (p.user == u.id)) [ inl b ↦ cc (rw b at e) | inr b ↦ h (rw b at e) ],
  still_peopled db p us hs,
)

-- Where every user has a portfolio, every user has one after a signup, however it ends.
pub signup-IsPeopled :
    (env : SignupEnv) (email : String) (s : Site) → IsPeopled s → IsPeopled (signup env email s).1
unfolding get_portfolio_for_user
signup-IsPeopled env email s h =
    elim (signup_outcome env email s (signup env email s).0 (signup env email s).1 refl) [
      | inr (same, _) ↦ rw same h
      | inl (user, _, c) ↦
          rw c.written (λ e. cc (rw (eq_refl user.id) at e), still_peopled s.ledger _ s.users h)
    ]
