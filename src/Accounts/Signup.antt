-- ===== src/Accounts/Signup.antt =====
-- accounts/api.py: `AuthController.signup`; accounts/models.py: `UserManager`. Django's
-- `normalize_email` is outside, and so are the id that the database gives to a new user, and the UUID
-- of a new portfolio.
pub mod Laws
use text.Mathlib.Text.{◌==◌ as str_eq}
use djaskt_trading_app.Prelude.{
  ℕ, String, ◌==◌, Bool, true, false, Option, none, some, List, [], ◌∷◌, if◌then◌else◌,
}
use djaskt_trading_app.Prelude.Rows.{find}
use djaskt_trading_app.Prelude.Action.{
  Result, ok, err, Action, pure, raise, raise_if, gets, modify, atomic, if_some, ◌>>=◌, ◌>>◌,
}
use djaskt_trading_app.Ledger.Models.{Error, value_error, integrity_error, Portfolio, Db}
use djaskt_trading_app.Ledger.Orchestrator.{create_user_portfolio}
use djaskt_trading_app.Accounts.Auth.{User}

-- The tables that a signup writes.
pub record Site : Type 0 where
  pub users : List User
  pub ledger : Db

pub record SignupEnv : Type 0 where
  pub normalize_email : String → String
  pub new_user_id : ℕ
  pub new_portfolio_id : ℕ

pub data SignupResponse : Type 0 where
  created_201 : User → SignupResponse
  conflict_409 : SignupResponse

abbrev pub has_email : String → User → Bool
has_email email u = str_eq u.email email

abbrev pub has_user_id : ℕ → User → Bool
has_user_id id u = u.id == id

-- `User.objects.filter(email=email).first()`
abbrev pub find_email : String → Site → Option User
find_email email s = find (has_email email) s.users

-- A call that works on the ledger's tables alone.
abbrev pub with_ledger : {A : Type 0} → Result Error A × Db → Site → Result Error A × Site
with_ledger (r, db) s = (r, record s { ledger = db })

abbrev pub on_ledger : {A : Type 0} → Action Db Error A → Action Site Error A
on_ledger m s = with_ledger (m s.ledger) s

module _ (env : SignupEnv) where
  -- `user.save()`: the email is unique.
  unfoldable pub save_user : User → Action Site Error (Unit {0})
  save_user user = do
    same ← gets (find_email user.email)
    if_some same (λ _. raise integrity_error) (modify (λ s. record s { users = user ∷ s.users }))

  -- `UserManager.create_user`
  unfoldable pub create_user : String → Action Site Error User
  create_user email = do
    raise_if (str_eq email "") value_error
    let user : User = record { id = env.new_user_id; email = env.normalize_email email }
    save_user user
    pure user

  -- The block under `transaction.atomic()`.
  unfoldable pub signup_block : String → Action Site Error User
  signup_block email = do
    user ← create_user email
    on_ledger (create_user_portfolio env.new_portfolio_id user.id)
    pure user

  unfoldable pub signup : String → Action Site Error SignupResponse
  signup email = do
    registered ← gets (find_email email)
    if_some registered (λ _. pure conflict_409)
        (do user ← atomic (signup_block email); pure (created_201 user))
