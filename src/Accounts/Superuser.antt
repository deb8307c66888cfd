-- ===== src/Accounts/Superuser.antt =====
-- accounts/models.py: `UserManager.create_superuser`, as `manage.py createsuperuser` calls it, and the
-- ways in which accounts are made, in any order and overlapping.
pub mod Laws
use djaskt_trading_app.Prelude.{
  ℕ, String, Bool, true, false, not, Option, none, some, List, [], ◌∷◌, if◌then◌else◌,
}
use djaskt_trading_app.Prelude.Action.{Result, Action, raise_if, atomic, ◌>>=◌, ◌>>◌}
use djaskt_trading_app.Ledger.Models.{Error, value_error}
use djaskt_trading_app.Accounts.Auth.{User}
use djaskt_trading_app.Accounts.Signup.{Site, SignupEnv, create_user, signup_block}

-- The two extra fields that are read; the program does not read them of a saved user.
pub record ExtraFields : Type 0 where
  pub is_staff : Option Bool
  pub is_superuser : Option Bool

-- `setdefault(...)` and then `get(...)`
abbrev pub with_default : Option Bool → Bool → Bool
with_default none b = b
with_default (some a) b = a

unfoldable pub create_superuser : SignupEnv → ExtraFields → String → Action Site Error User
create_superuser env extra_fields email = do
  raise_if (not (with_default extra_fields.is_staff true)) value_error
  raise_if (not (with_default extra_fields.is_superuser true)) value_error
  create_user env email

-- What changes the accounts: the block of a signup whose look-up found no account with the email,
-- however long ago that was, and the command.
pub data Change : Type 0 where
  signs_up : SignupEnv → String → Change
  makes_superuser : SignupEnv → ExtraFields → String → Change

unfoldable pub change : Change → Site → Result Error User × Site
change (signs_up env email) s = atomic (signup_block env email) s
change (makes_superuser env extra_fields email) s = create_superuser env extra_fields email s

unfoldable pub changed : List Change → Site → Site
changed [] s = s
changed (c ∷ cs) s = changed cs (change c s).1
