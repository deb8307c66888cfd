-- ===== src/Accounts/Superuser/Laws.antt =====
-- An email belongs to one account, however the accounts are made.
use text.Mathlib.Text.{◌==◌ as str_eq}
use djaskt_trading_app.Prelude.{
  String, ◌≡◌, refl, true, false, none, some, List, [], ◌∷◌, Option-cases, Bool-cases, inl, inr,
}
use djaskt_trading_app.Prelude.Rows.{find}
use djaskt_trading_app.Prelude.Action.{err, outcome}
use djaskt_trading_app.Ledger.Models.{integrity_error}
use djaskt_trading_app.Accounts.Auth.{User}
use djaskt_trading_app.Accounts.Signup.{
  Site, SignupEnv, has_email, find_email, save_user, create_user, signup_block,
}
use djaskt_trading_app.Accounts.Signup.Laws.{signup_block-eq-ok}
use djaskt_trading_app.Accounts.Superuser.{
  ExtraFields, with_default, create_superuser, Change, signs_up, makes_superuser, change, changed,
}

-- No user has the email of a later one in the list.
unfoldable pub HasEmailsOnce : List User → Type 0
HasEmailsOnce [] = Unit
HasEmailsOnce (u ∷ us) = (find (has_email u.email) us ≡ none) × HasEmailsOnce us

-- What a change does to the accounts: nothing, or one more with an email that was free.
data Growth (users : List User) : List User → Type 0 where
  same : Growth users users
  one_more : (u : User) → find (has_email u.email) users ≡ none → Growth users (u ∷ users)

Growth-HasEmailsOnce :
    {users users' : List User} → Growth users users' → HasEmailsOnce users → HasEmailsOnce users'
unfolding HasEmailsOnce
Growth-HasEmailsOnce same h = h
Growth-HasEmailsOnce (one_more u f) h = (f, h)

create_user-Growth :
    (env : SignupEnv) (email : String) (s : Site) → Growth s.users (create_user env email s).1.users
unfolding create_user save_user
create_user-Growth env email s = elim (Bool-cases (str_eq email "")) [
  | inl b ↦ rw (b, create_user) same
  | inr b ↦ elim (Option-cases (find_email (env.normalize_email email) s)) [
    | inr (u, f) ↦ rw (b, f, create_user, save_user) same
    | inl f ↦ rw (b, f, create_user, save_user) (one_more _ f)
  ]
]

create_superuser-Growth :
    (env : SignupEnv) (extra : ExtraFields) (email : String) (s : Site)
    → Growth s.users (create_superuser env extra email s).1.users
unfolding create_superuser
create_superuser-Growth env extra email s = elim (Bool-cases (with_default extra.is_staff true)) [
  | inr b ↦ rw (b, create_superuser) same
  | inl b ↦ elim (Bool-cases (with_default extra.is_superuser true)) [
    | inr c ↦ rw (b, c, create_superuser) same
    | inl c ↦ rw (b, c, create_superuser) (create_user-Growth env email s)
  ]
]

change-Growth : (c : Change) (s : Site) → Growth s.users (change c s).1.users
unfolding change
change-Growth (makes_superuser env extra email) s = create_superuser-Growth env extra email s
change-Growth (signs_up env email) s = elim (outcome (signup_block env email s)) [
  | inr (e, t, b) ↦ rw (b, change) same
  | inl (u, t, b) ↦
      let h = signup_block-eq-ok env email s u t b in
      rw (b, change, h.written) (one_more u h.new_email)
]

-- Signups that overlap in any way and superusers that are made in between keep every email to one
-- account, in whatever order their blocks run.
pub changed-HasEmailsOnce :
    (cs : List Change) (s : Site) → HasEmailsOnce s.users → HasEmailsOnce (changed cs s).users
unfolding changed
changed-HasEmailsOnce [] s h = h
changed-HasEmailsOnce (c ∷ cs) s h =
    changed-HasEmailsOnce cs (change c s).1 (Growth-HasEmailsOnce (change-Growth c s) h)

-- A signup that found no account with its email, and whose email another one has taken before its
-- block, ends with the database's error, which is not the 409 of a taken email, and changes nothing.
pub late_signup_raises :
    (env : SignupEnv) (email : String) (s : Site) (u : User)
    → str_eq email "" ≡ false
    → find_email (env.normalize_email email) s ≡ some u
    → change (signs_up env email) s ≡ (err integrity_error, s)
unfolding change signup_block create_user save_user
late_signup_raises env email s u n f = rw (n, f) refl
