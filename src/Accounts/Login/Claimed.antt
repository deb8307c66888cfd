-- ===== src/Accounts/Login/Claimed.antt =====
-- Which claims of the refresh token an access token has.
use text.Mathlib.Text.{◌==◌ as str_eq}
use text.Mathlib.TextEquality.{eq_iff}
use djaskt_trading_app.Prelude.{
  ℕ, String, ◌≡◌, refl, ◌∙◌, arith, false, Bool-cases, inl, inr, Option, none, some, List, [], ◌∷◌,
}
use djaskt_trading_app.Accounts.Auth.{User, Jwt}
use djaskt_trading_app.Accounts.Api.{
  ClaimValue, number_value, Payload, set_claim, get_claim, member, Issuer, copy_claims, set_exp,
  access_payload, seconds,
}
use djaskt_trading_app.Accounts.Api.Laws.{get_claim-set_claim}
use djaskt_trading_app.Accounts.Login.{HasKeysOnce, Signs, expiry}

get_claim-set_claim_ne :
    (c d : String) (v : ClaimValue) (p : Payload)
    → str_eq d c ≡ false
    → get_claim c (set_claim d v p) ≡ get_claim c p
unfolding get_claim set_claim
get_claim-set_claim_ne c d v [] n = rw n refl
get_claim-set_claim_ne c d v ((e, w) ∷ p) n =
    let ih = get_claim-set_claim_ne c d v p n in ground (arith, eq_iff e d, eq_iff d c, eq_iff e c)

-- A claim that is not in a payload is not changed by copying it.
copy_claims_absent :
    (c : String) (no_copy : List String) (p access : Payload)
    → get_claim c p ≡ none
    → get_claim c (copy_claims no_copy p access) ≡ get_claim c access
unfolding get_claim copy_claims
copy_claims_absent c no_copy [] access n = refl
copy_claims_absent c no_copy ((d, v) ∷ p) access n = elim (Bool-cases (str_eq d c)) [
  | inl e ↦ absurd (ground arith)
  | inr e ↦
      let m : get_claim c p ≡ none = ground arith in
      elim (Bool-cases (member d no_copy)) [
        | inl k ↦ rw (k, copy_claims) (copy_claims_absent c no_copy p access m)
        | inr k ↦
            rw (k, copy_claims)
              (copy_claims_absent c no_copy p (set_claim d v access) m
                ∙ get_claim-set_claim_ne c d v access e)
      ]
]

copy_claims_present :
    (c : String) (v : ClaimValue) (no_copy : List String) (p access : Payload)
    → HasKeysOnce p
    → member c no_copy ≡ false
    → get_claim c p ≡ some v
    → get_claim c (copy_claims no_copy p access) ≡ some v
unfolding get_claim copy_claims HasKeysOnce
copy_claims_present c v no_copy [] access u m f = cc
copy_claims_present c v no_copy ((d, w) ∷ p) access (a, u) m f = elim (Bool-cases (str_eq d c)) [
  | inl e ↦
      let q : d ≡ c = ground (arith, eq_iff d c) in
      let k : member d no_copy ≡ false = rw q m in
      let n : get_claim c p ≡ none = rw q at a in
      let g : Path (Option ClaimValue) (some w) (some v) = ground arith in
      rw (k, copy_claims, q)
        (copy_claims_absent c no_copy p (set_claim c w access) n
          ∙ get_claim-set_claim c w access
          ∙ g)
  | inr e ↦
      let g : get_claim c p ≡ some v = ground arith in
      elim (Bool-cases (member d no_copy)) [
        | inl k ↦ rw (k, copy_claims) (copy_claims_present c v no_copy p access u m g)
        | inr k ↦
            rw (k, copy_claims) (copy_claims_present c v no_copy p (set_claim d w access) u m g)
      ]
]

module _ (jwt : Jwt) (issuer : Issuer) (user : User) (now : ℕ)
    (signs : Signs jwt issuer user now) where
  pub claims_user :
      get_claim "user_id" (access_payload issuer user now) ≡ some (number_value user.id)
  unfolding access_payload set_exp
  claims_user =
      get_claim-set_claim_ne "user_id" "exp" _ _ refl
      ∙ copy_claims_present "user_id" _ _ _ _ signs.keys_once signs.copies_user signs.names_user

  pub claims_second :
      get_claim "iat" (access_payload issuer user now) ≡ some (number_value (seconds now))
  unfolding access_payload set_exp
  claims_second =
      get_claim-set_claim_ne "iat" "exp" _ _ refl
      ∙ copy_claims_present "iat" _ _ _ _ signs.keys_once signs.copies_second signs.names_second

  pub claims_expiry :
      get_claim "exp" (access_payload issuer user now) ≡ some (number_value (expiry now))
  unfolding access_payload set_exp
  claims_expiry = get_claim-set_claim "exp" _ _
