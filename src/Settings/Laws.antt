-- ===== src/Settings/Laws.antt =====
-- Where a secret can come from, and how often Vault is called while the settings are loaded.
use djaskt_trading_app.Prelude.{
  String, ◌≡◌, ◌∙◌, refl, ap, Option-cases, inl, inr, Option, none, some,
}
use djaskt_trading_app.Prelude.Action.{Result, ok, err, Result-cases}
use djaskt_trading_app.Extensions.Vault.{
  VaultError, not_configured, unavailable, uncaught, Sdk, Config, Manager, get_secret,
}
use djaskt_trading_app.Extensions.Vault.Laws.{IsFetched, get_secret-eq-ok}
use djaskt_trading_app.Settings.{SettingsError, Environ, fall_back, secret_in, resolve_secret}

module _ (environ : Environ) (sdk : Sdk) (config : Config) (key : String) (d : Option String) where
  -- Where the value of a setting was found.
  pub data Origin (v : String) (m' : Manager sdk) : Type 0 where
    from_vault : (slug : String) → IsFetched sdk config key (some slug) v m' → Origin v m'
    from_environment : environ.variable key ≡ some v → Origin v m'
    from_default : environ.variable key ≡ none → d ≡ some v → Origin v m'

  unset-Origin :
      (o : Option String) (v : String) (m' : Manager sdk)
      → d ≡ o
      → environ.variable key ≡ none
      → environ.env key d ≡ ok v
      → Origin v m'
  unset-Origin none v m' q e h = let h' = rw (q, environ.env-unset key e) at h in cc
  unset-Origin (some w) v m' q e h =
      let h' = rw (q, environ.env-default key w e) at h in
      let r : w ≡ v = cc in from_default e (q ∙ ap some r)

  env-Origin : (v : String) (m' : Manager sdk) → environ.env key d ≡ ok v → Origin v m'
  env-Origin v m' h = elim (Option-cases (environ.variable key)) [
    | inr (w, e) ↦
        let h' = rw (environ.env-variable key d w e) at h in
        let r : w ≡ v = cc in from_environment (e ∙ ap some r)
    | inl e ↦ unset-Origin d v m' refl e h
  ]

  ok_pair :
      (w v : String) (m m' : Manager sdk)
      → Path (Result SettingsError String × Manager sdk) (ok w, m) (ok v, m')
      → Path (Result VaultError String × Manager sdk) (ok w, m) (ok v, m')
  ok_pair w v m m' h =
      let p : w ≡ v = cc in
      let q = ap (λ (x : Result SettingsError String × Manager sdk). x.1) h in rw (p, q) refl

  fall_back-Origin :
      (slug v : String) (m' : Manager sdk) (x : Result VaultError String × Manager sdk)
      → ((w : String) (m : Manager sdk) → x ≡ (ok w, m) → IsFetched sdk config key (some slug) w m)
      → fall_back environ sdk config key d x ≡ (ok v, m')
      → Origin v m'
  unfolding fall_back
  fall_back-Origin slug v m' (ok w, m) f h = from_vault slug (f v m' (ok_pair w v m m' h))
  fall_back-Origin slug v m' (err not_configured, m) f h = env-Origin v m' cc
  fall_back-Origin slug v m' (err unavailable, m) f h = env-Origin v m' cc
  fall_back-Origin slug v m' (err uncaught, m) f h = cc

  -- A secret that is resolved was fetched from Vault by this call, or stands in the environment, or, where Vault has none
  -- and the environment neither, is the default that was given: with no default, none is made up.
  pub resolve_secret-Origin :
      (v : String) (m m' : Manager sdk)
      → resolve_secret environ sdk config key d m ≡ (ok v, m')
      → Origin v m'
  unfolding resolve_secret secret_in
  resolve_secret-Origin v m m' h =
      elim (Result-cases (environ.env "INFISICAL_ENVIRONMENT" (some "dev"))) [
        | inr (e, p) ↦ let h' = rw p at h in cc
        | inl (slug, p) ↦
            let h' = rw p at h in
            fall_back-Origin slug v m' (get_secret sdk config key (some slug) m)
              (λ w m₁ q. get_secret-eq-ok sdk config key (some slug) w m₁ m q) h'
      ]
