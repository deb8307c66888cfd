-- ===== src/Settings/Calls.antt =====
-- How often Vault is called while the settings are loaded.
use Prim.Native.String.{◌++◌ as append}
use djaskt_trading_app.Prelude.{ℕ, String, ◌+◌, ◌≤◌, ◌≡◌, refl, arith, Option, none, some}
use djaskt_trading_app.Prelude.Action.{Result, ok, err, pure, lift, continue, ◌>>=◌}
use djaskt_trading_app.Extensions.Vault.{
  VaultError, not_configured, unavailable, uncaught, Sdk, Config, Manager, get_secret,
}
use djaskt_trading_app.Extensions.Vault.Laws.{Counts, Within, Within-trans, get_secret-Within}
use djaskt_trading_app.Settings.{
  SettingsError, Environ, Settings, Loading, fall_back, secret_in, resolve_secret,
  build_database_config, load_redis_url, load_settings,
}

module _ (environ : Environ) (sdk : Sdk) (config : Config) (logins fetches : sdk.State → ℕ)
    (counts : Counts sdk logins fetches) where
  abbrev Near : ℕ → Manager sdk → Manager sdk → Type 0
  Near n m m' = Within sdk config logins fetches counts n n m.client m'.client

  -- What a part of the loading may call.
  Calls : {A : Type 0} → ℕ → Loading environ sdk config A → Type 0
  Calls n action = (m : Manager sdk) → Near n m (action m).1

  pure-Calls : {A : Type 0} (a : A) → Calls 0 (pure a)
  unfolding Calls Within
  pure-Calls a m = (omega arith, omega arith)

  continue-Calls :
      {A B : Type 0} (n : ℕ) (m : Manager sdk) (x : Result SettingsError A × Manager sdk)
      (f : A → Loading environ sdk config B)
      → ((a : A) → Calls n (f a))
      → Near n x.1 (continue x f).1
  unfolding Calls Within
  continue-Calls n m (ok a, m₁) f h = h a m₁
  continue-Calls n m (err e, m₁) f h = (omega arith, omega arith)

  bind-Calls :
      {A B : Type 0} (k n : ℕ) (action : Loading environ sdk config A)
      (f : A → Loading environ sdk config B)
      → Calls k action
      → ((a : A) → Calls n (f a))
      → Calls (k + n) (action >>= f)
  unfolding Calls
  bind-Calls k n action f c h m =
      Within-trans sdk config logins fetches counts k k n n _ _ _ (c m)
        (continue-Calls n m (action m) f h)

  read-Calls :
      {B : Type 0} (n : ℕ) (r : Result SettingsError String)
      (f : String → Loading environ sdk config B)
      → ((a : String) → Calls n (f a))
      → Calls n (lift r >>= f)
  unfolding Calls
  read-Calls n r f h m = continue-Calls n m (r, m) f h

  fall_back-client :
      (key : String) (d : Option String) (x : Result VaultError String × Manager sdk)
      → (fall_back environ sdk config key d x).1 ≡ x.1
  unfolding fall_back
  fall_back-client key d (ok v, m) = refl
  fall_back-client key d (err not_configured, m) = refl
  fall_back-client key d (err unavailable, m) = refl
  fall_back-client key d (err uncaught, m) = refl

  secret_in-Calls :
      (key : String) (d : Option String) (r : Result SettingsError String)
      → Calls 2 (secret_in environ sdk config key d r)
  unfolding Calls secret_in Within
  secret_in-Calls key d (err e) m = (omega arith, omega arith)
  secret_in-Calls key d (ok slug) m =
      rw (fall_back-client key d (get_secret sdk config key (some slug) m))
        (get_secret-Within sdk config logins fetches counts key (some slug) m)

  resolve_secret-Calls :
      (key : String) (d : Option String) → Calls 2 (resolve_secret environ sdk config key d)
  unfolding resolve_secret
  resolve_secret-Calls key d = secret_in-Calls key d _

  build_database_config-Calls :
      (prefix secret_name : String)
      → Calls 2 (build_database_config environ sdk config prefix secret_name)
  unfolding build_database_config
  build_database_config-Calls prefix secret_name =
      read-Calls 2 (environ.env (append prefix "_HOST") (some "localhost")) _ λ host.
        read-Calls 2 (environ.env (append prefix "_PORT") (some "5432")) _ λ port.
          read-Calls 2 (environ.env (append prefix "_NAME") (some "djaskt_ledger")) _ λ name.
            read-Calls 2 (environ.env (append prefix "_USER") (some "djaskt")) _ λ user.
              bind-Calls 2 0 (resolve_secret environ sdk config secret_name (some "djaskt")) _
                (resolve_secret-Calls secret_name (some "djaskt")) λ password. pure-Calls _

  load_redis_url-Calls : Calls 2 (load_redis_url environ sdk config)
  unfolding load_redis_url
  load_redis_url-Calls = read-Calls 2 (environ.env "REDIS_HOST" (some "localhost")) _ λ host.
      read-Calls 2 (environ.env "REDIS_PORT" (some "6379")) _ λ port.
        read-Calls 2 (environ.env "REDIS_DB" (some "0")) _ λ db.
          bind-Calls 2 0 (resolve_secret environ sdk config "REDIS_PASSWORD" (some "")) _
            (resolve_secret-Calls "REDIS_PASSWORD" (some "")) λ password. pure-Calls _

  -- Loading the settings calls Vault at most eight times for a login and eight times for a secret,
  -- however it answers, as what counts its calls shows.
  pub load_settings_calls :
      (m : Manager sdk)
      → (logins (load_settings environ sdk config m).1.client ≤ logins m.client + 8)
        × (fetches (load_settings environ sdk config m).1.client ≤ fetches m.client + 8)
  unfolding load_settings Calls Within
  load_settings_calls =
      bind-Calls 2 6 (resolve_secret environ sdk config "SECRET_KEY" none) _
        (resolve_secret-Calls "SECRET_KEY" none)
        λ key.
          bind-Calls 2 4 (build_database_config environ sdk config "DB" "DB_PASSWORD") _
            (build_database_config-Calls "DB" "DB_PASSWORD")
            λ default.
              bind-Calls 2 2
                (build_database_config environ sdk config "REPLICA_DB" "REPLICA_DB_PASSWORD") _
                (build_database_config-Calls "REPLICA_DB" "REPLICA_DB_PASSWORD")
                λ replica.
                  bind-Calls 2 0 (load_redis_url environ sdk config) _ load_redis_url-Calls λ url.
                    pure-Calls {A = Settings} (record {
                      secret_key = key;
                      default = default;
                      replica = replica;
                      redis_url = url;
                    })
