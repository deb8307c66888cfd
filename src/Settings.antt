-- ===== src/Settings.antt =====
-- django_app/settings.py: where the secrets come from, and the settings that are made of them. `django-environ` is an
-- interface.
pub mod Laws
pub mod Calls
use Prim.Native.String.{◌++◌ as append}
use package.text.Mathlib.Text.{◌==◌ as str_eq}
use djaskt_trading_app.Prelude.{String, ◌≡◌, Bool, true, false, Option, none, some, if◌then◌else◌}
use djaskt_trading_app.Prelude.Action.{Result, ok, err, Action, pure, lift, ◌>>=◌, ◌>>◌}
use djaskt_trading_app.Extensions.Vault.{
  VaultError, not_configured, unavailable, uncaught, Sdk, Config, Manager, get_secret,
}

-- `ImproperlyConfigured`, and what Vault raises beyond its two errors.
pub data SettingsError : Type 0 where
  improperly_configured vault_raised : SettingsError

pub record Environ : Type 0 where
  pub variable : String → Option String
  -- `env(key, default=...)`; no default is `NOTSET`
  pub env : String → Option String → Result SettingsError String
  pub env-variable :
      (key : String) (d : Option String) (v : String) → variable key ≡ some v → env key d ≡ ok v
  pub env-default : (key d : String) → variable key ≡ none → env key (some d) ≡ ok d
  pub env-unset : (key : String) → variable key ≡ none → env key none ≡ err improperly_configured

pub record Database : Type 0 where
  pub host : String
  pub port : String
  pub name : String
  pub user : String
  pub password : String

pub record Settings : Type 0 where
  pub secret_key : String
  pub default : Database
  pub replica : Database
  pub redis_url : String

module _ (environ : Environ) (sdk : Sdk) (config : Config) where
  abbrev pub Loading : Type 0 → Type 0
  Loading A = Action (Manager sdk) SettingsError A

  -- The `except` of `_get_secret`.
  unfoldable pub fall_back :
      String
      → Option String
      → Result VaultError String × Manager sdk
      → Result SettingsError String × Manager sdk
  fall_back key d (ok v, m) = (ok v, m)
  fall_back key d (err not_configured, m) = (environ.env key d, m)
  fall_back key d (err unavailable, m) = (environ.env key d, m)
  fall_back key d (err uncaught, m) = (err vault_raised, m)

  unfoldable pub secret_in : String → Option String → Result SettingsError String → Loading String
  secret_in key d (ok slug) m = fall_back key d (get_secret sdk config key (some slug) m)
  secret_in key d (err e) m = (err e, m)

  -- `_get_secret`
  unfoldable pub resolve_secret : String → Option String → Loading String
  resolve_secret key d = secret_in key d (environ.env "INFISICAL_ENVIRONMENT" (some "dev"))

  -- `_build_database_config`
  unfoldable pub build_database_config : String → String → Loading Database
  build_database_config prefix secret_name = do
    host ← lift (environ.env (append prefix "_HOST") (some "localhost"))
    port ← lift (environ.env (append prefix "_PORT") (some "5432"))
    name ← lift (environ.env (append prefix "_NAME") (some "djaskt_ledger"))
    user ← lift (environ.env (append prefix "_USER") (some "djaskt"))
    password ← resolve_secret secret_name (some "djaskt")
    pure (record { host = host; port = port; name = name; user = user; password = password })

  abbrev pub redis_auth : String → String
  redis_auth password = if str_eq password "" then "" else append ":" (append password "@")

  unfoldable pub load_redis_url : Loading String
  load_redis_url = do
    host ← lift (environ.env "REDIS_HOST" (some "localhost"))
    port ← lift (environ.env "REDIS_PORT" (some "6379"))
    db ← lift (environ.env "REDIS_DB" (some "0"))
    password ← resolve_secret "REDIS_PASSWORD" (some "")
    pure (
        append "redis://"
          (append (redis_auth password) (append host (append ":" (append port (append "/" db))))))

  -- The parts of the module that resolve secrets, in its order.
  unfoldable pub load_settings : Loading Settings
  load_settings = do
    secret_key ← resolve_secret "SECRET_KEY" none
    default ← build_database_config "DB" "DB_PASSWORD"
    replica ← build_database_config "REPLICA_DB" "REPLICA_DB_PASSWORD"
    redis_url ← load_redis_url
    pure (record {
      secret_key = secret_key;
      default = default;
      replica = replica;
      redis_url = redis_url;
    })
