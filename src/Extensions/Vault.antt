-- ===== src/Extensions/Vault.antt =====
-- extensions/vault.py: `InfisicalVaultManager`, as one thread uses it. The SDK is an interface; what it knows,
-- and what its server does, is its state.
pub mod Laws
use package.text.Mathlib.Text.{◌==◌ as str_eq}
use djaskt_trading_app.Prelude.{
  String, ◌&&◌, Bool, true, false, not, Option, none, some, if◌then◌else◌,
}
use djaskt_trading_app.Prelude.Action.{Result, ok, err}

-- `VaultNotConfiguredError`, `VaultSecretUnavailableError`, any other.
pub data VaultError : Type 0 where
  not_configured unavailable uncaught : VaultError

-- How a call of the SDK ends; an `InfisicalError` is the one error of it that the code catches.
pub data Called (A : Type 0) : Type 0 where
  returned : A → Called A
  infisical_error other_error : Called A

pub record SecretQuery : Type 0 where
  pub secret_name : String
  pub project_id : Option String
  pub environment_slug : String
  pub secret_path : String

pub record Sdk : Type 1 where
  pub State : Type 0
  -- `auth.universal_auth.login(client_id, client_secret)`
  pub login : String → String → State → Called (Unit {0}) × State
  -- `secrets.get_secret_by_name(...)`, and its `secretValue` as a text
  pub get_secret_by_name : SecretQuery → State → Called String × State

-- What the constructor reads from the environment.
pub record Config : Type 0 where
  pub client_id : Option String
  pub client_secret : Option String
  pub project_id : Option String
  pub default_environment : String
  pub secret_path : String

abbrev or_default : Option String → String → String
or_default none d = d
or_default (some v) d = v

abbrev pub config_of : (String → Option String) → Config
config_of getenv = record {
  client_id = getenv "INFISICAL_CLIENT_ID";
  client_secret = getenv "INFISICAL_CLIENT_SECRET";
  project_id = getenv "INFISICAL_PROJECT_ID";
  default_environment = or_default (getenv "INFISICAL_ENVIRONMENT") "dev";
  secret_path = or_default (getenv "INFISICAL_SECRET_PATH") "/";
}

abbrev pub given : Option String → Option String
given none = none
given (some t) = if str_eq t "" then none else some t

-- `_authenticated`, and the client.
pub record Manager (sdk : Sdk) : Type 0 where
  pub authenticated : Bool
  pub client : sdk.State

module _ (sdk : Sdk) (config : Config) where
  unfoldable pub logged_in :
      Manager sdk → Called (Unit {0}) × sdk.State → Result VaultError (Unit {0}) × Manager sdk
  logged_in m (returned _, c) = (ok tt, record { authenticated = true; client = c })
  logged_in m (infisical_error, c) = (err unavailable, record m { client = c })
  logged_in m (other_error, c) = (err uncaught, record m { client = c })

  unfoldable pub login_with :
      Option String → Option String → Manager sdk → Result VaultError (Unit {0}) × Manager sdk
  login_with (some id) (some secret) m = logged_in m (sdk.login id secret m.client)
  login_with _ _ m = (err not_configured, m)

  -- `_authenticate`
  unfoldable pub authenticate : Manager sdk → Result VaultError (Unit {0}) × Manager sdk
  authenticate m =
      if m.authenticated
      then (ok tt, m)
      else login_with (given config.client_id) (given config.client_secret) m

  abbrev pub query : String → Option String → SecretQuery
  query secret_name environment = record {
    secret_name = secret_name;
    project_id = config.project_id;
    environment_slug = or_default (given environment) config.default_environment;
    secret_path = config.secret_path;
  }

  -- `_fetch`
  abbrev pub fetch : String → Option String → Manager sdk → Called String × sdk.State
  fetch secret_name environment m = sdk.get_secret_by_name (query secret_name environment) m.client

  -- The fetch after a fresh login.
  unfoldable pub fetched_again : Called String × sdk.State → Result VaultError String × Manager sdk
  fetched_again (returned v, c) = (ok v, record { authenticated = true; client = c })
  fetched_again (infisical_error, c) =
      (err unavailable, record { authenticated = true; client = c })
  fetched_again (other_error, c) = (err uncaught, record { authenticated = true; client = c })

  unfoldable pub retry :
      String
      → Option String
      → Result VaultError (Unit {0}) × Manager sdk
      → Result VaultError String × Manager sdk
  retry secret_name environment (err e, m) = (err e, m)
  retry secret_name environment (ok _, m) = fetched_again (fetch secret_name environment m)

  -- The first fetch; after an `InfisicalError`, a fresh login and one more.
  unfoldable pub fetched :
      String → Option String → Called String × sdk.State → Result VaultError String × Manager sdk
  fetched secret_name environment (returned v, c) =
      (ok v, record { authenticated = true; client = c })
  fetched secret_name environment (infisical_error, c) =
      retry secret_name environment (authenticate (record { authenticated = false; client = c }))
  fetched secret_name environment (other_error, c) =
      (err uncaught, record { authenticated = true; client = c })

  unfoldable pub fetch_if :
      String
      → Option String
      → Result VaultError (Unit {0}) × Manager sdk
      → Result VaultError String × Manager sdk
  fetch_if secret_name environment (err e, m) = (err e, m)
  fetch_if secret_name environment (ok _, m) =
      fetched secret_name environment (fetch secret_name environment m)

  unfoldable pub get_secret :
      String → Option String → Manager sdk → Result VaultError String × Manager sdk
  get_secret secret_name environment m = fetch_if secret_name environment (authenticate m)
