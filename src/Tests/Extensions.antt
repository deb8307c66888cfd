-- ===== src/Tests/Extensions.antt =====
-- A Vault server whose state counts its calls, an environment of two variables, and threads that ask for one client.
use package.text.Mathlib.Text.{◌==◌ as str_eq}
use djaskt_trading_app.Prelude.{
  ℕ, suc, String, ◌≡◌, ◌+◌, ◌≤◌, ◌==◌, refl, true, false, Option, none, some, [], ◌∷◌, ◌++◌, List,
  if◌then◌else◌,
}
use djaskt_trading_app.Prelude.Action.{Result, ok, err}
use djaskt_trading_app.Extensions.Vault.{
  Called, returned, infisical_error, Sdk, Config, config_of, Manager, get_secret, authenticate,
  login_with, logged_in, fetched_again, retry, fetched, fetch_if,
}
use djaskt_trading_app.Extensions.Vault.Laws.{Counts}
use djaskt_trading_app.Extensions.Singleton.{
  returned as has_returned, advance, acquire, step, run, initial,
}
use djaskt_trading_app.Extensions.Singleton.Once.{get_client_once}
use djaskt_trading_app.Brokerage.Json.{text, field, end, Fields, get}
use djaskt_trading_app.Extensions.Context.{
  HttpRequest, RequestLogMetadata, metadata_of, Handler, call_sync,
}
use djaskt_trading_app.Extensions.Context.Laws.{IsTraced, call_sync-IsTraced}
use djaskt_trading_app.Extensions.Logger.{attach, process_log_record}
use djaskt_trading_app.Extensions.Logging.{Process, other_handler, Options}
use djaskt_trading_app.Extensions.Logging.Laws.{IsAlone}
use djaskt_trading_app.Extensions.Logger.Laws.{log_line_has_context}
use djaskt_trading_app.Extensions.Singleton.Alone.{moves_of_holder, get_client_returns}
use djaskt_trading_app.Settings.{
  Environ, SettingsError, improperly_configured, fall_back, secret_in, resolve_secret,
  load_settings,
}
use djaskt_trading_app.Settings.Calls.{load_settings_calls}

-- The logins and the fetches until now; the first fetch meets an expired token.
abbrev fetched_in : ℕ → Called String
fetched_in n = if n == 0 then infisical_error else returned "s3cret"

abbrev sdk : Sdk
sdk = record {
  State = ℕ × ℕ;
  login = λ id secret c. (returned tt, (c.0 + 1, c.1));
  get_secret_by_name = λ q c. (fetched_in c.1, (c.0, c.1 + 1));
}

abbrev logins : ℕ × ℕ → ℕ
logins c = c.0

abbrev fetches : ℕ × ℕ → ℕ
fetches c = c.1

counts : Counts sdk logins fetches
counts = record {
  login-logins = λ id secret c. refl;
  login-fetches = λ id secret c. refl;
  fetch-logins = λ q c. refl;
  fetch-fetches = λ q c. refl;
}

abbrev getenv : String → Option String
getenv key =
    if str_eq key "INFISICAL_CLIENT_ID"
    then some "id"
    else if str_eq key "INFISICAL_CLIENT_SECRET"
    then some "pw"
    else none

abbrev config : Config
config = config_of getenv

abbrev env_of : Option String → Option String → Result SettingsError String
env_of (some v) d = ok v
env_of none (some d) = ok d
env_of none none = err improperly_configured

abbrev environ : Environ
environ = record {
  variable = getenv;
  env = λ key d. env_of (getenv key) d;
  env-variable = λ key d v e. rw e refl;
  env-default = λ key d e. rw e refl;
  env-unset = λ key e. rw e refl;
}

abbrev new : Manager sdk
new = record { authenticated = false; client = (0, 0) }

abbrev used : Manager sdk
used = record { authenticated = true; client = (2, 2) }

resolves : resolve_secret environ sdk config "SECRET_KEY" none new ≡ (ok "s3cret", used)
unfolding resolve_secret secret_in fall_back get_secret authenticate login_with logged_in fetch_if
    fetched retry fetched_again
resolves = refl

load_settings_calls_example :
    (logins (load_settings environ sdk config new).1.client ≤ 8)
    × (fetches (load_settings environ sdk config new).1.client ≤ 8)
load_settings_calls_example = load_settings_calls environ sdk config logins fetches counts new

-- Both threads find no client; the first one builds it, and the second one finds it under the lock.
abbrev schedule : List ℕ
schedule = 0 ∷ 1 ∷ 0 ∷ 1 ∷ 0 ∷ 0 ∷ 0 ∷ 1 ∷ 0 ∷ 1 ∷ 1 ∷ 1 ∷ []

second_returns : (run schedule initial).point 1 ≡ has_returned (some 0)
unfolding run step advance acquire
second_returns = refl

get_client_once_example :
    ((run schedule initial).shared.built ≤ 1)
    × (Path (Option ℕ) (some 0) (some 0))
    × ((run schedule initial).shared.client ≡ some 0)
get_client_once_example = get_client_once schedule 1 (some 0) second_returns

-- A schedule that stops when thread 0 holds the lock and has built nothing yet, and thread 1 waits for it.
abbrev held : List ℕ
held = 0 ∷ 1 ∷ 0 ∷ 1 ∷ []

get_client_returns_example :
    (run
        (moves_of_holder (run held initial).shared.holder ++ (1 ∷ 1 ∷ 1 ∷ 1 ∷ 1 ∷ 1 ∷ []))
        (run held initial)).point
      1
    ≡ has_returned (some 0)
get_client_returns_example = get_client_returns held 1

abbrev request : HttpRequest
request = record {
  header = λ name. if str_eq name "X-Correlation-ID" then some "abc" else none;
  method = "GET";
  path = "/";
  trace_id = none;
}

-- A response is the value of its header.
abbrev set_header : String → String → String → String
set_header name value response = value

-- It answers with a header of its own, leaves the context empty, and counts its runs.
abbrev handler : Handler ℕ (Unit {0}) String
handler r v n = (ok "own", none, suc n)

call_sync-IsTraced_example :
    IsTraced set_header handler "new" request none 0
      (call_sync set_header handler "new" request none 0)
call_sync-IsTraced_example = call_sync-IsTraced set_header handler "new" request none 0

abbrev log_record : Fields
log_record =
    field "message" (text "hello") (field "http" (text "h") (field "user_id" (text "7") end))

abbrev context : RequestLogMetadata
context = metadata_of request "abc"

abbrev logged : Fields
logged =
    process_log_record (λ j. j) (λ j. j) (λ o. "") end "host" (attach (some context) log_record)

log_line_has_context_example :
    (get "trace" logged ≡ some context.trace)
    × (get "transaction" logged ≡ some context.transaction)
    × (get "http" logged ≡ some context.http)
    × (get "url" logged ≡ some context.url)
log_line_has_context_example =
    log_line_has_context (λ j. j) (λ j. j) (λ o. "") end "host" context log_record

-- A process whose root logger has a handler of another library and a filter that lets nothing through, and two calls.
abbrev process : Process
process = record {
  level = 30;
  handlers = other_handler 1 ∷ [];
  filters = (λ fields. false) ∷ [];
  listener = none;
  running = [];
  queues = 0;
  at_exit = [];
}

abbrev info : Options
info = record { service_info = field "name" (text "djaskt-ledger") end; level = 20 }

alone : IsAlone process.listener process.running
unfolding IsAlone
alone = refl
