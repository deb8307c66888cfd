-- ===== src/Tests/Brokerage.antt =====
-- A cache of sessions that meets Redis' laws, and logins, logouts and links at one broker.
use package.text.Mathlib.TextEquality.{eq_iff}
use mathlib.Core.Logic.{◌↔◌}
use djaskt_trading_app.Prelude.{
  List, ℕ, String, ◌≡◌, ◌+◌, ◌≤◌, ◌<◌, ltb, refl, arith, Bool, true, false, Option, none, some, [],
  ◌∷◌, if◌then◌else◌,
}
use djaskt_trading_app.Prelude.Rows.{find, filter}
use djaskt_trading_app.Prelude.Action.{ok}
use djaskt_trading_app.Brokerage.Json.{text, boolean, object, end, field, Fields, get, put}
use djaskt_trading_app.Brokerage.Models.{
  Brokerage, BrokerageEndpoint, UserBrokerageLink, Tables, for_user, json,
}
use djaskt_trading_app.Accounts.Lifetime.{seconds_until_ist_midnight}
use djaskt_trading_app.Brokerage.Strategy.{
  BrokerSession, CachedSession, Request, Reply, body, authenticate, validate_credentials,
  call_broker_api, dispatch_request, dispatched, parsed, parse_response, reply_checked,
  status_checked, tokens_checked, tokens_of, session_of,
}
use djaskt_trading_app.Brokerage.Strategy.Laws.{IsIssued, authenticate-eq-ok}
use djaskt_trading_app.Brokerage.Cache.{SessionRedis, same_session, cached, store, mapping}
use djaskt_trading_app.Brokerage.Orchestrator.{
  authenticate_and_cache, get_strategy_class, get_brokerage_and_link, enforce_login_cooldown,
  acquired, logout_and_clear,
}
use djaskt_trading_app.Brokerage.Orchestrator.Laws.{Linked, logout_always_clears}
use djaskt_trading_app.Brokerage.Orchestrator.Login.{IsSent, login_readable}
use djaskt_trading_app.Brokerage.Schemas.{not_found_404, too_many_requests_429}
use djaskt_trading_app.Brokerage.Api.{broker_login, login_answer, login_failed}
use djaskt_trading_app.Brokerage.Api.Laws.{Refusal, refused_login_caches_nothing}
use djaskt_trading_app.Brokerage.Links.{delete_link, is_own}
use djaskt_trading_app.Brokerage.Links.Laws.{AtMostOne, delete_link_only_own}
use djaskt_trading_app.Brokerage.Links.Overlap.{
  Edit, creates, inserts, deletes, edited, edited-AtMostOne,
}
use djaskt_trading_app.Brokerage.Schemas.{UserBrokerageLinkCreate}

-- A session and the second at which it ends.
abbrev Entry : Type 0
Entry = CachedSession × ℕ

-- Whether a login may be attempted, and the entries.
abbrev Store : Type 0
Store = Bool × (ℕ → String → Option Entry)

abbrev live : ℕ → Option Entry → Option CachedSession
live now none = none
live now (some (c, stop)) = if ltb now stop then some c else none

abbrev write : ℕ → String → Option Entry → (ℕ → String → Option Entry) → ℕ → String → Option Entry
write user name e f u n = if same_session user name u n then e else f u n

itself : (user : ℕ) (name : String) → same_session user name user name ≡ true
itself user name = ground (arith, eq_iff name name)

early : (now stop : ℕ) → now < stop → ltb now stop ≡ true
early now stop h = ground arith

late : (now stop : ℕ) → stop ≤ now → ltb now stop ≡ false
late now stop h = ground arith

abbrev sessions : SessionRedis
sessions = record {
  State = Store;
  number_text = λ d. "1";
  set_nx = λ user name ttl now s. (s.0, (false, s.1));
  hset_expire = λ user name c ttl now s. (s.0, write user name (some (c, now + ttl)) s.1);
  hgetall = λ user name now s. live now (s.1 user name);
  delete = λ user name s. (s.0, write user name none s.1);
  hgetall-hset_expire =
      λ user name c ttl now later s h k. rw (itself user name, early later (now + ttl) k) refl;
  hgetall-hset_expire_late =
      λ user name c ttl now later s h. rw (itself user name, late later (now + ttl) h) refl;
  hgetall-hset_expire_ne = λ user name c ttl now user' name' later s n. rw n refl;
  hgetall-delete = λ user name later s. rw (itself user name) refl;
  hgetall-delete_ne = λ user name user' name' later s n. rw n refl;
  hgetall-set_nx = λ user name ttl now user' name' later s. refl;
}

abbrev angel : Brokerage
angel = record { id = 4; name = "angel_one"; is_active = true }

abbrev login_endpoint : BrokerageEndpoint
login_endpoint = record {
  brokerage = 4;
  purpose = "login";
  url = "https://x.org/login";
  http_method = "POST";
  payload_type = json;
  default_headers = end;
}

abbrev logout_endpoint : BrokerageEndpoint
logout_endpoint = record login_endpoint { purpose = "logout"; url = "https://x.org/logout" }

abbrev link : UserBrokerageLink
link = record {
  id = 5;
  user = 7;
  brokerage = 4;
  user_brokerage_data = field "client_id" (text "c") (field "api_key" (text "k") end);
}

abbrev tables : Tables
tables = record {
  brokerages = angel ∷ [];
  endpoints = login_endpoint ∷ logout_endpoint ∷ [];
  links = link ∷ [];
}

abbrev secrets : Fields
secrets = field "password" (text "p") (field "totp" (text "123456") end)

abbrev tokens : Fields
tokens = field "jwtToken" (text "j") (field "feedToken" (text "f") end)

abbrev accepted : Fields
accepted = field "status" (boolean true) (field "data" (object tokens) end)

abbrev http : Request → Reply
http r = body (object accepted)

abbrev session : BrokerSession
session = record { jwt_token = text "j"; feed_token = text "f"; client_id = text "c" }

abbrev kept : CachedSession
kept = record { jwt_token = "j"; feed_token = "f"; client_id = "c" }

abbrev fresh : Store
fresh = (true, λ u n. none)

abbrev connected : Store
connected = (false, write 7 "angel_one" (some (kept, 66_600)) (λ u n. none))

logs_in :
    authenticate_and_cache sessions http tables 0 7 "angel_one" secrets fresh
    ≡ (ok (session, 66_600), connected)
unfolding authenticate_and_cache get_strategy_class get_brokerage_and_link enforce_login_cooldown
    acquired authenticate validate_credentials get put call_broker_api dispatch_request dispatched
    parsed parse_response reply_checked status_checked tokens_checked tokens_of session_of store
    mapping seconds_until_ist_midnight
logs_in = refl

is_Linked : Linked sessions http tables 0 7 "angel_one" angel link
is_Linked = record { registered = refl; active = refl; linked = refl }

authenticate-eq-ok_example :
    (authenticate http login_endpoint link.user_brokerage_data secrets ≡ ok session)
    ↔ IsIssued http login_endpoint link.user_brokerage_data secrets session
authenticate-eq-ok_example =
    authenticate-eq-ok http login_endpoint link.user_brokerage_data secrets session

-- A minute after the login.
login_readable_example :
    (c : CachedSession) × IsSent sessions.number_text (text "j") c.jwt_token
    × IsSent sessions.number_text (text "f") c.feed_token
    × IsSent sessions.number_text (text "c") c.client_id
    × (cached sessions 60_000_000 7 "angel_one" connected ≡ some c)
login_readable_example =
    login_readable sessions http tables 0 7 "angel_one" secrets fresh connected session 66_600
      logs_in 66_600_000_000 60_000_000 (omega arith) (omega arith) refl (omega arith) (omega arith)

refuses :
    broker_login sessions http tables 0 7
      (record { brokerage_name = "angel_one"; user_credentials = secrets })
      connected
    ≡ (ok too_many_requests_429, connected)
unfolding broker_login login_answer login_failed authenticate_and_cache get_strategy_class
    get_brokerage_and_link enforce_login_cooldown acquired
refuses = refl

refused_login_caches_nothing_example :
    Refusal sessions http tables 0 7
      (record { brokerage_name = "angel_one"; user_credentials = secrets })
      connected
      connected
      (ok too_many_requests_429)
refused_login_caches_nothing_example =
    refused_login_caches_nothing sessions http tables 0 7
      (record { brokerage_name = "angel_one"; user_credentials = secrets }) connected connected
      (ok too_many_requests_429) refuses refl

logout_always_clears_example :
    live 0 ((logout_and_clear sessions http tables 0 7 "angel_one" connected).1.1 7 "angel_one")
    ≡ none
logout_always_clears_example =
    logout_always_clears sessions http tables 0 7 "angel_one" angel link connected is_Linked

tables-AtMostOne : AtMostOne tables
unfolding AtMostOne
tables-AtMostOne user b = ground arith

abbrev no_data : UserBrokerageLinkCreate
no_data = record { brokerage_name = "angel_one"; user_brokerage_data = end }

-- A link is made, another request inserts it too late, and the link is deleted.
abbrev edits : List Edit
edits = creates 8 6 no_data ∷ inserts 8 7 no_data angel ∷ deletes 8 6 ∷ []

edited-AtMostOne_example : AtMostOne (edited edits tables)
edited-AtMostOne_example = edited-AtMostOne edits tables tables-AtMostOne

delete_link_only_own_example :
    ((delete_link 8 5 tables).0 ≡ not_found_404)
    × (find (is_own 8 5) (delete_link 8 5 tables).1.links ≡ none)
    × (filter (for_user 7) (delete_link 8 5 tables).1.links ≡ filter (for_user 7) tables.links)
delete_link_only_own_example = delete_link_only_own 8 5 7 tables refl
