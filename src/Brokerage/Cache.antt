-- ===== src/Brokerage/Cache.antt =====
-- brokerage/services/session_cache.py: `BrokerSessionCache`, and the cooldown's key of
-- brokerage/services/orchestrator.py. Redis is an interface with what it documents of its commands;
-- times are whole seconds. A session's key is made of the user and the brokerage's name, and never
-- coincides with a cooldown's key.
use package.text.Mathlib.Text.{◌==◌ as str_eq}
use djaskt_trading_app.Prelude.{
  ℕ, String, ◌+◌, ◌/◌, ◌≤◌, ◌<◌, ◌==◌, ◌≡◌, ◌&&◌, Bool, false, Option, none, some,
}
use djaskt_trading_app.Prelude.Action.{Result, ok, err, Action, pure, lift, modify, ◌>>=◌, ◌>>◌}
use djaskt_trading_app.Decimal.{Decimal}
use djaskt_trading_app.Accounts.Lifetime.{second, seconds_until_ist_midnight}
use djaskt_trading_app.Brokerage.Json.{Json, text, number}
use djaskt_trading_app.Brokerage.Models.{BrokerError, uncaught}
use djaskt_trading_app.Brokerage.Strategy.{BrokerSession, CachedSession}

abbrev pub same_session : ℕ → String → ℕ → String → Bool
same_session user name user' name' = user == user' && str_eq name name'

pub record SessionRedis : Type 1 where
  pub State : Type 0
  -- how redis-py writes a number
  pub number_text : Decimal → String
  -- `SET cooldown "1" NX EX ttl`: whether it was set
  pub set_nx : ℕ → String → ℕ → ℕ → State → Bool × State
  -- `HSET session ...` and `EXPIRE session ttl`, in one transaction
  pub hset_expire : ℕ → String → CachedSession → ℕ → ℕ → State → State
  pub hgetall : ℕ → String → ℕ → State → Option CachedSession
  pub delete : ℕ → String → State → State
  pub hgetall-hset_expire :
      (user : ℕ) (name : String) (c : CachedSession) (ttl now later : ℕ) (s : State)
      → now ≤ later
      → later < now + ttl
      → hgetall user name later (hset_expire user name c ttl now s) ≡ some c
  pub hgetall-hset_expire_late :
      (user : ℕ) (name : String) (c : CachedSession) (ttl now later : ℕ) (s : State)
      → now + ttl ≤ later
      → hgetall user name later (hset_expire user name c ttl now s) ≡ none
  pub hgetall-hset_expire_ne :
      (user : ℕ) (name : String) (c : CachedSession) (ttl now : ℕ) (user' : ℕ) (name' : String)
      (later : ℕ) (s : State)
      → same_session user name user' name' ≡ false
      → hgetall user' name' later (hset_expire user name c ttl now s) ≡ hgetall user' name' later s
  pub hgetall-delete :
      (user : ℕ) (name : String) (later : ℕ) (s : State)
      → hgetall user name later (delete user name s) ≡ none
  pub hgetall-delete_ne :
      (user : ℕ) (name : String) (user' : ℕ) (name' : String) (later : ℕ) (s : State)
      → same_session user name user' name' ≡ false
      → hgetall user' name' later (delete user name s) ≡ hgetall user' name' later s
  pub hgetall-set_nx :
      (user : ℕ) (name : String) (ttl now : ℕ) (user' : ℕ) (name' : String) (later : ℕ) (s : State)
      → hgetall user' name' later (set_nx user name ttl now s).1 ≡ hgetall user' name' later s

-- The text that redis-py sends for a value: of a text or a number; it refuses any other.
abbrev pub encoded : (Decimal → String) → Json → Option String
encoded show (text t) = some t
encoded show (number d) = some (show d)
encoded show _ = none

unfoldable pub mapping :
    Option String → Option String → Option String → Result BrokerError CachedSession
mapping (some jwt) (some feed) (some client) =
    ok (record { jwt_token = jwt; feed_token = feed; client_id = client })
mapping _ _ _ = err uncaught

-- The moment of a call is given in microseconds.
abbrev pub at : ℕ → ℕ
at now = now / second

abbrev pub ttl_seconds : ℕ → ℕ
ttl_seconds now = seconds_until_ist_midnight now / second

module _ (redis : SessionRedis) where
  abbrev pub fields_of : BrokerSession → Result BrokerError CachedSession
  fields_of session =
      mapping (encoded redis.number_text session.jwt_token)
        (encoded redis.number_text session.feed_token) (encoded redis.number_text session.client_id)

  unfoldable pub store : ℕ → ℕ → String → BrokerSession → Action redis.State BrokerError ℕ
  store now user name session = do
    fields ← lift (fields_of session)
    modify (redis.hset_expire user name fields (ttl_seconds now) (at now))
    pure (ttl_seconds now)

  -- `get`
  abbrev pub cached : ℕ → ℕ → String → redis.State → Option CachedSession
  cached now user name = redis.hgetall user name (at now)
