-- ===== src/Brokerage/Orchestrator/Laws.antt =====
-- A login caches what the broker issued, until midnight; a logout always clears.
use djaskt_trading_app.Prelude.{ℕ, String, ◌≡◌, refl, true, false, Option, none, some}
use djaskt_trading_app.Prelude.Rows.{find}
use djaskt_trading_app.Prelude.Action.{err}
use djaskt_trading_app.Brokerage.Json.{Fields}
use djaskt_trading_app.Brokerage.Models.{
  broker_rate_limited, Brokerage, BrokerageEndpoint, UserBrokerageLink, Tables, is_active_named,
  is_link, has_purpose,
}
use djaskt_trading_app.Brokerage.Strategy.{CachedSession, Request, Reply}
use djaskt_trading_app.Brokerage.Cache.{SessionRedis, at}
use djaskt_trading_app.Brokerage.Orchestrator.{
  login_cooldown_seconds, is_registered, get_strategy_class, get_brokerage_and_link, acquired,
  enforce_login_cooldown, authenticate_and_cache, clear, logout_and_clear,
}

module _ (redis : SessionRedis) (http : Request → Reply) (tables : Tables) (now : ℕ) (user : ℕ)
    (name : String) where
  -- The lookups that both calls begin with have found a brokerage and a link.
  pub record Linked (b : Brokerage) (link : UserBrokerageLink) : Type 0 where
    pub registered : is_registered name ≡ true
    pub active : find (is_active_named name) tables.brokerages ≡ some b
    pub linked : find (is_link user b) tables.links ≡ some link

  clear_lem :
      (b : Brokerage) (link : UserBrokerageLink) (o : Option CachedSession) (s : redis.State)
      → redis.hgetall user name (at now) s ≡ o
      → redis.hgetall user name (at now) (clear redis http tables now user name b link o s).1 ≡ none
  unfolding clear
  clear_lem b link none s e = e
  clear_lem b link (some session) s e = redis.hgetall-delete user name _ s

  -- A logout of a linked brokerage leaves no session cached, whether there was one, whether the broker
  -- has a logout endpoint, and however the broker's own logout ends, an error that is raised included.
  pub logout_always_clears :
      (b : Brokerage) (link : UserBrokerageLink) (s : redis.State)
      → Linked b link
      → redis.hgetall user name (at now) (logout_and_clear redis http tables now user name s).1
        ≡ none
  unfolding logout_and_clear get_strategy_class get_brokerage_and_link
  logout_always_clears b link s l =
      rw (l.registered, l.active, l.linked) (clear_lem b link _ s refl)

  -- A login within the cooldown raises the rate-limit error, whatever the broker would have answered,
  -- and leaves every cached session as it was.
  pub cooldown_refuses :
      (login_secrets : Fields) (b : Brokerage) (link : UserBrokerageLink) (e : BrokerageEndpoint)
      (s s' : redis.State) (other : ℕ) (name' : String) (later : ℕ)
      → Linked b link
      → find (has_purpose b "login") tables.endpoints ≡ some e
      → redis.set_nx user name login_cooldown_seconds (at now) s ≡ (false, s')
      → ((authenticate_and_cache redis http tables now user name login_secrets s).0
          ≡ err broker_rate_limited)
        × (redis.hgetall other name' later
              (authenticate_and_cache redis http tables now user name login_secrets s).1
            ≡ redis.hgetall other name' later s)
  unfolding authenticate_and_cache get_strategy_class get_brokerage_and_link enforce_login_cooldown
      acquired
  cooldown_refuses login_secrets b link e s s' other name' later l f n =
      let keeps =
        redis.hgetall-set_nx user name login_cooldown_seconds (at now) other name' later s in
      let kept : redis.hgetall other name' later s' ≡ redis.hgetall other name' later s =
        rw n at keeps in
      rw (l.registered, l.active, l.linked, f, n) (refl, kept)
