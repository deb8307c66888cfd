-- ===== src/Brokerage/Orchestrator/Login.antt =====
-- What a login writes to the session cache.
use djaskt_trading_app.Prelude.{
  ℕ, String, ◌≡◌, ◌∙◌, refl, ap, sym, arith, ◌+◌, ◌*◌, ◌/◌, ◌%◌, ◌≤◌, ◌<◌, Bool, true, false,
  Bool-cases, Option-cases, inl, inr, Option, none, some,
}
use djaskt_trading_app.Prelude.Rows.{find}
use djaskt_trading_app.Prelude.Action.{Result, ok, err, Result-cases}
use djaskt_trading_app.Brokerage.Json.{Json, text, number, null, boolean, array, object, Fields}
use djaskt_trading_app.Decimal.{Decimal}
use djaskt_trading_app.Brokerage.Models.{
  BrokerError, Brokerage, BrokerageEndpoint, UserBrokerageLink, Tables, is_active_named, is_link,
  has_purpose,
}
use djaskt_trading_app.Brokerage.Strategy.{
  BrokerSession, CachedSession, Request, Reply, authenticate,
}
use djaskt_trading_app.Brokerage.Cache.{
  SessionRedis, encoded, mapping, at, ttl_seconds, same_session, fields_of, store, cached,
}
use djaskt_trading_app.Brokerage.Orchestrator.Laws.{Linked}
use djaskt_trading_app.Accounts.Lifetime.{second, seconds_until_ist_midnight, ist_midnight}
use djaskt_trading_app.Brokerage.Orchestrator.{
  login_cooldown_seconds, is_registered, get_strategy_class, get_brokerage_and_link, acquired,
  enforce_login_cooldown, authenticate_and_cache,
}

-- The text that Redis is sent for a value of a session: of a text or a number only.
pub data IsSent (show : Decimal → String) : Json → String → Type 0 where
  sent_text : (s : String) → IsSent show (text s) s
  sent_number : (d : Decimal) → IsSent show (number d) (show d)

encoded-IsSent :
    (show : Decimal → String) (j : Json) (s : String) → encoded show j ≡ some s → IsSent show j s
encoded-IsSent show (text x) s e = let q : x ≡ s = cc in rw (sym q) (sent_text x)
encoded-IsSent show (number d) s e = let q : show d ≡ s = cc in rw (sym q) (sent_number d)
encoded-IsSent show null s e = cc
encoded-IsSent show (boolean x) s e = cc
encoded-IsSent show (array x) s e = cc
encoded-IsSent show (object x) s e = cc

mapping-eq-ok :
    (x y z : Option String) (c : CachedSession)
    → mapping x y z ≡ ok c
    → (x ≡ some c.jwt_token) × (y ≡ some c.feed_token) × (z ≡ some c.client_id)
unfolding mapping
mapping-eq-ok (some x) (some y) (some z) c e = (cc, cc, cc)
mapping-eq-ok (some x) (some y) none c e = cc
mapping-eq-ok (some x) none z c e = cc
mapping-eq-ok none y z c e = cc

fields_of-AreSent :
    (redis : SessionRedis) (session : BrokerSession) (c : CachedSession)
    → fields_of redis session ≡ ok c
    → IsSent redis.number_text session.jwt_token c.jwt_token
      × IsSent redis.number_text session.feed_token c.feed_token
      × IsSent redis.number_text session.client_id c.client_id
fields_of-AreSent redis session c e =
    let (x, y, z) = mapping-eq-ok _ _ _ c e in
    (
      encoded-IsSent redis.number_text session.jwt_token c.jwt_token x,
      encoded-IsSent redis.number_text session.feed_token c.feed_token y,
      encoded-IsSent redis.number_text session.client_id c.client_id z,
    )

module _ (redis : SessionRedis) (http : Request → Reply) (tables : Tables) (now : ℕ) (user : ℕ)
    (name : String) where
  -- How a login went that ended with a session.
  pub record IsLogin (login_secrets : Fields) (session : BrokerSession) (ttl : ℕ)
      (s s' : redis.State) : Type 0 where
    pub brokerage : Brokerage
    pub link : UserBrokerageLink
    pub endpoint : BrokerageEndpoint
    pub cached : CachedSession
    pub found : Linked redis http tables now user name brokerage link
    pub configured : find (has_purpose brokerage "login") tables.endpoints ≡ some endpoint
    pub acquires : (redis.set_nx user name login_cooldown_seconds (at now) s).0 ≡ true
    pub issued : authenticate http endpoint link.user_brokerage_data login_secrets ≡ ok session
    pub encoded : fields_of redis session ≡ ok cached
    pub lasts : ttl ≡ ttl_seconds now
    pub written :
        s'
        ≡ redis.hset_expire user name cached ttl
            (at now)
            (redis.set_nx user name login_cooldown_seconds (at now) s).1

  -- A login that fails leaves every cached session as it was.
  IsEnded : Fields → redis.State → Result BrokerError (BrokerSession × ℕ) × redis.State → Type 0
  IsEnded login_secrets s (ok (session, ttl), s') = IsLogin login_secrets session ttl s s'
  IsEnded login_secrets s (err e, s') =
      (other : ℕ) (name' : String) (later : ℕ)
      → redis.hgetall other name' later s' ≡ redis.hgetall other name' later s

  abbrev login : Fields → redis.State → Result BrokerError (BrokerSession × ℕ) × redis.State
  login = authenticate_and_cache redis http tables now user name

  module _ (login_secrets : Fields) (b : Brokerage) (link : UserBrokerageLink)
      (e : BrokerageEndpoint) (s s₁ : redis.State)
      (l : Linked redis http tables now user name b link)
      (p : find (has_purpose b "login") tables.endpoints ≡ some e) where
    -- Past the cooldown.
    acquired_ends :
        redis.set_nx user name login_cooldown_seconds (at now) s ≡ (true, s₁)
        → ((other : ℕ) (name' : String) (later : ℕ)
            → redis.hgetall other name' later s₁ ≡ redis.hgetall other name' later s)
        → IsEnded login_secrets s (login login_secrets s)
    unfolding authenticate_and_cache get_strategy_class get_brokerage_and_link
        enforce_login_cooldown acquired store IsEnded
    acquired_ends n kept =
        elim (Result-cases (authenticate http e link.user_brokerage_data login_secrets)) [
          | inr (x, a) ↦ rw (l.registered, l.active, l.linked, p, n, a) kept
          | inl (session, a) ↦ elim (Result-cases (fields_of redis session)) [
            | inr (x, q) ↦ rw (l.registered, l.active, l.linked, p, n, a, q) kept
            | inl (c, q) ↦
                rw (l.registered, l.active, l.linked, p, n, a, q)
                  record {
                    link = link;
                    endpoint = e;
                    cached = c;
                    issued = a;
                    encoded = q;
                    lasts = refl;
                    acquires = ap (λ (x : Bool × redis.State). x.0) n;
                    written = rw n refl;
                    brokerage = b;
                    found = l;
                    configured = p;
                  }
          ]
        ]

    linked_ends :
        (x : Bool)
        → redis.set_nx user name login_cooldown_seconds (at now) s ≡ (x, s₁)
        → ((other : ℕ) (name' : String) (later : ℕ)
            → redis.hgetall other name' later s₁ ≡ redis.hgetall other name' later s)
        → IsEnded login_secrets s (login login_secrets s)
    unfolding authenticate_and_cache get_strategy_class get_brokerage_and_link
        enforce_login_cooldown acquired IsEnded
    linked_ends true n kept = acquired_ends n kept
    linked_ends false n kept = rw (l.registered, l.active, l.linked, p, n) kept

  login_ends :
      (login_secrets : Fields) (s : redis.State) → IsEnded login_secrets s (login login_secrets s)
  unfolding authenticate_and_cache get_strategy_class get_brokerage_and_link IsEnded
  login_ends login_secrets s = elim (Bool-cases (is_registered name)) [
    | inr f ↦ rw f (λ u n l. refl)
    | inl f ↦ elim (Option-cases (find (is_active_named name) tables.brokerages)) [
      | inl g ↦ rw (f, g) (λ u n l. refl)
      | inr (b, g) ↦ elim (Option-cases (find (is_link user b) tables.links)) [
        | inl k ↦ rw (f, g, k) (λ u n l. refl)
        | inr (link, k) ↦ elim (Option-cases (find (has_purpose b "login") tables.endpoints)) [
          | inl p ↦ rw (f, g, k, p) (λ u n l. refl)
          | inr (e, p) ↦
              linked_ends login_secrets b link e s _
                (record { registered = f; active = g; linked = k }) p _ refl
                (λ other name' later.
                  redis.hgetall-set_nx user name login_cooldown_seconds (at now) other name' later
                    s)
        ]
      ]
    ]
  ]

  -- An entry that was written now is there two seconds before midnight at the latest, and gone at midnight.
  still_there :
      (t : ℕ)
      → t + 2 * second ≤ now + seconds_until_ist_midnight now
      → t / second < now / second + seconds_until_ist_midnight now / second
  still_there t h = omega arith

  gone :
      (t : ℕ)
      → now + seconds_until_ist_midnight now ≤ t
      → now / second + seconds_until_ist_midnight now / second ≤ t / second
  gone t h = omega arith

  module _ (login_secrets : Fields) (s s' : redis.State) where
    -- A login that fails, whatever the error, leaves every cached session as it was.
    pub failed_login_keeps :
        (e : BrokerError) (other : ℕ) (name' : String) (later : ℕ)
        → login login_secrets s ≡ (err e, s')
        → redis.hgetall other name' later s' ≡ redis.hgetall other name' later s
    unfolding IsEnded
    failed_login_keeps e other name' later h =
        let ended = login_ends login_secrets s in
        let ended' = rw h at ended in ended' other name' later

    module _ (session : BrokerSession) (ttl : ℕ)
        (h : login login_secrets s ≡ (ok (session, ttl), s')) where
      -- A login that succeeds was let pass by the cooldown, and authenticated with the user's own link.
      pub login_written : IsLogin login_secrets session ttl s s'
      unfolding IsEnded
      login_written = let ended = login_ends login_secrets s in rw h at ended

      written_now :
          s'
          ≡ redis.hset_expire user name login_written.cached
              (ttl_seconds now)
              (at now)
              (redis.set_nx user name login_cooldown_seconds (at now) s).1
      written_now = rw (sym login_written.lasts) login_written.written

      -- The session that a login has returned can be read back in the state that it leaves, each of
      -- its three values as the text that Redis is sent for it, from then until two seconds before the
      -- next midnight of Indian time, which is 5:30 h ahead of UTC.
      pub login_readable :
          (midnight t : ℕ)
          → now < midnight
          → midnight ≤ now + 86_400_000_000
          → (midnight + 19_800_000_000) % 86_400_000_000 ≡ 0
          → now ≤ t
          → t + 2_000_000 ≤ midnight
          → (c : CachedSession) × IsSent redis.number_text session.jwt_token c.jwt_token
            × IsSent redis.number_text session.feed_token c.feed_token
            × IsSent redis.number_text session.client_id c.client_id
            × (cached redis t user name s' ≡ some c)
      login_readable midnight t a b m o u =
          let c = login_written.cached in
          let (jwt, feed, client) = fields_of-AreSent redis session c login_written.encoded in
          let e = ist_midnight now midnight a b m in
          (
            c,
            jwt,
            feed,
            client,
            rw written_now (
                redis.hgetall-hset_expire user name c _ _ _ _ (omega arith)
                  (still_there t (omega arith))),
          )

      -- From the next midnight of Indian time on, the session that a login has cached is gone.
      pub login_expires :
          (t : ℕ) → now + seconds_until_ist_midnight now ≤ t → cached redis t user name s' ≡ none
      login_expires t o =
          rw written_now
            (redis.hgetall-hset_expire_late user name login_written.cached _ _ _ _ (gone t o))

      -- A login of one user at one broker leaves the sessions of the others as they were.
      pub login_keeps_others :
          (other : ℕ) (name' : String) (t : ℕ)
          → same_session user name other name' ≡ false
          → cached redis t other name' s' ≡ cached redis t other name' s
      login_keeps_others other name' t n = rw written_now (
          redis.hgetall-hset_expire_ne user name login_written.cached _ _ other name' _ _ n
          ∙ redis.hgetall-set_nx user name login_cooldown_seconds (at now) other name' _ s)
