-- ===== src/Brokerage/Api/Laws.antt =====
-- What a client of the broker's login and logout sees, and what is cached then.
use djaskt_trading_app.Prelude.{
  ℕ, String, ◌≡◌, refl, ap, sym, ◌∙◌, arith, Bool, true, false, Bool-cases, inl, inr, some,
}
use djaskt_trading_app.Prelude.Rows.{exclude, find, count-none, count-exclude_unique, find-passes}
use djaskt_trading_app.Prelude.Action.{Result, ok, err, outcome}
use djaskt_trading_app.Brokerage.Json.{Json, object, text, number, null, boolean, array}
use djaskt_trading_app.Brokerage.Models.{
  BrokerError, uncaught, invalid_broker_credentials, Brokerage, BrokerageEndpoint,
  UserBrokerageLink, Tables, is_link, has_purpose,
}
use djaskt_trading_app.Brokerage.Schemas.{
  BrokerLoginRequest, BrokerLoginResponse, Answer, ok_200, not_found_404,
}
use djaskt_trading_app.Brokerage.Strategy.{
  BrokerSession, CachedSession, Request, Reply, validate_logout_credentials, logout,
}
use djaskt_trading_app.Brokerage.Cache.{SessionRedis, cached}
use djaskt_trading_app.Brokerage.Orchestrator.{
  is_registered, get_strategy_class, get_brokerage_and_link, authenticate_and_cache,
  broker_side_logout, logged, clear, logout_and_clear,
}
use djaskt_trading_app.Brokerage.Orchestrator.Laws.{Linked}
use djaskt_trading_app.Brokerage.Orchestrator.Login.{failed_login_keeps}
use djaskt_trading_app.Brokerage.Links.{is_own, delete_link}
use djaskt_trading_app.Brokerage.Links.Laws.{AtMostOne}
use djaskt_trading_app.Brokerage.Api.{
  login_response, logout_failed, login_answer, logout_answer, broker_login, broker_logout,
}

abbrev pub is_200 : {A : Type 0} → Answer A → Bool
is_200 (ok_200 a) = true
is_200 _ = false

abbrev pub is_ok_200 : {A : Type 0} → Result BrokerError (Answer A) → Bool
is_ok_200 (ok a) = is_200 a
is_ok_200 (err e) = false

abbrev pub is_text : Json → Bool
is_text (text c) = true
is_text _ = false

-- A session is answered with 200 or, if its client id is no text, with the error that is not caught.
login_response-is_200 :
    (name : String) (ttl : ℕ) (j : Json)
    → is_ok_200 (login_response name ttl j) ≡ false
    → (login_response name ttl j ≡ err uncaught) × (is_text j ≡ false)
login_response-is_200 name ttl (text c) h = cc
login_response-is_200 name ttl null h = (refl, refl)
login_response-is_200 name ttl (boolean x) h = (refl, refl)
login_response-is_200 name ttl (number x) h = (refl, refl)
login_response-is_200 name ttl (array x) h = (refl, refl)
login_response-is_200 name ttl (object x) h = (refl, refl)

abbrev Outcome : SessionRedis → Type 0
Outcome redis = Result BrokerError (Answer BrokerLoginResponse) × redis.State

module _ (redis : SessionRedis) (http : Request → Reply) (tables : Tables) (now : ℕ)
    (user : ℕ) where
  -- How a login ended that was not answered with 200: it has cached nothing, or it has cached a session whose
  -- client id is no text, and then raised an error that no handler catches.
  pub data Refusal (payload : BrokerLoginRequest) (s s' : redis.State)
      : Result BrokerError (Answer BrokerLoginResponse) → Type 0 where
    keeps :
        (r : Result BrokerError (Answer BrokerLoginResponse))
        → ((other : ℕ) (name : String) (later : ℕ)
            → redis.hgetall other name later s' ≡ redis.hgetall other name later s)
        → Refusal payload s s' r
    caches_and_raises :
        (session : BrokerSession) (ttl : ℕ)
        → authenticate_and_cache redis http tables now user payload.brokerage_name
            payload.user_credentials s
          ≡ (ok (session, ttl), s')
        → is_text session.client_id ≡ false
        → Refusal payload s s' (err uncaught)

  -- A login that is not answered with 200, be it that it raises an error, leaves every cached session, of every
  -- user, as it was, with one exception: when the session that it has cached has a client id that is no text, it
  -- raises an error that no handler catches.
  pub refused_login_caches_nothing :
      (payload : BrokerLoginRequest) (s s' : redis.State)
      (r : Result BrokerError (Answer BrokerLoginResponse))
      → broker_login redis http tables now user payload s ≡ (r, s')
      → is_ok_200 r ≡ false
      → Refusal payload s s' r
  unfolding broker_login login_answer
  refused_login_caches_nothing payload s s' r h n =
      elim (Bool-cases (is_registered payload.brokerage_name)) [
        | inr f ↦
            let h' = rw f at h in
            let t = ap (λ (x : Outcome redis). x.1) h' in
            keeps r (λ other name later. ap (redis.hgetall other name later) (sym t))
        | inl f ↦
            elim (outcome (
              authenticate_and_cache redis http tables now user payload.brokerage_name
                payload.user_credentials s)) [
                  | inl ((session, ttl), s₁, p) ↦
                      let h' = rw (f, p) at h in
                      let q = ap (λ (x : Outcome redis). x.0) h' in
                      let t = ap (λ (x : Outcome redis). x.1) h' in
                      let (e, no_text) =
                        login_response-is_200 payload.brokerage_name ttl session.client_id
                          (ap is_ok_200 q ∙ n) in
                      rw (sym q, e)
                        (caches_and_raises session ttl (p ∙ ap (λ x. (ok (session, ttl), x)) t)
                          no_text)
                  | inr (e, s₁, p) ↦
                      let h' = rw (f, p) at h in
                      let t = ap (λ (x : Outcome redis). x.1) h' in
                      rw (sym t) (
                        keeps r (λ other name later.
                          failed_login_keeps redis http tables now user payload.brokerage_name
                            payload.user_credentials s s₁ e other name later p))
                ]
      ]

  module _ (name : String) (b : Brokerage) (link : UserBrokerageLink)
      (l : Linked redis http tables now user name b link) where
    -- A logout raises an error that no handler catches when the link no longer holds a client id or an API key, although a
    -- session is cached and the broker has a logout endpoint. The session is cleared all the same.
    pub incomplete_link_logout_raises :
        (e : BrokerageEndpoint) (c : CachedSession) (s : redis.State)
        → cached redis now user name s ≡ some c
        → find (has_purpose b "logout") tables.endpoints ≡ some e
        → validate_logout_credentials link.user_brokerage_data c ≡ false
        → broker_logout redis http tables now user name s
          ≡ (err invalid_broker_credentials, redis.delete user name s)
    unfolding broker_logout logout_and_clear get_strategy_class get_brokerage_and_link clear logged
        broker_side_logout logout logout_answer logout_failed
    incomplete_link_logout_raises e c s h f v = rw (l.registered, l.active, l.linked, h, f, v) refl

    -- Where no user has two links to one brokerage: a user whose link to an active, registered
    -- brokerage is deleted cannot log out there any more. The answer is 404, and whatever session
    -- is cached stays in the cache.
    pub unlinked_logout_clears_nothing :
        (s : redis.State)
        → AtMostOne tables
        → broker_logout redis http (delete_link user link.id tables).1 now user name s
          ≡ (ok not_found_404, s)
    unfolding broker_logout logout_and_clear get_strategy_class get_brokerage_and_link logout_answer
        logout_failed delete_link AtMostOne
    unlinked_logout_clears_nothing s u =
        let own : is_own user link.id link ≡ true =
          let i = find-passes (is_link user b) tables.links link l.linked in ground arith in
        let z = count-none (is_link user b) (exclude (is_own user link.id) tables.links) (
          count-exclude_unique (is_link user b) (is_own user link.id) tables.links link (u user b)
            l.linked own) in
        rw (l.registered, l.active, z) refl
