-- ===== src/Brokerage/Strategy/Laws.antt =====
-- What it takes for Angel One's strategy to return a session.
use mathlib.Core.Logic.{◌↔◌}
use djaskt_trading_app.Prelude.{
  ◌≡◌, refl, arith, ap, sym, ◌∙◌, true, false, Bool-cases, inl, inr, Option, none, some,
}
use djaskt_trading_app.Prelude.Action.{Result, ok, err}
use djaskt_trading_app.Brokerage.Json.{
  Json, Fields, boolean, object, null, array, number, text, get, is_given,
}
use djaskt_trading_app.Brokerage.Models.{BrokerError, BrokerageEndpoint}
use djaskt_trading_app.Brokerage.Strategy.{
  BrokerSession, Request, Reply, failed, raised, body, dispatched, request_of, dispatch_request,
  status_checked, reply_checked, or_empty, session_of, tokens_of, validate_credentials,
  login_headers, login_body, call_broker_api, tokens_checked, parse_response, parsed, authenticate,
}

module _ (http : Request → Reply) (e : BrokerageEndpoint) (link_data login_secrets : Fields)
    (session : BrokerSession) where
  -- The broker's reply `d` to the login request, whose `data` is `t`.
  pub record IsReplied (d t : Fields) : Type 0 where
    pub replied :
        http (request_of e (login_headers e link_data) (login_body link_data login_secrets))
        ≡ body (object d)
    pub status : get "status" d ≡ some (boolean true)
    pub tokens : or_empty (get "data" d) ≡ object t
    pub jwt : get "jwtToken" t ≡ some session.jwt_token
    pub feed : get "feedToken" t ≡ some session.feed_token

  -- The session is the one that the broker issued for the link's client.
  pub record IsIssued : Type 0 where
    pub has_client_id : is_given (get "client_id" link_data) ≡ true
    pub has_api_key : is_given (get "api_key" link_data) ≡ true
    pub has_password : is_given (get "password" login_secrets) ≡ true
    pub has_totp : is_given (get "totp" login_secrets) ≡ true
    pub client : get "client_id" link_data ≡ some session.client_id
    pub reply : (d : Fields) × (t : Fields) × IsReplied d t

module _ (s : BrokerSession) where
  -- The session of three values.
  record AreParts (x y z : Option Json) : Type 0 where
    first : x ≡ some s.jwt_token
    second : y ≡ some s.feed_token
    third : z ≡ some s.client_id

  session_of-eq-ok : (x y z : Option Json) → session_of x y z ≡ ok s → AreParts x y z
  unfolding session_of
  session_of-eq-ok (some x) (some y) (some z) h = record { first = cc; second = cc; third = cc }
  session_of-eq-ok (some x) (some y) none h = cc
  session_of-eq-ok (some x) none z h = cc
  session_of-eq-ok none y z h = cc

  tokens_of-eq-ok :
      (j : Json) (link_data : Fields)
      → tokens_of j link_data ≡ ok s
      → (t : Fields) × (j ≡ object t)
        × AreParts (get "jwtToken" t) (get "feedToken" t) (get "client_id" link_data)
  unfolding tokens_of
  tokens_of-eq-ok (object t) link_data h = (t, refl, session_of-eq-ok _ _ _ h)
  tokens_of-eq-ok null link_data h = cc
  tokens_of-eq-ok (boolean x) link_data h = cc
  tokens_of-eq-ok (number x) link_data h = cc
  tokens_of-eq-ok (text x) link_data h = cc
  tokens_of-eq-ok (array x) link_data h = cc

status_checked-eq-ok :
    (o : Option Json) (d d' : Fields)
    → status_checked o d ≡ ok d'
    → (o ≡ some (boolean true)) × (d ≡ d')
unfolding status_checked
status_checked-eq-ok none d d' h = cc
status_checked-eq-ok (some (boolean true)) d d' h = (refl, cc)
status_checked-eq-ok (some (boolean false)) d d' h = cc
status_checked-eq-ok (some null) d d' h = cc
status_checked-eq-ok (some (number x)) d d' h = cc
status_checked-eq-ok (some (text x)) d d' h = cc
status_checked-eq-ok (some (array x)) d d' h = cc
status_checked-eq-ok (some (object x)) d d' h = cc

reply_checked-eq-ok :
    (j : Json) (d : Fields)
    → reply_checked j ≡ ok d
    → (j ≡ object d) × (get "status" d ≡ some (boolean true))
unfolding reply_checked
reply_checked-eq-ok (object x) d h =
    let p = status_checked-eq-ok (get "status" x) x d h in
    (ap object p.1, ap (get "status") (sym p.1) ∙ p.0)
reply_checked-eq-ok null d h = cc
reply_checked-eq-ok (boolean x) d h = cc
reply_checked-eq-ok (number x) d h = cc
reply_checked-eq-ok (text x) d h = cc
reply_checked-eq-ok (array x) d h = cc

dispatched-eq-ok : (r : Reply) (j : Json) → dispatched r ≡ ok j → r ≡ body j
unfolding dispatched
dispatched-eq-ok failed j h = cc
dispatched-eq-ok raised j h = cc
dispatched-eq-ok (body x) j h = cc

tokens_checked-eq-ok :
    (r : Result BrokerError Fields) (link_data : Fields) (s : BrokerSession)
    → tokens_checked r link_data ≡ ok s
    → (d : Fields) × (r ≡ ok d) × (tokens_of (or_empty (get "data" d)) link_data ≡ ok s)
unfolding tokens_checked
tokens_checked-eq-ok (ok d) link_data s h = (d, refl, h)
tokens_checked-eq-ok (err x) link_data s h = cc

parsed-eq-ok :
    (r : Result BrokerError Json) (link_data : Fields) (s : BrokerSession)
    → parsed r link_data ≡ ok s
    → (j : Json) × (r ≡ ok j) × (parse_response j link_data ≡ ok s)
unfolding parsed
parsed-eq-ok (ok j) link_data s h = (j, refl, h)
parsed-eq-ok (err x) link_data s h = cc

all_given :
    (link_data login_secrets : Fields)
    → validate_credentials link_data login_secrets ≡ true
    → (is_given (get "client_id" link_data) ≡ true)
      × (is_given (get "api_key" link_data) ≡ true)
      × (is_given (get "password" login_secrets) ≡ true)
      × (is_given (get "totp" login_secrets) ≡ true)
unfolding validate_credentials
all_given link_data login_secrets v = (ground arith, ground arith, ground arith, ground arith)

module _ (http : Request → Reply) (e : BrokerageEndpoint) (link_data login_secrets : Fields)
    (s : BrokerSession) where
  authenticated :
      authenticate http e link_data login_secrets ≡ ok s → IsIssued http e link_data login_secrets s
  unfolding authenticate call_broker_api dispatch_request parse_response
  authenticated h = elim (Bool-cases (validate_credentials link_data login_secrets)) [
    | inl v ↦
        let g = all_given link_data login_secrets v in
        let h' = rw v at h in
        let (j, q, p) = parsed-eq-ok _ link_data s h' in
        let sent = dispatched-eq-ok _ j q in
        let (d, c, t) = tokens_checked-eq-ok _ link_data s p in
        let (o, status) = reply_checked-eq-ok j d c in
        let (f, tokens, parts) = tokens_of-eq-ok s _ link_data t in
        record {
          has_client_id = g.0;
          has_api_key = g.1;
          has_password = g.2;
          has_totp = g.3;
          client = parts.third;
          reply = (
            d,
            f,
            record {
              replied = sent ∙ ap body o;
              status = status;
              tokens = tokens;
              jwt = parts.first;
              feed = parts.second;
            },
          );
        }
    | inr v ↦ cc
  ]

  issued :
      IsIssued http e link_data login_secrets s
      → (d : Fields) × (t : Fields) × IsReplied http e link_data login_secrets s d t
      → authenticate http e link_data login_secrets ≡ ok s
  unfolding authenticate validate_credentials call_broker_api dispatch_request dispatched parsed
      parse_response reply_checked status_checked tokens_checked tokens_of session_of
  issued i (d, t, r) =
      rw
        (
          i.has_client_id, i.has_api_key, i.has_password, i.has_totp, r.replied, r.status, r.tokens,
          r.jwt, r.feed, i.client,
        )
        refl

-- Authentication returns a session exactly if the link has a client id and an API key and the login a
-- password and a TOTP, each of them truthy in Python, and the broker answers the login request with a
-- status of true and both tokens: the session has these tokens and the link's client.
pub authenticate-eq-ok :
    (http : Request → Reply) (e : BrokerageEndpoint) (link_data login_secrets : Fields)
    (s : BrokerSession)
    → (authenticate http e link_data login_secrets ≡ ok s)
      ↔ IsIssued http e link_data login_secrets s
authenticate-eq-ok http e link_data login_secrets s = (
  authenticated http e link_data login_secrets s,
  λ i. issued http e link_data login_secrets s i i.reply,
)
