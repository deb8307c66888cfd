-- ===== src/Realtime/Entitled.antt =====
-- Nothing is sent but to an authenticated owner, whatever the order of the steps.
use djaskt_trading_app.Prelude.{
  ℕ, String, ◌≡◌, ◌≢◌, ap, sym, ◌∙◌, refl, arith, Bool, true, false, Bool-cases, Option-cases, inl,
  inr, Option, none, some, List, [], ◌∷◌, if◌then◌else◌,
}
use djaskt_trading_app.Prelude.Action.{Result, ok, err}
use djaskt_trading_app.Ledger.Models.{Portfolio}
use djaskt_trading_app.Ledger.Orchestrator.{get_owned_portfolio_or_none}
use djaskt_trading_app.Ledger.Orchestrator.Laws.{get_owned_portfolio_or_none-owner}
use djaskt_trading_app.Accounts.Redis.{Redis}
use djaskt_trading_app.Accounts.Auth.{User, Jwt}
use djaskt_trading_app.Realtime.FirstMessage.{
  Message, WebSocketAuthError, authenticate_first_message,
}
use djaskt_trading_app.Realtime.Consumer.{
  idle, joining, querying, looking_up, Connection, Sent, connect, enforce_auth_timeout, receive,
  after_check, after_look_up, after_group_add, send_history, stays, disconnect, portfolio_update,
  checking, Moment, Received, text_frame, Step, times_out, receives, checks, looks_up, joins, sends,
  updates, disconnects, Reached, connects, steps,
}

module _ (json_loads : String → Option Message) (jwt : Jwt) (redis : Redis)
    (messages : String → Type 0) (moments : Moment redis → Type 0) where
  -- A text that the client sent, and that passed the check as a user at a moment of the connection.
  pub record Checked (user : User) : Type 0 where
    pub text_data : String
    pub was_sent : messages text_data
    pub moment : Moment redis
    pub happened : moments moment
    pub passed :
        authenticate_first_message json_loads jwt redis moment.users moment.now moment.state
          text_data
        ≡ ok user

  -- A checked user who owned the portfolio in the tables at a moment of the connection.
  pub record Entitled (id : ℕ) : Type 0 where
    pub user : User
    pub checked : Checked user
    pub moment : Moment redis
    pub happened : moments moment
    pub portfolio : Portfolio
    pub owned : get_owned_portfolio_or_none user.id id moment.db ≡ some portfolio
    pub same_user : portfolio.user ≡ user.id
    pub same_portfolio : portfolio.id ≡ id

  -- What holds of a connection for a portfolio at any time.
  pub record IsSafe (id : ℕ) (c : Connection) : Type 0 where
    pub same_id : c.portfolio_id ≡ id
    pub at_check : (t : String) → c.place ≡ checking t → messages t
    pub at_look_up : (u : User) → c.place ≡ looking_up u → Checked u
    pub entitled : c.authenticated ≡ true → Entitled id
    pub at_join : c.place ≡ joining → (c.authenticated ≡ true) × (c.group_name ≡ some id)
    pub at_query : c.place ≡ querying → c.authenticated ≡ true
    pub joined : c.in_group ≡ true → (c.authenticated ≡ true) × (c.group_name ≡ some id)
    pub silent : c.authenticated ≡ false → c.sent ≡ []

  connect-IsSafe : (id : ℕ) → IsSafe id (connect id)
  unfolding connect
  connect-IsSafe id = record {
    same_id = refl;
    at_check = λ t e. cc;
    at_look_up = λ u e. cc;
    entitled = λ e. cc;
    at_join = λ e. cc;
    at_query = λ e. cc;
    joined = λ e. cc;
    silent = λ e. refl;
  }

  -- A connection that differs in its timer, its place and its closing codes only, and is idle.
  close-IsSafe :
      (id : ℕ) (c : Connection) (codes : List ℕ)
      → IsSafe id c
      → IsSafe id (record c { place = idle; closed = codes })
  close-IsSafe id c codes s = record {
    same_id = s.same_id;
    at_check = λ t e. cc;
    at_look_up = λ u e. cc;
    entitled = s.entitled;
    at_join = λ e. cc;
    at_query = λ e. cc;
    joined = s.joined;
    silent = s.silent;
  }

  after_check-IsSafe :
      (id : ℕ) (c : Connection) (r : Result WebSocketAuthError User)
      → ((u : User) → r ≡ ok u → Checked u)
      → IsSafe id c
      → IsSafe id (after_check r c)
  unfolding after_check
  after_check-IsSafe id c (err e) h s = close-IsSafe id c _ s
  after_check-IsSafe id c (ok user) h s = record {
    same_id = s.same_id;
    at_check = λ t e. cc;
    at_look_up = λ u e. h u (ground arith);
    entitled = s.entitled;
    at_join = λ e. cc;
    at_query = λ e. cc;
    joined = s.joined;
    silent = s.silent;
  }

  after_look_up-IsSafe :
      (id : ℕ) (c : Connection) (user : User) (o : Option Portfolio)
      → ((p : Portfolio) → o ≡ some p → Entitled id)
      → IsSafe id c
      → IsSafe id (after_look_up user o c)
  unfolding after_look_up
  after_look_up-IsSafe id c user none h s = close-IsSafe id c _ s
  after_look_up-IsSafe id c user (some p) h s = record {
    same_id = s.same_id;
    at_check = λ t e. cc;
    at_look_up = λ u e. cc;
    entitled = λ e. h p refl;
    at_join = λ e. (refl, ap some s.same_id);
    at_query = λ e. cc;
    joined = λ e. (refl, ap some s.same_id);
    silent = λ e. cc;
  }

  if-IsSafe :
      (id : ℕ) (b : Bool) (c d : Connection)
      → IsSafe id c
      → IsSafe id d
      → IsSafe id (if b then c else d)
  if-IsSafe id true c d s t = s
  if-IsSafe id false c d s t = t

  sent_text : {t : String} → Received json_loads jwt redis messages moments (some t) → messages t
  sent_text (text_frame t g) = g

  receive-IsSafe :
      (id : ℕ) (c : Connection) (text_data : Option String)
      → Received json_loads jwt redis messages moments text_data
      → IsSafe id c
      → IsSafe id (receive text_data c)
  unfolding receive
  receive-IsSafe id c none g s =
      if-IsSafe id c.authenticated _ _ s (close-IsSafe id c (4401 ∷ c.closed) s)
  receive-IsSafe id c (some text) g s = if-IsSafe id c.authenticated _ _ s (record {
    same_id = s.same_id;
    at_check = λ t e. let q : text ≡ t = cc in rw q at (sent_text g);
    at_look_up = λ u e. cc;
    entitled = s.entitled;
    at_join = λ e. cc;
    at_query = λ e. cc;
    joined = s.joined;
    silent = s.silent;
  })

  after_group_add-IsSafe :
      (id : ℕ) (c : Connection) → c.place ≡ joining → IsSafe id c → IsSafe id (after_group_add c)
  unfolding after_group_add
  after_group_add-IsSafe id c j s =
      let (a, g) = s.at_join j in
      record {
        same_id = s.same_id;
        at_check = λ t e. cc;
        at_look_up = λ u e. cc;
        entitled = s.entitled;
        at_join = λ e. cc;
        at_query = λ e. a;
        joined = λ e. (a, g);
        silent = s.silent;
      }

  -- A message is sent on an authenticated connection, which stays as it is or becomes idle.
  sent-IsSafe :
      (id : ℕ) (c : Connection) (m : Sent)
      → c.authenticated ≡ true
      → IsSafe id c
      → IsSafe id (record c { sent = m ∷ c.sent })
  sent-IsSafe id c m a s = record {
    same_id = s.same_id;
    at_check = s.at_check;
    at_look_up = s.at_look_up;
    entitled = s.entitled;
    at_join = s.at_join;
    at_query = s.at_query;
    joined = s.joined;
    silent = λ e. cc;
  }

  Step-IsSafe :
      (id : ℕ) {c d : Connection}
      → Step json_loads jwt redis messages moments c d
      → IsSafe id c
      → IsSafe id d
  unfolding enforce_auth_timeout send_history portfolio_update disconnect
  Step-IsSafe id {c} (times_out t) s = record {
    same_id = s.same_id;
    at_check = s.at_check;
    at_look_up = s.at_look_up;
    entitled = s.entitled;
    at_join = s.at_join;
    at_query = s.at_query;
    joined = s.joined;
    silent = s.silent;
  }
  Step-IsSafe id {c} (receives text_data g p) s = receive-IsSafe id c text_data g s
  Step-IsSafe id {c} (checks text_data m o p) s =
      after_check-IsSafe id c _
        (λ u e. record {
          text_data = text_data;
          was_sent = s.at_check text_data p;
          moment = m;
          happened = o;
          passed = e;
        })
        s
  Step-IsSafe id {c} (looks_up user m o p) s =
      after_look_up-IsSafe id c user _
        (λ q e.
          let e' = ap (λ n. get_owned_portfolio_or_none user.id n m.db) (sym s.same_id) ∙ e in
          let o' = get_owned_portfolio_or_none-owner user.id id m.db q e' in
          record {
            user = user;
            checked = s.at_look_up user p;
            moment = m;
            happened = o;
            portfolio = q;
            owned = e';
            same_user = o'.0;
            same_portfolio = o'.1;
          })
        s
  Step-IsSafe id {c} (joins p) s = after_group_add-IsSafe id c p s
  Step-IsSafe id {c} (sends m o p) s =
      sent-IsSafe id _ _ (s.at_query p) (close-IsSafe id c c.closed s)
  Step-IsSafe id {c} (updates payload g) s = sent-IsSafe id c _ (s.joined g).0 s
  Step-IsSafe id {c} (disconnects p) s = record {
    same_id = s.same_id;
    at_check = s.at_check;
    at_look_up = s.at_look_up;
    entitled = s.entitled;
    at_join = s.at_join;
    at_query = s.at_query;
    joined = λ e. s.joined (left_group c.group_name c.in_group e);
    silent = s.silent;
  }
    where
      left_group : (o : Option ℕ) (b : Bool) → stays o b ≡ true → b ≡ true
      left_group none b e = e
      left_group (some g) b e = cc

  pub Reached-IsSafe :
      {id : ℕ} {c : Connection} → Reached json_loads jwt redis messages moments id c → IsSafe id c
  Reached-IsSafe {id} connects = connect-IsSafe id
  Reached-IsSafe {id} (steps r st) = Step-IsSafe id st (Reached-IsSafe r)

  -- On a connection for a portfolio, in whatever order the handlers, the timeout and the events of other
  -- tasks have come, nothing has been sent unless a text that the client sent on it passed the token
  -- check as a user, with the users, time and denylist of some moment of the connection, and that user
  -- owned the portfolio in the tables of some moment of the connection.
  pub sent_to_owner_only :
      (id : ℕ) (c : Connection)
      → Reached json_loads jwt redis messages moments id c
      → c.sent ≢ []
      → Entitled id
  sent_to_owner_only id c r n = elim (Bool-cases c.authenticated) [
    | inl y ↦ (Reached-IsSafe r).entitled y
    | inr f ↦ absurd (n ((Reached-IsSafe r).silent f))
  ]

  -- Whatever has happened on a connection, a disconnect leaves its channel in no group.
  pub disconnect_leaves_group :
      (id : ℕ) (c : Connection)
      → Reached json_loads jwt redis messages moments id c
      → (disconnect c).in_group ≡ false
  unfolding disconnect
  disconnect_leaves_group id c r = elim (Bool-cases c.in_group) [
    | inl y ↦ let (_, g) = (Reached-IsSafe r).joined y in rw g refl
    | inr f ↦ elim (Option-cases c.group_name) [ inl n ↦ rw (n, f) refl | inr (g, e) ↦ rw e refl ]
  ]
