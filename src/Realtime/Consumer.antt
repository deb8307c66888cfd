-- ===== src/Realtime/Consumer.antt =====
-- ledger/realtime/consumers.py: `PortfolioConsumer`. A handler runs up to an `await` in one piece; at an
-- `await` another task may run, so the handler's place is part of the state.
use djaskt_trading_app.Prelude.{
  ℕ, String, ◌≡◌, Bool, true, false, Option, none, some, List, [], ◌∷◌, if◌then◌else◌,
}
use djaskt_trading_app.Prelude.Action.{Result, ok, err}
use djaskt_trading_app.Ledger.Models.{Portfolio, Trade, Db}
use djaskt_trading_app.Ledger.Listing.{get_recent_trades}
use djaskt_trading_app.Ledger.Orchestrator.{Update, get_owned_portfolio_or_none}
use djaskt_trading_app.Accounts.Redis.{Redis}
use djaskt_trading_app.Accounts.Auth.{User, Jwt}
use djaskt_trading_app.Realtime.FirstMessage.{
  Message, WebSocketAuthError, authenticate_first_message,
}

-- Where `receive` is: not running, or at the check of a text, at the look-up for a user, at
-- `group_add`, or at the query of the trades.
pub data Place : Type 0 where
  idle joining querying : Place
  checking : String → Place
  looking_up : User → Place

pub data Timer : Type 0 where
  armed fired cancelled : Timer

pub data Sent : Type 0 where
  trade_history : List Trade → Sent
  update : Update → Sent

pub record Connection : Type 0 where
  pub portfolio_id : ℕ
  pub authenticated : Bool
  pub group_name : Option ℕ
  pub user_id : Option ℕ
  pub timer : Timer
  pub place : Place
  -- the channel layer has the channel in the portfolio's group
  pub in_group : Bool
  -- the codes that `close` was called with, and the messages sent, the latest first
  pub closed : List ℕ
  pub sent : List Sent

unfoldable pub connect : ℕ → Connection
connect portfolio_id = record {
  portfolio_id = portfolio_id;
  authenticated = false;
  group_name = none;
  user_id = none;
  timer = armed;
  place = idle;
  in_group = false;
  closed = [];
  sent = [];
}

abbrev pub trade_history_limit : ℕ
trade_history_limit = 50

abbrev pub close : ℕ → Connection → Connection
close code c = record c { place = idle; closed = code ∷ c.closed }

-- `_enforce_auth_timeout`, after the sleep
unfoldable pub enforce_auth_timeout : Connection → Connection
enforce_auth_timeout c = record c {
  timer = fired;
  closed = if c.authenticated then c.closed else 4401 ∷ c.closed;
}

-- `receive`, up to its first `await`
unfoldable pub receive : Option String → Connection → Connection
receive none c = if c.authenticated then c else close 4401 c
receive (some text_data) c = if c.authenticated then c else record c { place = checking text_data }

unfoldable pub after_check : Result WebSocketAuthError User → Connection → Connection
after_check (err e) c = close 4401 c
after_check (ok user) c = record c { place = looking_up user }

unfoldable pub after_look_up : User → Option Portfolio → Connection → Connection
after_look_up user none c = close 4403 c
after_look_up user (some p) c = record c {
  authenticated = true;
  timer = cancelled;
  group_name = some c.portfolio_id;
  user_id = some user.id;
  place = joining;
}

unfoldable pub after_group_add : Connection → Connection
after_group_add c = record c { in_group = true; place = querying }

unfoldable pub send_history : List Trade → Connection → Connection
send_history trades c = record c { place = idle; sent = trade_history trades ∷ c.sent }

-- `if self.group_name: await self.channel_layer.group_discard(...)`
abbrev pub stays : Option ℕ → Bool → Bool
stays none b = b
stays (some _) b = false

unfoldable pub disconnect : Connection → Connection
disconnect c = record c { timer = cancelled; in_group = stays c.group_name c.in_group }

unfoldable pub portfolio_update : Update → Connection → Connection
portfolio_update payload c = record c { sent = update payload ∷ c.sent }

-- The rest of the system as a handler meets it: the users, the time, the denylist and the tables.
pub record Moment (redis : Redis) : Type 0 where
  pub users : List User
  pub now : ℕ
  pub state : redis.State
  pub db : Db

-- `messages` says which texts the client sends on the connection, and `moments` what the rest of the
-- system is like while the connection lives.
module _ (json_loads : String → Option Message) (jwt : Jwt) (redis : Redis)
    (messages : String → Type 0) (moments : Moment redis → Type 0) where
  -- What `receive` is given: a text that the client sent, or no text.
  pub data Received : Option String → Type 0 where
    text_frame : (text_data : String) → messages text_data → Received (some text_data)
    no_text : Received none

  -- One step of a connection.
  pub data Step (c : Connection) : Connection → Type 0 where
    times_out : c.timer ≡ armed → Step c (enforce_auth_timeout c)
    receives :
        (text_data : Option String)
        → Received text_data
        → c.place ≡ idle
        → Step c (receive text_data c)
    checks :
        (text_data : String) (m : Moment redis)
        → moments m
        → c.place ≡ checking text_data
        → Step c (
            after_check
              (authenticate_first_message json_loads jwt redis m.users m.now m.state text_data)
              c)
    looks_up :
        (user : User) (m : Moment redis)
        → moments m
        → c.place ≡ looking_up user
        → Step c (after_look_up user (get_owned_portfolio_or_none user.id c.portfolio_id m.db) c)
    joins : c.place ≡ joining → Step c (after_group_add c)
    sends :
        (m : Moment redis)
        → moments m
        → c.place ≡ querying
        → Step c (send_history (get_recent_trades c.portfolio_id trade_history_limit m.db) c)
    updates : (payload : Update) → c.in_group ≡ true → Step c (portfolio_update payload c)
    disconnects : c.place ≡ idle → Step c (disconnect c)

  pub data Reached (id : ℕ) : Connection → Type 0 where
    connects : Reached id (connect id)
    steps : {c d : Connection} → Reached id c → Step c d → Reached id d
