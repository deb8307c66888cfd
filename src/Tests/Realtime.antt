-- ===== src/Tests/Realtime.antt =====
-- A connection of the owner, step by step, up to the trade history.
use djaskt_trading_app.Prelude.{String, ◌≡◌, ◌≢◌, refl, Option, some, []}
use djaskt_trading_app.Ledger.Orchestrator.{get_owned_portfolio_or_none}
use djaskt_trading_app.Realtime.FirstMessage.{
  Message, object, text_value, authenticate_first_message, of_message, with_token, token_checked,
}
use djaskt_trading_app.Accounts.Auth.{
  validate_and_get_user, checked_token, check_claims, token_is_denied, user_is_denied, find_user,
}
use djaskt_trading_app.Accounts.Denylist.{is_denied, is_denied_for_user, at_or_before}
use djaskt_trading_app.Realtime.Consumer.{
  Connection, Moment, text_frame, connect, receive, after_check, after_look_up, after_group_add,
  send_history, trade_history_limit, Reached, connects, steps, receives, checks, looks_up, joins,
  sends,
}
use djaskt_trading_app.Ledger.Listing.{get_recent_trades}
use djaskt_trading_app.Realtime.Entitled.{Entitled, sent_to_owner_only}
use djaskt_trading_app.Realtime.Delivery.{Delivery}
use djaskt_trading_app.Tests.Fixtures.{db}
use djaskt_trading_app.Tests.Accounts.{redis, jwt, users, alice}

abbrev json_loads : String → Option Message
json_loads raw = some (object (some (text_value "auth")) (some (text_value raw)))

abbrev first : Connection
first = receive (some "access") (connect 1)

abbrev second : Connection
second = after_check (authenticate_first_message json_loads jwt redis users 100 [] "access") first

abbrev third : Connection
third = after_look_up alice (get_owned_portfolio_or_none 7 1 db) second

abbrev fourth : Connection
fourth = after_group_add third

abbrev fifth : Connection
fifth = send_history (get_recent_trades 1 trade_history_limit db) fourth

-- The client sends one text; the tables, the users and the denylist stay as they are.
abbrev Messages : String → Type 0
Messages t = t ≡ "access"

abbrev moment : Moment redis
moment = record { users = users; now = 100; state = []; db = db }

abbrev Moments : Moment redis → Type 0
Moments m = m ≡ moment

reaches : Reached json_loads jwt redis Messages Moments 1 fifth
unfolding connect receive after_check authenticate_first_message of_message with_token token_checked
    validate_and_get_user checked_token check_claims token_is_denied user_is_denied find_user
    is_denied is_denied_for_user at_or_before after_look_up get_owned_portfolio_or_none
    after_group_add send_history
reaches =
    steps
      (steps
        (steps
          (steps (steps connects (receives (some "access") (text_frame "access" refl) refl))
            (checks "access" moment refl refl))
          (looks_up alice moment refl refl))
        (joins refl))
      (sends moment refl refl)

has_sent : fifth.sent ≢ []
unfolding send_history
has_sent = λ e. cc

sent_to_owner_only_example : Entitled json_loads jwt redis Messages Moments 1
sent_to_owner_only_example =
    sent_to_owner_only json_loads jwt redis Messages Moments 1 fifth reaches has_sent
