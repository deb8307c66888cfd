-- ===== src/Realtime/Delivery.antt =====
-- ledger/services/main_service.py meets ledger/realtime/consumers.py: an update goes to the group that is
-- named after its portfolio, and each connection in that group handles it.
use djaskt_trading_app.Prelude.{
  ℕ, String, ◌==◌, ◌≡◌, ◌≢◌, ◌⊎◌, Bool, false, ◌&&◌, Option, none, some, ◌∷◌, if◌then◌else◌,
}
use djaskt_trading_app.Ledger.Orchestrator.{Update}
use djaskt_trading_app.Accounts.Redis.{Redis}
use djaskt_trading_app.Accounts.Auth.{Jwt}
use djaskt_trading_app.Realtime.FirstMessage.{Message}
use djaskt_trading_app.Realtime.Consumer.{Connection, Moment, update, portfolio_update}
use djaskt_trading_app.Realtime.Entitled.{Entitled}

-- `portfolio_group_name(portfolio.id)` is the name that the connection joined: the template is the
-- same, so the names are equal when the ids are.
abbrev pub names : Option ℕ → ℕ → Bool
names none id = false
names (some g) id = g == id

-- A `group_send` of an update, as a connection meets it.
unfoldable pub delivered : Update → Connection → Connection
delivered u c = if c.in_group && names c.group_name u.portfolio_id then portfolio_update u c else c

module _ (json_loads : String → Option Message) (jwt : Jwt) (redis : Redis)
    (messages : String → Type 0) (moments : Moment redis → Type 0) where
  -- What becomes of a connection for a portfolio when an update of a portfolio is sent.
  pub data Delivery (id : ℕ) (c : Connection) (u : Update) : Type 0 where
    to_owner :
        id ≡ u.portfolio_id
        → Entitled json_loads jwt redis messages moments id
        → (delivered u c).sent ≡ update u ∷ c.sent
        → Delivery id c u
    passed_over : delivered u c ≡ c → (c.in_group ≡ false) ⊎ (id ≢ u.portfolio_id) → Delivery id c u
