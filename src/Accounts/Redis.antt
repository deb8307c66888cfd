-- ===== src/Accounts/Redis.antt =====
-- The Redis server that holds the revoked tokens: a state that is outside, with the two commands that
-- the code sends and what Redis documents of them. Times are whole seconds.
use djaskt_trading_app.Prelude.{ℕ, ◌+◌, ◌≤◌, ◌<◌, ◌≡◌, ◌≢◌, Option, none, some}

-- `deny:{jti}` and `logout_all:{user_id}`: two templates whose keys never coincide. A token id is a
-- UUID, which is only compared.
pub data Key : Type 0 where
  deny_key logout_all_key : ℕ → Key

-- A value is the text of a number, written by `str` and read by `int`: it stands for the number.
pub record Redis : Type 1 where
  pub State : Type 0
  -- `SET key value EX ttl` at a time
  pub set_ex : Key → ℕ → ℕ → ℕ → State → State
  -- `GET key` at a time
  pub get : Key → ℕ → State → Option ℕ
  pub get-set_ex :
      (k : Key) (v ttl now later : ℕ) (s : State)
      → now ≤ later
      → later < now + ttl
      → get k later (set_ex k v ttl now s) ≡ some v
  pub get-set_ex_expired :
      (k : Key) (v ttl now later : ℕ) (s : State)
      → now + ttl ≤ later
      → get k later (set_ex k v ttl now s) ≡ none
  pub get-set_ex_ne :
      (k k' : Key) (v ttl now later : ℕ) (s : State)
      → k ≢ k'
      → get k' later (set_ex k v ttl now s) ≡ get k' later s
