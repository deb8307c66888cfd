-- ===== src/Accounts/Overlap.antt =====
-- accounts/api.py: `refresh` called by any number of requests at once. A call runs in two pieces: it asks
-- the denylist for the token's id, and it denies the id and makes the new tokens.
pub mod Moves
pub mod Once
pub mod Reuse
use djaskt_trading_app.Prelude.{
  ℕ, String, ◌+◌, ◌==◌, Bool, true, false, Option, none, some, List, [], ◌∷◌, if◌then◌else◌,
}
use djaskt_trading_app.Prelude.Action.{Result, ok, err}
use djaskt_trading_app.Accounts.Redis.{Redis}
use djaskt_trading_app.Accounts.Denylist.{is_denied}
use djaskt_trading_app.Accounts.Auth.{User, Claims, Jwt}
use djaskt_trading_app.Accounts.Api.{
  Issuer, Tokens, ApiError, key_error, Response, unauthorized_401, seconds, rotate,
}

-- Where a call stands: before it asks the denylist, after it was told that the id is not denied, and
-- at its end.
pub data Point : Type 0 where
  waiting : String → Point
  cleared : ℕ → Claims → Point
  answered : Result ApiError (Response Tokens) → Point

-- `issuer` gives the issuer of each call, by its number.
module _ (jwt : Jwt) (issuer : ℕ → Issuer) (redis : Redis) (users : List User) where
  unfoldable pub asked : ℕ → Option ℕ → Claims → redis.State → Point
  asked now none old s = answered (err key_error)
  asked now (some old_jti) old s =
      if is_denied redis old_jti (seconds now) s
      then answered (ok unauthorized_401)
      else cleared old_jti old

  unfoldable pub ask : ℕ → Option Claims → redis.State → Point
  ask now none s = answered (ok unauthorized_401)
  ask now (some old) s = asked now old.jti old s

  abbrev pub ended : Result ApiError (Response Tokens) × redis.State → Point × redis.State
  ended (r, s) = (answered r, s)

  -- The next piece of call `i`, at a moment.
  unfoldable pub advance : ℕ → ℕ → Point → redis.State → Point × redis.State
  advance i now (waiting token) s = (ask now (jwt.refresh_token token (seconds now)) s, s)
  advance i now (cleared old_jti old) s =
      ended (rotate jwt (issuer i) redis users now old_jti old s)
  advance i now (answered r) s = (answered r, s)

  pub record System : Type 0 where
    pub state : redis.State
    pub clock : ℕ
    pub point : ℕ → Point

  abbrev pub put_point : ℕ → Point → (ℕ → Point) → ℕ → Point
  put_point i p f j = if j == i then p else f j

  abbrev pub moved : ℕ → ℕ → (ℕ → Point) → Point × redis.State → System
  moved now i f (p, s) = record { state = s; clock = now; point = put_point i p f }

  -- Call `i` goes one piece further, some time later.
  unfoldable pub step : ℕ → ℕ → System → System
  step i delay x =
      moved (x.clock + delay) i x.point (advance i (x.clock + delay) (x.point i) x.state)

  -- A schedule names the calls in the order in which they go on, and the time before each move.
  unfoldable pub run : List (ℕ × ℕ) → System → System
  run [] x = x
  run ((i, delay) ∷ schedule) x = run schedule (step i delay x)

  -- Every call before its first piece, with the token that it was sent.
  abbrev pub start : redis.State → ℕ → (ℕ → String) → System
  start s clock token_of = record { state = s; clock = clock; point = λ k. waiting (token_of k) }
