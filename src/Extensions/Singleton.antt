-- ===== src/Extensions/Singleton.antt =====
-- extensions/redis_client.py: `RedisClientManager.get_client`, called by any number of threads, each of which is
-- stopped and resumed between any two accesses to what they share.
pub mod Once
pub mod Alone
use djaskt_trading_app.Prelude.{
  ℕ, zero, suc, ◌==◌, Bool, true, false, Option, none, some, List, [], ◌∷◌, if◌then◌else◌,
}

-- Where a call stands: before the first test, waiting for the lock, before the second test, past it with no client found,
-- before the lock is released, before the last read, and returned.
pub data Point : Type 0 where
  begin waiting inside building leaving reading : Point
  returned : Option ℕ → Point

-- `_client`, the number of clients that `from_url` has built, which also tells them apart, and the thread that holds
-- `_client_lock`.
pub record Shared : Type 0 where
  pub client : Option ℕ
  pub built : ℕ
  pub holder : Option ℕ

abbrev pub after_first_test : Option ℕ → Point
after_first_test none = waiting
after_first_test (some c) = reading

abbrev pub after_second_test : Option ℕ → Point
after_second_test none = building
after_second_test (some c) = leaving

unfoldable pub acquire : ℕ → Option ℕ → Shared → Shared × Point
acquire t none s = (record s { holder = some t }, inside)
acquire t (some u) s = (s, waiting)

-- The next access of thread `t`.
unfoldable pub advance : ℕ → Shared → Point → Shared × Point
advance t s begin = (s, after_first_test s.client)
advance t s waiting = acquire t s.holder s
advance t s inside = (s, after_second_test s.client)
advance t s building = (record s { client = some s.built; built = suc s.built }, leaving)
advance t s leaving = (record s { holder = none }, reading)
advance t s reading = (s, returned s.client)
advance t s (returned o) = (s, returned o)

pub record System : Type 0 where
  pub shared : Shared
  pub point : ℕ → Point

abbrev pub put_point : ℕ → Point → (ℕ → Point) → ℕ → Point
put_point t p f u = if u == t then p else f u

abbrev pub moved : ℕ → (ℕ → Point) → Shared × Point → System
moved t f (s, p) = record { shared = s; point = put_point t p f }

unfoldable pub step : ℕ → System → System
step t x = moved t x.point (advance t x.shared (x.point t))

-- The threads in the order in which they move.
unfoldable pub run : List ℕ → System → System
run [] x = x
run (t ∷ schedule) x = run schedule (step t x)

-- After `__init__`: nothing is built.
abbrev pub initial : System
initial = record { shared = record { client = none; built = 0; holder = none }; point = λ u. begin }
