-- ===== src/Accounts/Lifetime.antt =====
-- accounts/api.py: `_seconds_until_utc_midnight`; brokerage/services/session_cache.py:
-- `seconds_until_ist_midnight`. A moment is a number of microseconds since 1970 in UTC, where every day
-- has the same length and midnights are the multiples of it. Indian time is 5:30 h ahead all year.
use djaskt_trading_app.Prelude.{
  ℕ, ◌+◌, ◌-◌, ◌*◌, ◌/◌, ◌%◌, ◌≤◌, ◌<◌, ◌≡◌, arith, leb, if◌then◌else◌,
}

abbrev pub second : ℕ
second = 1_000_000

abbrev pub day : ℕ
day = 86_400_000_000

abbrev ist_offset : ℕ
ist_offset = 19_800_000_000

abbrev min : ℕ → ℕ → ℕ
min a b = if leb a b then a else b

-- `replace(hour=0, minute=0, second=0, microsecond=0)`
abbrev start_of_day : ℕ → ℕ
start_of_day t = t / day * day

unfoldable pub seconds_until_utc_midnight : ℕ → ℕ
seconds_until_utc_midnight now =
    let tomorrow = now + day in let midnight = start_of_day tomorrow in min (midnight - now) day

unfoldable pub seconds_until_ist_midnight : ℕ → ℕ
seconds_until_ist_midnight now =
    let now_ist = now + ist_offset in
    let next_midnight_ist = start_of_day (now_ist + day) in next_midnight_ist - now_ist

-- What is left until the next start of a day.
next_midnight :
    (t : ℕ)
    → (start_of_day (t + day) - t ≤ day)
      × (t < start_of_day (t + day))
      × ((t + (start_of_day (t + day) - t)) % day ≡ 0)
next_midnight t = (omega arith, omega arith, omega arith)

-- The lifetime of an access token is positive and at most 24 hours, and ends at a midnight of UTC.
pub seconds_until_utc_midnight_lem :
    (now : ℕ)
    → (0 < seconds_until_utc_midnight now)
      × (seconds_until_utc_midnight now ≤ day)
      × ((now + seconds_until_utc_midnight now) % day ≡ 0)
unfolding seconds_until_utc_midnight
seconds_until_utc_midnight_lem now = (ground arith, ground arith, ground arith)

-- A broker session lasts to the next midnight of Indian time, whose offset from UTC is 19,800 s.
pub ist_midnight :
    (now midnight : ℕ)
    → now < midnight
    → midnight ≤ now + 86_400_000_000
    → (midnight + 19_800_000_000) % 86_400_000_000 ≡ 0
    → now + seconds_until_ist_midnight now ≡ midnight
unfolding seconds_until_ist_midnight
ist_midnight now midnight a b c = omega arith

-- The lifetime of a broker session is positive and at most 24 hours, and ends at a midnight of Indian time.
pub seconds_until_ist_midnight_lem :
    (now : ℕ)
    → (0 < seconds_until_ist_midnight now)
      × (seconds_until_ist_midnight now ≤ day)
      × ((now + ist_offset + seconds_until_ist_midnight now) % day ≡ 0)
unfolding seconds_until_ist_midnight
seconds_until_ist_midnight_lem now = (omega arith, omega arith, omega arith)
