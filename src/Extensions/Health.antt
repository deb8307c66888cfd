-- ===== src/Extensions/Health.antt =====
-- extensions/health.py: `check_database` and `check_redis`; django_app/health.py: `liveness` and
-- `readiness`. A database and Redis are outside: a query or a ping passes, or raises an error that the
-- check catches, or raises another one.
use djaskt_trading_app.Prelude.{ℕ, ◌≡◌, ◌&&◌, arith, Bool, true, false, inl, inr, if◌then◌else◌}
use djaskt_trading_app.Prelude.Action.{Result, ok, err, Result-cases}

-- What `SELECT 1` or `ping()` does. `E` is any error but `OperationalError`, or but `RedisError`.
pub data Probe (E : Type 0) : Type 0 where
  passes : Probe E
  answers_no : Probe E
  unreachable : Probe E
  raises : E → Probe E

pub data Alias : Type 0 where
  default replica : Alias

-- The outside at the moment of a request.
pub record Dependencies (E : Type 0) : Type 0 where
  pub connections : Alias → Probe E
  pub redis : Probe E

pub record Checks : Type 0 where
  pub database : Bool
  pub replica : Bool
  pub redis : Bool

-- The status of an answer, and the checks in its body.
pub record Ready : Type 0 where
  pub status_code : ℕ
  pub is_ok : Bool
  pub checks : Checks

abbrev pub all : Checks → Bool
all c = c.database && (c.replica && c.redis)

unfoldable pub answer : Checks → Ready
answer c = record { status_code = if all c then 200 else 503; is_ok = all c; checks = c }

module _ {E : Type 0} where
  -- A query that passes is enough, whatever it answers.
  unfoldable pub check_database : Dependencies E → Alias → Result E Bool
  check_database d alias = elim (d.connections alias) [
    | passes ↦ ok true
    | answers_no ↦ ok true
    | unreachable ↦ ok false
    | raises e ↦ err e
  ]

  -- `bool(ping())`
  unfoldable pub check_redis : Dependencies E → Result E Bool
  check_redis d = elim d.redis [
    | passes ↦ ok true
    | answers_no ↦ ok false
    | unreachable ↦ ok false
    | raises e ↦ err e
  ]

  abbrev pub then_check : Result E Bool → (Bool → Result E Ready) → Result E Ready
  then_check (ok b) f = f b
  then_check (err e) f = err e

  unfoldable pub readiness : Dependencies E → Result E Ready
  readiness d = then_check (check_database d default) (λ database.
      then_check (check_database d Alias.replica) (λ replica.
        then_check (check_redis d) (λ redis.
          ok (answer (record { database = database; replica = replica; redis = redis })))))

  -- A readiness probe that answers says 200 only if both databases took the query and Redis the ping.
  ready_is_reachable :
      (d : Dependencies E) (r : Ready)
      → readiness d ≡ ok r
      → r.status_code ≡ 200
      → (check_database d default ≡ ok true)
        × (check_database d Alias.replica ≡ ok true)
        × (check_redis d ≡ ok true)
  unfolding readiness answer
  ready_is_reachable d r e s = elim (Result-cases (check_database d default)) [
    | inr (x, a) ↦ absurd (ground arith)
    | inl (b, a) ↦ elim (Result-cases (check_database d Alias.replica)) [
      | inr (x, k) ↦ absurd (ground arith)
      | inl (c, k) ↦ elim (Result-cases (check_redis d)) [
        | inr (x, h) ↦ absurd (ground arith)
        | inl (t, h) ↦ (ground arith, ground arith, ground arith)
      ]
    ]
  ]
