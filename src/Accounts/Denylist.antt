-- ===== src/Accounts/Denylist.antt =====
-- extensions/token_denylist.py: `TokenDenylist`.
pub mod History
use djaskt_trading_app.Prelude.{
  ℕ, ◌-◌, ◌*◌, Bool, true, false, Option, none, some, leb, if◌then◌else◌,
}
use djaskt_trading_app.Accounts.Redis.{Redis, Key, deny_key, logout_all_key}

abbrev pub user_cutoff_ttl_seconds : ℕ
user_cutoff_ttl_seconds = 7 * 24 * 60 * 60

-- `EXISTS key`
abbrev pub exists : Option ℕ → Bool
exists none = false
exists (some _) = true

-- `issued_at <= int(cutoff)`, with no cutoff before it
unfoldable pub at_or_before : ℕ → Option ℕ → Bool
at_or_before issued_at none = false
at_or_before issued_at (some cutoff) = leb issued_at cutoff

module _ (redis : Redis) where
  -- The time to live is a remaining lifetime: where that is negative it is 0 here, and neither is set.
  unfoldable pub deny : ℕ → ℕ → ℕ → redis.State → redis.State
  deny jti ttl_seconds now s =
      if leb ttl_seconds 0 then s else redis.set_ex (deny_key jti) 1 ttl_seconds now s

  unfoldable pub is_denied : ℕ → ℕ → redis.State → Bool
  is_denied jti now s = exists (redis.get (deny_key jti) now s)

  unfoldable pub deny_all_for_user : ℕ → ℕ → ℕ → redis.State → redis.State
  deny_all_for_user user_id cutoff_timestamp now s =
      redis.set_ex (logout_all_key user_id) cutoff_timestamp user_cutoff_ttl_seconds now s

  unfoldable pub is_denied_for_user : ℕ → ℕ → ℕ → redis.State → Bool
  is_denied_for_user user_id issued_at now s =
      at_or_before issued_at (redis.get (logout_all_key user_id) now s)
