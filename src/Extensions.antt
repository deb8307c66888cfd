-- ===== src/Extensions.antt =====
-- backend/django/extensions/, less the token denylist, which is with the accounts.
pub mod Vault
pub mod Singleton
pub mod Context
pub mod Logger
pub mod Logging
pub mod Health
