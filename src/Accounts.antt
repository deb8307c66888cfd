-- ===== src/Accounts.antt =====
-- accounts/, extensions/token_denylist.py, and the authentication of requests.
pub mod Redis
pub mod Denylist
pub mod Lifetime
pub mod Auth
pub mod Api
pub mod Signup
pub mod Overlap
pub mod Login
pub mod Superuser
