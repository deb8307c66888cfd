-- ===== src/Lib.antt =====
-- A paper-trading application: users hold cash and positions in a ledger, trade at prices that a feed
-- puts in Redis, and are authenticated by tokens that can be revoked.
--
-- The parts. A request to the ledger passes the authentication (backend/django/ledger/api/auth.py), which asks
-- the denylist (extensions/token_denylist.py), then the endpoint (ledger/api/router.py), which finds the
-- user's portfolio and calls the orchestrator (ledger/services/main_service.py). That one runs the trade or
-- the cash service (trade_service.py, cash_service.py beside it), each a look-up of the idempotency key and
-- then one database transaction, and broadcasts what a fresh call has committed. The account endpoints
-- (accounts/api.py) make users with their portfolios, give out tokens and revoke them. The broker endpoints
-- (brokerage/api/router.py) link a user to a broker, and log in there with that broker's strategy; the session
-- that the broker issues is kept in Redis until midnight in India.
--
-- Where each is modelled, with the paths under backend/django:
--   Prelude         an action over a state that may raise, the rollback of transaction.atomic(), tables
--                   as lists, and integers over the native numbers
--   Decimal         the decimals of Python in the default context: 28 digits, rounding half to even
--   Ledger/Models   ledger/models.py and ledger/exceptions.py: the rows and the tables (Db)
--   Ledger/Column   what the services rely on in a numeric column of 19 digits and 4 places
--   Ledger/Price    ledger/services/price_service.py: get_live_price
--   Ledger/Trade    ledger/services/trade_service.py: execute_trade, in two parts, the checks and
--                   the block under the transaction (trade_block)
--   Ledger/Cash     ledger/services/cash_service.py: apply_transfer and transfer_block
--   Ledger/Invariant, Ledger/History
--                   the well-formedness of the tables, and the balances that the entries add up to
--   Ledger/Orchestrator
--                   ledger/services/main_service.py and authorization.py
--   Ledger/Listing  the trade histories of ledger/api/router.py and ledger/realtime/consumers.py
--   Ledger/Api      ledger/api/router.py and the validators of ledger/api/schemas.py
--   Ledger/Isolation
--                   what one user sees of the ledger while another one uses it
--   Accounts/Redis, Accounts/Denylist
--                   extensions/token_denylist.py, over an interface to Redis with its laws
--   Accounts/Auth   ledger/api/auth.py, over an interface to ninja_jwt with its laws
--   Accounts/Lifetime
--                   the lifetimes of access tokens and of broker sessions (brokerage/services/session_cache.py)
--   Accounts/Api, Accounts/Signup
--                   accounts/api.py and the manager of accounts/models.py
--   Accounts/Login, Accounts/Superuser
--                   accounts/api.py: login, with what is read of the token it gives; and the other ways in
--                   which accounts/models.py makes an account
--   Accounts/Overlap
--                   accounts/api.py: refresh again, cut into the pieces between which other calls can run
--   Realtime        ledger/realtime/: authenticate_first_message, and PortfolioConsumer as a step
--                   relation in which the timeout and other tasks come in at any await; and how an update
--                   of main_service.py meets the connections (Delivery)
--   Ledger/Overlap  the services again, cut into the pieces between which other calls can run
--   Brokerage       brokerage/: the tables (Models), what is sent to a broker and how its reply is parsed
--                   (Strategy: strategies/base.py and angel_one.py), the sessions in Redis (Cache), login and
--                   logout with the cooldown (Orchestrator), and the endpoints (Links, Api, Schemas)
--   Extensions/Vault
--                   extensions/vault.py: the lazy login and the fetch of a secret with its one retry
--   Extensions/Singleton
--                   extensions/redis_client.py: get_client, run by any number of threads
--   Extensions/Context, Extensions/Logger
--                   middlewares/request_log_context.py with extensions/log_context.py, and the shape that
--                   extensions/logger.py gives a log record
--   Extensions/Logging, Extensions/Health
--                   configure_logging of extensions/logger.py, and the probes of extensions/health.py and
--                   django_app/health.py
--   Settings        django_app/settings.py: where the secrets come from
--   Application     the requests that write, each behind the authentication, one after the other
--   Tests           concrete columns, tables, tokens and runs
--
-- Money and quantities in a table are whole ten-thousandths; in memory they are decimals. Ids, keys and
-- token ids are UUIDs, which are only compared, and stand as numbers. No definition needs fuel: the loops
-- go along a list, and the digits of a number are counted on the number itself.
--
-- Outside, and so a parameter: Redis, ninja_jwt, the channel layer, the JSON and decimal parsers, upper
-- case and stripping, new ids and the clock, the brokers' replies to a request, the Vault SDK, django-environ, and
-- how the database rounds a decimal into a column. What ninja_jwt makes for one call, its random token ids included,
-- is that call's own issuer. The code under the request middleware may change a world that the middleware does not
-- know. A websocket connection has two predicates: the texts that its client sends, and the moments, each with the
-- users, the time, the denylist and the tables, at which its handlers look things up.
--
-- Not modelled: what is logged where, pagination, the serialisation of answers, the
-- password check, the admin site, the lock of Vault's login, the construction of the two singletons, and the
-- settings that are constants. The row locks appear as the block under a transaction being one piece of a call.
pub mod Prelude
pub mod Decimal
pub mod Ledger
pub mod Accounts
pub mod Realtime
pub mod Brokerage
pub mod Extensions
pub mod Settings
pub mod Application
pub mod Tests
