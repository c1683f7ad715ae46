-- ===== src/Lib.antt =====
-- A billing and control service for internet providers who run MikroTik routers: customers pay for
-- packages by mobile money at a router's portal, and the service opens their access on that router.
--
-- The parts of the program, and the files that model them:
--
-- - database/models.py and database/crud.py: the tables and their queries. Models has one record
--   for each table, `Db` for the tables together and `constraints_hold` for the uniqueness that the
--   schema declares. Crud has the queries and the insertions, under the names of the source.
-- - database/session.py: World. `World` holds what is committed (`db`), the working copy of the open
--   session (`session`), the time, and the calls made so far. A service is an action on it (`App`)
--   that returns or raises (`Exn`); what was written before an exception stays written in the working
--   copy. `with_session` opens and closes a session, `flush` checks the uniqueness, `commit`
--   publishes the working copy, `rollback` drops it.
-- - services/payment_service.py: Payments. Open and Start have `create_public_payment` in transactions,
--   Callbacks the two webhooks, Complete `complete_payment` with the manual retry, Poll the polling by
--   the customer, the reconciliation and the expiry, Respond and Reports what is shown of a session.
--   Ledger is about all of them together: `Step` has one constructor for each transaction and one for
--   what happens outside the service, and a `Run` is a sequence of steps.
-- - services/payment_providers.py and the phone numbers of security.py: Providers.
-- - services/access_service.py: Access. Rows and Customers keep the accounts, Paid opens the access
--   that was paid for, Cleanup removes what was prepared for a payment that failed.
-- - services/mikrotik_service.py and the secrets of security.py: Mikrotik. A router is a function
--   `respond` from the calls made so far to the answer of the next; Api has the connection, Users the
--   accounts, Traffic the monitoring, Duration `routeros_duration`, Portal the refresh of the managed
--   login page.
-- - services/router_service.py: Routers. Deletion has the transaction and the calls of the agent around
--   it, Legacy the migration of plain-text credentials. services/package_service.py: Packages.
--   services/maintenance_service.py: Maintenance. services/active_users_service.py: ActiveUsers.
--   services/logs_service.py: LogService. jobs.py: Jobs.
-- - services/onboarding_service.py: Onboarding. Texts has the quoting and the addresses, Page and Script
--   the texts sent to a router, Creation `create_onboarding` with its undoing and the refresh of the
--   portal, Undone what a failure leaves behind, Peers the peer that it asks the agent for, and
--   Onboarding itself the download, the expiry and the claim.
-- - settings.py: Settings. `Os` stands for the environment's variables, `validate` has the checks of a
--   production configuration, and Load `get_settings`.
-- - mono.py: Auth, the operators, their sign-in and their tokens, and Routes, the handlers that do more
--   than call one service, with the guards of a router's routes (`serve_router_route`), the start-up
--   and the identifier of a request.
-- - vpn_agent/agent.py: Agent. Store is the file of L2TP peers, Nonces the cache against replays,
--   Requests the handling of one request, Refinement the map that the file stands for.
--   services/vpn_agent_service.py, the agent's client: AgentClient.
--
-- How they interact: Payments calls Providers for the money, Access for the account and Crud for the
-- rows; Access and Maintenance call Mikrotik; Routers, Packages and Onboarding share the tables.
-- Onboarding and the deletion of a router ask the agent through AgentClient, Jobs calls Payments,
-- Maintenance, Access and Onboarding in each round, and Routes stands in front of the services. The
-- agent is a program of its own: what it answers to its client is the function `agent` of `Env`.
--
-- What the model leaves to parameters: hashes, encryption, JSON texts, random values, host names,
-- addresses, the splitting of URLs, HTTP, the agent's socket and the routers are functions of `Env`,
-- of which nothing is assumed. A JWT comes in as the claims that decoding gives. The agent's
-- `shlex.split` and its address texts are functions of `PeerStore`. How RouterOS reads a quoted text is
-- an argument of the theorem on quoting, with what its manual says of the escapes as the hypothesis.
--
-- Choices of the model: a `DateTime` is a number of seconds and does not change within one request;
-- a price is a number of cents, as its column has two decimals; a row's key and its random columns
-- come from a counter of draws. Numbers among the environment's variables are not negative, and its
-- timeouts are in microseconds. A table is a list in the order of insertion. Each transaction of a
-- service is an action of its own, so that other requests may come between two of them; the two
-- tasks that `create_public_payment` starts at once run one after the other. Whether a router answers
-- within the time limit of a route is an argument (`in_time`). A row gets a new `updated_at` when a
-- column that the services assign has changed. `lower`, `isdigit` and `strip` are those of ASCII
-- texts. Every loop runs over a list, a text or the addresses of a range, and the worker of jobs.py,
-- which never ends, makes a number of rounds that is its argument. Only `show_number` in Prelude/Text
-- uses fuel, one more than the number it writes: a number has no more digits than its value, or one.
--
-- Not modelled: the functions of database/crud.py that nothing calls (`create_ppp_user`,
-- `create_payment`, `update_router`, `delete_router`), foreign keys, FastAPI's routing, its
-- middleware and its exception handlers, the validation of requests by pydantic (schemas.py), the
-- opening and closing of sockets, the signature of what the agent's client sends, the agent's
-- server, migrations and web pages.
pub mod Prelude
pub mod Models
pub mod Settings
pub mod World
pub mod Crud
pub mod Mikrotik
pub mod Access
pub mod Providers
pub mod Payments
pub mod Maintenance
pub mod Auth
pub mod Agent
pub mod Packages
pub mod Routers
pub mod Onboarding
pub mod AgentClient
pub mod ActiveUsers
pub mod LogService
pub mod Jobs
pub mod Routes
mod Tests
