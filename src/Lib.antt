-- ===== src/Lib.antt =====
-- A model of the core of this repository, an application scaffold on FastAPI, and its theorems.
--
-- The program is a set of hosts (HTTP, worker, scheduler, console) over shared parts. Modelled are
-- the user context (accounts, logins, sessions), the limits on logins and on requests, the
-- execution and delivery of queued jobs, the runtime of the hosts, their shared resources, the
-- responses to exceptions, and pagination. A controller calls a use case; a use case opens a unit
-- of work, a database transaction, and calls the aggregate and the repositories in it; the worker
-- takes messages from a queue, runs the job of each, records final failures and acknowledges.
--
-- The parts and their files:
--   Prelude                 lists, texts as lists of code points, results, actions `S → Result E A × S`
--                           with `do`, and rules for what actions keep (Prelude/Rules)
--   DateTime                `datetime` as microseconds, and `timedelta` added to it
--   Users/Values, Email,    app/contexts/user/domain: values, the aggregate, the session. A method
--   User, Session, Unicode  that mutates returns the new aggregate or an error
--   Users/Errors            the exceptions of the user context
--   Users/Tables, Sql       app/contexts/user/infrastructure/persistence: models and mapper, and the
--                           statements on the two tables with their constraints
--   Users/Transaction       unit_of_work.py: the committed database, what the session sees, and the
--                           rows it has yet to send
--   Users/Conflict          `_resolve_user_conflict_field` of unit_of_work.py for three drivers
--   Users/Repository,       repository.py and session_repository.py; the optimistic lock is in
--   SessionRepository       Users/Repository/Locking
--   Users/Service,          app/contexts/user/application/service.py and dto.py: every use case
--   UserService
--   Users/AuthService,      application/auth_service.py, auth_dto.py, session_token.py: login,
--   Login, Logout           current user, logout
--   Users/LoginAttempts     application/login_attempts.py, as an interface with a state of its own
--   Users/RedisLoginAttempts  infrastructure/security/redis_login_attempts.py with its two scripts, an
--                           implementation of that interface; Counter is what it is to promise
--   Redis                   the commands of a Redis server, a parameter, and decimal texts
--   RateLimit               app/infrastructure/rate_limit with its script, and the middleware
--                           app/interfaces/http/middleware/rate_limit.py
--   Users/Crypto            application/password_hasher.py and the adapters in
--                           infrastructure/security, over pwdlib and SHA-256 as parameters
--   Worker/Policy, Attempts app/infrastructure/queue/policies.py and `run_attempts` of
--                           app/interfaces/worker/executor.py
--   Worker/Failures         app/infrastructure/queue/failed/sql/store.py
--   Worker/Executor         `JobExecutor` of app/interfaces/worker/executor.py
--   Queue/Job, Resolver,    app/infrastructure/queue/job.py and app/interfaces/worker/resolver.py: what a job
--   Binding                 type declares, the catalogue of a worker, and the execution of a message's job
--   Queue/Envelope          app/infrastructure/queue/codecs/envelope_json.py
--   Queue/Dispatcher        app/infrastructure/queue/dispatcher.py, the dispatch and the replay of
--                           manager.py, and the rule on names of app/config/queue.py
--   Runtime                 app/runtime/container.py and lifecycle.py
--   Resources/Lazy          app/infrastructure/resources/lazy.py: the code between two waits as functions,
--                           and a step relation of any number of concurrent calls (Lazy/System)
--   Resources/Closing       app/infrastructure/resources/closing.py
--   Http/Code, Error        app/interfaces/http/shared/response/codes, exceptions/error.py, and the
--                           errors of the user context at the boundary (controllers/v1/users, auth)
--   Http/Render             app/interfaces/http/exceptions/handlers.py and
--                           app/interfaces/http/shared/response/factories/json.py
--   Pagination              app/interfaces/http/shared/pagination.py
--   Examples                concrete data, and each theorem applied to it
--
-- How state and time are modelled. Use cases are actions on the database. What other transactions
-- commit while a use case waits is an argument: while a password is hashed, between the reads and
-- the first write of a transaction, while a login verifies its password, and, in the transaction
-- that stores its session, before the first write and again before the commit. Identifiers, salts,
-- tokens and the time are arguments too. The tables keep their declared constraints, as a database
-- does; what the checks of the use cases add is in Users/UserService/Alone. A UUID is its number.
-- Integers of Python are natural numbers where the code keeps them non-negative; there is no
-- machine-width arithmetic but the upper bound of `datetime`.
--
-- Bounds and fuel. The only loop that does not go over a list is that of `run_attempts`; it goes
-- over the number of tries that the policy allows, as `range` does in the source. A decimal text
-- of `n` is written in `n + 1` turns, each of which takes a digit off. The counts of Redis are
-- signed integers of 64 bits, and Lua's numbers are exact below 2 ^ 53; the theorems say where
-- they rely on it.
--
-- Parameters are what is not in the repository: Unicode's tables, pwdlib, hashlib, the errors of
-- the database drivers, uuid5, JSON with pydantic, base64, the backends of the queue,
-- `str.isdigit`, and the codecs and handlers of jobs. Their laws stand in the records Unicode,
-- Crypto, Json and Documented (of Redis). The codec of envelopes and the resolver of job types,
-- which `JobExecutor` is given, are parameters as well, with no law.
--
-- Not modelled: a rollback or a close that fails, logging, the bound on concurrent hashing, a
-- cancellation in the delay between two tries, a command of Redis that fails on its connection;
-- the consumers and the closing of the queue manager, the drivers, the cache, the vector stores,
-- outbound HTTP, the controllers, schemas and event streams of the HTTP interface, the console,
-- the scheduler, database wiring, configuration and start-up.
pub mod Prelude
pub mod DateTime
pub mod Pagination
pub mod Worker
pub mod Redis
pub mod Http
pub mod Queue
pub mod RateLimit
pub mod Users
pub mod Resources
pub mod Runtime
pub mod Examples
