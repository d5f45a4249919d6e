-- ===== src/Lib.antt =====
-- Okapi Copilot backend (src/okapi_copilot): a model of the service's core and theorems about it.
--
-- The service stands between channels (webhooks, the web) and the SaaS products that own the
-- business data. A webhook is verified (VerifyWebhook), then goes through the Input Gateway
-- (ProcessInboundMessage) to become a CONTEXTUALIZED message of a known sender in a conversation.
-- A bearer token is turned into a SecurityContext (ResolveSecurityContext, behind an HTTP
-- dependency), with which the policy engine decides on operations. Messages, requests and
-- conversations move along tables of transitions. The use cases reach the world through ports.
--
-- The files, with the code of src/okapi_copilot that each models:
--   Prelude                shared names, tests, lists and texts (Python's `strip`, `startswith`)
--   Values, Time           `datetime`, `timedelta`, and the values of a `dict[str, object]`
--   Errors                 domain/errors: the classes, and the result of code that may raise
--   Exec                   methods over a state that may raise, as a monad with `do` blocks
--   StateMachine           domain/shared/state_machine.py: `StrEnum`, `ensure_transition_allowed`
--   Request, Message, Conversation
--                          domain/request, domain/messaging, domain/conversation: the records with
--                          `transition_to`; History, Gates, Length and Lives follow
--                          whole lives of an entity
--                          (Request/Intent: intents and constraints)
--   Identity, Channels, Security
--                          domain/identity, domain/channel, domain/security
--   Policy                 domain/policy and infrastructure/policy/default_policy_engine.py: `check`,
--                          `authorize`
--   Gateway                domain/gateway: `verify_webhook_signature`, `validate_webhook_envelope`
--   Ports                  application/ports: a record of a state and operations for each port, and
--                          the promises of the replay guard as laws
--   Redis                  infrastructure/persistence/redis/replay_guard.py, which fills those laws
--   Webhook                application/use_cases/verify_webhook.py: `execute`
--   Resolve                application/use_cases/resolve_security_context.py: `execute`, `narrow`
--   Inbound                application/use_cases/process_inbound_message.py: `execute`, with its
--                          steps `deduplicate`, `identify` and `contextualize`; Keys reads a dedup
--                          key back
--   Http                   interfaces/http: error handlers, the security-context dependency and the
--                          correlation middleware
--   Keycloak               infrastructure/identity/keycloak_identity_provider.py: `verify_token`, the
--                          cache of signing keys; Rotation follows the search for a key,
--                          Strength reads the claims on a second factor
--   Surreal                infrastructure/persistence/surrealdb: Client is client.py (`connect`,
--                          `close`), Rows and Repository are membership_repository.py
--                          (`_row_to_membership`, `list_by_user`)
--   Service                the adapters above put into the ports, behind the HTTP dependency;
--                          Authenticity follows a webhook from VerifyWebhook into the Gateway
--   Observability          infrastructure/observability/logging.py: the pattern of secret keys,
--                          `redact_dict`, the logging filter
--   Settings, App          config/settings.py; main.py, interfaces/http/routers/health.py: what
--                          `create_app` puts together, and an error's answer behind the middleware
--   Tasks                  tasks of one event loop that interleave at their `await`s; Webhook/Tasks,
--                          Inbound/Tasks, Surreal/Client/Tasks and Keycloak/Tasks are the two
--                          `execute`s, `connect` and `_resolve_key`, await by await
--   Tests                  the theorems at concrete inputs, with small ports to run against
--
-- A method that changes a port's state takes the states of the ports as a record (`World`) and
-- returns a result with the states that it leaves; a raise is a value of `Result`, and what was done
-- before it stays done. The clock of a use case is an argument of its `execute`, as is the time at
-- which the store of a replay guard handles a call.
--
-- Times are in microseconds from `datetime.min`, with a mark for a time zone; comparing a time with
-- a zone and one without raises TypeError, as in Python, and a sum past the year 9999 OverflowError,
-- as for values in UTC. Integers are Python's, without bounds; those
-- among the values of a dict are natural numbers. The one fuel is that of the walk
-- through the base classes of an error, 3, which `bases_enough` shows to be enough.
--
-- Taken as parameters: the HMAC digest, the Redis client (with the documented behaviour of SET with
-- NX and EX, for a positive time to live, as a hypothesis), jose and the HTTP client, the package surrealdb (with the rows that the
-- WHERE clause of a query answers as a hypothesis), `datetime.fromisoformat`, `repr`, the text of
-- values that are not texts, what pydantic reads from the environment, floats, the generators of ids.
-- A call that is awaited takes effect at one moment,
-- when its task goes on. Interleaved at their `await`s are the tasks of `VerifyWebhook.execute`, of
-- `ProcessInboundMessage.execute`, of `SurrealDbClient.connect` and of the search for a signing key
-- (`KeycloakIdentityProvider._resolve_key`); elsewhere calls run one after the other.
--
-- Not modelled: FastAPI and Starlette, which route requests, bind headers and call the middleware and
-- the handlers (an answer of a handler comes to the middleware as a hypothesis on `call_next`); which records the
-- logging module hands to the filter; the tests and the build files.
pub mod Prelude
pub mod Values
pub mod Errors
pub mod Surreal
pub mod Settings
pub mod App
pub mod Time
pub mod StateMachine
pub mod Conversation
pub mod Keycloak
pub mod Message
pub mod Request
pub mod Http
pub mod Identity
pub mod Channels
pub mod Inbound
pub mod Security
pub mod Observability
pub mod Policy
pub mod Gateway
pub mod Ports
pub mod Exec
pub mod Tasks
pub mod Redis
pub mod Webhook
pub mod Resolve
pub mod Service
pub mod Tests
