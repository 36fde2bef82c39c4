-- ===== src/Lib.antt =====
-- Verification of ZenithPanel's backend: a panel for the Xray and sing-box proxies.
--
-- The parts modelled, and the files of the repository that they stand for:
--   Ticket              backend/internal/service/terminal/ticket.go (one-time terminal tickets)
--   Access.Scopes       backend/internal/api/middleware/scope_authorization.go and HasScope of
--                       auth_middleware.go (what an API token may call)
--   Access.ApiToken     backend/internal/pkg/apitoken/apitoken.go and api/api_tokens.go
--   Access.Jwt          backend/internal/pkg/jwtutil/jwtutil.go (session and setup tokens)
--   Access.Auth         backend/internal/api/middleware: auth_middleware.go, jwt_middleware.go and
--                       setup_middleware.go (who a request comes from)
--   Access.Api          both middlewares one behind the other (api/router.go)
--   Access.Login        backend/internal/api/router.go: the lock of an address, recovery codes, the
--                       handlers of both logins
--   Access.Sessions     backend/internal/api: admin_sessions.go, and the handlers of
--                       security_routes.go and router.go that refresh or end sessions
--   Monitor.History     backend/internal/service/monitor/history.go (the ring of network samples)
--   Proxy.RingBuffer    backend/internal/service/proxy/core.go: ringBuffer (an engine's output)
--   Proxy.Identity      backend/internal/service/proxy/client_identity.go and identity.go (the
--                       names of clients inside the engines)
--   Proxy.Runtime       backend/internal/service/proxy/runtime.go: transitionRuntime; its Adapter is
--                       engineAdapter over BaseCore (core.go), an implementation of the interface
--                       Engine that meets the laws in Stages.Reliable
--   Traffic.Accountant  backend/internal/service/traffic/accountant.go: xrayDeltas and
--   Traffic.Xray        applyDeltasWithPersist, then flushXray with the stored baseline
--   Traffic.Clash       backend/internal/service/traffic/proxy_users.go: the aggregator of sing-box's
--                       connection snapshots, and flushSingbox of accountant.go
--   Traffic.Egress      backend/internal/service/traffic/egress.go: Add and Flush of the egress log
--   Traffic.Rollup      the same file: RollupOnce, which sums its hours
--   Deploy.Preset       backend/internal/service/deploy/preset.go (plans) with the types of types.go
--   Deploy.Orchestrator backend/internal/service/deploy/orchestrator.go: one operation at a time,
--   Deploy.Pipeline     then Apply and Rollback
--   Deploy.Deployer     dbInboundDeployer of the same file, an implementation of the interface Host
--   Model               the rows of backend/internal/model/proxy.go
--   Common              lists, byte strings, results, association lists and decimal numbers
--
-- How they interact: Proxy.Identity gives the names under which Traffic.Accountant finds a
-- client's row; Traffic.Xray hands growth since the baseline to Traffic.Accountant, and
-- Traffic.Clash keeps bytes until a flush has charged them; Deploy.Pipeline runs a plan of
-- Deploy.Preset over the interface Host. Traffic.Egress takes what Traffic.Clash has drained.
-- Access.Login signs in with the tokens of Access.Jwt, Access.Auth holds them against the
-- administrators' rows that Access.Sessions changes, and Access.Api asks Access.Scopes.
--
-- State is passed explicitly. Strings are lists of bytes, Go maps are association lists in the order
-- of a loop over them, unsigned counters wrap at 2 ^ 64 where the source adds them, and errors are
-- values. A mutex held over a method makes the method one step. What the code asks of the operating
-- system, the database, the clock, the random source, SHA-256, floating-point arithmetic and the
-- JSON coder is a parameter or a field of a record of answers, so that every call may fail.
--
-- The loops recur on their lists. Two run on fuel. The decimal printer has the number plus one, and a
-- number has no more digits than that. The flush of the egress log has one round for each key that
-- waits or is drained, and one more: enough where no Add comes between the rounds, since every round
-- but the last takes a key. The rollup's loop
-- counts its hours.
--
-- Not modelled: HTTP routes, generated configurations and subscriptions, the probes of the host,
-- the firewall, certificates, the updater, the command line and the web frontend, since they are
-- input and output or text; the rows and rates for the screen in proxy_users.go; the external
-- runtime transition and the status of ApplyRuntime in runtime.go; the pruning of the egress log; the tuning operations
-- that a deployment asks the host for; cookies, rate limiters and the completion of the setup.
pub mod Access
pub mod Common
pub mod Deploy
pub mod Model
pub mod Monitor
pub mod Proxy
pub mod Ticket
pub mod Traffic
