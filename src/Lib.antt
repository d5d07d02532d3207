-- ===== src/Lib.antt =====
-- The Redis bridge: an HTTP gateway that lets authenticated clients run an allowed part of the
-- Redis commands. A request is authenticated against token hashes (auth/, config/), its JSON body
-- is turned into commands under a policy (security/), the commands run on one of the connections of
-- the token's target (app/state.rs, redis/), and the reply is encoded under a size limit
-- (app/response.rs). All paths here are below src/.
--
-- Text.antt models the strings: a string is its list of characters, `lit` turns a literal into one,
-- and Text/Bytes.antt gives the UTF-8 bytes. Of std's string operations it holds those that the
-- modelled code calls. Prelude.antt gathers lists, results, sets and maps (association lists with
-- one entry for each key) over the native numbers; words keep their wrap-around written out.
--
-- Commands.antt holds the tables of commands.rs. Config/Token.antt models the capabilities of a
-- token (config/token.rs: TokenCaps::parse, config_value), Config/Hash.antt the digest of a token
-- (config/hash.rs: hmac_sha256_parse), and Config/Targets.antt with Config/Types.antt the target
-- file (config/targets.rs: parse_file_targets). Config/Env.antt models the readers of environment
-- variables (config/env.rs) and Config/Mode.antt the modes in which targets are loaded
-- (config/targets.rs: load_targets, load_env_target, load_file_targets); std::env::var and reading
-- a file are parameters. Config/Bridge.antt models Bridge::from_env of config/mod.rs, in the stages
-- in which it reads and tests its settings. serde_json, which reads the file and fills in defaults,
-- and the hex decoder are parameters.
--
-- Security.antt and its children model security/: Types.antt the arguments (CommandArg,
-- to_arg_bytes), Deny.antt the hard-denied commands (reject_command, is_denied_command),
-- Script.antt the SCRIPT subcommands (validate_subcommand), Policy.antt the policy
-- (SecurityPolicy::parse_command, parse_command_list, validate). A number of serde_json is a
-- parameter, with the function that prints it. Policy/Accepts.antt says without an order of tests
-- what is accepted. Error messages are values that hold what the messages print.
--
-- Auth/Lockout.antt models auth/lockout.rs: the table of failing addresses (AuthLockout) and the
-- operations record_failure_at, record_success and snapshot_at, each of which runs under the mutex
-- and is one step; `run` is any sequence of them. Instants and durations are numbers, and an event
-- carries its instant.
--
-- Auth/Request.antt models auth/request.rs: bearer_token, bridge_auth, command_auth, realtime_auth,
-- metrics_auth and unauthorized, which pass on the lockout and its metrics as a state. The digests
-- (sha256, hmac_sha256) are parameters. App/Routes.antt models AppState::new of app/state.rs: the
-- targets and the map from token hashes to routes; which connection strings the redis crate takes,
-- and how many permits a semaphore of tokio can have (a larger limit panics), is the parameter
-- `Crates`. Main.antt models the start in main.rs, which puts from_env, AppState::new and
-- start_connection_workers together, with the parser of the bind address and the addresses at which
-- a listener can be bound as parameters; Main/Routes.antt has the table of routes with its layers,
-- and the handler of each route.
--
-- App/Shards.antt models the connection shards of app/state.rs: the slots of RedisTarget,
-- select_ready_shard, connected, disconnected, connection and targets_ready. App/Shards/Worker.antt
-- models maintain_connection: a round of the loop of a supervisor is one step, and `turns` is any
-- interleaving of the rounds of a target's supervisors. What a round observes (the answer to PING,
-- the outcome of dialling) is given. Only the supervisor of a shard changes its slot, so a round is
-- atomic for it; that the counters follow the slot a moment later is not modelled.
--
-- Redis/Value.antt and Redis/Json.antt model redis/value.rs and redis/response.rs: a reply of the
-- redis crate as a data type, and serialize_redis with its helpers, whose result is the value of
-- serde's data model that the serializer is asked for. base64, and what the crates print for a
-- float, are given. Text/Utf8.antt holds the decoder of std that tells texts from other bytes, and
-- Text/Decimal.antt the printing of integers. Redis/Error.antt models redis/error.rs, with a record
-- of what it reads of an error.
--
-- Metrics.antt models metrics/mod.rs, metrics/guard.rs and metrics/connection.rs: a family of
-- counters is a function of its labels, a guard is a value, and its `drop` is a function. It also
-- has what app/state.rs does with the collectors that are labelled by a target. Metrics/Guards.antt
-- has the steps of a program that holds guards, and the ledger that they are compared with.
-- Metrics/Collectors.antt models metrics/collectors.rs and Metrics::new: the name, help text and
-- labels of each collector, and their registration; the collectors and the registry of the
-- prometheus crate are a parameter, with what its documentation says of names.
--
-- Redis/Execute.antt models redis/execute.rs: execute_operation and the three executions on it,
-- with the loop of RedisTarget::connection. A future (Redis/Wait.antt) is ready after some
-- milliseconds with a value, or never; what the semaphore, the redis client and the supervisors do
-- in the meantime is given as such futures. tokio's timeout is the interface `Timer`, an operation
-- with the laws of its documentation.
--
-- App/Handlers.antt models app/handlers.rs: the handlers pass on the authentication and the metrics
-- as a state. command, pipeline and multi_exec share their body there, as their code is the same
-- but for names, parser, execution and reply.
--
-- App/Realtime.antt models app/realtime.rs up to the opening of the stream: validate_channel, and
-- subscribe with its tests in their order, the permit of the realtime semaphore and the setup under
-- the request's timeout. App/Realtime/Stream.antt models the stream from then on: the closure of
-- stream::unfold returns one event, or reconnects and sleeps until it can. What each attempt to
-- reconnect brings is given as a list (the messages of a subscription each come after some time, or
-- never), over which the loop recurs, so that no fuel is needed: when the list is used up, the loop
-- goes on. App/Realtime/Release.antt puts the streams of all clients beside the permits and the
-- gauge, as a step relation.
--
-- Client.antt models client/ and AppState::client_ip: forwarded_ip with the headers it asks,
-- parse_ip_candidate, TrustedProxies and TrustedProxy. The headers are a function from names to
-- values, as the http crate gives them. Net/Parse.antt holds the address parsers of std::net, and
-- Net/Bits.antt the facts on masks; an address is the number of its 32 or 128 bits (Net.antt).
--
-- App/Error.antt and App/Response.antt model app/error.rs and app/response.rs. serde_json is a
-- parameter there: the chunks that it writes, and whether it fails after them.
--
-- The decimal printer of Text/Decimal.antt takes the number plus one as fuel, which bounds its
-- digits. No other definition needs fuel: every loop runs over a list or a text, over a number of
-- shards, groups or octets, over the changes of a target that a request sees, over the attempts to
-- reconnect a stream, or over the number of events that a client takes.
--
-- Not modelled: in main.rs the logging filter, the signals, the loop in which axum serves and the
-- matching of paths; the Debug instances; the rendering of the metrics as text; the panic of an
-- Instant that overflows, and the width of the counters of the authentication, which are natural
-- numbers here. The crates (redis, serde_json, axum, tokio, prometheus) are not part of the
-- repository.
mod Prelude
pub mod Text
pub mod Commands
pub mod Config
pub mod Security
pub mod Net
pub mod Client
pub mod Auth
pub mod Metrics
pub mod App
pub mod Redis
pub mod Main
mod Examples
