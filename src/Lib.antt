-- ===== src/Lib.antt =====
-- better-ccflare: a proxy that spreads requests to Claude and compatible APIs over a pool of
-- accounts. This library models the program's own decisions in functions, step by step as the code
-- takes them.
--
-- The parts, and how they meet. A request's path is screened (crates/core/src/path_validator.rs,
-- RequestPath) and the middleware decides whether it may pass (crates/proxy/src/auth.rs: Auth.Paths
-- for its path and credentials, Auth.Keys for the check of its API key and the caches,
-- Auth.Middleware); its API key is held to a number of requests per minute
-- (crates/core/src/rate_limit.rs, Limiter). The load balancer (crates/load-balancer/src/lib.rs,
-- Balancer) puts the accounts in order; it asks which accounts may be routed to
-- (crates/core/src/account_eligibility.rs, Eligibility), which in turn reads the account and its
-- usage (crates/core/src/types.rs, Account) and the table of providers
-- (crates/core/src/providers.rs, Provider). The whole way of a request through `proxy_handler` of
-- crates/proxy/src/proxy.rs, its refusals included, is Router.proxy_request, with the call of one
-- account, the cached accounts and the semaphore as what they answer. The handler tries the
-- accounts in that order (try_accounts_in_order of crates/proxy/src/handler.rs, Failover). Before
-- each attempt the token manager finds a token (crates/proxy/src/token_manager.rs, Tokens), with
-- the health of refresh tokens in its error texts (crates/proxy/src/token_health.rs, Health; the
-- report of crates/providers/src/token_health.rs is Report). The provider crate has a token manager
-- of its own (crates/providers/src/token_manager.rs, Refresher). The answer streams to the client
-- while a copy is kept for analytics (crates/proxy/src/streaming.rs: Streaming.Buffer,
-- Streaming.Tee, and the parser of server-sent events Streaming.Sse). What is to be stored goes
-- through a queue that a task flushes in batches (crates/database/src/async_writer.rs, Writer); a
-- busy database is tried again (crates/database/src/retry.rs, Retry). The capacity of each account
-- is estimated from its requests and from polls of its usage (crates/proxy/src/xfactor/state.rs:
-- XFactor for the state and its window, XFactor.Posterior for polls and the Kalman filter,
-- XFactor.Queries for what is read off; crates/proxy/src/xfactor/mod.rs, XFactor.Cache). The
-- provider crate polls the usage of the accounts (crates/providers/src/usage_polling.rs: Polling
-- for the data, the cache and the highest utilization, Polling.Service for the loops, their waits
-- and the renewal of a token), and the proxy starts new sessions at the end of a usage window
-- (crates/proxy/src/auto_refresh.rs, AutoRefresh). The command line suggests names by edit distance
-- (crates/cli/src/levenshtein.rs, Levenshtein).
--
-- State and operations. Each component is a record of the source's fields with one function per
-- method; a method that changes its object takes the state and returns it with what the source
-- returns. `SessionStrategy::select` is `Balancer.select`, which falls through its four ways of
-- choosing as an `Option`, the last of which always answers. The maps of the source are functions
-- from their keys, or lists of entries (Base.Maps) where their size or their order matters. Times
-- are milliseconds handed in, and a mutex makes a call one step; a token refresh is two steps,
-- before and after its lock, with a parameter for what other tasks do in between. The provider, the
-- database, the upstream call, the sender's half of the channel and the channel's events are
-- parameters or lists of events. Messages for people are data types that keep what is printed in
-- them.
--
-- Numbers. `i64` values are integers without bounds, with saturation written where the source
-- saturates; `usize` and `u64` counters wrap at 2 ^ 64 and `u32` counters at 2 ^ 32. An `f64`
-- percentage is its exact value as a multiple of 2 ^ -1074, with infinities and NaN, and its
-- arithmetic rounds each exact result to the nearest double, ties to even (Base.Double); negative
-- zero is not told from zero. Logarithm, exponential and square root of the system's library are
-- parameters. Where one crate divides integers and another doubles, both are modelled as they are
-- (Report, Health). Texts are code points or bytes.
--
-- Loops and fuel. `Streaming.Sse.feed_loop` runs on one more than the bytes in its buffer, since
-- each round takes a line feed out; `Writer.flush_loop` on one more than the events, since each
-- round but the last takes one. The search for the length of a number in Base.Double takes fixed
-- steps that cover 2 ^ 2100, past the largest double. `Polling.Service.oauth_loop` runs on a number
-- of rounds: two are enough where the renewed token is accepted, and the source bounds them by
-- nothing where it never is. The other loops are structural, `Retry.retry_loop` on the attempts
-- that are left, and the decoding of paths has its eight rounds.
--
-- Not modelled: HTTP input and output, SQL, the dashboard, the command line but for the distance,
-- OAuth exchanges, JSON bodies (filtering, usage extraction, the bodies of usage polls), prices,
-- the translation of OpenAI streams, configuration, file system paths. They are input and output,
-- or rest on code of others.
--
-- Base holds what the modules share: tests and lists over native numbers, signed integers, doubles
-- and what holds of their arithmetic, stable sorting, maps, texts. Examples applies the theorems to
-- concrete accounts, requests and streams.
pub mod Base
pub mod Provider
pub mod Refresher
pub mod AutoRefresh
pub mod Polling
pub mod Auth
pub mod Retry
pub mod XFactor
pub mod Account
pub mod Eligibility
pub mod Balancer
pub mod Limiter
pub mod Streaming
pub mod Failover
pub mod Health
pub mod Tokens
pub mod Writer
pub mod Report
pub mod RequestPath
pub mod Levenshtein
pub mod Examples
pub mod Router
