-- ===== src/Lib.antt =====
-- The orchestrator of CAP, the Coding Agent Protocol (crates/cap-rs-orchestrator), and the parts of its
-- drivers that read what agents write (crates/cap-rs).
--
-- A fleet file names sessions, each a coding agent with a driver, and routes between them. The
-- engine validates the file, starts an actor for each session in a git worktree of its own, hands
-- the output of finished sessions to others along the routes, and reports to its consumer. The
-- executor (crates/cap-rs-orchestrator/src/executor.rs) owns the registry of live sessions and the
-- audit log; actors send it events over a bus, and it sends them frames through their inboxes.
--
-- - Prelude: shared names, lists, texts, results, sets and maps of texts, the standard library's
--   parser of IP addresses.
-- - Core: the types of crates/cap-rs/src/core.rs, over a record `Foreign` for JSON values and f64.
-- - Config: crates/cap-rs-orchestrator/src/config.rs. `Config.Names`, `Config.Routes`,
--   `Config.Drivers` and `Config.Cycles` are its functions on names, routes, driver names and the
--   cycle search; `Config.Manifest` is the driver that an agent manifest names
--   (crates/cap-rs/src/manifest.rs); `Config.Validate` is `FleetSpec::validate`. A `BTreeMap` is the list of its entries.
-- - Event, Audit, Registry: event.rs, audit.rs and registry.rs in the same directory. The field
--   `held` of the registry is a ghost list of the worktrees that were created and for which
--   `cleanup` was not called since.
-- - Executor: executor.rs. Each method of `Run` is a function on the record `Run`; the events sent
--   to the consumer are the list `out`. `Executor.Loop.drive` takes the inputs of the `select!` loop
--   as a list, each with the world at the time it arrives: every order in which inputs can arrive
--   is such a list. A run ends as `broke`, or waits for more input as `going`.
-- - Routing: the types of routing.rs. `Routing.Static` is `StaticRouting`, the strategy that follows
--   the routes of the file; `items_of` is the JSON parser that it calls on the lead's items.
--   `Routing.Prompt` is what a language model is asked, `Routing.Llm` reads its answer,
--   and `Routing.Hybrid` is `HybridRouting`.
-- - Base64: the module `base64` of crates/cap-rs/src/core.rs, over the bytes of the text.
-- - Json, Samples: the accessors of JSON values that the sources chain, and documents for the tests.
-- - Pty: crates/cap-rs/src/driver/pty.rs. `Pty.Tui`, `Pty.Repl` and `Pty.Plain` are its four parsers as
--   functions on their state, over a record `Terminal` for vt100; `Pty.Thread` is the thread that runs
--   a parser, on the list of what it receives, where a prompt that the driver sends stands between the
--   chunks; `Pty.Driver` is what `PtyDriver` writes and the environment of its child. `Pty.Texts` has
--   the methods of `str` and of slices that they call.
-- - StreamJson: crates/cap-rs/src/driver/stream_json.rs. `StreamJson` and `StreamJson.Rscode` turn
--   frames into events, `StreamJson.Turns` counts the ends of turns among them, `StreamJson.Reader` is `reader_task` with the driver's `send`, over the list of
--   what happens to both, and `StreamJson.Encode` makes the lines that are sent.
-- - Launch: the builder of stream_json.rs with the arguments that it gives a program, and
--   `Launch.Factory`, crates/cap-rs-orchestrator/src/real_factory.rs: the programs that `build` starts
--   and the addresses that it connects to, in order.
-- - Codex: crates/cap-rs/src/driver/codex.rs, the events of `codex exec --json`. `Codex.Reader` is
--   `reader_task` over the lines of a process, `Codex.Views` is what the consumer can see of an item, and
--   `Codex.Exec` is the driver: a process for each prompt, with its arguments, `send` and `shutdown`.
-- - Rpc: what the two drivers that speak JSON-RPC do alike. Mcp: crates/cap-rs/src/driver/codex_mcp.rs. `Mcp`
--   is the reader over the lines of the server, and `Mcp.Driver` the handshake, `send` and `shutdown`.
--   Acp: crates/cap-rs/src/driver/acp.rs. `Acp` is the reader, with the answers that it writes itself,
--   `Acp.Driver` is `send` and `shutdown` with the choice of the option that answers a decision, and
--   `Acp.Handshake` the handshake of `spawn` over what the reader hands to it. Atomic counters and
--   maps behind a lock that a reader and its driver share are fields of one record.
-- - Session: session.rs. The actor of a session is a machine: a phase for each `select!` expression
--   that it can wait in, and a step for each signal that the expression takes. `offered` is what it
--   gives to `bus_send`, `bus` what gets through while the cancel token is not cancelled, `sent` what
--   its driver is given. `Session.run` takes the signals as a list. The executor's `Registry` keeps
--   what was put into the inbox of each; which of it the actor has taken is the choice of the list.
--
-- The strategy, the driver factory, the worktree manager, the clock, `Url::parse` and the reader of
-- manifest files are parameters: functions on a world that the platform chooses. Error messages
-- are constructors that carry the values shown. The depth of the cycle search is bounded by one more
-- than the number of the sessions, which is enough since each call puts one more session on the
-- path. A hash set is a list of keys;
-- the order in which one is walked matters nowhere but in the order of the cleanups. `f64` amounts
-- are the parameter's, so nothing is said of rounding. A channel that the consumer has closed, and
-- the back-pressure of a full channel, are not modelled, nor are YAML parsing, logging and
-- processes. The numbers of JSON-RPC requests wrap at 2 ^ 64 as in the source. The lower case of
-- Unicode is a parameter of `Acp.Driver`. A writer whose channel was found closed stays closed.
-- Not modelled are the drivers a2a.rs and grpc.rs of crates/cap-rs/src/driver, the command line
-- (crates/cap-cli), the checks and the discovery of agent manifests, and the git commands of the
-- worktrees.

pub mod Prelude
pub mod Core
pub mod Json
pub mod Samples
pub mod Base64
pub mod Launch
pub mod Pty
pub mod StreamJson
pub mod Config
pub mod Event
pub mod Audit
pub mod Registry
pub mod Routing
pub mod Session
pub mod Executor
pub mod Codex
pub mod Rpc
pub mod Mcp
pub mod Acp
