-- ===== src/Lib.antt =====
-- A model of InterMCP, a server of the Model Context Protocol that guards the tools it runs.
--
-- The parts, each with the file that models it:
--   Error.antt       src/error.rs: the errors. A message is a constructor with the values of its
--                    format string.
--   Json.antt        `serde_json::Value`, with the few methods that the program calls.
--   Taint.antt       src/taint.rs: `TaintTracker` and its operations by name.
--   Guardrails.antt  src/guardrails.rs: `GuardrailPolicy`. `check_call` is cut into `seen` (the
--                    pruning), `check_loop` and `check_recent` (the two loop detectors).
--   Policy.antt      src/policy.rs: `PolicyEngine` (Policy/Engine), `check_shell` (Policy/Shell),
--                    `glob_like_match` (Policy/Glob), the paths it reads (Policy/Paths) and
--                    `check_filesystem` (Policy/Files). A check passes the engine on and refuses in
--                    enforcing mode only.
--   Cache.antt       src/cache.rs: `ToolCache`; `set` is cut into `make_room` and `store`.
--   Hub.antt         src/hub.rs: the circuit breaker around `send_request` (Hub/Circuit), the
--                    `SupplyChainFirewall` (Hub/Firewall) and the registration of upstream tools by
--                    `load_hub_tools_with_firewall` (Hub/Loading).
--   Vault.antt       src/vault_lock.rs: `TimeLockedVault`; `check_or_wait` is cut at its wait.
--   Smac.antt        src/smac.rs: the audit log as a hash chain, `record` (here `log`),
--                    `verify_smac_log_chain` and the start of a logger on a file.
--   Receipts.antt    src/receipts.rs: receipts, HMAC and signatures; Receipts/Book: `ReceiptBook`,
--                    whose `new` is `open_book`, and `verify_receipt_chain_file`.
--   Protocol.antt    src/protocol.rs: version negotiation and identifiers (Protocol/Ids), results and
--                    their JSON (Protocol/Results).
--   Tools.antt       src/tools/system.rs: the reading of a command line (Tools/System), the rules on
--                    it (Tools/System/Rules) and on its program (Tools/System/Binaries),
--                    `validate_shell_command` and the command tool up to
--                    the start of its process (Tools/System/Validation), here `shell_exec`.
--   Server.antt      src/server.rs: `Server` (Server/State), `mask_secrets_with_names`
--                    (Server/Masking), `redact_for_log` (Server/Redaction), and
--                    `handle_request`: its checks of "tools/call" (Server/Gates), the run of a
--                    tool and what is recorded of it (Server/Execution), and the methods
--                    (Server/Requests); `handle_raw_message` with its batches (Server/Messages).
--   Http.antt        src/http_server.rs: one connection, `handle_conn`: the head of a request
--                    (Http/Head, Http/Paths), the checks on it (Http/Guards), the routes (Http/Routes), and
--                    the event streams with their limits (Http/Streams).
--   Recording.antt   src/record.rs: recorded frames and `SessionReplayer`.
--   Prelude.antt     texts, lists, maps, machine words and Boolean tests for all of them.
--
-- How they interact: the server asks the policy, the guardrails, the taint tracker, the vault and
-- the cache before a tool runs and the logs after it; the HTTP server hands it messages and lets
-- a supervisor answer the vault; a tool of an upstream is registered only when
-- the firewall has verified it, and its execution is vetoed by the firewall and refused by the
-- circuit breaker. Each part keeps its own state behind locks; here each operation takes the state
-- and gives the next one, and a sequence of operations is an explicit list. `Surroundings` of
-- Server/State gives what one call meets: the clocks, what other tasks do to the server while the
-- vault holds the call and while its tool runs, and what the tool gives.
--
-- Conventions. A text is the list of its Unicode scalar values, and `len` counts its UTF-8 bytes.
-- An `Instant` and a `Duration` are nanoseconds on one clock. A `HashMap` is an association list, a
-- `BTreeMap` a sorted one. Counters of 64 and 32 bits wrap around in `add_u64` and `add_u32`.
-- What comes from libraries is a parameter: SHA-256, canonical JSON, the JSON printer and parser,
-- the lower case of Unicode, and the canonical path of a file.
--
-- A description that a theorem compares the code with stands in a file of its own: Policy/Files/Description (denied patterns, directories),
-- Tools/System/Plain (a command without shell syntax), Tools/System/Cutting (a command line and its
-- pieces), Server/Execution/Limits (a run over a limit), Server/Execution/Traces and
-- Receipts/Book/Entry (what a run leaves), Server/Redaction/Reference (masked secrets)
-- and Recording/Mutations (mutating requests).
--
-- Fuel: the two loops of the glob matcher run on fuel; each turn makes the value behind the last
-- star shorter, or the rest of value and pattern, so that the product of the two lengths is enough.
-- All other loops are structural.
--
-- Not modelled: the loop of the HTTP server that accepts connections, its TLS, its limit of
-- requests per address, which a library keeps, and the text of its dashboard; the processes of
-- upstreams, the sandboxes and the WebAssembly runtime, which are calls of the system; the command
-- line and the writers of other programs' configuration; the tools that read and write files or
-- start processes; the failures of writes to log files; and interleavings inside one operation
-- that takes a lock more than once.
pub mod Cache
pub mod Error
pub mod Guardrails
pub mod Http
pub mod Hub
pub mod Json
pub mod Policy
pub mod Prelude
pub mod Protocol
pub mod Receipts
pub mod Recording
pub mod Server
pub mod Smac
pub mod Taint
pub mod Tools
pub mod Vault
