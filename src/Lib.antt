-- ===== src/Lib.antt =====
-- nano-rpc-gateway: a gateway between JSON-RPC 2.0 callers and the RPC of Nano nodes. The program is
-- src/lib.rs; this library models its core and proves what makes it correct.
--
-- The parts and how they interact. A request comes to `AppState::dispatch`, which checks it against
-- the method registry, the configuration, the caller's token and the rules on parameters, passes
-- `block_confirm` through the operator guards, runs the method at one of two pools of upstreams or at
-- the local work generator, checks the result and answers; `rpc_handler` reads the request and counts.
-- Confirmations of the node come over the WebSocket of `run_ws_bridge`, which publishes them in a
-- session of `EventHub`; `sse_handler` streams a session to subscribers, each of which has its options.
-- The OpenRPC document keeps the component schemas that its methods reach. The configuration file is
-- read, expanded and checked at the start.
--
-- Which file models what (functions by their names in src/lib.rs):
--   App            AppState, Config and what a request asks of the world; App/Dispatch is dispatch and
--                  guard, App/Work is generate_local_work with decode_work_hash and the job tables.
--                  Theorems: App/Admission (the checks), App/Refusals and App/Replies (the shape of
--                  the answers), App/Handed, App/Sources and App/Guarded (node errors and transport
--                  rejections), App/Results,
--                  App/Bounds and App/Invariant (the state), App/Jobs (the job tables).
--   Auth           pae, sign_paseto, verify_paseto, parse_public_key and authorized. Theorems:
--                  Auth/Encoding, Auth/Claims, Auth/Tokens, Auth/Scopes.
--   Auth/Issue     The command issue of src/main.rs, by which the operator makes a token. Theorems:
--                  Auth/Issued.
--   Validate       Validate/Params is validate_params, Validate/Outcome is validate_result,
--                  validate_receivable_value and normalize_work_generate_result; their theorems are in
--                  the modules below them.
--   Upstream       Upstream/Client is NativeClient's call and the reading of the reply,
--                  Upstream/Router is NativeRouter: Reference states the loop as a list of candidates,
--                  Invariant, Errors, Failover and Cooldowns hold its theorems.
--   Guards         ConfirmGuards and is_block_hash: Guards/Rate is about the token bucket,
--                  Guards/Cooldown about the cache of hashes, Guards/Operations and Guards/Recent
--                  about how long an accepted hash stays in it.
--   Stream         ConfirmationType, StreamOptions and the filters of events: Stream/Accounts,
--                  Stream/Filter, Stream/Said, Stream/Options and Stream/Projection hold the theorems.
--   Hub            EventHub, its sessions and their leases: Hub/Sessions and Hub/Retired hold the
--                  theorems.
--   Bridge         run_ws_bridge with active_ws_url, mark_ws_unhealthy and normalize_confirmation:
--                  Bridge is what one event does, Bridge/Run the whole run. Theorems: Course and Splits
--                  (the loop without the hub), Delivery (the session of a run), Handshake, Timers,
--                  Rotation (the choice of the upstream), Invariant, Frames.
--   Handlers       Metrics; Handlers/Call is rpc_handler, Handlers/Events is sse_handler. Theorems:
--                  Handlers/Counts, Handlers/Requests (the bodies), Handlers/Delivered, and
--                  Handlers/Relayed (from the bridge to a stream).
--   Openrpc        Openrpc/Refs is collect_schema_refs and reachable_component_schemas,
--                  Openrpc/Schemas component_schemas, Openrpc/Document build_openrpc_document with
--                  openrpc_method and openrpc_params, Openrpc/Policy openrpc_document_with_auth.
--                  Theorems: Search (the loop ends), Reach and Closure (what is kept), Resolved (the
--                  references), Listed and Methods (the methods).
--   Pages          escape_html_text, with its theorem.
--   Settings       Config with validate; Settings/Load is Config::load, Settings/Dotenv load_dotenv,
--                  Settings/Expand expand_config_variables. Theorems: Ends and Expansion (the
--                  variables), Addresses and Valid (the check), Names (the file).
--   Registry       MethodSpec, Scope and registry.
--   Rpc, Error     RpcRequest, RpcResponse, TransportRejection and GatewayError with their codes.
--   Json           serde_json::Value, its accessors and its map with sorted keys.
--   Prelude        tests, lists, results, integers and the operations of Rust's str.
--   Examples       the theorems at concrete inputs.
--
-- State and time. A function that changes state takes the state and returns it. A request is one step:
-- requests run one after another, and what other requests hold is in the state, as in the tables of
-- jobs. Instants are natural numbers of nanoseconds that the caller of a function reads from the
-- clock. Tokens of the bucket are counted in billionths, so that a nanosecond adds one of them, and
-- the rounding of doubles is left out.
--
-- Bounds and fuel. The loop of NativeRouter::call runs once for each upstream of the pool, and the
-- model recurses on the rounds that are left. The search of reachable_component_schemas runs on fuel:
-- one round for each reference of the methods and the components is enough, and the expansion of
-- variables on one round more than the text has characters; both are proved. The bridge
-- and a stream consume the list of what happens to them. Every other loop is structural recursion on
-- its list or text. Numbers of JSON carry the range that their accessors test (64 bits), and the length fields of
-- pae wrap around at 2^64.
--
-- What stands for code of others. The network, the text of a JSON value, the clock, the work generator
-- with its thresholds, Base64, Ed25519 and the reading of JSON are arguments, collected in the records
-- World and Crypto; Pair lists what is asked of a pair of keys. The OpenRPC document is an argument of
-- dispatch.
--
-- The socket of the bridge, the parser of addresses and the readers of serde are the records Network,
-- Decoder and Readers, the files and the environment Machine; the order in which a hash set is iterated
-- is an argument.
--
-- Not modelled: the rest of the HTTP pages, the AsyncAPI document, the other commands of the command
-- line and the build information;
-- logging, and the interleaving of requests within a step.
pub mod Prelude
pub mod Json
pub mod Error
pub mod Rpc
pub mod Registry
pub mod Validate
pub mod Upstream
pub mod Guards
pub mod Stream
pub mod Hub
pub mod Bridge
pub mod Auth
pub mod App
pub mod Handlers
pub mod Openrpc
pub mod Pages
pub mod Settings
mod Examples
