-- ===== src/Lib.antt =====
-- ngxora, an HTTP reverse proxy with nginx-like configuration.
--
-- A configuration text is lexed and parsed into a tree, the tree is compiled into a router, and
-- the runtime chooses for each request the virtual server, the location and the backend, runs the
-- location's plugins, counts the body against its limit, and serves from or fills the response
-- cache.
--
-- Base, Machine, Net: lists, texts, association lists for hash maps, Rust's integers and durations
-- with their wrap-around and saturation, and addresses.
-- Config: crates/ngxora-config/src. Lexer is `Token::tokenize` of lexer.rs as a scan with an
-- explicit state; Parser is `Parser` of parser.rs and `Ast::parse_config` of ast.rs, where the
-- position in the tokens is the list of those left. The mutual recursion of `parse_items` and
-- `parse_stmt` runs on fuel, twice the number of tokens and one more: two calls take at least one
-- token. Grammar and Lexer/Spelling say independently which texts are which trees.
-- Config/Include: `IncludeResolver` of include.rs over a record of what the file system answers; its
-- depth is counted down from `max_include_depth`, whose end is the source's own error.
-- Outcome: Rust's `Result` for the modules below.
-- Compile: crates/ngxora-compile/src. Ir is the data of ir.rs with its validations, Values is
-- transform/values.rs, where the loop over the segments of a time literal has the length of the text
-- as fuel, since a segment takes a character at least, and Validate is `Ir::validate` of validate.rs.
-- Cache: crates/ngxora-runtime/src/cache.rs. Types has the keys, the responses and their sizes,
-- Location `LocationCache`, Backend `CacheBackend`. Instants are arguments, a call is one step of
-- the state since its locks are held within it, and the order in which a hash map gives its keys
-- is a parameter of which only is asked that it gives keys that are there. `make_room` runs on as
-- many rounds as the store holds entries and counters, each of which removes one.
-- RateLimit: `RateLimitPlugin` of crates/extensions/rate-limit/src/lib.rs; the window is an
-- argument of a request.
-- Routing: crates/ngxora-runtime/src/upstreams. Types is the compiled router of types.rs, with the
-- test of a regex as a function; Location is `select_route_target` of routing.rs; Hostname is
-- `hostname_score` of http_routes.rs and `select_server_routes` of routing.rs. Http, Rewrite and
-- Return are the matches, the rewritten paths and the expanded templates of http_routes.rs, Resolve
-- is `resolve_route` of routing.rs, on what a session tells it. The loop of a template has the
-- template's length as fuel, since a round takes a dollar sign. Router is the compiled router as a whole.
-- Upstreams: the compiled groups of upstream servers of types.rs. Upstreams/Compile is compile.rs with
-- its children upstream_groups.rs (Groups) and routes.rs (Targets, Policy, Locations): Servers is
-- `add_server` over the listeners of the router, Router is `from_http`. The number of the next route
-- is passed on and wraps at 64 bits. Upstreams/Crates is the record of what the crates `http`, `url`
-- and `regex` tell of a text. Upstreams/Scp has the API roots and the profiles of scp/request.rs.
-- Control: crates/ngxora-runtime/src/control.rs. An application of a snapshot is one step of the
-- state, since a mutex guards it. The plugin registry, the upstream groups, the TLS material and the
-- SCP profiles are the operations of a record that it is built over.
-- Limits and Selection: limits.rs and selection.rs of
-- crates/ngxora-runtime/src/upstreams/runtime. A chunk of a body is its length. Selection is the
-- choice among weighted backends and the access rules, Selection/Target `select_backend_target` over
-- a snapshot, with the counters of the routes as a state that is passed on, and Selection/Route
-- `from_resolved`. What the runtime groups and the TLS material answer is a record, `Answers`.
-- Serving: the parts together, from a configuration over its router and its snapshot to a request.
-- ClientIp: crates/ngxora-plugin-api/src/client_ip.rs, where the parser of an address is a parameter.
-- Tests: runs on concrete inputs.
--
-- Not modelled: the directive tables of the compiler, the load balancing, health checks and discovery
-- of upstream groups, the requests of SCP and the other plugins; and the input and output around
-- Pingora, TLS, gRPC, metrics and the command line, which is the code of libraries or calls of them.
-- Poisoned locks of the cache, which end the process, are not modelled either.
pub mod Base
pub mod Machine
pub mod Outcome
pub mod Config
pub mod Cache
pub mod Compile
pub mod Upstreams
pub mod Control
pub mod Net
pub mod RateLimit
pub mod Routing
pub mod Limits
pub mod ClientIp
pub mod Selection
pub mod Serving
pub mod Tests
