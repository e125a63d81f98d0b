-- ===== src/Routing.antt =====
-- crates/ngxora-runtime/src/upstreams: the choice of a virtual server and a location for a
-- request (routing.rs, http_routes.rs), over the compiled router (types.rs).
pub mod Types
pub mod Hostname
pub mod Location
pub mod Http
pub mod Rewrite
pub mod Return
pub mod Resolve
pub mod Router
