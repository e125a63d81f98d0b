-- ===== src/Upstreams/Compile.antt =====
-- crates/ngxora-runtime/src/upstreams/compile.rs and its children: the router of a configuration.
pub mod Errors
pub mod Groups
pub mod Targets
pub mod Policy
pub mod Locations
pub mod Servers
pub mod Router
pub mod Identity
pub mod Merging
pub mod Listening
pub mod Parts
pub mod Agreement
pub mod Naming
pub mod Spelling
pub mod Resolving
pub mod Hosting
pub mod Reaching
pub mod Reachable
pub mod Routes
