-- ===== src/Serving.antt =====
-- The parts together: a configuration is compiled (upstreams/compile.rs), a snapshot is built from the
-- router (control.rs), and requests are served from the snapshot (runtime/selection.rs).
pub mod Plugins
pub mod Backends
pub mod Returns
