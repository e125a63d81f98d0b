-- ===== src/Tests.antt =====
-- Runs of the modelled code on concrete inputs.
mod Fixtures
mod Configuration
mod Caching
mod Requests
mod Clients
mod Including
mod Compiling
mod Controlling
mod Assembling
mod Serving
mod Profiles
