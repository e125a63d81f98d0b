-- ===== src/Compile/Ir/Equality.antt =====
-- The equality that ir.rs derives, for what a live reload compares.
use native.Mathlib.Decide.{ℕ_discrete}
use ngxora.Compile.Ir.Options.{Http2Options, UpstreamSslOptions}

pub Http2Options-discrete : Discrete Http2Options
Http2Options-discrete = hlevel ℕ_discrete

pub UpstreamSslOptions-discrete : Discrete UpstreamSslOptions
UpstreamSslOptions-discrete = hlevel ℕ_discrete
