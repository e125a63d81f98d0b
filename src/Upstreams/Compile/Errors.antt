-- ===== src/Upstreams/Compile/Errors.antt =====
-- The errors of a compilation, each with what its text names.
use ngxora.Base.{Text}
use ngxora.Outcome.{Outcome}
use ngxora.Routing.Http.{RouteErr}
use ngxora.Routing.Return.{ReturnErr}
use ngxora.Compile.Ir.Options.{OptionsError}

pub data CompileErr : Type 0 where
  empty_server_host : CompileErr
  zero_server_port : Text → CompileErr
  zero_health_check : Text → CompileErr
  empty_health_host : CompileErr
  bad_health_path : Text → CompileErr
  bad_api_root zero_discovery_time unpaired_discovery_identity : CompileErr
  empty_upstream_name : CompileErr
  no_backends mixed_sources no_health_check zero_weight too_heavy : Text → CompileErr
  hash_key_unused bad_hash_header duplicate_upstream : Text → CompileErr
  duplicate_directive : Text → CompileErr
  bad_direct_status empty_backends heavy_backend bad_backend_target : CompileErr
  bad_proxy_scheme unknown_upstream nrf_scheme_mismatch : Text → CompileErr
  scp_protocol h2_needs_tls h2c_needs_plaintext : CompileErr
  unpaired_identity : CompileErr
  unsupported_directive : Text → CompileErr
  not_one_action scp_with_cache rewrite_without_upstream : CompileErr
  bad_redirect_status bad_redirect_scheme bad_redirect_port : CompileErr
  bad_return_status bad_return_location : CompileErr
  bad_regex : Text → CompileErr
  mixed_matchers bad_allow_methods bad_allowed_method : CompileErr
  tcp_nodelay_off : CompileErr
  bad_profile duplicate_profile unknown_profile : Text → CompileErr
  scp_needs_http2 lets_encrypt_names bad_wildcard : CompileErr
  conflicting_protocols conflicting_tls : CompileErr
  body_timeout_on_http2 header_timeout_on_h2c : CompileErr
  route : RouteErr → CompileErr
  return_template : ReturnErr → CompileErr
  options : OptionsError → CompileErr

abbrev pub Compiled : Type 0 → Type 0
Compiled T = Outcome CompileErr T
