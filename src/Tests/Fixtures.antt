-- ===== src/Tests/Fixtures.antt =====
-- Routes with the defaults of what a run does not read.
use ngxora.Base.{ℕ, [], none}
use ngxora.Compile.Ir.Options.{
  default_client_limits, default_timeouts, default_ssl_options, default_upstream_http2,
}
use ngxora.Routing.Types.{CompiledMatcher, RouteTarget, CompiledLocation}

abbrev pub route_to : RouteTarget → ℕ → CompiledMatcher → CompiledLocation
route_to target id matcher = record {
  client_limits = default_client_limits;
  url_rewrite = none;
  route_id = id;
  matcher = matcher;
  access_rules = [];
  target = target;
  upstream_timeouts = default_timeouts;
  upstream_protocol = none;
  upstream_http2 = default_upstream_http2;
  upstream_ssl_options = default_ssl_options;
  plugins = [];
  cache = none;
}
