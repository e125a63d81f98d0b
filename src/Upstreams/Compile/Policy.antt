-- ===== src/Upstreams/Compile/Policy.antt =====
-- compile/routes.rs: the limits, timeouts and transport options of a location. Each is a loop over the
-- directives, of which one arm is a function on the slots.
use ngxora.Base.{
  Bool, true, false, not, ◌||◌, List, [], ◌∷◌, ◌++◌, some, Text, codes, if◌then◌else◌, text_eq, any,
}
use ngxora.Outcome.{success, ◌>>=◌, ◌>>◌, ensure, map_err}
use ngxora.Compile.Ir.Options.{
  ClientLimits, default_client_limits, validate_client_timeout, UpstreamTimeouts, default_timeouts,
  UpstreamSslOptions, default_ssl_options, UpstreamHttp2Options, default_upstream_http2,
  validate_upstream_http2,
}
use ngxora.Compile.Ir.Locations as Ir
use ngxora.Compile.Ir.Locations.{LocationDirective}
use ngxora.Compile.Validate.{is_empty}
use ngxora.Upstreams.Crates.{Crates}
use ngxora.Upstreams.Compile.Errors.{
  Compiled, options, bad_allow_methods, bad_allowed_method, unpaired_identity,
}
use ngxora.Upstreams.Compile.Targets.{set_once}
use ngxora.Upstreams.Compile.Groups.{is_paired}

-- A loop over the directives.
unfoldable pub over_directives :
    {S : Type 0} → (LocationDirective → S → Compiled S) → List LocationDirective → S → Compiled S
over_directives arm [] slots = success slots
over_directives arm (directive ∷ rest) slots = do
  slots' ← arm directive slots
  over_directives arm rest slots'

unfoldable pub timeouts_arm : LocationDirective → UpstreamTimeouts → Compiled UpstreamTimeouts
timeouts_arm (Ir.proxy_connect_timeout value) t = do
  slot ← set_once (codes "proxy_connect_timeout") value t.connect
  success (record t { connect = slot })
timeouts_arm (Ir.proxy_read_timeout value) t = do
  slot ← set_once (codes "proxy_read_timeout") value t.read
  success (record t { read = slot })
timeouts_arm (Ir.proxy_write_timeout value) t = do
  slot ← set_once (codes "proxy_write_timeout") value t.write
  success (record t { write = slot })
timeouts_arm _ t = success t

unfoldable pub compile_upstream_timeouts : List LocationDirective → Compiled UpstreamTimeouts
compile_upstream_timeouts directives = over_directives timeouts_arm directives default_timeouts

-- `seen_cert` and `seen_key` tell whether the two options are there.
unfoldable pub ssl_arm : LocationDirective → UpstreamSslOptions → Compiled UpstreamSslOptions
ssl_arm (Ir.proxy_ssl_verify switch) o = success (record o { verify_cert = switch })
ssl_arm (Ir.proxy_ssl_trusted_certificate pem) o =
    success (record o { trusted_certificate = some pem })
ssl_arm (Ir.proxy_ssl_certificate pem) o = do
  slot ← set_once (codes "proxy_ssl_certificate") pem o.client_certificate
  success (record o { client_certificate = slot })
ssl_arm (Ir.proxy_ssl_certificate_key pem) o = do
  slot ← set_once (codes "proxy_ssl_certificate_key") pem o.client_certificate_key
  success (record o { client_certificate_key = slot })
ssl_arm _ o = success o

unfoldable pub compile_upstream_ssl_options : List LocationDirective → Compiled UpstreamSslOptions
compile_upstream_ssl_options directives = do
  o ← over_directives ssl_arm directives default_ssl_options
  ensure (is_paired o.client_certificate o.client_certificate_key) unpaired_identity
  success o

unfoldable pub http2_arm : LocationDirective → UpstreamHttp2Options → Compiled UpstreamHttp2Options
http2_arm (Ir.proxy_http2_max_concurrent_streams value) o = do
  slot ← set_once (codes "proxy_http2_max_concurrent_streams") value o.max_concurrent_streams
  success (record o { max_concurrent_streams = slot })
http2_arm (Ir.proxy_http2_stream_window_size value) o = do
  slot ← set_once (codes "proxy_http2_stream_window_size") value o.stream_window_size
  success (record o { stream_window_size = slot })
http2_arm (Ir.proxy_http2_connection_window_size value) o = do
  slot ← set_once (codes "proxy_http2_connection_window_size") value o.connection_window_size
  success (record o { connection_window_size = slot })
http2_arm _ o = success o

unfoldable pub compile_upstream_http2 : List LocationDirective → Compiled UpstreamHttp2Options
compile_upstream_http2 directives = do
  o ← over_directives http2_arm directives default_upstream_http2
  map_err options (validate_upstream_http2 o)
  success o

-- `contains` and `push`
abbrev pub push_new : Text → List Text → List Text
push_new method methods = if any (text_eq method) methods then methods else methods ++ (method ∷ [])

module _ (crates : Crates) where
  unfoldable pub push_methods : List Text → List Text → Compiled (List Text)
  push_methods [] allowed = success allowed
  push_methods (method ∷ methods) allowed = do
    ensure (crates.is_method method) bad_allowed_method
    push_methods methods (push_new method allowed)

  -- The limits so far, and `seen_methods`.
  unfoldable pub limits_arm :
      LocationDirective → ClientLimits × Bool → Compiled (ClientLimits × Bool)
  limits_arm (Ir.client_max_body_size value) (l, seen) = do
    slot ← set_once (codes "client_max_body_size") value l.max_body_size
    success (record l { max_body_size = slot }, seen)
  limits_arm (Ir.client_body_timeout value) (l, seen) = do
    slot ← set_once (codes "client_body_timeout") value l.body_timeout
    success (record l { body_timeout = slot }, seen)
  limits_arm (Ir.send_timeout value) (l, seen) = do
    slot ← set_once (codes "send_timeout") value l.send_timeout
    success (record l { send_timeout = slot }, seen)
  limits_arm (Ir.allow_methods methods) (l, seen) = do
    ensure (not (seen || is_empty methods)) bad_allow_methods
    allowed ← push_methods methods l.allowed_methods
    success (record l { allowed_methods = allowed }, true)
  limits_arm _ slots = success slots

  unfoldable pub compile_client_limits : List LocationDirective → Compiled ClientLimits
  compile_client_limits directives = do
    slots ← over_directives limits_arm directives (default_client_limits, false)
    map_err options (validate_client_timeout slots.0.body_timeout)
    map_err options (validate_client_timeout slots.0.send_timeout)
    success slots.0
