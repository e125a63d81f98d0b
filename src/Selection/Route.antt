-- ===== src/Selection/Route.antt =====
-- `SelectedRoute::from_resolved` and `select_runtime_route` of selection.rs.
use ngxora.Base.{ℕ, List, [], ◌++◌, Option, none, some, Text, codes, if◌then◌else◌}
use ngxora.Outcome.{success, ◌>>=◌, ok_or, map_err}
use ngxora.Cache.Types.{CacheConfig}
use ngxora.Compile.Ir.Locations.{UrlRewrite}
use ngxora.Compile.Ir.Matches.{HttpPathMatch, exact, path_prefix}
use ngxora.Compile.Ir.Options.{
  ClientLimits, PemSource, UpstreamTimeouts, UpstreamHttpProtocol, UpstreamHttp2Options,
  UpstreamSslOptions,
}
use ngxora.Control.{Builders, RuntimeSnapshot, plugin_chain}
use ngxora.Routing.Resolve.{Session, SocketAddr, inet, ResolvedLocation, is_tls, resolve_route}
use ngxora.Routing.Return.{expand_return}
use ngxora.Routing.Rewrite.{Uri, with_query, redirect_location}
use ngxora.Routing.Types.{
  RouteTarget, direct_response, http_redirect, scp, return_, LocationIpRule, CompiledMatcher, http,
}
use ngxora.Selection.Target.{
  Answers, SelectedTarget, Selected, pending, response, to_scp, answer, missing_listener_port,
  missing_trusted_ca, missing_client_identity, bad_return, bad_redirect, bad_request,
}

abbrev pub path_prefix_of : HttpPathMatch → Option Text
path_prefix_of (path_prefix prefix) = some prefix
path_prefix_of (exact path) = none

unfoldable pub matched_prefix : CompiledMatcher → Option Text
matched_prefix (http m) = path_prefix_of m.path
matched_prefix _ = none

abbrev pub or_default {ℓ} : {A : Type ℓ} → A → Option A → A
or_default a none = a
or_default a (some b) = b

abbrev pub port_of : Option SocketAddr → Option ℕ
port_of (some (inet ip port)) = some port
port_of _ = none

-- `uri` is the request's, with its `path_and_query`.
pub record Target : Type 0 where
  pub uri : Uri
  pub path_and_query : Option Text

module _ (parse_uri : Text → Option Uri) where
  unfoldable pub prefixed_upstream_uri : Uri → Text → Option Uri
  prefixed_upstream_uri uri prefix = parse_uri (with_query (prefix ++ uri.path) uri.query)

  -- The `match` on the target of the location.
  unfoldable pub target_of :
      Session → Target → Option Text → RouteTarget → Option Text → Selected SelectedTarget
  target_of session t prefix (scp profile) host = success (to_scp profile)
  target_of session t prefix (return_ status location) host = do
    text ← map_err bad_return (
        expand_return (or_default [] host) (or_default (codes "/") t.path_and_query)
          (if is_tls session.ssl then codes "https" else codes "http") location)
    success (answer status text)
  target_of session t prefix (http_redirect config) host = do
    port ← ok_or missing_listener_port (port_of session.server_addr)
    text ← map_err bad_redirect (
        redirect_location parse_uri config t.uri (or_default [] host)
          (if is_tls session.ssl then codes "https" else codes "http") port prefix)
    success (answer config.status text)
  target_of session t prefix (direct_response status) host = success (response status)
  target_of session t prefix target host = success (pending target)

-- The size of a cache that names none is that of the options.
abbrev pub with_max_size : Option ℕ → Option CacheConfig → Option CacheConfig
with_max_size max_size none = none
with_max_size max_size (some cache) =
    some
      (record cache { max_size = elim cache.max_size [ none ↦ max_size | some size ↦ some size ] })

module _ {G : Type 0} (b : Builders G) (a : Answers b) where
  pub record SelectedRoute : Type 0 where
    pub client_limits : ClientLimits
    pub url_rewrite : Option UrlRewrite
    pub matched_prefix : Option Text
    pub route_id : ℕ
    pub target : SelectedTarget
    pub access_rules : List LocationIpRule
    pub upstream_timeouts : UpstreamTimeouts
    pub upstream_protocol : Option UpstreamHttpProtocol
    pub upstream_http2 : UpstreamHttp2Options
    pub upstream_ssl_options : UpstreamSslOptions
    pub upstream_trusted_ca : Option a.TrustedCa
    pub upstream_client_identity : Option a.ClientIdentity
    pub plugins : b.PluginChain
    pub cache : Option CacheConfig

  unfoldable pub identity_of :
      b.TlsMaterial → Option PemSource → Option PemSource → Selected (Option a.ClientIdentity)
  identity_of material (some cert) (some key) = do
    identity ← ok_or missing_client_identity (a.client_identity material cert key)
    success (some identity)
  identity_of material _ _ = success none

  unfoldable pub trusted_ca_of : b.TlsMaterial → Option PemSource → Selected (Option a.TrustedCa)
  trusted_ca_of material none = success none
  trusted_ca_of material (some source) = do
    ca ← ok_or missing_trusted_ca (a.trusted_ca material source)
    success (some ca)

  module _ (parse_uri : Text → Option Uri) where
    unfoldable pub from_resolved :
        RuntimeSnapshot b → ResolvedLocation → Session → Target → Selected SelectedRoute
    from_resolved snapshot r session t = do
      target ←
          target_of parse_uri session t (matched_prefix r.location.matcher) r.location.target r.host
      identity ←
          identity_of snapshot.tls_material r.location.upstream_ssl_options.client_certificate
            r.location.upstream_ssl_options.client_certificate_key
      ca ← trusted_ca_of snapshot.tls_material r.location.upstream_ssl_options.trusted_certificate
      success (record {
        client_limits = r.location.client_limits;
        url_rewrite = r.location.url_rewrite;
        matched_prefix = matched_prefix r.location.matcher;
        route_id = r.location.route_id;
        target = target;
        access_rules = r.location.access_rules;
        upstream_timeouts = r.location.upstream_timeouts;
        upstream_protocol = r.location.upstream_protocol;
        upstream_http2 = r.location.upstream_http2;
        upstream_ssl_options = r.location.upstream_ssl_options;
        upstream_trusted_ca = ca;
        upstream_client_identity = identity;
        plugins = plugin_chain b snapshot r.location.route_id;
        cache = with_max_size snapshot.router.http_options.proxy_cache_max_size r.location.cache;
      })

    -- The parts of a text that the `http` crate tells are parameters, as in routing.rs.
    unfoldable pub select_runtime_route :
        (Text → Option Text)
        → (Text → Option Text)
        → RuntimeSnapshot b
        → Session
        → Target
        → Selected (Option (SelectedRoute × Option Text))
    select_runtime_route to_str authority_host snapshot session t = do
      found ←
          map_err bad_request
            (resolve_route to_str authority_host snapshot.router.listeners session)
      elim found [
        | none ↦ success none
        | some r ↦ do route ← from_resolved snapshot r session t; success (some (route, r.host))
      ]
