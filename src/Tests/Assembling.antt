-- ===== src/Tests/Assembling.antt =====
-- Runs of the compilation of a router.
use ngxora.Base.{
  ◌+◌, ◌<◌, ◌^◌, ◌≡◌, refl, arith, true, false, [], ◌∷◌, Option, none, some, Text, codes, text_eq,
  if◌then◌else◌, text_has_eq, nat_has_eq, lookup, insert, remove, starts_with, ends_with,
  trim_end_matches, here, there,
}
use ngxora.Net.{v4}
use ngxora.Outcome.{success}
use ngxora.ClientIp.{trim_start}
use ngxora.Config.Lexer.{is_whitespace}
use ngxora.Compile.Ir.{Http, default_http, Server, default_listen, ScpProfile}
use ngxora.Compile.Ir.Locations as Ir
use ngxora.Compile.Ir.Locations.{Location, LocationDirective}
use ngxora.Compile.Ir.Options.{
  GeoIpConfig, TlsVerifyClient, validate_http2_value, on, validate_http2, validate_client_timeout,
  validate_upstream_http2,
}
use ngxora.Compile.Ir.Upstream.{UpstreamBlock, round_robin}
use ngxora.Routing.Resolve.{listen_key_has_eq}
use ngxora.Routing.Return.{
  expand_return, expand, expand_next, expand_one, variable, find_dollar, split_name,
}
use ngxora.Routing.Types.{
  CompiledLocation, VirtualHostRoutes, ListenKey, RouteTarget, prefix, weighted_backends, backend,
  no_backends, return_, scp, upstream_group,
}
use ngxora.Routing.Router.{CompiledRouter, ListenerProtocolConfig}
use ngxora.Tests.Fixtures.{route_to}
use ngxora.Upstreams.{CompiledUpstreamGroup}
use ngxora.Upstreams.Crates.{Uri, Url, Crates}
use ngxora.Upstreams.Scp.{
  trim_start_matches, behind_char, port_of, host_of, parse_api_root, authority, value,
  check_discoveries, check_targets, validate_profile,
}
use ngxora.Upstreams.Compile.Groups.{
  normalize_upstream_name, compile_upstream_server, compile_upstream_servers, total_weight,
  check_upstream, compile_upstream, compile_upstreams_from, compile_upstreams,
}
use ngxora.Upstreams.Compile.Targets.{
  validate_nrf_route_scheme, target_of_group, proxy_target, backend_target, compile_backends,
  route_target_from_directive, route_target, collect_protocol, compile_upstream_protocol,
}
use ngxora.Upstreams.Compile.Locations.{
  count_actions, compile_matcher, compile_rewrite, check_target, finish_location, compile_location,
  compile_each, compile_locations,
}
use ngxora.Upstreams.Compile.Policy.{
  compile_client_limits, over_directives, limits_arm, compile_upstream_timeouts, timeouts_arm,
  compile_upstream_http2, http2_arm, compile_upstream_ssl_options, ssl_arm,
}
use ngxora.Upstreams.Compile.Servers.{
  check_names, merge_listener_protocols, add_routes, check_profiles, add_tls, add_listens,
}
use ngxora.Upstreams.Compile.Listening.{Agrees}
use ngxora.Upstreams.Compile.Agreement.{from_http-Agrees}
use ngxora.Upstreams.Compile.Reachable.{location_count}
use ngxora.Upstreams.Compile.Routes.{from_http-route_id_inj, from_http-scp}
use ngxora.Upstreams.Compile.Router.{
  downstream_keepalive_timeout_secs, http_options, check_options, check_body_timeouts, add_profiles,
  add_server, add_servers, from_http,
}

abbrev root_uri : Text → Uri
root_uri host = record { scheme = some (codes "http"); authority = some (host, host); path = [] }

abbrev parse_root : Text → Option Uri
parse_root text =
    if text_eq text (codes "http://a")
    then some (root_uri (codes "a"))
    else (if text_eq text (codes "http://b") then some (root_uri (codes "b")) else none)

abbrev no_url : Url
no_url = record {
  text = [];
  scheme = [];
  username = [];
  password = none;
  host_str = none;
  port = none;
  port_or_known_default = none;
  path = [];
  query = none;
  fragment = none;
  cannot_be_a_base = true;
}

abbrev pub crates : Crates
crates = record {
  is_path_and_query = λ t. true;
  is_method = λ t. true;
  is_header_value = λ t. true;
  header_name = λ t. some t;
  parse_uri = parse_root;
  parse_url = λ t. none;
  url = λ t. no_url;
  is_ip_addr = λ t. false;
  new_regex = λ t i. none;
  join = λ a b. b;
}

abbrev location : Text → LocationDirective → Location
location path directive = record {
  matcher = Ir.prefix path;
  access_rules = [];
  directives = directive ∷ [];
  plugins = [];
  cache = none;
}

abbrev pub web : UpstreamBlock
web = record {
  allow_empty = false;
  name = codes "Web";
  policy = round_robin;
  hash_key = none;
  servers = record { host = codes "ten"; port = 8080; weight = 1 } ∷ [];
  nrf_discovery = none;
  health_check = none;
}

abbrev server : Server
server = record {
  server_names = [];
  locations =
      location (codes "/") (
        Ir.weighted_backends (
          record { weight = 2; target = Ir.upstream (Ir.upstream_group (codes "WEB") false) } ∷ []))
      ∷ location (codes "/old") (Ir.return_ 301 (codes "https://$host/"))
      ∷ location (codes "/scp") (Ir.scp_pass (codes "core"))
      ∷ [];
  listens = default_listen ∷ [];
  tls = none;
  tls_options = record {
    protocols = none;
    verify_client = TlsVerifyClient.off;
    client_certificate = none;
  };
}

abbrev core : ScpProfile
core = record {
  name = codes "core";
  api_root = codes "http://a";
  discovery_upstreams = [];
  allowed_target_api_roots = codes "http://b" ∷ [];
}

abbrev pub http : Http
http = record default_http {
  scp_profiles = core ∷ [];
  upstreams = web ∷ [];
  servers = server ∷ [];
  h2c = on;
}

abbrev pub web_group : CompiledUpstreamGroup
web_group = record {
  allow_empty = false;
  name = codes "Web";
  policy = round_robin;
  hash_key = none;
  servers =
      record { host = codes "ten"; port = 8080; weight = 1; api_prefix = none; nrf_service = none }
      ∷ [];
  nrf_discovery = none;
  health_check = none;
}

abbrev pub to_web : RouteTarget
to_web = weighted_backends (backend 2 (upstream_group (codes "Web") false) no_backends)

abbrev pub home : CompiledLocation
home = route_to to_web 1 (prefix (codes "/"))

abbrev pub old : CompiledLocation
old = route_to (return_ 301 (codes "https://$host/")) 2 (prefix (codes "/old"))

abbrev proxy : CompiledLocation
proxy = route_to (scp (codes "core")) 3 (prefix (codes "/scp"))

abbrev key : ListenKey
key = record { addr = v4 0x7f000001; port = 80; ssl = false }

abbrev hosts : VirtualHostRoutes
hosts = record { named = []; default = some (record { locations = home ∷ old ∷ proxy ∷ [] }) }

abbrev plain : ListenerProtocolConfig
plain = record { http2 = false; http2_only = false }

abbrev pub router : CompiledRouter GeoIpConfig
router = record {
  geoip = none;
  scp_profiles = (codes "core", core) ∷ [];
  upstreams = (codes "web", web_group) ∷ [];
  listeners = (key, hosts) ∷ [];
  listener_protocols = (key, plain) ∷ [];
  listener_tls = [];
  http_options = record {
    real_ip = none;
    client_header_timeout = none;
    client_body_timeout = none;
    send_timeout = none;
    downstream_keepalive_timeout = some 60;
    keepalive_requests = none;
    client_max_body_size = none;
    proxy_cache_max_size = none;
    tcp_nodelay = true;
    allow_connect_method_proxying = false;
    h2c = true;
    http2 = default_http.http2;
  };
  le_config = none;
}

pub compiles : from_http crates http ≡ success router
unfolding from_http check_options validate_http2 validate_client_timeout compile_upstreams
    compile_upstreams_from compile_upstream check_upstream total_weight compile_upstream_servers
    compile_upstream_server normalize_upstream_name trim_start is_whitespace validate_http2_value
    lookup insert remove text_eq trim_end_matches add_profiles validate_profile parse_api_root
    host_of port_of trim_start_matches behind_char starts_with ends_with check_discoveries
    check_targets value authority add_servers add_server check_names compile_locations compile_each
    compile_location count_actions route_target route_target_from_directive compile_backends
    backend_target proxy_target target_of_group validate_nrf_route_scheme finish_location
    compile_upstream_protocol collect_protocol compile_matcher compile_rewrite check_target
    expand_return expand expand_next expand_one variable find_dollar split_name check_profiles
    add_listens merge_listener_protocols add_tls add_routes check_body_timeouts http_options
    downstream_keepalive_timeout_secs compile_client_limits over_directives limits_arm
    compile_upstream_timeouts timeouts_arm compile_upstream_http2 http2_arm validate_upstream_http2
    compile_upstream_ssl_options ssl_arm
compiles = refl

pub few : 1 + location_count http.servers < 2 ^ 64
unfolding location_count
few = omega arith

from_http-Agrees_example :
    Agrees router.listener_protocols router.listener_tls server default_listen
from_http-Agrees_example =
    from_http-Agrees crates http router server default_listen compiles here here

from_http-route_id_inj_example : old ≡ old
from_http-route_id_inj_example =
    from_http-route_id_inj crates http router old old compiles few (there here) (there here) refl

listening : lookup key router.listeners ≡ some hosts
unfolding lookup
listening = refl

from_http-scp_example :
    (profile : ScpProfile) × (protocol : ListenerProtocolConfig) × (lookup
        (codes "core")
        router.scp_profiles
      ≡ some profile)
    × (lookup key router.listener_protocols ≡ some protocol)
    × ((if key.ssl then protocol.http2 else router.http_options.h2c) ≡ true)
from_http-scp_example =
    from_http-scp crates http router key hosts proxy (codes "core") compiles few listening
      (there (there here)) refl
