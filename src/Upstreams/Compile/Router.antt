-- ===== src/Upstreams/Compile/Router.antt =====
-- compile.rs: `CompiledRouter::from_http`.
use ngxora.Base.{
  ℕ, ◌+◌, ◌/◌, Bool, true, false, not, ◌&&◌, ◌||◌, List, [], ◌∷◌, Option, none, some, Text, ltb,
  ◌==◌, is_some, if◌then◌else◌, length, any, lookup, insert, text_has_eq,
}
use ngxora.Machine.{u64_max}
use ngxora.Outcome.{success, ◌>>=◌, ◌>>◌, ensure, map_err}
use ngxora.Compile.Ir.{Http, Server, Listen, ScpProfile}
use ngxora.Compile.Ir.Options.{
  validate_real_ip, GeoIpConfig, validate_geoip, validate_http2, validate_client_timeout, Switch,
  on, off, KeepaliveTimeout, timeout, as_millis,
}
use ngxora.Compile.Ir.Locations.{Location, LocationDirective, client_body_timeout}
use ngxora.Routing.Router.{CompiledRouter, HttpRuntimeOptions}
use ngxora.Upstreams.Crates.{Crates}
use ngxora.Upstreams.Scp.{ScpErr, validate_profile}
use ngxora.Upstreams.Compile.Errors.{
  Compiled, options, tcp_nodelay_off, bad_profile, duplicate_profile, lets_encrypt_names,
  body_timeout_on_http2, header_timeout_on_h2c,
}
use ngxora.Upstreams.Compile.Groups.{compile_upstreams}
use ngxora.Upstreams.Compile.Targets.{Groups}
use ngxora.Upstreams.Compile.Locations.{compile_locations}
use ngxora.Upstreams.Compile.Servers.{
  is_lets_encrypt, check_names, check_profiles, add_listens, Listeners,
}

abbrev pub is_on : Switch → Bool
is_on on = true
is_on off = false

unfoldable pub downstream_keepalive_timeout_secs : KeepaliveTimeout → Option ℕ
downstream_keepalive_timeout_secs KeepaliveTimeout.off = none
downstream_keepalive_timeout_secs (timeout idle header) =
    if as_millis idle == 0
    then none
    else (if ltb u64_max ((as_millis idle + 999) / 1000)
        then none
        else some ((as_millis idle + 999) / 1000))

unfoldable pub http_options : Http → HttpRuntimeOptions
http_options http = record {
  real_ip = http.real_ip;
  client_header_timeout = http.client_header_timeout;
  client_body_timeout = http.client_body_timeout;
  send_timeout = http.send_timeout;
  downstream_keepalive_timeout = downstream_keepalive_timeout_secs http.keepalive_timeout;
  keepalive_requests = http.keepalive_requests;
  client_max_body_size = http.client_max_body_size;
  proxy_cache_max_size = http.proxy_cache_max_size;
  tcp_nodelay = is_on http.tcp_nodelay;
  allow_connect_method_proxying = is_on http.allow_connect_method_proxying;
  h2c = is_on http.h2c;
  http2 = http.http2;
}

abbrev pub when_some : {A : Type 0} → (A → Compiled (Unit {0})) → Option A → Compiled (Unit {0})
when_some check none = success tt
when_some check (some a) = check a

-- The checks before the router is built.
unfoldable pub check_options : Http → Compiled (Unit {0})
check_options http = do
  ensure (is_on http.tcp_nodelay) tcp_nodelay_off
  map_err options (validate_http2 http.http2)
  when_some (λ config. map_err options (validate_real_ip config)) http.real_ip
  map_err options (validate_client_timeout http.client_header_timeout)
  map_err options (validate_client_timeout http.client_body_timeout)
  map_err options (validate_client_timeout http.send_timeout)
  when_some (λ config. map_err options (validate_geoip config)) http.geoip

abbrev pub is_positive : Option ℕ → Bool
is_positive none = false
is_positive (some d) = not (d == 0)

abbrev pub is_body_timeout : LocationDirective → Bool
is_body_timeout (client_body_timeout v) = not (v == 0)
is_body_timeout _ = false

abbrev pub listen_accepts_h2 : Bool → Listen → Bool
listen_accepts_h2 h2c l = (l.ssl && (l.http2 || l.http2_only)) || (not l.ssl && h2c)

abbrev pub has_body_timeout : Location → Bool
has_body_timeout l = any is_body_timeout l.directives

-- The loop that refuses body timeouts on HTTP/2.
unfoldable pub check_body_timeouts : Http → List Server → Compiled (Unit {0})
check_body_timeouts http [] = success tt
check_body_timeouts http (server ∷ rest) =
    ensure
      (not (
        any (listen_accepts_h2 (is_on http.h2c)) server.listens
        && (is_positive http.client_body_timeout || any has_body_timeout server.locations)))
      body_timeout_on_http2
    >> check_body_timeouts http rest

-- What `add_server` reads of the router besides its listeners.
pub record Context : Type 0 where
  pub http : Http
  pub upstreams : Groups
  pub profiles : List (Text × ScpProfile)

abbrev pub no_listeners : Listeners
no_listeners = record { listeners = []; protocols = []; tls = [] }

module _ (crates : Crates) where
  -- The loop over the profiles.
  unfoldable pub add_profiles :
      Groups → List ScpProfile → List (Text × ScpProfile) → Compiled (List (Text × ScpProfile))
  add_profiles upstreams [] profiles = success profiles
  add_profiles upstreams (profile ∷ rest) profiles = do
    map_err (λ (e : ScpErr). bad_profile profile.name) (validate_profile crates profile upstreams)
    ensure (not (is_some (lookup profile.name profiles))) (duplicate_profile profile.name)
    add_profiles upstreams rest (insert profile.name profile profiles)

  unfoldable pub add_server : Context → Server → Listeners × ℕ → Compiled (Listeners × ℕ)
  add_server c server (r, next_route_id) = do
    ensure (not (is_lets_encrypt server.tls && not (length server.server_names == 1)))
        lets_encrypt_names
    check_names server.server_names
    (locations, next) ← compile_locations crates server.locations c.upstreams next_route_id
    check_profiles c.profiles (is_on c.http.h2c) server.listens locations
    r' ←
        add_listens crates c.http.ssl_provider server (record { locations = locations })
          server.listens r
    success (r', next)

  unfoldable pub add_servers : Context → List Server → Listeners × ℕ → Compiled (Listeners × ℕ)
  add_servers c [] r = success r
  add_servers c (server ∷ rest) r = do r' ← add_server c server r; add_servers c rest r'

  unfoldable pub from_http : Http → Compiled (CompiledRouter GeoIpConfig)
  from_http http = do
    check_options http
    upstreams ← compile_upstreams crates http.upstreams
    profiles ← add_profiles upstreams http.scp_profiles []
    (r, next) ←
        add_servers (record { http = http; upstreams = upstreams; profiles = profiles })
          http.servers (no_listeners, 1)
    check_body_timeouts http http.servers
    ensure (not (is_on http.h2c && is_positive http.client_header_timeout)) header_timeout_on_h2c
    success (record {
      geoip = http.geoip;
      scp_profiles = profiles;
      upstreams = upstreams;
      listeners = r.listeners;
      listener_protocols = r.protocols;
      listener_tls = r.tls;
      http_options = http_options http;
      le_config = http.ssl_provider;
    })
