-- ===== src/Compile/Ir.antt =====
-- crates/ngxora-compile/src/ir.rs: the configuration as a whole. A path and a `url::Url` are texts,
-- a `Duration` is a number of nanoseconds.
pub mod Matches
pub mod Options
pub mod Upstream
pub mod Locations
pub mod Equality
use ngxora.Base.{ℕ, Bool, false, List, [], Option, none, some, Text}
use ngxora.Machine.{from_secs}
use ngxora.Net.{IpAddr, v4}
use ngxora.Compile.Ir.Options.{
  RealIpConfig, GeoIpConfig, KeepaliveTimeout, timeout, Switch, on, off, Http2Options, SslProvider,
  LetsEncryptConfig, DownstreamTlsOptions,
}
use ngxora.Compile.Ir.Upstream.{UpstreamBlock}
use ngxora.Compile.Ir.Locations.{Location}

pub record ScpProfile : Type 0 where
  pub name : Text
  pub api_root : Text
  pub discovery_upstreams : List Text
  pub allowed_target_api_roots : List Text

pub record Listen : Type 0 where
  pub addr : IpAddr
  pub port : ℕ
  pub ssl : Bool
  pub default_server : Bool
  pub http2 : Bool
  pub http2_only : Bool

-- `Listen::default`, at 127.0.0.1
abbrev pub default_listen : Listen
default_listen = record {
  addr = v4 0x7f000001;
  port = 80;
  ssl = false;
  default_server = false;
  http2 = false;
  http2_only = false;
}

pub record Server : Type 0 where
  pub server_names : List Text
  pub locations : List Location
  pub listens : List Listen
  pub tls : Option SslProvider
  pub tls_options : DownstreamTlsOptions

pub record Http : Type 0 where
  pub real_ip : Option RealIpConfig
  pub client_header_timeout : Option ℕ
  pub client_body_timeout : Option ℕ
  pub send_timeout : Option ℕ
  pub scp_profiles : List ScpProfile
  pub upstreams : List UpstreamBlock
  pub servers : List Server
  pub keepalive_timeout : KeepaliveTimeout
  pub keepalive_requests : Option ℕ
  pub client_max_body_size : Option ℕ
  pub proxy_cache_max_size : Option ℕ
  pub tcp_nodelay : Switch
  pub allow_connect_method_proxying : Switch
  pub h2c : Switch
  pub http2 : Http2Options
  pub ssl_provider : Option LetsEncryptConfig
  pub geoip : Option GeoIpConfig

-- `Http::default`
abbrev pub default_http : Http
default_http = record {
  real_ip = none;
  client_header_timeout = none;
  client_body_timeout = none;
  send_timeout = none;
  scp_profiles = [];
  upstreams = [];
  servers = [];
  keepalive_timeout = timeout (from_secs 60) none;
  keepalive_requests = none;
  client_max_body_size = none;
  proxy_cache_max_size = none;
  tcp_nodelay = on;
  allow_connect_method_proxying = off;
  h2c = off;
  http2 = record {
    max_concurrent_streams = none;
    max_header_list_size = none;
    stream_window_size = none;
    connection_window_size = none;
  };
  ssl_provider = none;
  geoip = none;
}

pub record Ir : Type 0 where
  pub http : Option Http
