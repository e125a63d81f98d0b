-- ===== src/Routing/Router.antt =====
-- crates/ngxora-runtime/src/upstreams/types.rs: the compiled router. A hash map is an association
-- list; the configuration of GeoIP, which holds networks of the `ipnet` crate, is a parameter.
use ngxora.Base.{ℕ, Bool, List, Option, Text}
use ngxora.Compile.Ir.{ScpProfile}
use ngxora.Compile.Ir.Options.{
  RealIpConfig, Http2Options, TlsProtocolBounds, TlsVerifyClient, PemSource, TlsIdentity,
  LetsEncryptConfig,
}
use ngxora.Routing.Types.{ListenKey, VirtualHostRoutes}
use ngxora.Upstreams.{CompiledUpstreamGroup}

pub record ListenerProtocolConfig : Type 0 where
  pub http2 : Bool
  pub http2_only : Bool

pub record ListenerTlsSettings : Type 0 where
  pub protocols : Option TlsProtocolBounds
  pub verify_client : TlsVerifyClient
  pub client_certificate : Option PemSource

pub record ListenerTlsConfig : Type 0 where
  pub named : List (Text × TlsIdentity)
  pub default : Option TlsIdentity
  pub settings : ListenerTlsSettings

pub record HttpRuntimeOptions : Type 0 where
  pub real_ip : Option RealIpConfig
  pub client_header_timeout : Option ℕ
  pub client_body_timeout : Option ℕ
  pub send_timeout : Option ℕ
  pub downstream_keepalive_timeout : Option ℕ
  pub keepalive_requests : Option ℕ
  pub client_max_body_size : Option ℕ
  pub proxy_cache_max_size : Option ℕ
  pub tcp_nodelay : Bool
  pub allow_connect_method_proxying : Bool
  pub h2c : Bool
  pub http2 : Http2Options

pub record CompiledRouter (GeoIpConfig : Type 0) : Type 0 where
  pub geoip : Option GeoIpConfig
  pub scp_profiles : List (Text × ScpProfile)
  pub upstreams : List (Text × CompiledUpstreamGroup)
  pub listeners : List (ListenKey × VirtualHostRoutes)
  pub listener_protocols : List (ListenKey × ListenerProtocolConfig)
  pub listener_tls : List (ListenKey × ListenerTlsConfig)
  pub http_options : HttpRuntimeOptions
  pub le_config : Option LetsEncryptConfig
