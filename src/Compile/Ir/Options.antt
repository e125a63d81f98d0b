-- ===== src/Compile/Ir/Options.antt =====
-- crates/ngxora-compile/src/ir.rs: options and their checks.
use ngxora.Base.{
  ℕ, ◌-◌, ◌/◌, ◌%◌, ◌^◌, Bool, true, false, not, ◌&&◌, ◌||◌, List, [], ◌∷◌, Option, none, some,
  Text, codes, eq_ignore_ascii_case, ltb, ◌==◌,
}
use ngxora.Outcome.{Outcome, success, ◌>>◌, ensure}
use ngxora.Machine.{u64_max, u32_max}
use ngxora.Compile.Ir.Matches.{IpNet}

pub data OptionsError : Type 0 where
  bad_real_ip_header bad_client_timeout bad_database bad_reload_interval : OptionsError
  bad_http2_value : Text → ℕ → OptionsError

abbrev pub Checked : Type 0
Checked = Outcome OptionsError (Unit {0})

pub record RealIpConfig : Type 0 where
  pub trusted_proxies : List IpNet
  pub header : Text
  pub recursive : Bool

abbrev pub default_real_ip : RealIpConfig
default_real_ip = record {
  trusted_proxies = [];
  header = codes "X-Forwarded-For";
  recursive = true;
}

-- `RealIpConfig::validate`
unfoldable pub validate_real_ip : RealIpConfig → Checked
validate_real_ip cfg =
    ensure
      (eq_ignore_ascii_case cfg.header (codes "x-forwarded-for")
        || eq_ignore_ascii_case cfg.header (codes "x-real-ip"))
      bad_real_ip_header

pub record ClientLimits : Type 0 where
  pub max_body_size : Option ℕ
  pub body_timeout : Option ℕ
  pub send_timeout : Option ℕ
  pub allowed_methods : List Text

-- `ClientLimits::default`
abbrev pub default_client_limits : ClientLimits
default_client_limits = record {
  max_body_size = none;
  body_timeout = none;
  send_timeout = none;
  allowed_methods = [];
}

-- `as_millis` and `subsec_nanos`
abbrev pub as_millis : ℕ → ℕ
as_millis v = v / 1_000_000

abbrev pub is_whole_millis : ℕ → Bool
is_whole_millis v = v % 1_000_000_000 % 1_000_000 == 0

unfoldable pub validate_client_timeout : Option ℕ → Checked
validate_client_timeout none = success tt
validate_client_timeout (some v) =
    ensure (not (ltb u64_max (as_millis v)) && is_whole_millis v) bad_client_timeout

-- `to_str` of the path is none where it is no UTF-8.
pub record GeoIpConfig : Type 0 where
  pub database : Option Text
  pub reload_interval : ℕ
  pub trusted_proxies : List IpNet

abbrev pub is_text : Option Text → Bool
is_text none = false
is_text (some []) = false
is_text (some (c ∷ s)) = true

-- `GeoIpConfig::validate`
unfoldable pub validate_geoip : GeoIpConfig → Checked
validate_geoip cfg =
    ensure (is_text cfg.database) bad_database
    >> ensure
        (not (ltb cfg.reload_interval 1_000_000)
          && (not (ltb u64_max (as_millis cfg.reload_interval))
              && is_whole_millis cfg.reload_interval))
        bad_reload_interval

pub data PemSource : Type 0 where
  path inline_pem : Text → PemSource

pub record TlsIdentity : Type 0 where
  pub cert : PemSource
  pub key : PemSource

pub data SslProvider : Type 0 where
  custom : TlsIdentity → SslProvider
  lets_encrypt : SslProvider

pub record LetsEncryptConfig : Type 0 where
  pub acme_directory : Option Text
  pub email : Option Text
  pub cache_dir : Option Text

pub data TlsProtocolVersion : Type 0 where
  tls1 tls1_2 tls1_3 : TlsProtocolVersion

pub record TlsProtocolBounds : Type 0 where
  pub min : TlsProtocolVersion
  pub max : TlsProtocolVersion

pub data TlsVerifyClient : Type 0 where
  off optional required : TlsVerifyClient

pub record DownstreamTlsOptions : Type 0 where
  pub protocols : Option TlsProtocolBounds
  pub verify_client : TlsVerifyClient
  pub client_certificate : Option PemSource

pub data KeepaliveTimeout : Type 0 where
  off : KeepaliveTimeout
  timeout : ℕ → Option ℕ → KeepaliveTimeout

pub data Switch : Type 0 where
  on off : Switch

pub record UpstreamTimeouts : Type 0 where
  pub connect : Option ℕ
  pub read : Option ℕ
  pub write : Option ℕ

pub record UpstreamSslOptions : Type 0 where
  pub verify_cert : Switch
  pub trusted_certificate : Option PemSource
  pub client_certificate : Option PemSource
  pub client_certificate_key : Option PemSource

abbrev pub default_timeouts : UpstreamTimeouts
default_timeouts = record { connect = none; read = none; write = none }

abbrev pub default_ssl_options : UpstreamSslOptions
default_ssl_options = record {
  verify_cert = on;
  trusted_certificate = none;
  client_certificate = none;
  client_certificate_key = none;
}

pub data UpstreamHttpProtocol : Type 0 where
  h1 h2 h2c : UpstreamHttpProtocol

pub record Http2Options : Type 0 where
  pub max_concurrent_streams : Option ℕ
  pub max_header_list_size : Option ℕ
  pub stream_window_size : Option ℕ
  pub connection_window_size : Option ℕ

pub record UpstreamHttp2Options : Type 0 where
  pub max_concurrent_streams : Option ℕ
  pub stream_window_size : Option ℕ
  pub connection_window_size : Option ℕ

abbrev pub default_upstream_http2 : UpstreamHttp2Options
default_upstream_http2 = record {
  max_concurrent_streams = none;
  stream_window_size = none;
  connection_window_size = none;
}

abbrev pub i32_max : ℕ
i32_max = 2 ^ 31 - 1

unfoldable pub validate_http2_value : Option ℕ → ℕ → Text → Checked
validate_http2_value none max name = success tt
validate_http2_value (some value) max name =
    ensure (not (value == 0 || ltb max value)) (bad_http2_value name max)

-- `Http2Options::validate`
unfoldable pub validate_http2 : Http2Options → Checked
validate_http2 o = do
  validate_http2_value o.max_concurrent_streams u32_max (codes "http2_max_concurrent_streams")
  validate_http2_value o.max_header_list_size u32_max (codes "http2_max_header_list_size")
  validate_http2_value o.stream_window_size i32_max (codes "http2_stream_window_size")
  validate_http2_value o.connection_window_size i32_max (codes "http2_connection_window_size")

-- `UpstreamHttp2Options::validate`
unfoldable pub validate_upstream_http2 : UpstreamHttp2Options → Checked
validate_upstream_http2 o = do
  validate_http2_value o.max_concurrent_streams u32_max (codes "proxy_http2_max_concurrent_streams")
  validate_http2_value o.stream_window_size i32_max (codes "proxy_http2_stream_window_size")
  validate_http2_value o.connection_window_size i32_max (codes "proxy_http2_connection_window_size")
