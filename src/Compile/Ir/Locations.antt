-- ===== src/Compile/Ir/Locations.antt =====
-- crates/ngxora-compile/src/ir.rs: locations and their directives.
use ngxora.Base.{ℕ, Bool, List, Option, Text}
use ngxora.Cache.Types.{CacheConfig}
use ngxora.Compile.Ir.Matches.{HttpMatch, PathModifier, HttpRedirect, LocationIpRule, PluginSpec}
use ngxora.Compile.Ir.Options.{PemSource, Switch, UpstreamHttpProtocol}

pub data LocationMatcher : Type 0 where
  http : HttpMatch → LocationMatcher
  prefix exact : Text → LocationMatcher
  regex : Bool → Text → LocationMatcher
  prefer_prefix named : Text → LocationMatcher

pub data ProxyPassTarget : Type 0 where
  url : Text → ProxyPassTarget
  upstream_group : Text → Bool → ProxyPassTarget

pub data BackendTarget : Type 0 where
  upstream : ProxyPassTarget → BackendTarget
  response : ℕ → BackendTarget

pub record WeightedBackend : Type 0 where
  pub weight : ℕ
  pub target : BackendTarget

pub record UrlRewrite : Type 0 where
  pub hostname : Option Text
  pub path : Option PathModifier

pub data LocationDirective : Type 0 where
  client_max_body_size client_body_timeout send_timeout : ℕ → LocationDirective
  allow_methods : List Text → LocationDirective
  weighted_backends : List WeightedBackend → LocationDirective
  direct_response : ℕ → LocationDirective
  http_redirect : HttpRedirect → LocationDirective
  url_rewrite : UrlRewrite → LocationDirective
  scp_pass : Text → LocationDirective
  proxy_pass : ProxyPassTarget → LocationDirective
  proxy_connect_timeout proxy_read_timeout proxy_write_timeout : ℕ → LocationDirective
  proxy_upstream_protocol : UpstreamHttpProtocol → LocationDirective
  proxy_http2_max_concurrent_streams proxy_http2_stream_window_size : ℕ → LocationDirective
  proxy_http2_connection_window_size : ℕ → LocationDirective
  proxy_ssl_verify : Switch → LocationDirective
  proxy_ssl_trusted_certificate proxy_ssl_certificate : PemSource → LocationDirective
  proxy_ssl_certificate_key : PemSource → LocationDirective
  root try_files : Text → LocationDirective
  return_ : ℕ → Text → LocationDirective

pub record Location : Type 0 where
  pub matcher : LocationMatcher
  pub access_rules : List LocationIpRule
  pub directives : List LocationDirective
  pub plugins : List PluginSpec
  pub cache : Option CacheConfig
