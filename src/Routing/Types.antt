-- ===== src/Routing/Types.antt =====
-- The compiled routes of crates/ngxora-runtime/src/upstreams/types.rs. Texts are byte strings.
use ngxora.Base.{ℕ, Bool, List, Option, Text}
use ngxora.Net.{IpAddr}
use ngxora.Cache.Types.{CacheConfig}
use ngxora.Compile.Ir.Options.{
  ClientLimits, UpstreamTimeouts, UpstreamHttpProtocol, UpstreamHttp2Options, UpstreamSslOptions,
}
use ngxora.Compile.Ir.Locations.{UrlRewrite}
pub use ngxora.Compile.Ir.Matches.{
  HttpPathMatch, path_prefix, HttpMatch, PathModifier, replace_full_path, replace_prefix_match,
  HttpRedirect, IpNet, LocationIpRule, allow, deny, allow_all, deny_all, PluginSpec,
}

-- The compiled `regex::Regex` is the test that it performs.
pub record CompiledRegex : Type 0 where
  pub case_insensitive : Bool
  pub pattern : Text
  pub regex : Text → Bool

pub data CompiledMatcher : Type 0 where
  http : HttpMatch → CompiledMatcher
  prefix : Text → CompiledMatcher
  exact : Text → CompiledMatcher
  regex : CompiledRegex → CompiledMatcher
  prefer_prefix : Text → CompiledMatcher
  named : Text → CompiledMatcher

-- `Vec<CompiledWeightedBackend>` is the list type of the block.
mutual
  pub data RouteTarget : Type 0 where
    weighted_backends : Backends → RouteTarget
    direct_response : ℕ → RouteTarget
    http_redirect : HttpRedirect → RouteTarget
    scp : Text → RouteTarget
    proxy_pass : Text → ℕ → Bool → Text → RouteTarget
    upstream_group : Text → Bool → RouteTarget
    return_ : ℕ → Text → RouteTarget

  pub data Backends : Type 0 where
    no_backends : Backends
    backend : ℕ → RouteTarget → Backends → Backends

pub record CompiledLocation : Type 0 where
  pub client_limits : ClientLimits
  pub url_rewrite : Option UrlRewrite
  pub route_id : ℕ
  pub matcher : CompiledMatcher
  pub access_rules : List LocationIpRule
  pub target : RouteTarget
  pub upstream_timeouts : UpstreamTimeouts
  pub upstream_protocol : Option UpstreamHttpProtocol
  pub upstream_http2 : UpstreamHttp2Options
  pub upstream_ssl_options : UpstreamSslOptions
  pub plugins : List PluginSpec
  pub cache : Option CacheConfig

pub record ServerRoutes : Type 0 where
  pub locations : List CompiledLocation

pub record VirtualHostRoutes : Type 0 where
  pub named : List (Text × ServerRoutes)
  pub default : Option ServerRoutes

pub record ListenKey : Type 0 where
  pub addr : IpAddr
  pub port : ℕ
  pub ssl : Bool
