-- ===== src/Upstreams/Compile/Targets.antt =====
-- compile/routes.rs: the target of a location and the protocol that it is reached by.
use ngxora.Base.{
  ℕ, Bool, true, false, not, ◌&&◌, List, [], ◌∷◌, Option, none, some, Text, codes, leb, is_some,
  if◌then◌else◌, text_eq, lookup, text_has_eq,
}
use ngxora.Outcome.{success, failure, ◌>>=◌, ◌>>◌, ok_or, ensure}
use ngxora.Compile.Ir.Upstream.{NrfEndpointScheme, http, https}
use ngxora.Compile.Ir.Options.{UpstreamHttpProtocol, h1, h2, h2c}
use ngxora.Compile.Ir.Locations as Ir
use ngxora.Compile.Ir.Locations.{
  Location, LocationDirective, ProxyPassTarget, BackendTarget, WeightedBackend,
}
use ngxora.Compile.Validate.{is_empty}
use ngxora.Routing.Types.{
  RouteTarget, Backends, no_backends, backend, weighted_backends, direct_response, http_redirect,
  scp, proxy_pass, upstream_group, return_,
}
use ngxora.Upstreams.{CompiledUpstreamGroup, CompiledNrfDiscovery}
use ngxora.Upstreams.Crates.{Crates, Url}
use ngxora.Upstreams.Compile.Errors.{
  Compiled, duplicate_directive, bad_direct_status, empty_backends, heavy_backend,
  bad_backend_target, bad_proxy_scheme, unknown_upstream, nrf_scheme_mismatch, scp_protocol,
  h2_needs_tls, h2c_needs_plaintext,
}
use ngxora.Upstreams.Compile.Groups.{normalize_upstream_name}

abbrev pub Groups : Type 0
Groups = List (Text × CompiledUpstreamGroup)

unfoldable pub proxy_pass_tls : Text → Option Bool
proxy_pass_tls scheme =
    if text_eq scheme (codes "http")
    then some false
    else (if text_eq scheme (codes "https") then some true else none)

abbrev pub expects_tls : NrfEndpointScheme → Bool
expects_tls https = true
expects_tls http = false

abbrev pub same_bool : Bool → Bool → Bool
same_bool true b = b
same_bool false b = not b

abbrev pub is_nrf_scheme : Option CompiledNrfDiscovery → Bool → Bool
is_nrf_scheme none tls = true
is_nrf_scheme (some discovery) tls = same_bool tls (expects_tls discovery.endpoint_scheme)

unfoldable pub validate_nrf_route_scheme : CompiledUpstreamGroup → Bool → Compiled (Unit {0})
validate_nrf_route_scheme group tls =
    ensure (is_nrf_scheme group.nrf_discovery tls) (nrf_scheme_mismatch group.name)

unfoldable pub validate_direct_status : ℕ → Compiled (Unit {0})
validate_direct_status status = ensure (leb 200 status && leb status 599) bad_direct_status

module _ (crates : Crates) where
  -- `proxy_pass_sni` of compile.rs
  unfoldable pub proxy_pass_sni : Text → Bool → Text
  proxy_pass_sni host tls = if tls && not (crates.is_ip_addr host) then host else []

  -- A URL that may name a group: nothing but a scheme and a host.
  abbrev pub is_plain : Url → Bool
  is_plain url =
      not (is_some url.port)
      && (is_empty url.username
          && (not (is_some url.password)
              && (not (is_some url.query)
                  && (not (is_some url.fragment) && text_eq url.path (codes "/")))))

  unfoldable pub upstream_group_from_url : Url → Groups → Option CompiledUpstreamGroup
  upstream_group_from_url url upstreams =
      if is_plain url
      then elim url.host_str [
        | none ↦ none
        | some host ↦ lookup (normalize_upstream_name host) upstreams
      ]
      else none

  -- A URL that names no group.
  unfoldable pub target_of_url : Url → Option RouteTarget
  target_of_url url = elim url.host_str [
    | none ↦ none
    | some host ↦ elim url.port_or_known_default [
      | none ↦ none
      | some port ↦ elim (proxy_pass_tls url.scheme) [
        | none ↦ none
        | some tls ↦ some (proxy_pass host port tls (proxy_pass_sni host tls))
      ]
    ]
  ]

  -- The target of a group that is reached with or without TLS.
  unfoldable pub target_of_group : CompiledUpstreamGroup → Bool → Compiled (Option RouteTarget)
  target_of_group group tls = do
    validate_nrf_route_scheme group tls
    success (some (upstream_group group.name tls))

  -- The arms of `route_target_from_directive` on `ProxyPass`.
  unfoldable pub proxy_target : ProxyPassTarget → Groups → Compiled (Option RouteTarget)
  proxy_target (Ir.url text) upstreams =
      elim (upstream_group_from_url (crates.url text) upstreams) [
        | none ↦ success (target_of_url (crates.url text))
        | some group ↦ do
          tls ←
              ok_or (bad_proxy_scheme (crates.url text).scheme)
                (proxy_pass_tls (crates.url text).scheme)
          target_of_group group tls
      ]
  proxy_target (Ir.upstream_group name tls) upstreams = do
    group ← ok_or (unknown_upstream name) (lookup (normalize_upstream_name name) upstreams)
    target_of_group group tls

  unfoldable pub direct_target : ℕ → Compiled (Option RouteTarget)
  direct_target status = do validate_direct_status status; success (some (direct_response status))

  unfoldable pub backend_target : BackendTarget → Groups → Compiled (Option RouteTarget)
  backend_target (Ir.upstream target) upstreams = proxy_target target upstreams
  backend_target (Ir.response status) upstreams = direct_target status

  unfoldable pub compile_backends : List WeightedBackend → Groups → Compiled Backends
  compile_backends [] upstreams = success no_backends
  compile_backends (b ∷ bs) upstreams = do
    ensure (leb b.weight 1_000_000) heavy_backend
    found ← backend_target b.target upstreams
    target ← ok_or bad_backend_target found
    rest ← compile_backends bs upstreams
    success (backend b.weight target rest)

  unfoldable pub route_target_from_directive :
      LocationDirective → Groups → Compiled (Option RouteTarget)
  route_target_from_directive (Ir.direct_response status) upstreams = direct_target status
  route_target_from_directive (Ir.http_redirect config) upstreams =
      success (some (http_redirect config))
  route_target_from_directive (Ir.weighted_backends backends) upstreams = do
    ensure (not (is_empty backends)) empty_backends
    compiled ← compile_backends backends upstreams
    success (some (weighted_backends compiled))
  route_target_from_directive (Ir.scp_pass profile) upstreams = success (some (scp profile))
  route_target_from_directive (Ir.proxy_pass target) upstreams = proxy_target target upstreams
  route_target_from_directive (Ir.return_ status location) upstreams =
      success (some (return_ status location))
  route_target_from_directive _ upstreams = success none

  -- `find_map` over the directives.
  unfoldable pub route_target : List LocationDirective → Groups → Compiled (Option RouteTarget)
  route_target [] upstreams = success none
  route_target (directive ∷ rest) upstreams = do
    found ← route_target_from_directive directive upstreams
    elim found [ some target ↦ success (some target) | none ↦ route_target rest upstreams ]

-- `replace` of a slot that must be empty, as `set_timeout_once`.
abbrev pub set_once : {T : Type 0} → Text → T → Option T → Compiled (Option T)
set_once name value none = success (some value)
set_once name value (some it) = failure (duplicate_directive name)

unfoldable pub collect_protocol :
    List LocationDirective → Option UpstreamHttpProtocol → Compiled (Option UpstreamHttpProtocol)
collect_protocol [] protocol = success protocol
collect_protocol (Ir.proxy_upstream_protocol value ∷ rest) protocol = do
  protocol' ← set_once (codes "proxy_upstream_protocol") value protocol
  collect_protocol rest protocol'
collect_protocol (_ ∷ rest) protocol = collect_protocol rest protocol

-- A protocol over a target that uses TLS or not.
abbrev pub check_transport : UpstreamHttpProtocol → Bool → Compiled (Unit {0})
check_transport h1 tls = success tt
check_transport h2 tls = ensure tls h2_needs_tls
check_transport h2c tls = ensure (not tls) h2c_needs_plaintext

unfoldable mutual
  pub check_protocol : UpstreamHttpProtocol → RouteTarget → Compiled (Option UpstreamHttpProtocol)
  check_protocol protocol (scp profile) = failure scp_protocol
  check_protocol protocol (proxy_pass host port tls sni) =
      check_transport protocol tls >> success (some protocol)
  check_protocol protocol (upstream_group name tls) =
      check_transport protocol tls >> success (some protocol)
  check_protocol protocol (weighted_backends backends) =
      check_backends protocol backends >> success (some protocol)
  check_protocol protocol (return_ status location) = success none
  check_protocol protocol (direct_response status) = success none
  check_protocol protocol (http_redirect config) = success none

  pub check_backends : UpstreamHttpProtocol → Backends → Compiled (Unit {0})
  check_backends protocol no_backends = success tt
  check_backends protocol (backend weight target rest) =
      check_protocol protocol target >>= λ _. check_backends protocol rest

unfoldable pub compile_upstream_protocol :
    List LocationDirective → RouteTarget → Compiled (Option UpstreamHttpProtocol)
compile_upstream_protocol directives target = do
  protocol ← collect_protocol directives none
  elim protocol [ none ↦ success none | some p ↦ check_protocol p target ]
