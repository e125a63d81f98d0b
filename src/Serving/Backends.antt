-- ===== src/Serving/Backends.antt =====
-- The backends of a router that is compiled.
use ngxora.Base.{
  ℕ, ◌+◌, ◌<◌, ◌^◌, ◌≡◌, refl, sym, subst, true, List, Option, some, Text, nat_has_eq, text_has_eq,
  lookup, All-Holds, Holds,
}
use ngxora.Net.{IpAddr}
use ngxora.Outcome.{success}
use ngxora.Compile.Ir.{Http}
use ngxora.Compile.Ir.Options.{GeoIpConfig}
use ngxora.Routing.Types as Types
use ngxora.Routing.Types.{
  CompiledLocation, RouteTarget, Backends, no_backends, backend, weighted_backends, direct_response,
  http_redirect, scp, proxy_pass, return_,
}
use ngxora.Routing.Router.{CompiledRouter}
use ngxora.Control.{Builders, RuntimeSnapshot, build_runtime_snapshot, upstream_group}
use ngxora.Control.Chains.{all_locations, is_weighted}
use ngxora.Control.Build.{build_runtime_upstream_groups_lem}
use ngxora.Control.Origin.{build_runtime_snapshot-IsSnapshot}
use ngxora.Selection.Target.{Answers, Counters, Request, select_backend_target}
use ngxora.Selection.Answered.{
  IsAnswered, HasCounter, backend_counters-HasCounter, IsFound, AreFound, select_backend-IsAnswered,
  select_weighted-IsAnswered,
}
use ngxora.Selection.Counting.{After, After-HasCounter}
use ngxora.Upstreams.{CompiledUpstreamGroup}
use ngxora.Upstreams.Crates.{Crates}
use ngxora.Upstreams.Compile.Groups.{normalize_upstream_name}
use ngxora.Upstreams.Compile.Locations.{takes_rewrite}
use ngxora.Upstreams.Compile.Naming.{IsBackend, AreBackends, IsResolved}
use ngxora.Upstreams.Compile.Targets.{Groups}
use ngxora.Upstreams.Compile.Router.{from_http}
use ngxora.Upstreams.Compile.Reachable.{location_count}
use ngxora.Upstreams.Compile.Routes.{from_http-IsRouted, reachable-listed}

module _ {G : Type 0} (b : Builders G) (a : Answers b) (request : Request b a) (upstreams : Groups)
    (grouped : (name : Text) (group : CompiledUpstreamGroup)
      → lookup name upstreams ≡ some group
      → (runtime : b.RuntimeUpstreamGroup) × (lookup name request.snapshot.upstream_groups
          ≡ some runtime)) where
  IsBackend-IsFound :
      (target : RouteTarget) → IsBackend upstreams target → IsFound b a request target
  unfolding upstream_group normalize_upstream_name
  IsBackend-IsFound (Types.upstream_group name tls) (group, e, _) =
      grouped (normalize_upstream_name name) group e
  IsBackend-IsFound (proxy_pass host port tls sni) is = tt
  IsBackend-IsFound (direct_response code) is = tt
  IsBackend-IsFound (weighted_backends _) is = elim is [ ]
  IsBackend-IsFound (http_redirect config) is = elim is [ ]
  IsBackend-IsFound (scp profile) is = elim is [ ]
  IsBackend-IsFound (return_ code location) is = elim is [ ]

  AreBackends-AreFound : (bs : Backends) → AreBackends upstreams bs → AreFound b a request bs
  AreBackends-AreFound no_backends are = tt
  AreBackends-AreFound (backend weight target rest) (_, is, are) =
      (IsBackend-IsFound target is, AreBackends-AreFound rest are)

  IsResolved-IsAnswered :
      (target : RouteTarget) (counters : Counters)
      → takes_rewrite target ≡ true
      → IsResolved upstreams target
      → (is_weighted target ≡ true → HasCounter request.route_id counters)
      → IsAnswered (select_backend_target b a request target counters).0
  IsResolved-IsAnswered (weighted_backends bs) counters t is counted =
      select_weighted-IsAnswered b a request bs counters (AreBackends-AreFound bs is) (counted refl)
  IsResolved-IsAnswered (Types.upstream_group name tls) counters t is counted =
      select_backend-IsAnswered b a request (Types.upstream_group name tls) counters
        (IsBackend-IsFound (Types.upstream_group name tls) is)
  IsResolved-IsAnswered (proxy_pass host port tls sni) counters t is counted =
      select_backend-IsAnswered b a request (proxy_pass host port tls sni) counters tt
  IsResolved-IsAnswered (direct_response code) counters t is counted = cc
  IsResolved-IsAnswered (http_redirect config) counters t is counted = cc
  IsResolved-IsAnswered (scp profile) counters t is counted = cc
  IsResolved-IsAnswered (return_ code location) counters t is counted = cc

-- In a snapshot that is built from a router that is compiled from fewer than 2 ^ 64 - 1 locations, a
-- request to a reachable location that passes to upstreams ends, after any requests at the snapshot
-- before it, with an upstream or a status or with the error 503, never with another error.
pub select_backend_target-from_http :
    (crates : Crates) (b : Builders GeoIpConfig) (a : Answers b) (http : Http)
    (router : CompiledRouter GeoIpConfig) (version : Text) (generation : ℕ)
    (previous : Option (RuntimeSnapshot b)) (s : RuntimeSnapshot b) (l : CompiledLocation)
    (get_all : Text → List Text) (client_ip : Option IpAddr) (counters : Counters)
    → from_http crates http ≡ success router
    → 1 + location_count http.servers < 2 ^ 64
    → build_runtime_snapshot b version router generation previous ≡ success s
    → Holds l (all_locations router.listeners)
    → takes_rewrite l.target ≡ true
    → After b a s counters
    → IsAnswered
        (select_backend_target b a
          (record { snapshot = s; route_id = l.route_id; get_all = get_all; client_ip = client_ip })
          l.target
          counters).0
select_backend_target-from_http crates b a http router version generation previous s l get_all
      client_ip counters compiled small built p t after =
    let is = build_runtime_snapshot-IsSnapshot b version router generation previous s built in
    let (book, routed) = from_http-IsRouted crates http router compiled small in
    let resolved =
      All-Holds _ book routed.resolved (reachable-listed crates router book routed l p) in
    let grouped =
      build_runtime_upstream_groups_lem b previous router.upstreams s.upstream_groups is.groups in
    IsResolved-IsAnswered b a
      (record { snapshot = s; route_id = l.route_id; get_all = get_all; client_ip = client_ip })
      router.upstreams (λ name group e. let (r, _, found) = grouped name group e in (r, found))
      l.target counters t resolved.0
      (λ w. After-HasCounter b a s counters l.route_id after (
        subst (HasCounter l.route_id) (sym is.counters)
          (backend_counters-HasCounter (all_locations router.listeners) l p w)))
