-- ===== src/Serving/Plugins.antt =====
-- The plugin chains of a router that is compiled.
use ngxora.Base.{ℕ, ◌+◌, ◌<◌, ◌^◌, ◌≡◌, subst, [], Option, Text, nat_has_eq, All-Holds, Holds}
use ngxora.Outcome.{success}
use ngxora.Compile.Ir.{Http}
use ngxora.Compile.Ir.Options.{GeoIpConfig}
use ngxora.Routing.Types.{CompiledLocation}
use ngxora.Routing.Router.{CompiledRouter}
use ngxora.Control.{Builders, RuntimeSnapshot, build_runtime_snapshot, plugin_chain}
use ngxora.Control.Chains.{all_locations}
use ngxora.Control.Build.{HasChain, collect_from_listeners_lem, served-all_locations}
use ngxora.Control.Origin.{
  build_runtime_snapshot-IsSnapshot, IsBuiltFrom-empty, collect_from_listeners-IsBuiltFrom,
}
use ngxora.Upstreams.Crates.{Crates}
use ngxora.Upstreams.Compile.Router.{from_http}
use ngxora.Upstreams.Compile.Reachable.{location_count}
use ngxora.Upstreams.Compile.Routes.{from_http-route_id_inj}

-- In a snapshot that is built from a router that is compiled from fewer than 2 ^ 64 - 1 locations, the
-- plugin chain that a request finds by the number of a reachable location is the one that is built
-- from the plugins of this location.
pub plugin_chain-from_http :
    (crates : Crates) (b : Builders GeoIpConfig) (http : Http) (router : CompiledRouter GeoIpConfig)
    (version : Text) (generation : ℕ) (previous : Option (RuntimeSnapshot b))
    (s : RuntimeSnapshot b) (l : CompiledLocation)
    → from_http crates http ≡ success router
    → 1 + location_count http.servers < 2 ^ 64
    → build_runtime_snapshot b version router generation previous ≡ success s
    → Holds l (all_locations router.listeners)
    → b.build_chain l.plugins ≡ success (plugin_chain b s l.route_id)
unfolding plugin_chain
plugin_chain-from_http crates b http router version generation previous s l compiled small built p =
    let is = build_runtime_snapshot-IsSnapshot b version router generation previous s built in
    let listeners = router.listeners in
    let (_, served) =
      collect_from_listeners_lem b.build_chain listeners [] s.plugin_chains is.chains in
    let (chain, found) =
      All-Holds (HasChain b.build_chain s.plugin_chains) (all_locations listeners)
        (served-all_locations b.build_chain s.plugin_chains listeners served) p in
    let (m, q, same_id, from) =
      collect_from_listeners-IsBuiltFrom b.build_chain (all_locations listeners) listeners []
        s.plugin_chains (λ k r. r) (IsBuiltFrom-empty b.build_chain (all_locations listeners))
        is.chains l.route_id chain found in
    let same = from_http-route_id_inj crates http router m l compiled small q p same_id in
    rw (found, plugin_chain)
      (subst (λ (k : CompiledLocation). b.build_chain k.plugins ≡ success chain) same from)
