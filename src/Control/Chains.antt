-- ===== src/Control/Chains.antt =====
-- control.rs: what a snapshot keeps for each route, its plugin chain and the counter of its backends.
use ngxora.Base.{
  ℕ, Bool, true, false, List, [], ◌∷◌, ◌++◌, map, none, some, Text, nat_has_eq, lookup, insert,
  if◌then◌else◌,
}
use ngxora.Outcome.{Outcome, success, ◌>>=◌}
use ngxora.Routing.Types.{
  ListenKey, VirtualHostRoutes, ServerRoutes, CompiledLocation, PluginSpec, RouteTarget,
  weighted_backends,
}

-- `named.values().chain(default.iter())`
abbrev pub servers_of : VirtualHostRoutes → List ServerRoutes
servers_of vhosts =
    map (λ (n : Text × ServerRoutes). n.1) vhosts.named
    ++ elim vhosts.default [ none ↦ [] | some routes ↦ routes ∷ [] ]

-- The chains by route, built so far.
module _ {Chain : Type 0} (build_chain : List PluginSpec → Outcome Text Chain) where
  abbrev pub Chains : Type 0
  Chains = List (ℕ × Chain)

  unfoldable pub collect_from_locations : List CompiledLocation → Chains → Outcome Text Chains
  collect_from_locations [] chains = success chains
  collect_from_locations (location ∷ rest) chains = elim (lookup location.route_id chains) [
    | some chain ↦ collect_from_locations rest chains
    | none ↦ do
      chain ← build_chain location.plugins
      collect_from_locations rest (insert location.route_id chain chains)
  ]

  unfoldable pub collect_from_servers : List ServerRoutes → Chains → Outcome Text Chains
  collect_from_servers [] chains = success chains
  collect_from_servers (routes ∷ rest) chains = do
    chains' ← collect_from_locations routes.locations chains
    collect_from_servers rest chains'

  unfoldable pub collect_from_listeners :
      List (ListenKey × VirtualHostRoutes) → Chains → Outcome Text Chains
  collect_from_listeners [] chains = success chains
  collect_from_listeners ((_, vhosts) ∷ rest) chains = do
    chains' ← collect_from_servers (servers_of vhosts) chains
    collect_from_listeners rest chains'

-- A route with weighted backends has a counter.
abbrev pub is_weighted : RouteTarget → Bool
is_weighted (weighted_backends _) = true
is_weighted _ = false

abbrev pub locations_of : List ServerRoutes → List CompiledLocation
locations_of [] = []
locations_of (routes ∷ rest) = routes.locations ++ locations_of rest

abbrev pub all_locations : List (ListenKey × VirtualHostRoutes) → List CompiledLocation
all_locations [] = []
all_locations ((_, vhosts) ∷ rest) = locations_of (servers_of vhosts) ++ all_locations rest

unfoldable pub backend_counters : List CompiledLocation → List (ℕ × ℕ)
backend_counters [] = []
backend_counters (route ∷ rest) =
    let counters = backend_counters rest in
    if is_weighted route.target then insert route.route_id 0 counters else counters
