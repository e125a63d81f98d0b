-- ===== src/Control/Origin.antt =====
-- The location that each plugin chain of a snapshot is built from.
use ngxora.Base.{
  ℕ, ◌≡◌, inl, inr, refl, subst, List, [], ◌∷◌, Option, some, Text, nat_has_eq, lookup, insert,
  lookup-insert, Holds, here, there, Holds-append_left, Holds-append_right, Bool-cases,
  Option-cases,
}
use ngxora.Outcome.{Outcome, success, >>=-success, >>-both, success_inj}
use ngxora.Routing.Types.{ListenKey, VirtualHostRoutes, ServerRoutes, CompiledLocation, PluginSpec}
use ngxora.Routing.Router.{CompiledRouter}
use ngxora.Control.{
  Builders, RuntimeSnapshot, build_runtime_snapshot, build_runtime_upstream_groups,
  build_scp_profiles,
}
use ngxora.Control.Chains.{
  servers_of, locations_of, all_locations, backend_counters, collect_from_locations,
  collect_from_servers, collect_from_listeners,
}

module _ {Chain : Type 0} (build_chain : List PluginSpec → Outcome Text Chain) where
  -- Each chain is the one of a location with its number.
  abbrev pub IsBuiltFrom : List CompiledLocation → List (ℕ × Chain) → Type 0
  IsBuiltFrom ls chains =
      (id : ℕ) (chain : Chain)
      → lookup id chains ≡ some chain
      → (l : CompiledLocation) × Holds l ls
        × (l.route_id ≡ id)
        × (build_chain l.plugins ≡ success chain)

  pub IsBuiltFrom-empty : (ls : List CompiledLocation) → IsBuiltFrom ls []
  unfolding lookup
  IsBuiltFrom-empty ls id chain h = cc

  IsBuiltFrom-insert :
      (ls : List CompiledLocation) (l : CompiledLocation) (chain : Chain)
      (chains : List (ℕ × Chain))
      → Holds l ls
      → build_chain l.plugins ≡ success chain
      → IsBuiltFrom ls chains
      → IsBuiltFrom ls (insert l.route_id chain chains)
  IsBuiltFrom-insert ls l chain chains p built from id other h =
      elim (Bool-cases (nat_has_eq.same l.route_id id)) [
        | inl q ↦
            let same = (nat_has_eq.same_iff l.route_id id).0 q in
            let this : chain ≡ other =
              (let d = rw (lookup-insert id l.route_id chain chains, q) at h in cc) in
            (l, p, same, subst (λ c. build_chain l.plugins ≡ success c) this built)
        | inr q ↦ from id other (rw (lookup-insert id l.route_id chain chains, q) at h)
      ]

  collect_from_locations-IsBuiltFrom :
      (book ls : List CompiledLocation) (chains chains' : List (ℕ × Chain))
      → ((l : CompiledLocation) → Holds l ls → Holds l book)
      → IsBuiltFrom book chains
      → collect_from_locations build_chain ls chains ≡ success chains'
      → IsBuiltFrom book chains'
  unfolding collect_from_locations
  collect_from_locations-IsBuiltFrom book [] chains chains' sub from h =
      subst (IsBuiltFrom book) (success_inj chains chains' h) from
  collect_from_locations-IsBuiltFrom book (l ∷ ls) chains chains' sub from h =
      elim (Option-cases (lookup l.route_id chains)) [
        | inr (c, e) ↦
            collect_from_locations-IsBuiltFrom book ls chains chains' (λ m p. sub m (there p)) from
              (rw (e, collect_from_locations) at h)
        | inl e ↦
            let (c, f, h') =
              >>=-success (build_chain l.plugins) _ (rw (e, collect_from_locations) at h) in
            collect_from_locations-IsBuiltFrom book ls (insert l.route_id c chains) chains'
              (λ m p. sub m (there p)) (IsBuiltFrom-insert book l c chains (sub l here) f from) h'
      ]

  collect_from_servers-IsBuiltFrom :
      (book : List CompiledLocation) (ss : List ServerRoutes) (chains chains' : List (ℕ × Chain))
      → ((l : CompiledLocation) → Holds l (locations_of ss) → Holds l book)
      → IsBuiltFrom book chains
      → collect_from_servers build_chain ss chains ≡ success chains'
      → IsBuiltFrom book chains'
  unfolding collect_from_servers
  collect_from_servers-IsBuiltFrom book [] chains chains' sub from h =
      subst (IsBuiltFrom book) (success_inj chains chains' h) from
  collect_from_servers-IsBuiltFrom book (s ∷ ss) chains chains' sub from h =
      let (mid, f, h') = >>=-success (collect_from_locations build_chain s.locations chains) _ h in
      let from' =
        collect_from_locations-IsBuiltFrom book s.locations chains mid
          (λ l p. sub l (Holds-append_left s.locations (locations_of ss) p)) from f in
      collect_from_servers-IsBuiltFrom book ss mid chains'
        (λ l p. sub l (Holds-append_right s.locations (locations_of ss) p)) from' h'

  pub collect_from_listeners-IsBuiltFrom :
      (book : List CompiledLocation) (ls : List (ListenKey × VirtualHostRoutes))
      (chains chains' : List (ℕ × Chain))
      → ((l : CompiledLocation) → Holds l (all_locations ls) → Holds l book)
      → IsBuiltFrom book chains
      → collect_from_listeners build_chain ls chains ≡ success chains'
      → IsBuiltFrom book chains'
  unfolding collect_from_listeners
  collect_from_listeners-IsBuiltFrom book [] chains chains' sub from h =
      subst (IsBuiltFrom book) (success_inj chains chains' h) from
  collect_from_listeners-IsBuiltFrom book ((key, v) ∷ ls) chains chains' sub from h =
      let (mid, f, h') = >>=-success (collect_from_servers build_chain (servers_of v) chains) _ h in
      let here_all = locations_of (servers_of v) in
      let from' =
        collect_from_servers-IsBuiltFrom book (servers_of v) chains mid
          (λ l p. sub l (Holds-append_left here_all (all_locations ls) p)) from f in
      collect_from_listeners-IsBuiltFrom book ls mid chains'
        (λ l p. sub l (Holds-append_right here_all (all_locations ls) p)) from' h'

module _ {G : Type 0} (b : Builders G) where
  -- The parts of a snapshot, each built from its router.
  pub record IsSnapshot (router : CompiledRouter G) (previous : Option (RuntimeSnapshot b))
      (s : RuntimeSnapshot b) : Type 0 where
    pub router_is : s.router ≡ router
    pub chains : collect_from_listeners b.build_chain router.listeners [] ≡ success s.plugin_chains
    pub groups :
        build_runtime_upstream_groups b previous router.upstreams ≡ success s.upstream_groups
    pub counters : s.backend_counters ≡ backend_counters (all_locations router.listeners)

  pub build_runtime_snapshot-IsSnapshot :
      (version : Text) (router : CompiledRouter G) (generation : ℕ)
      (previous : Option (RuntimeSnapshot b)) (s : RuntimeSnapshot b)
      → build_runtime_snapshot b version router generation previous ≡ success s
      → IsSnapshot router previous s
  unfolding build_runtime_snapshot
  build_runtime_snapshot-IsSnapshot version router generation previous s h =
      let (_, h0) = >>-both _ _ h in
      let (chains, c, h1) =
        >>=-success (collect_from_listeners b.build_chain router.listeners []) _ h0 in
      let (groups, g, h2) =
        >>=-success (build_runtime_upstream_groups b previous router.upstreams) _ h1 in
      let (material, m, h3) = >>=-success (b.build_tls_material router) _ h2 in
      let (profiles, p, h4) =
        >>=-success (build_scp_profiles b previous router.upstreams router.scp_profiles) _ h3 in
      subst (IsSnapshot router previous) (success_inj _ s h4)
        (record { router_is = refl; chains = c; groups = g; counters = refl })
