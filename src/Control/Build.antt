-- ===== src/Control/Build.antt =====
-- What a runtime snapshot has for the routes and upstream groups of its router.
use ngxora.Base.{
  ℕ, ◌≡◌, inl, inr, refl, List, [], ◌∷◌, Option, some, Text, nat_has_eq, text_has_eq, lookup,
  insert, KeepsAll, insert-KeepsAll, lookup-insert_self, All, All-append, Bool-cases, Option-cases,
}
use ngxora.Outcome.{Outcome, success, >>=-success}
use ngxora.Routing.Types.{ListenKey, VirtualHostRoutes, ServerRoutes, CompiledLocation, PluginSpec}
use ngxora.Upstreams.{CompiledUpstreamGroup, group_has_eq}
use ngxora.Control.{Builders, RuntimeSnapshot, kept_group, or_build, build_runtime_upstream_groups}
use ngxora.Control.Chains.{
  servers_of, locations_of, all_locations, collect_from_locations, collect_from_servers,
  collect_from_listeners,
}

module _ {Chain : Type 0} (build_chain : List PluginSpec → Outcome Text Chain) where
  -- The route has a chain.
  abbrev pub HasChain : List (ℕ × Chain) → CompiledLocation → Type 0
  HasChain chains l = (chain : Chain) × (lookup l.route_id chains ≡ some chain)

  collect_from_locations_lem :
      (ls : List CompiledLocation) (chains chains' : List (ℕ × Chain))
      → collect_from_locations build_chain ls chains ≡ success chains'
      → KeepsAll chains chains' × All (HasChain chains') ls
  unfolding collect_from_locations
  collect_from_locations_lem [] chains chains' h =
      (λ id c e. (let k : chains ≡ chains' = (cc) in rw (← k) e), tt)
  collect_from_locations_lem (l ∷ ls) chains chains' h =
      elim (Option-cases (lookup l.route_id chains)) [
        | inr (c, e) ↦
            let (k, a) =
              collect_from_locations_lem ls chains chains' (rw (e, collect_from_locations) at h) in
            (k, ((c, k l.route_id c e), a))
        | inl e ↦
            let (c, f, h') =
              >>=-success (build_chain l.plugins) _ (rw (e, collect_from_locations) at h) in
            let (k, a) = collect_from_locations_lem ls (insert l.route_id c chains) chains' h' in
            (
              λ id c' g. k id c' (insert-KeepsAll l.route_id c chains e id c' g),
              ((c, k l.route_id c (lookup-insert_self l.route_id c chains)), a),
            )
      ]

  -- Every location of the servers has a chain.
  abbrev pub IsCovered : List (ℕ × Chain) → ServerRoutes → Type 0
  IsCovered chains routes = All (HasChain chains) routes.locations

  All-kept :
      (chains chains' : List (ℕ × Chain)) (ls : List CompiledLocation)
      → KeepsAll chains chains'
      → All (HasChain chains) ls
      → All (HasChain chains') ls
  All-kept chains chains' [] k a = tt
  All-kept chains chains' (l ∷ ls) k ((c, e), a) =
      ((c, k l.route_id c e), All-kept chains chains' ls k a)

  collect_from_servers_lem :
      (ss : List ServerRoutes) (chains chains' : List (ℕ × Chain))
      → collect_from_servers build_chain ss chains ≡ success chains'
      → KeepsAll chains chains' × All (IsCovered chains') ss
  unfolding collect_from_servers
  collect_from_servers_lem [] chains chains' h =
      (λ id c e. (let k : chains ≡ chains' = (cc) in rw (← k) e), tt)
  collect_from_servers_lem (s ∷ ss) chains chains' h =
      let (mid, f, h') = >>=-success (collect_from_locations build_chain s.locations chains) _ h in
      let (k, a) = collect_from_locations_lem s.locations chains mid f in
      let (k', a') = collect_from_servers_lem ss mid chains' h' in
      (λ id c e. k' id c (k id c e), (All-kept mid chains' s.locations k' a, a'))

  All-Keeps :
      (chains chains' : List (ℕ × Chain)) (ss : List ServerRoutes)
      → KeepsAll chains chains'
      → All (IsCovered chains) ss
      → All (IsCovered chains') ss
  All-Keeps chains chains' [] k a = tt
  All-Keeps chains chains' (s ∷ ss) k (p, a) =
      (All-kept chains chains' s.locations k p, All-Keeps chains chains' ss k a)

  -- Every location that a listener reaches has a chain.
  abbrev pub IsServed : List (ℕ × Chain) → ListenKey × VirtualHostRoutes → Type 0
  IsServed chains listener = All (IsCovered chains) (servers_of listener.1)

  pub collect_from_listeners_lem :
      (ls : List (ListenKey × VirtualHostRoutes)) (chains chains' : List (ℕ × Chain))
      → collect_from_listeners build_chain ls chains ≡ success chains'
      → KeepsAll chains chains' × All (IsServed chains') ls
  unfolding collect_from_listeners
  collect_from_listeners_lem [] chains chains' h =
      (λ id c e. (let k : chains ≡ chains' = (cc) in rw (← k) e), tt)
  collect_from_listeners_lem ((key, v) ∷ ls) chains chains' h =
      let (mid, f, h') = >>=-success (collect_from_servers build_chain (servers_of v) chains) _ h in
      let (k, a) = collect_from_servers_lem (servers_of v) chains mid f in
      let (k', a') = collect_from_listeners_lem ls mid chains' h' in
      (λ id c e. k' id c (k id c e), (All-Keeps mid chains' (servers_of v) k' a, a'))

module _ {Chain : Type 0} (build_chain : List PluginSpec → Outcome Text Chain) where
  covered-locations_of :
      (chains : List (ℕ × Chain)) (ss : List ServerRoutes)
      → All (IsCovered build_chain chains) ss
      → All (HasChain build_chain chains) (locations_of ss)
  covered-locations_of chains [] a = tt
  covered-locations_of chains (s ∷ ss) a =
      All-append _ s.locations (locations_of ss) a.0 (covered-locations_of chains ss a.1)

  pub served-all_locations :
      (chains : List (ℕ × Chain)) (ls : List (ListenKey × VirtualHostRoutes))
      → All (IsServed build_chain chains) ls
      → All (HasChain build_chain chains) (all_locations ls)
  served-all_locations chains [] a = tt
  served-all_locations chains ((key, v) ∷ ls) a =
      All-append _ (locations_of (servers_of v)) (all_locations ls)
        (covered-locations_of chains (servers_of v) a.0) (served-all_locations chains ls a.1)

module _ {G : Type 0} (b : Builders G) where
  -- Every upstream group of the router has a runtime group.
  pub build_runtime_upstream_groups_lem :
      (previous : Option (RuntimeSnapshot b)) (us : List (Text × CompiledUpstreamGroup))
      (groups : List (Text × b.RuntimeUpstreamGroup))
      → build_runtime_upstream_groups b previous us ≡ success groups
      → (name : Text) (group : CompiledUpstreamGroup) → lookup name us ≡ some group
      → (runtime : b.RuntimeUpstreamGroup) × (or_build b
            (kept_group b previous name group)
            (b.from_compiled group)
          ≡ success runtime)
        × (lookup name groups ≡ some runtime)
  unfolding build_runtime_upstream_groups lookup
  build_runtime_upstream_groups_lem previous [] groups h name group e = cc
  build_runtime_upstream_groups_lem previous ((n, g) ∷ us) groups h name group e =
      let (r, f, h1) =
        >>=-success (or_build b (kept_group b previous n g) (b.from_compiled g)) _ h in
      let (rest, f', h2) = >>=-success (build_runtime_upstream_groups b previous us) _ h1 in
      let built : groups ≡ (n, r) ∷ rest = (cc) in
      rw built (elim (Bool-cases (text_has_eq.same n name)) [
        | inl q ↦
            let same : n ≡ name = (text_has_eq.same_iff n name).0 q in
            let this : g ≡ group = (let d = rw (q, lookup) at e in cc) in
            (r, rw (← same, ← this) f, rw (q, lookup) refl)
        | inr q ↦
            let (r', f'', l) =
              build_runtime_upstream_groups_lem previous us rest f' name group
                (rw (q, lookup) at e) in
            (r', f'', rw (q, lookup) l)
      ])
