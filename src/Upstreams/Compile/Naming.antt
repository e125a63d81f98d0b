-- ===== src/Upstreams/Compile/Naming.antt =====
-- compile/upstream_groups.rs and compile/routes.rs: the upstream groups that compiled targets name.
use ngxora.Base.{
  ℕ, ◌≤◌, ◌≡◌, sym, ap, subst, Bool, true, not, List, [], ◌∷◌, Option, none, some, Text, leb,
  leb→le, is_some, lookup, insert, text_has_eq, Entries, Entries-lookup, Entries-insert,
  Option-cases, if-cases, inl, inr,
}
use ngxora.Outcome.{
  success, ok_or, >>=-success, >>-success, >>-both, success_inj, ensure, ensure-true, ok_or-success,
}
use ngxora.Compile.Ir.Locations as Ir
use ngxora.Compile.Ir.Locations.{LocationDirective, ProxyPassTarget, BackendTarget, WeightedBackend}
use ngxora.Compile.Ir.Upstream.{UpstreamBlock}
use ngxora.Routing.Types.{
  RouteTarget, Backends, no_backends, backend, weighted_backends, direct_response, proxy_pass,
  upstream_group,
}
use ngxora.Upstreams.{CompiledUpstreamGroup}
use ngxora.Upstreams.Crates.{Crates, Url}
use ngxora.Upstreams.Compile.Errors.{
  duplicate_upstream, heavy_backend, nrf_scheme_mismatch, bad_backend_target, unknown_upstream,
  bad_proxy_scheme,
}
use ngxora.Upstreams.Compile.Groups.{
  normalize_upstream_name, check_upstream, compile_upstream_servers, compile_nrf_discovery,
  compile_upstream_health_check, each, compile_upstream, compile_upstreams_from, compile_upstreams,
}
use ngxora.Upstreams.Compile.Targets.{
  Groups, is_nrf_scheme, is_plain, validate_nrf_route_scheme, validate_direct_status,
  proxy_pass_tls, upstream_group_from_url, target_of_url, target_of_group, proxy_target,
  direct_target, backend_target, compile_backends,
}

-- A group stands under its own name.
abbrev pub AreNamed : Groups → Type 0
AreNamed =
    Entries
      (λ (name : Text) (group : CompiledUpstreamGroup). name ≡ normalize_upstream_name group.name)

-- The name of a group leads to it, and its endpoints are reached by the scheme of the route.
abbrev pub IsGroup : Groups → Text → Bool → Type 0
IsGroup upstreams name tls =
    (group : CompiledUpstreamGroup) × (lookup (normalize_upstream_name name) upstreams ≡ some group)
    × (is_nrf_scheme group.nrf_discovery tls ≡ true)

-- What a weighted backend may be.
abbrev pub IsBackend : Groups → RouteTarget → Type 0
IsBackend upstreams (upstream_group name tls) = IsGroup upstreams name tls
IsBackend upstreams (proxy_pass host port tls sni) = Unit
IsBackend upstreams (direct_response status) = Unit
IsBackend upstreams _ = ⊥

-- A target that is found, if there is one.
abbrev pub OfBackend : Groups → Option RouteTarget → Type 0
OfBackend upstreams none = Unit
OfBackend upstreams (some target) = IsBackend upstreams target

abbrev pub AreBackends : Groups → Backends → Type 0
AreBackends upstreams no_backends = Unit
AreBackends upstreams (backend weight target rest) =
    (weight ≤ 1_000_000) × IsBackend upstreams target × AreBackends upstreams rest

abbrev pub IsResolved : Groups → RouteTarget → Type 0
IsResolved upstreams (weighted_backends backends) = AreBackends upstreams backends
IsResolved upstreams (upstream_group name tls) = IsGroup upstreams name tls
IsResolved upstreams _ = Unit

module _ (crates : Crates) where
  compile_upstream-name :
      (upstream : UpstreamBlock) {group : CompiledUpstreamGroup}
      → compile_upstream crates upstream ≡ success group
      → group.name ≡ upstream.name
  unfolding compile_upstream
  compile_upstream-name upstream {group} h =
      let (_, h1) = >>-both (check_upstream crates upstream) _ h in
      let (servers, _, h2) = >>=-success (compile_upstream_servers upstream.servers) _ h1 in
      let (discovery, _, h3) =
        >>=-success (each (compile_nrf_discovery crates) upstream.nrf_discovery) _ h2 in
      let (check, _, h4) =
        >>=-success (each (compile_upstream_health_check crates) upstream.health_check) _ h3 in
      sym (ap (λ (g : CompiledUpstreamGroup). g.name) (success_inj _ group h4))

  compile_upstreams_from-AreNamed :
      (upstreams : List UpstreamBlock) (m : Groups) {m' : Groups}
      → AreNamed m
      → compile_upstreams_from crates upstreams m ≡ success m'
      → AreNamed m'
  unfolding compile_upstreams_from
  compile_upstreams_from-AreNamed [] m {m'} a h = subst AreNamed (success_inj m m' h) a
  compile_upstreams_from-AreNamed (upstream ∷ rest) m a h =
      let (group, f, h1) = >>=-success (compile_upstream crates upstream) _ h in
      let name = normalize_upstream_name upstream.name in
      let (_, h2) =
        >>-both (ensure (not (is_some (lookup name m))) (duplicate_upstream upstream.name)) _ h1 in
      compile_upstreams_from-AreNamed rest (insert name group m)
        (Entries-insert _ name group m
          (ap normalize_upstream_name (sym (compile_upstream-name upstream f))) a)
        h2

  pub compile_upstreams-AreNamed :
      (upstreams : List UpstreamBlock) {m : Groups}
      → compile_upstreams crates upstreams ≡ success m
      → AreNamed m
  unfolding compile_upstreams
  compile_upstreams-AreNamed upstreams h = compile_upstreams_from-AreNamed upstreams [] tt h

  module _ (upstreams : Groups) (named : AreNamed upstreams) where
    target_of_group-IsBackend :
        (key : Text) (group : CompiledUpstreamGroup) (tls : Bool) {o : Option RouteTarget}
        → lookup key upstreams ≡ some group
        → target_of_group crates group tls ≡ success o
        → OfBackend upstreams o
    unfolding target_of_group validate_nrf_route_scheme
    target_of_group-IsBackend key group tls {o} e h =
        let (ok, h') =
          >>-success (is_nrf_scheme group.nrf_discovery tls) (nrf_scheme_mismatch group.name) _ h in
        let this : key ≡ normalize_upstream_name group.name =
          Entries-lookup _ upstreams key named e in
        subst (OfBackend upstreams) (success_inj _ o h') (group, rw (← this) e, ok)

    target_of_url-IsBackend : (url : Url) → OfBackend upstreams (target_of_url crates url)
    unfolding target_of_url
    target_of_url-IsBackend url = elim (Option-cases url.host_str) [
      | inl e ↦ rw (e, target_of_url) tt
      | inr (host, e) ↦ elim (Option-cases url.port_or_known_default) [
        | inl f ↦ rw (e, target_of_url) (rw f tt)
        | inr (port, f) ↦ elim (Option-cases (proxy_pass_tls url.scheme)) [
          | inl g ↦ rw (e, target_of_url) (rw f (rw g tt))
          | inr (tls, g) ↦ rw (e, target_of_url) (rw f (rw g tt))
        ]
      ]
    ]

    upstream_group_from_url-lookup :
        (url : Url) {group : CompiledUpstreamGroup}
        → upstream_group_from_url crates url upstreams ≡ some group
        → (key : Text) × (lookup key upstreams ≡ some group)
    unfolding upstream_group_from_url
    upstream_group_from_url-lookup url h = elim (if-cases (is_plain crates url) _ _ h) [
      | inl (_, h') ↦ elim (Option-cases url.host_str) [
        | inl e ↦ absurd (let d = rw e at h' in cc)
        | inr (host, e) ↦ (normalize_upstream_name host, rw e at h')
      ]
      | inr (_, h') ↦ absurd (cc)
    ]

    pub proxy_target-IsBackend :
        (target : ProxyPassTarget) {o : Option RouteTarget}
        → proxy_target crates target upstreams ≡ success o
        → OfBackend upstreams o
    unfolding proxy_target
    proxy_target-IsBackend (Ir.upstream_group name tls) {o} h =
        let key = normalize_upstream_name name in
        let (group, f, h1) =
          >>=-success (ok_or (unknown_upstream name) (lookup key upstreams)) _ h in
        target_of_group-IsBackend key group tls
          (ok_or-success (unknown_upstream name) (lookup key upstreams) f) h1
    proxy_target-IsBackend (Ir.url text) {o} h =
        let url = crates.url text in
        elim (Option-cases (upstream_group_from_url crates url upstreams)) [
          | inl e ↦
              subst (OfBackend upstreams)
                (success_inj (target_of_url crates url) o (rw (e, proxy_target) at h))
                (target_of_url-IsBackend url)
          | inr (group, e) ↦
              let (tls, _, h1) =
                >>=-success (ok_or (bad_proxy_scheme url.scheme) (proxy_pass_tls url.scheme)) _
                  (rw (e, proxy_target) at h) in
              let (key, f) = upstream_group_from_url-lookup url e in
              target_of_group-IsBackend key group tls f h1
        ]

    pub direct_target-IsBackend :
        (code : ℕ) {o : Option RouteTarget}
        → direct_target crates code ≡ success o
        → OfBackend upstreams o
    unfolding direct_target
    direct_target-IsBackend code {o} h =
        let (_, h1) = >>-both (validate_direct_status code) _ h in
        subst (OfBackend upstreams) (success_inj (some (direct_response code)) o h1) tt

    backend_target-IsBackend :
        (target : BackendTarget) {o : Option RouteTarget}
        → backend_target crates target upstreams ≡ success o
        → OfBackend upstreams o
    unfolding backend_target
    backend_target-IsBackend (Ir.upstream target) h = proxy_target-IsBackend target h
    backend_target-IsBackend (Ir.response code) h = direct_target-IsBackend code h

    pub compile_backends-AreBackends :
        (bs : List WeightedBackend) {backends : Backends}
        → compile_backends crates bs upstreams ≡ success backends
        → AreBackends upstreams backends
    unfolding compile_backends
    compile_backends-AreBackends [] {backends} h =
        subst (AreBackends upstreams) (success_inj no_backends backends h) tt
    compile_backends-AreBackends (b ∷ bs) {backends} h =
        let (ok, h1) = >>-both (ensure (leb b.weight 1_000_000) heavy_backend) _ h in
        let (found, f, h2) = >>=-success (backend_target crates b.target upstreams) _ h1 in
        let (target, g, h3) = >>=-success (ok_or bad_backend_target found) _ h2 in
        let (rest, i, h4) = >>=-success (compile_backends crates bs upstreams) _ h3 in
        let light =
          leb→le b.weight 1_000_000 (ensure-true (leb b.weight 1_000_000) heavy_backend ok) in
        let is : OfBackend upstreams (some target) =
          subst (OfBackend upstreams) (ok_or-success bad_backend_target found g)
            (backend_target-IsBackend b.target f) in
        subst (AreBackends upstreams) (success_inj (backend b.weight target rest) backends h4)
          (light, is, compile_backends-AreBackends bs i)
