-- ===== src/Upstreams/Compile/Resolving.antt =====
-- compile/routes.rs: every compiled location has a target whose upstream groups are there.
use ngxora.Base.{
  ℕ, ◌==◌, ◌≤◌, ◌<◌, ◌&&◌, ◌≡◌, arith, true, Text, codes, leb, ltb, sym, subst, List, [], ◌∷◌,
  Option, none, some, not, All, Option-cases, inl, inr,
}
use ngxora.Outcome.{success, ensure, >>=-success, >>-success, >>-both, success_inj, map_err-success}
use ngxora.Compile.Ir.Locations as Ir
use ngxora.Compile.Ir.Locations.{Location, LocationDirective}
use ngxora.Compile.Validate.{is_empty}
use ngxora.Routing.Return.{expand_return}
use ngxora.Routing.Types.{
  RouteTarget, weighted_backends, http_redirect, scp, return_, direct_response, proxy_pass,
  upstream_group, CompiledLocation, CompiledMatcher,
}
use ngxora.Upstreams.Crates.{Crates}
use ngxora.Upstreams.Compile.Errors.{
  empty_backends, not_one_action, Compiled, bad_return_status, bad_redirect_status, return_template,
}
use ngxora.Upstreams.Compile.Targets.{
  Groups, compile_backends, route_target_from_directive, route_target,
}
use ngxora.Upstreams.Compile.Locations.{
  count_actions, check_target, is_redirect_status, compile_location, compile_each,
  compile_locations, finish_location, cons_some,
}
use ngxora.Upstreams.Compile.Naming.{
  AreNamed, IsResolved, IsBackend, OfBackend, proxy_target-IsBackend, direct_target-IsBackend,
  compile_backends-AreBackends,
}
use ngxora.Upstreams.Compile.Identity.{finish_location_lem}

-- The checks of a target that is answered without an upstream.
abbrev pub IsChecked : RouteTarget → Type 0
IsChecked (return_ status location) =
    (300 ≤ status)
    × (status < 400)
    × (text : Text) × (expand_return (codes "example.com") (codes "/") (codes "http") location
        ≡ success text)
IsChecked (http_redirect config) = is_redirect_status config.status ≡ true
IsChecked _ = Unit

check_target-IsChecked :
    (crates : Crates) (target : RouteTarget) (matcher : CompiledMatcher)
    → check_target crates target matcher ≡ success tt
    → IsChecked target
unfolding check_target
check_target-IsChecked crates (return_ status location) matcher h =
    let (range, h1) = >>-success (leb 300 status && ltb status 400) bad_return_status _ h in
    let (text, expands) =
      map_err-success return_template
        (expand_return (codes "example.com") (codes "/") (codes "http") location) _ h1 in
    (ground arith, ground arith, text, expands)
check_target-IsChecked crates (http_redirect config) matcher h =
    (>>-success (is_redirect_status config.status) bad_redirect_status _ h).0
check_target-IsChecked crates (weighted_backends _) matcher h = tt
check_target-IsChecked crates (direct_response status) matcher h = tt
check_target-IsChecked crates (scp profile) matcher h = tt
check_target-IsChecked crates (proxy_pass host port tls sni) matcher h = tt
check_target-IsChecked crates (upstream_group name tls) matcher h = tt

IsBackend-IsResolved :
    (upstreams : Groups) (target : RouteTarget)
    → IsBackend upstreams target
    → IsResolved upstreams target
IsBackend-IsResolved upstreams (upstream_group name tls) is = is
IsBackend-IsResolved upstreams (proxy_pass host port tls sni) is = tt
IsBackend-IsResolved upstreams (direct_response status) is = tt
IsBackend-IsResolved upstreams (weighted_backends _) is = elim is [ ]
IsBackend-IsResolved upstreams (scp profile) is = elim is [ ]
IsBackend-IsResolved upstreams (return_ status location) is = elim is [ ]
IsBackend-IsResolved upstreams (http_redirect config) is = elim is [ ]

module _ (crates : Crates) (upstreams : Groups) (named : AreNamed upstreams) where
  abbrev OfTarget : Option RouteTarget → Type 0
  OfTarget none = Unit
  OfTarget (some target) = IsResolved upstreams target

  OfBackend-OfTarget : (o : Option RouteTarget) → OfBackend upstreams o → OfTarget o
  OfBackend-OfTarget none is = tt
  OfBackend-OfTarget (some target) is = IsBackend-IsResolved upstreams target is

  found :
      (target : RouteTarget) {o : Option RouteTarget}
      → ◌≡◌ {A = Compiled (Option RouteTarget)} (success (some target)) (success o)
      → IsResolved upstreams target
      → OfTarget o
  found target {o} h is = subst OfTarget (success_inj (some target) o h) is

  route_target_from_directive-OfTarget :
      (directive : LocationDirective) {o : Option RouteTarget}
      → route_target_from_directive crates directive upstreams ≡ success o
      → OfTarget o
  unfolding route_target_from_directive
  route_target_from_directive-OfTarget (Ir.direct_response status) {o} h =
      OfBackend-OfTarget o (direct_target-IsBackend crates upstreams named status h)
  route_target_from_directive-OfTarget (Ir.http_redirect config) {o} h =
      found (http_redirect config) h tt
  route_target_from_directive-OfTarget (Ir.weighted_backends bs) {o} h =
      let (_, h1) = >>-both (ensure (not (is_empty bs)) empty_backends) _ h in
      let (compiled, f, h2) = >>=-success (compile_backends crates bs upstreams) _ h1 in
      found (weighted_backends compiled) h2
        (compile_backends-AreBackends crates upstreams named bs f)
  route_target_from_directive-OfTarget (Ir.scp_pass profile) h = found (scp profile) h tt
  route_target_from_directive-OfTarget (Ir.proxy_pass target) {o} h =
      OfBackend-OfTarget o (proxy_target-IsBackend crates upstreams named target h)
  route_target_from_directive-OfTarget (Ir.return_ status location) h =
      found (return_ status location) h tt
  route_target_from_directive-OfTarget _ {o} h = subst OfTarget (success_inj none o h) tt

  route_target-OfTarget :
      (directives : List LocationDirective) {o : Option RouteTarget}
      → route_target crates directives upstreams ≡ success o
      → OfTarget o
  unfolding route_target
  route_target-OfTarget [] {o} h = subst OfTarget (success_inj none o h) tt
  route_target-OfTarget (directive ∷ rest) {o} h =
      let (one, f, h1) = >>=-success (route_target_from_directive crates directive upstreams) _ h in
      elim (Option-cases one) [
        | inl e ↦ route_target-OfTarget rest (rw e at h1)
        | inr (target, e) ↦
            subst OfTarget (success_inj (some target) o (rw e at h1))
              (subst OfTarget e (route_target_from_directive-OfTarget directive f))
      ]

  abbrev pub AreResolved : List CompiledLocation → Type 0
  AreResolved = All (λ (l : CompiledLocation). IsResolved upstreams l.target × IsChecked l.target)

  compile_location-AreResolved :
      (location : Location) (n : ℕ) {r : Option CompiledLocation × ℕ}
      → compile_location crates location upstreams n ≡ success r
      → (rest : List CompiledLocation) → AreResolved rest
      → AreResolved (cons_some r.0 rest)
  unfolding compile_location
  compile_location-AreResolved location n {r} h rest all =
      let (count, _, h1) = >>=-success (count_actions 0 location.directives) _ h in
      let (_, h2) = >>-both (ensure (count == 1) not_one_action) _ h1 in
      let (target, f, h3) = >>=-success (route_target crates location.directives upstreams) _ h2 in
      elim (Option-cases target) [
        | inl e ↦
            let same : (none, n) ≡ r = success_inj _ r (rw e at h3) in
            subst (λ (p : Option CompiledLocation × ℕ). AreResolved (cons_some p.0 rest)) same all
        | inr (t, e) ↦
            let (l, g, h4) = >>=-success (finish_location crates location t n) _ (rw e at h3) in
            let (_, same, matcher, checked) = finish_location_lem crates location t n g in
            let is = subst OfTarget e (route_target-OfTarget location.directives f) in
            subst (λ (p : Option CompiledLocation × ℕ). AreResolved (cons_some p.0 rest))
              (success_inj _ r h4)
              (
                subst (λ (k : RouteTarget). IsResolved upstreams k × IsChecked k) (sym same)
                    (is, check_target-IsChecked crates t matcher checked),
                all,
              )
      ]

  compile_each-AreResolved :
      (ls : List Location) (n : ℕ) {r : List CompiledLocation × ℕ}
      → compile_each crates ls upstreams n ≡ success r
      → AreResolved r.0
  unfolding compile_each
  compile_each-AreResolved [] n {r} h =
      subst (λ (p : List CompiledLocation × ℕ). AreResolved p.0) (success_inj _ r h) tt
  compile_each-AreResolved (l ∷ ls) n {r} h =
      let (one, f, h1) = >>=-success (compile_location crates l upstreams n) _ h in
      let (many, g, h2) = >>=-success (compile_each crates ls upstreams one.1) _ h1 in
      subst (λ (p : List CompiledLocation × ℕ). AreResolved p.0) (success_inj _ r h2)
        (compile_location-AreResolved l n f many.0 (compile_each-AreResolved ls one.1 g))

  pub compile_locations-AreResolved :
      (ls : List Location) (n : ℕ) {r : List CompiledLocation × ℕ}
      → compile_locations crates ls upstreams n ≡ success r
      → AreResolved r.0
  unfolding compile_locations
  compile_locations-AreResolved ls n h = compile_each-AreResolved ls n (>>-both _ _ h).1
