-- ===== src/Upstreams/Compile/Identity.antt =====
-- The numbers that compile/routes.rs gives to the locations of a server.
use ngxora.Base.{
  ℕ, suc, ◌+◌, ◌%◌, ◌^◌, ◌≤◌, ◌<◌, ◌≡◌, refl, sym, ap, subst, arith, List, [], ◌∷◌, ◌++◌, Option,
  none, some, length, Holds, here, there, Option-cases, inl, inr, ◌==◌,
}
use ngxora.Outcome.{success, >>=-success, >>-both, success_inj, ensure}
use ngxora.Compile.Ir.Locations.{Location}
use ngxora.Routing.Types.{CompiledLocation, RouteTarget, CompiledMatcher}
use ngxora.Upstreams.Crates.{Crates}
use ngxora.Upstreams.Compile.Errors.{not_one_action}
use ngxora.Upstreams.Compile.Targets.{Groups, route_target, compile_upstream_protocol}
use ngxora.Upstreams.Compile.Policy.{
  compile_client_limits, compile_upstream_timeouts, compile_upstream_http2,
  compile_upstream_ssl_options,
}
use ngxora.Upstreams.Compile.Locations.{
  compile_matcher, compile_rewrite, check_target, count_actions, finish_location, compile_location,
  compile_each, compile_locations, cons_some,
}

-- The locations have the numbers from the given one on.
abbrev pub IsNumbered : ℕ → List CompiledLocation → Type 0
IsNumbered n [] = Unit
IsNumbered n (l ∷ ls) = (l.route_id ≡ n) × IsNumbered (n + 1) ls

pub IsNumbered-append :
    (n : ℕ) (xs ys : List CompiledLocation)
    → IsNumbered n xs
    → IsNumbered (n + length xs) ys
    → IsNumbered n (xs ++ ys)
IsNumbered-append n [] ys a b = subst (λ k. IsNumbered k ys) (omega arith) b
IsNumbered-append n (x ∷ xs) ys a b =
    (a.0, IsNumbered-append (n + 1) xs ys a.1 (subst (λ k. IsNumbered k ys) (omega arith) b))

-- The numbers are not below the first one.
IsNumbered-le :
    (n : ℕ) (ls : List CompiledLocation) {l : CompiledLocation}
    → IsNumbered n ls
    → Holds l ls
    → n ≤ l.route_id
IsNumbered-le n [] a h = elim h [ ]
IsNumbered-le n (l ∷ ls) a here = omega arith
IsNumbered-le n (l ∷ ls) a (there h) = omega (arith, IsNumbered-le (n + 1) ls a.1 h)

-- So a number belongs to one location.
pub IsNumbered-inj :
    (n : ℕ) (ls : List CompiledLocation) {a b : CompiledLocation}
    → IsNumbered n ls
    → Holds a ls
    → Holds b ls
    → a.route_id ≡ b.route_id
    → a ≡ b
IsNumbered-inj n [] o p q e = elim p [ ]
IsNumbered-inj n (l ∷ ls) o here here e = refl
IsNumbered-inj n (l ∷ ls) o here (there q) e =
    absurd (omega (arith, IsNumbered-le (n + 1) ls o.1 q))
IsNumbered-inj n (l ∷ ls) o (there p) here e =
    absurd (omega (arith, IsNumbered-le (n + 1) ls o.1 p))
IsNumbered-inj n (l ∷ ls) o (there p) (there q) e = IsNumbered-inj (n + 1) ls o.1 p q e

-- What a compilation of locations does to the next number.
pub record IsCounted (n count : ℕ) (compiled : List CompiledLocation) (next : ℕ) : Type 0 where
  pub numbered : IsNumbered n compiled
  pub next_is : next ≡ n + length compiled
  pub bounded : length compiled ≤ count

IsCounted-one :
    (n : ℕ) (l : CompiledLocation)
    → l.route_id ≡ n
    → n + 1 < 2 ^ 64
    → IsCounted n 1 (l ∷ []) ((n + 1) % 2 ^ 64)
IsCounted-one n l e small = record {
  numbered = (e, tt);
  next_is = omega arith;
  bounded = omega arith;
}

module _ (crates : Crates) where
  pub finish_location_lem :
      (location : Location) (target : RouteTarget) (n : ℕ) {l : CompiledLocation}
      → finish_location crates location target n ≡ success l
      → (l.route_id ≡ n)
        × (l.target ≡ target)
        × (matcher : CompiledMatcher) × (check_target crates target matcher ≡ success tt)
  unfolding finish_location
  finish_location_lem location target n {l} h =
      let (protocol, _, h1) =
        >>=-success (compile_upstream_protocol location.directives target) _ h in
      let (_, h2) = >>-both _ _ h1 in
      let (matcher, _, h3) = >>=-success (compile_matcher crates location.matcher) _ h2 in
      let (rewrite, _, h4) =
        >>=-success (compile_rewrite crates target matcher location.directives none) _ h3 in
      let (checked, h5) = >>-both (check_target crates target matcher) _ h4 in
      let (limits, _, h6) = >>=-success (compile_client_limits crates location.directives) _ h5 in
      let (timeouts, _, h7) = >>=-success (compile_upstream_timeouts location.directives) _ h6 in
      let (http2, _, h8) = >>=-success (compile_upstream_http2 location.directives) _ h7 in
      let (ssl, _, h9) = >>=-success (compile_upstream_ssl_options location.directives) _ h8 in
      let this = success_inj _ l h9 in
      (
        sym (ap (λ (c : CompiledLocation). c.route_id) this),
        sym (ap (λ (c : CompiledLocation). c.target) this),
        matcher,
        checked,
      )

  compile_location-IsCounted :
      (location : Location) (upstreams : Groups) (n : ℕ) {r : Option CompiledLocation × ℕ}
      → compile_location crates location upstreams n ≡ success r
      → n + 1 < 2 ^ 64
      → IsCounted n 1 (cons_some r.0 []) r.1
  unfolding compile_location
  compile_location-IsCounted location upstreams n {r} h small =
      let (count, _, h1) = >>=-success (count_actions 0 location.directives) _ h in
      let (_, h2) = >>-both (ensure (count == 1) not_one_action) _ h1 in
      let (target, _, h3) = >>=-success (route_target crates location.directives upstreams) _ h2 in
      elim (Option-cases target) [
        | inl e ↦
            let same : (none, n) ≡ r = success_inj _ r (rw e at h3) in
            subst (λ (p : Option CompiledLocation × ℕ). IsCounted n 1 (cons_some p.0 []) p.1) same
              (record { numbered = tt; next_is = omega arith; bounded = omega arith })
        | inr (t, e) ↦
            let (l, f, h4) = >>=-success (finish_location crates location t n) _ (rw e at h3) in
            subst (λ (p : Option CompiledLocation × ℕ). IsCounted n 1 (cons_some p.0 []) p.1)
              (success_inj _ r h4) (IsCounted-one n l (finish_location_lem location t n f).0 small)
      ]

  IsCounted-cons :
      (n c : ℕ) (o : Option CompiledLocation) (cs : List CompiledLocation) {k m : ℕ}
      → IsCounted n 1 (cons_some o []) k
      → IsCounted k c cs m
      → IsCounted n (suc c) (cons_some o cs) m
  IsCounted-cons n c none cs {k} {m} a b =
      let same : k ≡ n = (let e = a.next_is in omega arith) in
      record {
        numbered = subst (λ i. IsNumbered i cs) same b.numbered;
        next_is = rw (← same) b.next_is;
        bounded = omega (arith, b.bounded);
      }
  IsCounted-cons n c (some l) cs {k} {m} a b =
      let same : k ≡ n + 1 = (let e = a.next_is in omega arith) in
      record {
        numbered = (a.numbered.0, subst (λ i. IsNumbered i cs) same b.numbered);
        next_is = omega (arith, b.next_is, same);
        bounded = omega (arith, b.bounded);
      }

  compile_each-IsCounted :
      (ls : List Location) (upstreams : Groups) (n : ℕ) {r : List CompiledLocation × ℕ}
      → compile_each crates ls upstreams n ≡ success r
      → n + length ls < 2 ^ 64
      → IsCounted n (length ls) r.0 r.1
  unfolding compile_each
  compile_each-IsCounted [] upstreams n {r} h small =
      subst (λ (p : List CompiledLocation × ℕ). IsCounted n 0 p.0 p.1) (success_inj _ r h)
        (record { numbered = tt; next_is = omega arith; bounded = omega arith })
  compile_each-IsCounted (l ∷ ls) upstreams n {r} h small =
      let (one, f, h1) = >>=-success (compile_location crates l upstreams n) _ h in
      let (many, g, h2) = >>=-success (compile_each crates ls upstreams one.1) _ h1 in
      let first = compile_location-IsCounted l upstreams n f (omega arith) in
      let next : one.1 ≤ n + 1 = omega (arith, first.next_is, first.bounded) in
      let rest = compile_each-IsCounted ls upstreams one.1 g (omega arith) in
      subst (λ (p : List CompiledLocation × ℕ). IsCounted n (suc (length ls)) p.0 p.1)
        (success_inj _ r h2) (IsCounted-cons n (length ls) one.0 many.0 first rest)

  pub compile_locations-IsCounted :
      (ls : List Location) (upstreams : Groups) (n : ℕ) {r : List CompiledLocation × ℕ}
      → compile_locations crates ls upstreams n ≡ success r
      → n + length ls < 2 ^ 64
      → IsCounted n (length ls) r.0 r.1
  unfolding compile_locations
  compile_locations-IsCounted ls upstreams n {r} h small =
      compile_each-IsCounted ls upstreams n (>>-both _ _ h).1 small
