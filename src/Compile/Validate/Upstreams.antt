-- ===== src/Compile/Validate/Upstreams.antt =====
-- Which groups of upstream servers are valid, and which configurations.
use ngxora.Base.{
  ℕ, ◌+◌, ◌%◌, ◌^◌, ◌≤◌, ◌<◌, ◌≡◌, ◌≢◌, ◌↔◌, ◌⊎◌, inl, inr, refl, sym, ◌∙◌, ap, subst, arith, Bool,
  true, false, not, ◌&&◌, List, [], ◌∷◌, Option, none, some, Text, ltb, ◌==◌, is_some, All,
  Bool-cases,
}
use ngxora.Machine.{u16_max}
use ngxora.Outcome.{success, ◌>>=◌, ◌>>◌, ok_or, ensure, >>=-success}
use ngxora.Compile.Ir.{Ir, Http}
use ngxora.Compile.Ir.Upstream.{
  UpstreamBlock, UpstreamServer, UpstreamSelectionPolicy, round_robin, random, consistent_hash,
  UpstreamHashKey, client_ip, header,
}
use ngxora.Compile.Validate.{
  Checked, no_http, no_servers, no_backends, mixed_sources, no_health_check, too_heavy,
  hash_key_unused, bad_header_name, is_empty, total_weight, uses_hash_key, validate_servers,
  names_header, validate_upstream, validate_upstreams, validate,
}
use ngxora.Compile.Validate.Acceptance.{seq_iff, ensure_iff, ensured_iff}
use ngxora.Compile.Validate.Servers.{IsValidServer, IsSizedServer, validate_servers_iff}

abbrev pub HasWeight : UpstreamServer → Type 0
HasWeight s = 0 < s.weight

abbrev pub weights : List UpstreamServer → ℕ
weights [] = 0
weights (s ∷ ss) = s.weight + weights ss

total_weight_lem :
    (name : Text) (total : ℕ) (ss : List UpstreamServer)
    → total + weights ss < 2 ^ 32
    → All HasWeight ss
    → total_weight name total ss ≡ success (total + weights ss)
unfolding total_weight
total_weight_lem name total [] h a = ap success (omega arith)
total_weight_lem name total (s ∷ ss) h (p, a) =
    let e : (s.weight == 0) ≡ false = ground arith in
    let w : (total + s.weight) % 2 ^ 32 ≡ total + s.weight = omega (arith, h) in
    rw (e, total_weight)
      (rw w (
        total_weight_lem name (total + s.weight) ss (omega (arith, h)) a
        ∙ ap success (omega arith)))

total_weight-All :
    (name : Text) (total : ℕ) (ss : List UpstreamServer) (k : ℕ)
    → total_weight name total ss ≡ success k
    → All HasWeight ss
unfolding total_weight
total_weight-All name total [] k h = tt
total_weight-All name total (s ∷ ss) k h = elim (Bool-cases (s.weight == 0)) [
  | inl e ↦ let z = rw (e, total_weight) at h in cc
  | inr e ↦ (
    ground arith,
    total_weight-All name ((total + s.weight) % 2 ^ 32) ss k (rw (e, total_weight) at h),
  )
]

-- The sum of the weights fits its `u32`.
abbrev pub IsSizedUpstream : UpstreamBlock → Type 0
IsSizedUpstream u = weights u.servers < 2 ^ 32

sourced_iff :
    {S : Type 0} (servers : List UpstreamServer) (nrf : Option S) (allow : Bool)
    → (not (is_empty servers && (not (is_some nrf) && not allow)) ≡ true)
      ↔ ((servers ≢ []) ⊎ ((nrf ≢ none) ⊎ (allow ≡ true)))
sourced_iff [] none true = (λ h. inr (inr refl), λ h. refl)
sourced_iff [] none false = (
  λ h. (cc),
  λ k. elim k [ inl p ↦ absurd (p refl) | inr (inl p) ↦ absurd (p refl) | inr (inr e) ↦ (cc) ],
)
sourced_iff [] (some n) allow = (λ h. inr (inl (λ e. (cc))), λ h. refl)
sourced_iff (s ∷ ss) nrf allow = (λ h. inl (λ e. (cc)), λ h. refl)

unmixed_iff :
    {S : Type 0} (servers : List UpstreamServer) (nrf : Option S)
    → (not (not (is_empty servers) && is_some nrf) ≡ true) ↔ ((servers ≡ []) ⊎ (nrf ≡ none))
unmixed_iff [] nrf = (λ h. inl refl, λ h. refl)
unmixed_iff (s ∷ ss) none = (λ h. inr refl, λ h. refl)
unmixed_iff (s ∷ ss) (some n) = (λ h. (cc), λ k. elim k [ inl e ↦ (cc) | inr e ↦ (cc) ])

probed_iff :
    {S C : Type 0} (nrf : Option S) (check : Option C)
    → (not (is_some nrf && not (is_some check)) ≡ true) ↔ ((nrf ≡ none) ⊎ (check ≢ none))
probed_iff none check = (λ h. inl refl, λ h. refl)
probed_iff (some n) (some c) = (λ h. inr (λ e. (cc)), λ h. refl)
probed_iff (some n) none = (λ h. (cc), λ k. elim k [ inl e ↦ (cc) | inr p ↦ absurd (p refl) ])

keyed_iff :
    (policy : UpstreamSelectionPolicy) (key : Option UpstreamHashKey)
    → (uses_hash_key policy key ≡ true) ↔ ((policy ≡ consistent_hash) ⊎ (key ≡ none))
keyed_iff consistent_hash key = (λ h. inl refl, λ h. refl)
keyed_iff round_robin none = (λ h. inr refl, λ h. refl)
keyed_iff random none = (λ h. inr refl, λ h. refl)
keyed_iff round_robin (some k) = (λ h. (cc), λ k. elim k [ inl e ↦ (cc) | inr e ↦ (cc) ])
keyed_iff random (some k) = (λ h. (cc), λ k. elim k [ inl e ↦ (cc) | inr e ↦ (cc) ])

weights_iff {κ} :
    {Q : Type κ} (name : Text) (ss : List UpstreamServer) (rest : ℕ → Checked (Unit {0}))
    → weights ss < 2 ^ 32
    → (rest (weights ss) ≡ success tt) ↔ Q
    → ((total_weight name 0 ss >>= rest) ≡ success tt) ↔ (All HasWeight ss × Q)
weights_iff name ss rest z g = (
  λ h.
      let (k, e, h') = >>=-success (total_weight name 0 ss) rest h in
      let a = total_weight-All name 0 ss k e in
      let z' : 0 + weights ss < 2 ^ 32 = omega (arith, z) in
      let same : k ≡ weights ss =
        (let none_yet : 0 + weights ss ≡ weights ss = omega arith in
          let f = sym e ∙ total_weight_lem name 0 ss z' a in cc) in
      (a, g.0 (subst (λ w. rest w ≡ success tt) same h')),
  λ v.
      let none_yet : 0 + weights ss ≡ weights ss = omega arith in
      rw (total_weight_lem name 0 ss (omega (arith, z)) v.0) (rw none_yet (g.1 v.1)),
)

some_iff {ℓ} : {A : Type ℓ} (xs : List A) → (not (is_empty xs) ≡ true) ↔ (xs ≢ [])
some_iff [] = (λ h. (cc), λ p. absurd (p refl))
some_iff (x ∷ xs) = (λ h e. (cc), λ p. refl)

ok_or-some {ℓ} :
    {E A : Type ℓ} (reason : E) (it : Option A) (a : A) → ok_or reason it ≡ success a → it ≡ some a
ok_or-some reason none a h = cc
ok_or-some reason (some b) a h = cc

light_iff :
    (ss : List UpstreamServer) → (not (ltb u16_max (weights ss)) ≡ true) ↔ (weights ss ≤ u16_max)
light_iff ss = (λ h. ground arith, λ h. ground arith)

module _ (is_header_name : Text → Bool) where
  pub record IsValidUpstream (u : UpstreamBlock) : Type 0 where
    pub sourced : (u.servers ≢ []) ⊎ ((u.nrf_discovery ≢ none) ⊎ (u.allow_empty ≡ true))
    pub unmixed : (u.servers ≡ []) ⊎ (u.nrf_discovery ≡ none)
    pub probed : (u.nrf_discovery ≡ none) ⊎ (u.health_check ≢ none)
    pub weighted : All HasWeight u.servers
    pub light : weights u.servers ≤ u16_max
    pub keyed : (u.policy ≡ consistent_hash) ⊎ (u.hash_key ≡ none)
    pub named : (name : Text) → u.hash_key ≡ some (header name) → is_header_name name ≡ true

  named_iff :
      (key : Option UpstreamHashKey)
      → (names_header is_header_name key ≡ true)
        ↔ ((name : Text) → key ≡ some (header name) → is_header_name name ≡ true)
  named_iff none = (λ h name e. (cc), λ h. refl)
  named_iff (some client_ip) = (λ h name e. (cc), λ h. refl)
  named_iff (some (header n)) = (λ h name e. (cc), λ h. h n refl)

  checks_iff :
      (u : UpstreamBlock)
      → IsSizedUpstream u
      → (validate_upstream is_header_name u ≡ success tt) ↔ (
          ((u.servers ≢ []) ⊎ ((u.nrf_discovery ≢ none) ⊎ (u.allow_empty ≡ true)))
          × (((u.servers ≡ []) ⊎ (u.nrf_discovery ≡ none))
              × (((u.nrf_discovery ≡ none) ⊎ (u.health_check ≢ none))
                  × (All HasWeight u.servers
                      × ((weights u.servers ≤ u16_max)
                          × (((u.policy ≡ consistent_hash) ⊎ (u.hash_key ≡ none))
                              × ((name : Text)
                                  → u.hash_key ≡ some (header name)
                                  → is_header_name name ≡ true)))))))
  unfolding validate_upstream
  checks_iff u z =
      ensure_iff _ (no_backends u.name) _ (sourced_iff u.servers u.nrf_discovery u.allow_empty) (
        ensure_iff _ (mixed_sources u.name) _ (unmixed_iff u.servers u.nrf_discovery) (
          ensure_iff _ (no_health_check u.name) _ (probed_iff u.nrf_discovery u.health_check) (
            weights_iff u.name u.servers _ z (
              ensure_iff _ (too_heavy u.name) _ (light_iff u.servers) (
                ensure_iff _ (hash_key_unused u.name) _ (keyed_iff u.policy u.hash_key)
                  (ensured_iff _ (bad_header_name u.name) (named_iff u.hash_key)))))))

  pub validate_upstream_iff :
      (u : UpstreamBlock)
      → IsSizedUpstream u
      → (validate_upstream is_header_name u ≡ success tt) ↔ IsValidUpstream u
  validate_upstream_iff u z = (
    λ h.
        let (a, (b, (c, (d, (e, (f, g)))))) = (checks_iff u z).0 h in
        record {
          sourced = a;
          unmixed = b;
          probed = c;
          weighted = d;
          light = e;
          keyed = f;
          named = g;
        },
    λ v.
        (checks_iff u z).1
          (v.sourced, (v.unmixed, (v.probed, (v.weighted, (v.light, (v.keyed, v.named)))))),
  )

  validate_upstreams_iff :
      (us : List UpstreamBlock)
      → All IsSizedUpstream us
      → (validate_upstreams is_header_name us ≡ success tt) ↔ All IsValidUpstream us
  unfolding validate_upstreams
  validate_upstreams_iff [] z = (λ h. tt, λ h. refl)
  validate_upstreams_iff (u ∷ us) (z, zs) =
      seq_iff (validate_upstream is_header_name u) (validate_upstreams is_header_name us)
        (validate_upstream_iff u z) (validate_upstreams_iff us zs)

  -- The sizes that the machine integers hold, of the block that is there.
  abbrev pub IsSizedHttp : Http → Type 0
  IsSizedHttp h = All IsSizedUpstream h.upstreams × All IsSizedServer h.servers

  abbrev pub IsValidHttp : Http → Type 0
  IsValidHttp h = (h.servers ≢ []) × (All IsValidUpstream h.upstreams × All IsValidServer h.servers)

  http_iff :
      (h : Http)
      → IsSizedHttp h
      → ((ensure (not (is_empty h.servers)) no_servers
            >> (validate_upstreams is_header_name h.upstreams >> validate_servers 0 h.servers))
          ≡ success tt)
        ↔ IsValidHttp h
  http_iff h (z, w) = ensure_iff _ no_servers _ (some_iff h.servers) (
      seq_iff (validate_upstreams is_header_name h.upstreams) (validate_servers 0 h.servers)
        (validate_upstreams_iff h.upstreams z) (validate_servers_iff 0 h.servers w))

  -- `validate` accepts exactly the configurations that have an `http` block with a server, in which each
  -- upstream group and each location of each server is valid. The condition is that the sum of a
  -- group's weights and the number of a location's directives fit 32 bits.
  pub validate_iff :
      (ir : Ir)
      → ((h : Http) → ir.http ≡ some h → IsSizedHttp h)
      → (validate is_header_name ir ≡ success tt)
        ↔ ((h : Http) × (ir.http ≡ some h) × IsValidHttp h)
  unfolding validate
  validate_iff ir z = (
    λ v.
        let (h, e, v') = >>=-success (ok_or no_http ir.http) _ v in
        let there = ok_or-some no_http ir.http h e in (h, there, (http_iff h (z h there)).0 v'),
    λ v. rw v.1 ((http_iff v.0 (z v.0 v.1)).1 v.2),
  )
