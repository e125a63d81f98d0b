-- ===== src/Control/Apply.antt =====
-- What an application of a snapshot does to the runtime state.
use ngxora.Base.{
  ℕ, ◌+◌, ◌%◌, ◌^◌, ◌≡◌, ◌⊎◌, inl, inr, refl, sym, subst, Bool, true, false, not, [], Option, some,
  Text, text_has_eq, Eq, lookup, if◌then◌else◌, All,
}
use ngxora.Outcome.{Outcome, success, failure, >>=-success, >>-both, success_inj}
use ngxora.Upstreams.{CompiledUpstreamGroup, group_has_eq}
use ngxora.Control.{
  Builders, ConfigSnapshot, RuntimeSnapshot, RuntimeState, ApplyResult, kept_group, or_build,
  build_runtime_upstream_groups, build_scp_profiles, build_runtime_snapshot, commit, apply_snapshot,
  refuse, Message, rejected, lock_poisoned, restart_needed,
}
use ngxora.Routing.Router.{CompiledRouter}
use ngxora.Control.Chains.{collect_from_listeners}
use ngxora.Control.Fingerprint.{
  restart_fingerprint, same_fingerprint, same_fingerprint_lem, IsSameFingerprint,
}
use ngxora.Control.Build.{IsServed, collect_from_listeners_lem, build_runtime_upstream_groups_lem}

either {ℓ κ} :
    {A : Type ℓ} (P : A → Type κ) (test : Bool) (x y : A)
    → (test ≡ true → P x)
    → (test ≡ false → P y)
    → P (if test then x else y)
either P true x y f g = f refl
either P false x y f g = g refl

not-false : (test : Bool) → not test ≡ false → test ≡ true
not-false true h = refl
not-false false h = cc

module _ {G : Type 0} (b : Builders G) where
  -- The snapshot serves its router: each route has a plugin chain, each upstream group a runtime one.
  pub record IsBuilt (previous : Option (RuntimeSnapshot b)) (s : RuntimeSnapshot b) : Type 0 where
    pub served : All (IsServed b.build_chain s.plugin_chains) s.router.listeners
    pub grouped :
        (name : Text) (group : CompiledUpstreamGroup)
        → lookup name s.router.upstreams ≡ some group
        → (runtime : b.RuntimeUpstreamGroup) × (or_build b
              (kept_group b previous name group)
              (b.from_compiled group)
            ≡ success runtime)
          × (lookup name s.upstream_groups ≡ some runtime)

  abbrev pub IsSnapshotOf :
      ConfigSnapshot G → ℕ → Option (RuntimeSnapshot b) → RuntimeSnapshot b → Type 0
  IsSnapshotOf next generation previous s =
      (s.router ≡ next.router)
      × ((s.version ≡ next.version) × ((s.generation ≡ generation) × IsBuilt previous s))

  pub build_runtime_snapshot_lem :
      (next : ConfigSnapshot G) (generation : ℕ) (previous : Option (RuntimeSnapshot b))
      (s : RuntimeSnapshot b)
      → build_runtime_snapshot b next.version next.router generation previous ≡ success s
      → IsSnapshotOf next generation previous s
  unfolding build_runtime_snapshot
  build_runtime_snapshot_lem next generation previous s h =
      let (_, h0) = >>-both _ _ h in
      let (chains, c, h1) =
        >>=-success (collect_from_listeners b.build_chain next.router.listeners []) _ h0 in
      let (groups, g, h2) =
        >>=-success (build_runtime_upstream_groups b previous next.router.upstreams) _ h1 in
      let (material, m, h3) = >>=-success (b.build_tls_material next.router) _ h2 in
      let (profiles, p, h4) =
        >>=-success (build_scp_profiles b previous next.router.upstreams next.router.scp_profiles) _
          h3 in
      subst (IsSnapshotOf next generation previous) (success_inj _ s h4) (
        refl,
        (
          refl,
          (
            refl,
            record {
              served =
                  (collect_from_listeners_lem b.build_chain next.router.listeners [] chains c).1;
              grouped = build_runtime_upstream_groups_lem b previous next.router.upstreams groups g;
            },
          ),
        ),
      )

  -- The snapshot has become the current one, and the result reports it.
  pub record IsApplied (next : ConfigSnapshot G) (before : RuntimeState b) (result : ApplyResult)
      (after : RuntimeState b) : Type 0 where
    pub applied : result.applied ≡ true
    pub allowed :
        IsSameFingerprint (restart_fingerprint after.current.router) before.bootstrap_config
    pub snapshot :
        IsSnapshotOf next
          ((before.current.generation + 1) % 2 ^ 64)
          (some before.current)
          after.current
    pub reported :
        (result.active_version ≡ after.current.version)
        × (result.active_generation ≡ after.current.generation)
    pub kept :
        (after.bootstrap_config ≡ before.bootstrap_config)
        × (after.tls_material_generation ≡ before.tls_material_generation)

  -- Nothing has changed, and the result reports the snapshot that is current.
  pub record IsRefused (before : RuntimeState b) (result : ApplyResult) (after : RuntimeState b)
      : Type 0 where
    pub refused : result.applied ≡ false
    pub same : after ≡ before
    pub reported :
        (result.active_version ≡ before.current.version)
        × (result.active_generation ≡ before.current.generation)

  abbrev Outcomes : ConfigSnapshot G → RuntimeState b → ApplyResult × RuntimeState b → Type 0
  Outcomes next state r = IsApplied next state r.0 r.1 ⊎ IsRefused state r.0 r.1

  refused_lem :
      (next : ConfigSnapshot G) (state : RuntimeState b) (restart : Bool) (m : Message)
      → Outcomes next state (refuse b state restart m)
  refused_lem next state restart m =
      inr (record { refused = refl; same = refl; reported = (refl, refl) })

  commit_lem :
      (next : ConfigSnapshot G) (state : RuntimeState b) (built : Outcome Text (RuntimeSnapshot b))
      → build_runtime_snapshot b next.version next.router
          ((state.current.generation + 1) % 2 ^ 64)
          (some state.current)
        ≡ built
      → IsSameFingerprint (restart_fingerprint next.router) state.bootstrap_config
      → Outcomes next state (commit b state built)
  unfolding commit
  commit_lem next state (failure m) e f = refused_lem next state false (rejected m)
  commit_lem next state (success s) e f =
      let snap =
        build_runtime_snapshot_lem next ((state.current.generation + 1) % 2 ^ 64)
          (some state.current) s e in
      inl (record {
        applied = refl;
        allowed =
            subst
              (λ (r : CompiledRouter G).
                IsSameFingerprint (restart_fingerprint r) state.bootstrap_config)
              (sym snap.0) f;
        snapshot = snap;
        reported = (refl, refl);
        kept = (refl, refl);
      })

  -- `apply_snapshot` either applies the snapshot or changes nothing. If it applies it, the restart
  -- fingerprint is the one of the bootstrap, the router and version are those of the snapshot, the
  -- generation is the next one, each reachable location has a plugin chain and each upstream group a
  -- runtime group, and the result reports the new version and generation. Otherwise the state is the
  -- old one and the result reports its version and generation.
  pub apply_snapshot_lem :
      (same_geoip : Eq G) (next : ConfigSnapshot G) (state : RuntimeState b)
      → IsApplied next state
          (apply_snapshot b same_geoip next state).0
          (apply_snapshot b same_geoip next state).1
        ⊎ IsRefused state
            (apply_snapshot b same_geoip next state).0
            (apply_snapshot b same_geoip next state).1
  unfolding apply_snapshot
  apply_snapshot_lem same_geoip next state = outcomes
    where
      outcomes : Outcomes next state (apply_snapshot b same_geoip next state)
      outcomes =
          either (Outcomes next state) state.poisoned _ _
            (λ q. refused_lem next state false lock_poisoned)
            (λ q.
              either (Outcomes next state)
                (not (
                  same_fingerprint same_geoip (restart_fingerprint next.router)
                    state.bootstrap_config))
                _ _ (λ r. refused_lem next state true restart_needed)
                (λ r. commit_lem next state _ refl (
                  same_fingerprint_lem same_geoip (restart_fingerprint next.router)
                    state.bootstrap_config (not-false _ r))))

  kept_group_lem :
      (s : RuntimeSnapshot b) (name : Text) (group : CompiledUpstreamGroup)
      → lookup name s.router.upstreams ≡ some group
      → kept_group b (some s) name group ≡ lookup name s.upstream_groups
  unfolding kept_group
  kept_group_lem s name group e = rw e (rw ((group_has_eq.same_iff group group).1 refl) refl)

  -- An application that succeeds keeps the runtime group of each upstream group whose configuration is
  -- the same in the old and the new router.
  pub apply_snapshot_keeps :
      (same_geoip : Eq G) (next : ConfigSnapshot G) (state : RuntimeState b) (name : Text)
      (group : CompiledUpstreamGroup) (runtime : b.RuntimeUpstreamGroup)
      → (apply_snapshot b same_geoip next state).0.applied ≡ true
      → lookup name state.current.router.upstreams ≡ some group
      → lookup name next.router.upstreams ≡ some group
      → lookup name state.current.upstream_groups ≡ some runtime
      → lookup name (apply_snapshot b same_geoip next state).1.current.upstream_groups
        ≡ some runtime
  apply_snapshot_keeps same_geoip next state name group runtime h e f g =
      elim (apply_snapshot_lem same_geoip next state) [
        | inr r ↦ absurd (let k = r.refused in cc)
        | inl a ↦
            let same = a.snapshot.0 in
            let (r, built, l) = a.snapshot.1.1.1.grouped name group (rw same f) in
            let this : runtime ≡ r =
              success_inj runtime r (rw (kept_group_lem state.current name group e, g) at built) in
            rw this l
      ]
