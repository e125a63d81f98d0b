-- ===== src/Control/Steps.antt =====
-- The runtime state over any sequence of operations.
use ngxora.Base.{
  ◌≡◌, inl, inr, refl, sym, subst, true, none, some, Text, text_has_eq, Eq, lookup, All,
}
use ngxora.Outcome.{success, >>=-success, success_inj}
use ngxora.Upstreams.{CompiledUpstreamGroup}
use ngxora.Routing.Resolve.{listen_key_has_eq}
use ngxora.Routing.Router.{CompiledRouter}
use ngxora.Control.{
  Builders, ConfigSnapshot, RuntimeState, build_runtime_snapshot, with_registry, apply_snapshot,
  invalidate_tls_material,
}
use ngxora.Control.Fingerprint.{restart_fingerprint, IsSameFingerprint}
use ngxora.Control.Build.{IsServed}
use ngxora.Control.Apply.{apply_snapshot_lem, build_runtime_snapshot_lem}

module _ {G : Type 0} (b : Builders G) (same_geoip : Eq G) where
  -- One operation on the state; `poison` is a panic of a thread that holds the lock.
  pub data Step : RuntimeState b → RuntimeState b → Type 0 where
    apply :
        {state : RuntimeState b} (next : ConfigSnapshot G)
        → Step state (apply_snapshot b same_geoip next state).1
    invalidate : {state : RuntimeState b} → Step state (invalidate_tls_material b state).1
    poison : {state : RuntimeState b} → Step state (record state { poisoned = true })

  pub data Reachable (start : RuntimeState b) : RuntimeState b → Type 0 where
    begin : Reachable start start
    then : {s s' : RuntimeState b} → Reachable start s → Step s s' → Reachable start s'

  -- The current snapshot has the fingerprint that the process was started with, a plugin chain for
  -- each location that a listener reaches and a runtime group for each upstream group.
  pub record IsServing (state : RuntimeState b) : Type 0 where
    pub allowed :
        IsSameFingerprint (restart_fingerprint state.current.router) state.bootstrap_config
    pub served :
        All (IsServed b.build_chain state.current.plugin_chains) state.current.router.listeners
    pub grouped :
        (name : Text) (group : CompiledUpstreamGroup)
        → lookup name state.current.router.upstreams ≡ some group
        → (runtime : b.RuntimeUpstreamGroup) × (lookup name state.current.upstream_groups
            ≡ some runtime)

  with_registry-IsServing :
      (snapshot : ConfigSnapshot G) (state : RuntimeState b)
      → with_registry b snapshot ≡ success state
      → IsServing state
  unfolding with_registry
  with_registry-IsServing snapshot state h =
      let (s, e, h') =
        >>=-success (build_runtime_snapshot b snapshot.version snapshot.router 1 none) _ h in
      let snap = build_runtime_snapshot_lem b snapshot 1 none s e in
      subst IsServing (success_inj _ state h') (record {
        allowed =
            subst
              (λ (r : CompiledRouter G).
                IsSameFingerprint (restart_fingerprint r) (restart_fingerprint snapshot.router))
              (sym snap.0)
              (record { same_geoip = refl; same_listeners = λ key. refl; same_options = refl });
        served = snap.1.1.1.served;
        grouped = λ name group f. let (r, _, l) = snap.1.1.1.grouped name group f in (r, l);
      })

  Step-IsServing : (s s' : RuntimeState b) → Step s s' → IsServing s → IsServing s'
  unfolding invalidate_tls_material
  Step-IsServing s _ invalidate v = record {
    allowed = v.allowed;
    served = v.served;
    grouped = v.grouped;
  }
  Step-IsServing s _ poison v = record {
    allowed = v.allowed;
    served = v.served;
    grouped = v.grouped;
  }
  Step-IsServing s _ (apply next) v = elim (apply_snapshot_lem b same_geoip next s) [
    | inr r ↦ subst IsServing (sym r.same) v
    | inl a ↦
        let built = a.snapshot.1.1.1 in
        record {
          allowed =
              subst
                (IsSameFingerprint
                  (restart_fingerprint (apply_snapshot b same_geoip next s).1.current.router))
                (sym a.kept.0) a.allowed;
          served = built.served;
          grouped = λ name group e. let (r, _, l) = built.grouped name group e in (r, l);
        }
  ]

  -- From a start that succeeds, after any sequence of applied snapshots, invalidations and poisonings
  -- of the lock, the current router has the restart fingerprint of the bootstrap, a plugin chain for
  -- each location that a listener reaches and a runtime group for each upstream group.
  pub Reachable-IsServing :
      (snapshot : ConfigSnapshot G) (start state : RuntimeState b)
      → with_registry b snapshot ≡ success start
      → Reachable start state
      → IsServing state
  Reachable-IsServing snapshot start state h begin = with_registry-IsServing snapshot state h
  Reachable-IsServing snapshot start state h (then {s = s} r step) =
      Step-IsServing s state step (Reachable-IsServing snapshot start s h r)
