-- ===== src/Control.antt =====
-- crates/ngxora-runtime/src/control.rs: the runtime state and how a snapshot is applied to it. The
-- mutex makes an application one step. `Builders` is what the parts that a snapshot is built from
-- (the plugin registry, upstream groups, TLS material, SCP profiles) offer to it.
pub mod Chains
pub mod Fingerprint
pub mod Build
pub mod Apply
pub mod Steps
pub mod Origin
use ngxora.Base.{
  ℕ, zero, suc, ◌+◌, ◌%◌, ◌^◌, Bool, true, false, not, List, [], ◌∷◌, ◌++◌, map, Option, none, some,
  Text, Eq, nat_has_eq, text_has_eq, lookup, insert, is_some, if◌then◌else◌, to_ascii_lowercase,
  trim_end_matches,
}
use ngxora.Outcome.{Outcome, success, failure, ◌>>=◌, ◌>>◌, ok_or, ensure}
use ngxora.Compile.Ir.{ScpProfile}
use ngxora.Compile.Ir.Options.{PemSource}
use ngxora.Routing.Types.{
  ListenKey, VirtualHostRoutes, ServerRoutes, CompiledLocation, PluginSpec, RouteTarget,
  weighted_backends,
}
use ngxora.Routing.Resolve.{listen_key_has_eq}
use ngxora.Routing.Router.{CompiledRouter}
use ngxora.Upstreams.{CompiledUpstreamGroup, group_has_eq}
use ngxora.Control.Chains.{collect_from_listeners, backend_counters, all_locations}
use ngxora.Control.Fingerprint.{RestartConfigFingerprint, restart_fingerprint, same_fingerprint}

pub record Builders (GeoIpConfig : Type 0) : Type 1 where
  pub PluginChain : Type 0
  pub RuntimeUpstreamGroup : Type 0
  pub RuntimeScp : Type 0
  pub TlsMaterial : Type 0
  -- `PluginRegistry::build_chain`
  pub build_chain : List PluginSpec → Outcome Text PluginChain
  pub empty_plugin_chain : PluginChain
  -- `RuntimeUpstreamGroup::from_compiled`
  pub from_compiled : CompiledUpstreamGroup → Outcome Text RuntimeUpstreamGroup
  -- `RuntimeScp::new` and `RuntimeScp::matches`
  pub new_scp : ScpProfile → List (Text × CompiledUpstreamGroup) → Outcome Text RuntimeScp
  pub scp_matches : RuntimeScp → ScpProfile → List (Text × CompiledUpstreamGroup) → Bool
  -- `validate_snapshot_tls`, and `build_runtime_trusted_cas` with `build_runtime_client_identities`
  pub validate_snapshot_tls : CompiledRouter GeoIpConfig → Outcome Text (Unit {0})
  pub build_tls_material : CompiledRouter GeoIpConfig → Outcome Text TlsMaterial

pub data Message : Type 0 where
  lock_poisoned restart_needed snapshot_applied : Message
  rejected : Text → Message

pub record ApplyResult : Type 0 where
  pub applied : Bool
  pub restart_required : Bool
  pub message : Message
  pub active_version : Text
  pub active_generation : ℕ

pub record ConfigSnapshot (GeoIpConfig : Type 0) : Type 0 where
  pub version : Text
  pub router : CompiledRouter GeoIpConfig

module _ {G : Type 0} (b : Builders G) where
  pub record RuntimeSnapshot : Type 0 where
    pub backend_counters : List (ℕ × ℕ)
    pub scp_profiles : List (Text × b.RuntimeScp)
    pub generation : ℕ
    pub version : Text
    pub router : CompiledRouter G
    pub plugin_chains : List (ℕ × b.PluginChain)
    pub upstream_groups : List (Text × b.RuntimeUpstreamGroup)
    pub tls_material : b.TlsMaterial

  -- `apply_lock` is poisoned or not.
  pub record RuntimeState : Type 0 where
    pub current : RuntimeSnapshot
    pub geoip : Option G
    pub poisoned : Bool
    pub bootstrap_config : RestartConfigFingerprint G
    pub tls_material_generation : ℕ

  -- `RuntimeSnapshot::plugin_chain` and `upstream_group`
  unfoldable pub plugin_chain : RuntimeSnapshot → ℕ → b.PluginChain
  plugin_chain snapshot route_id = elim (lookup route_id snapshot.plugin_chains) [
    | some chain ↦ chain
    | none ↦ b.empty_plugin_chain
  ]

  unfoldable pub upstream_group : RuntimeSnapshot → Text → Option b.RuntimeUpstreamGroup
  upstream_group snapshot name =
      lookup (to_ascii_lowercase (trim_end_matches b'.' name)) snapshot.upstream_groups

  abbrev pub is_group : Option CompiledUpstreamGroup → CompiledUpstreamGroup → Bool
  is_group none group = false
  is_group (some other) group = group_has_eq.same other group

  -- The runtime group of the same configuration in the previous snapshot.
  unfoldable pub kept_group :
      Option RuntimeSnapshot → Text → CompiledUpstreamGroup → Option b.RuntimeUpstreamGroup
  kept_group none name group = none
  kept_group (some snapshot) name group =
      if is_group (lookup name snapshot.router.upstreams) group
      then lookup name snapshot.upstream_groups
      else none

  abbrev pub or_build : {A : Type 0} → Option A → Outcome Text A → Outcome Text A
  or_build none built = built
  or_build (some a) built = success a

  unfoldable pub build_runtime_upstream_groups :
      Option RuntimeSnapshot
      → List (Text × CompiledUpstreamGroup)
      → Outcome Text (List (Text × b.RuntimeUpstreamGroup))
  build_runtime_upstream_groups previous [] = success []
  build_runtime_upstream_groups previous ((name, group) ∷ rest) = do
    runtime ← or_build (kept_group previous name group) (b.from_compiled group)
    groups ← build_runtime_upstream_groups previous rest
    success ((name, runtime) ∷ groups)

  abbrev pub if_matches :
      Option b.RuntimeScp → ScpProfile → List (Text × CompiledUpstreamGroup) → Option b.RuntimeScp
  if_matches none profile upstreams = none
  if_matches (some runtime) profile upstreams =
      if b.scp_matches runtime profile upstreams then some runtime else none

  abbrev pub scp_of : Option RuntimeSnapshot → Text → Option b.RuntimeScp
  scp_of none name = none
  scp_of (some snapshot) name = lookup name snapshot.scp_profiles

  unfoldable pub build_scp_profiles :
      Option RuntimeSnapshot
      → List (Text × CompiledUpstreamGroup)
      → List (Text × ScpProfile)
      → Outcome Text (List (Text × b.RuntimeScp))
  build_scp_profiles previous upstreams [] = success []
  build_scp_profiles previous upstreams ((name, profile) ∷ rest) = do
    runtime ←
        or_build (if_matches (scp_of previous name) profile upstreams) (b.new_scp profile upstreams)
    profiles ← build_scp_profiles previous upstreams rest
    success ((name, runtime) ∷ profiles)

  unfoldable pub build_runtime_snapshot :
      Text → CompiledRouter G → ℕ → Option RuntimeSnapshot → Outcome Text RuntimeSnapshot
  build_runtime_snapshot version router generation previous = do
    elim previous [ none ↦ success tt | some snapshot ↦ b.validate_snapshot_tls router ]
    chains ← collect_from_listeners b.build_chain router.listeners []
    groups ← build_runtime_upstream_groups previous router.upstreams
    material ← b.build_tls_material router
    profiles ← build_scp_profiles previous router.upstreams router.scp_profiles
    success (record {
      backend_counters = backend_counters (all_locations router.listeners);
      scp_profiles = profiles;
      generation = generation;
      version = version;
      router = router;
      plugin_chains = chains;
      upstream_groups = groups;
      tls_material = material;
    })

  -- `with_registry`; a failure is its panic.
  unfoldable pub with_registry : ConfigSnapshot G → Outcome Text RuntimeState
  with_registry snapshot = do
    initial_snapshot ← build_runtime_snapshot snapshot.version snapshot.router 1 none
    success (record {
      current = initial_snapshot;
      geoip = snapshot.router.geoip;
      poisoned = false;
      bootstrap_config = restart_fingerprint snapshot.router;
      tls_material_generation = 1;
    })

  abbrev pub refuse : RuntimeState → Bool → Message → ApplyResult × RuntimeState
  refuse state restart message = (
    record {
      applied = false;
      restart_required = restart;
      message = message;
      active_version = state.current.version;
      active_generation = state.current.generation;
    },
    state,
  )

  -- What follows the build of the snapshot.
  unfoldable pub commit : RuntimeState → Outcome Text RuntimeSnapshot → ApplyResult × RuntimeState
  commit state (failure message) = refuse state false (rejected message)
  commit state (success snapshot) = (
    record {
      applied = true;
      restart_required = false;
      message = snapshot_applied;
      active_version = snapshot.version;
      active_generation = snapshot.generation;
    },
    record state { current = snapshot },
  )

  -- `same_geoip` is the derived `PartialEq` of a `GeoIpConfig`.
  unfoldable pub apply_snapshot :
      Eq G → ConfigSnapshot G → RuntimeState → ApplyResult × RuntimeState
  apply_snapshot same_geoip next state =
      if state.poisoned
      then refuse state false lock_poisoned
      else (if not
            (same_fingerprint same_geoip (restart_fingerprint next.router) state.bootstrap_config)
          then refuse state true restart_needed
          else commit state (
              build_runtime_snapshot next.version next.router
                ((state.current.generation + 1) % 2 ^ 64) (some state.current)))

  unfoldable pub invalidate_tls_material : RuntimeState → ℕ × RuntimeState
  invalidate_tls_material state =
      let next = (state.tls_material_generation + 1) % 2 ^ 64 in
      (next, record state { tls_material_generation = next })
