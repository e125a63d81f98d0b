-- ===== src/Tests/Controlling.antt =====
-- Runs of the control plane, where the parts that a snapshot is built from are small.
use ngxora.Base.{
  ℕ, codes, ◌≡◌, ◌⊎◌, refl, true, false, [], ◌∷◌, none, some, Text, nat_has_eq, discrete_eq,
  text_has_eq, lookup, text_eq, insert, remove,
}
use ngxora.Outcome.{success}
use ngxora.Net.{v4}
use ngxora.Compile.Ir.Upstream.{round_robin}
use ngxora.Tests.Fixtures.{route_to}
use ngxora.Routing.Types.{prefix, direct_response, ServerRoutes}
use ngxora.Routing.Router.{CompiledRouter}
use ngxora.Upstreams.{CompiledUpstreamGroup, group_has_eq}
use ngxora.Control.{
  Builders, ConfigSnapshot, RuntimeState, with_registry, apply_snapshot, build_runtime_snapshot,
  build_runtime_upstream_groups, kept_group, build_scp_profiles, commit,
}
use ngxora.Control.Chains.{
  collect_from_listeners, collect_from_servers, collect_from_locations, backend_counters,
}
use ngxora.Control.Fingerprint.{
  ListenerRestartConfig, ListenerRestartConfig-discrete, BootstrapOptions,
  BootstrapOptions-discrete, restart_fingerprint, same_fingerprint, listener_configs,
}
use ngxora.Control.Apply.{IsApplied, IsRefused, apply_snapshot_lem, apply_snapshot_keeps}
use ngxora.Control.Steps.{apply, begin, then, IsServing, Reachable-IsServing}

abbrev parts : Builders ℕ
parts = record {
  PluginChain = ℕ;
  RuntimeUpstreamGroup = Text;
  RuntimeScp = ℕ;
  TlsMaterial = ℕ;
  build_chain = λ plugins. success 0;
  empty_plugin_chain = 0;
  from_compiled = λ group. success group.name;
  new_scp = λ profile upstreams. success 0;
  scp_matches = λ runtime profile upstreams. true;
  validate_snapshot_tls = λ router. success tt;
  build_tls_material = λ router. success 0;
}

abbrev group : CompiledUpstreamGroup
group = record {
  allow_empty = true;
  name = codes "u";
  policy = round_robin;
  hash_key = none;
  servers = [];
  nrf_discovery = none;
  health_check = none;
}

abbrev site : ServerRoutes
site = record { locations = route_to (direct_response 200) 7 (prefix (codes "/")) ∷ [] }

abbrev router : CompiledRouter ℕ
router = record {
  geoip = some 1;
  scp_profiles = [];
  upstreams = (codes "u", group) ∷ [];
  listeners =
      (record { addr = v4 0; port = 80; ssl = false }, record { named = []; default = some site })
      ∷ [];
  listener_protocols = [];
  listener_tls = [];
  http_options = record {
    real_ip = none;
    client_header_timeout = none;
    client_body_timeout = none;
    send_timeout = none;
    downstream_keepalive_timeout = none;
    keepalive_requests = none;
    client_max_body_size = none;
    proxy_cache_max_size = none;
    tcp_nodelay = true;
    allow_connect_method_proxying = false;
    h2c = false;
    http2 = record {
      max_concurrent_streams = none;
      max_header_list_size = none;
      stream_window_size = none;
      connection_window_size = none;
    };
  };
  le_config = none;
}

abbrev first_version : ConfigSnapshot ℕ
first_version = record { version = codes "1"; router = router }

abbrev second_version : ConfigSnapshot ℕ
second_version = record { version = codes "2"; router = router }

-- The state that the first version starts.
abbrev start : RuntimeState parts
start = record {
  current = record {
    backend_counters = [];
    scp_profiles = [];
    generation = 1;
    version = codes "1";
    router = router;
    plugin_chains = (7, 0) ∷ [];
    upstream_groups = (codes "u", codes "u") ∷ [];
    tls_material = 0;
  };
  geoip = some 1;
  poisoned = false;
  bootstrap_config = restart_fingerprint router;
  tls_material_generation = 1;
}

starts : with_registry parts first_version ≡ success start
unfolding with_registry build_runtime_snapshot collect_from_listeners collect_from_servers
    collect_from_locations lookup build_runtime_upstream_groups kept_group build_scp_profiles
    backend_counters insert
starts = refl

abbrev settings : ListenerRestartConfig
settings = record { protocol = record { http2 = false; http2_only = false }; tls = none }

abbrev options : BootstrapOptions
options = record {
  allow_connect_method_proxying = false;
  h2c = false;
  keepalive_requests = none;
  http2 = record {
    max_concurrent_streams = none;
    max_header_list_size = none;
    stream_window_size = none;
    connection_window_size = none;
  };
}

unchanged :
    same_fingerprint nat_has_eq (restart_fingerprint router) (restart_fingerprint router) ≡ true
unfolding same_fingerprint restart_fingerprint listener_configs lookup insert remove
unchanged =
    rw
      (
        ((discrete_eq ListenerRestartConfig-discrete).same_iff settings settings).1 refl,
        ((discrete_eq BootstrapOptions-discrete).same_iff options options).1 refl,
      )
      refl

applies : (apply_snapshot parts nat_has_eq second_version start).0.applied ≡ true
unfolding apply_snapshot restart_fingerprint build_runtime_snapshot collect_from_listeners
    collect_from_servers collect_from_locations lookup build_runtime_upstream_groups kept_group
    build_scp_profiles backend_counters insert commit text_eq
applies = rw (unchanged, (group_has_eq.same_iff group group).1 refl) refl

-- A snapshot without its listener is refused.
refuses :
    (apply_snapshot parts nat_has_eq
      (record { version = codes "3"; router = record router { listeners = [] } })
      start).0.restart_required
    ≡ true
unfolding apply_snapshot same_fingerprint restart_fingerprint listener_configs lookup insert remove
refuses = refl

apply_snapshot_lem_example :
    IsApplied parts second_version start
      (apply_snapshot parts nat_has_eq second_version start).0
      (apply_snapshot parts nat_has_eq second_version start).1
    ⊎ IsRefused parts start
        (apply_snapshot parts nat_has_eq second_version start).0
        (apply_snapshot parts nat_has_eq second_version start).1
apply_snapshot_lem_example = apply_snapshot_lem parts nat_has_eq second_version start

listed : lookup (codes "u") router.upstreams ≡ some group
unfolding lookup text_eq
listed = refl

running : lookup (codes "u") start.current.upstream_groups ≡ some (codes "u")
unfolding lookup text_eq
running = refl

apply_snapshot_keeps_example :
    lookup
      (codes "u")
      (apply_snapshot parts nat_has_eq second_version start).1.current.upstream_groups
    ≡ some (codes "u")
apply_snapshot_keeps_example =
    apply_snapshot_keeps parts nat_has_eq second_version start (codes "u") group (codes "u") applies
      listed listed running

Reachable-IsServing_example :
    IsServing parts nat_has_eq (apply_snapshot parts nat_has_eq second_version start).1
Reachable-IsServing_example =
    Reachable-IsServing parts nat_has_eq first_version start
      (apply_snapshot parts nat_has_eq second_version start).1 starts
      (then begin (apply second_version))
