-- ===== src/Tests/Serving.antt =====
-- Requests to a router that is compiled.
use mathlib.Core.List.{Perm}
use ngxora.Base.{
  ℕ, ◌≤◌, ◌<◌, ◌≡◌, ◌≢◌, refl, true, false, arith, List, [], ◌∷◌, map, none, some, Text, codes,
  text_has_eq, nat_has_eq, lookup, insert, remove, here, there,
}
use ngxora.Outcome.{success}
use ngxora.Compile.Ir.Options.{GeoIpConfig}
use ngxora.Routing.Resolve.{listen_key_has_eq}
use ngxora.Routing.Return.{expand_return}
use ngxora.Routing.Types.{
  Backends, backend, no_backends, direct_response, weighted_backends, return_, upstream_group,
}
use ngxora.Control.{
  Builders, RuntimeSnapshot, build_runtime_snapshot, build_runtime_upstream_groups, kept_group,
  build_scp_profiles, plugin_chain,
}
use ngxora.Control.Chains.{
  collect_from_listeners, collect_from_servers, collect_from_locations, backend_counters,
}
use ngxora.Routing.Resolve.{Session}
use ngxora.Selection.Route.{Target, matched_prefix, target_of}
use ngxora.Selection.Target.{Answers, Request, answer, select_backend_target}
use ngxora.Selection.Answered.{IsAnswered}
use ngxora.Selection.Counting.{start, again}
use ngxora.Selection.{total_weight}
use ngxora.Selection.Fairness.{by_weight}
use ngxora.Selection.Weights
use ngxora.Selection.Weights.{ArePlain, answer_of, Turn, own, other, owned, answers-by_weight}
use ngxora.Serving.Plugins.{plugin_chain-from_http}
use ngxora.Serving.Backends.{select_backend_target-from_http}
use ngxora.Serving.Returns.{target_of-from_http}
use ngxora.Tests.Assembling.{crates, http, router, home, old, to_web, compiles, few}

abbrev parts : Builders GeoIpConfig
parts = record {
  PluginChain = ℕ;
  RuntimeUpstreamGroup = Text;
  RuntimeScp = ℕ;
  TlsMaterial = ℕ;
  build_chain = λ plugins. success 5;
  empty_plugin_chain = 0;
  from_compiled = λ group. success group.name;
  new_scp = λ profile upstreams. success 0;
  scp_matches = λ runtime profile upstreams. true;
  validate_snapshot_tls = λ router. success tt;
  build_tls_material = λ router. success 0;
}

abbrev snapshot : RuntimeSnapshot parts
snapshot = record {
  backend_counters = (1, 0) ∷ [];
  scp_profiles = (codes "core", 0) ∷ [];
  generation = 1;
  version = codes "1";
  router = router;
  plugin_chains = (3, 5) ∷ ((2, 5) ∷ ((1, 5) ∷ []));
  upstream_groups = (codes "web", codes "Web") ∷ [];
  tls_material = 0;
}

builds : build_runtime_snapshot parts (codes "1") router 1 none ≡ success snapshot
unfolding build_runtime_snapshot collect_from_listeners collect_from_servers collect_from_locations
    lookup insert remove build_runtime_upstream_groups kept_group build_scp_profiles
    backend_counters
builds = refl

plugin_chain-from_http_example : parts.build_chain [] ≡ success (plugin_chain parts snapshot 2)
plugin_chain-from_http_example =
    plugin_chain-from_http crates parts http router (codes "1") 1 none snapshot old compiles few
      builds (there here)

abbrev answers : Answers parts
answers = record {
  TrustedCa = ℕ;
  ClientIdentity = ℕ;
  uses_consistent_hash = λ group. false;
  hash_key = λ group. none;
  select = λ group key.
      some
        (record { host = group; port = 8080; weight = 1; api_prefix = none; nrf_service = none });
  trusted_ca = λ material source. none;
  client_identity = λ material cert key. none;
  crates = crates;
  show_ip = λ ip. [];
}

abbrev request : Request parts answers
request = record { snapshot = snapshot; route_id = 1; get_all = λ name. []; client_ip = none }

-- The second request to the weighted backends.
select_backend_target-from_http_example :
    IsAnswered
      (select_backend_target parts answers request to_web
        (select_backend_target parts answers request to_web snapshot.backend_counters).1).0
select_backend_target-from_http_example =
    select_backend_target-from_http crates parts answers http router (codes "1") 1 none snapshot
      home (λ name. []) none
      (select_backend_target parts answers request to_web snapshot.backend_counters).1 compiles few
      builds here refl (again request to_web start)

abbrev two_to_one : Backends
two_to_one =
    backend 2 (direct_response 200) (backend 1 (upstream_group (codes "Web") false) no_backends)

elsewhere : ◌≢◌ {A = ℕ} 2 1
elsewhere = ground arith

-- Three requests to the route, one for another route between them.
abbrev calls : List (Turn parts answers request)
calls =
    own
    ∷ (other (record request { route_id = 2 }) (weighted_backends two_to_one) elsewhere
        ∷ (own ∷ (own ∷ [])))

answers-by_weight_example :
    Perm
      (Weights.answers parts answers request calls two_to_one ((1, 7) ∷ ((2, 0) ∷ [])))
      (map (answer_of parts answers request) (by_weight two_to_one))
unfolding total_weight ArePlain lookup owned
answers-by_weight_example =
    answers-by_weight parts answers request calls 7 two_to_one ((1, 7) ∷ ((2, 0) ∷ [])) refl
      (tt, (tt, tt)) (omega arith) (omega arith) refl

abbrev session : Session
session = record {
  server_addr = none;
  ssl = none;
  host_header = none;
  req_header = record {
    path = codes "/old";
    query = none;
    method = codes "GET";
    header = λ name. none;
    query_pairs = [];
  };
}

abbrev asked : Target
asked = record {
  uri = record { path = codes "/old"; query = none; text = codes "/old" };
  path_and_query = none;
}

target_of-from_http_example :
    (300 ≤ 301)
    × (301 < 400)
    × (text : Text) × (expand_return (codes "h") (codes "/") (codes "http") (codes "https://$host/")
        ≡ success text)
    × (target_of
          (λ t. none)
          session
          asked
          (matched_prefix old.matcher)
          (return_ 301 (codes "https://$host/"))
          (some (codes "h"))
        ≡ success (answer 301 text))
target_of-from_http_example =
    target_of-from_http crates http router old 301 (codes "https://$host/") (λ t. none) session
      asked (some (codes "h")) compiles few (there here) refl
