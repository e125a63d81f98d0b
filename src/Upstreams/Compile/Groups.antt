-- ===== src/Upstreams/Compile/Groups.antt =====
-- compile/upstream_groups.rs
use ngxora.Base.{
  ℕ, ◌+◌, ◌%◌, ◌^◌, ◌-◌, Bool, true, false, not, ◌&&◌, ◌||◌, List, [], ◌∷◌, map, Option, none, some,
  Text, codes, ltb, leb, ◌==◌, is_some, if◌then◌else◌, text_eq, starts_with, trim_end_matches,
  to_ascii_lowercase, lookup, insert, text_has_eq,
}
use ngxora.Machine.{u16_max}
use ngxora.Outcome.{Outcome, success, failure, ◌>>=◌, ◌>>◌, ok_or, ensure}
use ngxora.ClientIp.{trim}
use ngxora.Compile.Ir.Upstream.{
  UpstreamBlock, UpstreamServer, NrfDiscovery, UpstreamHealthCheck, UpstreamHealthCheckType,
  UpstreamSelectionPolicy, consistent_hash, UpstreamHashKey, header,
}
use ngxora.Compile.Ir.Upstream as Ir
use ngxora.Upstreams.{
  CompiledUpstreamServer, CompiledHealthCheck, HealthCheckType, CompiledNrfDiscovery,
  CompiledUpstreamGroup,
}
use ngxora.Upstreams.Crates.{Crates, Url}
use ngxora.Upstreams.Compile.Errors.{
  Compiled, empty_server_host, zero_server_port, zero_health_check, empty_health_host,
  bad_health_path, bad_api_root, zero_discovery_time, unpaired_discovery_identity,
  empty_upstream_name, no_backends, mixed_sources, no_health_check, zero_weight, too_heavy,
  hash_key_unused, bad_hash_header, duplicate_upstream,
}
use ngxora.Compile.Validate.{is_empty, uses_hash_key}

unfoldable pub normalize_upstream_name : Text → Text
normalize_upstream_name name = to_ascii_lowercase (trim_end_matches b'.' name)

unfoldable pub compile_upstream_server : UpstreamServer → Compiled CompiledUpstreamServer
compile_upstream_server server = do
  ensure (not (is_empty (trim server.host))) empty_server_host
  ensure (not (server.port == 0)) (zero_server_port server.host)
  success (record {
    host = server.host;
    port = server.port;
    weight = server.weight;
    api_prefix = none;
    nrf_service = none;
  })

unfoldable pub compile_upstream_servers :
    List UpstreamServer → Compiled (List CompiledUpstreamServer)
compile_upstream_servers [] = success []
compile_upstream_servers (server ∷ servers) = do
  compiled ← compile_upstream_server server
  rest ← compile_upstream_servers servers
  success (compiled ∷ rest)

-- The `try_fold` over the weights, in a `u32`.
unfoldable pub total_weight : Text → ℕ → List UpstreamServer → Compiled ℕ
total_weight name total [] = success total
total_weight name total (server ∷ servers) = elim (server.weight == 0) [
  | true ↦ failure (zero_weight name)
  | false ↦ total_weight name ((total + server.weight) % 2 ^ 32) servers
]

-- `to_ascii_uppercase`
abbrev pub upper : ℕ → ℕ
upper c = if leb b'a' c && leb c b'z' then c - 32 else c

-- Both or none.
abbrev pub is_paired {ℓ} : {A : Type ℓ} → Option A → Option A → Bool
is_paired none none = true
is_paired (some a) (some b) = true
is_paired _ _ = false

-- `Option::map` with `transpose`
abbrev pub each {ℓ} : {E A B : Type ℓ} → (A → Outcome E B) → Option A → Outcome E (Option B)
each f none = success none
each f (some a) = do b ← f a; success (some b)

abbrev pub is_http_scheme : Text → Bool
is_http_scheme scheme = text_eq scheme (codes "http") || text_eq scheme (codes "https")

module _ (crates : Crates) where
  abbrev pub is_origin_form : Text → Bool
  is_origin_form path = elim (crates.parse_uri path) [
    | none ↦ false
    | some uri ↦
        not (is_some uri.scheme || (is_some uri.authority || not (starts_with (b'/' ∷ []) path)))
  ]

  unfoldable pub compile_check_type : UpstreamHealthCheckType → Compiled HealthCheckType
  compile_check_type Ir.tcp = success HealthCheckType.tcp
  compile_check_type (Ir.http host path use_tls) = do
    ensure (not (is_empty (trim host))) empty_health_host
    ensure (is_origin_form path) (bad_health_path path)
    success (HealthCheckType.http host path use_tls)

  unfoldable pub compile_upstream_health_check : UpstreamHealthCheck → Compiled CompiledHealthCheck
  compile_upstream_health_check health_check = do
    ensure (not (health_check.timeout == 0)) (zero_health_check (codes "timeout"))
    ensure (not (health_check.interval == 0)) (zero_health_check (codes "interval"))
    ensure (not (health_check.consecutive_success == 0))
        (zero_health_check (codes "consecutive_success"))
    ensure (not (health_check.consecutive_failure == 0))
        (zero_health_check (codes "consecutive_failure"))
    check_type ← compile_check_type health_check.check_type
    success (record {
      check_type = check_type;
      timeout = health_check.timeout;
      interval = health_check.interval;
      consecutive_success = health_check.consecutive_success;
      consecutive_failure = health_check.consecutive_failure;
    })

  abbrev pub is_api_root : Url → Bool
  is_api_root url =
      is_http_scheme url.scheme
      && ((is_some url.host_str && not url.cannot_be_a_base)
          && (not (is_some url.query) && not (is_some url.fragment)))

  unfoldable pub compile_nrf_discovery : NrfDiscovery → Compiled CompiledNrfDiscovery
  compile_nrf_discovery discovery = do
    api_root ← ok_or bad_api_root (crates.parse_url discovery.api_root)
    ensure (is_api_root api_root) bad_api_root
    ensure (not (discovery.timeout == 0 || discovery.stale_if_error == 0)) zero_discovery_time
    ensure
        (is_paired discovery.tls_options.client_certificate
          discovery.tls_options.client_certificate_key)
        unpaired_discovery_identity
    success (record {
      api_root = api_root.text;
      target_nf_type = map upper (trim discovery.target_nf_type);
      requester_nf_type = map upper (trim discovery.requester_nf_type);
      service_name = trim discovery.service_name;
      endpoint_scheme = discovery.endpoint_scheme;
      timeout = discovery.timeout;
      stale_if_error = discovery.stale_if_error;
      tls_options = discovery.tls_options;
    })

  abbrev pub is_hash_header : Option UpstreamHashKey → Bool
  is_hash_header (some (header name)) = is_some (crates.header_name name)
  is_hash_header _ = true

  -- The checks of the loop over the upstreams.
  unfoldable pub check_upstream : UpstreamBlock → Compiled (Unit {0})
  check_upstream upstream = do
    ensure (not (is_empty (normalize_upstream_name upstream.name))) empty_upstream_name
    ensure
        (not (
          is_empty upstream.servers
          && (not (is_some upstream.nrf_discovery) && not upstream.allow_empty)))
        (no_backends upstream.name)
    ensure (not (not (is_empty upstream.servers) && is_some upstream.nrf_discovery))
        (mixed_sources upstream.name)
    ensure (not (is_some upstream.nrf_discovery && not (is_some upstream.health_check)))
        (no_health_check upstream.name)
    weight ← total_weight upstream.name 0 upstream.servers
    ensure (not (ltb u16_max weight)) (too_heavy upstream.name)
    ensure (uses_hash_key upstream.policy upstream.hash_key) (hash_key_unused upstream.name)
    ensure (is_hash_header upstream.hash_key) (bad_hash_header upstream.name)

  unfoldable pub compile_upstream : UpstreamBlock → Compiled CompiledUpstreamGroup
  compile_upstream upstream = do
    check_upstream upstream
    servers ← compile_upstream_servers upstream.servers
    nrf_discovery ← each compile_nrf_discovery upstream.nrf_discovery
    health_check ← each compile_upstream_health_check upstream.health_check
    success (record {
      allow_empty = upstream.allow_empty;
      name = upstream.name;
      policy = upstream.policy;
      hash_key = upstream.hash_key;
      servers = servers;
      nrf_discovery = nrf_discovery;
      health_check = health_check;
    })

  -- The loop, with the groups so far.
  unfoldable pub compile_upstreams_from :
      List UpstreamBlock
      → List (Text × CompiledUpstreamGroup)
      → Compiled (List (Text × CompiledUpstreamGroup))
  compile_upstreams_from [] compiled = success compiled
  compile_upstreams_from (upstream ∷ rest) compiled = do
    group ← compile_upstream upstream
    ensure (not (is_some (lookup (normalize_upstream_name upstream.name) compiled)))
        (duplicate_upstream upstream.name)
    compile_upstreams_from rest (insert (normalize_upstream_name upstream.name) group compiled)

  unfoldable pub compile_upstreams :
      List UpstreamBlock → Compiled (List (Text × CompiledUpstreamGroup))
  compile_upstreams upstreams = compile_upstreams_from upstreams []
