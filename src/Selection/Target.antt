-- ===== src/Selection/Target.antt =====
-- crates/ngxora-runtime/src/upstreams/runtime/selection.rs: the target of a request, over the snapshot
-- that the request has captured. What runtime groups and the TLS material answer is a parameter.
use ngxora.Base.{
  ℕ, ◌-◌, ◌%◌, ◌==◌, Bool, List, [], ◌∷◌, Option, none, some, Text, ltb, if◌then◌else◌, nat_has_eq,
  lookup, insert, to_ascii_lowercase, trim_end_matches,
}
use ngxora.Machine.{wrapping_add}
use ngxora.Net.{IpAddr}
use ngxora.Outcome.{Outcome, success, failure, ◌>>=◌, ok_or}
use ngxora.Compile.Ir.Options.{PemSource}
use ngxora.Compile.Ir.Upstream.{UpstreamHashKey, header}
use ngxora.Control.{Builders, RuntimeSnapshot, upstream_group}
use ngxora.Routing.Http.{RouteErr}
use ngxora.Routing.Resolve.{RequestErr}
use ngxora.Routing.Return.{ReturnErr}
use ngxora.Routing.Types.{
  RouteTarget, Backends, no_backends, backend, weighted_backends, direct_response, http_redirect,
  scp, proxy_pass, return_, LocationIpRule, CompiledMatcher, http, HttpRedirect,
}
use ngxora.Routing.Types as Types
use ngxora.Selection.{total_weight}
use ngxora.Upstreams.{CompiledUpstreamServer}
use ngxora.Upstreams.Crates.{Crates}
use ngxora.Upstreams.Compile.Targets.{proxy_pass_sni}

pub record SelectedPeer : Type 0 where
  pub host : Text
  pub port : ℕ
  pub tls : Bool
  pub sni : Text
  pub upstream_group : Option Text
  pub api_prefix : Option Text

pub data SelectedTarget : Type 0 where
  pending : RouteTarget → SelectedTarget
  response : ℕ → SelectedTarget
  to_scp : Text → SelectedTarget
  upstream : SelectedPeer → SelectedTarget
  answer : ℕ → Text → SelectedTarget

-- The errors, each a status or a text of `runtime_config_error` or of an internal error.
pub data SelectErr : Type 0 where
  status : ℕ → SelectErr
  missing_backend_selector invalid_weight_sum missing_upstream_group invalid_backend_target :
      SelectErr
  missing_listener_port missing_trusted_ca missing_client_identity : SelectErr
  bad_return : ReturnErr → SelectErr
  bad_redirect : RouteErr → SelectErr
  bad_request : RequestErr → SelectErr

abbrev pub Selected : Type 0 → Type 0
Selected T = Outcome SelectErr T

-- What the runtime parts of a snapshot answer to a selection.
pub record Answers {G : Type 0} (b : Builders G) : Type 1 where
  pub TrustedCa : Type 0
  pub ClientIdentity : Type 0
  -- `RuntimeUpstreamGroup::uses_consistent_hash`, `hash_key` and `select`
  pub uses_consistent_hash : b.RuntimeUpstreamGroup → Bool
  pub hash_key : b.RuntimeUpstreamGroup → Option UpstreamHashKey
  pub select : b.RuntimeUpstreamGroup → Text → Option CompiledUpstreamServer
  -- `RuntimeSnapshot::trusted_ca` and `client_identity`
  pub trusted_ca : b.TlsMaterial → PemSource → Option TrustedCa
  pub client_identity : b.TlsMaterial → PemSource → PemSource → Option ClientIdentity
  pub crates : Crates
  -- `IpAddr::to_string`
  pub show_ip : IpAddr → Text

-- The counters of the routes with weighted backends.
abbrev pub Counters : Type 0
Counters = List (ℕ × ℕ)

-- One header value that is not empty.
abbrev pub single_value : List Text → Option Text
single_value ((c ∷ value) ∷ []) = some (c ∷ value)
single_value _ = none

abbrev pub header_key : Option UpstreamHashKey → (Text → List Text) → Option Text
header_key (some (header name)) get_all = single_value (get_all name)
header_key _ get_all = none

-- `get_all` is that of the request's header map.
unfoldable pub upstream_selection_key :
    (IpAddr → Text) → Option UpstreamHashKey → (Text → List Text) → Option IpAddr → Selected Text
upstream_selection_key show_ip configured get_all ip = elim (header_key configured get_all) [
  | some value ↦ success value
  | none ↦ elim ip [ some address ↦ success (show_ip address) | none ↦ failure (status 503) ]
]

module _ {G : Type 0} (b : Builders G) (a : Answers b) where
  -- A request at the snapshot, with its header map and client address.
  pub record Request : Type 0 where
    pub snapshot : RuntimeSnapshot b
    pub route_id : ℕ
    pub get_all : Text → List Text
    pub client_ip : Option IpAddr

  unfoldable pub group_key : Request → b.RuntimeUpstreamGroup → Selected Text
  group_key request group =
      if a.uses_consistent_hash group
      then upstream_selection_key a.show_ip (a.hash_key group) request.get_all request.client_ip
      else success []

  -- The arm on an upstream group.
  unfoldable pub select_in_group : Request → Text → Bool → Selected SelectedTarget
  select_in_group request name tls = do
    group ← ok_or missing_upstream_group (upstream_group b request.snapshot name)
    key ← group_key request group
    server ← ok_or (status 503) (a.select group key)
    success (
        upstream (record {
          sni = proxy_pass_sni a.crates server.host tls;
          host = server.host;
          port = server.port;
          tls = tls;
          upstream_group = some (to_ascii_lowercase (trim_end_matches b'.' name));
          api_prefix = server.api_prefix;
        }))

  -- The loop over the backends is the second function; the counters are those after the selection.
  unfoldable mutual
    pub select_backend_target :
        Request → RouteTarget → Counters → Selected SelectedTarget × Counters
    select_backend_target request (weighted_backends backends) counters =
        let total = total_weight backends in
        let selected : Selected SelectedTarget × Counters =
          elim (lookup request.route_id counters) [
            | none ↦ (failure missing_backend_selector, counters)
            | some n ↦
                follow request (n % total) backends
                  (insert request.route_id (wrapping_add n 1) counters)
          ] in
        if total == 0 then (failure (status 503), counters) else selected
    select_backend_target request (direct_response code) counters =
        (success (response code), counters)
    select_backend_target request (proxy_pass host port tls sni) counters = (
      success (
          upstream (record {
            host = host;
            port = port;
            tls = tls;
            sni = sni;
            upstream_group = none;
            api_prefix = none;
          })),
      counters,
    )
    select_backend_target request (Types.upstream_group name tls) counters =
        (select_in_group request name tls, counters)
    select_backend_target request (http_redirect config) counters =
        (failure invalid_backend_target, counters)
    select_backend_target request (scp profile) counters =
        (failure invalid_backend_target, counters)
    select_backend_target request (return_ code location) counters =
        (failure invalid_backend_target, counters)

    pub follow : Request → ℕ → Backends → Counters → Selected SelectedTarget × Counters
    follow request slot no_backends counters = (failure invalid_weight_sum, counters)
    follow request slot (backend weight target rest) counters =
        let here = select_backend_target request target counters in
        let later = follow request (slot - weight) rest counters in
        if ltb slot weight then here else later
