-- ===== src/Compile/Validate.antt =====
-- crates/ngxora-compile/src/validate.rs. Whether `http::HeaderName::from_bytes` takes a name is the
-- parameter `is_header_name`.
pub mod Acceptance
pub mod Servers
pub mod Upstreams
use ngxora.Base.{
  ℕ, ◌+◌, ◌%◌, ◌^◌, Bool, true, false, not, ◌&&◌, List, [], ◌∷◌, Option, none, some, Text, codes,
  ltb, ◌==◌, is_some, if◌then◌else◌,
}
use ngxora.Machine.{u16_max}
use ngxora.Outcome.{Outcome, success, failure, ◌>>=◌, ◌>>◌, ok_or, ensure}
use ngxora.Compile.Ir.{Ir, Http, Server}
use ngxora.Compile.Ir.Upstream.{
  UpstreamBlock, UpstreamServer, UpstreamSelectionPolicy, consistent_hash, UpstreamHashKey, header,
}
use ngxora.Compile.Ir.Locations.{
  Location, LocationDirective, proxy_pass, scp_pass, return_, weighted_backends, direct_response,
  http_redirect, root, try_files,
}

pub data ValidateErr : Type 0 where
  no_http no_servers : ValidateErr
  no_backends mixed_sources no_health_check too_heavy hash_key_unused bad_header_name :
      Text → ValidateErr
  zero_weight : Text → UpstreamServer → ValidateErr
  unsupported_directive : ℕ → ℕ → Text → ValidateErr
  not_one_action : ℕ → ℕ → ValidateErr

abbrev pub Checked : Type 0 → Type 0
Checked T = Outcome ValidateErr T

abbrev pub is_empty {ℓ} : {A : Type ℓ} → List A → Bool
is_empty [] = true
is_empty (x ∷ xs) = false

-- The fold over the servers, in a `u32`.
unfoldable pub total_weight : Text → ℕ → List UpstreamServer → Checked ℕ
total_weight name total [] = success total
total_weight name total (server ∷ servers) = elim (server.weight == 0) [
  | true ↦ failure (zero_weight name server)
  | false ↦ total_weight name ((total + server.weight) % 2 ^ 32) servers
]

abbrev pub uses_hash_key : UpstreamSelectionPolicy → Option UpstreamHashKey → Bool
uses_hash_key consistent_hash key = true
uses_hash_key _ none = true
uses_hash_key _ (some key) = false

-- What a directive is for the count of actions.
pub data Kind : Type 0 where
  action other : Kind
  unsupported : Text → Kind

unfoldable pub kind : LocationDirective → Kind
kind (proxy_pass target) = action
kind (scp_pass profile) = action
kind (return_ status location) = action
kind (weighted_backends backends) = action
kind (direct_response status) = action
kind (http_redirect redirect) = action
kind (root path) = unsupported (codes "root")
kind (try_files path) = unsupported (codes "try_files")
kind _ = other

-- The loop over the directives of a location; `action_count` is an `i32`, as its 32 bits.
unfoldable pub count_actions : ℕ → ℕ → ℕ → List LocationDirective → Checked ℕ
count_actions server_index location_index action_count [] = success action_count
count_actions server_index location_index action_count (directive ∷ rest) = elim (kind directive) [
  | action ↦ count_actions server_index location_index ((action_count + 1) % 2 ^ 32) rest
  | unsupported name ↦ failure (unsupported_directive server_index location_index name)
  | other ↦ count_actions server_index location_index action_count rest
]

unfoldable pub validate_location : ℕ → ℕ → Location → Checked (Unit {0})
validate_location server_index location_index location = do
  action_count ← count_actions server_index location_index 0 location.directives
  ensure (action_count == 1) (not_one_action (server_index + 1) (location_index + 1))

unfoldable pub validate_locations : ℕ → ℕ → List Location → Checked (Unit {0})
validate_locations server_index location_index [] = success tt
validate_locations server_index location_index (location ∷ rest) =
    validate_location server_index location_index location
    >> validate_locations server_index (location_index + 1) rest

unfoldable pub validate_servers : ℕ → List Server → Checked (Unit {0})
validate_servers server_index [] = success tt
validate_servers server_index (server ∷ rest) =
    validate_locations server_index 0 server.locations >> validate_servers (server_index + 1) rest

module _ (is_header_name : Text → Bool) where
  abbrev pub names_header : Option UpstreamHashKey → Bool
  names_header (some (header name)) = is_header_name name
  names_header _ = true

  unfoldable pub validate_upstream : UpstreamBlock → Checked (Unit {0})
  validate_upstream upstream = do
    ensure
        (not (
          is_empty upstream.servers
          && (not (is_some upstream.nrf_discovery) && not upstream.allow_empty)))
        (no_backends upstream.name)
    ensure (not (not (is_empty upstream.servers) && is_some upstream.nrf_discovery))
        (mixed_sources upstream.name)
    ensure (not (is_some upstream.nrf_discovery && not (is_some upstream.health_check)))
        (no_health_check upstream.name)
    weight ← total_weight upstream.name 0 upstream.servers
    ensure (not (ltb u16_max weight)) (too_heavy upstream.name)
    ensure (uses_hash_key upstream.policy upstream.hash_key) (hash_key_unused upstream.name)
    ensure (names_header upstream.hash_key) (bad_header_name upstream.name)

  unfoldable pub validate_upstreams : List UpstreamBlock → Checked (Unit {0})
  validate_upstreams [] = success tt
  validate_upstreams (upstream ∷ rest) = validate_upstream upstream >> validate_upstreams rest

  -- `Ir::validate`
  unfoldable pub validate : Ir → Checked (Unit {0})
  validate ir = do
    http ← ok_or no_http ir.http
    ensure (not (is_empty http.servers)) no_servers
    validate_upstreams http.upstreams
    validate_servers 0 http.servers
