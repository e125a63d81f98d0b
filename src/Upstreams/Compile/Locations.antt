-- ===== src/Upstreams/Compile/Locations.antt =====
-- compile/routes.rs: the locations of a server.
use ngxora.Base.{
  ℕ, ◌+◌, ◌%◌, ◌^◌, Bool, true, false, not, ◌&&◌, ◌||◌, List, [], ◌∷◌, Option, none, some, Text,
  codes, ltb, leb, ◌==◌, is_some, if◌then◌else◌, length,
}
use ngxora.Outcome.{success, failure, ◌>>=◌, ◌>>◌, ok_or, ensure, map_err}
use ngxora.Compile.Ir.Locations as Ir
use ngxora.Compile.Ir.Locations.{Location, LocationDirective, LocationMatcher, UrlRewrite}
use ngxora.Routing.Http.{compile_match, validate_hostname, validate_modifier}
use ngxora.Routing.Return.{expand_return}
use ngxora.Routing.Types.{
  CompiledMatcher, CompiledLocation, RouteTarget, weighted_backends, http_redirect, scp, proxy_pass,
  upstream_group, return_,
}
use ngxora.Upstreams.Crates.{Crates}
use ngxora.Upstreams.Compile.Errors.{
  Compiled, unsupported_directive, not_one_action, scp_with_cache, rewrite_without_upstream,
  bad_redirect_status, bad_redirect_scheme, bad_redirect_port, bad_return_status,
  bad_return_location, bad_regex, mixed_matchers, route, return_template,
}
use ngxora.Upstreams.Compile.Targets.{Groups, route_target, set_once, compile_upstream_protocol}
use ngxora.Upstreams.Compile.Groups.{is_http_scheme}
use ngxora.Upstreams.Compile.Policy.{
  compile_client_limits, compile_upstream_timeouts, compile_upstream_http2,
  compile_upstream_ssl_options,
}

-- The loop that counts the actions, in an `i32` as its 32 bits.
unfoldable pub count_actions : ℕ → List LocationDirective → Compiled ℕ
count_actions action_count [] = success action_count
count_actions action_count (Ir.proxy_pass target ∷ rest) =
    count_actions ((action_count + 1) % 2 ^ 32) rest
count_actions action_count (Ir.scp_pass profile ∷ rest) =
    count_actions ((action_count + 1) % 2 ^ 32) rest
count_actions action_count (Ir.return_ status location ∷ rest) =
    count_actions ((action_count + 1) % 2 ^ 32) rest
count_actions action_count (Ir.weighted_backends backends ∷ rest) =
    count_actions ((action_count + 1) % 2 ^ 32) rest
count_actions action_count (Ir.direct_response status ∷ rest) =
    count_actions ((action_count + 1) % 2 ^ 32) rest
count_actions action_count (Ir.http_redirect config ∷ rest) =
    count_actions ((action_count + 1) % 2 ^ 32) rest
count_actions action_count (Ir.root path ∷ rest) = failure (unsupported_directive (codes "root"))
count_actions action_count (Ir.try_files path ∷ rest) =
    failure (unsupported_directive (codes "try_files"))
count_actions action_count (_ ∷ rest) = count_actions action_count rest

abbrev pub is_scp : RouteTarget → Bool
is_scp (scp profile) = true
is_scp _ = false

-- The targets whose request goes to an upstream.
abbrev pub takes_rewrite : RouteTarget → Bool
takes_rewrite (proxy_pass host port tls sni) = true
takes_rewrite (upstream_group name tls) = true
takes_rewrite (weighted_backends _) = true
takes_rewrite _ = false

abbrev pub check_host : Option Text → Compiled (Unit {0})
check_host none = success tt
check_host (some host) = map_err route (validate_hostname host)

abbrev pub is_redirect_status : ℕ → Bool
is_redirect_status status =
    status == 301 || (status == 302 || (status == 303 || (status == 307 || status == 308)))

abbrev pub is_redirect_scheme : Option Text → Bool
is_redirect_scheme none = true
is_redirect_scheme (some scheme) = is_http_scheme scheme

abbrev pub is_positive_port : Option ℕ → Bool
is_positive_port none = true
is_positive_port (some port) = not (port == 0)

abbrev pub is_http_matcher : LocationMatcher → Bool
is_http_matcher (Ir.http m) = true
is_http_matcher _ = false

abbrev pub http_count : List Location → ℕ
http_count [] = 0
http_count (l ∷ ls) = if is_http_matcher l.matcher then 1 + http_count ls else http_count ls

abbrev pub cons_some {ℓ} : {A : Type ℓ} → Option A → List A → List A
cons_some none rest = rest
cons_some (some a) rest = a ∷ rest

module _ (crates : Crates) where
  -- `CompiledMatcher::try_from` of types.rs
  unfoldable pub compile_matcher : LocationMatcher → Compiled CompiledMatcher
  compile_matcher (Ir.http m) = do
    compiled ← map_err route (
        compile_match crates.is_path_and_query crates.is_method crates.is_header_value
          crates.header_name m)
    success (CompiledMatcher.http compiled)
  compile_matcher (Ir.prefix path) = success (CompiledMatcher.prefix path)
  compile_matcher (Ir.exact path) = success (CompiledMatcher.exact path)
  compile_matcher (Ir.regex case_insensitive pattern) = do
    test ← ok_or (bad_regex pattern) (crates.new_regex pattern case_insensitive)
    success (
        CompiledMatcher.regex
          (record { case_insensitive = case_insensitive; pattern = pattern; regex = test }))
  compile_matcher (Ir.prefer_prefix path) = success (CompiledMatcher.prefer_prefix path)
  compile_matcher (Ir.named name) = success (CompiledMatcher.named name)

  -- The loop over the URL rewrites.
  unfoldable pub compile_rewrite :
      RouteTarget
      → CompiledMatcher
      → List LocationDirective
      → Option UrlRewrite
      → Compiled (Option UrlRewrite)
  compile_rewrite target matcher [] url_rewrite = success url_rewrite
  compile_rewrite target matcher (Ir.url_rewrite rewrite ∷ rest) url_rewrite = do
    slot ← set_once (codes "URL rewrite") rewrite url_rewrite
    ensure (takes_rewrite target) rewrite_without_upstream
    check_host rewrite.hostname
    map_err route (
        validate_modifier crates.is_path_and_query crates.is_method crates.is_header_value
          crates.header_name rewrite.path matcher)
    compile_rewrite target matcher rest slot
  compile_rewrite target matcher (_ ∷ rest) url_rewrite =
      compile_rewrite target matcher rest url_rewrite

  -- The `match` on the target.
  unfoldable pub check_target : RouteTarget → CompiledMatcher → Compiled (Unit {0})
  check_target (http_redirect config) matcher = do
    ensure (is_redirect_status config.status) bad_redirect_status
    ensure (is_redirect_scheme config.scheme) bad_redirect_scheme
    ensure (is_positive_port config.port) bad_redirect_port
    check_host config.hostname
    map_err route (
        validate_modifier crates.is_path_and_query crates.is_method crates.is_header_value
          crates.header_name config.path matcher)
  check_target (return_ status location) matcher = do
    ensure (leb 300 status && ltb status 400) bad_return_status
    map_err return_template
          (expand_return (codes "example.com") (codes "/") (codes "http") location)
        >>= λ _. ensure (crates.is_header_value location) bad_return_location
  check_target _ matcher = success tt

  -- What follows the choice of the target: the location with the identifier.
  unfoldable pub finish_location : Location → RouteTarget → ℕ → Compiled CompiledLocation
  finish_location location target route_id = do
    upstream_protocol ← compile_upstream_protocol location.directives target
    ensure (not (is_scp target && is_some location.cache)) scp_with_cache
    matcher ← compile_matcher location.matcher
    url_rewrite ← compile_rewrite target matcher location.directives none
    check_target target matcher
    client_limits ← compile_client_limits crates location.directives
    upstream_timeouts ← compile_upstream_timeouts location.directives
    upstream_http2 ← compile_upstream_http2 location.directives
    upstream_ssl_options ← compile_upstream_ssl_options location.directives
    success (record {
      client_limits = client_limits;
      url_rewrite = url_rewrite;
      route_id = route_id;
      matcher = matcher;
      access_rules = location.access_rules;
      target = target;
      upstream_timeouts = upstream_timeouts;
      upstream_protocol = upstream_protocol;
      upstream_http2 = upstream_http2;
      upstream_ssl_options = upstream_ssl_options;
      plugins = location.plugins;
      cache = location.cache;
    })

  -- The location, if it has a target, and `next_route_id` behind it, a `u64`.
  unfoldable pub compile_location : Location → Groups → ℕ → Compiled (Option CompiledLocation × ℕ)
  compile_location location upstreams next_route_id = do
    action_count ← count_actions 0 location.directives
    ensure (action_count == 1) not_one_action
    target ← route_target crates location.directives upstreams
    elim target [
      | none ↦ success (none, next_route_id)
      | some t ↦ do
        compiled ← finish_location location t next_route_id
        success (some compiled, (next_route_id + 1) % 2 ^ 64)
    ]

  unfoldable pub compile_each : List Location → Groups → ℕ → Compiled (List CompiledLocation × ℕ)
  compile_each [] upstreams next_route_id = success ([], next_route_id)
  compile_each (location ∷ rest) upstreams next_route_id = do
    (compiled, next) ← compile_location location upstreams next_route_id
    (locations, last) ← compile_each rest upstreams next
    success (cons_some compiled locations, last)

  unfoldable pub compile_locations :
      List Location → Groups → ℕ → Compiled (List CompiledLocation × ℕ)
  compile_locations locations upstreams next_route_id = do
    ensure (http_count locations == 0 || http_count locations == length locations) mixed_matchers
    compile_each locations upstreams next_route_id
