-- ===== src/Tests/Compiling.antt =====
-- Runs of the validation of configurations, of HTTP routes and of the control plane.
use ngxora.Base.{
  ℕ, codes, ◌≡◌, ◌≢◌, ◌⊎◌, ◌↔◌, refl, subst, arith, true, false, List, [], ◌∷◌, ◌++◌, none, some,
  Text, text_eq, starts_with, strip_prefix, trim_end_matches, lookup, text_has_eq, nat_has_eq,
}
use ngxora.Net.{v4}
use ngxora.Outcome.{success, failure, ◌>>=◌}
use ngxora.Compile.Ir.{Ir, Http, default_http, Server}
use ngxora.Compile.Ir.Options.{off}
use ngxora.Compile.Ir.Upstream.{UpstreamBlock, round_robin}
use ngxora.Compile.Ir.Locations.{prefix, return_}
use ngxora.Compile.Validate.{validate}
use ngxora.Compile.Validate.Upstreams.{IsSizedHttp, IsValidHttp, validate_iff}
use ngxora.Tests.Fixtures.{route_to}
use ngxora.Routing.Types.{
  HttpMatch, path_prefix, http, CompiledLocation, direct_response, replace_prefix_match,
  VirtualHostRoutes, ListenKey,
}
use ngxora.Routing.Http.{
  slash, prefix_matches, compile_match, path_matches, RequestHeader, validate_path, compile_headers,
  compile_path, retain_first, matches, match_score,
}
use ngxora.Routing.Http.Compiled.{first_value, compile_match_lem}
use ngxora.Routing.Rewrite.{or_slash, rewrite_path}
use ngxora.Routing.Rewrite.Prefix.{rewrite_path-prefix_matches, rewrite_path-rewrite_path}
use ngxora.Routing.Return.{expand_return, out_of_fuel}
use ngxora.Routing.Return.Expansion.{
  Piece, literal, reference, host_variable, render, expand_return-render,
}
use ngxora.Routing.Return.Loop.{expand_return-ne-out_of_fuel}
use ngxora.Routing.Resolve.{
  Session, inet, resolve_route, ResolvedLocation, http_route, sort_by_score, insert_by_score,
  has_http, best_location, http_score, resolve_on, session_listen_key, listener_routes,
  request_host, normalize_request_host, validate_sni_host_consistency, choose_location, candidates,
}
use ngxora.Routing.Hostname.{scored, hostname_score}
use ngxora.Routing.Resolve.Authority.{HostAgrees, resolve_route-sni}
use ngxora.Routing.Resolve.Choice.{Candidate, IsChosen, http_route-IsChosen}

abbrev group : UpstreamBlock
group = record {
  allow_empty = false;
  name = codes "u";
  policy = round_robin;
  hash_key = none;
  servers = record { host = codes "h"; port = 80; weight = 2 } ∷ [];
  nrf_discovery = none;
  health_check = none;
}

abbrev site : Server
site = record {
  server_names = [];
  locations =
      record {
        matcher = prefix (codes "/");
        access_rules = [];
        directives = return_ 204 [] ∷ [];
        plugins = [];
        cache = none;
      }
      ∷ [];
  listens = [];
  tls = none;
  tls_options = record { protocols = none; verify_client = off; client_certificate = none };
}

abbrev web : Http
web = record default_http { upstreams = group ∷ []; servers = site ∷ [] }

abbrev ir : Ir
ir = record { http = some web }

the_web : (h : Http) → some web ≡ some h → web ≡ h
the_web h e = cc

validate_iff_example :
    (validate (λ name. true) ir ≡ success tt)
    ↔ ((h : Http) × (ir.http ≡ some h) × IsValidHttp (λ name. true) h)
validate_iff_example =
    validate_iff (λ name. true) ir
      (λ h e.
        subst (IsSizedHttp (λ name. true)) (the_web h e)
          ((omega arith, tt), ((omega arith, tt), tt)))

abbrev api : HttpMatch
api = record {
  path = path_prefix (codes "/api/");
  method = none;
  headers = (codes "x", codes "1") ∷ ((codes "x", codes "2") ∷ []);
  query_params = (codes "a", codes "1") ∷ ((codes "a", codes "2") ∷ []);
}

abbrev api' : HttpMatch
api' = record {
  path = path_prefix (codes "/api");
  method = none;
  headers = (codes "x", codes "1") ∷ [];
  query_params = (codes "a", codes "1") ∷ [];
}

api_compiles : compile_match (λ t. true) (λ t. true) (λ t. true) (λ t. some t) api ≡ success api'
unfolding compile_match validate_path starts_with compile_headers compile_path retain_first
    trim_end_matches text_eq
api_compiles = refl

compile_match_lem_example :
    lookup (codes "x") api'.headers ≡ first_value (λ t. some t) (codes "x") api.headers
compile_match_lem_example =
    (compile_match_lem (λ t. true) (λ t. true) (λ t. true) (λ t. some t) api api'
        api_compiles).1.1.0
      (codes "x")

under : prefix_matches (codes "/api/") (codes "/api/v1") ≡ true
unfolding prefix_matches text_eq trim_end_matches strip_prefix starts_with
under = refl

rewrite_path-prefix_matches_example :
    ((codes "/api/v1" ≡ trim_end_matches slash (codes "/api/"))
      × (rewrite_path
            (codes "/api/v1")
            (some (replace_prefix_match (codes "/")))
            (some (codes "/api/"))
          ≡ success (or_slash (codes "/"))))
    ⊎ ((tail : Text) × (codes "/api/v1" ≡ trim_end_matches slash (codes "/api/") ++ (slash ∷ tail))
        × (rewrite_path
              (codes "/api/v1")
              (some (replace_prefix_match (codes "/")))
              (some (codes "/api/"))
            ≡ success (trim_end_matches slash (codes "/") ++ (slash ∷ tail))))
rewrite_path-prefix_matches_example =
    rewrite_path-prefix_matches (codes "/api/") (codes "/api/v1") (codes "/") under

rewrite_path-rewrite_path_example :
    (rewrite_path
        (codes "/api/v1")
        (some (replace_prefix_match (codes "/b")))
        (some (codes "/api/"))
      >>= λ path.
          rewrite_path path (some (replace_prefix_match (codes "/api/"))) (some (codes "/b")))
    ≡ success (codes "/api/v1")
unfolding trim_end_matches
rewrite_path-rewrite_path_example =
    rewrite_path-rewrite_path (codes "/api/") (codes "/b") (codes "/api/v1") (codes "v1") refl

abbrev pieces : List Piece
pieces = literal (codes "$") ∷ (reference host_variable ∷ (literal (codes "/x") ∷ []))

expand_return-render_example :
    expand_return (codes "h") (codes "/u") (codes "http") (render pieces) ≡ success (codes "$h/x")
expand_return-render_example =
    expand_return-render (codes "h") (codes "/u") (codes "http") pieces (refl, tt)

expand_return-ne-out_of_fuel_example :
    expand_return (codes "h") (codes "/u") (codes "http") (codes "$host$") ≢ failure out_of_fuel
expand_return-ne-out_of_fuel_example =
    expand_return-ne-out_of_fuel (codes "h") (codes "/u") (codes "http") (codes "$host$")

abbrev route : ℕ → HttpMatch → CompiledLocation
route id m = route_to (direct_response 200) id (http m)

abbrev any_path : HttpMatch
any_path = record { path = path_prefix (codes "/"); method = none; headers = []; query_params = [] }

abbrev get_users : RequestHeader
get_users = record {
  path = codes "/api/users";
  query = none;
  method = codes "GET";
  header = λ name. none;
  query_pairs = [];
}

abbrev candidate : Text → List CompiledLocation → Candidate
candidate name locations = ((true, 1), record { locations = locations })

abbrev hosts : List Candidate
hosts =
    ((false, 4), record { locations = route 1 any_path ∷ [] })
    ∷ ((
      (true, 5),
      record {
        locations =
            route 2 any_path
            ∷ (route 3 (record any_path { path = path_prefix (codes "/api") }) ∷ []);
      },
    )
        ∷ [])

abbrev chosen_route : CompiledLocation
chosen_route = route 3 (record any_path { path = path_prefix (codes "/api") })

chooses : http_route get_users (sort_by_score hosts) ≡ some chosen_route
unfolding http_route sort_by_score insert_by_score has_http best_location http_score matches
    path_matches prefix_matches text_eq trim_end_matches strip_prefix starts_with match_score
chooses = refl

http_route-IsChosen_example : IsChosen get_users hosts chosen_route
http_route-IsChosen_example = http_route-IsChosen get_users hosts chosen_route chooses

abbrev listeners : List (ListenKey × VirtualHostRoutes)
listeners =
    (
      record { addr = v4 0; port = 443; ssl = true },
      record {
        named = (codes "a.b", record { locations = route 4 any_path ∷ [] }) ∷ [];
        default = none;
      },
    )
    ∷ []

abbrev session : Session
session = record {
  server_addr = some (inet (v4 7) 443);
  ssl = some (some (codes "a.b"));
  host_header = some (codes "a.b");
  req_header = get_users;
}

abbrev answered : ResolvedLocation
answered = record { location = route 4 any_path; host = some (codes "a.b") }

resolves : resolve_route (λ t. some t) (λ t. some t) listeners session ≡ success (some answered)
unfolding resolve_route resolve_on session_listen_key listener_routes lookup request_host
    normalize_request_host validate_sni_host_consistency choose_location candidates scored
    hostname_score http_route sort_by_score insert_by_score has_http best_location http_score
    matches path_matches prefix_matches text_eq trim_end_matches strip_prefix starts_with
    match_score
resolves = refl

resolve_route-sni_example :
    HostAgrees (λ t. some t) (λ t. some t) session.host_header (codes "a.b") answered.host
resolve_route-sni_example =
    resolve_route-sni (λ t. some t) (λ t. some t) listeners session (codes "a.b") answered refl
      resolves
