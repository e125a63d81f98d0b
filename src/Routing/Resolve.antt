-- ===== src/Routing/Resolve.antt =====
-- crates/ngxora-runtime/src/upstreams/routing.rs: the route of a request. A `Session` is what routing
-- reads of it; the text of a header value and the host of an authority are parameters.
pub mod Choice
pub mod Best
pub mod Authority
use ngxora.Base.{
  ℕ, ◌≡◌, ◌↔◌, refl, sym, Bool, true, false, not, ◌&&◌, ◌||◌, List, [], ◌∷◌, ◌++◌, Option, none,
  some, Text, ◌==◌, ==_iff, if◌then◌else◌, length, any, text_eq, strip_prefix, contains_char,
  reverse, Eq, lookup, arith,
}
use ngxora.Net.{IpAddr, v4, v6, ip_eq, ip_eq_iff}
use ngxora.Outcome.{Outcome, success, failure, ◌>>=◌, ◌>>◌, ok_or, ensure}
use ngxora.Routing.Types.{
  HttpMatch, CompiledMatcher, http, CompiledLocation, ServerRoutes, VirtualHostRoutes, ListenKey,
}
use ngxora.Routing.Hostname.{Score, score_lt, scored, select_server_routes}
use ngxora.Routing.Location.{select_route_target}
use ngxora.Routing.Http.{
  RequestHeader, MatchScore, match_score_lt, match_score, matches, normalize_hostname,
}

-- The errors of pingora that a request is answered with.
pub data RequestErr : Type 0 where
  http_status : ℕ → RequestErr
  missing_server_addr not_inet : RequestErr

abbrev pub PingoraResult : Type 0 → Type 0
PingoraResult T = Outcome RequestErr T

pub data SocketAddr : Type 0 where
  inet : IpAddr → ℕ → SocketAddr
  unix : SocketAddr

-- `ssl` is the TLS digest, with the server name that the client asked for.
pub record Session : Type 0 where
  pub server_addr : Option SocketAddr
  pub ssl : Option (Option Text)
  pub host_header : Option Text
  pub req_header : RequestHeader

abbrev pub bool_eq : Bool → Bool → Bool
bool_eq true b = b
bool_eq false b = not b

abbrev pub listen_key_eq : ListenKey → ListenKey → Bool
listen_key_eq a b = ip_eq a.addr b.addr && (a.port == b.port && bool_eq a.ssl b.ssl)

bool_eq_iff : (a b : Bool) → (bool_eq a b ≡ true) ↔ (a ≡ b)
bool_eq_iff true true = (λ h. refl, λ h. refl)
bool_eq_iff true false = (λ h. (cc), λ h. (cc))
bool_eq_iff false true = (λ h. (cc), λ h. (cc))
bool_eq_iff false false = (λ h. refl, λ h. refl)

pub listen_key_eq_iff : (a b : ListenKey) → (listen_key_eq a b ≡ true) ↔ (a ≡ b)
listen_key_eq_iff a b = (
  λ h.
      let p = (ip_eq_iff a.addr b.addr).0 (ground arith) in
      let q = (==_iff a.port b.port).0 (ground arith) in
      let r = (bool_eq_iff a.ssl b.ssl).0 (ground arith) in
      λ i. record { addr = p i; port = q i; ssl = r i },
  λ e. rw e (
      rw
        (
          (ip_eq_iff b.addr b.addr).1 refl,
          (==_iff b.port b.port).1 refl,
          (bool_eq_iff b.ssl b.ssl).1 refl,
        )
        refl),
)

instance abbrev pub listen_key_has_eq : Eq ListenKey
listen_key_has_eq = record { same = listen_key_eq; same_iff = listen_key_eq_iff }

abbrev pub unspecified : IpAddr → IpAddr
unspecified (v4 a) = v4 0
unspecified (v6 a) = v6 0

abbrev pub wildcard_listen_key : ListenKey → ListenKey
wildcard_listen_key key = record key { addr = unspecified key.addr }

unfoldable pub listener_routes :
    List (ListenKey × VirtualHostRoutes) → ListenKey → Option VirtualHostRoutes
listener_routes listeners key = elim (lookup key listeners) [
  | some vhosts ↦ some vhosts
  | none ↦
      if listen_key_eq (wildcard_listen_key key) key
      then none
      else lookup (wildcard_listen_key key) listeners
]

unfoldable pub validate_sni_host_consistency : Option Text → Option Text → PingoraResult (Unit {0})
validate_sni_host_consistency (some host) (some sni) = ensure (text_eq host sni) (http_status 421)
validate_sni_host_consistency _ _ = success tt

abbrev pub is_tls : Option (Option Text) → Bool
is_tls none = false
is_tls (some sni) = true

-- `downstream_sni`
abbrev pub downstream_sni : Option (Option Text) → Option Text
downstream_sni none = none
downstream_sni (some sni) = sni

unfoldable pub session_listen_key : Session → PingoraResult ListenKey
session_listen_key session = elim session.server_addr [
  | none ↦ failure missing_server_addr
  | some unix ↦ failure not_inet
  | some (inet ip port) ↦ success (record { addr = ip; port = port; ssl = is_tls session.ssl })
]

-- `host.clone().or(sni)`
abbrev pub or_sni : Option Text → Option Text → Option Text
or_sni none sni = sni
or_sni (some host) sni = some host

-- The stable `sort_by_key` by the reversed score.
unfoldable pub insert_by_score :
    Score × ServerRoutes → List (Score × ServerRoutes) → List (Score × ServerRoutes)
insert_by_score c [] = c ∷ []
insert_by_score c (d ∷ ds) =
    let rest = insert_by_score c ds in if score_lt c.0 d.0 then d ∷ rest else c ∷ (d ∷ ds)

unfoldable pub sort_by_score : List (Score × ServerRoutes) → List (Score × ServerRoutes)
sort_by_score [] = []
sort_by_score (c ∷ cs) = insert_by_score c (sort_by_score cs)

abbrev pub default_candidate : Option ServerRoutes → List (Score × ServerRoutes)
default_candidate none = []
default_candidate (some routes) = ((false, 0), routes) ∷ []

abbrev pub named_candidates : VirtualHostRoutes → Option Text → List (Score × ServerRoutes)
named_candidates vhosts none = []
named_candidates vhosts (some host) = scored host vhosts.named

unfoldable pub candidates : VirtualHostRoutes → Option Text → List (Score × ServerRoutes)
candidates vhosts routing_host =
    named_candidates vhosts routing_host ++ default_candidate vhosts.default

abbrev pub is_http : CompiledMatcher → Bool
is_http (http m) = true
is_http _ = false

unfoldable pub has_http : List CompiledLocation → Bool
has_http locations = any (λ (l : CompiledLocation). is_http l.matcher) locations

-- The score of a location whose HTTP match takes the request.
unfoldable pub http_score : RequestHeader → CompiledMatcher → Option MatchScore
http_score request (http m) = if matches m request then some (match_score m) else none
http_score request _ = none

abbrev pub improves : MatchScore → Option (MatchScore × CompiledLocation) → Bool
improves score none = true
improves score (some (previous, _)) = match_score_lt previous score

-- The loop over the locations of a candidate.
unfoldable pub best_location :
    RequestHeader
    → List CompiledLocation
    → Option (MatchScore × CompiledLocation)
    → Option (MatchScore × CompiledLocation)
best_location request [] best = best
best_location request (location ∷ rest) best = elim (http_score request location.matcher) [
  | none ↦ best_location request rest best
  | some score ↦
      best_location request rest (if improves score best then some (score, location) else best)
]

-- The loop over the candidates.
unfoldable pub http_route : RequestHeader → List (Score × ServerRoutes) → Option CompiledLocation
http_route request [] = none
http_route request ((_, routes) ∷ rest) = elim (has_http routes.locations) [
  | false ↦ none
  | true ↦ elim (best_location request routes.locations none) [
    | some (_, location) ↦ some location
    | none ↦ http_route request rest
  ]
]

-- The locations of nginx's order, behind the HTTP routes.
unfoldable pub nginx_route : VirtualHostRoutes → Option Text → Text → Option CompiledLocation
nginx_route vhosts routing_host path = elim (select_server_routes vhosts routing_host) [
  | none ↦ none
  | some routes ↦ select_route_target routes.locations path
]

unfoldable pub choose_location :
    RequestHeader → VirtualHostRoutes → Option Text → Option CompiledLocation
choose_location request vhosts routing_host =
    elim (http_route request (sort_by_score (candidates vhosts routing_host))) [
      | some location ↦ some location
      | none ↦ nginx_route vhosts routing_host request.path
    ]

pub record ResolvedLocation : Type 0 where
  pub location : CompiledLocation
  pub host : Option Text

abbrev pub resolved : Option Text → Option CompiledLocation → Option ResolvedLocation
resolved host none = none
resolved host (some location) = some (record { location = location; host = host })

-- `HeaderValue::to_str`, and the host of what `parse::<Authority>` takes.
module _ (to_str authority_host : Text → Option Text) where
  -- `strip_prefix('[')` and `strip_suffix(']')`, or the host as it is.
  abbrev pub unbracketed : Text → Text
  unbracketed host = elim (strip_prefix (b'[' ∷ []) host) [
    | none ↦ host
    | some inner ↦ elim (strip_prefix (b']' ∷ []) (reverse inner)) [
      | none ↦ host
      | some back ↦ reverse back
    ]
  ]

  unfoldable pub normalize_request_host : Text → PingoraResult Text
  normalize_request_host value = do
    ensure (not (contains_char b'@' value || contains_char b',' value)) (http_status 400)
    host ← ok_or (http_status 400) (authority_host value)
    ensure (not (length (unbracketed host) == 0)) (http_status 400)
    success (normalize_hostname (unbracketed host))

  unfoldable pub request_host : Option Text → PingoraResult (Option Text)
  request_host none = success none
  request_host (some header) = do
    host ← ok_or (http_status 400) (to_str header)
    normalized ← normalize_request_host host
    success (some normalized)

  -- What follows the choice of the listener.
  unfoldable pub resolve_on : VirtualHostRoutes → Session → PingoraResult (Option ResolvedLocation)
  resolve_on vhosts session = do
    host ← request_host session.host_header
    validate_sni_host_consistency host (downstream_sni session.ssl)
    success (
        resolved host
          (choose_location session.req_header vhosts (or_sni host (downstream_sni session.ssl))))

  unfoldable pub resolve_route :
      List (ListenKey × VirtualHostRoutes) → Session → PingoraResult (Option ResolvedLocation)
  resolve_route listeners session = do
    listen_key ← session_listen_key session
    elim (listener_routes listeners listen_key) [
      | none ↦ success none
      | some vhosts ↦ resolve_on vhosts session
    ]
