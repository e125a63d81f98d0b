-- ===== src/Serving/Returns.antt =====
-- The answers of a compiled router that go to no upstream.
use ngxora.Base.{
  ℕ, ◌+◌, ◌≤◌, ◌<◌, ◌^◌, ◌≡◌, subst, [], Option, Text, codes, All-Holds, Holds, if◌then◌else◌,
}
use ngxora.Outcome.{success}
use ngxora.Compile.Ir.{Http}
use ngxora.Compile.Ir.Options.{GeoIpConfig}
use ngxora.Control.Chains.{all_locations}
use ngxora.Routing.Resolve.{Session, is_tls}
use ngxora.Routing.Return.{expand_return}
use ngxora.Routing.Return.Anywhere.{expand_return-anywhere}
use ngxora.Routing.Rewrite.{Uri}
use ngxora.Routing.Router.{CompiledRouter}
use ngxora.Routing.Types.{CompiledLocation, return_}
use ngxora.Selection.Route.{Target, matched_prefix, target_of, or_default}
use ngxora.Selection.Target.{answer}
use ngxora.Upstreams.Crates.{Crates}
use ngxora.Upstreams.Compile.Router.{from_http}
use ngxora.Upstreams.Compile.Reachable.{location_count}
use ngxora.Upstreams.Compile.Resolving.{IsChecked}
use ngxora.Upstreams.Compile.Routes.{from_http-IsRouted, reachable-listed}

-- In a router that is compiled from fewer than 2 ^ 64 - 1 locations, a reachable location that returns
-- a status and a template answers every request with this status, which is from 300 to 399, and the
-- template expanded for this request: the expansion never fails.
pub target_of-from_http :
    (crates : Crates) (http : Http) (router : CompiledRouter GeoIpConfig) (l : CompiledLocation)
    (status : ℕ) (location : Text) (parse_uri : Text → Option Uri) (session : Session) (t : Target)
    (host : Option Text)
    → from_http crates http ≡ success router
    → 1 + location_count http.servers < 2 ^ 64
    → Holds l (all_locations router.listeners)
    → l.target ≡ return_ status location
    → (300 ≤ status)
      × (status < 400)
      × (text : Text) × (expand_return
            (or_default [] host)
            (or_default (codes "/") t.path_and_query)
            (if is_tls session.ssl then codes "https" else codes "http")
            location
          ≡ success text)
      × (target_of parse_uri session t (matched_prefix l.matcher) l.target host
          ≡ success (answer status text))
unfolding target_of
target_of-from_http crates http router l status location parse_uri session t host compiled small p
      e =
    let (book, routed) = from_http-IsRouted crates http router compiled small in
    let (_, checked) =
      All-Holds _ book routed.resolved (reachable-listed crates router book routed l p) in
    let (low, high, _, expands) = subst IsChecked e checked in
    let (text, f) =
      expand_return-anywhere (codes "example.com") (codes "/") (codes "http") (or_default [] host)
        (or_default (codes "/") t.path_and_query)
        (if is_tls session.ssl then codes "https" else codes "http") location expands in
    (low, high, text, f, rw e (rw (f, target_of)))
