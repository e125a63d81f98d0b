-- ===== src/Upstreams/Compile/Parts.antt =====
-- compile.rs: what a compilation that succeeds has passed.
use ngxora.Base.{ℕ, ◌≡◌, refl, subst, not, ◌&&◌, List, [], Text, ◌==◌, length}
use ngxora.Outcome.{success, >>=-success, >>-both, success_inj, ensure}
use ngxora.Compile.Ir.{Server, Http, ScpProfile}
use ngxora.Compile.Ir.Options.{GeoIpConfig}
use ngxora.Routing.Types.{CompiledLocation}
use ngxora.Routing.Router.{CompiledRouter}
use ngxora.Upstreams.Crates.{Crates}
use ngxora.Upstreams.Compile.Targets.{Groups}
use ngxora.Upstreams.Compile.Groups.{compile_upstreams}
use ngxora.Upstreams.Compile.Locations.{compile_locations}
use ngxora.Upstreams.Compile.Servers.{
  check_names, is_lets_encrypt, check_profiles, add_listens, Listeners,
}
use ngxora.Upstreams.Compile.Router.{
  Context, is_on, http_options, check_options, check_body_timeouts, add_profiles, add_server,
  add_servers, no_listeners, from_http,
}
use ngxora.Upstreams.Compile.Errors.{lets_encrypt_names}

abbrev pub context : Http → Groups → List (Text × ScpProfile) → Context
context http upstreams profiles = record { http = http; upstreams = upstreams; profiles = profiles }

module _ (crates : Crates) where
  -- The steps of `add_server`.
  pub record IsAdded (c : Context) (server : Server) (r : Listeners) (n : ℕ) (r' : Listeners)
      (n' : ℕ) : Type 0 where
    pub locations : List CompiledLocation
    pub compiled : compile_locations crates server.locations c.upstreams n ≡ success (locations, n')
    pub checked : check_profiles c.profiles (is_on c.http.h2c) server.listens locations ≡ success tt
    pub listened :
        add_listens crates c.http.ssl_provider server
          (record { locations = locations })
          server.listens
          r
        ≡ success r'

  pub add_server-IsAdded :
      (c : Context) (server : Server) (r : Listeners) (n : ℕ) {end : Listeners × ℕ}
      → add_server crates c server (r, n) ≡ success end
      → IsAdded c server r n end.0 end.1
  unfolding add_server
  add_server-IsAdded c server r n {end} h =
      let (_, h1) =
        >>-both
          (ensure (not (is_lets_encrypt server.tls && not (length server.server_names == 1)))
            lets_encrypt_names)
          _ h in
      let (_, h2) = >>-both (check_names server.server_names) _ h1 in
      let (routes, f, h3) =
        >>=-success (compile_locations crates server.locations c.upstreams n) _ h2 in
      let (g, h4) =
        >>-both (check_profiles c.profiles (is_on c.http.h2c) server.listens routes.0) _ h3 in
      let (r', i, h5) =
        >>=-success
          (add_listens crates c.http.ssl_provider server (record { locations = routes.0 })
            server.listens r)
          _ h4 in
      subst (λ (p : Listeners × ℕ). IsAdded c server r n p.0 p.1)
        (success_inj (r', routes.1) end h5)
        (record { locations = routes.0; compiled = f; checked = g; listened = i })

  -- The steps of `from_http`.
  pub record IsCompiled (http : Http) (router : CompiledRouter GeoIpConfig) : Type 0 where
    pub last : Listeners × ℕ
    pub grouped : compile_upstreams crates http.upstreams ≡ success router.upstreams
    pub profiled :
        add_profiles crates router.upstreams http.scp_profiles [] ≡ success router.scp_profiles
    pub added :
        add_servers crates
          (context http router.upstreams router.scp_profiles)
          http.servers
          (no_listeners, 1)
        ≡ success last
    pub listeners : router.listeners ≡ last.0.listeners
    pub protocols : router.listener_protocols ≡ last.0.protocols
    pub tls : router.listener_tls ≡ last.0.tls
    pub options : router.http_options ≡ http_options http

  pub from_http-IsCompiled :
      (http : Http) {router : CompiledRouter GeoIpConfig}
      → from_http crates http ≡ success router
      → IsCompiled http router
  unfolding from_http
  from_http-IsCompiled http {router} h =
      let (_, h1) = >>-both (check_options http) _ h in
      let (upstreams, f, h2) = >>=-success (compile_upstreams crates http.upstreams) _ h1 in
      let (profiles, g, h3) =
        >>=-success (add_profiles crates upstreams http.scp_profiles []) _ h2 in
      let (last, i, h4) =
        >>=-success
          (add_servers crates (context http upstreams profiles) http.servers (no_listeners, 1)) _
          h3 in
      let (_, h5) = >>-both (check_body_timeouts http http.servers) _ h4 in
      let (_, h6) = >>-both _ _ h5 in
      subst (IsCompiled http) (success_inj _ router h6) (record {
        last = last;
        grouped = f;
        profiled = g;
        added = i;
        listeners = refl;
        protocols = refl;
        tls = refl;
        options = refl;
      })
