-- ===== src/Upstreams/Compile/Agreement.antt =====
-- compile.rs: a router has for each listener what every server asked for there.
use ngxora.Base.{ℕ, ◌≡◌, subst, List, [], ◌∷◌, All, All-mono, All-Holds, Holds}
use ngxora.Outcome.{success, >>=-success, success_inj}
use ngxora.Compile.Ir.{Listen, Server, Http}
use ngxora.Compile.Ir.Options.{GeoIpConfig}
use ngxora.Routing.Router.{CompiledRouter}
use ngxora.Upstreams.Crates.{Crates}
use ngxora.Upstreams.Compile.Servers.{Listeners}
use ngxora.Upstreams.Compile.Router.{Context, add_server, add_servers, from_http, no_listeners}
use ngxora.Upstreams.Compile.Parts.{add_server-IsAdded, from_http-IsCompiled, context}
use ngxora.Upstreams.Compile.Listening.{
  Agrees, Agrees-Grows, Grows, Grows-refl, Grows-trans, add_listens_lem,
}

abbrev AgreesAll : Listeners → Server → Type 0
AgreesAll r server = All (Agrees r.protocols r.tls server) server.listens

module _ (crates : Crates) where
  add_servers_lem :
      (c : Context) (servers : List Server) (r : Listeners) (n : ℕ) {end : Listeners × ℕ}
      → add_servers crates c servers (r, n) ≡ success end
      → Grows r end.0 × All (AgreesAll end.0) servers
  unfolding add_servers
  add_servers_lem c [] r n {end} h =
      (subst (λ (p : Listeners × ℕ). Grows r p.0) (success_inj (r, n) end h) (Grows-refl r), tt)
  add_servers_lem c (server ∷ rest) r n {end} h =
      let (mid, f, h1) = >>=-success (add_server crates c server (r, n)) _ h in
      let added = add_server-IsAdded crates c server r n f in
      let (grows, agrees) =
        add_listens_lem crates c.http.ssl_provider server (record { locations = added.locations })
          server.listens r added.listened in
      let (grows', others) = add_servers_lem c rest mid.0 mid.1 h1 in
      (
        Grows-trans r mid.0 end.0 grows grows',
        (
          All-mono (Agrees mid.0.protocols mid.0.tls server)
              (Agrees end.0.protocols end.0.tls server) (Agrees-Grows mid.0 end.0 server grows')
              server.listens agrees,
          others,
        ),
      )

  -- A router that is compiled has for the listener of each `listen` of each server the protocols that
  -- this `listen` asks for and, where it uses TLS, the TLS settings that its server asks for.
  pub from_http-Agrees :
      (http : Http) (router : CompiledRouter GeoIpConfig) (server : Server) (listen : Listen)
      → from_http crates http ≡ success router
      → Holds server http.servers
      → Holds listen server.listens
      → Agrees router.listener_protocols router.listener_tls server listen
  from_http-Agrees http router server listen h p q =
      let is = from_http-IsCompiled crates http h in
      let (_, all) =
        add_servers_lem (context http router.upstreams router.scp_profiles) http.servers
          no_listeners 1 is.added in
      let a =
        All-Holds (Agrees is.last.0.protocols is.last.0.tls server) server.listens
          (All-Holds (AgreesAll is.last.0) http.servers all p) q in
      rw (is.protocols, is.tls) a
