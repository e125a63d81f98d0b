-- ===== src/Upstreams/Compile/Listening.antt =====
-- compile.rs: the servers of a router agree on the protocols and the TLS of their listeners.
use ngxora.Base.{◌≡◌, subst, true, List, [], ◌∷◌, Option, some, KeepsAll, lookup, insert, All}
use ngxora.Outcome.{success, >>=-success, success_inj}
use ngxora.Compile.Ir.{Listen, Server}
use ngxora.Compile.Ir.Options.{LetsEncryptConfig}
use ngxora.Routing.Resolve.{listen_key_has_eq}
use ngxora.Routing.Types.{ServerRoutes}
use ngxora.Upstreams.Crates.{Crates}
use ngxora.Upstreams.Compile.Servers.{
  key_of, settings_of, protocol_of, protocol_has_eq, tls_settings_has_eq, merge_listener_protocols,
  add_tls, add_listens, add_routes, or_new_listener, Listeners,
}
use ngxora.Upstreams.Compile.Merging.{
  Protocols, Tls, HasSettings, KeepsSettings, merge_listener_protocols_lem, add_tls_lem,
}

-- The protocols and the TLS of a listener are those that the server asks for.
pub record Agrees (protocols : Protocols) (tls : Tls) (server : Server) (listen : Listen)
    : Type 0 where
  pub protocol : lookup (key_of listen) protocols ≡ some (protocol_of listen)
  pub settings :
      listen.ssl ≡ true → HasSettings tls (key_of listen) (settings_of server.tls_options)

pub record Grows (r r' : Listeners) : Type 0 where
  pub protocols : KeepsAll r.protocols r'.protocols
  pub tls : KeepsSettings r.tls r'.tls

pub Grows-refl : (r : Listeners) → Grows r r
Grows-refl r = record { protocols = λ k v h. h; tls = λ k s h. h }

pub Grows-trans : (r s t : Listeners) → Grows r s → Grows s t → Grows r t
Grows-trans r s t g h = record {
  protocols = λ k v e. h.protocols k v (g.protocols k v e);
  tls = λ k v e. h.tls k v (g.tls k v e);
}

pub Agrees-Grows :
    (r r' : Listeners) (server : Server)
    → Grows r r'
    → (listen : Listen) → Agrees r.protocols r.tls server listen
    → Agrees r'.protocols r'.tls server listen
Agrees-Grows r r' server g listen a = record {
  protocol = g.protocols (key_of listen) (protocol_of listen) a.protocol;
  settings = λ t. g.tls (key_of listen) (settings_of server.tls_options) (a.settings t);
}

module _ (crates : Crates) where
  -- One turn of the loop over the listens.
  abbrev pub listened : Server → Listen → ServerRoutes → Protocols → Tls → Listeners → Listeners
  listened server listen routes protocols tls r = record {
    listeners =
        insert (key_of listen)
          (add_routes server listen routes (or_new_listener (lookup (key_of listen) r.listeners)))
          r.listeners;
    protocols = protocols;
    tls = tls;
  }

  pub add_listens_lem :
      (le : Option LetsEncryptConfig) (server : Server) (routes : ServerRoutes)
      (listens : List Listen) (r : Listeners) {r' : Listeners}
      → add_listens crates le server routes listens r ≡ success r'
      → Grows r r' × All (Agrees r'.protocols r'.tls server) listens
  unfolding add_listens
  add_listens_lem le server routes [] r {r'} h =
      (subst (Grows r) (success_inj r r' h) (Grows-refl r), tt)
  add_listens_lem le server routes (listen ∷ listens) r {r'} h =
      let key = key_of listen in
      let (protocols, f, h1) =
        >>=-success (merge_listener_protocols key (protocol_of listen) r.protocols) _ h in
      let (tls, g, h2) = >>=-success (add_tls crates le server listen r.tls) _ h1 in
      let (keeps, protocol) = merge_listener_protocols_lem key (protocol_of listen) r.protocols f in
      let (keeps_tls, settings) = add_tls_lem crates le server listen r.tls g in
      let mid = listened server listen routes protocols tls r in
      let first : Grows r mid = record { protocols = keeps; tls = keeps_tls } in
      let here_agrees : Agrees protocols tls server listen = record {
        protocol = protocol;
        settings = settings;
      } in
      let (grows, rest) = add_listens_lem le server routes listens mid h2 in
      (
        Grows-trans r mid r' first grows,
        (Agrees-Grows mid r' server grows listen here_agrees, rest),
      )
