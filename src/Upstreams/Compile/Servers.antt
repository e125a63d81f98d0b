-- ===== src/Upstreams/Compile/Servers.antt =====
-- compile.rs: `add_server`, over the listeners of the router.
use ngxora.Base.{
  Bool, true, false, not, ◌&&◌, ◌||◌, List, [], ◌∷◌, Option, none, some, Text, codes, is_some,
  if◌then◌else◌, any, contains_char, strip_prefix, trim_end_matches, Eq, discrete_eq, lookup,
  insert, text_has_eq,
}
use ngxora.Outcome.{success, ◌>>=◌, ◌>>◌, ok_or, ensure, map_err}
use native.Mathlib.Decide.{ℕ_discrete}
use ngxora.Compile.Ir.{Listen, Server, ScpProfile}
use ngxora.Compile.Ir.Options.{
  path, TlsIdentity, SslProvider, custom, lets_encrypt, LetsEncryptConfig, DownstreamTlsOptions,
}
use ngxora.Compile.Validate.{is_empty}
use ngxora.Routing.Http.{validate_hostname, normalize_hostname}
use ngxora.Routing.Resolve.{listen_key_has_eq}
use ngxora.Routing.Types.{
  RouteTarget, scp, CompiledLocation, ServerRoutes, VirtualHostRoutes, ListenKey,
}
use ngxora.Routing.Router.{ListenerProtocolConfig, ListenerTlsSettings, ListenerTlsConfig}
use ngxora.Upstreams.Crates.{Crates}
use ngxora.Upstreams.Compile.Errors.{
  Compiled, bad_wildcard, unknown_profile, scp_needs_http2, conflicting_protocols, conflicting_tls,
  route,
}

pub ListenerProtocolConfig-discrete : Discrete ListenerProtocolConfig
ListenerProtocolConfig-discrete = hlevel

instance abbrev pub protocol_has_eq : Eq ListenerProtocolConfig
protocol_has_eq = discrete_eq ListenerProtocolConfig-discrete

pub ListenerTlsSettings-discrete : Discrete ListenerTlsSettings
ListenerTlsSettings-discrete = hlevel ℕ_discrete

instance abbrev pub tls_settings_has_eq : Eq ListenerTlsSettings
tls_settings_has_eq = discrete_eq ListenerTlsSettings-discrete

-- `ListenKey::from` and `ListenerTlsSettings::from`
abbrev pub key_of : Listen → ListenKey
key_of listen = record { addr = listen.addr; port = listen.port; ssl = listen.ssl }

abbrev pub settings_of : DownstreamTlsOptions → ListenerTlsSettings
settings_of o = record {
  protocols = o.protocols;
  verify_client = o.verify_client;
  client_certificate = o.client_certificate;
}

-- The names of a server with a wildcard.
unfoldable pub check_names : List Text → Compiled (Unit {0})
check_names [] = success tt
check_names (name ∷ names) =
    (if contains_char b'*' name
      then (ok_or bad_wildcard (strip_prefix (codes "*.") name) >>= λ suffix.
          map_err route (validate_hostname (trim_end_matches b'.' suffix)))
      else success tt)
    >> check_names names

abbrev pub is_lets_encrypt : Option SslProvider → Bool
is_lets_encrypt (some lets_encrypt) = true
is_lets_encrypt _ = false

abbrev pub protocol_of : Listen → ListenerProtocolConfig
protocol_of listen = record { http2 = listen.http2; http2_only = listen.http2_only }

unfoldable pub merge_listener_protocols :
    ListenKey
    → ListenerProtocolConfig
    → List (ListenKey × ListenerProtocolConfig)
    → Compiled (List (ListenKey × ListenerProtocolConfig))
merge_listener_protocols key config protocols = elim (lookup key protocols) [
  | some current ↦
      ensure (protocol_has_eq.same current config) conflicting_protocols >> success protocols
  | none ↦ success (insert key config protocols)
]

-- A `ListenerTlsConfig` with nothing but settings.
abbrev pub bare_tls : ListenerTlsSettings → ListenerTlsConfig
bare_tls settings = record { named = []; default = none; settings = settings }

unfoldable pub merge_listener_tls_settings :
    ListenKey
    → ListenerTlsSettings
    → List (ListenKey × ListenerTlsConfig)
    → Compiled (List (ListenKey × ListenerTlsConfig))
merge_listener_tls_settings key settings tls = elim (lookup key tls) [
  | some current ↦
      ensure (tls_settings_has_eq.same current.settings settings) conflicting_tls >> success tls
  | none ↦ success (insert key (bare_tls settings) tls)
]

-- The loop that gives each name of a server the value.
abbrev pub insert_names {ℓ} : {V : Type ℓ} → List Text → V → List (Text × V) → List (Text × V)
insert_names [] value named = named
insert_names (name ∷ names) value named =
    insert_names names value (insert (normalize_hostname name) value named)

-- `entry(..).or_default()`
abbrev pub or_new_listener : Option VirtualHostRoutes → VirtualHostRoutes
or_new_listener none = record { named = []; default = none }
or_new_listener (some listener) = listener

abbrev pub or_bare_tls : ListenerTlsSettings → Option ListenerTlsConfig → ListenerTlsConfig
or_bare_tls settings none = bare_tls settings
or_bare_tls settings (some tls) = tls

-- The routes of a server on one of its listeners.
unfoldable pub add_routes : Server → Listen → ServerRoutes → VirtualHostRoutes → VirtualHostRoutes
add_routes server listen routes listener = record {
  named = insert_names server.server_names routes listener.named;
  default =
      if listen.default_server || (is_empty server.server_names && not (is_some listener.default))
      then some routes
      else listener.default;
}

unfoldable pub add_identity : Server → Listen → TlsIdentity → ListenerTlsConfig → ListenerTlsConfig
add_identity server listen identity tls = record tls {
  named = insert_names server.server_names identity tls.named;
  default =
      if listen.default_server || (not (is_some tls.default) || is_empty server.server_names)
      then some identity
      else tls.default;
}

abbrev pub first_or_empty : List Text → Text
first_or_empty [] = []
first_or_empty (name ∷ names) = name

abbrev pub cache_dir_of : Option LetsEncryptConfig → Text
cache_dir_of none = codes "/var/lib/ngxora/certs"
cache_dir_of (some c) = elim c.cache_dir [ none ↦ codes "/var/lib/ngxora/certs" | some dir ↦ dir ]

abbrev pub scp_profile : RouteTarget → Option Text
scp_profile (scp profile) = some profile
scp_profile _ = none

-- A listener that a request of SCP cannot use.
abbrev pub lacks_http2 : Bool → Listen → Bool
lacks_http2 h2c listen = if listen.ssl then not listen.http2 else not h2c

-- The loop over the compiled locations.
unfoldable pub check_profiles :
    List (Text × ScpProfile) → Bool → List Listen → List CompiledLocation → Compiled (Unit {0})
check_profiles profiles h2c listens [] = success tt
check_profiles profiles h2c listens (location ∷ rest) =
    elim (scp_profile location.target) [
      | none ↦ success tt
      | some profile ↦
          ensure (is_some (lookup profile profiles)) (unknown_profile profile)
          >> ensure (not (any (lacks_http2 h2c) listens)) scp_needs_http2
    ]
    >> check_profiles profiles h2c listens rest

-- The part of a router that a server is added to.
pub record Listeners : Type 0 where
  pub listeners : List (ListenKey × VirtualHostRoutes)
  pub protocols : List (ListenKey × ListenerProtocolConfig)
  pub tls : List (ListenKey × ListenerTlsConfig)

module _ (crates : Crates) where
  unfoldable pub identity_of : SslProvider → Option LetsEncryptConfig → List Text → TlsIdentity
  identity_of (custom tls) le_config names = tls
  identity_of lets_encrypt le_config names =
      let dir = crates.join (cache_dir_of le_config) (first_or_empty names) in
      record {
        cert = path (crates.join dir (codes "fullchain.pem"));
        key = path (crates.join dir (codes "privkey.pem"));
      }

  unfoldable pub add_provider :
      Option SslProvider
      → Option LetsEncryptConfig
      → Server
      → Listen
      → ListenerTlsConfig
      → ListenerTlsConfig
  add_provider none le_config server listen tls = tls
  add_provider (some provider) le_config server listen tls =
      add_identity server listen (identity_of provider le_config server.server_names) tls

  -- The TLS of a server on one of its listeners.
  unfoldable pub add_tls :
      Option LetsEncryptConfig
      → Server
      → Listen
      → List (ListenKey × ListenerTlsConfig)
      → Compiled (List (ListenKey × ListenerTlsConfig))
  add_tls le_config server listen tls =
      if not listen.ssl
      then success tls
      else (merge_listener_tls_settings (key_of listen) (settings_of server.tls_options) tls
          >>= λ merged. success (
              insert (key_of listen)
                (add_provider server.tls le_config server listen
                  (or_bare_tls (settings_of server.tls_options) (lookup (key_of listen) merged)))
                merged))

  -- The loop over the listens of a server.
  unfoldable pub add_listens :
      Option LetsEncryptConfig
      → Server
      → ServerRoutes
      → List Listen
      → Listeners
      → Compiled Listeners
  add_listens le_config server routes [] r = success r
  add_listens le_config server routes (listen ∷ listens) r = do
    protocols ← merge_listener_protocols (key_of listen) (protocol_of listen) r.protocols
    tls ← add_tls le_config server listen r.tls
    add_listens le_config server routes listens (record {
      listeners =
          insert (key_of listen)
            (add_routes server listen routes (or_new_listener (lookup (key_of listen) r.listeners)))
            r.listeners;
      protocols = protocols;
      tls = tls;
    })
