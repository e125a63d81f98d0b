-- ===== src/Upstreams/Compile/Merging.antt =====
-- compile.rs: what a listen does to the protocols and the TLS of its listener.
use ngxora.Base.{
  ◌≡◌, refl, sym, ◌∙◌, ap, subst, true, not, List, Option, none, some, KeepsAll, insert-KeepsAll,
  lookup, insert, lookup-insert, lookup-insert_self, Option-cases, Bool-cases, if-cases, inl, inr,
}
use ngxora.Outcome.{success, >>=-success, >>-success, success_inj}
use ngxora.Compile.Ir.{Listen, Server}
use ngxora.Compile.Ir.Options.{LetsEncryptConfig, SslProvider, TlsIdentity}
use ngxora.Routing.Resolve.{listen_key_has_eq}
use ngxora.Routing.Types.{ListenKey}
use ngxora.Routing.Router.{ListenerProtocolConfig, ListenerTlsSettings, ListenerTlsConfig}
use ngxora.Upstreams.Crates.{Crates}
use ngxora.Upstreams.Compile.Servers.{
  key_of, settings_of, protocol_has_eq, tls_settings_has_eq, bare_tls, or_bare_tls,
  merge_listener_protocols, merge_listener_tls_settings, add_identity, add_provider, add_tls,
}
use ngxora.Upstreams.Compile.Errors.{conflicting_protocols, conflicting_tls}

abbrev pub Protocols : Type 0
Protocols = List (ListenKey × ListenerProtocolConfig)

abbrev pub Tls : Type 0
Tls = List (ListenKey × ListenerTlsConfig)

pub merge_listener_protocols_lem :
    (key : ListenKey) (config : ListenerProtocolConfig) (m : Protocols) {m' : Protocols}
    → merge_listener_protocols key config m ≡ success m'
    → KeepsAll m m' × (lookup key m' ≡ some config)
unfolding merge_listener_protocols
merge_listener_protocols_lem key config m {m'} h = elim (Option-cases (lookup key m)) [
  | inl e ↦
      let this = success_inj _ m' (rw (e, merge_listener_protocols) at h) in
      (
        subst (KeepsAll m) this (insert-KeepsAll key config m e),
        subst (λ (n : Protocols). lookup key n ≡ some config) this
            (lookup-insert_self key config m),
      )
  | inr (current, e) ↦
      let (t, h') =
        >>-success (protocol_has_eq.same current config) conflicting_protocols _
          (rw (e, merge_listener_protocols) at h) in
      let this = success_inj m m' h' in
      (
        subst (KeepsAll m) this (λ k v g. g),
        subst (λ (n : Protocols). lookup key n ≡ some config) this
            (e ∙ ap some ((protocol_has_eq.same_iff current config).0 t)),
      )
]

-- A listener has TLS with the settings.
abbrev pub HasSettings : Tls → ListenKey → ListenerTlsSettings → Type 0
HasSettings m key settings =
    (tls : ListenerTlsConfig) × (lookup key m ≡ some tls) × (tls.settings ≡ settings)

abbrev pub KeepsSettings : Tls → Tls → Type 0
KeepsSettings m m' =
    (key : ListenKey) (settings : ListenerTlsSettings)
    → HasSettings m key settings
    → HasSettings m' key settings

merge_listener_tls_settings_lem :
    (key : ListenKey) (settings : ListenerTlsSettings) (m : Tls) {m' : Tls}
    → merge_listener_tls_settings key settings m ≡ success m'
    → KeepsAll m m' × HasSettings m' key settings
unfolding merge_listener_tls_settings
merge_listener_tls_settings_lem key settings m {m'} h = elim (Option-cases (lookup key m)) [
  | inl e ↦
      let this = success_inj _ m' (rw (e, merge_listener_tls_settings) at h) in
      (
        subst (KeepsAll m) this (insert-KeepsAll key (bare_tls settings) m e),
        subst (λ (n : Tls). HasSettings n key settings) this
            (bare_tls settings, lookup-insert_self key (bare_tls settings) m, refl),
      )
  | inr (current, e) ↦
      let (t, h') =
        >>-success (tls_settings_has_eq.same current.settings settings) conflicting_tls _
          (rw (e, merge_listener_tls_settings) at h) in
      let this = success_inj m m' h' in
      (
        subst (KeepsAll m) this (λ k v g. g),
        subst (λ (n : Tls). HasSettings n key settings) this
            (current, e, (tls_settings_has_eq.same_iff current.settings settings).0 t),
      )
]

add_identity-settings :
    (server : Server) (listen : Listen) (identity : TlsIdentity) (tls : ListenerTlsConfig)
    → (add_identity server listen identity tls).settings ≡ tls.settings
unfolding add_identity
add_identity-settings server listen identity tls = refl

-- A write of the settings that are there changes no settings.
insert-KeepsSettings :
    (key : ListenKey) (settings : ListenerTlsSettings) (new : ListenerTlsConfig) (m : Tls)
    → HasSettings m key settings
    → new.settings ≡ settings
    → KeepsSettings m (insert key new m) × HasSettings (insert key new m) key settings
insert-KeepsSettings key settings new m (old, e, f) g = (
  λ k s (tls, i, j). elim (Bool-cases (listen_key_has_eq.same key k)) [
    | inl q ↦
        let same = (listen_key_has_eq.same_iff key k).0 q in
        let i' : lookup key m ≡ some tls = rw same i in
        let this : old ≡ tls = (let d = sym e ∙ i' in cc) in
        (new, lookup-insert k key new m ∙ rw q refl, g ∙ (sym f ∙ rw this j))
    | inr q ↦ (tls, lookup-insert k key new m ∙ rw q i, j)
  ],
  (new, lookup-insert_self key new m, g),
)

module _ (crates : Crates) where
  add_provider-settings :
      (provider : Option SslProvider) (le : Option LetsEncryptConfig) (server : Server)
      (listen : Listen) (tls : ListenerTlsConfig)
      → (add_provider crates provider le server listen tls).settings ≡ tls.settings
  unfolding add_provider
  add_provider-settings none le server listen tls = refl
  add_provider-settings (some provider) le server listen tls =
      add_identity-settings server listen _ tls

  -- The TLS of the listener has the settings of the server, and nothing else changes its settings.
  pub add_tls_lem :
      (le : Option LetsEncryptConfig) (server : Server) (listen : Listen) (m : Tls) {m' : Tls}
      → add_tls crates le server listen m ≡ success m'
      → KeepsSettings m m'
        × (listen.ssl ≡ true → HasSettings m' (key_of listen) (settings_of server.tls_options))
  unfolding add_tls
  add_tls_lem le server listen m {m'} h = elim (if-cases (not listen.ssl) _ _ h) [
    | inl (e, h') ↦
        let this = success_inj m m' h' in
        (subst (KeepsSettings m) this (λ k s g. g), λ t. absurd (let d = rw t at e in cc))
    | inr (e, h') ↦
        let key = key_of listen in
        let settings = settings_of server.tls_options in
        let (merged, f, h'') = >>=-success (merge_listener_tls_settings key settings m) _ h' in
        let (keeps, (old, i, j)) = merge_listener_tls_settings_lem key settings m f in
        let new =
          add_provider crates server.tls le server listen
            (or_bare_tls settings (lookup key merged)) in
        let new_settings : new.settings ≡ settings =
          add_provider-settings server.tls le server listen
            (or_bare_tls settings (lookup key merged))
          ∙ (ap (λ (o : Option ListenerTlsConfig). (or_bare_tls settings o).settings) i ∙ j) in
        let (k1, k2) = insert-KeepsSettings key settings new merged (old, i, j) new_settings in
        let this = success_inj (insert key new merged) m' h'' in
        (
          subst (KeepsSettings m) this (λ k s (tls, u, v). k1 k s (tls, keeps k tls u, v)),
          λ t. subst (λ (n : Tls). HasSettings n key settings) this k2,
        )
  ]
