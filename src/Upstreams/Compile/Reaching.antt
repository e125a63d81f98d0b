-- ===== src/Upstreams/Compile/Reaching.antt =====
-- compile.rs: what holds of every location that a compiled router reaches.
use ngxora.Base.{
  ◌≡◌, refl, sym, ◌∙◌, subst, Bool, true, false, not, List, [], ◌∷◌, ◌++◌, Option, none, some, Text,
  any, if◌then◌else◌, text_has_eq, lookup, Bool-cases, inl, inr, All, All-mono, Entries,
  Entries-insert, Entries-mono, Entries-lookup, Holds, Holds-append_left,
}
use ngxora.Outcome.{success, >>=-success, success_inj}
use ngxora.Compile.Ir.{Listen, Server, ScpProfile}
use ngxora.Compile.Ir.Options.{LetsEncryptConfig}
use ngxora.Routing.Resolve.{listen_key_has_eq}
use ngxora.Routing.Types.{CompiledLocation, ServerRoutes, VirtualHostRoutes, ListenKey}
use ngxora.Routing.Router.{ListenerProtocolConfig}
use ngxora.Upstreams.Crates.{Crates}
use ngxora.Upstreams.Compile.Servers.{
  key_of, protocol_of, lacks_http2, add_routes, or_new_listener, add_listens, add_tls,
  merge_listener_protocols, scp_profile, Listeners,
}
use ngxora.Upstreams.Compile.Merging.{Protocols, merge_listener_protocols_lem}
use ngxora.Upstreams.Compile.Listening.{listened}
use ngxora.Upstreams.Compile.Hosting.{
  Profiles, IsServable, OnHosts, OnHosts-mono, add_routes-OnHosts, or_new_listener-OnHosts,
}

-- A route of SCP whose profile is there and whose listener speaks HTTP/2.
abbrev pub IsServed : Profiles → Bool → ListenKey → ListenerProtocolConfig → Option Text → Type 0
IsServed profiles h2c key protocol none = Unit
IsServed profiles h2c key protocol (some name) =
    ((profile : ScpProfile) × (lookup name profiles ≡ some profile))
    × ((if key.ssl then protocol.http2 else h2c) ≡ true)

speaks :
    (ssl http2 h2c : Bool)
    → (if ssl then not http2 else not h2c) ≡ false
    → (if ssl then http2 else h2c) ≡ true
speaks true true h2c h = refl
speaks true false h2c h = cc
speaks false http2 true h = refl
speaks false http2 false h = cc

any_none {ℓ} :
    {A : Type ℓ} (p : A → Bool) (x : A) (xs : List A)
    → any p (x ∷ xs) ≡ false
    → (p x ≡ false) × (any p xs ≡ false)
any_none p x xs h = elim (Bool-cases (p x)) [
  | inl e ↦ absurd (let d = rw e at h in cc)
  | inr e ↦ (e, rw e at h)
]

module _ (profiles : Profiles) (h2c : Bool) where
  IsServable-IsServed :
      (listen : Listen) (listens : List Listen) (o : Option Text)
      → IsServable profiles h2c (listen ∷ listens) o
      → IsServed profiles h2c (key_of listen) (protocol_of listen) o
        × IsServable profiles h2c listens o
  IsServable-IsServed listen listens none is = (tt, tt)
  IsServable-IsServed listen listens (some name) (profile, h) =
      let (this, rest) = any_none (lacks_http2 h2c) listen listens h in
      ((profile, speaks listen.ssl listen.http2 h2c this), (profile, rest))

  -- A location that is compiled and that its listener can serve.
  abbrev pub IsReached :
      List CompiledLocation → ListenKey → ListenerProtocolConfig → CompiledLocation → Type 0
  IsReached book key protocol l =
      Holds l book × IsServed profiles h2c key protocol (scp_profile l.target)

  abbrev pub AreReached :
      List CompiledLocation → ListenKey → ListenerProtocolConfig → ServerRoutes → Type 0
  AreReached book key protocol routes = All (IsReached book key protocol) routes.locations

  -- The listener has protocols, and can serve all that it reaches.
  abbrev pub IsListening :
      List CompiledLocation → Protocols → ListenKey → VirtualHostRoutes → Type 0
  IsListening book protocols key vhosts =
      (protocol : ListenerProtocolConfig) × (lookup key protocols ≡ some protocol)
      × OnHosts (AreReached book key protocol) vhosts

  abbrev pub AreListening : List CompiledLocation → Listeners → Type 0
  AreListening book r = Entries (IsListening book r.protocols) r.listeners

  AreReached-mono :
      (book more : List CompiledLocation) (key : ListenKey) (protocol : ListenerProtocolConfig)
      (routes : ServerRoutes)
      → AreReached book key protocol routes
      → AreReached (book ++ more) key protocol routes
  AreReached-mono book more key protocol routes =
      All-mono (IsReached book key protocol) (IsReached (book ++ more) key protocol)
        (λ l (p, q). (Holds-append_left book more p, q)) routes.locations

  pub AreListening-mono :
      (book more : List CompiledLocation) (r : Listeners)
      → AreListening book r
      → AreListening (book ++ more) r
  AreListening-mono book more r =
      Entries-mono (IsListening book r.protocols) (IsListening (book ++ more) r.protocols)
        (λ key vhosts (protocol, e, on). (
          protocol,
          e,
          OnHosts-mono (AreReached book key protocol) (AreReached (book ++ more) key protocol)
              (AreReached-mono book more key protocol) vhosts on,
        ))
        r.listeners

  module _ (crates : Crates) where
    pub add_listens-AreListening :
        (le : Option LetsEncryptConfig) (server : Server) (routes : ServerRoutes)
        (listens : List Listen) (book : List CompiledLocation) (r : Listeners) {r' : Listeners}
        → All
            (λ (l : CompiledLocation).
              Holds l book × IsServable profiles h2c listens (scp_profile l.target))
            routes.locations
        → AreListening book r
        → add_listens crates le server routes listens r ≡ success r'
        → AreListening book r'
    unfolding add_listens
    add_listens-AreListening le server routes [] book r {r'} all on h =
        subst (AreListening book) (success_inj r r' h) on
    add_listens-AreListening le server routes (listen ∷ listens) book r all on h =
        let key = key_of listen in
        let protocol = protocol_of listen in
        let (protocols, f, h1) =
          >>=-success (merge_listener_protocols key protocol r.protocols) _ h in
        let (tls, _, h2) = >>=-success (add_tls crates le server listen r.tls) _ h1 in
        let (keeps, this) = merge_listener_protocols_lem key protocol r.protocols f in
        let kept =
          Entries-mono (IsListening book r.protocols) (IsListening book protocols)
            (λ k v (p, e, o). (p, keeps k p e, o)) r.listeners on in
        let on_old =
          or_new_listener-OnHosts (AreReached book key protocol) (lookup key r.listeners) (λ v e.
            let (p, i, o) = Entries-lookup (IsListening book protocols) r.listeners key kept e in
            let same : p ≡ protocol = (let d = sym i ∙ this in cc) in
            subst (λ q. OnHosts (AreReached book key q) v) same o) in
        let reached =
          All-mono _ (IsReached book key protocol)
            (λ (l : CompiledLocation) (p, s).
              (p, (IsServable-IsServed listen listens (scp_profile l.target) s).0))
            routes.locations all in
        let later =
          All-mono _
            (λ (l : CompiledLocation).
              Holds l book × IsServable profiles h2c listens (scp_profile l.target))
            (λ (l : CompiledLocation) (p, s).
              (p, (IsServable-IsServed listen listens (scp_profile l.target) s).1))
            routes.locations all in
        let old = or_new_listener (lookup key r.listeners) in
        let new =
          add_routes-OnHosts (AreReached book key protocol) server listen routes old reached
            on_old in
        add_listens-AreListening le server routes listens book
          (listened crates server listen routes protocols tls r) later
          (Entries-insert (IsListening book protocols) key (add_routes server listen routes old)
            r.listeners (protocol, this, new) kept)
          h2
