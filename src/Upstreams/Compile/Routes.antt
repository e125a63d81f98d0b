-- ===== src/Upstreams/Compile/Routes.antt =====
-- compile.rs: the routes of a compiled router.
use ngxora.Base.{
  ◌+◌, ◌<◌, ◌^◌, ◌≡◌, subst, arith, true, List, [], ◌∷◌, some, Text, if◌then◌else◌, text_has_eq,
  lookup, All, All-append, All-mono, All-Holds, Entries, Entries-lookup, Holds,
}
use ngxora.Outcome.{success}
use ngxora.Compile.Ir.{Http, ScpProfile}
use ngxora.Compile.Ir.Options.{GeoIpConfig}
use ngxora.Control.Chains.{servers_of, locations_of, all_locations}
use ngxora.Routing.Resolve.{listen_key_has_eq}
use ngxora.Routing.Types.{CompiledLocation, ServerRoutes, VirtualHostRoutes, ListenKey, scp}
use ngxora.Routing.Router.{CompiledRouter, ListenerProtocolConfig}
use ngxora.Upstreams.Crates.{Crates}
use ngxora.Upstreams.Compile.Servers.{scp_profile}
use ngxora.Upstreams.Compile.Router.{http_options, no_listeners, from_http}
use ngxora.Upstreams.Compile.Parts.{from_http-IsCompiled, context}
use ngxora.Upstreams.Compile.Naming.{IsResolved, compile_upstreams-AreNamed}
use ngxora.Upstreams.Compile.Resolving.{IsChecked}
use ngxora.Upstreams.Compile.Identity.{IsNumbered, IsNumbered-inj}
use ngxora.Upstreams.Compile.Hosting.{OnHosts-servers_of}
use ngxora.Upstreams.Compile.Reaching.{IsServed, IsReached, AreReached, IsListening}
use ngxora.Upstreams.Compile.Reachable.{location_count, add_servers-IsBook}

All-locations_of :
    (P : CompiledLocation → Type 0) (ss : List ServerRoutes)
    → All (λ (s : ServerRoutes). All P s.locations) ss
    → All P (locations_of ss)
All-locations_of P [] a = tt
All-locations_of P (s ∷ ss) a =
    All-append P s.locations (locations_of ss) a.0 (All-locations_of P ss a.1)

module _ (crates : Crates) where
  -- The book of a router that is compiled.
  pub record IsRouted (router : CompiledRouter GeoIpConfig) (book : List CompiledLocation)
      : Type 0 where
    pub numbered : IsNumbered 1 book
    pub resolved :
        All
          (λ (l : CompiledLocation). IsResolved router.upstreams l.target × IsChecked l.target)
          book
    pub listening :
        Entries
          (IsListening router.scp_profiles router.http_options.h2c book router.listener_protocols)
          router.listeners

  pub from_http-IsRouted :
      (http : Http) (router : CompiledRouter GeoIpConfig)
      → from_http crates http ≡ success router
      → 1 + location_count http.servers < 2 ^ 64
      → (book : List CompiledLocation) × IsRouted router book
  unfolding http_options
  from_http-IsRouted http router h small =
      let is = from_http-IsCompiled crates http h in
      let (book, b) =
        add_servers-IsBook crates (context http router.upstreams router.scp_profiles) http.servers
          [] no_listeners 1 (compile_upstreams-AreNamed crates http.upstreams is.grouped) small
          (record { numbered = tt; next = omega arith; resolved = tt; listening = tt }) is.added in
      (
        book,
        record {
          numbered = b.numbered;
          resolved = b.resolved;
          listening = rw (is.listeners, is.protocols, is.options) b.listening;
        },
      )

  module _ (router : CompiledRouter GeoIpConfig) (book : List CompiledLocation)
      (routed : IsRouted router book) where
    -- What the locations of a listener are.
    pub listener_locations :
        (key : ListenKey) (vhosts : VirtualHostRoutes)
        → IsListening router.scp_profiles router.http_options.h2c book router.listener_protocols key
            vhosts
        → (protocol : ListenerProtocolConfig) × (lookup key router.listener_protocols
            ≡ some protocol)
          × All
              (IsReached router.scp_profiles router.http_options.h2c book key protocol)
              (locations_of (servers_of vhosts))
    listener_locations key vhosts (protocol, e, on) = (
      protocol,
      e,
      All-locations_of _ (servers_of vhosts) (
          OnHosts-servers_of
            (AreReached router.scp_profiles router.http_options.h2c book key protocol) vhosts on),
    )

    listed :
        (ls : List (ListenKey × VirtualHostRoutes))
        → Entries
            (IsListening router.scp_profiles router.http_options.h2c book router.listener_protocols)
            ls
        → All (λ l. Holds l book) (all_locations ls)
    listed [] on = tt
    listed ((key, vhosts) ∷ ls) on =
        let (protocol, e, a) = listener_locations key vhosts on.0 in
        All-append (λ l. Holds l book) (locations_of (servers_of vhosts)) (all_locations ls)
          (All-mono _ (λ l. Holds l book) (λ l p. p.0) (locations_of (servers_of vhosts)) a)
          (listed ls on.1)

    pub reachable-listed :
        (l : CompiledLocation) → Holds l (all_locations router.listeners) → Holds l book
    reachable-listed l p =
        All-Holds (λ l. Holds l book) (all_locations router.listeners)
          (listed router.listeners routed.listening) p

  -- In a router that is compiled from fewer than 2 ^ 64 - 1 locations, two locations that listeners
  -- reach have the same route number only if they are the same location.
  pub from_http-route_id_inj :
      (http : Http) (router : CompiledRouter GeoIpConfig) (a b : CompiledLocation)
      → from_http crates http ≡ success router
      → 1 + location_count http.servers < 2 ^ 64
      → Holds a (all_locations router.listeners)
      → Holds b (all_locations router.listeners)
      → a.route_id ≡ b.route_id
      → a ≡ b
  from_http-route_id_inj http router a b h small p q e =
      let (book, is) = from_http-IsRouted http router h small in
      IsNumbered-inj 1 book is.numbered (reachable-listed router book is a p)
        (reachable-listed router book is b q) e

  -- In a router that is compiled from fewer than 2 ^ 64 - 1 locations, each location that a listener
  -- reaches and that passes to an SCP profile has its profile in the router, and the listener speaks
  -- HTTP/2: by its own protocols with TLS, by the option `h2c` without.
  pub from_http-scp :
      (http : Http) (router : CompiledRouter GeoIpConfig) (key : ListenKey)
      (vhosts : VirtualHostRoutes) (l : CompiledLocation) (name : Text)
      → from_http crates http ≡ success router
      → 1 + location_count http.servers < 2 ^ 64
      → lookup key router.listeners ≡ some vhosts
      → Holds l (locations_of (servers_of vhosts))
      → l.target ≡ scp name
      → (profile : ScpProfile) × (protocol : ListenerProtocolConfig) × (lookup name
            router.scp_profiles
          ≡ some profile)
        × (lookup key router.listener_protocols ≡ some protocol)
        × ((if key.ssl then protocol.http2 else router.http_options.h2c) ≡ true)
  from_http-scp http router key vhosts l name h small e p t =
      let (book, is) = from_http-IsRouted http router h small in
      let (protocol, f, a) =
        listener_locations router book is key vhosts
          (Entries-lookup _ router.listeners key is.listening e) in
      let (_, served) = All-Holds _ (locations_of (servers_of vhosts)) a p in
      let ((profile, g), speaks) =
        subst
          (λ o. IsServed router.scp_profiles router.http_options.h2c key protocol (scp_profile o)) t
          served in
      (profile, protocol, g, f, speaks)
