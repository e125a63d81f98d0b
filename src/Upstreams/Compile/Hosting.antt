-- ===== src/Upstreams/Compile/Hosting.antt =====
-- compile.rs: the locations that the listeners of a router reach, and the protocols they are reached by.
use ngxora.Base.{
  ◌≡◌, refl, sym, subst, Bool, true, false, not, List, [], ◌∷◌, map, Option, none, some, Text, any,
  is_some, lookup, insert, text_has_eq, All, All-mono, All-append, Entries, Entries-insert,
  Entries-mono, if-both, is_some-some, Option-cases, inl, inr,
}
use ngxora.Outcome.{success, ◌>>◌, ensure, ensure-true, >>-success, >>-both}
use ngxora.Compile.Ir.{Listen, Server, ScpProfile}
use ngxora.Control.Chains.{servers_of}
use ngxora.Routing.Http.{normalize_hostname}
use ngxora.Routing.Resolve.{listen_key_has_eq}
use ngxora.Routing.Types.{CompiledLocation, ServerRoutes, VirtualHostRoutes}
use ngxora.Upstreams.Compile.Errors.{unknown_profile, scp_needs_http2}
use ngxora.Upstreams.Compile.Servers.{
  insert_names, add_routes, or_new_listener, scp_profile, lacks_http2, check_profiles,
}

abbrev pub Profiles : Type 0
Profiles = List (Text × ScpProfile)

-- A route of SCP whose profile is there and which no listen reaches without HTTP/2.
abbrev pub IsServable : Profiles → Bool → List Listen → Option Text → Type 0
IsServable profiles h2c listens none = Unit
IsServable profiles h2c listens (some name) =
    ((profile : ScpProfile) × (lookup name profiles ≡ some profile))
    × (any (lacks_http2 h2c) listens ≡ false)

not-true : (test : Bool) → not test ≡ true → test ≡ false
not-true true h = cc
not-true false h = refl

pub check_profiles_lem :
    (profiles : Profiles) (h2c : Bool) (listens : List Listen) (ls : List CompiledLocation)
    → check_profiles profiles h2c listens ls ≡ success tt
    → All (λ (l : CompiledLocation). IsServable profiles h2c listens (scp_profile l.target)) ls
unfolding check_profiles
check_profiles_lem profiles h2c listens [] h = tt
check_profiles_lem profiles h2c listens (l ∷ ls) h = elim (Option-cases (scp_profile l.target)) [
  | inl e ↦
      let h' = rw (e, check_profiles) at h in
      (
        subst (IsServable profiles h2c listens) (sym e) tt,
        check_profiles_lem profiles h2c listens ls h',
      )
  | inr (name, e) ↦
      let h' = rw (e, check_profiles) at h in
      let (first, rest) =
        >>-both
          (ensure (is_some (lookup name profiles)) (unknown_profile name)
            >> ensure (not (any (lacks_http2 h2c) listens)) scp_needs_http2)
          _ h' in
      let (known, speaks) =
        >>-success (is_some (lookup name profiles)) (unknown_profile name) _ first in
      let none_lacks : any (lacks_http2 h2c) listens ≡ false =
        not-true _ (ensure-true (not (any (lacks_http2 h2c) listens)) scp_needs_http2 speaks) in
      (
        subst (IsServable profiles h2c listens) (sym e)
            (is_some-some (lookup name profiles) known, none_lacks),
        check_profiles_lem profiles h2c listens ls rest,
      )
]

abbrev pub or_none {ℓ} : {A : Type ℓ} → Option A → List A
or_none none = []
or_none (some a) = a ∷ []

-- A property of the routes of every host of a listener.
pub record OnHosts (P : ServerRoutes → Type 0) (vhosts : VirtualHostRoutes) : Type 0 where
  pub named : Entries (λ (name : Text) (routes : ServerRoutes). P routes) vhosts.named
  pub default : All P (or_none vhosts.default)

pub OnHosts-mono :
    (P Q : ServerRoutes → Type 0)
    → ((s : ServerRoutes) → P s → Q s)
    → (vhosts : VirtualHostRoutes) → OnHosts P vhosts
    → OnHosts Q vhosts
OnHosts-mono P Q f vhosts on = record {
  named =
      Entries-mono (λ (name : Text) (s : ServerRoutes). P s) (λ name s. Q s) (λ name s. f s)
        vhosts.named on.named;
  default = All-mono P Q f (or_none vhosts.default) on.default;
}

insert_names-Entries :
    (P : ServerRoutes → Type 0) (names : List Text) (routes : ServerRoutes)
    (m : List (Text × ServerRoutes))
    → P routes
    → Entries (λ (name : Text) (s : ServerRoutes). P s) m
    → Entries (λ (name : Text) (s : ServerRoutes). P s) (insert_names names routes m)
insert_names-Entries P [] routes m p on = on
insert_names-Entries P (name ∷ names) routes m p on =
    insert_names-Entries P names routes (insert (normalize_hostname name) routes m) p (
      Entries-insert (λ (n : Text) (s : ServerRoutes). P s) (normalize_hostname name) routes m p on)

pub add_routes-OnHosts :
    (P : ServerRoutes → Type 0) (server : Server) (listen : Listen) (routes : ServerRoutes)
    (vhosts : VirtualHostRoutes)
    → P routes
    → OnHosts P vhosts
    → OnHosts P (add_routes server listen routes vhosts)
unfolding add_routes
add_routes-OnHosts P server listen routes vhosts p on = record {
  named = insert_names-Entries P server.server_names routes vhosts.named p on.named;
  default =
      if-both (λ (o : Option ServerRoutes). All P (or_none o)) _ (some routes) vhosts.default
        (p, tt) on.default;
}

pub or_new_listener-OnHosts :
    (P : ServerRoutes → Type 0) (o : Option VirtualHostRoutes)
    → ((v : VirtualHostRoutes) → o ≡ some v → OnHosts P v)
    → OnHosts P (or_new_listener o)
or_new_listener-OnHosts P none on = record { named = tt; default = tt }
or_new_listener-OnHosts P (some v) on = on v refl

values :
    (P : ServerRoutes → Type 0) (m : List (Text × ServerRoutes))
    → Entries (λ (name : Text) (s : ServerRoutes). P s) m
    → All P (map (λ (n : Text × ServerRoutes). n.1) m)
values P [] on = tt
values P ((name, routes) ∷ m) on = (on.0, values P m on.1)

pub OnHosts-servers_of :
    (P : ServerRoutes → Type 0) (vhosts : VirtualHostRoutes)
    → OnHosts P vhosts
    → All P (servers_of vhosts)
OnHosts-servers_of P vhosts on =
    All-append P (map (λ (n : Text × ServerRoutes). n.1) vhosts.named) (or_none vhosts.default)
      (values P vhosts.named on.named) on.default
