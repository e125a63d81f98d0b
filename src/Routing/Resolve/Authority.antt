-- ===== src/Routing/Resolve/Authority.antt =====
-- The host of a request and the server name of its connection.
use ngxora.Base.{
  ◌==◌, ◌≡◌, ◌≢◌, ◌⊎◌, inl, inr, refl, sym, ◌∙◌, ap, subst, arith, false, not, ◌||◌, List, [],
  Option, none, some, Text, length, text_eq, text_eq_iff, contains_char, Option-cases,
}
use ngxora.Outcome.{
  success, ok_or, >>=-success, >>-success, >>-both, ensure-true, success_inj, ok_or-success,
}
use ngxora.Routing.Http.{normalize_hostname}
use ngxora.Routing.Types.{CompiledLocation, VirtualHostRoutes, ListenKey}
use ngxora.Routing.Resolve.{
  Session, http_status, validate_sni_host_consistency, downstream_sni, session_listen_key,
  listener_routes, normalize_request_host, unbracketed, request_host, choose_location, or_sni,
  resolved, ResolvedLocation, resolve_on, resolve_route,
}

validate_sni_host_consistency_lem :
    (host sni : Text)
    → validate_sni_host_consistency (some host) (some sni) ≡ success tt
    → host ≡ sni
unfolding validate_sni_host_consistency
validate_sni_host_consistency_lem host sni h =
    (text_eq_iff host sni).0 (ensure-true (text_eq host sni) (http_status 421) h)

resolved-host :
    (host : Option Text) (l : Option CompiledLocation) (r : ResolvedLocation)
    → resolved host l ≡ some r
    → r.host ≡ host
resolved-host host none r h = cc
resolved-host host (some l) r h = cc

module _ (to_str authority_host : Text → Option Text) where
  -- A `Host` header whose text has neither `@` nor `,` and is an authority with this host, which is
  -- not empty without its brackets, and in lower case without dots at the end.
  pub record NamesHost (header host : Text) : Type 0 where
    pub text : Text
    pub named : Text
    pub is_text : to_str header ≡ some text
    pub has_no_user : contains_char b'@' text ≡ false
    pub is_single : contains_char b',' text ≡ false
    pub is_authority : authority_host text ≡ some named
    pub is_present : unbracketed to_str authority_host named ≢ []
    pub is_normalized : normalize_hostname (unbracketed to_str authority_host named) ≡ host

  normalize_request_host-NamesHost :
      (header text host : Text)
      → to_str header ≡ some text
      → normalize_request_host to_str authority_host text ≡ success host
      → NamesHost header host
  unfolding normalize_request_host
  normalize_request_host-NamesHost header text host e h =
      let (clean, h1) =
        >>-success (not (contains_char b'@' text || contains_char b',' text)) (http_status 400) _
          h in
      let (named, q, h2) = >>=-success (ok_or (http_status 400) (authority_host text)) _ h1 in
      let (present, h3) =
        >>-success (not (length (unbracketed to_str authority_host named) == 0)) (http_status 400) _
          h2 in
      record {
        text = text;
        named = named;
        is_text = e;
        has_no_user = ground arith;
        is_single = ground arith;
        is_authority = ok_or-success (http_status 400) (authority_host text) q;
        is_present = λ z. let k = rw z at present in (cc);
        is_normalized =
            success_inj (normalize_hostname (unbracketed to_str authority_host named)) host h3;
      }

  -- What a request says of its host where the connection names a server.
  abbrev pub HostAgrees : Option Text → Text → Option Text → Type 0
  HostAgrees header sni host =
      ((header ≡ none) × (host ≡ none))
      ⊎ ((value : Text) × (header ≡ some value) × NamesHost value sni × (host ≡ some sni))

  request_host-HostAgrees :
      (header : Option Text) (host : Option Text) (sni : Text)
      → request_host to_str authority_host header ≡ success host
      → validate_sni_host_consistency host (some sni) ≡ success tt
      → HostAgrees header sni host
  unfolding request_host
  request_host-HostAgrees none host sni h c = inl (refl, sym (success_inj none host h))
  request_host-HostAgrees (some value) host sni h c =
      let (text, q, h1) = >>=-success (ok_or (http_status 400) (to_str value)) _ h in
      let (name, n, h2) = >>=-success (normalize_request_host to_str authority_host text) _ h1 in
      let e : host ≡ some name = sym (success_inj (some name) host h2) in
      let same = validate_sni_host_consistency_lem name sni (rw e at c) in
      let t = ok_or-success (http_status 400) (to_str value) q in
      inr (
        value,
        refl,
        subst (NamesHost value) same (normalize_request_host-NamesHost value text name t n),
        e ∙ ap some same,
      )

  -- Where a TLS connection named a server and `resolve_route` finds a location, the request either has
  -- no `Host` header and is resolved without a host, or its `Host` header has a text without `@` and
  -- `,` that is an authority, whose host, without brackets, in lower case and without dots at the end,
  -- is the name of the connection and the host that is resolved.
  pub resolve_route-sni :
      (listeners : List (ListenKey × VirtualHostRoutes)) (session : Session) (sni : Text)
      (r : ResolvedLocation)
      → session.ssl ≡ some (some sni)
      → resolve_route to_str authority_host listeners session ≡ success (some r)
      → HostAgrees session.host_header sni r.host
  unfolding resolve_route resolve_on
  resolve_route-sni listeners session sni r e h =
      let (key, _, h1) = >>=-success (session_listen_key session) _ h in
      elim (Option-cases (listener_routes listeners key)) [
        | inl n ↦ let k = rw n at h1 in cc
        | inr (vhosts, n) ↦ on_listener vhosts (rw n at h1)
      ]
    where
      on_listener :
          (vhosts : VirtualHostRoutes)
          → resolve_on to_str authority_host vhosts session ≡ success (some r)
          → HostAgrees session.host_header sni r.host
      on_listener vhosts k =
          let (host, asked, k1) =
            >>=-success (request_host to_str authority_host session.host_header) _ k in
          let (consistent, k2) =
            >>-both (validate_sni_host_consistency host (downstream_sni session.ssl)) _ k1 in
          let found : resolved host (
                choose_location session.req_header vhosts
                  (or_sni host (downstream_sni session.ssl)))
              ≡ some r =
            (cc) in
          subst (HostAgrees session.host_header sni) (sym (resolved-host host _ r found))
            (request_host-HostAgrees session.host_header host sni asked (rw e at consistent))
