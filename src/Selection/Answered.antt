-- ===== src/Selection/Answered.antt =====
-- How a selection over a snapshot ends.
use native.Mathlib.Nat.{mod-lt}
use ngxora.Base.{
  ℕ, ◌-◌, ◌%◌, ◌==◌, ◌<◌, ◌≡◌, refl, ◌∙◌, arith, Bool, true, List, [], ◌∷◌, Option, some, Text, ltb,
  ltb→le, nat_has_eq, lookup, insert, lookup-insert, Holds, here, there, Bool-cases, Option-cases,
  if-both, inl, inr, ==_iff,
}
use ngxora.Machine.{wrapping_add}
use ngxora.Net.{IpAddr}
use ngxora.Outcome.{success, failure, ◌>>=◌}
use ngxora.Compile.Ir.Upstream.{UpstreamHashKey}
use ngxora.Control.{Builders, upstream_group}
use ngxora.Control.Chains.{is_weighted, backend_counters}
use ngxora.Routing.Types as Types
use ngxora.Routing.Types.{
  RouteTarget, Backends, no_backends, backend, weighted_backends, direct_response, http_redirect,
  scp, proxy_pass, return_, CompiledLocation,
}
use ngxora.Selection.{total_weight}
use ngxora.Selection.Target.{
  SelectedTarget, response, upstream, Selected, status, Answers, Counters, Request, header_key,
  upstream_selection_key, group_key, select_in_group, select_backend_target, follow,
}

-- An upstream or a status, or the error 503 of a request without one.
abbrev pub IsAnswered : Selected SelectedTarget → Type 0
IsAnswered (success (response code)) = Unit
IsAnswered (success (upstream peer)) = Unit
IsAnswered (failure (status code)) = code ≡ 503
IsAnswered _ = ⊥

abbrev IsKey : Selected Text → Type 0
IsKey (success key) = Unit
IsKey (failure (status code)) = code ≡ 503
IsKey (failure _) = ⊥

-- The route has a counter.
abbrev pub HasCounter : ℕ → Counters → Type 0
HasCounter id counters = (n : ℕ) × (lookup id counters ≡ some n)

pub insert-HasCounter :
    (id other n : ℕ) (counters : Counters)
    → HasCounter id counters
    → HasCounter id (insert other n counters)
insert-HasCounter id other n counters (m, e) = elim (Bool-cases (nat_has_eq.same other id)) [
  | inl q ↦ (n, lookup-insert id other n counters ∙ rw q)
  | inr q ↦ (m, lookup-insert id other n counters ∙ rw q e)
]

-- Each route with weighted backends starts with a counter.
pub backend_counters-HasCounter :
    (ls : List CompiledLocation) (l : CompiledLocation)
    → Holds l ls
    → is_weighted l.target ≡ true
    → HasCounter l.route_id (backend_counters ls)
unfolding backend_counters
backend_counters-HasCounter [] l p w = elim p [ ]
backend_counters-HasCounter (l ∷ ls) _ here w = rw w (
  0,
  lookup-insert l.route_id l.route_id 0 (backend_counters ls)
      ∙ rw ((nat_has_eq.same_iff l.route_id l.route_id).1 refl),
)
backend_counters-HasCounter (k ∷ ls) l (there p) w =
    let rest = backend_counters-HasCounter ls l p w in
    elim (Bool-cases (is_weighted k.target)) [
      | inl q ↦ rw q (insert-HasCounter l.route_id k.route_id 0 (backend_counters ls) rest)
      | inr q ↦ rw q rest
    ]

upstream_selection_key-IsKey :
    (show_ip : IpAddr → Text) (configured : Option UpstreamHashKey) (get_all : Text → List Text)
    (ip : Option IpAddr)
    → IsKey (upstream_selection_key show_ip configured get_all ip)
unfolding upstream_selection_key
upstream_selection_key-IsKey show_ip configured get_all ip =
    elim (Option-cases (header_key configured get_all)) [
      | inr (value, e) ↦ rw (e, upstream_selection_key) tt
      | inl e ↦ elim (Option-cases ip) [
        | inr (address, f) ↦ rw (e, upstream_selection_key) (rw f tt)
        | inl f ↦ rw (e, upstream_selection_key) (rw f refl)
      ]
    ]

IsAnswered-bind :
    (key : Selected Text) (rest : Text → Selected SelectedTarget)
    → IsKey key
    → ((k : Text) → IsAnswered (rest k))
    → IsAnswered (key >>= rest)
IsAnswered-bind (success k) rest is f = f k
IsAnswered-bind (failure (status code)) rest is f = is
IsAnswered-bind (failure _) rest is f = is

module _ {G : Type 0} (b : Builders G) (a : Answers b) (request : Request b a) where
  group_key-IsKey : (group : b.RuntimeUpstreamGroup) → IsKey (group_key b a request group)
  unfolding group_key
  group_key-IsKey group =
      if-both IsKey (a.uses_consistent_hash group) _ (success [])
        (upstream_selection_key-IsKey a.show_ip (a.hash_key group) request.get_all
          request.client_ip)
        tt

  select_in_group-IsAnswered :
      (name : Text) (tls : Bool) (group : b.RuntimeUpstreamGroup)
      → upstream_group b request.snapshot name ≡ some group
      → IsAnswered (select_in_group b a request name tls)
  unfolding select_in_group
  select_in_group-IsAnswered name tls group e =
      rw (e, select_in_group)
        (IsAnswered-bind (group_key b a request group) _ (group_key-IsKey group) (λ key.
          elim (Option-cases (a.select group key)) [
            | inl f ↦ rw f refl
            | inr (server, f) ↦ rw f tt
          ]))

  -- Every group that is named is in the snapshot.
  abbrev pub IsFound : RouteTarget → Type 0
  IsFound (Types.upstream_group name tls) =
      (group : b.RuntimeUpstreamGroup) × (upstream_group b request.snapshot name ≡ some group)
  IsFound (proxy_pass host port tls sni) = Unit
  IsFound (direct_response code) = Unit
  IsFound _ = ⊥

  abbrev pub AreFound : Backends → Type 0
  AreFound no_backends = Unit
  AreFound (backend weight target rest) = IsFound target × AreFound rest

  pub select_backend-IsAnswered :
      (target : RouteTarget) (counters : Counters)
      → IsFound target
      → IsAnswered (select_backend_target b a request target counters).0
  unfolding select_backend_target
  select_backend-IsAnswered (Types.upstream_group name tls) counters (group, e) =
      select_in_group-IsAnswered name tls group e
  select_backend-IsAnswered (proxy_pass host port tls sni) counters is = tt
  select_backend-IsAnswered (direct_response code) counters is = tt
  select_backend-IsAnswered (weighted_backends _) counters is = elim is [ ]
  select_backend-IsAnswered (http_redirect config) counters is = elim is [ ]
  select_backend-IsAnswered (scp profile) counters is = elim is [ ]
  select_backend-IsAnswered (return_ code location) counters is = elim is [ ]

  -- A slot below the sum of the weights falls on a backend.
  follow-IsAnswered :
      (slot : ℕ) (bs : Backends) (counters : Counters)
      → slot < total_weight bs
      → AreFound bs
      → IsAnswered (follow b a request slot bs counters).0
  unfolding follow total_weight
  follow-IsAnswered slot no_backends counters h are = absurd (omega arith)
  follow-IsAnswered slot (backend weight target rest) counters h are =
      elim (Bool-cases (ltb slot weight)) [
        | inl q ↦ rw (q, follow) (select_backend-IsAnswered target counters are.0)
        | inr q ↦
            rw (q, follow)
              (follow-IsAnswered (slot - weight) rest counters (omega (arith, ltb→le slot weight q))
                are.1)
      ]

  pub select_weighted-IsAnswered :
      (bs : Backends) (counters : Counters)
      → AreFound bs
      → HasCounter request.route_id counters
      → IsAnswered (select_backend_target b a request (weighted_backends bs) counters).0
  unfolding select_backend_target
  select_weighted-IsAnswered bs counters are (n, e) = elim (Bool-cases (total_weight bs == 0)) [
    | inl q ↦ rw (q, select_backend_target) refl
    | inr q ↦
        let positive : 0 < total_weight bs = ground (arith, ==_iff (total_weight bs) 0) in
        rw (q, select_backend_target)
          (rw e (
            follow-IsAnswered (n % total_weight bs) bs
              (insert request.route_id (wrapping_add n 1) counters) (mod-lt n positive) are))
  ]
