-- ===== src/Selection/Counting.antt =====
-- What selections do to the counters of the routes.
use ngxora.Base.{
  ◌≡◌, ◌≢◌, refl, ◌∙◌, arith, false, lookup-insert, ℕ, ◌-◌, ◌%◌, ◌==◌, ltb, nat_has_eq, lookup,
  insert, Bool-cases, Option-cases, inl, inr,
}
use ngxora.Machine.{wrapping_add}
use ngxora.Control.{Builders, RuntimeSnapshot}
use ngxora.Routing.Types as Types
use ngxora.Routing.Types.{
  RouteTarget, Backends, no_backends, backend, weighted_backends, direct_response, http_redirect,
  scp, proxy_pass, return_,
}
use ngxora.Selection.{total_weight}
use ngxora.Selection.Target.{Answers, Counters, Request, select_backend_target, follow}
use ngxora.Selection.Answered.{HasCounter, insert-HasCounter}

lookup-insert_ne :
    (id other n : ℕ) (counters : Counters)
    → other ≢ id
    → lookup id (insert other n counters) ≡ lookup id counters
lookup-insert_ne id other n counters ne =
    let q : (other == id) ≡ false = ground arith in lookup-insert id other n counters ∙ rw q refl

module _ {G : Type 0} (b : Builders G) (a : Answers b) where
  -- The counters after any requests at a snapshot, each for a route and a target.
  pub data After (s : RuntimeSnapshot b) : Counters → Type 0 where
    start : After s s.backend_counters
    again :
        {counters : Counters} (request : Request b a) (target : RouteTarget)
        → After s counters
        → After s (select_backend_target b a request target counters).1

  mutual
    unfolding select_backend_target follow

    select-HasCounter :
        (id : ℕ) (request : Request b a) (target : RouteTarget) (counters : Counters)
        → HasCounter id counters
        → HasCounter id (select_backend_target b a request target counters).1
    select-HasCounter id request (weighted_backends bs) counters h =
        elim (Bool-cases (total_weight bs == 0)) [
          | inl q ↦ rw (q, select_backend_target) h
          | inr q ↦ elim (Option-cases (lookup request.route_id counters)) [
            | inl e ↦ rw (q, select_backend_target) (rw e h)
            | inr (n, e) ↦
                rw (q, select_backend_target)
                  (rw e (
                    follow-HasCounter id request (n % total_weight bs) bs
                      (insert request.route_id (wrapping_add n 1) counters)
                      (insert-HasCounter id request.route_id (wrapping_add n 1) counters h)))
          ]
        ]
    select-HasCounter id request (direct_response code) counters h = h
    select-HasCounter id request (proxy_pass host port tls sni) counters h = h
    select-HasCounter id request (Types.upstream_group name tls) counters h = h
    select-HasCounter id request (http_redirect config) counters h = h
    select-HasCounter id request (scp profile) counters h = h
    select-HasCounter id request (return_ code location) counters h = h

    follow-HasCounter :
        (id : ℕ) (request : Request b a) (slot : ℕ) (bs : Backends) (counters : Counters)
        → HasCounter id counters
        → HasCounter id (follow b a request slot bs counters).1
    follow-HasCounter id request slot no_backends counters h = h
    follow-HasCounter id request slot (backend weight target rest) counters h =
        elim (Bool-cases (ltb slot weight)) [
          | inl q ↦ rw (q, follow) (select-HasCounter id request target counters h)
          | inr q ↦ rw (q, follow) (follow-HasCounter id request (slot - weight) rest counters h)
        ]

  mutual
    unfolding select_backend_target follow

    -- A request for another route leaves the counter of a route alone.
    pub select_other :
        (id : ℕ) (request : Request b a) (target : RouteTarget) (counters : Counters)
        → request.route_id ≢ id
        → lookup id (select_backend_target b a request target counters).1 ≡ lookup id counters
    select_other id request (weighted_backends bs) counters ne =
        elim (Bool-cases (total_weight bs == 0)) [
          | inl q ↦ rw (q, select_backend_target) refl
          | inr q ↦ elim (Option-cases (lookup request.route_id counters)) [
            | inl e ↦ rw (q, select_backend_target) (rw e refl)
            | inr (n, e) ↦
                rw (q, select_backend_target)
                  (rw e (
                    follow_other id request (n % total_weight bs) bs
                      (insert request.route_id (wrapping_add n 1) counters) ne
                    ∙ lookup-insert_ne id request.route_id (wrapping_add n 1) counters ne))
          ]
        ]
    select_other id request (direct_response code) counters ne = refl
    select_other id request (proxy_pass host port tls sni) counters ne = refl
    select_other id request (Types.upstream_group name tls) counters ne = refl
    select_other id request (http_redirect config) counters ne = refl
    select_other id request (scp profile) counters ne = refl
    select_other id request (return_ code location) counters ne = refl

    follow_other :
        (id : ℕ) (request : Request b a) (slot : ℕ) (bs : Backends) (counters : Counters)
        → request.route_id ≢ id
        → lookup id (follow b a request slot bs counters).1 ≡ lookup id counters
    follow_other id request slot no_backends counters ne = refl
    follow_other id request slot (backend weight target rest) counters ne =
        elim (Bool-cases (ltb slot weight)) [
          | inl q ↦ rw (q, follow) (select_other id request target counters ne)
          | inr q ↦ rw (q, follow) (follow_other id request (slot - weight) rest counters ne)
        ]

  -- A counter is never lost.
  pub After-HasCounter :
      (s : RuntimeSnapshot b) (counters : Counters) (id : ℕ)
      → After s counters
      → HasCounter id s.backend_counters
      → HasCounter id counters
  After-HasCounter s _ id start h = h
  After-HasCounter s _ id (again {counters = c} request target after) h =
      select-HasCounter id request target c (After-HasCounter s c id after h)
