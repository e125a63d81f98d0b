-- ===== src/Selection/Weights.antt =====
-- What the requests to a route with weighted backends are answered with, whatever goes to other routes.
use mathlib.Core.List.{Perm}
use mathlib.Core.List.Perm as Perm
use ngxora.Base.{
  ℕ, suc, ◌+◌, ◌-◌, ◌%◌, ◌^◌, ◌≤◌, ◌<◌, ◌==◌, ◌≡◌, ◌≢◌, ◌∙◌, refl, sym, ap, subst, arith, false,
  List, [], ◌∷◌, map, some, ltb, nat_has_eq, lookup, insert, lookup-insert_self, Bool-cases, inl,
  inr,
}
use ngxora.Machine.{wrapping_add}
use ngxora.Outcome.{failure}
use ngxora.Control.{Builders}
use ngxora.Routing.Types as Types
use ngxora.Routing.Types.{
  RouteTarget, Backends, no_backends, backend, weighted_backends, direct_response, http_redirect,
  scp, proxy_pass, return_,
}
use ngxora.Selection.{
  total_weight, pick_slot, Pick, unavailable, missing_selector, invalid_weights, picked, picked_of,
}
use ngxora.Selection.Fairness.{requests, by_weight, select_weighted-some, requests-by_weight}
use ngxora.Selection.Counting.{select_other}
use ngxora.Selection.Target.{
  SelectedTarget, Selected, status, missing_backend_selector, invalid_weight_sum, Answers, Counters,
  Request, select_backend_target, follow,
}

-- No backend is itself a list of weighted backends.
abbrev pub IsPlain : RouteTarget → Type 0
IsPlain (weighted_backends bs) = ⊥
IsPlain _ = Unit {0}

unfoldable pub ArePlain : Backends → Type 0
ArePlain no_backends = Unit
ArePlain (backend weight target rest) = IsPlain target × ArePlain rest

map-after {ℓ} :
    {A B C : Type ℓ} (f : B → C) (g : A → B) (l : List A) → map f (map g l) ≡ map (λ a. f (g a)) l
map-after f g [] = refl
map-after f g (a ∷ l) = ap (λ r. f (g a) ∷ r) (map-after f g l)

module _ {G : Type 0} (b : Builders G) (a : Answers b) (request : Request b a) where
  -- What the request is answered with for a target alone.
  abbrev pub answer_of : RouteTarget → Selected SelectedTarget
  answer_of target = (select_backend_target b a request target []).0

  -- A call of the selection: this request, or one for another route.
  pub data Turn : Type 0 where
    own : Turn
    other : (r : Request b a) → RouteTarget → r.route_id ≢ request.route_id → Turn

  -- The answers to this request, over calls in turn, from the counters that are there.
  unfoldable pub answers : List Turn → Backends → Counters → List (Selected SelectedTarget)
  answers [] bs counters = []
  answers (own ∷ turns) bs counters =
      let (answer, counters') = select_backend_target b a request (weighted_backends bs) counters in
      answer ∷ answers turns bs counters'
  answers (other r target _ ∷ turns) bs counters =
      answers turns bs (select_backend_target b a r target counters).1

  -- How often this request is among the calls.
  unfoldable pub owned : List Turn → ℕ
  owned [] = 0
  owned (own ∷ turns) = suc (owned turns)
  owned (other r target _ ∷ turns) = owned turns

  -- The answer that follows a pick.
  abbrev after : Pick → Selected SelectedTarget
  after unavailable = failure (status 503)
  after missing_selector = failure missing_backend_selector
  after invalid_weights = failure invalid_weight_sum
  after (picked target) = answer_of target

  plain_target :
      (target : RouteTarget) (counters : Counters)
      → IsPlain target
      → select_backend_target b a request target counters ≡ (answer_of target, counters)
  unfolding select_backend_target
  plain_target (weighted_backends bs) counters h = elim h [ ]
  plain_target (direct_response code) counters h = refl
  plain_target (proxy_pass host port tls sni) counters h = refl
  plain_target (Types.upstream_group name tls) counters h = refl
  plain_target (http_redirect config) counters h = refl
  plain_target (scp profile) counters h = refl
  plain_target (return_ code location) counters h = refl

  follow-pick_slot :
      (slot : ℕ) (bs : Backends) (counters : Counters)
      → ArePlain bs
      → follow b a request slot bs counters ≡ (after (picked_of (pick_slot slot bs)), counters)
  unfolding follow pick_slot ArePlain
  follow-pick_slot slot no_backends counters h = refl
  follow-pick_slot slot (backend weight target rest) counters h =
      elim (Bool-cases (ltb slot weight)) [
        | inl q ↦ rw (q, follow) (plain_target target counters h.0)
        | inr q ↦ rw (q, follow) (follow-pick_slot (slot - weight) rest counters h.1)
      ]

  select_weighted_backends :
      (c : ℕ) (bs : Backends) (counters : Counters)
      → ArePlain bs
      → 0 < total_weight bs
      → lookup request.route_id counters ≡ some c
      → select_backend_target b a request (weighted_backends bs) counters ≡ (
        after (picked_of (pick_slot (c % total_weight bs) bs)),
        insert request.route_id (wrapping_add c 1) counters,
      )
  unfolding select_backend_target
  select_weighted_backends c bs counters p h e =
      let q : (total_weight bs == 0) ≡ false = ground arith in
      rw (q, select_backend_target)
        (rw e (
          follow-pick_slot (c % total_weight bs) bs
            (insert request.route_id (wrapping_add c 1) counters) p))

  answers-requests :
      (turns : List Turn) (c : ℕ) (bs : Backends) (counters : Counters)
      → ArePlain bs
      → 0 < total_weight bs
      → lookup request.route_id counters ≡ some c
      → answers turns bs counters ≡ map after (requests (owned turns) (some c) bs)
  unfolding answers requests owned
  answers-requests [] c bs counters p h e = refl
  answers-requests (own ∷ turns) c bs counters p h e =
      rw (select_weighted_backends c bs counters p h e, select_weighted-some c bs h)
        (ap (λ rest. after (picked_of (pick_slot (c % total_weight bs) bs)) ∷ rest)
          (answers-requests turns (wrapping_add c 1) bs
            (insert request.route_id (wrapping_add c 1) counters) p h
            (lookup-insert_self request.route_id (wrapping_add c 1) counters)))
  answers-requests (other r target ne ∷ turns) c bs counters p h e =
      answers-requests turns c bs (select_backend_target b a r target counters).1 p h
        (select_other b a request.route_id r target counters ne ∙ e)

  -- For backends whose weights have a sum above 0 and none of which has weighted backends itself:
  -- over any calls of the selection in which the request is made as often as that sum, the others
  -- being for other routes, from whatever value of the route's counter that does not wrap within
  -- them, the answers to the request are, up to their order, the answer for each backend's target as
  -- often as the backend's weight.
  pub answers-by_weight :
      (turns : List Turn) (c : ℕ) (bs : Backends) (counters : Counters)
      → owned turns ≡ total_weight bs
      → ArePlain bs
      → 0 < total_weight bs
      → c + total_weight bs ≤ 2 ^ 64
      → lookup request.route_id counters ≡ some c
      → Perm (answers turns bs counters) (map answer_of (by_weight bs))
  answers-by_weight turns c bs counters n p h k e =
      subst (λ l. Perm l (map answer_of (by_weight bs)))
        (sym (
          answers-requests turns c bs counters p h e
          ∙ ap (λ m. map after (requests m (some c) bs)) n))
        (subst (λ l. Perm (map after (requests (total_weight bs) (some c) bs)) l)
          (map-after after picked (by_weight bs)) (Perm.map after (requests-by_weight c bs h k)))
