-- ===== src/Selection.antt =====
-- The choice of a backend and the access rules: crates/ngxora-runtime/src/upstreams/runtime/selection.rs.
pub mod Fairness
pub mod Target
pub mod Route
pub mod Answered
pub mod Counting
pub mod Weights
use ngxora.Base.{
  ℕ, zero, suc, ◌==◌, ◌+◌, ◌-◌, ◌%◌, ◌≤◌, ◌<◌, ◌≡◌, ◌↔◌, refl, sym, ◌∙◌, ap, arith, Bool, true,
  false, List, [], ◌∷◌, ◌++◌, map, Option, none, some, ltb, if◌then◌else◌, length, get_elem?,
  Bool-cases, inl, inr,
}
use ngxora.Machine.{wrapping_add}
use ngxora.Net.{IpAddr}
use ngxora.Routing.Types.{
  RouteTarget, Backends, no_backends, backend, LocationIpRule, allow, deny, allow_all, deny_all,
}

-- The sum of the weights, each a `u32`, taken in a `u64`.
unfoldable pub total_weight : Backends → ℕ
total_weight no_backends = 0
total_weight (backend weight target rest) = weight + total_weight rest

-- The loop over the backends: the target whose slots hold the slot.
unfoldable pub pick_slot : ℕ → Backends → Option RouteTarget
pick_slot slot no_backends = none
pick_slot slot (backend weight target rest) =
    if ltb slot weight then some target else pick_slot (slot - weight) rest

-- The outcomes of the branch on weighted backends.
pub data Pick : Type 0 where
  unavailable missing_selector invalid_weights : Pick
  picked : RouteTarget → Pick

abbrev pub picked_of : Option RouteTarget → Pick
picked_of (some target) = picked target
picked_of none = invalid_weights

-- The branch of `select_backend_target` on weighted backends, on the counter of the route: the
-- backend that is followed and the counter after `fetch_add`, which wraps.
unfoldable pub select_weighted : Option ℕ → Backends → Pick × Option ℕ
select_weighted counter backends =
    if total_weight backends == 0 then (unavailable, counter) else elim counter [
      | none ↦ (missing_selector, none)
      | some n ↦
          (picked_of (pick_slot (n % total_weight backends) backends), some (wrapping_add n 1))
    ]

-- `LocationIpRule::matches` and `is_allow`
abbrev pub matches : LocationIpRule → IpAddr → Bool
matches (allow net) ip = net ip
matches (deny net) ip = net ip
matches _ ip = true

abbrev pub is_allow : LocationIpRule → Bool
is_allow (allow net) = true
is_allow allow_all = true
is_allow _ = false

unfoldable pub first_rule : List LocationIpRule → IpAddr → Bool
first_rule [] ip = false
first_rule (rule ∷ rules) ip = if matches rule ip then is_allow rule else first_rule rules ip

unfoldable pub location_allows_client : List LocationIpRule → Option IpAddr → Bool
location_allows_client [] ip = true
location_allows_client (rule ∷ rules) none = false
location_allows_client (rule ∷ rules) (some ip) = first_rule (rule ∷ rules) ip
