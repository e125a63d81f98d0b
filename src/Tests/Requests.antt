-- ===== src/Tests/Requests.antt =====
-- Runs of the limits, the rate limiter and the routing of requests.
use mathlib.Core.List.{Perm}
use ngxora.Base.{
  ℕ, codes, ◌+◌, ◌≡◌, refl, arith, Bool, false, List, [], ◌∷◌, map, Option, none, some, ltb,
  if◌then◌else◌, min, Text, length, text_eq, starts_with, ends_with, strip_prefix,
}
use ngxora.Net.{v4}
use ngxora.RateLimit.Quota.{Schedule, fresh, requested, served, served-fresh}
use ngxora.Limits.{receive_body, body_size, receive_body_lem}
use ngxora.Tests.Fixtures.{route_to}
use ngxora.Routing.Types.{
  CompiledMatcher, prefix, exact, regex, prefer_prefix, CompiledLocation, direct_response, Backends,
  no_backends, backend,
}
use ngxora.Routing.Hostname.{hostname_score}
use ngxora.Routing.Location.{select_route_target, scan_prefixes, consider}
use ngxora.Routing.Location.Rank.{best_of, location_of}
use ngxora.Routing.Location.Ranking.{select_route_target-best_of}
use ngxora.Selection.{picked, total_weight}
use ngxora.Selection.Fairness.{requests, by_weight, requests-by_weight}

-- The second client's requests do not count against the first one's quota of two.
abbrev traffic : Schedule
traffic = (5, v4 1) ∷ (5, v4 2) ∷ (5, v4 1) ∷ (5, v4 1) ∷ (6, v4 1) ∷ []

served-fresh_example : served 5 (v4 1) (fresh 2) traffic ≡ min (requested 5 (v4 1) traffic) 2
served-fresh_example =
    served-fresh 2 5 (v4 1) traffic (omega arith)
      (omega arith, (omega arith, (omega arith, (omega arith, (omega arith, tt)))))

abbrev chunks : List (Option ℕ)
chunks = some 4 ∷ none ∷ some 5 ∷ []

receive_body_lem_example :
    receive_body 1 chunks (some 10)
    ≡ (if ltb 10 (1 + body_size chunks) then none else some (1 + body_size chunks))
receive_body_lem_example = receive_body_lem 1 10 chunks (omega arith) (omega arith)

abbrev location : CompiledMatcher → ℕ → CompiledLocation
location m id = route_to (direct_response 200) id m

abbrev starts_with_img : Text → Bool
starts_with_img t = ltb 2 (length t)

abbrev images : List CompiledLocation
images =
    location (prefix (codes "/")) 1
    ∷ location (prefer_prefix (codes "/images/")) 2
    ∷ location
        (regex
          (record { case_insensitive = false; pattern = codes "..."; regex = starts_with_img }))
        3
    ∷ location (exact (codes "/logo")) 4
    ∷ []

preferred_wins :
    select_route_target images (codes "/images/x.png")
    ≡ some (location (prefer_prefix (codes "/images/")) 2)
unfolding select_route_target scan_prefixes consider starts_with text_eq
preferred_wins = refl

select_route_target-best_of_example :
    select_route_target images (codes "/logo.png")
    ≡ location_of (best_of (codes "/logo.png") images)
select_route_target-best_of_example = select_route_target-best_of images (codes "/logo.png")

scores : hostname_score (codes "*.b.c") (codes "a.b.c") ≡ some (false, 4)
unfolding hostname_score text_eq strip_prefix starts_with ends_with
scores = refl

abbrev two_to_one : Backends
two_to_one = backend 2 (direct_response 200) (backend 1 (direct_response 201) no_backends)

requests-by_weight_example :
    Perm
      (requests (total_weight two_to_one) (some 4) two_to_one)
      (map picked (by_weight two_to_one))
unfolding total_weight
requests-by_weight_example = requests-by_weight 4 two_to_one (omega arith) (omega arith)
