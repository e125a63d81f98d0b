-- ===== src/Routing/Location/Ranking.antt =====
-- The location that `select_route_target` gives is the first one of the highest rank.
use ngxora.Base.{
  ℕ, ◌≡◌, refl, sym, ◌∙◌, ap, arith, List, [], ◌∷◌, Option, none, some, inl, inr, if◌then◌else◌,
  length, Text, text_eq, starts_with, Bool-cases,
}
use ngxora.Routing.Types.{
  CompiledMatcher, http, prefix, exact, regex, prefer_prefix, named, CompiledLocation,
}
use ngxora.Routing.Location.{
  Best, regex_matches, first_regex, after_scan, route_target, select_route_target,
}
use ngxora.Routing.Location.Rank.{Ranked, best_of, better, location_of, rank}
use ngxora.Routing.Location.Scan.{
  exact_matches, first_exact, longer, longest, plain_of, preferred_of, scan_prefixes_lem, scanned,
}

-- The best of the four kinds.
abbrev best_kind : Option CompiledLocation → Best → Option CompiledLocation → Best → Ranked
best_kind (some l) f r p = some (l, record { class = 3; size = 0 })
best_kind none (some (l, n)) r p = some (l, record { class = 2; size = n })
best_kind none none (some l) p = some (l, record { class = 1; size = 0 })
best_kind none none none (some (l, n)) = some (l, record { class = 0; size = n })
best_kind none none none none = none

better_exact :
    (l : CompiledLocation) (e : Option CompiledLocation) (f : Best) (r : Option CompiledLocation)
    (p : Best)
    → better l (some (record { class = 3; size = 0 })) (best_kind e f r p)
      ≡ best_kind (some l) f r p
better_exact l (some x) f r p = refl
better_exact l none (some f) r p = refl
better_exact l none none (some r) p = refl
better_exact l none none none (some p) = refl
better_exact l none none none none = refl

better_preferred :
    (l : CompiledLocation) (n : ℕ) (e : Option CompiledLocation) (f : Best)
    (r : Option CompiledLocation) (p : Best)
    → better l (some (record { class = 2; size = n })) (best_kind e f r p)
      ≡ best_kind e (longer (some (l, n)) f) r p
better_preferred l n (some x) f r p = refl
better_preferred l n none (some (l', n')) r p = ground arith
better_preferred l n none none (some r) p = refl
better_preferred l n none none none (some p) = refl
better_preferred l n none none none none = refl

better_regex :
    (l : CompiledLocation) (e : Option CompiledLocation) (f : Best) (r : Option CompiledLocation)
    (p : Best)
    → better l (some (record { class = 1; size = 0 })) (best_kind e f r p)
      ≡ best_kind e f (some l) p
better_regex l (some x) f r p = refl
better_regex l none (some f) r p = refl
better_regex l none none (some r) p = refl
better_regex l none none none (some p) = refl
better_regex l none none none none = refl

better_plain :
    (l : CompiledLocation) (n : ℕ) (e : Option CompiledLocation) (f : Best)
    (r : Option CompiledLocation) (p : Best)
    → better l (some (record { class = 0; size = n })) (best_kind e f r p)
      ≡ best_kind e f r (longer (some (l, n)) p)
better_plain l n (some x) f r p = refl
better_plain l n none (some f) r p = refl
better_plain l n none none (some r) p = refl
better_plain l n none none none (some (l', n')) = ground arith
better_plain l n none none none none = refl

-- What one location adds to the four searches.
better_kind :
    (path : Text) (l : CompiledLocation) (m : CompiledMatcher) (e : Option CompiledLocation)
    (f : Best) (r : Option CompiledLocation) (p : Best)
    → better l (rank path m) (best_kind e f r p)
      ≡ best_kind
          (if exact_matches path m then some l else e)
          (longer (preferred_of path l m) f)
          (if regex_matches path m then some l else r)
          (longer (plain_of path l m) p)
unfolding rank
better_kind path l (exact t) e f r p = elim (Bool-cases (text_eq path t)) [
  | inl q ↦ rw q (better_exact l e f r p)
  | inr q ↦ rw q
]
better_kind path l (prefer_prefix t) e f r p = elim (Bool-cases (starts_with t path)) [
  | inl q ↦ rw q (better_preferred l (length t) e f r p)
  | inr q ↦ rw q
]
better_kind path l (regex t) e f r p = elim (Bool-cases (t.regex path)) [
  | inl q ↦ rw q (better_regex l e f r p)
  | inr q ↦ rw q
]
better_kind path l (prefix t) e f r p = elim (Bool-cases (starts_with t path)) [
  | inl q ↦ rw q (better_plain l (length t) e f r p)
  | inr q ↦ rw q
]
better_kind path l (http h) e f r p = refl
better_kind path l (named h) e f r p = refl

abbrev kinds : Text → List CompiledLocation → Ranked
kinds path ls =
    best_kind (first_exact path ls) (longest (preferred_of path) ls) (first_regex path ls)
      (longest (plain_of path) ls)

best_of-kinds : (path : Text) (ls : List CompiledLocation) → best_of path ls ≡ kinds path ls
unfolding best_of first_exact longest first_regex
best_of-kinds path [] = refl
best_of-kinds path (l ∷ ls) = rw (best_of-kinds path ls) (
    better_kind path l l.matcher (first_exact path ls) (longest (preferred_of path) ls)
      (first_regex path ls) (longest (plain_of path) ls))

after_kinds :
    (path : Text) (all : List CompiledLocation) (f p : Best) (r : Option CompiledLocation)
    → first_regex path all ≡ r
    → after_scan path all (record { plain = p; preferred = f }) ≡ location_of (best_kind none f r p)
after_kinds path all (some (l, n)) p r h = refl
after_kinds path all none p (some l) h = rw (h, after_scan) refl
after_kinds path all none (some (l, n)) none h = rw (h, after_scan) refl
after_kinds path all none none none h = rw (h, after_scan) refl

-- The location that the two loops select is the first one of the highest rank, where an exact match
-- ranks above the longest `^~` prefix, that above a regex, and that above the longest prefix, and
-- there is none if no location has a rank.
pub select_route_target-best_of :
    (locations : List CompiledLocation) (path : Text)
    → select_route_target locations path ≡ location_of (best_of path locations)
unfolding select_route_target
select_route_target-best_of ls path =
    ap (route_target path ls)
      (scan_prefixes_lem path ls (record { plain = none; preferred = none }))
    ∙ by_exact (first_exact path ls)
    ∙ sym (ap location_of (best_of-kinds path ls))
  where
    by_exact :
        (e : Option CompiledLocation)
        → route_target path ls (scanned path ls (record { plain = none; preferred = none }) e)
          ≡ location_of (
              best_kind e
                (longest (preferred_of path) ls)
                (first_regex path ls)
                (longest (plain_of path) ls))
    by_exact (some l) = refl
    by_exact none =
        after_kinds path ls (longest (preferred_of path) ls) (longest (plain_of path) ls)
          (first_regex path ls) refl
