-- ===== src/Routing/Location.antt =====
-- `select_route_target` of routing.rs.
pub mod Rank
pub mod Scan
pub mod Ranking
use ngxora.Base.{
  ℕ, Bool, true, false, ◌&&◌, List, [], ◌∷◌, Option, none, some, ◌⊎◌, inl, inr, ltb, if◌then◌else◌,
  length, Text, text_eq, starts_with,
}
use ngxora.Routing.Types.{
  CompiledRegex, CompiledMatcher, http, prefix, exact, regex, prefer_prefix, named,
  CompiledLocation,
}

-- A candidate with the length of its prefix.
abbrev pub Best : Type 0
Best = Option (CompiledLocation × ℕ)

-- `best.is_none_or(|(_, len)| p.len() > len)`
abbrev pub is_longer : ℕ → Best → Bool
is_longer len none = true
is_longer len (some (_, best)) = ltb best len

-- `best_prefix` and `best_prefer_prefix`
pub record Bests : Type 0 where
  pub plain : Best
  pub preferred : Best

-- The `match` of the first loop: the location to return at once, or the new candidates.
unfoldable pub consider :
    Text → CompiledLocation → Bests → CompiledMatcher → CompiledLocation ⊎ Bests
consider path location b (exact p) = if text_eq path p then inl location else inr b
consider path location b (prefix p) =
    if starts_with p path && is_longer (length p) b.plain
    then inr (record b { plain = some (location, length p) })
    else inr b
consider path location b (prefer_prefix p) =
    if starts_with p path && is_longer (length p) b.preferred
    then inr (record b { preferred = some (location, length p) })
    else inr b
consider path location b _ = inr b

unfoldable pub scan_prefixes : Text → List CompiledLocation → Bests → CompiledLocation ⊎ Bests
scan_prefixes path [] b = inr b
scan_prefixes path (location ∷ rest) b = elim (consider path location b location.matcher) [
  | inl found ↦ inl found
  | inr b' ↦ scan_prefixes path rest b'
]

abbrev pub regex_matches : Text → CompiledMatcher → Bool
regex_matches path (regex r) = r.regex path
regex_matches path _ = false

-- The second loop.
unfoldable pub first_regex : Text → List CompiledLocation → Option CompiledLocation
first_regex path [] = none
first_regex path (location ∷ rest) =
    if regex_matches path location.matcher then some location else first_regex path rest

-- What follows the first loop.
abbrev pub after_scan : Text → List CompiledLocation → Bests → Option CompiledLocation
after_scan path locations b = elim b.preferred [
  | some (location, _) ↦ some location
  | none ↦ elim (first_regex path locations) [
    | some location ↦ some location
    | none ↦ elim b.plain [ some (location, _) ↦ some location | none ↦ none ]
  ]
]

-- The early return of the first loop, or what follows it.
abbrev pub route_target :
    Text → List CompiledLocation → CompiledLocation ⊎ Bests → Option CompiledLocation
route_target path locations (inl location) = some location
route_target path locations (inr b) = after_scan path locations b

unfoldable pub select_route_target : List CompiledLocation → Text → Option CompiledLocation
select_route_target locations path =
    route_target path locations
      (scan_prefixes path locations (record { plain = none; preferred = none }))
