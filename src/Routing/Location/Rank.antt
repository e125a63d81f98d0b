-- ===== src/Routing/Location/Rank.antt =====
-- The ranks of locations for a path, and the first location of the highest rank.
use ngxora.Base.{
  ℕ, Bool, ◌&&◌, ◌||◌, List, [], ◌∷◌, Option, none, some, ltb, ◌==◌, if◌then◌else◌, length, Text,
  text_eq, starts_with,
}
use ngxora.Routing.Types.{CompiledMatcher, prefix, exact, regex, prefer_prefix, CompiledLocation}

-- exact > longest `^~` prefix > regex > longest plain prefix; a location that does not match the
-- path has no rank.
pub record Rank : Type 0 where
  pub class : ℕ
  pub size : ℕ

unfoldable pub rank : Text → CompiledMatcher → Option Rank
rank path (exact p) = if text_eq path p then some (record { class = 3; size = 0 }) else none
rank path (prefer_prefix p) =
    if starts_with p path then some (record { class = 2; size = length p }) else none
rank path (regex r) = if r.regex path then some (record { class = 1; size = 0 }) else none
rank path (prefix p) =
    if starts_with p path then some (record { class = 0; size = length p }) else none
rank path _ = none

-- The first rank is the higher one.
abbrev pub outranks : Rank → Rank → Bool
outranks a b = ltb b.class a.class || (a.class == b.class && ltb b.size a.size)

abbrev pub Ranked : Type 0
Ranked = Option (CompiledLocation × Rank)

-- The better of a location and the best of those behind it; the first wins a tie.
abbrev pub better : CompiledLocation → Option Rank → Ranked → Ranked
better l none best = best
better l (some r) none = some (l, r)
better l (some r) (some (l', r')) = if outranks r' r then some (l', r') else some (l, r)

unfoldable pub best_of : Text → List CompiledLocation → Ranked
best_of path [] = none
best_of path (l ∷ ls) = better l (rank path l.matcher) (best_of path ls)

abbrev pub location_of : Ranked → Option CompiledLocation
location_of none = none
location_of (some (l, r)) = some l
