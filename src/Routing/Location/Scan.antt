-- ===== src/Routing/Location/Scan.antt =====
-- The loops over the locations as searches for one kind of match each.
use ngxora.Base.{
  ℕ, ◌≡◌, refl, ◌∙◌, arith, Bool, false, List, [], ◌∷◌, Option, none, some, ◌⊎◌, inl, inr, ltb,
  if◌then◌else◌, length, Text, text_eq, starts_with, Bool-cases,
}
use ngxora.Routing.Types.{CompiledMatcher, prefix, exact, prefer_prefix, CompiledLocation}
use ngxora.Routing.Location.{Best, is_longer, Bests, consider, scan_prefixes}

-- The longer of two candidates; the first wins a tie.
abbrev pub longer : Best → Best → Best
longer none b = b
longer (some a) none = some a
longer (some (l, n)) (some (l', n')) = if ltb n n' then some (l', n') else some (l, n)

pub longer_assoc : (a b c : Best) → longer (longer a b) c ≡ longer a (longer b c)
longer_assoc none b c = refl
longer_assoc (some (l, n)) none c = refl
longer_assoc (some (l, n)) (some (l', n')) none = ground arith
longer_assoc (some (l, n)) (some (l', n')) (some (l'', n'')) = ground arith

pub longer_step :
    (acc : Best) (l : CompiledLocation) (n : ℕ)
    → (if is_longer n acc then some (l, n) else acc) ≡ longer acc (some (l, n))
longer_step none l n = refl
longer_step (some (l', n')) l n = refl

pub longer-none : (a : Best) → longer a none ≡ a
longer-none none = refl
longer-none (some a) = refl

-- The four kinds of match, each as a search of its own.
abbrev pub exact_matches : Text → CompiledMatcher → Bool
exact_matches path (exact p) = text_eq path p
exact_matches path _ = false

abbrev pub plain_of : Text → CompiledLocation → CompiledMatcher → Best
plain_of path l (prefix p) = if starts_with p path then some (l, length p) else none
plain_of path l _ = none

abbrev pub preferred_of : Text → CompiledLocation → CompiledMatcher → Best
preferred_of path l (prefer_prefix p) = if starts_with p path then some (l, length p) else none
preferred_of path l _ = none

unfoldable pub first_exact : Text → List CompiledLocation → Option CompiledLocation
first_exact path [] = none
first_exact path (l ∷ ls) = if exact_matches path l.matcher then some l else first_exact path ls

unfoldable pub longest : (CompiledLocation → CompiledMatcher → Best) → List CompiledLocation → Best
longest of [] = none
longest of (l ∷ ls) = longer (of l l.matcher) (longest of ls)

-- The outcome of the first loop.
abbrev pub scanned :
    Text → List CompiledLocation → Bests → Option CompiledLocation → CompiledLocation ⊎ Bests
scanned path ls b (some l) = inl l
scanned path ls b none = inr (record {
  plain = longer b.plain (longest (plain_of path) ls);
  preferred = longer b.preferred (longest (preferred_of path) ls);
})

pub consider_lem :
    (path : Text) (l : CompiledLocation) (b : Bests) (m : CompiledMatcher)
    → consider path l b m ≡ (
        if exact_matches path m
        then inl l
        else inr (record {
          plain = longer b.plain (plain_of path l m);
          preferred = longer b.preferred (preferred_of path l m);
        }))
unfolding consider
consider_lem path l b (exact p) = elim (Bool-cases (text_eq path p)) [
  | inl q ↦ rw q
  | inr q ↦ rw (q, longer-none b.plain, longer-none b.preferred)
]
consider_lem path l b (prefix p) = elim (Bool-cases (starts_with p path)) [
  | inl q ↦
      rw (q, longer-none b.preferred)
        (rw (← longer_step b.plain l (length p))
          (elim (Bool-cases (is_longer (length p) b.plain)) [ inl t ↦ rw t | inr t ↦ rw t ]))
  | inr q ↦ rw (q, longer-none b.plain, longer-none b.preferred)
]
consider_lem path l b (prefer_prefix p) = elim (Bool-cases (starts_with p path)) [
  | inl q ↦
      rw (q, longer-none b.plain)
        (rw (← longer_step b.preferred l (length p))
          (elim (Bool-cases (is_longer (length p) b.preferred)) [ inl t ↦ rw t | inr t ↦ rw t ]))
  | inr q ↦ rw (q, longer-none b.plain, longer-none b.preferred)
]
consider_lem path l b _ = rw (longer-none b.plain, longer-none b.preferred)

pub scanned_assoc :
    (path : Text) (l : CompiledLocation) (ls : List CompiledLocation) (b : Bests)
    (e : Option CompiledLocation)
    → scanned path ls
        (record {
          plain = longer b.plain (plain_of path l l.matcher);
          preferred = longer b.preferred (preferred_of path l l.matcher);
        })
        e
      ≡ scanned path (l ∷ ls) b e
unfolding longest
scanned_assoc path l ls b (some x) = refl
scanned_assoc path l ls b none = rw (
  longer_assoc b.plain (plain_of path l l.matcher) (longest (plain_of path) ls),
  longer_assoc b.preferred (preferred_of path l l.matcher) (longest (preferred_of path) ls),
)

pub scan_prefixes_lem :
    (path : Text) (ls : List CompiledLocation) (b : Bests)
    → scan_prefixes path ls b ≡ scanned path ls b (first_exact path ls)
unfolding scan_prefixes first_exact longest
scan_prefixes_lem path [] b = rw (longer-none b.plain, longer-none b.preferred)
scan_prefixes_lem path (l ∷ ls) b = elim (Bool-cases (exact_matches path l.matcher)) [
  | inl q ↦
      let e : consider path l b l.matcher ≡ inl l = consider_lem path l b l.matcher ∙ rw q in
      rw (e, scan_prefixes) (rw q)
  | inr q ↦
      let b' : Bests = record {
        plain = longer b.plain (plain_of path l l.matcher);
        preferred = longer b.preferred (preferred_of path l l.matcher);
      } in
      let e : consider path l b l.matcher ≡ inr b' = consider_lem path l b l.matcher ∙ rw q in
      rw (e, scan_prefixes)
        (scan_prefixes_lem path ls b' ∙ scanned_assoc path l ls b (first_exact path ls) ∙ rw q)
]
