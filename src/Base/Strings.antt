-- ===== src/Base/Strings.antt =====
-- Texts as lists of code points or bytes, with the string tests of Rust's `str`.
use Prim.Native.Nat.{ℕ, ◌+◌}
use Prim.Native.Char.{code}
use Prim.Native.String.{String}
use mathlib.Core.Path.{◌≡◌, refl, sym, ap, ◌∙◌}
use mathlib.Core.Logic.{◌↔◌}
use mathlib.Core.Bool.{Bool, true, false, ◌&&◌, ◌||◌}
use mathlib.Core.List.{List, [], ◌∷◌, ◌++◌, map, reverse, reverse-reverse, reverse-append}
use mathlib.Core.Option.{Option, none, some}
use native.Mathlib.Omega.{arith}
use package.ngxora.Base.Tests.{◌==◌, if◌then◌else◌, leb}

abbrev pub Text : Type 0
Text = List ℕ

abbrev pub codes : String → Text
codes String.[] = []
codes (String.◌∷◌ c s) = code c ∷ codes s

unfoldable pub text_eq : Text → Text → Bool
text_eq [] [] = true
text_eq (x ∷ xs) (y ∷ ys) = x == y && text_eq xs ys
text_eq _ _ = false

pub text_eq_iff : (a b : Text) → (text_eq a b ≡ true) ↔ (a ≡ b)
unfolding text_eq
text_eq_iff (x ∷ a) (y ∷ b) = ground (arith, text_eq_iff a b)
text_eq_iff _ _ = ground arith

pub text_eq_refl : (a : Text) → text_eq a a ≡ true
text_eq_refl a = (text_eq_iff a a).1 refl

-- `str::strip_prefix`
unfoldable pub strip_prefix : Text → Text → Option Text
strip_prefix [] ys = some ys
strip_prefix (x ∷ xs) [] = none
strip_prefix (x ∷ xs) (y ∷ ys) = elim (x == y) [ true ↦ strip_prefix xs ys | false ↦ none ]

-- `str::starts_with`: the second text begins with the first.
unfoldable pub starts_with : Text → Text → Bool
starts_with [] ys = true
starts_with (x ∷ xs) [] = false
starts_with (x ∷ xs) (y ∷ ys) = x == y && starts_with xs ys

-- `str::ends_with`: the second text ends with the first.
unfoldable pub ends_with : Text → Text → Bool
unfolding starts_with
ends_with xs ys = starts_with (reverse xs) (reverse ys)

-- `u8::to_ascii_lowercase`
abbrev pub lower : ℕ → ℕ
lower c = if leb b'A' c && leb c b'Z' then c + 32 else c

abbrev pub to_ascii_lowercase : Text → Text
to_ascii_lowercase = map lower

abbrev pub eq_ignore_ascii_case : Text → Text → Bool
eq_ignore_ascii_case a b = text_eq (to_ascii_lowercase a) (to_ascii_lowercase b)

pub starts_with_iff :
    (xs ys : Text) → (starts_with xs ys ≡ true) ↔ ((rest : Text) × (ys ≡ xs ++ rest))
unfolding starts_with
starts_with_iff [] ys = (λ h. (ys, refl), λ h. refl)
starts_with_iff (x ∷ xs) [] = (λ h. (cc), λ h. (cc))
starts_with_iff (x ∷ xs) (y ∷ ys) = (
  λ h. let (rest, e) = (starts_with_iff xs ys).0 (ground arith) in (rest, ground arith),
  λ h. ground (arith, (starts_with_iff xs ys).1 (h.0, ground arith)),
)

pub strip_prefix_iff : (xs ys rest : Text) → (strip_prefix xs ys ≡ some rest) ↔ (ys ≡ xs ++ rest)
unfolding strip_prefix
strip_prefix_iff [] ys rest = (λ h. (cc), λ h. (cc))
strip_prefix_iff (x ∷ xs) [] rest = (λ h. (cc), λ h. (cc))
strip_prefix_iff (x ∷ xs) (y ∷ ys) rest = ground (arith, strip_prefix_iff xs ys rest)

pub ends_with_iff :
    (xs ys : Text) → (ends_with xs ys ≡ true) ↔ ((front : Text) × (ys ≡ front ++ xs))
unfolding ends_with
ends_with_iff xs ys = (
  λ h.
      let (rest, e) = (starts_with_iff (reverse xs) (reverse ys)).0 h in
      (
        reverse rest,
        sym (reverse-reverse ys)
            ∙ ap reverse e
            ∙ reverse-append (reverse xs) rest
            ∙ ap (λ (t : Text). reverse rest ++ t) (reverse-reverse xs),
      ),
  λ h.
      (starts_with_iff (reverse xs) (reverse ys)).1
        (reverse h.0, ap reverse h.1 ∙ reverse-append h.0 xs),
)

-- `str::trim_end_matches` of a character
unfoldable pub trim_end_matches : ℕ → Text → Text
trim_end_matches c [] = []
trim_end_matches c (x ∷ xs) = elim (trim_end_matches c xs) [
  | [] ↦ if x == c then [] else x ∷ []
  | y ∷ ys ↦ x ∷ (y ∷ ys)
]

-- `str::contains` of a character
abbrev pub contains_char : ℕ → Text → Bool
contains_char c [] = false
contains_char c (x ∷ xs) = x == c || contains_char c xs
