-- ===== src/Routing/Http/Matching.antt =====
-- Which paths a prefix matches.
use ngxora.Base.{
  ◌≡◌, ◌↔◌, ◌⊎◌, inl, inr, refl, ◌∙◌, ap, true, [], ◌∷◌, ◌++◌, Text, text_eq, text_eq_iff,
  starts_with, starts_with_iff, strip_prefix, strip_prefix_iff, trim_end_matches, Bool-cases,
  Option-cases,
}
use ngxora.Routing.Http.{slash, prefix_matches}

-- A path lies under a prefix.
abbrev pub IsUnder : Text → Text → Type 0
IsUnder trimmed path = (path ≡ trimmed) ⊎ ((tail : Text) × (path ≡ trimmed ++ (slash ∷ tail)))

starts_with_slash :
    (tail : Text) → starts_with (slash ∷ []) tail ≡ true → (rest : Text) × (tail ≡ slash ∷ rest)
starts_with_slash tail h = (starts_with_iff (slash ∷ []) tail).0 h

-- A prefix matches exactly the path that it is, without its slashes at the end, and the paths that
-- continue this one behind a slash: `/api` matches `/api` and `/api/v1`, and never `/apiary`.
pub prefix_matches_iff :
    (prefix path : Text)
    → (prefix_matches prefix path ≡ true) ↔ IsUnder (trim_end_matches slash prefix) path
unfolding prefix_matches
prefix_matches_iff prefix path = (
  λ h. elim (Bool-cases (text_eq path t)) [
    | inl q ↦ inl ((text_eq_iff path t).0 q)
    | inr q ↦ elim (Option-cases (strip_prefix t path)) [
      | inl z ↦ let k = rw (q, z) at h in cc
      | inr (tail, z) ↦
          let (rest, e) = starts_with_slash tail (rw (q, z) at h) in
          inr (rest, (strip_prefix_iff t path tail).0 z ∙ ap (λ r. t ++ r) e)
    ]
  ],
  λ u. elim u [
    | inl e ↦ rw ((text_eq_iff path t).1 e) refl
    | inr (tail, e) ↦ elim (Bool-cases (text_eq path t)) [
      | inl q ↦ rw q refl
      | inr q ↦
          rw (q, (strip_prefix_iff t path (slash ∷ tail)).1 e)
            ((starts_with_iff (slash ∷ []) (slash ∷ tail)).1 (tail, refl))
    ]
  ],
)
  where
    t : Text
    t = trim_end_matches slash prefix
