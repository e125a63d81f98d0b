-- ===== src/Routing/Rewrite/Prefix.antt =====
-- What a rewritten prefix keeps of a path.
use ngxora.Base.{
  ℕ, ◌≡◌, ◌⊎◌, inl, inr, refl, sym, ◌∙◌, ap, true, [], ◌∷◌, ◌++◌, some, Text, strip_prefix_iff,
  trim_end_matches,
}
use ngxora.Outcome.{success, ◌>>=◌}
use ngxora.Routing.Types.{replace_prefix_match}
use ngxora.Routing.Http.{slash, prefix_matches}
use ngxora.Routing.Http.Matching.{prefix_matches_iff}
use ngxora.Routing.Rewrite.{joined, or_slash, rewrite_path}

rewrite_path_suffix :
    (prefix path suffix replacement : Text)
    → path ≡ trim_end_matches slash prefix ++ suffix
    → rewrite_path path (some (replace_prefix_match replacement)) (some prefix)
      ≡ success (or_slash (joined replacement suffix))
unfolding rewrite_path
rewrite_path_suffix prefix path suffix replacement e =
    rw ((strip_prefix_iff (trim_end_matches slash prefix) path suffix).1 e) refl

append_nil : (t : Text) → t ++ [] ≡ t
append_nil [] = refl
append_nil (c ∷ t) = ap (λ r. c ∷ r) (append_nil t)

or_slash_solid : (t : Text) (c : ℕ) (rest : Text) → or_slash (t ++ (c ∷ rest)) ≡ t ++ (c ∷ rest)
or_slash_solid [] c rest = refl
or_slash_solid (d ∷ t) c rest = refl

rewrite_path_moves :
    (prefix path tail replacement : Text)
    → path ≡ trim_end_matches slash prefix ++ (slash ∷ tail)
    → rewrite_path path (some (replace_prefix_match replacement)) (some prefix)
      ≡ success (trim_end_matches slash replacement ++ (slash ∷ tail))
rewrite_path_moves prefix path tail replacement e =
    rewrite_path_suffix prefix path (slash ∷ tail) replacement e
    ∙ ap success (or_slash_solid (trim_end_matches slash replacement) slash tail)

-- Where a prefix matches a path, the rewrite of the prefix succeeds: where the path is the prefix
-- without its slashes at the end, it gives the replacement, as `/` where that is empty; else the path
-- is the prefix without these slashes, a slash and a rest, and the result is the replacement without
-- its slashes at the end, the slash and the same rest.
pub rewrite_path-prefix_matches :
    (prefix path replacement : Text)
    → prefix_matches prefix path ≡ true
    → ((path ≡ trim_end_matches slash prefix)
        × (rewrite_path path (some (replace_prefix_match replacement)) (some prefix)
            ≡ success (or_slash replacement)))
      ⊎ ((tail : Text) × (path ≡ trim_end_matches slash prefix ++ (slash ∷ tail))
          × (rewrite_path path (some (replace_prefix_match replacement)) (some prefix)
              ≡ success (trim_end_matches slash replacement ++ (slash ∷ tail))))
rewrite_path-prefix_matches prefix path replacement h =
    elim ((prefix_matches_iff prefix path).0 h) [
      | inl e ↦ inl (
        e,
        rewrite_path_suffix prefix path [] replacement
            (e ∙ sym (append_nil (trim_end_matches slash prefix))),
      )
      | inr (tail, e) ↦ inr (tail, e, rewrite_path_moves prefix path tail replacement e)
    ]

-- The rewrite of a prefix `a` to `b` of a path that goes on behind `a` with a slash, followed by the
-- rewrite of `b` to `a`, gives the path.
pub rewrite_path-rewrite_path :
    (a b path tail : Text)
    → path ≡ trim_end_matches slash a ++ (slash ∷ tail)
    → (rewrite_path path (some (replace_prefix_match b)) (some a) >>= λ path'.
        rewrite_path path' (some (replace_prefix_match a)) (some b))
      ≡ success path
rewrite_path-rewrite_path a b path tail e = rw (rewrite_path_moves a path tail b e) (
    rewrite_path_moves b (trim_end_matches slash b ++ (slash ∷ tail)) tail a refl
    ∙ ap success (sym e))
