-- ===== src/Upstreams/Compile/Spelling.antt =====
-- The names by which upstream groups are found: compile/upstream_groups.rs normalises them, the profiles
-- of scp/request.rs do not.
use ngxora.Base.{
  ℕ, ◌==◌, ◌≡◌, ◌≢◌, refl, sym, ◌∙◌, ap, subst, arith, List, [], ◌∷◌, none, some, Text, text_has_eq,
  lookup, trim_end_matches, lower, to_ascii_lowercase, Option-cases, Bool-cases, inl, inr, ◌⊎◌,
  Entries-lookup,
}
use ngxora.Outcome.{success, failure}
use ngxora.Compile.Ir.Upstream.{UpstreamBlock}
use ngxora.Upstreams.{CompiledUpstreamGroup}
use ngxora.Upstreams.Crates.{Crates}
use ngxora.Upstreams.Scp.{unknown_discovery, Combination, check_discoveries}
use ngxora.Upstreams.Compile.Groups.{normalize_upstream_name, compile_upstreams}
use ngxora.Upstreams.Compile.Naming.{compile_upstreams-AreNamed}
use ngxora.Upstreams.Compile.Targets.{Groups}

List-cases {ℓ} : {A : Type ℓ} (xs : List A) → (xs ≡ []) ⊎ ((x : A) × (ys : List A) × (xs ≡ x ∷ ys))
List-cases [] = inl refl
List-cases (x ∷ xs) = inr (x, xs, refl)

lower_dot : (c : ℕ) → (lower c == b'.') ≡ (c == b'.')
lower_dot c = ground arith

lower-lower : (c : ℕ) → lower (lower c) ≡ lower c
lower-lower c = ground arith

lowercase-lowercase : (t : Text) → to_ascii_lowercase (to_ascii_lowercase t) ≡ to_ascii_lowercase t
lowercase-lowercase [] = refl
lowercase-lowercase (c ∷ t) = rw (lower-lower c, lowercase-lowercase t) refl

trim-lowercase :
    (t : Text)
    → trim_end_matches b'.' (to_ascii_lowercase t) ≡ to_ascii_lowercase (trim_end_matches b'.' t)
unfolding trim_end_matches
trim-lowercase [] = refl
trim-lowercase (c ∷ t) = elim (List-cases (trim_end_matches b'.' t)) [
  | inl e ↦
      let ih = trim-lowercase t ∙ ap to_ascii_lowercase e in
      elim (Bool-cases (c == b'.')) [
        | inl q ↦ rw (ih, e, lower_dot c, q) refl
        | inr q ↦ rw (ih, e, lower_dot c, q) refl
      ]
  | inr (d, ds, e) ↦ let ih = trim-lowercase t ∙ ap to_ascii_lowercase e in rw (ih, e) refl
]

trim-cons :
    (c : ℕ) (t : Text) (d : ℕ) (ds : Text)
    → trim_end_matches b'.' t ≡ d ∷ ds
    → trim_end_matches b'.' (c ∷ t) ≡ c ∷ (d ∷ ds)
unfolding trim_end_matches
trim-cons c t d ds e = rw e refl

trim-trim : (t : Text) → trim_end_matches b'.' (trim_end_matches b'.' t) ≡ trim_end_matches b'.' t
unfolding trim_end_matches
trim-trim [] = refl
trim-trim (c ∷ t) = elim (List-cases (trim_end_matches b'.' t)) [
  | inl e ↦ elim (Bool-cases (c == b'.')) [ inl q ↦ rw (e, q) refl | inr q ↦ rw (e, q) (rw q refl) ]
  | inr (d, ds, e) ↦
      let ih : trim_end_matches b'.' (d ∷ ds) ≡ d ∷ ds =
        subst (λ (u : Text). trim_end_matches b'.' u ≡ u) e (trim-trim t) in
      rw e (trim-cons c (d ∷ ds) d ds ih)
]

normalize-normalize :
    (name : Text)
    → normalize_upstream_name (normalize_upstream_name name) ≡ normalize_upstream_name name
unfolding normalize_upstream_name
normalize-normalize name =
    ap to_ascii_lowercase
      (trim-lowercase (trim_end_matches b'.' name) ∙ ap to_ascii_lowercase (trim-trim name))
    ∙ lowercase-lowercase (trim_end_matches b'.' name)

module _ (crates : Crates) where
  lookup-unnormalized :
      (upstreams : List UpstreamBlock) (m : Groups) (name : Text)
      → compile_upstreams crates upstreams ≡ success m
      → normalize_upstream_name name ≢ name
      → lookup name m ≡ none
  lookup-unnormalized upstreams m name h other = elim (Option-cases (lookup name m)) [
    | inl e ↦ e
    | inr (group, e) ↦
        let same = Entries-lookup _ m name (compile_upstreams-AreNamed crates upstreams h) e in
        absurd
          (other (ap normalize_upstream_name same ∙ (normalize-normalize group.name ∙ sym same)))
  ]

  -- A compiled upstream group whose name has an upper-case letter or a dot at its end, so that the
  -- normalised name is another, is found by the normalised name, as routes look it up, but an SCP profile
  -- that names it as a discovery upstream by its own name is refused as one that names an unknown group.
  pub check_discoveries-unnormalized :
      (upstreams : List UpstreamBlock) (m : Groups) (key : Text) (group : CompiledUpstreamGroup)
      (names : List Text) (seen : List Combination)
      → compile_upstreams crates upstreams ≡ success m
      → lookup key m ≡ some group
      → normalize_upstream_name group.name ≢ group.name
      → (lookup (normalize_upstream_name group.name) m ≡ some group)
        × (check_discoveries m (group.name ∷ names) seen ≡ failure (unknown_discovery group.name))
  unfolding check_discoveries
  check_discoveries-unnormalized upstreams m key group names seen h e other =
      let same : key ≡ normalize_upstream_name group.name =
        Entries-lookup _ m key (compile_upstreams-AreNamed crates upstreams h) e in
      (
        rw (← same) e,
        rw (lookup-unnormalized upstreams m group.name h other, check_discoveries) refl,
      )
