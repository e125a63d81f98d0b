-- ===== src/Routing/Hostname.antt =====
-- `hostname_score` of http_routes.rs and `select_server_routes` of routing.rs.
use ngxora.Base.{
  ℕ, ◌≡◌, refl, sym, ◌∙◌, ap, arith, Bool, true, false, ◌&&◌, List, [], ◌∷◌, ◌++◌, Option, none,
  some, inl, inr, ltb, if◌then◌else◌, length, length-append, Text, text_eq, text_eq_iff,
  starts_with, ends_with, ends_with_iff, strip_prefix, strip_prefix_iff, Bool-cases, Option-cases,
}
use ngxora.Routing.Types.{ServerRoutes, VirtualHostRoutes}

-- A score is an exact match or not, with the length of what matched.
abbrev pub Score : Type 0
Score = Bool × ℕ

abbrev pub wildcard_score : Text → Text → Option Score
wildcard_score host suffix =
    if starts_with (b'.' ∷ []) suffix && ltb (length suffix) (length host) && ends_with suffix host
    then some (false, length suffix)
    else none

unfoldable pub hostname_score : Text → Text → Option Score
hostname_score pattern host =
    if text_eq pattern host
    then some (true, length pattern)
    else elim (strip_prefix (b'*' ∷ []) pattern) [
      | some suffix ↦ wildcard_score host suffix
      | none ↦ none
    ]

-- The order of the pairs.
abbrev pub score_lt : Score → Score → Bool
score_lt (false, a) (true, b) = true
score_lt (true, a) (false, b) = false
score_lt (_, a) (_, b) = ltb a b

-- `max_by_key`: the last of the greatest.
unfoldable pub max_by_score : List (Score × ServerRoutes) → Option (Score × ServerRoutes)
max_by_score [] = none
max_by_score ((s, routes) ∷ rest) = elim (max_by_score rest) [
  | none ↦ some (s, routes)
  | some (s', routes') ↦ if score_lt s' s then some (s, routes) else some (s', routes')
]

unfoldable pub scored : Text → List (Text × ServerRoutes) → List (Score × ServerRoutes)
scored host [] = []
scored host ((name, routes) ∷ rest) = elim (hostname_score name host) [
  | some score ↦ (score, routes) ∷ scored host rest
  | none ↦ scored host rest
]

unfoldable pub select_server_routes : VirtualHostRoutes → Option Text → Option ServerRoutes
select_server_routes vhosts none = vhosts.default
select_server_routes vhosts (some host) = elim (max_by_score (scored host vhosts.named)) [
  | some (_, routes) ↦ some routes
  | none ↦ vhosts.default
]

-- What a score says of its pattern.
abbrev pub Scored : Text → Text → Score → Type 0
Scored pattern host (true, n) = (pattern ≡ host) × (length pattern ≡ n)
Scored pattern host (false, n) =
    (suffix : Text) × (front : Text) × ((pattern ≡ b'*' ∷ suffix)
      × ((host ≡ front ++ suffix) × (length suffix ≡ n)))

wildcard_score-Scored :
    (host suffix : Text) (s : Score)
    → wildcard_score host suffix ≡ some s
    → Scored (b'*' ∷ suffix) host s
wildcard_score-Scored host suffix (true, n) h = ground arith
wildcard_score-Scored host suffix (false, n) h =
    let (front, e) = (ends_with_iff suffix host).0 (ground arith) in
    (suffix, front, (refl, (e, ground arith)))

hostname_score-Scored :
    (pattern host : Text) (s : Score) → hostname_score pattern host ≡ some s → Scored pattern host s
unfolding hostname_score
hostname_score-Scored p h s e = elim (Bool-cases (text_eq p h)) [
  | inl q ↦ exact s ((text_eq_iff p h).0 q) (sym (rw q) ∙ e)
  | inr q ↦ elim (Option-cases (strip_prefix (b'*' ∷ []) p)) [
    | inl z ↦ no_score (sym (rw (q, z, hostname_score)) ∙ e)
    | inr (suffix, z) ↦
        rw ((strip_prefix_iff (b'*' ∷ []) p suffix).0 z)
          (wildcard_score-Scored h suffix s (sym (rw (q, z, hostname_score)) ∙ e))
  ]
]
  where
    exact : (s : Score) → p ≡ h → some (true, length p) ≡ some s → Scored p h s
    exact (true, n) e f = (e, ground arith)
    exact (false, n) e f = ground arith

    no_score : none ≡ some s → Scored p h s
    no_score f = cc

suffix_inj : (f g s t : Text) → f ++ s ≡ g ++ t → length s ≡ length t → s ≡ t
suffix_inj [] [] s t e h = e
suffix_inj [] (y ∷ g) s t e h =
    let k : length s ≡ length (y ∷ (g ++ t)) = ap length e in
    absurd (omega (arith, h, k, length-append g t))
suffix_inj (x ∷ f) [] s t e h =
    let k : length (x ∷ (f ++ s)) ≡ length t = ap length e in
    absurd (omega (arith, h, k, length-append f s))
suffix_inj (x ∷ f) (y ∷ g) s t e h = suffix_inj f g s t (cc) h

-- Two names of virtual servers that have the same score for a host are the same name.
pub hostname_score-inj :
    (p q host : Text) (score : Score)
    → hostname_score p host ≡ some score
    → hostname_score q host ≡ some score
    → p ≡ q
hostname_score-inj p q host score h k =
    go score (hostname_score-Scored p host score h) (hostname_score-Scored q host score k)
  where
    go : (s : Score) → Scored p host s → Scored q host s → p ≡ q
    go (true, n) a b = a.0 ∙ sym b.0
    go (false, n) (s, f, (e, (d, l))) (t, g, (e', (d', l'))) =
        e ∙ ap (λ r. b'*' ∷ r) (suffix_inj f g s t (sym d ∙ d') (l ∙ sym l')) ∙ sym e'
