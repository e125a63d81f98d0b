-- ===== src/Routing/Resolve/Best.antt =====
-- The best HTTP match among the locations of a virtual server.
use ngxora.Base.{
  ◌≡◌, ◌⊎◌, inl, inr, refl, sym, ◌∙◌, subst, arith, true, false, List, [], ◌∷◌, Option, none, some,
  if◌then◌else◌, All, Holds, here, there, Bool-cases, Option-cases,
}
use ngxora.Routing.Types.{CompiledLocation}
use ngxora.Routing.Http.{RequestHeader, MatchScore, match_score_lt}
use ngxora.Routing.Resolve.{http_score, improves, best_location}

match_score_lt_asym : (a b : MatchScore) → match_score_lt a b ≡ true → match_score_lt b a ≡ false
match_score_lt_asym [] [] h = cc
match_score_lt_asym [] (y ∷ b) h = refl
match_score_lt_asym (x ∷ a) [] h = cc
match_score_lt_asym (x ∷ a) (y ∷ b) h = ground (arith, match_score_lt_asym a b)

match_score_lt_cotrans :
    (a b c : MatchScore)
    → match_score_lt a c ≡ true
    → (match_score_lt a b ≡ true) ⊎ (match_score_lt b c ≡ true)
match_score_lt_cotrans a b [] h = cc
match_score_lt_cotrans a [] (z ∷ c) h = inr refl
match_score_lt_cotrans [] (y ∷ b) (z ∷ c) h = inl refl
match_score_lt_cotrans (x ∷ a) (y ∷ b) (z ∷ c) h = ground (arith, match_score_lt_cotrans a b c)

-- No location of the list has a greater score.
abbrev pub IsBeaten : RequestHeader → MatchScore → CompiledLocation → Type 0
IsBeaten request score l =
    (s : MatchScore) → http_score request l.matcher ≡ some s → match_score_lt score s ≡ false

abbrev pub Matches : RequestHeader → CompiledLocation → MatchScore → Type 0
Matches request l s = http_score request l.matcher ≡ some s

not_below :
    (s p t : MatchScore)
    → match_score_lt s t ≡ false
    → match_score_lt p t ≡ true
    → match_score_lt s p ≡ false
not_below s p t h k = elim (Bool-cases (match_score_lt s p)) [
  | inr q ↦ q
  | inl q ↦ elim (match_score_lt_cotrans s t p q) [
    | inl a ↦ (cc)
    | inr b ↦ let c = match_score_lt_asym t p b in cc
  ]
]

not_above :
    (s p t : MatchScore)
    → match_score_lt s p ≡ false
    → match_score_lt p t ≡ false
    → match_score_lt s t ≡ false
not_above s p t h k = elim (Bool-cases (match_score_lt s t)) [
  | inr q ↦ q
  | inl q ↦ elim (match_score_lt_cotrans s p t q) [ inl a ↦ (cc) | inr b ↦ (cc) ]
]

pub best_location-none :
    (request : RequestHeader) (ls : List CompiledLocation)
    (b : Option (MatchScore × CompiledLocation))
    → best_location request ls b ≡ none
    → (b ≡ none) × All (λ (l : CompiledLocation). http_score request l.matcher ≡ none) ls
unfolding best_location
best_location-none request [] b h = (h, tt)
best_location-none request (l ∷ ls) b h = elim (Option-cases (http_score request l.matcher)) [
  | inl e ↦ let (p, a) = best_location-none request ls b (rw (e, best_location) at h) in (p, (e, a))
  | inr (s, e) ↦
      let (p, a) =
        best_location-none request ls (if improves s b then some (s, l) else b)
          (rw (e, best_location) at h) in
      absurd (kept s l b p)
]
  where
    kept :
        (s : MatchScore) (l : CompiledLocation) (b : Option (MatchScore × CompiledLocation))
        → (if improves s b then some (s, l) else b) ≡ none
        → ⊥
    kept s l none h = cc
    kept s l (some (p, m)) h = elim (Bool-cases (match_score_lt p s)) [
      | inl q ↦ let k = rw q at h in cc
      | inr q ↦ let k = rw q at h in cc
    ]

-- The best match of the list, when the search begins with `b`.
pub record IsBest (request : RequestHeader) (ls : List CompiledLocation)
    (b : Option (MatchScore × CompiledLocation)) (s : MatchScore) (l : CompiledLocation)
    : Type 0 where
  pub found : (b ≡ some (s, l)) ⊎ (Holds l ls × Matches request l s)
  pub above : (p : MatchScore) (m : CompiledLocation) → b ≡ some (p, m) → match_score_lt s p ≡ false
  pub beaten : All (IsBeaten request s) ls

pub best_location-IsBest :
    (request : RequestHeader) (ls : List CompiledLocation)
    (b : Option (MatchScore × CompiledLocation)) (s : MatchScore) (l : CompiledLocation)
    → best_location request ls b ≡ some (s, l)
    → IsBest request ls b s l
unfolding best_location
best_location-IsBest request [] b s l h = record {
  found = inl h;
  above = λ p m e. lt_irrefl p m e;
  beaten = tt;
}
  where
    lt_irrefl :
        (p : MatchScore) (m : CompiledLocation) → b ≡ some (p, m) → match_score_lt s p ≡ false
    lt_irrefl p m e = elim (Bool-cases (match_score_lt s p)) [
      | inr q ↦ q
      | inl q ↦ let same : p ≡ s = (cc) in let a = match_score_lt_asym s p q in (cc)
    ]
best_location-IsBest request (k ∷ ls) b s l h = elim (Option-cases (http_score request k.matcher)) [
  | inl e ↦
      let r = best_location-IsBest request ls b s l (rw (e, best_location) at h) in
      record {
        found = elim r.found [ inl f ↦ inl f | inr (f, m) ↦ inr (there f, m) ];
        above = r.above;
        beaten = (λ t f. (cc), r.beaten);
      }
  | inr (t, e) ↦ elim (Bool-cases (improves t b)) [
    | inl q ↦
        let r =
          best_location-IsBest request ls (some (t, k)) s l
            (rw q at (rw (e, best_location) at h)) in
        record {
          found = elim r.found [
            | inl f ↦ inr (chosen t s k l ls f e)
            | inr (f, m) ↦ inr (there f, m)
          ];
          above = λ p m f. not_below s p t (r.above t k refl) (improved t p m f q);
          beaten = (
            λ t' f.
                subst (λ (x : MatchScore). match_score_lt s x ≡ false) (some_inj t t' (sym e ∙ f))
                  (r.above t k refl),
            r.beaten,
          );
        }
    | inr q ↦
        let r = best_location-IsBest request ls b s l (rw q at (rw (e, best_location) at h)) in
        let (p, m, f, n) = not_improved t b q in
        record {
          found = elim r.found [ inl f ↦ inl f | inr (f, m) ↦ inr (there f, m) ];
          above = r.above;
          beaten = (
            λ t' g.
                subst (λ (x : MatchScore). match_score_lt s x ≡ false) (some_inj t t' (sym e ∙ g))
                  (not_above s p t (r.above p m f) n),
            r.beaten,
          );
        }
  ]
]
  where
    chosen :
        (t s : MatchScore) (k l : CompiledLocation) (ls : List CompiledLocation)
        → ◌≡◌ {A = Option (MatchScore × CompiledLocation)} (some (t, k)) (some (s, l))
        → http_score request k.matcher ≡ some t
        → Holds l (k ∷ ls) × Matches request l s
    chosen t s k l ls f e =
        let same : k ≡ l = (cc) in
        let equal : t ≡ s = (cc) in
        (subst (λ (x : CompiledLocation). Holds x (k ∷ ls)) same here, rw (← same, ← equal) e)

    some_inj : (t t' : MatchScore) → some t ≡ some t' → t ≡ t'
    some_inj t t' e = cc

    improved :
        (t p : MatchScore) (m : CompiledLocation)
        → b ≡ some (p, m)
        → improves t b ≡ true
        → match_score_lt p t ≡ true
    improved t p m f q = rw f at q

    not_improved :
        (t : MatchScore) (b : Option (MatchScore × CompiledLocation))
        → improves t b ≡ false
        → (p : MatchScore) × (m : CompiledLocation) × (b ≡ some (p, m))
          × (match_score_lt p t ≡ false)
    not_improved t none q = cc
    not_improved t (some (p, m)) q = (p, m, refl, q)
