-- ===== src/Compile/Validate/Acceptance.antt =====
-- Which configurations are valid, said of the configuration.
use ngxora.Base.{
  ℕ, ◌+◌, ◌%◌, ◌^◌, ◌<◌, ◌≡◌, ◌≢◌, ◌↔◌, ◌⊎◌, inl, inr, refl, sym, ◌∙◌, ap, arith, Bool, true, List,
  [], ◌∷◌, Text, ◌==◌, length, All,
}
use ngxora.Outcome.{
  Outcome, success, failure, ◌>>◌, ensure, >>=-success, ensure-success, ensure-true,
}
use ngxora.Compile.Ir.Locations.{Location, LocationDirective}
use ngxora.Compile.Validate.{
  not_one_action, Kind, action, other, unsupported, kind, count_actions, validate_location,
}

-- The actions among the directives, and that none is unsupported.
abbrev pub is_action : Kind → ℕ
is_action action = 1
is_action _ = 0

abbrev pub actions : List LocationDirective → ℕ
actions [] = 0
actions (d ∷ ds) = is_action (kind d) + actions ds

abbrev pub IsSupported : LocationDirective → Type 0
IsSupported d = (name : Text) → kind d ≢ unsupported name

abbrev pub IsValidLocation : Location → Type 0
IsValidLocation l = All IsSupported l.directives × (actions l.directives ≡ 1)

Kind-cases : (k : Kind) → (k ≡ action) ⊎ ((k ≡ other) ⊎ ((name : Text) × (k ≡ unsupported name)))
Kind-cases action = inl refl
Kind-cases other = inr (inl refl)
Kind-cases (unsupported name) = inr (inr (name, refl))

count_actions_lem :
    (s l n : ℕ) (ds : List LocationDirective)
    → n + length ds < 2 ^ 32
    → All IsSupported ds
    → count_actions s l n ds ≡ success (n + actions ds)
unfolding count_actions
count_actions_lem s l n [] h a = ap success (omega arith)
count_actions_lem s l n (d ∷ ds) h (q, a) = elim (Kind-cases (kind d)) [
  | inl e ↦
      let w : (n + 1) % 2 ^ 32 ≡ n + 1 = omega (arith, h) in
      rw (e, count_actions)
        (rw w (count_actions_lem s l (n + 1) ds (omega (arith, h)) a ∙ ap success (omega arith)))
  | inr (inl e) ↦
      rw (e, count_actions)
        (count_actions_lem s l n ds (omega (arith, h)) a ∙ ap success (omega arith))
  | inr (inr (name, e)) ↦ absurd (q name e)
]

count_actions-All :
    (s l n : ℕ) (ds : List LocationDirective) (k : ℕ)
    → count_actions s l n ds ≡ success k
    → All IsSupported ds
unfolding count_actions
count_actions-All s l n [] k h = tt
count_actions-All s l n (d ∷ ds) k h = elim (Kind-cases (kind d)) [
  | inl e ↦
      (λ name z. (cc), count_actions-All s l ((n + 1) % 2 ^ 32) ds k (rw (e, count_actions) at h))
  | inr (inl e) ↦ (λ name z. (cc), count_actions-All s l n ds k (rw (e, count_actions) at h))
  | inr (inr (name, e)) ↦ let z = rw (e, count_actions) at h in cc
]

-- The sizes that the machine integers hold.
abbrev pub IsSizedLocation : Location → Type 0
IsSizedLocation l = length l.directives < 2 ^ 32

pub validate_location_iff :
    (s n : ℕ) (l : Location)
    → IsSizedLocation l
    → (validate_location s n l ≡ success tt) ↔ IsValidLocation l
unfolding validate_location
validate_location_iff s n l z = (
  λ h.
      let (k, e, h') = >>=-success (count_actions s n 0 l.directives) _ h in
      let a = count_actions-All s n 0 l.directives k e in
      let same : k ≡ 0 + actions l.directives =
        (let f = sym e ∙ count_actions_lem s n 0 l.directives (omega (arith, z)) a in cc) in
      let one = ensure-true (k == 1) (not_one_action (s + 1) (n + 1)) h' in (a, ground arith),
  λ v.
      let e = count_actions_lem s n 0 l.directives (omega (arith, z)) v.0 in
      let one : (0 + actions l.directives == 1) ≡ true = (let k = v.1 in ground arith) in
      rw (e, validate_location) (rw one),
)

pub seq_iff {ℓ κ} :
    {E : Type 0} {P : Type ℓ} {Q : Type κ} (a b : Outcome E (Unit {0}))
    → (a ≡ success tt) ↔ P
    → (b ≡ success tt) ↔ Q
    → ((a >> b) ≡ success tt) ↔ (P × Q)
seq_iff (failure e) b f g = (λ h. (cc), λ h. f.1 h.0)
seq_iff (success tt) b f g = (λ h. (f.0 refl, g.0 h), λ h. g.1 h.1)

pub ensure_iff {ℓ κ} :
    {E : Type 0} {P : Type ℓ} {Q : Type κ} (test : Bool) (reason : E) (rest : Outcome E (Unit {0}))
    → (test ≡ true) ↔ P
    → (rest ≡ success tt) ↔ Q
    → ((ensure test reason >> rest) ≡ success tt) ↔ (P × Q)
ensure_iff test reason rest f g =
    seq_iff (ensure test reason) rest
      (λ h. f.0 (ensure-true test reason h), λ p. ensure-success test reason (f.1 p)) g

pub ensured_iff {ℓ} :
    {E : Type 0} {P : Type ℓ} (test : Bool) (reason : E)
    → (test ≡ true) ↔ P
    → (ensure test reason ≡ success tt) ↔ P
ensured_iff test reason f =
    (λ h. f.0 (ensure-true test reason h), λ p. ensure-success test reason (f.1 p))
