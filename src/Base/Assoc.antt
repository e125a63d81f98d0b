-- ===== src/Base/Assoc.antt =====
-- Decidable equality as an instance, and hash maps as association lists. The order of the list
-- stands for no order of the source.
use mathlib.Core.Path.{◌≡◌, refl, sym, ◌∙◌}
use mathlib.Core.Logic.{◌↔◌, ◌⊎◌, inl, inr}
use mathlib.Core.Bool.{Bool, true, false}
use mathlib.Core.List.{List, [], ◌∷◌, map}
use mathlib.Core.Option.{Option, none, some}
use Prim.Native.Nat.{ℕ, ◌+◌, ◌≤◌, ◌<◌}
use native.Mathlib.Omega.{arith}
use package.ngxora.Base.Tests.{if◌then◌else◌, Bool-cases, Option-cases, ◌==◌, ==_iff}
use package.ngxora.Base.Lists.{length, Holds, here, there}
use package.ngxora.Base.Strings.{Text, text_eq, text_eq_iff}

pub record Eq {ℓ} (A : Type ℓ) : Type ℓ where
  pub same : A → A → Bool
  pub same_iff : (a b : A) → (same a b ≡ true) ↔ (a ≡ b)

instance abbrev pub nat_has_eq : Eq ℕ
nat_has_eq = record { same = λ a b. a == b; same_iff = ==_iff }

instance abbrev pub text_has_eq : Eq Text
text_has_eq = record { same = text_eq; same_iff = text_eq_iff }

pub same_refl {ℓ} : {K : Type ℓ} ⦃e : Eq K⦄ (k : K) → e.same k k ≡ true
same_refl ⦃e⦄ k = (e.same_iff k k).1 refl

module _ {ℓ κ} {K : Type ℓ} {V : Type κ} ⦃e : Eq K⦄ where
  unfoldable pub lookup : K → List (K × V) → Option V
  lookup k [] = none
  lookup k ((j, v) ∷ m) = if e.same j k then some v else lookup k m

  unfoldable pub remove : K → List (K × V) → List (K × V)
  remove k [] = []
  remove k ((j, v) ∷ m) = let rest = remove k m in if e.same j k then rest else (j, v) ∷ rest

  unfoldable pub insert : K → V → List (K × V) → List (K × V)
  unfolding remove
  insert k v m = (k, v) ∷ remove k m

  unfoldable pub retain : (K → V → Bool) → List (K × V) → List (K × V)
  retain p [] = []
  retain p ((j, v) ∷ m) = let rest = retain p m in if p j v then (j, v) ∷ rest else rest

  abbrev pub Unique : List (K × V) → Type κ
  Unique [] = Unit
  Unique ((k, v) ∷ m) = (lookup k m ≡ none) × Unique m

  pub lookup-remove :
      (j k : K) (m : List (K × V))
      → lookup j (remove k m) ≡ (if e.same k j then none else lookup j m)
  unfolding lookup remove
  lookup-remove j k [] = elim (Bool-cases (e.same k j)) [ inl h ↦ rw h | inr h ↦ rw h ]
  lookup-remove j k ((i, v) ∷ m) =
      ground (arith, lookup-remove j k m, e.same_iff i k, e.same_iff i j, e.same_iff k j)

  pub lookup-insert :
      (j k : K) (v : V) (m : List (K × V))
      → lookup j (insert k v m) ≡ (if e.same k j then some v else lookup j m)
  unfolding lookup insert
  lookup-insert j k v m = elim (Bool-cases (e.same k j)) [
    | inl h ↦ rw h
    | inr h ↦ rw h (lookup-remove j k m ∙ rw h)
  ]

  pub lookup-remove_self : (k : K) (m : List (K × V)) → lookup k (remove k m) ≡ none
  lookup-remove_self k m = lookup-remove k k m ∙ rw (same_refl k)

  pub lookup-insert_self : (k : K) (v : V) (m : List (K × V)) → lookup k (insert k v m) ≡ some v
  lookup-insert_self k v m = lookup-insert k k v m ∙ rw (same_refl k)

  pub remove_absent : (k : K) (m : List (K × V)) → lookup k m ≡ none → remove k m ≡ m
  unfolding lookup remove
  remove_absent k [] h = refl
  remove_absent k ((j, v) ∷ m) h = ground (arith, remove_absent k m)

  pub lookup-retain-none :
      (p : K → V → Bool) (k : K) (m : List (K × V))
      → lookup k m ≡ none
      → lookup k (retain p m) ≡ none
  unfolding lookup retain
  lookup-retain-none p k [] h = refl
  lookup-retain-none p k ((j, v) ∷ m) h = ground (arith, lookup-retain-none p k m)

  pub remove-Unique : (k : K) (m : List (K × V)) → Unique m → Unique (remove k m)
  unfolding remove
  remove-Unique k [] u = tt
  remove-Unique k ((j, v) ∷ m) (h, u) = elim (Bool-cases (e.same j k)) [
    | inl q ↦ rw q (remove-Unique k m u)
    | inr q ↦ rw q (
      lookup-remove j k m ∙ elim (Bool-cases (e.same k j)) [ inl x ↦ rw x | inr x ↦ rw x h ],
      remove-Unique k m u,
    )
  ]

  pub insert-Unique : (k : K) (v : V) (m : List (K × V)) → Unique m → Unique (insert k v m)
  unfolding insert
  insert-Unique k v m u = (lookup-remove_self k m, remove-Unique k m u)

  pub retain-Unique : (p : K → V → Bool) (m : List (K × V)) → Unique m → Unique (retain p m)
  unfolding retain
  retain-Unique p [] u = tt
  retain-Unique p ((j, v) ∷ m) (h, u) = elim (Bool-cases (p j v)) [
    | inl q ↦ rw q (lookup-retain-none p j m h, retain-Unique p m u)
    | inr q ↦ rw q (retain-Unique p m u)
  ]

  pub lookup-retain :
      (p : K → V → Bool) (k : K) (m : List (K × V))
      → Unique m
      → (v : V) → lookup k m ≡ some v
      → lookup k (retain p m) ≡ (if p k v then some v else none)
  unfolding lookup retain
  lookup-retain p k [] u v h = cc
  lookup-retain p k ((j, w) ∷ m) (f, u) v h =
      ground
        (arith, lookup-retain p k m u v, lookup-retain-none p k m, e.same_iff j k, e.same_iff k k)

  -- The total of a measure over the entries.
  unfoldable pub total : (K → V → ℕ) → List (K × V) → ℕ
  total f [] = 0
  total f ((j, v) ∷ m) = f j v + total f m

  pub total-remove :
      (f : K → V → ℕ) (k : K) (v : V) (m : List (K × V))
      → Unique m
      → lookup k m ≡ some v
      → total f m ≡ f k v + total f (remove k m)
  unfolding lookup remove total
  total-remove f k v [] u h = cc
  total-remove f k v ((j, w) ∷ m) (n, u) h = elim (Bool-cases (e.same j k)) [
    | inl q ↦ let jk : j ≡ k = (e.same_iff j k).0 q in ground (arith, remove_absent k m)
    | inr q ↦ ground (arith, total-remove f k v m u)
  ]

  pub total-remove_le :
      (f : K → V → ℕ) (k : K) (m : List (K × V)) → total f (remove k m) ≤ total f m
  unfolding remove total
  total-remove_le f k [] = omega arith
  total-remove_le f k ((j, w) ∷ m) = ground (arith, total-remove_le f k m)

  pub length-remove_le : (k : K) (m : List (K × V)) → length (remove k m) ≤ length m
  unfolding remove
  length-remove_le k [] = omega arith
  length-remove_le k ((j, w) ∷ m) = ground (arith, length-remove_le k m)

  pub length-remove :
      (k : K) (v : V) (m : List (K × V)) → lookup k m ≡ some v → length (remove k m) < length m
  unfolding lookup remove
  length-remove k v [] h = cc
  length-remove k v ((j, w) ∷ m) h = ground (arith, length-remove k v m, length-remove_le k m)

  pub lookup-listed :
      (k : K) (m : List (K × V)) → Holds k (map (λ e. e.0) m) → (v : V) × (lookup k m ≡ some v)
  unfolding lookup
  lookup-listed k [] h = elim h [ ]
  lookup-listed k ((j, w) ∷ m) here = (w, rw (same_refl k))
  lookup-listed k ((j, w) ∷ m) (there h) =
      let (v, q) = lookup-listed k m h in
      elim (Bool-cases (e.same j k)) [ inl x ↦ (w, rw x) | inr x ↦ (v, rw x q) ]

  -- The second map holds nothing that the first does not.
  abbrev pub IsSub : List (K × V) → List (K × V) → Type (ℓ ⊔ κ)
  IsSub m m' = (k : K) (v : V) → lookup k m' ≡ some v → lookup k m ≡ some v

  pub IsSub-none :
      (m m' : List (K × V)) (k : K) → IsSub m m' → lookup k m ≡ none → lookup k m' ≡ none
  IsSub-none m m' k s h = elim (Option-cases (lookup k m')) [
    | inl e ↦ e
    | inr (v, e) ↦ absurd (none_some v (sym h ∙ s k v e))
  ]
    where
      none_some : (v : V) → none ≡ some v → ⊥
      none_some v q = cc

  pub remove-IsSub : (k : K) (m : List (K × V)) → IsSub m (remove k m)
  remove-IsSub k m j v h = elim (Bool-cases (e.same k j)) [
    | inl q ↦ absurd (none_some (sym (lookup-remove j k m ∙ rw q) ∙ h))
    | inr q ↦ sym (lookup-remove j k m ∙ rw q) ∙ h
  ]
    where
      none_some : none ≡ some v → ⊥
      none_some q = cc

  pub retain-IsSub : (p : K → V → Bool) (m : List (K × V)) → Unique m → IsSub m (retain p m)
  unfolding lookup retain
  retain-IsSub p [] u j v h = h
  retain-IsSub p ((i, w) ∷ m) (n, u) j v h =
      ground (arith, retain-IsSub p m u j v, lookup-retain-none p j m, e.same_iff i j)

  pub total-insert :
      (f : K → V → ℕ) (k : K) (v : V) (m : List (K × V))
      → lookup k m ≡ none
      → total f (insert k v m) ≡ f k v + total f m
  unfolding insert total
  total-insert f k v m h = rw (remove_absent k m h)

  -- Replacing a value of equal measure keeps the total.
  pub total-insert_same :
      (f : K → V → ℕ) (k : K) (v w : V) (m : List (K × V))
      → Unique m
      → lookup k m ≡ some v
      → f k w ≡ f k v
      → total f (insert k w m) ≡ total f m
  unfolding insert total
  total-insert_same f k v w m u h q = omega (arith, total-remove f k v m u h)

  pub lookup-insert_cases :
      (j k : K) (v w : V) (m : List (K × V))
      → lookup j (insert k v m) ≡ some w
      → ((k ≡ j) × (w ≡ v)) ⊎ ((e.same k j ≡ false) × (lookup j m ≡ some w))
  lookup-insert_cases j k v w m h = elim (Bool-cases (e.same k j)) [
    | inl q ↦ inl ((e.same_iff k j).0 q, some-value (sym h ∙ lookup-insert j k v m ∙ rw q))
    | inr q ↦ inr (q, sym (lookup-insert j k v m ∙ rw q) ∙ h)
  ]
    where
      some-value : some w ≡ some v → w ≡ v
      some-value p = cc
