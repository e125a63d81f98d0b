-- ===== src/Base/Values.antt =====
-- Predicates on the entries of a map and on the members of a list, and what a write to a map keeps.
use mathlib.Core.Path.{◌≡◌, sym, ◌∙◌}
use mathlib.Core.Logic.{inl, inr}
use mathlib.Core.List.{List, [], ◌∷◌, ◌++◌}
use mathlib.Core.Option.{none, some}
use package.ngxora.Base.Tests.{Bool-cases}
use package.ngxora.Base.Lists.{All, Holds, here, there}
use package.ngxora.Base.Assoc.{Eq, lookup, remove, insert, lookup-insert}

module _ {ℓ κ μ} {K : Type ℓ} {V : Type κ} where
  abbrev pub Entries : (K → V → Type μ) → List (K × V) → Type μ
  Entries P = All (λ (kv : K × V). P kv.0 kv.1)

  pub Entries-mono :
      (P Q : K → V → Type μ)
      → ((k : K) (v : V) → P k v → Q k v)
      → (m : List (K × V)) → Entries P m
      → Entries Q m
  Entries-mono P Q f [] a = tt
  Entries-mono P Q f ((k, v) ∷ m) a = (f k v a.0, Entries-mono P Q f m a.1)

module _ {ℓ κ μ} {K : Type ℓ} {V : Type κ} ⦃e : Eq K⦄ where
  pub Entries-lookup :
      (P : K → V → Type μ) (m : List (K × V)) (k : K) {v : V}
      → Entries P m
      → lookup k m ≡ some v
      → P k v
  unfolding lookup
  Entries-lookup P [] k a h = cc
  Entries-lookup P ((j, w) ∷ m) k {v} a h = elim (Bool-cases (e.same j k)) [
    | inl q ↦
        let this : w ≡ v = (let g = rw (q, lookup) at h in cc) in
        let same = (e.same_iff j k).0 q in rw (← this, ← same) a.0
    | inr q ↦ Entries-lookup P m k a.1 (rw (q, lookup) at h)
  ]

  Entries-remove :
      (P : K → V → Type μ) (k : K) (m : List (K × V)) → Entries P m → Entries P (remove k m)
  unfolding remove
  Entries-remove P k [] a = tt
  Entries-remove P k ((j, w) ∷ m) a = elim (Bool-cases (e.same j k)) [
    | inl q ↦ rw q (Entries-remove P k m a.1)
    | inr q ↦ rw q (a.0, Entries-remove P k m a.1)
  ]

  pub Entries-insert :
      (P : K → V → Type μ) (k : K) (v : V) (m : List (K × V))
      → P k v
      → Entries P m
      → Entries P (insert k v m)
  unfolding insert
  Entries-insert P k v m p a = (p, Entries-remove P k m a)

module _ {ℓ} {A : Type ℓ} where
  pub All-Holds {κ} : (P : A → Type κ) {x : A} (xs : List A) → All P xs → Holds x xs → P x
  All-Holds P [] a h = elim h [ ]
  All-Holds P (x ∷ xs) a here = a.0
  All-Holds P (x ∷ xs) a (there h) = All-Holds P xs a.1 h

  pub Holds_all {κ} : (P : A → Type κ) (xs : List A) → ((x : A) → Holds x xs → P x) → All P xs
  Holds_all P [] f = tt
  Holds_all P (x ∷ xs) f = (f x here, Holds_all P xs (λ y h. f y (there h)))

  pub All-mono {κ μ} :
      (P : A → Type κ) (Q : A → Type μ)
      → ((x : A) → P x → Q x)
      → (xs : List A) → All P xs
      → All Q xs
  All-mono P Q f [] a = tt
  All-mono P Q f (x ∷ xs) a = (f x a.0, All-mono P Q f xs a.1)

  pub Holds-append_left : {x : A} (xs ys : List A) → Holds x xs → Holds x (xs ++ ys)
  Holds-append_left [] ys h = elim h [ ]
  Holds-append_left (x ∷ xs) ys here = here
  Holds-append_left (x ∷ xs) ys (there h) = there (Holds-append_left xs ys h)

  pub Holds-append_right : {x : A} (xs ys : List A) → Holds x ys → Holds x (xs ++ ys)
  Holds-append_right [] ys h = h
  Holds-append_right (x ∷ xs) ys h = there (Holds-append_right xs ys h)

module _ {ℓ κ μ} {A : Type ℓ} where
  pub All-both :
      (P : A → Type κ) (Q : A → Type μ) (xs : List A)
      → All P xs
      → All Q xs
      → All (λ x. P x × Q x) xs
  All-both P Q [] a b = tt
  All-both P Q (x ∷ xs) a b = ((a.0, b.0), All-both P Q xs a.1 b.1)

-- An entry that is there stays.
abbrev pub KeepsAll {ℓ κ} :
    {K : Type ℓ} {V : Type κ} ⦃e : Eq K⦄ → List (K × V) → List (K × V) → Type (ℓ ⊔ κ)
KeepsAll {K = K} {V = V} m m' = (k : K) (v : V) → lookup k m ≡ some v → lookup k m' ≡ some v

pub insert-KeepsAll {ℓ κ} :
    {K : Type ℓ} {V : Type κ} ⦃e : Eq K⦄ (k : K) (v : V) (m : List (K × V))
    → lookup k m ≡ none
    → KeepsAll m (insert k v m)
insert-KeepsAll ⦃e⦄ k v m absent j w h = elim (Bool-cases (e.same k j)) [
  | inl q ↦ absurd (
      let same = (e.same_iff k j).0 q in let h' = rw (← same) at h in let d = sym absent ∙ h' in cc)
  | inr q ↦ lookup-insert j k v m ∙ rw q h
]
