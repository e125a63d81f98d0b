-- ===== src/Base/Equality.antt =====
-- The equality that `PartialEq` derives, from decisions.
use mathlib.Core.Path.{◌≡◌, refl}
use mathlib.Core.Logic.{◌↔◌}
use mathlib.Core.Bool.{Bool, true, false}
use package.ngxora.Base.Assoc.{Eq}

abbrev pub decided {ℓ} : {A : Type ℓ} {a b : A} → Dec (a ≡ b) → Bool
decided (yes e) = true
decided (no e) = false

pub decided_iff {ℓ} : {A : Type ℓ} {a b : A} (d : Dec (a ≡ b)) → (decided d ≡ true) ↔ (a ≡ b)
decided_iff (yes e) = (λ h. e, λ h. refl)
decided_iff (no n) = (λ h. (cc), λ h. absurd (n h))

abbrev pub discrete_eq {ℓ} : {A : Type ℓ} → Discrete A → Eq A
discrete_eq d = record { same = λ a b. decided (d a b); same_iff = λ a b. decided_iff (d a b) }
