-- ===== src/Outcome.antt =====
-- Rust's `Result` for the code whose errors a caller only passes on.
use ngxora.Base.{◌≡◌, refl, ◌⊎◌, inl, inr, Bool, true, false, Option, none, some}

pub data Outcome {ℓ} (E T : Type ℓ) : Type ℓ where
  failure : E → Outcome E T
  success : T → Outcome E T

-- The operator `?`.
infixl 5 ◌>>=◌ ◌>>◌
abbrev pub ◌>>=◌ {ℓ} : {E T U : Type ℓ} → Outcome E T → (T → Outcome E U) → Outcome E U
failure reason >>= rest = failure reason
success it >>= rest = rest it

abbrev pub ◌>>◌ {ℓ} : {E U : Type ℓ} → Outcome E (Unit {ℓ}) → Outcome E U → Outcome E U
failure reason >> rest = failure reason
success it >> rest = rest

-- `ok_or`
abbrev pub ok_or {ℓ} : {E T : Type ℓ} → E → Option T → Outcome E T
ok_or reason none = failure reason
ok_or reason (some it) = success it

-- A check that returns early.
abbrev pub ensure {ℓ} : {E : Type ℓ} → Bool → E → Outcome E (Unit {ℓ})
ensure true reason = success tt
ensure false reason = failure reason

-- A chain that succeeds has passed its first call.
pub >>=-success {ℓ} :
    {E T U : Type ℓ} (call : Outcome E T) (rest : T → Outcome E U) {end : U}
    → (call >>= rest) ≡ success end
    → (it : T) × (call ≡ success it) × (rest it ≡ success end)
>>=-success (failure reason) rest h = cc
>>=-success (success it) rest h = (it, refl, h)

pub >>-success {ℓ} :
    {E U : Type ℓ} (test : Bool) (reason : E) (rest : Outcome E U) {end : U}
    → (ensure test reason >> rest) ≡ success end
    → (test ≡ true) × (rest ≡ success end)
>>-success true reason rest h = (refl, h)
>>-success false reason rest h = cc

pub >>-both {ℓ} :
    {E U : Type ℓ} (call : Outcome E (Unit {ℓ})) (rest : Outcome E U) {end : U}
    → (call >> rest) ≡ success end
    → (call ≡ success tt) × (rest ≡ success end)
>>-both (failure reason) rest h = cc
>>-both (success it) rest h = (refl, h)

-- A chain that fails has failed in its first call or behind it.
pub >>=-failure {ℓ} :
    {E T U : Type ℓ} (call : Outcome E T) (rest : T → Outcome E U) {reason : E}
    → (call >>= rest) ≡ failure reason
    → (call ≡ failure reason) ⊎ ((it : T) × (call ≡ success it) × (rest it ≡ failure reason))
>>=-failure (failure reason) rest h = inl (cc)
>>=-failure (success it) rest h = inr (it, refl, h)

pub ensure-success {ℓ} :
    {E : Type ℓ} (test : Bool) (reason : E) → test ≡ true → ensure test reason ≡ success tt
ensure-success test reason h = rw h

pub ensure-true {ℓ} :
    {E : Type ℓ} (test : Bool) (reason : E) → ensure test reason ≡ success tt → test ≡ true
ensure-true true reason h = refl
ensure-true false reason h = cc

-- `map_err`, and the conversion that `?` makes of an error.
abbrev pub map_err {ℓ} : {E F T : Type ℓ} → (E → F) → Outcome E T → Outcome F T
map_err f (failure reason) = failure (f reason)
map_err f (success it) = success it

pub success_inj {ℓ} :
    {E T : Type ℓ} (x y : T) → ◌≡◌ {A = Outcome E T} (success x) (success y) → x ≡ y
success_inj x y h = cc

pub ok_or-success {ℓ} :
    {E T : Type ℓ} (reason : E) (o : Option T) {it : T} → ok_or reason o ≡ success it → o ≡ some it
ok_or-success reason none h = cc
ok_or-success reason (some x) h = cc

pub map_err-success {ℓ} :
    {E F T U : Type ℓ} (f : E → F) (o : Outcome E T) (rest : T → Outcome F U) {end : U}
    → (map_err f o >>= rest) ≡ success end
    → (it : T) × (o ≡ success it)
map_err-success f (failure e) rest h = cc
map_err-success f (success it) rest h = (it, refl)
