-- ===== src/Compile/Values/Digits.antt =====
-- Numbers in digits: what `to_string` writes, the parsers read.
use ngxora.Base.{
  ℕ, zero, suc, ◌+◌, ◌-◌, ◌*◌, ◌/◌, ◌%◌, ◌<◌, ◌≡◌, refl, ◌∙◌, ap, arith, true, false, [], ◌∷◌, ◌++◌,
  none, some, Text, ltb, if◌then◌else◌, length, All, All-append, Bool-cases, ltb→le, length-append,
  inl, inr, to_string, digits_from,
}
use ngxora.Compile.Values.{is_digit, digits_value, split_digits, parse_digits}

abbrev pub AllDigits : Text → Type 0
AllDigits = All (λ c. is_digit c ≡ true)

digits_value-append :
    (acc : ℕ) (front : Text) (d n : ℕ)
    → is_digit d ≡ true
    → digits_value acc front ≡ some n
    → digits_value acc (front ++ (d ∷ [])) ≡ some (n * 10 + (d - b'0'))
unfolding digits_value
digits_value-append acc [] d n h e = ground arith
digits_value-append acc (c ∷ front) d n h e = elim (Bool-cases (is_digit c)) [
  | inl q ↦ rw q (digits_value-append (acc * 10 + (c - b'0')) front d n h (rw q at e))
  | inr q ↦ let e' : none ≡ some n = rw q at e in cc
]

digits_from_lem :
    (fuel n : ℕ)
    → n < fuel
    → AllDigits (digits_from fuel n)
      × (digits_value 0 (digits_from fuel n) ≡ some n)
      × (0 < length (digits_from fuel n))
unfolding digits_from digits_value
digits_from_lem zero n h = absurd (omega arith)
digits_from_lem (suc fuel) n h = elim (Bool-cases (ltb n 10)) [
  | inl q ↦ rw q (ground arith)
  | inr q ↦
      let (a, e, l) = digits_from_lem fuel (n / 10) (omega (arith, ltb→le n 10 q)) in
      let d : is_digit (n % 10 + b'0') ≡ true = ground arith in
      rw q (
        All-append (λ c. is_digit c ≡ true) (digits_from fuel (n / 10)) ((n % 10 + b'0') ∷ []) a
            (d, tt),
        digits_value-append 0 (digits_from fuel (n / 10)) (n % 10 + b'0') (n / 10) d e
            ∙ ap some (omega arith),
        omega (arith, length-append (digits_from fuel (n / 10)) ((n % 10 + b'0') ∷ [])),
      )
]

-- A text that no digit begins.
abbrev pub Undigited : Text → Type 0
Undigited [] = Unit {0}
Undigited (c ∷ s) = is_digit c ≡ false

pub split_digits-append :
    (digits rest : Text)
    → AllDigits digits
    → Undigited rest
    → split_digits (digits ++ rest) ≡ (digits, rest)
unfolding split_digits
split_digits-append [] [] a u = refl
split_digits-append [] (c ∷ s) a u = rw u
split_digits-append (c ∷ digits) rest (d, a) u = rw (split_digits-append digits rest a u, d)

pub AllDigits-to_string : (n : ℕ) → AllDigits (to_string n)
unfolding to_string
AllDigits-to_string n = (digits_from_lem (suc n) n (omega arith)).0

pub parse_digits-to_string :
    (max n : ℕ) → parse_digits max (to_string n) ≡ (if ltb max n then none else some n)
unfolding to_string parse_digits
parse_digits-to_string max n =
    let (a, e, l) = digits_from_lem (suc n) n (omega arith) in by_text (digits_from (suc n) n) e l
  where
    by_text :
        (s : Text)
        → digits_value 0 s ≡ some n
        → 0 < length s
        → parse_digits max s ≡ (if ltb max n then none else some n)
    by_text [] e l = absurd (omega arith)
    by_text (c ∷ s) e l = rw e

pub to_string-cons : (n : ℕ) → (c : ℕ) × (s : Text) × (to_string n ≡ c ∷ s) × (is_digit c ≡ true)
unfolding to_string
to_string-cons n =
    let (a, e, l) = digits_from_lem (suc n) n (omega arith) in by_text (digits_from (suc n) n) a l
  where
    by_text :
        (t : Text)
        → AllDigits t
        → 0 < length t
        → (c : ℕ) × (s : Text) × (t ≡ c ∷ s) × (is_digit c ≡ true)
    by_text [] a l = absurd (omega arith)
    by_text (c ∷ s) (d, a) l = (c, s, refl, d)
