-- ===== src/Compile/Values/Loop.antt =====
-- The loop over the segments of a duration ends, and where it panics.
use ngxora.Base.{
  ℕ, zero, suc, ◌+◌, ◌*◌, ◌≤◌, ◌<◌, ◌≡◌, ◌≢◌, refl, ap, subst, arith, Bool, true, false, [], ◌∷◌,
  ◌++◌, Option, none, some, Text, ltb, Bool-cases, inl, inr, to_string, length,
}
use ngxora.Machine.{u64_max}
use ngxora.Outcome.{success, failure, ok_or, >>=-success, >>=-failure}
use ngxora.Compile.Values.{
  Reason, LowerErr, lower_err, is_digit, split_digits, parse_digits, u128_max, fits_u128,
  unit_multiplier_millis, read_unit, read_segment, read_segments, parse_duration_literal,
  not_a_boundary, out_of_fuel, invalid_time, time_too_large, unsupported_time_unit,
}
use ngxora.Compile.Values.Digits.{
  split_digits-append, AllDigits-to_string, parse_digits-to_string, to_string-cons,
}

-- The rest behind a unit is no longer than the text.
read_unit_shrinks :
    (name raw text : Text) (saw : Bool) (unit rest : Text)
    → read_unit name raw saw text ≡ success (unit, rest)
    → length rest ≤ length text
unfolding read_unit
read_unit_shrinks name raw [] saw unit rest h = elim (Bool-cases saw) [
  | inl q ↦ ground arith
  | inr q ↦ let e : rest ≡ [] = ground arith in rw e (omega arith)
]
read_unit_shrinks name raw (c ∷ []) saw unit rest h =
    let e : rest ≡ [] = ground arith in rw e (omega arith)
read_unit_shrinks name raw (c ∷ d ∷ text) saw unit rest h = ground arith

split_digits_shrinks :
    (text : Text) → length (split_digits text).0 + length (split_digits text).1 ≡ length text
unfolding split_digits
split_digits_shrinks [] = omega arith
split_digits_shrinks (c ∷ text) = elim (Bool-cases (is_digit c)) [
  | inl q ↦ rw q (omega (arith, split_digits_shrinks text))
  | inr q ↦ rw q (omega arith)
]

parse_digits-pos : (max : ℕ) (s : Text) (n : ℕ) → parse_digits max s ≡ some n → 0 < length s
unfolding parse_digits
parse_digits-pos max [] n h = cc
parse_digits-pos max (c ∷ s) n h = omega arith

ok_or-success {ℓ} :
    {E T : Type ℓ} (e : E) (o : Option T) {it : T} → ok_or e o ≡ success it → o ≡ some it
ok_or-success e none h = cc
ok_or-success e (some x) h = cc

read_segment_shrinks :
    (name raw : Text) (saw : Bool) (total : ℕ) (text : Text) (total' : ℕ) (rest : Text)
    → read_segment name raw saw total text ≡ success (total', rest)
    → length rest < length text
unfolding read_segment
read_segment_shrinks name raw saw total text total' rest h =
    let (digits, behind) = split_digits text in
    let (value, d, h₁) =
      >>=-success
        (ok_or (record { directive = name; reason = invalid_time raw })
          (parse_digits u128_max (split_digits text).0))
        _ h in
    let ((unit, rest'), u, h₂) = >>=-success (read_unit name raw saw (split_digits text).1) _ h₁ in
    let (m, _, h₃) =
      >>=-success
        (ok_or (record { directive = name; reason = unsupported_time_unit unit raw })
          (unit_multiplier_millis unit))
        _ h₂ in
    let (millis, _, h₄) =
      >>=-success
        (ok_or (record { directive = name; reason = time_too_large raw }) (fits_u128 (value * m))) _
        h₃ in
    let (sum, _, h₅) =
      >>=-success
        (ok_or (record { directive = name; reason = time_too_large raw })
          (fits_u128 (total + millis)))
        _ h₄ in
    let same : rest' ≡ rest = cc in
    let p =
      parse_digits-pos u128_max (split_digits text).0 value
        (ok_or-success _ (parse_digits u128_max (split_digits text).0) d) in
    omega (
      arith,
      split_digits_shrinks text,
      read_unit_shrinks name raw (split_digits text).1 saw unit rest' u,
      ap length same,
      p,
    )

-- A failure that is not the model's own.
abbrev IsReal : LowerErr → Type 0
IsReal e = e.reason ≢ out_of_fuel

ok_or-failure : {T : Type 0} (e e' : LowerErr) (o : Option T) → ok_or e o ≡ failure e' → e ≡ e'
ok_or-failure e e' none h = cc
ok_or-failure e e' (some x) h = cc

ok_or-IsReal :
    {T : Type 0} (e e' : LowerErr) (o : Option T) → IsReal e → ok_or e o ≡ failure e' → IsReal e'
ok_or-IsReal e e' none r h = let same : e ≡ e' = cc in subst IsReal same r
ok_or-IsReal e e' (some x) r h = cc

read_unit-IsReal :
    (name raw text : Text) (saw : Bool) (e : LowerErr)
    → read_unit name raw saw text ≡ failure e
    → IsReal e
unfolding read_unit
read_unit-IsReal name raw [] saw e h r = ground arith
read_unit-IsReal name raw (c ∷ []) saw e h r = ground arith
read_unit-IsReal name raw (c ∷ d ∷ text) saw e h r = ground arith

read_segment-IsReal :
    (name raw : Text) (saw : Bool) (total : ℕ) (text : Text) (e : LowerErr)
    → read_segment name raw saw total text ≡ failure e
    → IsReal e
unfolding read_segment
read_segment-IsReal name raw saw total text e h =
    elim (>>=-failure (ok_or (err (invalid_time raw)) (parse_digits u128_max (split_digits text).0))
      _ h) [
        | inl f ↦
            ok_or-IsReal (err (invalid_time raw)) e (parse_digits u128_max (split_digits text).0)
              (λ r. cc) f
        | inr (value, _, h₁) ↦
            elim (>>=-failure (read_unit name raw saw (split_digits text).1) _ h₁) [
              | inl f ↦ read_unit-IsReal name raw (split_digits text).1 saw e f
              | inr ((unit, rest), _, h₂) ↦
                  elim (>>=-failure
                    (ok_or (err (unsupported_time_unit unit raw)) (unit_multiplier_millis unit)) _
                    h₂) [
                      | inl f ↦
                          ok_or-IsReal (err (unsupported_time_unit unit raw)) e
                            (unit_multiplier_millis unit) (λ r. cc) f
                      | inr (m, _, h₃) ↦
                          elim (>>=-failure
                            (ok_or (err (time_too_large raw)) (fits_u128 (value * m))) _ h₃) [
                              | inl f ↦
                                  ok_or-IsReal (err (time_too_large raw)) e (fits_u128 (value * m))
                                    (λ r. cc) f
                              | inr (millis, _, h₄) ↦
                                  elim (>>=-failure
                                    (ok_or (err (time_too_large raw)) (fits_u128 (total + millis)))
                                    _ h₄) [
                                      | inl f ↦
                                          ok_or-IsReal (err (time_too_large raw)) e
                                            (fits_u128 (total + millis)) (λ r. cc) f
                                      | inr (sum, _, h₅) ↦ cc
                                    ]
                            ]
                    ]
            ]
      ]
  where
    err : Reason → LowerErr
    err r = record { directive = name; reason = r }

read_segments-IsReal :
    (fuel : ℕ) (name raw : Text) (saw : Bool) (total : ℕ) (text : Text) (e : LowerErr)
    → length text ≤ fuel
    → read_segments fuel name raw saw total text ≡ failure e
    → IsReal e
unfolding read_segments
read_segments-IsReal fuel name raw saw total [] e l h = cc
read_segments-IsReal zero name raw saw total (c ∷ text) e l h = absurd (omega arith)
read_segments-IsReal (suc fuel) name raw saw total (c ∷ text) e l h =
    elim (>>=-failure (read_segment name raw saw total (c ∷ text)) _ h) [
      | inl f ↦ read_segment-IsReal name raw saw total (c ∷ text) e f
      | inr ((total', rest), g, h') ↦
          read_segments-IsReal fuel name raw true total' rest e
            (omega (arith, read_segment_shrinks name raw saw total (c ∷ text) total' rest g)) h'
    ]

-- The loop over the segments of a time literal ends: `parse_duration_literal` does not run out of
-- fuel on any text.
pub parse_duration_literal-ne-out_of_fuel :
    (raw name directive : Text) → parse_duration_literal raw name ≢ lower_err directive out_of_fuel
unfolding parse_duration_literal
parse_duration_literal-ne-out_of_fuel [] name d h = cc
parse_duration_literal-ne-out_of_fuel (c ∷ s) name d h =
    elim (>>=-failure (read_segments (length (c ∷ s)) name (c ∷ s) false 0 (c ∷ s)) _ h) [
      | inl f ↦
          read_segments-IsReal (length (c ∷ s)) name (c ∷ s) false 0 (c ∷ s) _ (omega arith) f refl
      | inr (total, _, h') ↦ elim (Bool-cases (ltb u64_max total)) [
        | inl q ↦ ground arith
        | inr q ↦ ground arith
      ]
    ]

read_unit_panics :
    (name raw : Text) (saw : Bool) (c : ℕ) (rest : Text)
    → 128 ≤ c
    → read_unit name raw saw (c ∷ rest) ≡ lower_err name not_a_boundary
unfolding read_unit
read_unit_panics name raw saw c [] h = ground arith
read_unit_panics name raw saw c (d ∷ rest) h = ground arith

read_segment_panics :
    (name raw : Text) (saw : Bool) (total n c : ℕ) (rest : Text)
    → n ≤ u128_max
    → 128 ≤ c
    → read_segment name raw saw total (to_string n ++ (c ∷ rest)) ≡ lower_err name not_a_boundary
unfolding read_segment
read_segment_panics name raw saw total n c rest l h =
    let fits : ltb u128_max n ≡ false = ground arith in
    let u : is_digit c ≡ false = ground arith in
    rw (split_digits-append (to_string n) (c ∷ rest) (AllDigits-to_string n) u) (
      rw (parse_digits-to_string u128_max n)
        (rw fits (rw (read_unit_panics name raw saw c rest h) refl)))

-- A time literal of a number, that fits a `u128`, and of a character outside of ASCII slices its text
-- off a character boundary, where the program panics; it does not give the error of an unsupported
-- unit. The condition on the character is that its first byte is at least 128.
pub parse_duration_literal_panics :
    (n c : ℕ) (rest name : Text)
    → n ≤ u128_max
    → 128 ≤ c
    → parse_duration_literal (to_string n ++ (c ∷ rest)) name ≡ lower_err name not_a_boundary
unfolding parse_duration_literal read_segments
parse_duration_literal_panics n c rest name l h =
    let (d, t, e, _) = to_string-cons n in
    by_text (to_string n ++ (c ∷ rest)) (rw e (omega arith))
      (read_segment_panics name (to_string n ++ (c ∷ rest)) false 0 n c rest l h)
  where
    by_text :
        (t : Text)
        → 0 < length t
        → read_segment name t false 0 t ≡ lower_err name not_a_boundary
        → parse_duration_literal t name ≡ lower_err name not_a_boundary
    by_text [] p e = absurd (omega arith)
    by_text (d ∷ t) p e = rw (e, read_segments)
