-- ===== src/Compile/Values/Sizes.antt =====
-- Sizes: the printed form of a size is read back, or refused where it is too large.
use ngxora.Base.{
  ℕ, ◌*◌, ◌≤◌, ◌≡◌, arith, List, [], ◌∷◌, ◌++◌, some, Text, text_eq, ltb, if◌then◌else◌, Bool-cases,
  inl, inr, to_string,
}
use ngxora.Machine.{u64_max}
use ngxora.Outcome.{success, >>=-success}
use ngxora.Compile.Values.{
  lower_err, invalid_size, size_too_large, size_multiplier, parse_size_literal, parse_http2_value,
  http2_value, http2_max, parse_exactly_one_argument,
}
use ngxora.Compile.Values.Digits.{
  Undigited, split_digits-append, AllDigits-to_string, parse_digits-to_string,
}

size_multiplier-Undigited :
    (suffix : Text) (m : ℕ) → size_multiplier suffix ≡ some m → Undigited suffix
unfolding size_multiplier text_eq
size_multiplier-Undigited [] m h = tt
size_multiplier-Undigited (c ∷ s) m h = ground arith

-- A size literal of a number in decimal digits and a suffix gives the number times the suffix's
-- multiplier, an error where the number does not fit a `u64`, and another where the product does
-- not. The condition is that the suffix is one that has a multiplier.
pub parse_size_literal-to_string :
    (n m : ℕ) (suffix name : Text)
    → size_multiplier suffix ≡ some m
    → parse_size_literal (to_string n ++ suffix) name ≡ (
        if ltb u64_max n
        then lower_err name (invalid_size (to_string n ++ suffix))
        else if ltb u64_max (n * m)
        then lower_err name (size_too_large (to_string n ++ suffix))
        else success (n * m))
unfolding parse_size_literal
parse_size_literal-to_string n m suffix name h =
    rw
      (
        split_digits-append (to_string n) suffix (AllDigits-to_string n)
            (size_multiplier-Undigited suffix m h),
        parse_digits-to_string u64_max n,
        h,
      )
      (elim (Bool-cases (ltb u64_max n)) [
        | inl q ↦ rw q
        | inr q ↦ rw q (elim (Bool-cases (ltb u64_max (n * m))) [ inl r ↦ rw r | inr r ↦ rw r ])
      ])

-- An HTTP/2 value that is read is at least 1 and at most the maximum of its directive.
pub parse_http2_value_bounds :
    (name : Text) (args : List Text) (v : ℕ)
    → parse_http2_value name args ≡ success v
    → (1 ≤ v) × (v ≤ http2_max name)
unfolding parse_http2_value
parse_http2_value_bounds name args v h =
    let (raw, _, h₁) = >>=-success (parse_exactly_one_argument args name) _ h in
    let (value, _, h₂) = >>=-success (http2_value name raw) _ h₁ in ground arith
