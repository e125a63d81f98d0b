-- ===== src/Compile/Values/Durations.antt =====
-- Durations: the printed form of a list of segments is read back.
use ngxora.Base.{
  ℕ, zero, suc, ◌+◌, ◌*◌, ◌≤◌, ◌<◌, ◌≡◌, refl, ◌∙◌, ap, arith, Bool, true, false, List, [], ◌∷◌,
  ◌++◌, some, Text, text_eq, ltb, to_string, length, length-append,
}
use ngxora.Machine.{u64_max, from_millis}
use ngxora.Outcome.{success}
use ngxora.Compile.Values.{
  is_digit, u128_max, unit_multiplier_millis, read_unit, read_segment, read_segments,
  parse_duration_literal,
}
use ngxora.Compile.Values.Digits.{
  Undigited, split_digits-append, AllDigits-to_string, parse_digits-to_string, to_string-cons,
}

-- A text that is empty or begins with a digit.
abbrev pub NextSegment : Text → Type 0
NextSegment [] = Unit {0}
NextSegment (c ∷ s) = is_digit c ≡ true

unit-Undigited :
    (unit rest : Text) (m : ℕ) → unit_multiplier_millis unit ≡ some m → Undigited (unit ++ rest)
unfolding unit_multiplier_millis text_eq
unit-Undigited [] rest m h = ground arith
unit-Undigited (c ∷ u) rest m h = ground arith

read_unit_lem :
    (name raw unit rest : Text) (saw : Bool) (m : ℕ)
    → unit_multiplier_millis unit ≡ some m
    → NextSegment rest
    → read_unit name raw saw (unit ++ rest) ≡ success (unit, rest)
unfolding read_unit unit_multiplier_millis text_eq
read_unit_lem name raw [] rest saw m h k = ground arith
read_unit_lem name raw (c ∷ []) [] saw m h k = ground arith
read_unit_lem name raw (c ∷ []) (x ∷ rest) saw m h k = ground arith
read_unit_lem name raw (c ∷ d ∷ []) rest saw m h k = ground arith
read_unit_lem name raw (c ∷ d ∷ e ∷ u) rest saw m h k = ground arith

unit_multiplier-pos : (unit : Text) (m : ℕ) → unit_multiplier_millis unit ≡ some m → 1 ≤ m
unfolding unit_multiplier_millis
unit_multiplier-pos unit m h = ground arith

-- A segment is a number, its unit and the unit's milliseconds.
pub record Segment : Type 0 where
  pub count : ℕ
  pub unit : Text
  pub millis : ℕ
  pub is_unit : unit_multiplier_millis unit ≡ some millis

abbrev pub render : List Segment → Text
render [] = []
render (s ∷ segments) = to_string s.count ++ (s.unit ++ render segments)

abbrev pub millis_of : List Segment → ℕ
millis_of [] = 0
millis_of (s ∷ segments) = s.count * s.millis + millis_of segments

read_segment_lem :
    (name raw : Text) (saw : Bool) (total : ℕ) (s : Segment) (rest : Text)
    → total + s.count * s.millis ≤ u128_max
    → NextSegment rest
    → read_segment name raw saw total (to_string s.count ++ (s.unit ++ rest))
      ≡ success (total + s.count * s.millis, rest)
unfolding read_segment
read_segment_lem name raw saw total s rest h k =
    let m = unit_multiplier-pos s.unit s.millis s.is_unit in
    let l : s.count ≤ s.count * s.millis = grind arith in
    let fits : ltb u128_max s.count ≡ false = ground arith in
    let fits' : ltb u128_max (s.count * s.millis) ≡ false = ground arith in
    let fits'' : ltb u128_max (total + s.count * s.millis) ≡ false = ground arith in
    rw
      (split_digits-append (to_string s.count) (s.unit ++ rest) (AllDigits-to_string s.count)
        (unit-Undigited s.unit rest s.millis s.is_unit))
      (rw (parse_digits-to_string u128_max s.count) (
        rw fits (
          rw (read_unit_lem name raw s.unit rest saw s.millis s.is_unit k)
            (rw s.is_unit (rw fits' (rw fits'' refl))))))

to_string-NextSegment : (n : ℕ) (rest : Text) → NextSegment (to_string n ++ rest)
to_string-NextSegment n rest = let (c, t, e, d) = to_string-cons n in rw e d

render-NextSegment : (segments : List Segment) → NextSegment (render segments)
render-NextSegment [] = tt
render-NextSegment (s ∷ segments) = to_string-NextSegment s.count (s.unit ++ render segments)

read_segments_step :
    (fuel : ℕ) (name raw : Text) (saw : Bool) (total total' : ℕ) (text rest : Text)
    → 0 < length text
    → read_segment name raw saw total text ≡ success (total', rest)
    → read_segments (suc fuel) name raw saw total text
      ≡ read_segments fuel name raw true total' rest
unfolding read_segments
read_segments_step fuel name raw saw total total' [] rest l e = absurd (omega arith)
read_segments_step fuel name raw saw total total' (c ∷ text) rest l e = rw e

length-render :
    (s : Segment) (segments : List Segment)
    → length (render segments) < length (render (s ∷ segments))
length-render s segments =
    let (c, t, e, d) = to_string-cons s.count in
    rw e (
      omega (
        arith,
        length-append t (s.unit ++ render segments),
        length-append s.unit (render segments),
      ))

read_segments-render :
    (fuel : ℕ) (name raw : Text) (saw : Bool) (total : ℕ) (segments : List Segment)
    → length (render segments) ≤ fuel
    → total + millis_of segments ≤ u128_max
    → read_segments fuel name raw saw total (render segments) ≡ success (total + millis_of segments)
unfolding read_segments
read_segments-render fuel name raw saw total [] h k = ap success (omega arith)
read_segments-render zero name raw saw total (s ∷ segments) h k =
    absurd (omega (arith, length-render s segments))
read_segments-render (suc fuel) name raw saw total (s ∷ segments) h k =
    read_segments_step fuel name raw saw total (total + s.count * s.millis) (render (s ∷ segments))
      (render segments) (omega (arith, length-render s segments))
      (read_segment_lem name raw saw total s (render segments) (omega arith)
        (render-NextSegment segments))
    ∙ read_segments-render fuel name raw true (total + s.count * s.millis) segments
        (omega (arith, length-render s segments)) (omega arith)
    ∙ ap success (omega arith)

-- A time literal that is written as segments, each a number in decimal digits with one of the units,
-- is read as the sum of the segments in milliseconds. The condition is that the sum fits a `u64`.
pub parse_duration_literal-render :
    (name : Text) (s : Segment) (segments : List Segment)
    → millis_of (s ∷ segments) ≤ u64_max
    → parse_duration_literal (render (s ∷ segments)) name
      ≡ success (from_millis (millis_of (s ∷ segments)))
unfolding parse_duration_literal
parse_duration_literal-render name s segments h =
    by_text (render (s ∷ segments)) (omega (arith, length-render s segments)) (
      read_segments-render (length (render (s ∷ segments))) name (render (s ∷ segments)) false 0
        (s ∷ segments) (omega arith) (omega arith))
  where
    by_text :
        (t : Text)
        → 0 < length t
        → read_segments (length t) name t false 0 t ≡ success (0 + millis_of (s ∷ segments))
        → parse_duration_literal t name ≡ success (from_millis (millis_of (s ∷ segments)))
    by_text [] l e = absurd (omega arith)
    by_text (c ∷ t) l e =
        let fits : ltb u64_max (0 + millis_of (s ∷ segments)) ≡ false = ground arith in
        let plain : 0 + millis_of (s ∷ segments) ≡ millis_of (s ∷ segments) = omega arith in
        rw e (rw fits (rw plain refl))
