-- ===== src/Compile/Values.antt =====
-- crates/ngxora-compile/src/transform/values.rs. A text is its UTF-8 bytes.
pub mod Digits
pub mod Sizes
pub mod Durations
pub mod Loop
use ngxora.Base.{
  ℕ, zero, suc, ◌+◌, ◌-◌, ◌*◌, ◌^◌, Bool, true, false, ◌&&◌, ◌||◌, List, [], ◌∷◌, ◌++◌, Option,
  none, some, Text, text_eq, codes, ends_with, ltb, leb, ◌==◌, if◌then◌else◌, length,
}
use ngxora.Machine.{u64_max, u32_max, from_millis}
use ngxora.Outcome.{Outcome, success, failure, ◌>>=◌, ◌>>◌, ok_or, ensure}
use ngxora.Config.Ast.{Node, directive, block, Nodes}
use ngxora.Compile.Ir.Options.{Switch, on, off, KeepaliveTimeout, timeout, i32_max}

-- The messages of `LowerErr`. `not_a_boundary` is the panic of a slice that ends inside a
-- character, and `out_of_fuel` is of the model.
pub data Reason : Type 0 where
  expected_one expected_exactly_one not_positive duplicated expected_switch : Reason
  expected_exactly_one_switch expected_one_or_two expected_positive_integer : Reason
  invalid_integer invalid_time missing_unit time_too_large invalid_size size_too_large :
      Text → Reason
  unsupported_time_unit unsupported_size_unit : Text → Text → Reason
  expected : Text → Reason
  out_of_range : ℕ → Reason
  not_a_boundary out_of_fuel : Reason

pub record LowerErr : Type 0 where
  pub directive : Text
  pub reason : Reason

abbrev pub Lowered : Type 0 → Type 0
Lowered T = Outcome LowerErr T

abbrev pub lower_err : {T : Type 0} → Text → Reason → Lowered T
lower_err name why = failure (record { directive = name; reason = why })

abbrev pub is_digit : ℕ → Bool
is_digit c = leb b'0' c && leb c b'9'

-- `str::parse` of an unsigned integer whose maximum is given: an optional `+`, then digits.
unfoldable pub digits_value : ℕ → Text → Option ℕ
digits_value acc [] = some acc
digits_value acc (c ∷ s) =
    let rest = digits_value (acc * 10 + (c - b'0')) s in if is_digit c then rest else none

abbrev pub at_most : ℕ → Option ℕ → Option ℕ
at_most max none = none
at_most max (some n) = if ltb max n then none else some n

unfoldable pub parse_digits : ℕ → Text → Option ℕ
parse_digits max [] = none
parse_digits max (c ∷ s) = at_most max (digits_value 0 (c ∷ s))

unfoldable pub parse_uint : ℕ → Text → Option ℕ
unfolding parse_digits
parse_uint max [] = none
parse_uint max (c ∷ s) = if c == b'+' then parse_digits max s else parse_digits max (c ∷ s)

unfoldable pub parse_exactly_one_argument : List Text → Text → Lowered Text
parse_exactly_one_argument [] name = lower_err name expected_one
parse_exactly_one_argument (value ∷ []) name = success value
parse_exactly_one_argument (_ ∷ _ ∷ _) name = lower_err name expected_exactly_one

-- `usize` has 64 bits.
unfoldable pub parse_positive_usize : List Text → Text → Lowered ℕ
unfolding parse_exactly_one_argument parse_uint
parse_positive_usize args name = do
  value ← parse_exactly_one_argument args name
  parsed ←
      ok_or (record { directive = name; reason = invalid_integer value }) (parse_uint u64_max value)
  if parsed == 0 then lower_err name not_positive else success parsed

unfoldable pub ensure_non_zero_duration : ℕ → Text → Lowered (Unit {0})
ensure_non_zero_duration value name = if value == 0 then lower_err name not_positive else success tt

-- The slot and the outcome: the slot is written also where the outcome is an error.
unfoldable pub set_once : {T : Type 0} → Option T → T → Text → Option T × Lowered (Unit {0})
set_once none value name = (some value, success tt)
set_once (some _) value name = (some value, lower_err name duplicated)

unfoldable pub parse_basic_auth_single_value : List Text → Text → Text → Lowered Text
parse_basic_auth_single_value (value ∷ []) name message = success value
parse_basic_auth_single_value _ name message = lower_err name (expected message)

-- `values.join(" ")`
abbrev pub join_from : Text → List Text → Text
join_from first [] = first
join_from first (next ∷ rest) = first ++ (b' ' ∷ join_from next rest)

unfoldable pub parse_basic_auth_joined_value : List Text → Text → Text → Lowered Text
parse_basic_auth_joined_value [] name message = lower_err name (expected message)
parse_basic_auth_joined_value (value ∷ values) name message = success (join_from value values)

-- The fields of the block.
unfoldable pub block_named : Node → Text → Option (List Text × Nodes)
block_named (block name args children) wanted =
    if text_eq wanted name then some (args, children) else none
block_named (directive name args) wanted = none

unfoldable pub get_directive_switch : Text → List Text → Lowered Switch
get_directive_switch name [] = lower_err name expected_switch
get_directive_switch name (value ∷ []) =
    if text_eq value (codes "on")
    then success on
    else if text_eq value (codes "off")
    then success Switch.off
    else lower_err name expected_switch
get_directive_switch name (_ ∷ _ ∷ _) = lower_err name expected_exactly_one_switch

unfoldable pub unit_multiplier_millis : Text → Option ℕ
unit_multiplier_millis unit =
    if text_eq unit (codes "ms")
    then some 1
    else if text_eq unit (codes "s")
    then some 1_000
    else if text_eq unit (codes "m")
    then some 60_000
    else if text_eq unit (codes "h")
    then some 3_600_000
    else if text_eq unit (codes "d")
    then some 86_400_000
    else if text_eq unit (codes "w")
    then some 604_800_000
    else if text_eq unit (codes "M")
    then some 2_592_000_000
    else if text_eq unit (codes "y")
    then some 31_536_000_000
    else none

-- The digits that a text begins with, and what follows.
unfoldable pub split_digits : Text → Text × Text
split_digits [] = ([], [])
split_digits (c ∷ s) =
    let (digits, rest) = split_digits s in if is_digit c then (c ∷ digits, rest) else ([], c ∷ s)

abbrev pub u128_max : ℕ
u128_max = 2 ^ 128 - 1

-- The unit behind the digits of a segment, and what follows it. A slice of one byte is a character
-- if the byte is ASCII, and panics otherwise.
unfoldable pub read_unit : Text → Text → Bool → Text → Lowered (Text × Text)
read_unit name raw saw_segment [] =
    if saw_segment then lower_err name (missing_unit raw) else success (codes "s", [])
read_unit name raw saw_segment (c ∷ []) =
    if ltb c 128 then success (c ∷ [], []) else lower_err name not_a_boundary
read_unit name raw saw_segment (c ∷ d ∷ rest) =
    if c == b'm' && d == b's'
    then success (codes "ms", rest)
    else if ltb c 128
    then success (c ∷ [], d ∷ rest)
    else lower_err name not_a_boundary

-- A checked operation on `u128`.
abbrev pub fits_u128 : ℕ → Option ℕ
fits_u128 n = if ltb u128_max n then none else some n

-- One round of the loop: the new total, and what is left of the text.
unfoldable pub read_segment : Text → Text → Bool → ℕ → Text → Lowered (ℕ × Text)
unfolding split_digits parse_digits unit_multiplier_millis read_unit
read_segment name raw saw_segment total_millis text = do
  let (digits, behind) = split_digits text
  value ←
      ok_or (record { directive = name; reason = invalid_time raw }) (parse_digits u128_max digits)
  (unit, rest) ← read_unit name raw saw_segment behind
  multiplier ←
      ok_or (record { directive = name; reason = unsupported_time_unit unit raw })
        (unit_multiplier_millis unit)
  segment_millis ←
      ok_or (record { directive = name; reason = time_too_large raw })
        (fits_u128 (value * multiplier))
  total ←
      ok_or (record { directive = name; reason = time_too_large raw })
        (fits_u128 (total_millis + segment_millis))
  success (total, rest)

-- The loop, on fuel.
unfoldable pub read_segments : ℕ → Text → Text → Bool → ℕ → Text → Lowered ℕ
read_segments fuel name raw saw_segment total_millis [] = success total_millis
read_segments zero name raw saw_segment total_millis (c ∷ text) = lower_err name out_of_fuel
read_segments (suc fuel) name raw saw_segment total_millis (c ∷ text) = do
  (total, rest) ← read_segment name raw saw_segment total_millis (c ∷ text)
  read_segments fuel name raw true total rest

unfoldable pub parse_duration_literal : Text → Text → Lowered ℕ
unfolding read_segments
parse_duration_literal [] name = lower_err name (invalid_time [])
parse_duration_literal (c ∷ s) name = do
  total_millis ← read_segments (length (c ∷ s)) name (c ∷ s) false 0 (c ∷ s)
  if ltb u64_max total_millis
      then lower_err name (time_too_large (c ∷ s))
      else success (from_millis total_millis)

unfoldable pub parse_keepalive_timeout : List Text → Lowered KeepaliveTimeout
parse_keepalive_timeout [] = lower_err (codes "keepalive_timeout") expected_one_or_two
parse_keepalive_timeout (idle ∷ []) = do
  idle ← parse_duration_literal idle (codes "keepalive_timeout")
  success (if idle == 0 then KeepaliveTimeout.off else timeout idle none)
parse_keepalive_timeout (idle ∷ header ∷ []) = do
  idle ← parse_duration_literal idle (codes "keepalive_timeout")
  header ← parse_duration_literal header (codes "keepalive_timeout")
  success (if idle == 0 && header == 0 then KeepaliveTimeout.off else timeout idle (some header))
parse_keepalive_timeout (_ ∷ _ ∷ _ ∷ _) = lower_err (codes "keepalive_timeout") expected_one_or_two

unfoldable pub parse_keepalive_requests : List Text → Lowered ℕ
parse_keepalive_requests [] = lower_err (codes "keepalive_requests") expected_one
parse_keepalive_requests (value ∷ []) =
    ok_or (record { directive = codes "keepalive_requests"; reason = invalid_integer value })
      (parse_uint u32_max value)
parse_keepalive_requests (_ ∷ _ ∷ _) = lower_err (codes "keepalive_requests") expected_exactly_one

unfoldable pub size_multiplier : Text → Option ℕ
size_multiplier suffix =
    if text_eq suffix []
    then some 1
    else if text_eq suffix (codes "k") || text_eq suffix (codes "K")
    then some 1024
    else if text_eq suffix (codes "m") || text_eq suffix (codes "M")
    then some (1024 * 1024)
    else if text_eq suffix (codes "g") || text_eq suffix (codes "G")
    then some (1024 * 1024 * 1024)
    else none

unfoldable pub parse_size_literal : Text → Text → Lowered ℕ
unfolding split_digits parse_digits size_multiplier
parse_size_literal raw name = do
  let (digits, suffix) = split_digits raw
  value ←
      ok_or (record { directive = name; reason = invalid_size raw }) (parse_digits u64_max digits)
  multiplier ←
      ok_or (record { directive = name; reason = unsupported_size_unit suffix raw })
        (size_multiplier suffix)
  ok_or (record { directive = name; reason = size_too_large raw })
      (at_most u64_max (some (value * multiplier)))

unfoldable pub parse_client_max_body_size : List Text → Lowered (Option ℕ)
parse_client_max_body_size [] = lower_err (codes "client_max_body_size") expected_one
parse_client_max_body_size (value ∷ []) = do
  size ← parse_size_literal value (codes "client_max_body_size")
  success (if size == 0 then none else some size)
parse_client_max_body_size (_ ∷ _ ∷ _) =
    lower_err (codes "client_max_body_size") expected_exactly_one

unfoldable pub parse_single_duration_directive : List Text → Text → Lowered ℕ
parse_single_duration_directive [] name = lower_err name expected_one
parse_single_duration_directive (value ∷ []) name = parse_duration_literal value name
parse_single_duration_directive (_ ∷ _ ∷ _) name = lower_err name expected_exactly_one

-- The maximum of the value that a name asks for.
abbrev pub http2_max : Text → ℕ
http2_max name = if ends_with (codes "window_size") name then i32_max else u32_max

abbrev pub http2_value : Text → Text → Lowered ℕ
http2_value name raw =
    if ends_with (codes "max_concurrent_streams") name
    then ok_or (record { directive = name; reason = expected_positive_integer })
        (parse_uint u64_max raw)
    else parse_size_literal raw name

unfoldable pub parse_http2_value : Text → List Text → Lowered ℕ
unfolding parse_exactly_one_argument
parse_http2_value name args = do
  raw ← parse_exactly_one_argument args name
  value ← http2_value name raw
  if value == 0 || ltb (http2_max name) value
      then lower_err name (out_of_range (http2_max name))
      else success value
