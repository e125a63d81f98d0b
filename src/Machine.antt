-- ===== src/Machine.antt =====
-- Rust's machine integers and `Duration`s over the natural numbers, with their wrap-around and
-- saturation written out.
use ngxora.Base.{ℕ, ◌+◌, ◌-◌, ◌*◌, ◌%◌, ◌^◌, min, Option, none, some, ltb, if◌then◌else◌}

abbrev pub u64_max : ℕ
u64_max = 2 ^ 64 - 1

abbrev pub u32_max : ℕ
u32_max = 2 ^ 32 - 1

abbrev pub u16_max : ℕ
u16_max = 2 ^ 16 - 1

-- `u64::saturating_add`
abbrev pub saturating_add : ℕ → ℕ → ℕ
saturating_add a b = min (a + b) u64_max

-- `+=` and `-=` on `u64`, which wrap in a release build
abbrev pub wrapping_add : ℕ → ℕ → ℕ
wrapping_add a b = (a + b) % 2 ^ 64

abbrev pub wrapping_sub : ℕ → ℕ → ℕ
wrapping_sub a b = (a + 2 ^ 64 - b) % 2 ^ 64

-- `u64::checked_add`
abbrev pub checked_add : ℕ → ℕ → Option ℕ
checked_add a b = if ltb u64_max (a + b) then none else some (a + b)

-- A `Duration` or an `Instant` is a number of nanoseconds.
abbrev pub from_millis : ℕ → ℕ
from_millis ms = ms * 1_000_000

abbrev pub from_secs : ℕ → ℕ
from_secs s = s * 1_000_000_000

-- `Duration::MAX`
abbrev pub duration_max : ℕ
duration_max = 2 ^ 64 * 1_000_000_000 - 1

-- `Duration::saturating_add`
abbrev pub duration_add : ℕ → ℕ → ℕ
duration_add a b = min (a + b) duration_max

-- `Instant::elapsed` at the instant `now`; it stops at zero
abbrev pub elapsed : ℕ → ℕ → ℕ
elapsed now since = now - since
