-- ===== src/Base/Decimal.antt =====
-- The decimal digits of a number, as `to_string` writes them.
use Prim.Native.Nat.{ℕ, zero, suc, ◌+◌, ◌/◌, ◌%◌}
use mathlib.Core.List.{[], ◌∷◌, ◌++◌}
use package.ngxora.Base.Tests.{ltb, if◌then◌else◌}
use package.ngxora.Base.Strings.{Text}

-- A number has no more digits than its value plus one.
unfoldable pub digits_from : ℕ → ℕ → Text
digits_from zero n = []
digits_from (suc fuel) n =
    let front = digits_from fuel (n / 10) in
    if ltb n 10 then (n + b'0') ∷ [] else front ++ (n % 10 + b'0') ∷ []

unfoldable pub to_string : ℕ → Text
unfolding digits_from
to_string n = digits_from (suc n) n
