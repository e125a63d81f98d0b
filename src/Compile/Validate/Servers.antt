-- ===== src/Compile/Validate/Servers.antt =====
-- Which lists of servers and locations are valid.
use ngxora.Base.{ℕ, ◌+◌, ◌≡◌, ◌↔◌, refl, List, [], ◌∷◌, All}
use ngxora.Outcome.{success}
use ngxora.Compile.Ir.{Server}
use ngxora.Compile.Ir.Locations.{Location}
use ngxora.Compile.Validate.{validate_location, validate_locations, validate_servers}
use ngxora.Compile.Validate.Acceptance.{
  IsValidLocation, IsSizedLocation, validate_location_iff, seq_iff,
}

abbrev pub IsValidServer : Server → Type 0
IsValidServer s = All IsValidLocation s.locations

abbrev pub IsSizedServer : Server → Type 0
IsSizedServer s = All IsSizedLocation s.locations

validate_locations_iff :
    (s n : ℕ) (ls : List Location)
    → All IsSizedLocation ls
    → (validate_locations s n ls ≡ success tt) ↔ All IsValidLocation ls
unfolding validate_locations
validate_locations_iff s n [] z = (λ h. tt, λ h. refl)
validate_locations_iff s n (l ∷ ls) (z, zs) =
    seq_iff (validate_location s n l) (validate_locations s (n + 1) ls)
      (validate_location_iff s n l z) (validate_locations_iff s (n + 1) ls zs)

pub validate_servers_iff :
    (n : ℕ) (ss : List Server)
    → All IsSizedServer ss
    → (validate_servers n ss ≡ success tt) ↔ All IsValidServer ss
unfolding validate_servers
validate_servers_iff n [] z = (λ h. tt, λ h. refl)
validate_servers_iff n (s ∷ ss) (z, zs) =
    seq_iff (validate_locations n 0 s.locations) (validate_servers (n + 1) ss)
      (validate_locations_iff n 0 s.locations z) (validate_servers_iff (n + 1) ss zs)
