-- ===== src/Net.antt =====
-- `std::net::IpAddr`, with its equality.
use ngxora.Base.{ℕ, ◌≡◌, ◌↔◌, Bool, true, false, ◌==◌, Eq, arith}

pub data IpAddr : Type 0 where
  v4 : ℕ → IpAddr
  v6 : ℕ → IpAddr

abbrev pub ip_eq : IpAddr → IpAddr → Bool
ip_eq (v4 a) (v4 b) = a == b
ip_eq (v6 a) (v6 b) = a == b
ip_eq _ _ = false

pub ip_eq_iff : (a b : IpAddr) → (ip_eq a b ≡ true) ↔ (a ≡ b)
ip_eq_iff (v4 a) (v4 b) = ground arith
ip_eq_iff _ _ = ground arith

instance abbrev pub ip_has_eq : Eq IpAddr
ip_has_eq = record { same = ip_eq; same_iff = ip_eq_iff }
