-- ===== src/Std/Net.antt =====
-- `std::net::IpAddr`: the address as one number of 32 or of 128 bits.
use tenodera.Prelude.{ℕ, ◌/◌, ◌^◌, ◌≡◌, ◌↔◌, Bool, false, true, arith, Key, nat_eq, ◌==◌}

pub data IpAddr : Type 0 where
  v4 : ℕ → IpAddr
  v6 : ℕ → IpAddr

-- 127.0.0.0/8 and ::1
unfoldable pub is_loopback : IpAddr → Bool
is_loopback (v4 a) = a / 2 ^ 24 == 127
is_loopback (v6 a) = a == 1

abbrev pub ip_beq : IpAddr → IpAddr → Bool
ip_beq (v4 a) (v4 b) = a == b
ip_beq (v6 a) (v6 b) = a == b
ip_beq _ _ = false

pub ip_beq_iff : (a b : IpAddr) → (ip_beq a b ≡ true) ↔ (a ≡ b)
ip_beq_iff (v4 a) (v4 b) = ground arith
ip_beq_iff (v4 a) (v6 b) = ground arith
ip_beq_iff (v6 a) (v4 b) = ground arith
ip_beq_iff (v6 a) (v6 b) = ground arith

instance abbrev pub ip_eq : Key IpAddr
ip_eq = record { same = ip_beq; same_iff = ip_beq_iff }
