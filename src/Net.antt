-- ===== src/Net.antt =====
-- `std::net::IpAddr`: an address of either family, as the number it stands for.
pub mod Bits
pub mod Parse
use rubix_redis_bridge.Prelude.{ℕ, ◌≡◌, ◌↔◌, Bool, true, false, ◌==◌, Equality, arith}

pub data IpAddr : Type 0 where
  v4 : ℕ → IpAddr
  v6 : ℕ → IpAddr

unfoldable pub ip_beq : IpAddr → IpAddr → Bool
ip_beq (v4 a) (v4 b) = a == b
ip_beq (v4 a) (v6 b) = false
ip_beq (v6 a) (v4 b) = false
ip_beq (v6 a) (v6 b) = a == b

pub ip_beq_iff : (a b : IpAddr) → (ip_beq a b ≡ true) ↔ (a ≡ b)
unfolding ip_beq
ip_beq_iff (v4 a) (v4 b) = ground arith
ip_beq_iff (v4 a) (v6 b) = ground arith
ip_beq_iff (v6 a) (v4 b) = ground arith
ip_beq_iff (v6 a) (v6 b) = ground arith

instance abbrev pub ip_eq : Equality IpAddr
ip_eq = record { same = ip_beq; decides = ip_beq_iff }
