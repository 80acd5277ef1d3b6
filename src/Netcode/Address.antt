-- ===== src/Netcode/Address.antt =====
-- `SocketAddr` of the language's own library, and the equality tests of addresses and byte arrays.
use renet.Base.{ℕ, ◌≡◌, ◌↔◌, refl, Bool, true, false, ◌&&◌, [], ◌∷◌, ◌==◌, ==_iff, arith}
use renet.Packet.{Bytes}

pub data SocketAddr : Type 0 where
  v4 : (octets : Bytes) (port : ℕ) → SocketAddr
  v6 : (octets : Bytes) (port flowinfo scope_id : ℕ) → SocketAddr

abbrev pub same_bytes : Bytes → Bytes → Bool
same_bytes [] [] = true
same_bytes [] (c ∷ cs) = false
same_bytes (b ∷ bs) [] = false
same_bytes (b ∷ bs) (c ∷ cs) = b == c && same_bytes bs cs

abbrev pub same_addr : SocketAddr → SocketAddr → Bool
same_addr (v4 a p) (v4 b q) = p == q && same_bytes a b
same_addr (v6 a p f i) (v6 b q g j) = p == q && (f == g && (i == j && same_bytes a b))
same_addr (v4 _ _) (v6 _ _ _ _) = false
same_addr (v6 _ _ _ _) (v4 _ _) = false

pub same_bytes_iff : (bs cs : Bytes) → (same_bytes bs cs ≡ true) ↔ (bs ≡ cs)
same_bytes_iff [] [] = (λ _. refl, λ _. refl)
same_bytes_iff [] (c ∷ cs) = (λ e. absurd (cc e), λ e. absurd (cc e))
same_bytes_iff (b ∷ bs) [] = (λ e. absurd (cc e), λ e. absurd (cc e))
same_bytes_iff (b ∷ bs) (c ∷ cs) = ground (arith, ==_iff b c, same_bytes_iff bs cs)

pub same_addr_iff : (a b : SocketAddr) → (same_addr a b ≡ true) ↔ (a ≡ b)
same_addr_iff (v4 a p) (v4 b q) = ground (arith, ==_iff p q, same_bytes_iff a b)
same_addr_iff (v6 a p f i) (v6 b q g j) =
    ground (arith, ==_iff p q, ==_iff f g, ==_iff i j, same_bytes_iff a b)
same_addr_iff (v4 _ _) (v6 _ _ _ _) = (λ e. absurd (cc e), λ e. absurd (cc e))
same_addr_iff (v6 _ _ _ _) (v4 _ _) = (λ e. absurd (cc e), λ e. absurd (cc e))

pub same_addr_refl : (a : SocketAddr) → same_addr a a ≡ true
same_addr_refl a = (same_addr_iff a a).1 refl
