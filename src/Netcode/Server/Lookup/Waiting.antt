-- ===== src/Netcode/Server/Lookup/Waiting.antt =====
-- The pending clients of renetcode/src/server.rs, by their addresses.
use renet.Base.{
  suc, ◌≤◌, ◌≡◌, inl, inr, refl, sym, ap, subst, none, some, [], ◌∷◌, All, length, arith,
  Bool-cases,
}
use renet.Netcode.Address.{SocketAddr, same_addr, same_addr_iff, same_addr_refl}
use renet.Netcode.Server.{Connection, Pending}
use renet.Netcode.Server.Lookup.{get_pending, remove_pending, put_pending}

module _ (P : SocketAddr × Connection → Type 0) where
  pub get_pending-All :
      (pending : Pending) (addr : SocketAddr) (c : Connection)
      → All P pending
      → get_pending pending addr ≡ some c
      → P (addr, c)
  unfolding get_pending
  get_pending-All [] addr c h e = absurd (cc e)
  get_pending-All ((a, d) ∷ pending) addr c h e = elim (Bool-cases (same_addr a addr)) [
    | inl same ↦
        let f : some d ≡ some c = rw same at e in
        let w : d ≡ c = cc f in
        subst (λ x. P (addr, x)) w (subst (λ x. P (x, d)) ((same_addr_iff a addr).0 same) (h.0))
    | inr other ↦ get_pending-All pending addr c (h.1) (rw other at e)
  ]

  pub put_pending-All :
      (pending : Pending) (addr : SocketAddr) (c : Connection)
      → All P pending
      → P (addr, c)
      → All P (put_pending pending addr c)
  unfolding put_pending
  put_pending-All [] addr c h p = (p, tt)
  put_pending-All ((a, d) ∷ pending) addr c h p = elim (Bool-cases (same_addr a addr)) [
    | inl same ↦ rw same (subst (λ x. P (x, c)) (sym ((same_addr_iff a addr).0 same)) p, h.1)
    | inr other ↦ rw other (h.0, put_pending-All pending addr c (h.1) p)
  ]

  pub remove_pending-All :
      (pending : Pending) (addr : SocketAddr) → All P pending → All P (remove_pending pending addr)
  unfolding remove_pending
  remove_pending-All [] addr h = tt
  remove_pending-All ((a, d) ∷ pending) addr h = elim (Bool-cases (same_addr a addr)) [
    | inl same ↦ rw same (remove_pending-All pending addr (h.1))
    | inr other ↦ rw other (h.0, remove_pending-All pending addr (h.1))
  ]

pub length-put_pending-some :
    (pending : Pending) (addr : SocketAddr) (c v : Connection)
    → get_pending pending addr ≡ some c
    → length (put_pending pending addr v) ≡ length pending
unfolding get_pending put_pending
length-put_pending-some [] addr c v e = absurd (cc e)
length-put_pending-some ((a, d) ∷ pending) addr c v e = elim (Bool-cases (same_addr a addr)) [
  | inl same ↦ rw same refl
  | inr other ↦ rw other (ap suc (length-put_pending-some pending addr c v (rw other at e)))
]

pub length-put_pending :
    (pending : Pending) (addr : SocketAddr) (v : Connection)
    → length (put_pending pending addr v) ≤ suc (length pending)
unfolding put_pending
length-put_pending [] addr v = omega arith
length-put_pending ((a, d) ∷ pending) addr v = elim (Bool-cases (same_addr a addr)) [
  | inl same ↦ rw same (omega arith)
  | inr other ↦ rw other (omega (arith, length-put_pending pending addr v))
]

pub length-remove_pending :
    (pending : Pending) (addr : SocketAddr) → length (remove_pending pending addr) ≤ length pending
unfolding remove_pending
length-remove_pending [] addr = omega arith
length-remove_pending ((a, d) ∷ pending) addr = elim (Bool-cases (same_addr a addr)) [
  | inl same ↦ rw same (omega (arith, length-remove_pending pending addr))
  | inr other ↦ rw other (omega (arith, length-remove_pending pending addr))
]

-- What was put is there.
pub get_pending-put_pending :
    (pending : Pending) (addr : SocketAddr) (v : Connection)
    → get_pending (put_pending pending addr v) addr ≡ some v
unfolding get_pending put_pending
get_pending-put_pending [] addr v = rw (same_addr_refl addr) refl
get_pending-put_pending ((a, d) ∷ pending) addr v = elim (Bool-cases (same_addr a addr)) [
  | inl same ↦ rw (same, same) refl
  | inr other ↦ rw (other, other) (get_pending-put_pending pending addr v)
]

-- A pending client that comes, is written again and goes, leaves the others as they were.
pub remove_pending-put_pending :
    (pending : Pending) (addr : SocketAddr) (v w : Connection)
    → get_pending pending addr ≡ none
    → remove_pending (put_pending (put_pending pending addr v) addr w) addr ≡ pending
unfolding get_pending put_pending remove_pending
remove_pending-put_pending [] addr v w e = let same = same_addr_refl addr in rw (same, same) refl
remove_pending-put_pending ((a, d) ∷ pending) addr v w e = elim (Bool-cases (same_addr a addr)) [
  | inl same ↦ absurd (cc (rw same at e))
  | inr other ↦
      rw (other, other, other)
        (ap (λ l. (a, d) ∷ l) (remove_pending-put_pending pending addr v w (rw other at e)))
]
