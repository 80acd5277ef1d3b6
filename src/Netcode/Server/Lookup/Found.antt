-- ===== src/Netcode/Server/Lookup/Found.antt =====
-- What the look-ups of renetcode/src/server.rs find.
use renet.Base.{
  ℕ, zero, suc, ◌≡◌, ◌≢◌, inl, inr, refl, sym, ap, ◌∙◌, subst, Option, none, some, [], ◌∷◌, set,
  ◌==◌, ==_iff, Bool-cases,
}
use renet.Netcode.Address.{SocketAddr, same_addr, same_addr_iff}
use renet.Netcode.Server.{Connection, Slots}
use renet.Netcode.Server.Consistent.{Holds}
use renet.Netcode.Server.Lookup.{
  find_client_mut_by_addr, after_found, find_client_slot_by_id, after, put_client_by_id,
  find_client_by_id,
}

after_found-none : (o : Option (ℕ × Connection)) → after_found o ≡ none → o ≡ none
after_found-none none e = refl
after_found-none (some (i, c)) e = absurd (cc e)

after_found-some :
    (o : Option (ℕ × Connection)) (i : ℕ) (c : Connection)
    → after_found o ≡ some (i, c)
    → (j : ℕ) × (i ≡ suc j) × (o ≡ some (j, c))
after_found-some none i c e = absurd (cc e)
after_found-some (some (j, d)) i c e =
    let p : suc j ≡ i = cc e in let q : d ≡ c = cc e in (j, sym p, ap (λ x. some (j, x)) q)

after-some : (o : Option ℕ) (i : ℕ) → after o ≡ some i → (j : ℕ) × (i ≡ suc j) × (o ≡ some j)
after-some none i e = absurd (cc e)
after-some (some j) i e = let p : suc j ≡ i = cc e in (j, sym p, refl)

-- No client is at an address that is not found.
pub find_client_mut_by_addr-none :
    (clients : Slots) (addr : SocketAddr)
    → find_client_mut_by_addr clients addr ≡ none
    → (j : ℕ) (d : Connection) → Holds clients j d
    → d.addr ≢ addr
unfolding find_client_mut_by_addr
find_client_mut_by_addr-none [] addr e j d h = absurd (cc h)
find_client_mut_by_addr-none (none ∷ clients) addr e zero d h = absurd (cc h)
find_client_mut_by_addr-none (none ∷ clients) addr e (suc j) d h =
    find_client_mut_by_addr-none clients addr (after_found-none _ e) j d h
find_client_mut_by_addr-none (some c ∷ clients) addr e zero d h =
    elim (Bool-cases (same_addr c.addr addr)) [
      | inl same ↦ absurd (cc (rw same at e))
      | inr other ↦ λ q.
          let c_is : c ≡ d = cc h in
          let same = (same_addr_iff c.addr addr).1 (ap (λ (x : Connection). x.addr) c_is ∙ q) in
          cc (sym other ∙ same)
    ]
find_client_mut_by_addr-none (some c ∷ clients) addr e (suc j) d h =
    elim (Bool-cases (same_addr c.addr addr)) [
      | inl same ↦ absurd (cc (rw same at e))
      | inr other ↦
          find_client_mut_by_addr-none clients addr (after_found-none _ (rw other at e)) j d h
    ]

-- The slot and the client of an address that is found.
pub find_client_mut_by_addr-some :
    (clients : Slots) (addr : SocketAddr) (i : ℕ) (c : Connection)
    → find_client_mut_by_addr clients addr ≡ some (i, c)
    → Holds clients i c × (c.addr ≡ addr)
unfolding find_client_mut_by_addr
find_client_mut_by_addr-some [] addr i c e = absurd (cc e)
find_client_mut_by_addr-some (none ∷ clients) addr i c e =
    let (j, p, q) = after_found-some _ i c e in
    let (h, a) = find_client_mut_by_addr-some clients addr j c q in
    (subst (λ n. Holds (none ∷ clients) n c) (sym p) h, a)
find_client_mut_by_addr-some (some d ∷ clients) addr i c e =
    elim (Bool-cases (same_addr d.addr addr)) [
      | inl same ↦
          let f : Path (Option (ℕ × Connection)) (some (0, d)) (some (i, c)) = rw same at e in
          let n : 0 ≡ i = cc f in
          let w : d ≡ c = cc f in
          (
            subst (λ n. Holds (some d ∷ clients) n c) n (ap some (ap some w)),
            sym (ap (λ (x : Connection). x.addr) w) ∙ (same_addr_iff d.addr addr).0 same,
          )
      | inr other ↦
          let (j, p, q) = after_found-some _ i c (rw other at e) in
          let (h, a) = find_client_mut_by_addr-some clients addr j c q in
          (subst (λ n. Holds (some d ∷ clients) n c) (sym p) h, a)
    ]

pub find_client_slot_by_id-some :
    (clients : Slots) (client_id i : ℕ)
    → find_client_slot_by_id clients client_id ≡ some i
    → (c : Connection) × Holds clients i c × (c.client_id ≡ client_id)
unfolding find_client_slot_by_id
find_client_slot_by_id-some [] client_id i e = absurd (cc e)
find_client_slot_by_id-some (none ∷ clients) client_id i e =
    let (j, p, q) = after-some _ i e in
    let (c, h, a) = find_client_slot_by_id-some clients client_id j q in
    (c, subst (λ n. Holds (none ∷ clients) n c) (sym p) h, a)
find_client_slot_by_id-some (some d ∷ clients) client_id i e =
    elim (Bool-cases (d.client_id == client_id)) [
      | inl same ↦
          let f : some 0 ≡ some i = rw same at e in
          let n : 0 ≡ i = cc f in
          (
            d,
            subst (λ n. Holds (some d ∷ clients) n d) n refl,
            (==_iff d.client_id client_id).0 same,
          )
      | inr other ↦
          let (j, p, q) = after-some _ i (rw other at e) in
          let (c, h, a) = find_client_slot_by_id-some clients client_id j q in
          (c, subst (λ n. Holds (some d ∷ clients) n c) (sym p) h, a)
    ]

-- A write by id is a write into the slot.
pub put_client_by_id-set :
    (clients : Slots) (client_id : ℕ) (c v : Connection)
    → find_client_by_id clients client_id ≡ some c
    → (i : ℕ) × Holds clients i c × (put_client_by_id clients client_id v ≡ set clients i (some v))
unfolding find_client_by_id put_client_by_id
put_client_by_id-set [] client_id c v e = absurd (cc e)
put_client_by_id-set (none ∷ clients) client_id c v e =
    let (i, h, q) = put_client_by_id-set clients client_id c v e in (suc i, h, ap (λ l. none ∷ l) q)
put_client_by_id-set (some d ∷ clients) client_id c v e =
    elim (Bool-cases (d.client_id == client_id)) [
      | inl same ↦ let f : some d ≡ some c = rw same at e in (0, ap some f, rw same refl)
      | inr other ↦
          let (i, h, q) = put_client_by_id-set clients client_id c v (rw other at e) in
          (suc i, h, rw other (ap (λ l. some d ∷ l) q))
    ]

-- An id that no client has is in no slot.
pub find_client_slot_by_id-none :
    (clients : Slots) (client_id : ℕ)
    → find_client_by_id clients client_id ≡ none
    → find_client_slot_by_id clients client_id ≡ none
unfolding find_client_by_id find_client_slot_by_id
find_client_slot_by_id-none [] client_id e = refl
find_client_slot_by_id-none (none ∷ clients) client_id e =
    ap after (find_client_slot_by_id-none clients client_id e)
find_client_slot_by_id-none (some c ∷ clients) client_id e =
    elim (Bool-cases (c.client_id == client_id)) [
      | inl same ↦ absurd (cc (rw same at e))
      | inr other ↦
          rw other (ap after (find_client_slot_by_id-none clients client_id (rw other at e)))
    ]
