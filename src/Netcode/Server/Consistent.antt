-- ===== src/Netcode/Server/Consistent.antt =====
-- What holds of the clients of renetcode/src/server.rs between two calls.
pub mod Requests
pub mod Clients
pub mod Packets
pub mod Updates
pub mod Runs
use renet.Base.{
  ℕ, zero, suc, ◌+◌, ◌<◌, ◌≤◌, ◌≡◌, ◌≢◌, ◌⊎◌, inl, inr, refl, sym, ap, ◌∙◌, subst, Bool, true,
  false, Option, none, some, List, [], ◌∷◌, All, length, length-set, get_elem?, get_elem?-set_self,
  get_elem?-set_ne, get_elem?-some-lt, set, if◌then◌else◌, ◌==◌, ==_iff, arith, Bool-cases,
}
use renet.Netcode.Limits.{max_pending_clients}
use renet.Netcode.Address.{SocketAddr, same_addr, same_addr_iff}
use renet.Netcode.Server.{Connection, ConnectionState, Slots, Pending, NetcodeServer}
use renet.Netcode.Server.Lookup.{
  find_client_mut_by_addr, after_found, find_client_slot_by_id, after, get_pending, remove_pending,
  put_pending,
}

-- The slot holds the client.
abbrev pub Holds : Slots → ℕ → Connection → Type 0
Holds clients i c = get_elem? clients i ≡ some (some c)

-- The clients in the slots are connected, no two from one address.
abbrev pub IsDistinct : Slots → Type 0
IsDistinct clients =
    (i j : ℕ) (c d : Connection) → Holds clients i c → Holds clients j d → c.addr ≡ d.addr → i ≡ j

abbrev pub IsConnected : Slots → Type 0
IsConnected clients =
    (i : ℕ) (c : Connection) → Holds clients i c → c.state ≡ ConnectionState.connected

-- A pending client is under its own address, and waits for a response.
abbrev pub IsPending : SocketAddr × Connection → Type 0
IsPending x = (x.1.addr ≡ x.0) × (x.1.state ≡ ConnectionState.pending_response)

abbrev pub IsConsistent : NetcodeServer → Type 0
IsConsistent server =
    IsDistinct server.clients
    × IsConnected server.clients
    × All IsPending server.pending_clients
    × (length server.pending_clients ≤ max_pending_clients)

-- What may be put into a slot.
abbrev pub IsPlaceable : Slots → ℕ → Option Connection → Type 0
IsPlaceable clients slot none = Unit
IsPlaceable clients slot (some c) =
    (c.state ≡ ConnectionState.connected)
    × ((j : ℕ) (d : Connection) → j ≢ slot → Holds clients j d → d.addr ≢ c.addr)

-- A slot after the write is that of the write, or as it was.
set-cases :
    (clients : Slots) (slot : ℕ) (v : Option Connection) (i : ℕ) (c : Connection)
    → Holds (set clients slot v) i c
    → ((i ≡ slot) × (v ≡ some c)) ⊎ ((i ≢ slot) × Holds clients i c)
set-cases clients slot v i c h = elim (Bool-cases (i == slot)) [
  | inl same ↦
      let e : i ≡ slot = (==_iff i slot).0 same in
      let there : slot < length clients =
        subst (λ n. n < length clients) e
          (subst (λ n. i < n) (length-set clients slot v)
            (get_elem?-some-lt (set clients slot v) i (some c) h)) in
      let q : get_elem? (set clients slot v) slot ≡ some (some c) =
        subst (λ n. Holds (set clients slot v) n c) e h in
      inl (e, cc (sym (get_elem?-set_self clients slot v there) ∙ q))
  | inr other ↦
      let ne : i ≢ slot = λ e. cc (sym ((==_iff i slot).1 e) ∙ other) in
      inr (ne, sym (get_elem?-set_ne clients slot i v (λ e. ne (sym e))) ∙ h)
]

pub set-IsDistinct :
    (clients : Slots) (slot : ℕ) (v : Option Connection)
    → IsDistinct clients
    → IsPlaceable clients slot v
    → IsDistinct (set clients slot v)
set-IsDistinct clients slot none d p i j c c' h h' e = elim (set-cases clients slot none i c h) [
  | inl (_, q) ↦ absurd (cc q)
  | inr (_, k) ↦ elim (set-cases clients slot none j c' h') [
    | inl (_, q) ↦ absurd (cc q)
    | inr (_, k') ↦ d i j c c' k k' e
  ]
]
set-IsDistinct clients slot (some w) d p i j c c' h h' e =
    elim (set-cases clients slot (some w) i c h) [
      | inl (s, q) ↦ elim (set-cases clients slot (some w) j c' h') [
        | inl (s', _) ↦ s ∙ sym s'
        | inr (n, k') ↦
            let w_is : w ≡ c = cc q in
            absurd (p.1 j c' n k' (sym e ∙ sym (ap (λ (x : Connection). x.addr) w_is)))
      ]
      | inr (n, k) ↦ elim (set-cases clients slot (some w) j c' h') [
        | inl (s', q) ↦
            let w_is : w ≡ c' = cc q in
            absurd (p.1 i c n k (e ∙ sym (ap (λ (x : Connection). x.addr) w_is)))
        | inr (_, k') ↦ d i j c c' k k' e
      ]
    ]

pub set-IsConnected :
    (clients : Slots) (slot : ℕ) (v : Option Connection)
    → IsConnected clients
    → IsPlaceable clients slot v
    → IsConnected (set clients slot v)
set-IsConnected clients slot none d p i c h = elim (set-cases clients slot none i c h) [
  | inl (_, q) ↦ absurd (cc q)
  | inr (_, k) ↦ d i c k
]
set-IsConnected clients slot (some w) d p i c h = elim (set-cases clients slot (some w) i c h) [
  | inl (_, q) ↦
      let w_is : w ≡ c = cc q in
      subst (λ (x : Connection). x.state ≡ ConnectionState.connected) w_is (p.0)
  | inr (_, k) ↦ d i c k
]

-- A client that stays connected at its address keeps its place.
pub same-IsPlaceable :
    (clients : Slots) (slot : ℕ) (c c' : Connection)
    → IsDistinct clients
    → Holds clients slot c
    → c'.addr ≡ c.addr
    → c'.state ≡ ConnectionState.connected
    → IsPlaceable clients slot (some c')
same-IsPlaceable clients slot c c' d h e s = (s, λ j w n k f. n (d j slot w c k h (f ∙ e)))
