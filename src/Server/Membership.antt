-- ===== src/Server/Membership.antt =====
-- The events and the connections of a server of renet/src/server.rs.
use renet.Base.{
  ℕ, ◌≡◌, refl, sym, ap, subst, ◌∙◌, Bool, true, false, none, some, List, [], ◌∷◌, ◌++◌,
  append_assoc, ◌==◌, if◌then◌else◌, arith, inl, inr, Option-cases,
}
use renet.Base.Map.{
  Map, get, insert, remove, contains_key, contains_key-get, get-insert, get-remove,
}
use renet.Base.Outcome.{Outcome, returns, ◌>>=◌, >>=-returns}
use renet.Error.{DisconnectReason}
use renet.Connection.Client.{RenetClient}
use renet.Server.{
  ServerEvent, client_connected, client_disconnected, RenetServer, change, change_all,
}

-- Whether a client is connected after the events, the first of them being the oldest.
abbrev pub present : Bool → List ServerEvent → ℕ → Bool
present b [] id = b
present b (client_connected c ∷ es) id = present (if c == id then true else b) es id
present b (client_disconnected c r ∷ es) id = present (if c == id then false else b) es id

-- `taken` lists the events that `get_event` has returned.
abbrev pub Tells : List ServerEvent → RenetServer → Type 0
Tells taken server =
    (id : ℕ) → contains_key server.connections id ≡ present false (taken ++ server.events) id

present-connected :
    (b : Bool) (es : List ServerEvent) (c id : ℕ)
    → present b (es ++ (client_connected c ∷ [])) id ≡ (if c == id then true else present b es id)
present-connected b [] c id = refl
present-connected b (client_connected d ∷ es) c id =
    present-connected (if d == id then true else b) es c id
present-connected b (client_disconnected d r ∷ es) c id =
    present-connected (if d == id then false else b) es c id

present-disconnected :
    (b : Bool) (es : List ServerEvent) (c id : ℕ) (r : DisconnectReason)
    → present b (es ++ (client_disconnected c r ∷ [])) id
      ≡ (if c == id then false else present b es id)
present-disconnected b [] c id r = refl
present-disconnected b (client_connected d ∷ es) c id r =
    present-disconnected (if d == id then true else b) es c id r
present-disconnected b (client_disconnected d q ∷ es) c id r =
    present-disconnected (if d == id then false else b) es c id r

contains-insert :
    (m : Map RenetClient) (k j : ℕ) (v : RenetClient)
    → contains_key (insert m k v) j ≡ (if k == j then true else contains_key m j)
contains-insert m k j v =
    ground (arith, contains_key-get (insert m k v) j, get-insert m k j v, contains_key-get m j)

contains-remove :
    (m : Map RenetClient) (k j : ℕ)
    → contains_key (remove m k) j ≡ (if k == j then false else contains_key m j)
contains-remove m k j =
    ground (arith, contains_key-get (remove m k) j, get-remove m k j, contains_key-get m j)

module _ (taken : List ServerEvent) (server : RenetServer) (t : Tells taken server) where
  pub joined :
      (id : ℕ) (c : RenetClient)
      → Tells taken (record server {
        connections = insert server.connections id c;
        events = server.events ++ (client_connected id ∷ []);
      })
  joined id c j =
      contains-insert server.connections id j c
      ∙ ap (λ b. if id == j then true else b) (t j)
      ∙ sym (present-connected false (taken ++ server.events) id j)
      ∙ ap (λ es. present false es j) (append_assoc taken server.events (client_connected id ∷ []))

  pub left :
      (id : ℕ) (r : DisconnectReason)
      → Tells taken (record server {
        connections = remove server.connections id;
        events = server.events ++ (client_disconnected id r ∷ []);
      })
  left id r j =
      contains-remove server.connections id j
      ∙ ap (λ b. if id == j then false else b) (t j)
      ∙ sym (present-disconnected false (taken ++ server.events) id j r)
      ∙ ap (λ es. present false es j)
          (append_assoc taken server.events (client_disconnected id r ∷ []))

-- A connection that is there changes, and the keys do not.
kept_keys :
    (m : Map RenetClient) (id j : ℕ) (c c' : RenetClient)
    → get m id ≡ some c
    → contains_key (insert m id c') j ≡ contains_key m j
kept_keys m id j c c' e = ground (arith, contains-insert m id j c', contains_key-get m j)

-- The events and the keys stay.
pub record Same (server server' : RenetServer) : Type 0 where
  pub keys : (j : ℕ) → contains_key server'.connections j ≡ contains_key server.connections j
  pub events : server'.events ≡ server.events

pub Same-Tells :
    (taken : List ServerEvent) (server server' : RenetServer)
    → Same server server'
    → Tells taken server
    → Tells taken server'
Same-Tells taken server server' s t j =
    s.keys j ∙ t j ∙ ap (λ es. present false (taken ++ es) j) (sym s.events)

pub inserted-Same :
    (server : RenetServer) (id : ℕ) (c c' : RenetClient)
    → get server.connections id ≡ some c
    → Same server (record server { connections = insert server.connections id c' })
inserted-Same server id c c' e = record {
  keys = λ j. kept_keys server.connections id j c c' e;
  events = refl;
}

pub change-Same :
    (server server' : RenetServer) (id : ℕ) (f : RenetClient → Outcome RenetClient)
    → change server id f ≡ returns server'
    → Same server server'
unfolding change
change-Same server server' id f h = elim (Option-cases (get server.connections id)) [
  | inl e ↦ subst (Same server) (same e) (record { keys = λ j. refl; events = refl })
  | inr (c, e) ↦
      let (c', g, q) =
        >>=-returns (f c)
          (λ c'. returns (record server { connections = insert server.connections id c' }))
          (found c e) in
      let q' : record server { connections = insert server.connections id c' } ≡ server' = cc q in
      subst (Same server) q' (inserted-Same server id c c' e)
]
  where
    same : get server.connections id ≡ none → server ≡ server'
    same e = cc (
        subst
          (λ o.
            elim o [
              | none ↦ returns server
              | some c ↦ f c >>= λ c'.
                  returns (record server { connections = insert server.connections id c' })
            ]
            ≡ returns server')
          e h)

    found :
        (c : RenetClient)
        → get server.connections id ≡ some c
        → (f c >>= λ c'. returns (record server { connections = insert server.connections id c' }))
          ≡ returns server'
    found c e =
        subst
          (λ o.
            elim o [
              | none ↦ returns server
              | some c ↦ f c >>= λ c'.
                  returns (record server { connections = insert server.connections id c' })
            ]
            ≡ returns server')
          e h

change_all-keys :
    (f : ℕ → RenetClient → Outcome RenetClient) (m m' : Map RenetClient) (j : ℕ)
    → change_all f m ≡ returns m'
    → contains_key m' j ≡ contains_key m j
unfolding change_all contains_key
change_all-keys f [] m' j h = ap (λ z. contains_key z j) (let q : m' ≡ [] = cc h in q)
change_all-keys f ((id, c) ∷ m) m' j h =
    let (c', e, h') =
      >>=-returns (f id c) (λ c'. change_all f m >>= λ n. returns ((id, c') ∷ n)) h in
    let (n, e', h'') = >>=-returns (change_all f m) (λ n. returns ((id, c') ∷ n)) h' in
    let q : m' ≡ (id, c') ∷ n = cc h'' in
    ap (λ z. contains_key z j) q
    ∙ ap (λ b. if id == j then true else b) (change_all-keys f m n j e')

pub change_all-Same :
    (server server' : RenetServer) (f : ℕ → RenetClient → Outcome RenetClient)
    → (change_all f server.connections >>= λ cs. returns (record server { connections = cs }))
      ≡ returns server'
    → Same server server'
change_all-Same server server' f h =
    let (cs, e, q) =
      >>=-returns (change_all f server.connections)
        (λ cs. returns (record server { connections = cs })) h in
    let q' : record server { connections = cs } ≡ server' = cc q in
    subst (Same server) q'
      (record { keys = λ j. change_all-keys f server.connections cs j e; events = refl })
