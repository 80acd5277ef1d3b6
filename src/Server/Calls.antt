-- ===== src/Server/Calls.antt =====
-- What each call of renet/src/server.rs does to the clients and to the events.
use renet.Base.{
  ℕ, ◌≡◌, refl, sym, ap, ◌∙◌, subst, false, Option, none, some, List, [], ◌∷◌, ◌++◌, append_assoc,
  inl, inr, Bool-cases, Option-cases,
}
use renet.Base.Map.{get, insert, contains_key}
use renet.Base.Outcome.{Outcome, returns, ◌>>=◌, >>=-returns, Result, ok, err}
use renet.Error.{disconnected_by_client, ClientNotFound, client_not_found}
use renet.Packet.{Bytes, Payload}
use renet.Packet.Codec.{Codec}
use renet.Connection.Client
use renet.Connection.Client.{
  ConnectionConfig, RenetClient, new_from_server, set_connected, disconnect_with_reason,
}
use renet.Connection.Client.Sending
use renet.Connection.Client.Receiving
use renet.Server.{
  ServerEvent, client_connected, RenetServer, or_transport, add_connection, get_event,
  remove_connection, receive_message, get_packets_to_send, process_packet_from,
}
use renet.Server.Local.{disconnect_local_client}
use renet.Server.Membership.{present, Tells, joined, left, Same, inserted-Same}

pub add_connection-Tells :
    (taken : List ServerEvent) (server server' : RenetServer) (id : ℕ)
    → Tells taken server
    → add_connection server id ≡ returns server'
    → Tells taken server'
unfolding add_connection
add_connection-Tells taken server server' id t h =
    elim (Bool-cases (contains_key server.connections id)) [
      | inl there ↦ let q : server ≡ server' = cc (rw there at h) in subst (Tells taken) q t
      | inr fresh ↦
          let (c, e, q) =
            >>=-returns (new_from_server server.connection_config)
              (λ c. returns (record server {
                connections = insert server.connections id (set_connected c);
                events = server.events ++ (client_connected id ∷ []);
              }))
              (rw fresh at h) in
          let q' : record server {
            connections = insert server.connections id (set_connected c);
            events = server.events ++ (client_connected id ∷ []);
          }
              ≡ server' =
            cc q in
          subst (Tells taken) q' (joined taken server t id (set_connected c))
    ]

abbrev popped : RenetServer → List ServerEvent → RenetServer × Option ServerEvent
popped server [] = (server, none)
popped server (e ∷ es) = (record server { events = es }, some e)

pub get_event-Tells :
    (taken : List ServerEvent) (server server' : RenetServer) (event : ServerEvent)
    → Tells taken server
    → get_event server ≡ (server', some event)
    → Tells (taken ++ (event ∷ [])) server'
unfolding get_event
get_event-Tells taken server server' event t h = go server.events refl
  where
    at_events :
        (es : List ServerEvent) → server.events ≡ es → popped server es ≡ (server', some event)
    at_events es e = subst (λ z. popped server z ≡ (server', some event)) e h

    go : (es : List ServerEvent) → server.events ≡ es → Tells (taken ++ (event ∷ [])) server'
    go [] e = absurd (cc (at_events [] e))
    go (x ∷ es) e =
        let same : record server { events = es } ≡ server' = ap (λ z. z.0) (at_events (x ∷ es) e) in
        let first : x ≡ event = cc (at_events (x ∷ es) e) in
        subst (Tells (taken ++ (event ∷ []))) same (λ j.
          t j
          ∙ ap (λ l. present false (taken ++ l) j) (e ∙ ap (λ y. y ∷ es) first)
          ∙ ap (λ l. present false l j) (sym (append_assoc taken (event ∷ []) es)))

pub remove_connection-Tells :
    (taken : List ServerEvent) (server : RenetServer) (id : ℕ)
    → Tells taken server
    → Tells taken (remove_connection server id)
unfolding remove_connection
remove_connection-Tells taken server id t = elim (Option-cases (get server.connections id)) [
  | inl e ↦ rw (e, remove_connection) t
  | inr (c, e) ↦
      rw (e, remove_connection) (left taken server t id (or_transport (Client.disconnect_reason c)))
]

pub disconnect_local_client-Tells :
    (taken : List ServerEvent) (server : RenetServer) (id : ℕ) (c : RenetClient)
    → Tells taken server
    → Tells taken (disconnect_local_client server id c).0
unfolding disconnect_local_client
disconnect_local_client-Tells taken server id c t = elim (Bool-cases (Client.is_disconnected c)) [
  | inl gone ↦ rw gone t
  | inr here ↦ rw here (elim (Option-cases (get server.connections id)) [
    | inl e ↦ rw e t
    | inr (d, e) ↦ rw e (left taken server t id disconnected_by_client)
  ])
]

-- The operations that answer with more than the server.
found-Same :
    {A : Type 0} {B : Type 0} (server : RenetServer) (id : ℕ) (r : RenetServer × B) (miss : B)
    (run : RenetClient → Outcome (RenetClient × A)) (give : A → B)
    → elim (get server.connections id) [
      | none ↦ returns (server, miss)
      | some c ↦ run c >>= λ (c', a).
          returns (record server { connections = insert server.connections id c' }, give a)
    ]
      ≡ returns r
    → Same server r.0
found-Same server id r miss run give h = go (get server.connections id) refl h
  where
    go :
        (o : Option RenetClient)
        → get server.connections id ≡ o
        → elim o [
          | none ↦ returns (server, miss)
          | some c ↦ run c >>= λ (c', a).
              returns (record server { connections = insert server.connections id c' }, give a)
        ]
          ≡ returns r
        → Same server r.0
    go none e h =
        let q : (server, miss) ≡ r = cc h in
        subst (λ z. Same server z.0) q (record { keys = λ j. refl; events = refl })
    go (some c) e h =
        let (x, _, h') =
          >>=-returns (run c)
            (λ (c', a).
              returns (record server { connections = insert server.connections id c' }, give a))
            h in
        let q : (record server { connections = insert server.connections id x.0 }, give x.1) ≡ r =
          cc h' in
        subst (λ z. Same server z.0) q (inserted-Same server id c x.0 e)

pub receive_message-Same :
    (server : RenetServer) (r : RenetServer × Option Bytes) (id channel_id : ℕ)
    → receive_message server id channel_id ≡ returns r
    → Same server r.0
unfolding receive_message
receive_message-Same server r id channel_id h =
    found-Same server id r none (λ c. Receiving.receive_message c channel_id) (λ a. a) h

pub get_packets_to_send-Same :
    (varint_len : ℕ → ℕ) (codec : Codec) (server : RenetServer)
    (r : RenetServer × Result (List Payload) ClientNotFound) (id : ℕ)
    → get_packets_to_send varint_len codec server id ≡ returns r
    → Same server r.0
unfolding get_packets_to_send
get_packets_to_send-Same varint_len codec server r id h =
    found-Same server id r (err client_not_found) (Sending.get_packets_to_send varint_len codec) ok
      h

pub process_packet_from-Same :
    (codec : Codec) (server : RenetServer) (r : RenetServer × Result (Unit {0}) ClientNotFound)
    (payload : Payload) (id : ℕ)
    → process_packet_from codec server payload id ≡ returns r
    → Same server r.0
unfolding process_packet_from
process_packet_from-Same codec server r payload id h = go (get server.connections id) refl h
  where
    go :
        (o : Option RenetClient)
        → get server.connections id ≡ o
        → elim o [
          | none ↦ returns (server, err client_not_found)
          | some c ↦ Receiving.process_packet codec c payload >>= λ c'.
              returns (record server { connections = insert server.connections id c' }, ok tt)
        ]
          ≡ returns r
        → Same server r.0
    go none e h =
        let q : (server, err client_not_found) ≡ r = cc h in
        subst (λ z. Same server z.0) q (record { keys = λ j. refl; events = refl })
    go (some c) e h =
        let (x, _, h') =
          >>=-returns (Receiving.process_packet codec c payload)
            (λ c'. returns (record server { connections = insert server.connections id c' }, ok tt))
            h in
        let q : (record server { connections = insert server.connections id x }, ok tt) ≡ r =
          cc h' in
        subst (λ z. Same server z.0) q (inserted-Same server id c x e)
