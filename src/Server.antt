-- ===== src/Server.antt =====
-- `RenetServer` of renet/src/server.rs. The float statistics that it passes on are left out.
pub mod Local
pub mod Membership
pub mod Calls
pub mod Runs
mod Tests
use renet.Base.{
  ℕ, Bool, true, false, not, Option, none, some, List, [], ◌∷◌, ◌++◌, ◌==◌, if◌then◌else◌, length,
}
use renet.Base.Map.{Map, get, insert, remove, contains_key}
use renet.Base.Outcome.{Outcome, returns, panics, ◌>>=◌, Result, ok, err}
use renet.Error.{
  DisconnectReason, transport, disconnected_by_client, disconnected_by_server, ClientNotFound,
  client_not_found,
}
use renet.Packet.{Bytes, Payload}
use renet.Packet.Codec.{Codec}
use renet.Connection.Client
use renet.Connection.Client.{
  ConnectionConfig, RenetClient, new_from_server, set_connected, disconnect_with_reason,
}
use renet.Connection.Client.Sending
use renet.Connection.Client.Receiving
use renet.Connection.Client.Ticks

pub data ServerEvent : Type 0 where
  client_connected : (client_id : ℕ) → ServerEvent
  client_disconnected : (client_id : ℕ) → (reason : DisconnectReason) → ServerEvent

pub record RenetServer : Type 0 where
  pub connections : Map RenetClient
  pub connection_config : ConnectionConfig
  pub events : List ServerEvent

unfoldable pub new : ConnectionConfig → RenetServer
new connection_config = record {
  connections = [];
  connection_config = connection_config;
  events = [];
}

unfoldable pub add_connection : RenetServer → ℕ → Outcome RenetServer
add_connection server client_id =
    if contains_key server.connections client_id
    then returns server
    else (new_from_server server.connection_config >>= λ connection. returns (record server {
      connections = insert server.connections client_id (set_connected connection);
      events = server.events ++ (client_connected client_id ∷ []);
    }))

unfoldable pub get_event : RenetServer → RenetServer × Option ServerEvent
get_event server = elim server.events [
  | [] ↦ (server, none)
  | event ∷ events ↦ (record server { events = events }, some event)
]

unfoldable pub has_connections : RenetServer → Bool
has_connections server = elim server.connections [ [] ↦ false | _ ∷ _ ↦ true ]

unfoldable pub disconnect_reason : RenetServer → ℕ → Option DisconnectReason
disconnect_reason server client_id = elim (get server.connections client_id) [
  | some connection ↦ Client.disconnect_reason connection
  | none ↦ none
]

-- `unwrap_or`.
abbrev pub or_transport : Option DisconnectReason → DisconnectReason
or_transport none = transport
or_transport (some reason) = reason

unfoldable pub remove_connection : RenetServer → ℕ → RenetServer
remove_connection server client_id = elim (get server.connections client_id) [
  | none ↦ server
  | some connection ↦ record server {
    connections = remove server.connections client_id;
    events =
        server.events
        ++ (client_disconnected client_id (or_transport (Client.disconnect_reason connection))
            ∷ []);
  }
]

-- `get_mut` and a change of the connection that it finds.
unfoldable pub change : RenetServer → ℕ → (RenetClient → Outcome RenetClient) → Outcome RenetServer
change server client_id f = elim (get server.connections client_id) [
  | none ↦ returns server
  | some connection ↦ f connection >>= λ connection'.
      returns (record server { connections = insert server.connections client_id connection' })
]

-- `values_mut` and a change of every connection.
unfoldable pub change_all :
    (ℕ → RenetClient → Outcome RenetClient) → Map RenetClient → Outcome (Map RenetClient)
change_all f [] = returns []
change_all f ((client_id, connection) ∷ rest) = do
  connection' ← f client_id connection
  rest' ← change_all f rest
  returns ((client_id, connection') ∷ rest')

unfoldable pub disconnect : RenetServer → ℕ → Outcome RenetServer
disconnect server client_id =
    change server client_id (λ c. returns (disconnect_with_reason c disconnected_by_server))

unfoldable pub disconnect_all : RenetServer → Outcome RenetServer
disconnect_all server =
    change_all (λ _ c. returns (disconnect_with_reason c disconnected_by_server)) server.connections
    >>= λ connections. returns (record server { connections = connections })

unfoldable pub broadcast_message : RenetServer → ℕ → Bytes → Outcome RenetServer
broadcast_message server channel_id message =
    change_all (λ _ c. Sending.send_message c channel_id message) server.connections
    >>= λ connections. returns (record server { connections = connections })

unfoldable pub broadcast_message_except : RenetServer → ℕ → ℕ → Bytes → Outcome RenetServer
broadcast_message_except server except_id channel_id message =
    change_all
      (λ client_id c.
        if except_id == client_id then returns c else Sending.send_message c channel_id message)
      server.connections
    >>= λ connections. returns (record server { connections = connections })

unfoldable pub channel_available_memory : RenetServer → ℕ → ℕ → Outcome ℕ
channel_available_memory server client_id channel_id = elim (get server.connections client_id) [
  | some connection ↦ Client.channel_available_memory connection channel_id
  | none ↦ returns 0
]

unfoldable pub can_send_message : RenetServer → ℕ → ℕ → ℕ → Outcome Bool
can_send_message server client_id channel_id size_bytes = elim (get server.connections client_id) [
  | some connection ↦ Client.can_send_message connection channel_id size_bytes
  | none ↦ returns false
]

unfoldable pub send_message : RenetServer → ℕ → ℕ → Bytes → Outcome RenetServer
send_message server client_id channel_id message =
    change server client_id (λ c. Sending.send_message c channel_id message)

unfoldable pub receive_message : RenetServer → ℕ → ℕ → Outcome (RenetServer × Option Bytes)
receive_message server client_id channel_id = elim (get server.connections client_id) [
  | none ↦ returns (server, none)
  | some connection ↦ Receiving.receive_message connection channel_id >>= λ (connection', message).
      returns
        (record server { connections = insert server.connections client_id connection' }, message)
]

-- The ids of the connections that a test holds of, in the order of the iterator.
unfoldable pub ids_of : (RenetClient → Bool) → Map RenetClient → List ℕ
ids_of test [] = []
ids_of test ((client_id, c) ∷ rest) =
    let ids = ids_of test rest in if test c then client_id ∷ ids else ids

unfoldable pub clients_id : RenetServer → List ℕ
clients_id server = ids_of Client.is_connected server.connections

unfoldable pub disconnections_id : RenetServer → List ℕ
disconnections_id server = ids_of Client.is_disconnected server.connections

unfoldable pub connected_clients : RenetServer → ℕ
connected_clients server = length (ids_of Client.is_connected server.connections)

unfoldable pub is_connected : RenetServer → ℕ → Bool
is_connected server client_id = elim (get server.connections client_id) [
  | some connection ↦ Client.is_connected connection
  | none ↦ false
]

unfoldable pub update : RenetServer → ℕ → Outcome RenetServer
update server duration =
    change_all (λ _ c. Ticks.update c duration) server.connections >>= λ connections.
    returns (record server { connections = connections })

unfoldable pub get_packets_to_send :
    (ℕ → ℕ) → Codec → RenetServer → ℕ → Outcome (RenetServer × Result (List Payload) ClientNotFound)
get_packets_to_send varint_len codec server client_id = elim (get server.connections client_id) [
  | none ↦ returns (server, err client_not_found)
  | some connection ↦
      Sending.get_packets_to_send varint_len codec connection >>= λ (connection', payloads).
      returns (
        record server { connections = insert server.connections client_id connection' },
        ok payloads,
      )
]

unfoldable pub process_packet_from :
    Codec → RenetServer → Payload → ℕ → Outcome (RenetServer × Result (Unit {0}) ClientNotFound)
process_packet_from codec server payload client_id = elim (get server.connections client_id) [
  | none ↦ returns (server, err client_not_found)
  | some connection ↦ Receiving.process_packet codec connection payload >>= λ connection'.
      returns
        (record server { connections = insert server.connections client_id connection' }, ok tt)
]
