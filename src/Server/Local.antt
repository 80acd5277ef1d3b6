-- ===== src/Server/Local.antt =====
-- The local client of renet/src/server.rs, which is for tests.
use renet.Base.{ℕ, none, some, List, [], ◌∷◌, ◌++◌, if◌then◌else◌}
use renet.Base.Map.{get, remove}
use renet.Base.Outcome.{Outcome, returns, ◌>>=◌, Result, ok, err}
use renet.Error.{disconnected_by_client, ClientNotFound}
use renet.Packet.{Payload}
use renet.Packet.Codec.{Codec}
use renet.Connection.Client
use renet.Connection.Client.{RenetClient, new_from_server, set_connected}
use renet.Connection.Client.Sending
use renet.Connection.Client.Receiving
use renet.Server.{
  RenetServer, client_disconnected, add_connection, get_packets_to_send, process_packet_from,
}

unfoldable pub new_local_client : RenetServer → ℕ → Outcome (RenetServer × RenetClient)
new_local_client server client_id = do
  client ← new_from_server server.connection_config
  server' ← add_connection server client_id
  returns (server', set_connected client)

unfoldable pub disconnect_local_client : RenetServer → ℕ → RenetClient → RenetServer × RenetClient
disconnect_local_client server client_id client =
    let removed : RenetServer = elim (get server.connections client_id) [
      | none ↦ server
      | some _ ↦ record server {
        connections = remove server.connections client_id;
        events = server.events ++ (client_disconnected client_id disconnected_by_client ∷ []);
      }
    ] in
    if Client.is_disconnected client then (server, client) else (removed, Client.disconnect client)

unfoldable pub process_all : Codec → RenetClient → List Payload → Outcome RenetClient
process_all codec client [] = returns client
process_all codec client (packet ∷ packets) =
    Receiving.process_packet codec client packet >>= λ client'. process_all codec client' packets

-- The loop over the client's packets, which `?` ends.
unfoldable pub process_all_from :
    Codec
    → RenetServer
    → ℕ
    → List Payload
    → Outcome (RenetServer × Result (Unit {0}) ClientNotFound)
process_all_from codec server client_id [] = returns (server, ok tt)
process_all_from codec server client_id (packet ∷ packets) =
    process_packet_from codec server packet client_id >>= λ (server', r).
    let rest = process_all_from codec server' client_id packets in
    elim r [ ok _ ↦ rest | err e ↦ returns (server', err e) ]

-- What follows the server's packets.
unfoldable pub exchange :
    (ℕ → ℕ)
    → Codec
    → RenetServer
    → ℕ
    → RenetClient
    → Result (List Payload) ClientNotFound
    → Outcome (RenetServer × RenetClient × Result (Unit {0}) ClientNotFound)
exchange varint_len codec server client_id client (err e) = returns (server, client, err e)
exchange varint_len codec server client_id client (ok packets) = do
  client' ← process_all codec client packets
  (client'', replies) ← Sending.get_packets_to_send varint_len codec client'
  (server', r) ← process_all_from codec server client_id replies
  returns (server', client'', r)

unfoldable pub process_local_client :
    (ℕ → ℕ)
    → Codec
    → RenetServer
    → ℕ
    → RenetClient
    → Outcome (RenetServer × RenetClient × Result (Unit {0}) ClientNotFound)
process_local_client varint_len codec server client_id client =
    get_packets_to_send varint_len codec server client_id >>= λ (server', r).
    exchange varint_len codec server' client_id client r
