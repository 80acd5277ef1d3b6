-- ===== src/Server/Runs.antt =====
-- Runs of a server of renet/src/server.rs.
use renet.Base.{ℕ, ◌≡◌, refl, false, Option, some, List, [], ◌∷◌, ◌++◌}
use renet.Base.Map.{contains_key}
use renet.Base.Outcome.{returns, Result}
use renet.Error.{ClientNotFound}
use renet.Packet.{Bytes, Payload}
use renet.Packet.Codec.{Codec}
use renet.Connection.Client.{ConnectionConfig, RenetClient}
use renet.Server
use renet.Server.{
  ServerEvent, client_connected, client_disconnected, RenetServer, or_transport, add_connection,
  get_event, remove_connection, change, change_all, disconnect, disconnect_all, broadcast_message,
  broadcast_message_except, send_message, receive_message, update, get_packets_to_send,
  process_packet_from,
}
use renet.Server.Local.{disconnect_local_client}
use renet.Server.Membership.{present, Tells, Same-Tells, change-Same, change_all-Same}
use renet.Server.Calls.{
  add_connection-Tells, get_event-Tells, remove_connection-Tells, disconnect_local_client-Tells,
  receive_message-Same, get_packets_to_send-Same, process_packet_from-Same,
}

-- A call of one of the server's operations that changes it. `taken` lists what `get_event` has
-- returned so far.
pub data ServerStep (varint_len : ℕ → ℕ) (codec : Codec) (taken : List ServerEvent)
    (server : RenetServer) : List ServerEvent → RenetServer → Type 0 where
  connection_added :
      {server' : RenetServer} (client_id : ℕ)
      → add_connection server client_id ≡ returns server'
      → ServerStep varint_len codec taken server taken server'
  event_taken :
      {server' : RenetServer} {event : ServerEvent}
      → get_event server ≡ (server', some event)
      → ServerStep varint_len codec taken server (taken ++ (event ∷ [])) server'
  connection_removed :
      (client_id : ℕ)
      → ServerStep varint_len codec taken server taken (remove_connection server client_id)
  local_client_left :
      (client_id : ℕ) (client : RenetClient)
      → ServerStep varint_len codec taken server taken
          (disconnect_local_client server client_id client).0
  client_kicked :
      {server' : RenetServer} (client_id : ℕ)
      → disconnect server client_id ≡ returns server'
      → ServerStep varint_len codec taken server taken server'
  all_kicked :
      {server' : RenetServer}
      → disconnect_all server ≡ returns server'
      → ServerStep varint_len codec taken server taken server'
  broadcast :
      {server' : RenetServer} (channel_id : ℕ) (message : Bytes)
      → broadcast_message server channel_id message ≡ returns server'
      → ServerStep varint_len codec taken server taken server'
  broadcast_except :
      {server' : RenetServer} (except_id channel_id : ℕ) (message : Bytes)
      → broadcast_message_except server except_id channel_id message ≡ returns server'
      → ServerStep varint_len codec taken server taken server'
  message_sent :
      {server' : RenetServer} (client_id channel_id : ℕ) (message : Bytes)
      → send_message server client_id channel_id message ≡ returns server'
      → ServerStep varint_len codec taken server taken server'
  message_received :
      {r : RenetServer × Option Bytes} (client_id channel_id : ℕ)
      → receive_message server client_id channel_id ≡ returns r
      → ServerStep varint_len codec taken server taken r.0
  updated :
      {server' : RenetServer} (duration : ℕ)
      → update server duration ≡ returns server'
      → ServerStep varint_len codec taken server taken server'
  packets_sent :
      {r : RenetServer × Result (List Payload) ClientNotFound} (client_id : ℕ)
      → get_packets_to_send varint_len codec server client_id ≡ returns r
      → ServerStep varint_len codec taken server taken r.0
  packet_processed :
      {r : RenetServer × Result (Unit {0}) ClientNotFound} (payload : Payload) (client_id : ℕ)
      → process_packet_from codec server payload client_id ≡ returns r
      → ServerStep varint_len codec taken server taken r.0

pub data ServerRun (varint_len : ℕ → ℕ) (codec : Codec) (config : ConnectionConfig)
    : List ServerEvent → RenetServer → Type 0 where
  fresh_server : ServerRun varint_len codec config [] (Server.new config)
  then_step :
      {taken taken' : List ServerEvent} {server server' : RenetServer}
      → ServerRun varint_len codec config taken server
      → ServerStep varint_len codec taken server taken' server'
      → ServerRun varint_len codec config taken' server'

module _ (varint_len : ℕ → ℕ) (codec : Codec) where
  Step-Tells :
      (taken taken' : List ServerEvent) (server server' : RenetServer)
      → Tells taken server
      → ServerStep varint_len codec taken server taken' server'
      → Tells taken' server'
  unfolding disconnect disconnect_all broadcast_message broadcast_message_except send_message update
  Step-Tells taken _ server server' t (connection_added id h) =
      add_connection-Tells taken server server' id t h
  Step-Tells taken _ server server' t (event_taken {event = event} h) =
      get_event-Tells taken server server' event t h
  Step-Tells taken _ server _ t (connection_removed id) = remove_connection-Tells taken server id t
  Step-Tells taken _ server _ t (local_client_left id c) =
      disconnect_local_client-Tells taken server id c t
  Step-Tells taken _ server server' t (client_kicked id h) =
      Same-Tells taken server server' (change-Same server server' id _ h) t
  Step-Tells taken _ server server' t (all_kicked h) =
      Same-Tells taken server server' (change_all-Same server server' _ h) t
  Step-Tells taken _ server server' t (broadcast id m h) =
      Same-Tells taken server server' (change_all-Same server server' _ h) t
  Step-Tells taken _ server server' t (broadcast_except e id m h) =
      Same-Tells taken server server' (change_all-Same server server' _ h) t
  Step-Tells taken _ server server' t (message_sent c id m h) =
      Same-Tells taken server server' (change-Same server server' c _ h) t
  Step-Tells taken _ server _ t (message_received {r} c id h) =
      Same-Tells taken server r.0 (receive_message-Same server r c id h) t
  Step-Tells taken _ server server' t (updated d h) =
      Same-Tells taken server server' (change_all-Same server server' _ h) t
  Step-Tells taken _ server _ t (packets_sent {r} c h) =
      Same-Tells taken server r.0 (get_packets_to_send-Same varint_len codec server r c h) t
  Step-Tells taken _ server _ t (packet_processed {r} p c h) =
      Same-Tells taken server r.0 (process_packet_from-Same codec server r p c h) t

  fresh-Tells : (config : ConnectionConfig) → Tells [] (Server.new config)
  unfolding Server.new contains_key
  fresh-Tells config j = refl

  -- In every run of a server, the server holds a connection for a client exactly when the last
  -- event about that client says that it connected. The events that `get_event` has returned and
  -- those that still wait are taken together; no operation adds a connection, or drops one,
  -- without its event.
  pub run_tells_membership :
      (config : ConnectionConfig) (taken : List ServerEvent) (server : RenetServer)
      → ServerRun varint_len codec config taken server
      → (id : ℕ) → contains_key server.connections id ≡ present false (taken ++ server.events) id
  run_tells_membership config _ _ fresh_server = fresh-Tells config
  run_tells_membership config _ _ (then_step {taken} {taken'} {server} {server'} r s) =
      Step-Tells taken taken' server server' (run_tells_membership config taken server r) s
