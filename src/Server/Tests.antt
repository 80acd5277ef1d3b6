-- ===== src/Server/Tests.antt =====
-- A server that two clients join; the first is removed.
use renet.Base.{◌≡◌, refl, false, List, [], ◌∷◌, ◌++◌}
use renet.Base.Map.{Map, get, insert, remove, contains_key}
use renet.Base.Outcome.{returns, ok, err}
use renet.Error.{disconnected_by_server, buffer_too_short}
use renet.Packet.{sequence}
use renet.Packet.Codec.{Codec}
use renet.Channel.Config.{ChannelConfig, unreliable}
use renet.Channel.Unreliable.Send
use renet.Channel.Unreliable.Receive
use renet.Connection.Client.{
  ConnectionConfig, RenetClient, RenetConnectionStatus, connected, disconnected, unreliable_order,
  insert_new, add_send_channel, add_send_unreliable, add_receive_channel, add_receive_unreliable,
  add_channels, from_channels, new_from_server, set_connected, is_disconnected,
  disconnect_with_reason, disconnect_reason,
}
use renet.Server
use renet.Server.{
  ServerEvent, client_connected, client_disconnected, RenetServer, add_connection, get_event,
  remove_connection, disconnect, change,
}
use renet.Server.Membership.{present}
use renet.Server.Runs.{
  ServerRun, fresh_server, then_step, connection_added, event_taken, connection_removed,
  client_kicked, run_tells_membership,
}

abbrev codec : Codec
codec = record { encode = λ p. returns (ok (sequence p ∷ [])); decode = λ b. err buffer_too_short }

abbrev channels : List ChannelConfig
channels = record { channel_id = 0; max_memory_usage_bytes = 5000; send_type = unreliable } ∷ []

abbrev config : ConnectionConfig
config = record {
  available_bytes_per_tick = 60000;
  server_channels_config = channels;
  client_channels_config = channels;
}

abbrev client : RenetConnectionStatus → RenetClient
client status = record {
  packet_sequence = 0;
  current_time = 0;
  sent_packets = [];
  pending_acks = [];
  channel_send_order = unreliable_order 0 ∷ [];
  send_unreliable_channels = (0, Send.new 0 5000) ∷ [];
  receive_unreliable_channels = (0, Receive.new 0 5000) ∷ [];
  send_reliable_channels = [];
  receive_reliable_channels = [];
  available_bytes_per_tick = 60000;
  connection_status = status;
}

abbrev server : Map RenetClient → List ServerEvent → RenetServer
server connections events = record {
  connections = connections;
  connection_config = config;
  events = events;
}

abbrev both : Map RenetClient
both = (3, client connected) ∷ (4, client connected) ∷ []

abbrev one_kicked : Map RenetClient
one_kicked = (3, client (disconnected disconnected_by_server)) ∷ (4, client connected) ∷ []

abbrev last : RenetServer
last =
    server ((4, client connected) ∷ [])
      (client_connected 4 ∷ client_disconnected 3 disconnected_by_server ∷ [])

last_run : ServerRun (λ n. 1) codec config (client_connected 3 ∷ []) last
unfolding Server.new add_connection get_event remove_connection disconnect change contains_key get
    insert remove new_from_server from_channels add_channels add_send_channel add_send_unreliable
    add_receive_channel add_receive_unreliable insert_new set_connected is_disconnected
    disconnect_with_reason disconnect_reason
last_run =
    then_step
      (then_step
        (then_step
          (then_step
            (then_step fresh_server (
              connection_added
                {server' = server ((3, client connected) ∷ []) (client_connected 3 ∷ [])} 3 refl))
            (event_taken {server' = server ((3, client connected) ∷ []) []}
              {event = client_connected 3} refl))
          (connection_added {server' = server both (client_connected 4 ∷ [])} 4 refl))
        (client_kicked {server' = server one_kicked (client_connected 4 ∷ [])} 3 refl))
      (connection_removed 3)

run_tells_membership_example :
    contains_key last.connections 3 ≡ present false ((client_connected 3 ∷ []) ++ last.events) 3
run_tells_membership_example =
    run_tells_membership (λ n. 1) codec config (client_connected 3 ∷ []) last last_run 3
