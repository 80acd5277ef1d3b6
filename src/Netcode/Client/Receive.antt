-- ===== src/Netcode/Client/Receive.antt =====
-- `NetcodeClient::process_packet` of renetcode/src/client.rs.
use renet.Base.{Option, none, some}
use renet.Base.Outcome.{Outcome, returns, ◌>>=◌, ok, err}
use renet.Packet.{Bytes}
use renet.Netcode.Error.{connection_denied, disconnected_by_server}
use renet.Netcode.Crypto.{Ciphers}
use renet.Netcode.Replay.{ReplayProtection}
use renet.Netcode.Packet.{Packet}
use renet.Netcode.Packet.Decode.{Decoded, decode}
use renet.Netcode.Client.{
  ClientState, disconnected, sending_connection_request, sending_connection_response, connected,
  NetcodeClient,
}

abbrev denied : NetcodeClient → NetcodeClient
denied client = record client {
  state = disconnected connection_denied;
  last_packet_received_time = client.current_time;
}

-- The match on the packet and the state, which is the client's.
unfoldable pub handle : Packet → ClientState → NetcodeClient → NetcodeClient × Option Bytes
handle Packet.connection_denied sending_connection_request client = (denied client, none)
handle Packet.connection_denied sending_connection_response client = (denied client, none)
handle (Packet.challenge token_sequence token_data) sending_connection_request client = (
  record client {
    challenge_token_sequence = token_sequence;
    last_packet_received_time = client.current_time;
    last_packet_send_time = none;
    challenge_token_data = token_data;
    state = sending_connection_response;
  },
  none,
)
handle (Packet.keep_alive client_index max_clients) connected client =
    (record client { last_packet_received_time = client.current_time }, none)
handle (Packet.keep_alive client_index max_clients) sending_connection_response client = (
  record client {
    last_packet_received_time = client.current_time;
    max_clients = max_clients;
    client_index = client_index;
    state = connected;
  },
  none,
)
handle (Packet.payload p) connected client =
    (record client { last_packet_received_time = client.current_time }, some p)
handle Packet.disconnect connected client = (
  record client {
    state = disconnected disconnected_by_server;
    last_packet_received_time = client.current_time;
  },
  none,
)
handle _ _ client = (client, none)

abbrev pub protection_or : Option ReplayProtection → ReplayProtection → ReplayProtection
protection_or none rp = rp
protection_or (some rp') rp = rp'

-- The decoding was passed the client's replay protection.
abbrev pub handle_decoded : NetcodeClient → Decoded → NetcodeClient × Option Bytes
handle_decoded client d =
    let client' = record client {
      replay_protection = protection_or d.replay_protection client.replay_protection;
    } in
    elim d.result [ err e ↦ (client', none) | ok (_, packet) ↦ handle packet client'.state client' ]

unfoldable pub process_packet :
    Ciphers → NetcodeClient → Bytes → Outcome (NetcodeClient × Option Bytes)
process_packet c client buffer =
    decode c buffer client.connect_token.protocol_id
      (some client.connect_token.server_to_client_key) (some client.replay_protection)
    >>= λ d. returns (handle_decoded client d)
