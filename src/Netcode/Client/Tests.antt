-- ===== src/Netcode/Client/Tests.antt =====
-- Runs of a client of renetcode/src/client.rs with a toy cipher.
use renet.Base.{ℕ, ◌≡◌, refl, true, none, some, [], ◌∷◌, map, replicate, arith}
use renet.Base.Outcome.{WhenReturns, Returns}
use renet.Netcode.Limits.{version_info}
use renet.Netcode.Error.{connection_denied}
use renet.Netcode.Crypto.Toy.{toys}
use renet.Netcode.Address.{SocketAddr, v4}
use renet.Netcode.Token.{ConnectToken}
use renet.Netcode.Replay.{new}
use renet.Netcode.Packet.{Packet}
use renet.Netcode.Client.{
  ClientState, disconnected, sending_connection_request, sending_connection_response, connected,
  NetcodeClient, is_disconnected,
}
use renet.Netcode.Client.Receive.{handle}
use renet.Netcode.Client.Runs.{tick, send, close, run, Trace, run-Trace, run-is_disconnected}
use renet.Netcode.Client.Silence.{silence-is_disconnected}

abbrev local : SocketAddr
local = v4 (127 ∷ 0 ∷ 0 ∷ 1 ∷ []) 5000

-- A token that is good for 300 seconds, with a timeout of 5 seconds and 31 addresses.
abbrev token : ConnectToken
token = record {
  client_id = 9;
  version_info = version_info;
  protocol_id = 7;
  create_timestamp = 0;
  expire_timestamp = 300;
  xnonce = [];
  server_addresses = replicate 31 (some local);
  client_to_server_key = 1 ∷ [];
  server_to_client_key = 2 ∷ [];
  private_data = [];
  timeout_seconds = 5;
}

-- The client at one of the addresses.
abbrev client_in : ClientState → ℕ → NetcodeClient
client_in state i = record {
  state = state;
  client_id = 9;
  connect_start_time = 0;
  last_packet_send_time = none;
  last_packet_received_time = 0;
  current_time = 0;
  sequence = 0;
  server_addr = local;
  server_addr_index = i;
  connect_token = token;
  challenge_token_sequence = 0;
  challenge_token_data = [];
  max_clients = 0;
  client_index = 0;
  replay_protection = new;
}

-- The state after a challenge and a keep alive packet.
abbrev states : NetcodeClient → Packet → ClientState
states client p = (handle p client.state client).0.state

challenge_answered :
    states (client_in sending_connection_request 0) (Packet.challenge 3 [])
    ≡ sending_connection_response
unfolding handle
challenge_answered = refl

keep_alive_connects :
    states (client_in sending_connection_response 0) (Packet.keep_alive 1 8) ≡ connected
unfolding handle
keep_alive_connects = refl

-- A keep alive packet before the challenge changes nothing.
keep_alive_too_early :
    handle
      (Packet.keep_alive 1 8)
      sending_connection_request
      (client_in sending_connection_request 0)
    ≡ (client_in sending_connection_request 0, none)
unfolding handle
keep_alive_too_early = refl

run-Trace_example :
    WhenReturns
      (λ (x : NetcodeClient).
        Trace sending_connection_request (tick 6000000000 ∷ close ∷ []) x.state)
      (run toys (client_in sending_connection_request 0) (tick 6000000000 ∷ close ∷ []))
run-Trace_example =
    run-Trace toys (client_in sending_connection_request 0) (tick 6000000000 ∷ close ∷ [])

run-is_disconnected_example :
    WhenReturns
      (λ (x : NetcodeClient). is_disconnected x.state ≡ true)
      (run toys (client_in (disconnected connection_denied) 0) (tick 1 ∷ send [] ∷ []))
run-is_disconnected_example =
    run-is_disconnected toys (client_in (disconnected connection_denied) 0) (tick 1 ∷ send [] ∷ [])
      refl

silence-is_disconnected_example :
    Returns
      (λ (x : NetcodeClient). is_disconnected x.state ≡ true)
      (run toys (client_in sending_connection_request 30) (map tick (6000000000 ∷ 7000000000 ∷ [])))
silence-is_disconnected_example =
    silence-is_disconnected toys (client_in sending_connection_request 30)
      (6000000000 ∷ 7000000000 ∷ []) (omega arith, tt) (omega arith) (omega arith) refl
      (omega arith, (omega arith, tt)) (omega arith)
