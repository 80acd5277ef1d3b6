-- ===== src/Netcode/Handshake/Tests.antt =====
-- A client and a server that connect, with a toy cipher.
use renet.Base.{◌++◌, ◌≡◌, refl, true, none, some, [], ◌∷◌, replicate, arith}
use renet.Base.Outcome.{returns, ok}
use renet.Packet.{Bytes}
use renet.Netcode.Limits.{version_info}
use renet.Netcode.Crypto.{dencrypted_in_place_xnonce, decrypt_with}
use renet.Netcode.Crypto.Toy.{toys, toy-Opens, toy-Seals}
use renet.Netcode.Replay.{new}
use renet.Netcode.Address.{SocketAddr, v4}
use renet.Netcode.Token.{ConnectToken, PrivateConnectToken}
use renet.Netcode.Token.Read.{read_private, read_server_addresses, read_hosts, read_typed, read_v4}
use renet.Netcode.Token.Generate.{hosts_of, decode}
use renet.Netcode.Token.Sealed.{text_of}
use renet.Netcode.Client.{NetcodeClient, ClientState}
use renet.Netcode.Server.{NetcodeServer}
use renet.Netcode.Server.Entries.{find_or_add_connect_token_entry, look_all, look}
use renet.Netcode.Server.Lookup.{
  find_client_by_id, find_client_mut_by_addr, connected_clients, free_slot, get_pending,
}
use renet.Netcode.Handshake.Delivered.{IsCipher}
use renet.Netcode.Handshake.Answering.{Admits}
use renet.Netcode.Handshake.Arriving.{Agrees}
use renet.Netcode.Handshake.Connecting.{Connects, handshake-Connects}

abbrev host : SocketAddr
host = v4 (127 ∷ 0 ∷ 0 ∷ 1 ∷ []) 5000

abbrev remote : SocketAddr
remote = v4 (10 ∷ 0 ∷ 0 ∷ 1 ∷ []) 4000

abbrev private_token : PrivateConnectToken
private_token = record {
  client_id = 9;
  timeout_seconds = 15;
  server_addresses = hosts_of (host ∷ []);
  client_to_server_key = replicate 32 2;
  server_to_client_key = replicate 32 3;
  user_data = replicate 256 4;
}

abbrev private_data : Bytes
private_data = text_of private_token (host ∷ []) ++ replicate 16 8

abbrev connect_token : ConnectToken
connect_token = record {
  client_id = 9;
  version_info = version_info;
  protocol_id = 7;
  create_timestamp = 100;
  expire_timestamp = 400;
  xnonce = replicate 24 1;
  server_addresses = hosts_of (host ∷ []);
  client_to_server_key = replicate 32 2;
  server_to_client_key = replicate 32 3;
  private_data = private_data;
  timeout_seconds = 15;
}

abbrev client : NetcodeClient
client = record {
  state = ClientState.sending_connection_request;
  client_id = 9;
  connect_start_time = 0;
  last_packet_send_time = none;
  last_packet_received_time = 0;
  current_time = 0;
  sequence = 0;
  server_addr = host;
  server_addr_index = 0;
  connect_token = connect_token;
  challenge_token_sequence = 0;
  challenge_token_data = [];
  max_clients = 0;
  client_index = 0;
  replay_protection = new;
}

abbrev server : NetcodeServer
server = record {
  clients = none ∷ none ∷ [];
  pending_clients = [];
  connect_token_entries = none ∷ none ∷ [];
  protocol_id = 7;
  connect_key = replicate 32 5;
  max_clients = 2;
  challenge_sequence = 0;
  challenge_key = replicate 32 6;
  public_addresses = host ∷ [];
  current_time = 0;
  global_sequence = 0;
  secure = true;
}

token_decoded :
    decode toys private_data 7 400 (replicate 24 1) (replicate 32 5) ≡ returns (ok private_token)
unfolding decode dencrypted_in_place_xnonce decrypt_with read_private read_server_addresses
    read_hosts read_typed read_v4
token_decoded = refl

server-Admits : Admits toys server remote 400 (replicate 24 1) private_data private_token
unfolding find_client_by_id find_client_mut_by_addr connected_clients get_pending
    find_or_add_connect_token_entry look_all look
server-Admits = record {
  decoded = token_decoded;
  early = omega arith;
  listed = refl;
  new_id = refl;
  new_addr = refl;
  not_pending = refl;
  few_pending = omega arith;
  added = refl;
  places = omega arith;
}

client-Agrees : Agrees client server private_token
client-Agrees = record {
  starts = refl;
  first = refl;
  unheard = refl;
  protocol = refl;
  to_server = refl;
  to_client = refl;
  xnonce = refl;
  private_data = refl;
  user_data = refl;
  client_id = omega arith;
  protocol_id = omega arith;
  expire_timestamp = omega arith;
  sequence = omega arith;
  global_sequence = omega arith;
}

toys-IsCipher : IsCipher toys
toys-IsCipher = record { chacha = toy-Opens; seals = toy-Seals; xchacha = toy-Opens }

first_place : free_slot server.clients ≡ some 0
unfolding free_slot
first_place = refl

handshake-Connects_example : Connects toys client server remote private_token 0
handshake-Connects_example =
    handshake-Connects toys client server remote private_token 0 toys-IsCipher client-Agrees
      server-Admits first_place
