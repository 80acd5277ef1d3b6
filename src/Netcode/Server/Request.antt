-- ===== src/Netcode/Server/Request.antt =====
-- `NetcodeServer::handle_connection_request` of renetcode/src/server.rs.
use renet.Base.{
  ℕ, ◌-◌, Bool, false, Option, none, some, List, [], ◌∷◌, ◌&&◌, ◌||◌, not, ◌==◌, if◌then◌else◌, leb,
  length, drop,
}
use renet.Base.Word.{add_u64}
use renet.Base.Outcome.{Outcome, returns, ◌>>=◌, Result, ok, err}
use renet.Packet.{Bytes}
use renet.Netcode.Limits.{
  version_info, max_pending_clients, max_packet_bytes, connect_token_private_bytes, mac_bytes,
  as_secs,
}
use renet.Netcode.Error.{
  NetcodeError, invalid_version, invalid_protocol_id, expired, not_in_host_list, token_generation,
  TokenGenerationError,
}
use renet.Netcode.Error
use renet.Netcode.Crypto.{Ciphers}
use renet.Netcode.Address.{SocketAddr, same_addr, same_bytes}
use renet.Netcode.Replay.{new}
use renet.Netcode.Token.{PrivateConnectToken, Hosts}
use renet.Netcode.Token.Generate
use renet.Netcode.Packet.{Packet}
use renet.Netcode.Packet.Encode.{encode}
use renet.Netcode.Packet.Challenge.{generate_challenge}
use renet.Netcode.Server.{
  Connection, ConnectionState, ConnectTokenEntry, NetcodeServer, ServerResult, nothing,
  packet_to_send,
}
use renet.Netcode.Server.Entries.{find_or_add_connect_token_entry}
use renet.Netcode.Server.Lookup.{
  find_client_by_id, find_client_mut_by_addr, connected_clients, get_pending, remove_pending,
  put_pending, is_some,
}

abbrev pub Reply : Type 0
Reply = NetcodeServer × Result ServerResult NetcodeError

-- The packet, encoded with a sequence and a key.
abbrev pub encode_with : Ciphers → NetcodeServer → Packet → ℕ → Bytes → Result Bytes NetcodeError
encode_with c server packet sequence key =
    encode c packet max_packet_bytes server.protocol_id (some (sequence, key))

-- The global sequence is used up if the packet was encoded.
abbrev pub send_globally : NetcodeServer → SocketAddr → Result Bytes NetcodeError → Reply
send_globally server addr (err e) = (server, err e)
send_globally server addr (ok payload) = (
  record server { global_sequence = add_u64 server.global_sequence 1 },
  ok (packet_to_send addr payload),
)

unfoldable pub deny : Ciphers → NetcodeServer → SocketAddr → PrivateConnectToken → Reply
deny c server addr token =
    let server' = record server { pending_clients = remove_pending server.pending_clients addr } in
    send_globally server' addr (
      encode_with c server' Packet.connection_denied server'.global_sequence
        token.server_to_client_key)

abbrev pub fresh_connection : NetcodeServer → SocketAddr → ℕ → PrivateConnectToken → Connection
fresh_connection server addr expire_timestamp token = record {
  confirmed = false;
  client_id = token.client_id;
  state = ConnectionState.pending_response;
  send_key = token.server_to_client_key;
  receive_key = token.client_to_server_key;
  user_data = token.user_data;
  addr = addr;
  last_packet_received_time = server.current_time;
  last_packet_send_time = server.current_time;
  timeout_seconds = token.timeout_seconds;
  sequence = 0;
  expire_timestamp = expire_timestamp;
  replay_protection = new;
}

-- `or_insert_with`, and the two times.
abbrev pub touched : NetcodeServer → Option Connection → Connection → Connection
touched server none c = c
touched server (some c) _ = record c {
  last_packet_received_time = server.current_time;
  last_packet_send_time = server.current_time;
}

unfoldable pub insert_pending : NetcodeServer → SocketAddr → ℕ → PrivateConnectToken → NetcodeServer
insert_pending server addr expire_timestamp token =
    let pending =
      touched server (get_pending server.pending_clients addr)
        (fresh_connection server addr expire_timestamp token) in
    record server { pending_clients = put_pending server.pending_clients addr pending }

-- The pending client is inserted when the challenge was encoded.
abbrev pub challenge_encoded :
    NetcodeServer → SocketAddr → ℕ → PrivateConnectToken → Result Bytes NetcodeError → Reply
challenge_encoded server addr expire_timestamp token (err e) = (server, err e)
challenge_encoded server addr expire_timestamp token (ok payload) = (
  insert_pending (record server { global_sequence = add_u64 server.global_sequence 1 }) addr
      expire_timestamp token,
  ok (packet_to_send addr payload),
)

unfoldable pub send_challenge :
    Ciphers → NetcodeServer → SocketAddr → ℕ → PrivateConnectToken → Reply
send_challenge c server addr expire_timestamp token =
    let server' = record server { challenge_sequence = add_u64 server.challenge_sequence 1 } in
    challenge_encoded server' addr expire_timestamp token (
      Error.◌>>=◌
        (generate_challenge c token.client_id token.user_data server'.challenge_sequence
          server'.challenge_key)
        (λ packet. encode_with c server' packet server'.global_sequence token.server_to_client_key))

abbrev pub contains : List SocketAddr → SocketAddr → Bool
contains [] addr = false
contains (a ∷ addresses) addr = same_addr a addr || contains addresses addr

abbrev pub in_host_list : Hosts → List SocketAddr → Bool
in_host_list [] public_addresses = false
in_host_list (none ∷ hosts) public_addresses = in_host_list hosts public_addresses
in_host_list (some addr ∷ hosts) public_addresses =
    contains public_addresses addr || in_host_list hosts public_addresses

-- The entry of the token was found, or it was added.
abbrev pub entered : Ciphers → SocketAddr → ℕ → PrivateConnectToken → NetcodeServer × Bool → Reply
entered c addr expire_timestamp token (server, added) =
    if not added
    then (server, ok nothing)
    else if leb server.max_clients (connected_clients server.clients)
    then deny c server addr token
    else send_challenge c server addr expire_timestamp token

abbrev pub entry_of : NetcodeServer → SocketAddr → Bytes → ConnectTokenEntry
entry_of server addr private_data = record {
  time = server.current_time;
  address = addr;
  mac = drop (connect_token_private_bytes - mac_bytes) private_data;
}

unfoldable pub request_with :
    Ciphers → NetcodeServer → SocketAddr → ℕ → Bytes → PrivateConnectToken → Reply
request_with c server addr expire_timestamp private_data token =
    if server.secure && not (in_host_list token.server_addresses server.public_addresses)
    then (server, err not_in_host_list)
    else if is_some (find_client_by_id server.clients token.client_id)
        || is_some (find_client_mut_by_addr server.clients addr)
    then (server, ok nothing)
    else if not (is_some (get_pending server.pending_clients addr))
        && leb max_pending_clients (length server.pending_clients)
    then (server, ok nothing)
    else entered c addr expire_timestamp token
        (find_or_add_connect_token_entry server (entry_of server addr private_data))

abbrev pub request_decoded :
    Ciphers
    → NetcodeServer
    → SocketAddr
    → ℕ
    → Bytes
    → Result PrivateConnectToken TokenGenerationError
    → Reply
request_decoded c server addr expire_timestamp private_data (err e) =
    (server, err (token_generation e))
request_decoded c server addr expire_timestamp private_data (ok token) =
    request_with c server addr expire_timestamp private_data token

unfoldable pub handle_connection_request :
    Ciphers → NetcodeServer → SocketAddr → Bytes → ℕ → ℕ → Bytes → Bytes → Outcome Reply
handle_connection_request c server addr version protocol_id expire_timestamp xnonce private_data =
    if not (same_bytes version version_info)
    then returns (server, err invalid_version)
    else if not (protocol_id == server.protocol_id)
    then returns (server, err invalid_protocol_id)
    else if leb expire_timestamp (as_secs server.current_time)
    then returns (server, err expired)
    else (Generate.decode c private_data server.protocol_id expire_timestamp xnonce
          server.connect_key
        >>= λ r. returns (request_decoded c server addr expire_timestamp private_data r))
