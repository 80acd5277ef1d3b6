-- ===== src/Netcode/Handshake/Connecting.antt =====
-- The four packets with which a client and a server connect (renetcode/src/client.rs and
-- renetcode/src/server.rs).
use renet.Base.{ℕ, ◌^◌, ◌%◌, ◌≡◌, refl, none, some, set}
use renet.Base.Outcome.{returns}
use renet.Packet.{Bytes}
use renet.Netcode.Crypto.{Ciphers}
use renet.Netcode.Address.{SocketAddr}
use renet.Netcode.Token.{PrivateConnectToken}
use renet.Netcode.Client.{NetcodeClient, ClientState}
use renet.Netcode.Client.Receive.{handle}
use renet.Netcode.Client.Receive
use renet.Netcode.Client.Update.{generate_packet}
use renet.Netcode.Server.{
  Connection, ConnectionState, NetcodeServer, packet_to_send, client_connected,
}
use renet.Netcode.Server.Lookup.{free_slot}
use renet.Netcode.Server.Lookup.Waiting.{remove_pending-put_pending}
use renet.Netcode.Server.Process.{process_packet}
use renet.Netcode.Handshake.Delivered.{IsCipher}
use renet.Netcode.Handshake.Answering.{Admits}
use renet.Netcode.Handshake.Arriving.{Agrees}
use renet.Netcode.Handshake.Steps.{half_way, other_half}

-- The four packets, with the clients and servers between them, and what both sides know then.
pub record Connects (c : Ciphers) (client : NetcodeClient) (server : NetcodeServer)
    (addr : SocketAddr) (token : PrivateConnectToken) (slot : ℕ) : Type 0 where
  pub request : Bytes
  pub challenge : Bytes
  pub response : Bytes
  pub keep_alive : Bytes
  pub asking : NetcodeClient
  pub challenged : NetcodeClient
  pub responding : NetcodeClient
  pub connected : NetcodeClient
  pub server_pending : NetcodeServer
  pub server_connected : NetcodeServer
  pub entry : Connection
  pub client_asks : generate_packet c client ≡ returns (asking, some (client.server_addr, request))
  pub server_answers :
      process_packet c server addr request ≡ returns (server_pending, packet_to_send addr challenge)
  pub client_hears : Receive.process_packet c asking challenge ≡ returns (challenged, none)
  pub client_responds :
      generate_packet c challenged ≡ returns (responding, some (client.server_addr, response))
  pub server_connects :
      process_packet c server_pending addr response
      ≡ returns (server_connected, client_connected token.client_id addr token.user_data keep_alive)
  pub client_connects : Receive.process_packet c responding keep_alive ≡ returns (connected, none)
  pub client_state : connected.state ≡ ClientState.connected
  pub client_index : connected.client_index ≡ slot % 2 ^ 32
  pub max_clients : connected.max_clients ≡ server.max_clients % 2 ^ 32
  pub server_slot : server_connected.clients ≡ set server.clients slot (some entry)
  pub server_pending_clients : server_connected.pending_clients ≡ server.pending_clients
  pub entry_state : entry.state ≡ ConnectionState.connected
  pub entry_id : entry.client_id ≡ token.client_id
  pub entry_addr : entry.addr ≡ addr
  pub entry_data : entry.user_data ≡ token.user_data

-- A client that starts to connect and has sent and heard nothing, and a server of its protocol that
-- admits it, connect. The server opens the client's token, with the client's keys, before it
-- expires; it is among the token's hosts, where it asks for that; it knows neither the client's id
-- nor its address, has not seen the token from elsewhere, and has a free slot. Then the client
-- sends a connection request, the server answers with a challenge, the client with a response, the
-- server takes it into the slot, tells of the connection and answers with a packet that keeps
-- alive, and the client is connected and knows its slot; the server's pending clients are those
-- from before. The ciphers seal every text that is not too long and open what they sealed; no
-- packet is lost, and no time passes.
pub handshake-Connects :
    (c : Ciphers) (client : NetcodeClient) (server : NetcodeServer) (addr : SocketAddr)
    (token : PrivateConnectToken) (slot : ℕ)
    → IsCipher c
    → Agrees client server token
    → Admits c server addr client.connect_token.expire_timestamp client.connect_token.xnonce
        client.connect_token.private_data token
    → free_slot server.clients ≡ some slot
    → Connects c client server addr token slot
handshake-Connects c client server addr token slot k agrees admits place =
    let (b1, b2, sealed, entries, asks, answers, challenges, size, opens) =
      half_way c client server addr token k agrees admits in
    let (b3, b4, responds, connects, welcomes) =
      other_half c client server addr token k agrees admits slot sealed entries place size opens in
    record {
      request = b1;
      challenge = b2;
      response = b3;
      keep_alive = b4;
      asking = _;
      challenged = _;
      responding = _;
      connected = _;
      server_pending = _;
      server_connected = _;
      entry = _;
      client_asks = asks;
      server_answers = answers;
      client_hears = challenges;
      client_responds = responds;
      server_connects = connects;
      client_connects = welcomes;
      client_state = refl;
      client_index = refl;
      max_clients = refl;
      server_slot = refl;
      server_pending_clients =
          remove_pending-put_pending server.pending_clients addr _ _ admits.not_pending;
      entry_state = refl;
      entry_id = refl;
      entry_addr = refl;
      entry_data = refl;
    }
