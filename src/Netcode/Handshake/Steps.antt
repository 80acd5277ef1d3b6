-- ===== src/Netcode/Handshake/Steps.antt =====
-- The two halves of a handshake (renetcode/src/client.rs and renetcode/src/server.rs).
use renet.Base.{
  ℕ, ◌^◌, ◌%◌, ◌≤◌, ◌≡◌, refl, ap, ◌∙◌, Option, none, some, List, ◌++◌, length, length-append,
  arith,
}
use renet.Base.Outcome.{returns, ok}
use renet.Base.Word.{add_u64}
use renet.Packet.{Bytes}
use renet.Netcode.Limits.{challenge_token_bytes}
use renet.Netcode.Io.{to_le_bytes}
use renet.Netcode.Crypto.{Ciphers}
use renet.Netcode.Replay.{advance_sequence}
use renet.Netcode.Address.{SocketAddr}
use renet.Netcode.Token.{PrivateConnectToken}
use renet.Netcode.Packet.{Packet}
use renet.Netcode.Packet.Challenge.{ChallengeToken}
use renet.Netcode.Client.{NetcodeClient, ClientState}
use renet.Netcode.Client.Receive.{handle}
use renet.Netcode.Client.Receive
use renet.Netcode.Client.Update.{packet_of, generate_packet}
use renet.Netcode.Server.{
  Connection, ConnectTokenEntry, NetcodeServer, packet_to_send, client_connected,
}
use renet.Netcode.Server.Lookup.{free_slot}
use renet.Netcode.Server.Lookup.Found.{find_client_slot_by_id-none}
use renet.Netcode.Server.Lookup.Waiting.{get_pending-put_pending}
use renet.Netcode.Server.Request.{fresh_connection}
use renet.Netcode.Server.Process.{process_packet}
use renet.Netcode.Handshake.Delivered.{IsCipher}
use renet.Netcode.Handshake.Tokens.{challenge_made}
use renet.Netcode.Handshake.Asking.{after_sending, sends, hears}
use renet.Netcode.Handshake.Answering.{Admits, challenging, request_answered}
use renet.Netcode.Handshake.Responding.{connecting, response_answered}
use renet.Netcode.Packet.Challenge.{decode_token}
use renet.Netcode.Handshake.Arriving.{
  Agrees, first_keep_alive, add_u64_lt, asking_packet, request_arrives, client_receives,
  server_receives,
}

-- The client that heard the challenge.
abbrev pub challenged_client : NetcodeClient → ℕ → Bytes → NetcodeClient
challenged_client client s sealed = record client {
  challenge_token_sequence = s;
  last_packet_received_time = client.current_time;
  last_packet_send_time = none;
  challenge_token_data = sealed;
  state = ClientState.sending_connection_response;
}

abbrev pub connected_at : NetcodeClient → ℕ → ℕ → NetcodeClient
connected_at client slot max_clients = record client {
  replay_protection = advance_sequence client.replay_protection 0;
  last_packet_received_time = client.current_time;
  max_clients = max_clients;
  client_index = slot;
  state = ClientState.connected;
}

abbrev pub known : PrivateConnectToken → ChallengeToken
known token = record { client_id = token.client_id; user_data = token.user_data }

sealed-body :
    (s : ℕ) (sealed : Bytes)
    → length sealed ≡ challenge_token_bytes
    → 1 ≤ length (to_le_bytes 8 s ++ sealed)
sealed-body s sealed size = omega (arith, length-append (to_le_bytes 8 s) sealed, size)

module _ (c : Ciphers) (client : NetcodeClient) (server : NetcodeServer) (addr : SocketAddr)
    (token : PrivateConnectToken) (k : IsCipher c) (agrees : Agrees client server token)
    (admits : Admits c server addr client.connect_token.expire_timestamp client.connect_token.xnonce
      client.connect_token.private_data token) where
  abbrev pub pending_at : List (Option ConnectTokenEntry) → NetcodeServer
  pending_at entries = challenging server entries addr client.connect_token.expire_timestamp token

  abbrev pub pending_client : Connection
  pending_client = fresh_connection server addr client.connect_token.expire_timestamp token

  -- The request and the challenge.
  pub half_way :
      (b1 : Bytes) × (b2 : Bytes) × (sealed : Bytes) × (entries : List (Option ConnectTokenEntry))
      × (generate_packet c client ≡ returns (after_sending client, some (client.server_addr, b1)))
      × (process_packet c server addr b1 ≡ returns (pending_at entries, packet_to_send addr b2))
      × (Receive.process_packet c (after_sending client) b2
          ≡ returns (
            challenged_client (after_sending client) (add_u64 server.challenge_sequence 1) sealed,
            none,
          ))
      × (length sealed ≡ challenge_token_bytes)
      × (decode_token c sealed (add_u64 server.challenge_sequence 1) server.challenge_key
          ≡ returns (ok (known token)))
  unfolding handle
  half_way =
      let ct = client.connect_token in
      let s = add_u64 server.challenge_sequence 1 in
      let (b1, e1, long1, d1) = request_arrives c client server token k agrees in
      let (sealed, made, size, opens) =
        challenge_made c token.client_id token.user_data s server.challenge_key k agrees.client_id
          agrees.user_data in
      let p2 : Packet = Packet.challenge s sealed in
      let (b2, e2, d2) =
        client_receives c client server token k agrees p2 server.global_sequence
          (add_u64_lt _ _, size) tt refl (sealed-body s sealed size) agrees.global_sequence
          client.replay_protection refl in
      let (entries, answered) =
        request_answered c server addr ct.expire_timestamp ct.xnonce ct.private_data token admits p2
          b1 b2 made e2 b1 _ long1 d1 refl in
      (
        b1,
        b2,
        sealed,
        entries,
        sends c client (asking_packet client ct.protocol_id) b1 agrees.first
            (ap (packet_of client) agrees.starts) e1,
        answered,
        hears c (after_sending client) p2 server.global_sequence client.replay_protection b2 d2
            ∙ ap (λ t. returns (handle p2 t (after_sending client))) agrees.starts,
        size,
        opens,
      )

  -- The response and the packet that keeps alive.
  pub other_half :
      (slot : ℕ) (sealed : Bytes) (entries : List (Option ConnectTokenEntry))
      → free_slot server.clients ≡ some slot
      → length sealed ≡ challenge_token_bytes
      → decode_token c sealed (add_u64 server.challenge_sequence 1) server.challenge_key
        ≡ returns (ok (known token))
      → let client2 =
          challenged_client (after_sending client) (add_u64 server.challenge_sequence 1) sealed in
        (b3 : Bytes) × (b4 : Bytes) × (generate_packet c client2
          ≡ returns (after_sending client2, some (client.server_addr, b3)))
        × (process_packet c (pending_at entries) addr b3
            ≡ returns (
              connecting (pending_at entries) addr pending_client (known token) slot,
              client_connected token.client_id addr token.user_data b4,
            ))
        × (Receive.process_packet c (after_sending client2) b4
            ≡ returns (
              connected_at (after_sending client2) (slot % 2 ^ 32) (server.max_clients % 2 ^ 32),
              none,
            ))
  unfolding handle
  other_half slot sealed entries place size opens =
      let s = add_u64 server.challenge_sequence 1 in
      let client2 = challenged_client (after_sending client) s sealed in
      let (b3, e3, long3, d3) =
        server_receives c client server token k agrees (Packet.response s sealed) client2.sequence
          (add_u64_lt _ _, size) tt refl (sealed-body s sealed size) (add_u64_lt _ _) refl in
      let p4 : Packet = Packet.keep_alive (slot % 2 ^ 32) (server.max_clients % 2 ^ 32) in
      let (b4, e4, d4) =
        client_receives c client server token k agrees p4 0 (omega arith, omega arith) tt refl
          (omega arith) (omega arith) client.replay_protection
          (first_keep_alive client.replay_protection agrees.unheard) in
      (
        b3,
        b4,
        sends c client2 (Packet.response s sealed) b3 refl refl e3,
        response_answered c (pending_at entries) addr pending_client (known token) slot b4
            (find_client_slot_by_id-none server.clients token.client_id admits.new_id) place e4 b3
            sealed client2.sequence s admits.new_addr
            (get_pending-put_pending server.pending_clients addr pending_client) long3 d3 opens,
        hears c (after_sending client2) p4 0 (advance_sequence client.replay_protection 0) b4 d4,
      )
