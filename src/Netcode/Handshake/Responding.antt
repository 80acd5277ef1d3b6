-- ===== src/Netcode/Handshake/Responding.antt =====
-- What a server does with the response to its challenge (renetcode/src/server.rs).
use renet.Base.{ℕ, ◌^◌, ◌%◌, ◌≤◌, ◌≡◌, refl, ap, ◌∙◌, false, none, some, ltb, length, set, arith}
use renet.Base.Outcome.{returns, ◌>>=◌, ok}
use renet.Base.Word.{add_u64}
use renet.Packet.{Bytes}
use renet.Netcode.Crypto.{Ciphers}
use renet.Netcode.Address.{SocketAddr}
use renet.Netcode.Packet.{Packet}
use renet.Netcode.Packet.Decode.{decode}
use renet.Netcode.Packet.Challenge.{ChallengeToken, decode_token}
use renet.Netcode.Server.{Connection, ConnectionState, NetcodeServer, client_connected}
use renet.Netcode.Server.Lookup.{
  find_client_mut_by_addr, find_client_slot_by_id, free_slot, get_pending, remove_pending,
  put_pending,
}
use renet.Netcode.Server.Request.{encode_with}
use renet.Netcode.Server.Process.{
  protected, pending_decoded, pending_packet, process_pending, process_packet_internal, or_nothing,
  process_packet, answered, connect, response_decoded, with_pending,
}

-- The client that takes the place of the pending one.
abbrev pub connected_client : NetcodeServer → Connection → ChallengeToken → Connection
connected_client server pending token = record pending {
  state = ConnectionState.connected;
  user_data = token.user_data;
  last_packet_received_time = server.current_time;
  last_packet_send_time = server.current_time;
  sequence = add_u64 pending.sequence 1;
}

-- The server that took it into the slot.
abbrev pub connecting : NetcodeServer → SocketAddr → Connection → ChallengeToken → ℕ → NetcodeServer
connecting server addr pending token slot = record server {
  pending_clients =
      remove_pending
        (put_pending server.pending_clients addr
          (record pending { last_packet_received_time = server.current_time }))
        addr;
  clients = set server.clients slot (some (connected_client server pending token));
}

module _ (c : Ciphers) (server : NetcodeServer) (addr : SocketAddr) (pending : Connection)
    (token : ChallengeToken) (slot : ℕ) (payload : Bytes)
    (new_id : find_client_slot_by_id server.clients token.client_id ≡ none)
    (place : free_slot server.clients ≡ some slot)
    (encoded : encode_with c server
        (Packet.keep_alive (slot % 2 ^ 32) (server.max_clients % 2 ^ 32))
        pending.sequence
        pending.send_key
      ≡ ok payload) where
  response_placed :
      answered c
        (with_pending server addr
          (record pending { last_packet_received_time = server.current_time }))
        addr
        (record pending { last_packet_received_time = server.current_time })
        token
      ≡ (
        connecting server addr pending token slot,
        ok (client_connected pending.client_id addr token.user_data payload),
      )
  unfolding answered connect
  response_placed = rw (new_id, place, encoded) refl

  -- The response, as a packet that arrived.
  pub response_answered :
      (bytes token_data : Bytes) (s token_sequence : ℕ)
      → find_client_mut_by_addr server.clients addr ≡ none
      → get_pending server.pending_clients addr ≡ some pending
      → 18 ≤ length bytes
      → decode c bytes server.protocol_id
          (some pending.receive_key)
          (some pending.replay_protection)
        ≡ returns (record {
          result = ok (s, Packet.response token_sequence token_data);
          replay_protection = some pending.replay_protection;
        })
      → decode_token c token_data token_sequence server.challenge_key ≡ returns (ok token)
      → process_packet c server addr bytes
        ≡ returns (
          connecting server addr pending token slot,
          client_connected pending.client_id addr token.user_data payload,
        )
  unfolding process_packet process_packet_internal process_pending pending_packet
  response_answered bytes token_data s token_sequence new_addr is_pending long arrives opened =
      let short : ltb (length bytes) 18 ≡ false = ground (arith, long) in
      let pending' = record pending { last_packet_received_time = server.current_time } in
      rw (short, new_addr, is_pending)
        (ap
            (λ d. (d >>= λ d. pending_decoded c server addr (protected pending d) d.result) >>= λ r.
              returns (or_nothing r))
            arrives
          ∙ ap
              (λ x.
                (x >>= λ r.
                returns (response_decoded c (with_pending server addr pending') addr pending' r))
                >>= λ r. returns (or_nothing r))
              opened
          ∙ ap (λ r. returns (or_nothing r)) response_placed)
