-- ===== src/Netcode/Handshake/Asking.antt =====
-- What a client sends and hears while it connects (renetcode/src/client.rs).
use renet.Base.{ℕ, ◌≡◌, ap, ◌∙◌, none, some, if◌then◌else◌}
use renet.Base.Outcome.{returns, ◌>>=◌, ok}
use renet.Packet.{Bytes}
use renet.Netcode.Crypto.{Ciphers}
use renet.Netcode.Replay.{ReplayProtection}
use renet.Netcode.Packet.{Packet}
use renet.Netcode.Packet.Decode.{decode}
use renet.Netcode.Client.{NetcodeClient, encode_packet}
use renet.Netcode.Client.Receive.{handle, handle_decoded, process_packet}
use renet.Netcode.Client.Update.{
  advanced, is_due, packet_of, send_packet, encoded_or_nothing, generate_packet,
}

-- The client after it sent a packet.
abbrev pub after_sending : NetcodeClient → NetcodeClient
after_sending client = advanced (record client { last_packet_send_time = some client.current_time })

-- A client that has sent nothing yet sends the packet of its state.
pub sends :
    (c : Ciphers) (client : NetcodeClient) (p : Packet) (bytes : Bytes)
    → client.last_packet_send_time ≡ none
    → packet_of client client.state ≡ some p
    → encode_packet c client p ≡ ok bytes
    → generate_packet c client ≡ returns (after_sending client, some (client.server_addr, bytes))
unfolding generate_packet is_due
sends c client p bytes first e f =
    let client' = record client { last_packet_send_time = some client.current_time } in
    ap
      (λ t. is_due t client.current_time >>= λ due.
        returns
          (if due then send_packet c client (packet_of client client.state) else (client, none)))
      first
    ∙ ap (λ o. returns (send_packet c client o)) e
    ∙ ap (λ r. returns (encoded_or_nothing client' r)) f

-- A packet that is decoded is handled, with the replay protection that the decoding leaves.
pub hears :
    (c : Ciphers) (client : NetcodeClient) (p : Packet) (s : ℕ) (rp : ReplayProtection)
    (bytes : Bytes)
    → decode c bytes client.connect_token.protocol_id
        (some client.connect_token.server_to_client_key)
        (some client.replay_protection)
      ≡ returns (record { result = ok (s, p); replay_protection = some rp })
    → process_packet c client bytes
      ≡ returns (handle p client.state (record client { replay_protection = rp }))
unfolding process_packet
hears c client p s rp bytes e = ap (λ d. d >>= λ d. returns (handle_decoded client d)) e
