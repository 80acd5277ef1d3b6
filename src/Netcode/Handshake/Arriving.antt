-- ===== src/Netcode/Handshake/Arriving.antt =====
-- The packets of a handshake arrive at the other side (renetcode/src/packet.rs).
use renet.Base.{ℕ, ◌^◌, ◌<◌, ◌≤◌, ◌≡◌, refl, ap, subst, false, none, some, length, arith}
use renet.Base.Outcome.{returns, ok}
use renet.Base.Word.{add_u64}
use renet.Packet.{Bytes}
use renet.Netcode.Limits.{
  version_info, xnonce_bytes, connect_token_private_bytes, user_data_bytes, max_packet_bytes,
}
use renet.Netcode.Crypto.{Ciphers}
use renet.Netcode.Replay.{ReplayProtection, new, already_received}
use renet.Netcode.PacketType.{PacketType}
use renet.Netcode.Token.{PrivateConnectToken}
use renet.Netcode.Packet.{Packet, packet_type, is_connection_request}
use renet.Netcode.Packet.RoundTrip.{seen}
use renet.Netcode.Packet.Fits.{HasLimit}
use renet.Netcode.Packet.Layout.{body, HasSizes}
use renet.Netcode.Packet.Encode.{encode}
use renet.Netcode.Packet.Decode.{decode, is_duplicate}
use renet.Netcode.Client.{NetcodeClient, ClientState, encode_packet}
use renet.Netcode.Server.{NetcodeServer}
use renet.Netcode.Server.Request.{encode_with}
use renet.Netcode.Handshake.Delivered.{IsCipher, delivered, requested}

-- The client starts to connect with the token that the server opens: the protocol and the keys are
-- the same, the numbers have their widths and the arrays their sizes.
pub record Agrees (client : NetcodeClient) (server : NetcodeServer) (token : PrivateConnectToken)
    : Type 0 where
  pub starts : client.state ≡ ClientState.sending_connection_request
  pub first : client.last_packet_send_time ≡ none
  pub unheard : client.replay_protection ≡ new
  pub protocol : client.connect_token.protocol_id ≡ server.protocol_id
  pub to_server : client.connect_token.client_to_server_key ≡ token.client_to_server_key
  pub to_client : client.connect_token.server_to_client_key ≡ token.server_to_client_key
  pub xnonce : length client.connect_token.xnonce ≡ xnonce_bytes
  pub private_data : length client.connect_token.private_data ≡ connect_token_private_bytes
  pub user_data : length token.user_data ≡ user_data_bytes
  pub client_id : token.client_id < 2 ^ 64
  pub protocol_id : client.connect_token.protocol_id < 2 ^ 64
  pub expire_timestamp : client.connect_token.expire_timestamp < 2 ^ 64
  pub sequence : client.sequence < 2 ^ 64
  pub global_sequence : server.global_sequence < 2 ^ 64

pub first_keep_alive :
    (rp : ReplayProtection) → rp ≡ new → is_duplicate PacketType.keep_alive 0 (some rp) ≡ false
unfolding already_received new add_u64
first_keep_alive rp e = ap (λ rp. is_duplicate PacketType.keep_alive 0 (some rp)) e

pub add_u64_lt : (a b : ℕ) → add_u64 a b < 2 ^ 64
unfolding add_u64
add_u64_lt a b = omega arith

-- What the client sends while it asks.
abbrev pub asking_packet : NetcodeClient → ℕ → Packet
asking_packet client protocol_id =
    let ct = client.connect_token in
    Packet.connection_request version_info protocol_id ct.expire_timestamp ct.xnonce ct.private_data

module _ (c : Ciphers) (client : NetcodeClient) (server : NetcodeServer)
    (token : PrivateConnectToken) (k : IsCipher c) (agrees : Agrees client server token) where
  -- The request arrives.
  pub request_arrives :
      (bytes : Bytes) × (encode_packet c client
          (asking_packet client client.connect_token.protocol_id)
        ≡ ok bytes)
      × (18 ≤ length bytes)
      × (decode c bytes server.protocol_id none none
          ≡ returns (record {
            result = ok (0, asking_packet client server.protocol_id);
            replay_protection = none;
          }))
  request_arrives =
      let ct = client.connect_token in
      let (bytes, e, long, d) =
        requested c (asking_packet client ct.protocol_id) ct.protocol_id client.sequence
          ct.client_to_server_key k
          (refl, agrees.protocol_id, agrees.expire_timestamp, agrees.xnonce, agrees.private_data) tt
          refl (omega arith) agrees.sequence in
      (
        bytes,
        e,
        long,
        subst
            (λ i.
              decode c bytes i none none
              ≡ returns
                  (record { result = ok (0, asking_packet client i); replay_protection = none }))
            agrees.protocol d,
      )

  module _ (p : Packet) (s : ℕ) (sizes : HasSizes p) (limit : HasLimit p)
      (plain : is_connection_request p ≡ false) (full : 1 ≤ length (body p))
      (small : s < 2 ^ 64) where
    -- A packet from the server arrives at the client.
    pub client_receives :
        (rp : ReplayProtection)
        → is_duplicate (packet_type p) s (some rp) ≡ false
        → (bytes : Bytes) × (encode_with c server p s token.server_to_client_key ≡ ok bytes)
          × (decode c bytes client.connect_token.protocol_id
                (some client.connect_token.server_to_client_key)
                (some rp)
              ≡ returns (seen p s (some rp)))
    client_receives rp fresh =
        let (bytes, e, _, d) =
          delivered c p server.protocol_id s token.server_to_client_key (some rp) k sizes limit
            plain full small fresh in
        (bytes, e, cc (d, agrees.protocol, agrees.to_client))

    -- A packet from the client arrives at the server.
    pub server_receives :
        is_duplicate (packet_type p) s (some new) ≡ false
        → (bytes : Bytes) × (encode c p max_packet_bytes client.connect_token.protocol_id
              (some (s, client.connect_token.client_to_server_key))
            ≡ ok bytes)
          × (18 ≤ length bytes)
          × (decode c bytes server.protocol_id (some token.client_to_server_key) (some new)
              ≡ returns (seen p s (some new)))
    server_receives fresh =
        let ct = client.connect_token in
        let (bytes, e, long, d) =
          delivered c p ct.protocol_id s ct.client_to_server_key (some new) k sizes limit plain full
            small fresh in
        (bytes, e, long, cc (d, agrees.protocol, agrees.to_server))
