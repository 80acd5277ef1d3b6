-- ===== src/Netcode/Handshake/Delivered.antt =====
-- A packet that one side encodes and the other decodes (renetcode/src/packet.rs).
use renet.Base.{
  ℕ, ◌^◌, ◌<◌, ◌≤◌, ◌≡◌, ap, ◌∙◌, subst, true, false, Option, none, some, ◌∷◌, length, arith,
}
use renet.Base.Outcome.{returns, ok}
use renet.Packet.{Bytes}
use renet.Netcode.Limits.{max_packet_bytes}
use renet.Netcode.Crypto.{Ciphers, Opens, Seals}
use renet.Netcode.PacketType.{encode_prefix}
use renet.Netcode.Replay.{ReplayProtection}
use renet.Netcode.Packet.{Packet, packet_type, id, is_connection_request}
use renet.Netcode.Packet.Layout.{HasSizes, body}
use renet.Netcode.Packet.Encode.{encode}
use renet.Netcode.Packet.Decode.{decode, is_duplicate}
use renet.Netcode.Packet.RoundTrip.{seen, decode-encode, plain-bytes, request-back}
use renet.Netcode.Packet.Fits.{HasLimit, encode-Fits}

-- The ciphers open what they seal, and seal every text that is not too long.
pub record IsCipher (c : Ciphers) : Type 0 where
  pub chacha : Opens c.chacha
  pub seals : Seals c.chacha
  pub xchacha : Opens c.xchacha

-- A sealed packet with a body arrives.
pub delivered :
    (c : Ciphers) (p : Packet) (protocol_id s : ℕ) (key : Bytes) (rp : Option ReplayProtection)
    → IsCipher c
    → HasSizes p
    → HasLimit p
    → is_connection_request p ≡ false
    → 1 ≤ length (body p)
    → s < 2 ^ 64
    → is_duplicate (packet_type p) s rp ≡ false
    → (bytes : Bytes) × (encode c p max_packet_bytes protocol_id (some (s, key)) ≡ ok bytes)
      × (18 ≤ length bytes)
      × (decode c bytes protocol_id (some key) rp ≡ returns (seen p s rp))
delivered c p protocol_id s key rp k sizes limit plain full small fresh =
    let (bytes, e, _, _, exact) =
      encode-Fits c p protocol_id s key k.chacha k.seals sizes limit small in
    let long : 18 ≤ length bytes = omega (arith, exact plain, full) in
    (
      bytes,
      e,
      long,
      decode-encode c p max_packet_bytes protocol_id s key bytes rp k.chacha sizes small fresh e
          long,
    )

-- A connection request arrives, without a key.
pub requested :
    (c : Ciphers) (p : Packet) (protocol_id s : ℕ) (key : Bytes)
    → IsCipher c
    → HasSizes p
    → HasLimit p
    → is_connection_request p ≡ true
    → 18 ≤ length (body p)
    → s < 2 ^ 64
    → (bytes : Bytes) × (encode c p max_packet_bytes protocol_id (some (s, key)) ≡ ok bytes)
      × (18 ≤ length bytes)
      × (decode c bytes protocol_id none none
          ≡ returns (record { result = ok (0, p); replay_protection = none }))
unfolding encode
requested c p protocol_id s key k sizes limit request full small =
    let (bytes, e, longer, _, _) =
      encode-Fits c p protocol_id s key k.chacha k.seals sizes limit small in
    let q : bytes ≡ encode_prefix (id p) 0 ∷ body p =
      plain-bytes p max_packet_bytes bytes (rw request at e) in
    (
      bytes,
      e,
      omega (arith, longer, full),
      ap (λ z. decode c z protocol_id none none) q
          ∙ request-back c protocol_id none none p sizes request
              (subst (λ z. 18 ≤ length z) q (omega (arith, longer, full))),
    )
