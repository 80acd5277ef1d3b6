-- ===== src/Netcode/Packet/Opened.antt =====
-- The decoding of a sealed packet, `Packet::decode` of renetcode/src/packet.rs.
use renet.Base.{
  ℕ, ◌+◌, ◌^◌, ◌<◌, ◌≤◌, ◌≡◌, refl, ap, ◌∙◌, Bool, true, false, Option, some, ◌++◌, length, drop,
  ltb, arith,
}
use renet.Base.Outcome.{returns, ◌>>=◌, Result, ok}
use renet.Packet.{Bytes}
use renet.Netcode.Limits.{mac_bytes}
use renet.Netcode.Error.{IoError}
use renet.Netcode.Io.{to_le_bytes}
use renet.Netcode.Io.Cursors.{read_word-Reads}
use renet.Netcode.Crypto.{Ciphers, Opens, dencrypted_in_place, nonce_of}
use renet.Netcode.Crypto.Opening.{decrypt_with-Opens, body_of-append}
use renet.Netcode.PacketType.{
  PacketType, from_u8, sequence_bytes_required, encode_prefix, decode_prefix,
}
use renet.Netcode.PacketType.Sequence.{
  sequence_bytes_required-le, sequence_fits, from_u8-number, decode_prefix-encode_prefix,
}
use renet.Netcode.Replay.{ReplayProtection}
use renet.Netcode.Packet.{Packet, packet_type, id, is_connection_request, additional_data}
use renet.Netcode.Packet.Layout.{HasSizes, body, read-body}
use renet.Netcode.Packet.Read.{read, read_sequence}
use renet.Netcode.Packet.Sealed.{head_of}
use renet.Netcode.Packet.Decode.{
  Decoded, reads_as, is_duplicate, advance, decode_opened, decode_sequence, decode_sealed,
  decode_as, decode,
}

abbrev pub is_request : PacketType → Bool
is_request PacketType.connection_request = true
is_request _ = false

pub sealed_type :
    (c : Ciphers) (buffer : Bytes) (protocol_id : ℕ) (key : Bytes) (rp : Option ReplayProtection)
    (t : PacketType)
    → is_request t ≡ false
    → decode_as c buffer protocol_id (some key) rp (ok t)
      ≡ decode_sealed c t buffer protocol_id key rp
sealed_type c buffer protocol_id key rp PacketType.connection_request h = absurd (cc h)
sealed_type c buffer protocol_id key rp PacketType.connection_denied h = refl
sealed_type c buffer protocol_id key rp PacketType.challenge h = refl
sealed_type c buffer protocol_id key rp PacketType.response h = refl
sealed_type c buffer protocol_id key rp PacketType.keep_alive h = refl
sealed_type c buffer protocol_id key rp PacketType.payload h = refl
sealed_type c buffer protocol_id key rp PacketType.disconnect h = refl

not_request : (p : Packet) → is_connection_request p ≡ false → is_request (packet_type p) ≡ false
not_request (Packet.connection_request _ _ _ _ _) h = h
not_request Packet.connection_denied h = refl
not_request (Packet.challenge _ _) h = refl
not_request (Packet.response _ _) h = refl
not_request (Packet.keep_alive _ _) h = refl
not_request (Packet.payload _) h = refl
not_request Packet.disconnect h = refl

read_sequence-bytes :
    (s : ℕ) (rest : Bytes)
    → s < 2 ^ 64
    → read_sequence (sequence_bytes_required s) (to_le_bytes (sequence_bytes_required s) s ++ rest)
      ≡ returns (ok (s, rest))
unfolding read_sequence
read_sequence-bytes s rest h =
    let short : ltb 8 (sequence_bytes_required s) ≡ false =
      ground (arith, sequence_bytes_required-le s h) in
    rw short (ap returns (read_word-Reads (sequence_bytes_required s) s (sequence_fits s h) rest))

module _ (c : Ciphers) (o : Opens c.chacha) (p : Packet) (protocol_id s : ℕ) (key : Bytes)
    (rp : Option ReplayProtection) (sizes : HasSizes p) (h : s < 2 ^ 64)
    (plain : is_connection_request p ≡ false)
    (fresh : is_duplicate (packet_type p) s rp ≡ false) where
  abbrev decoded : Decoded
  decoded = record { result = ok (s, p); replay_protection = advance (packet_type p) s rp }

  opened :
      (tag : Bytes)
      → length tag ≡ mac_bytes
      → decode_opened (packet_type p) s rp (some (body p ++ tag)) ≡ returns decoded
  opened tag e =
      ap
        (λ (r : Result Packet IoError).
          returns
            (record { result = reads_as s r; replay_protection = advance (packet_type p) s rp }))
        (ap (read (packet_type p)) (body_of-append (body p) tag e) ∙ read-body p sizes)

  sequenced :
      (aad cipher tag : Bytes)
      → c.chacha.encrypt key (nonce_of s) aad (body p) ≡ some (cipher, tag)
      → decode_sequence c (packet_type p) aad key rp (ok (s, cipher ++ tag)) ≡ returns decoded
  unfolding dencrypted_in_place
  sequenced aad cipher tag e =
      rw (fresh, decode_sequence)
        (ap (λ x. x >>= λ o. decode_opened (packet_type p) s rp o)
            (decrypt_with-Opens c.chacha o (body p) (nonce_of s) key aad cipher tag e)
          ∙ opened tag ((o.size key (nonce_of s) aad (body p) cipher tag e).1))

  pub decode-head_of :
      (cipher tag : Bytes)
      → c.chacha.encrypt key
          (nonce_of s)
          (additional_data (encode_prefix (id p) s) protocol_id)
          (body p)
        ≡ some (cipher, tag)
      → 18 ≤ length (head_of p s ++ (cipher ++ tag))
      → decode c (head_of p s ++ (cipher ++ tag)) protocol_id (some key) rp ≡ returns decoded
  unfolding decode decode_sealed
  decode-head_of cipher tag e long =
      let t = packet_type p in
      let prefix = encode_prefix (id p) s in
      let buffer = head_of p s ++ (cipher ++ tag) in
      let enough : ltb (length buffer) (2 + mac_bytes) ≡ false = ground (arith, long) in
      let split : decode_prefix prefix ≡ (id p, sequence_bytes_required s) =
        decode_prefix-encode_prefix t s h in
      rw enough (
        ap (λ x. decode_as c buffer protocol_id (some key) rp (from_u8 (x.0))) split
        ∙ ap (decode_as c buffer protocol_id (some key) rp) (from_u8-number t)
        ∙ sealed_type c buffer protocol_id key rp t (not_request p plain)
        ∙ ap
            (λ x. read_sequence (x.1) (drop 1 buffer) >>= λ r.
              decode_sequence c t (additional_data prefix protocol_id) key rp r)
            split
        ∙ ap (λ x. x >>= λ r. decode_sequence c t (additional_data prefix protocol_id) key rp r)
            (read_sequence-bytes s (cipher ++ tag) h)
        ∙ sequenced (additional_data prefix protocol_id) cipher tag e)
