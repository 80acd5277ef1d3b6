-- ===== src/Netcode/Packet/Fits.antt =====
-- Every packet fits the buffer that it is encoded into (renetcode/src/packet.rs).
use renet.Base.{
  ℕ, ◌^◌, ◌<◌, ◌≤◌, ◌≡◌, refl, sym, ap, ◌∙◌, subst, true, false, some, [], ◌∷◌, ◌++◌, length,
  length-append, arith, Bool-cases, inl, inr,
}
use renet.Base.Outcome.{Result, ok}
use renet.Packet.{Bytes}
use renet.Netcode.Limits.{max_packet_bytes, max_payload_bytes}
use renet.Netcode.Error.{◌>>=◌, NetcodeError, map_err, io_failure}
use renet.Netcode.Io.{Writer}
use renet.Netcode.Io.Cursors.{write_all-fits, length-to_le_bytes}
use renet.Netcode.Crypto.{Ciphers, Opens, Seals, nonce_of}
use renet.Netcode.Crypto.Opening.{joined}
use renet.Netcode.PacketType.{encode_prefix, sequence_bytes_required}
use renet.Netcode.PacketType.Sequence.{sequence_bytes_required-le}
use renet.Netcode.Packet.{Packet, id, is_connection_request, additional_data}
use renet.Netcode.Packet.Layout.{HasSizes, body, write-body}
use renet.Netcode.Packet.Write.{cursor, write}
use renet.Netcode.Packet.Encode.{or_crypto_error, encode_plain, encode_sealed, encode}
use renet.Netcode.Packet.Sealed.{head_of, sealed_length, encode_sealed-fits}

-- A payload is not above its limit.
abbrev pub HasLimit : Packet → Type 0
HasLimit (Packet.payload p) = length p ≤ max_payload_bytes
HasLimit _ = Unit

length-body : (p : Packet) → HasSizes p → HasLimit p → length (body p) ≤ max_payload_bytes
length-body (Packet.connection_request v i t x d) (hv, hi, ht, hx, hd) l =
    omega (arith, length-append v _, length-append x d, hv, hx, hd)
length-body (Packet.challenge s d) (hs, hd) l = omega (arith, hd)
length-body (Packet.response s d) (hs, hd) l = omega (arith, hd)
length-body (Packet.keep_alive i m) h l = omega arith
length-body (Packet.payload p) h l = l
length-body Packet.connection_denied h l = omega arith
length-body Packet.disconnect h l = omega arith

-- The bytes are there, with their length.
abbrev pub Fits : Packet → ℕ → Result Bytes NetcodeError → Type 0
Fits p s r =
    (bytes : Bytes) × (r ≡ ok bytes)
    × (length (body p) ≤ length bytes)
    × (length bytes ≤ max_packet_bytes)
    × ((is_connection_request p ≡ false) → length bytes ≡ sealed_length p s)

plain-Fits :
    (p : Packet) (s : ℕ)
    → HasSizes p
    → HasLimit p
    → is_connection_request p ≡ true
    → Fits p s (encode_plain p max_packet_bytes)
unfolding encode_plain
plain-Fits p s h l request =
    let prefix = encode_prefix (id p) 0 in
    let after : Writer = record { written = prefix ∷ []; room = 1399 } in
    let size = length-body p h l in
    (
      prefix ∷ body p,
      ap (λ x. map_err io_failure x >>= λ w. map_err io_failure (write p w) >>= λ w. ok w.written)
            (write_all-fits (prefix ∷ []) (cursor max_packet_bytes) (omega arith))
          ∙ ap (λ x. map_err io_failure x >>= λ w. ok w.written)
              (write-body p after ∙ write_all-fits (body p) after (omega (arith, size))),
      omega arith,
      omega (arith, size),
      λ plain. absurd (cc (sym request ∙ plain)),
    )

sealed-Fits :
    (c : Ciphers) (p : Packet) (protocol_id s : ℕ) (key : Bytes)
    → Opens c.chacha
    → Seals c.chacha
    → HasSizes p
    → HasLimit p
    → s < 2 ^ 64
    → Fits p s (encode_sealed c p max_packet_bytes protocol_id s key)
sealed-Fits c p protocol_id s key o seals h l small =
    let aad = additional_data (encode_prefix (id p) s) protocol_id in
    let size = length-body p h l in
    let few = sequence_bytes_required-le s small in
    let ((cipher, tag), made) = seals key (nonce_of s) aad (body p) (omega (arith, size)) in
    let (cipher_size, tag_size) = o.size key (nonce_of s) aad (body p) cipher tag made in
    let bytes = head_of p s ++ (cipher ++ tag) in
    let total : length bytes ≡ sealed_length p s = omega (
      arith,
      length-append (head_of p s) (cipher ++ tag),
      length-append cipher tag,
      length-to_le_bytes (sequence_bytes_required s) s,
      cipher_size,
      tag_size,
    ) in
    (
      bytes,
      encode_sealed-fits c p max_packet_bytes protocol_id s key small (omega (arith, size, few))
          ∙ ap (λ t. or_crypto_error (joined t) >>= λ sealed. ok (head_of p s ++ sealed)) made,
      omega (arith, total),
      omega (arith, total, size, few),
      λ _. total,
    )

-- With a cipher that opens what it sealed and that seals every text of less than 2 ^ 32 bytes: a
-- packet whose fields have their sizes, and whose payload is not above its limit, is encoded with a
-- key and any sequence of 64 bits into the buffer of 1400 bytes, without an error; a sealed packet
-- then has the first byte, the bytes of its sequence, its body and the 16 bytes of the tag.
pub encode-Fits :
    (c : Ciphers) (p : Packet) (protocol_id s : ℕ) (key : Bytes)
    → Opens c.chacha
    → Seals c.chacha
    → HasSizes p
    → HasLimit p
    → s < 2 ^ 64
    → Fits p s (encode c p max_packet_bytes protocol_id (some (s, key)))
unfolding encode
encode-Fits c p protocol_id s key o seals h l small = elim (Bool-cases (is_connection_request p)) [
  | inl request ↦
      let q : encode c p max_packet_bytes protocol_id (some (s, key))
          ≡ encode_plain p max_packet_bytes =
        rw request refl in
      subst (Fits p s) (sym q) (plain-Fits p s h l request)
  | inr plain ↦
      let q : encode c p max_packet_bytes protocol_id (some (s, key))
          ≡ encode_sealed c p max_packet_bytes protocol_id s key =
        rw plain refl in
      subst (Fits p s) (sym q) (sealed-Fits c p protocol_id s key o seals h l small)
]
