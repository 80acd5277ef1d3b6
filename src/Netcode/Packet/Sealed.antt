-- ===== src/Netcode/Packet/Sealed.antt =====
-- The bytes of a sealed packet, `Packet::encode` of renetcode/src/packet.rs.
use renet.Base.{
  ℕ, zero, suc, ◌+◌, ◌-◌, ◌^◌, ◌<◌, ◌≤◌, ◌≡◌, refl, ap, ◌∙◌, true, false, [], ◌∷◌, ◌++◌, length,
  length-append, take, take-append, drop-append, length-take, ltb, leb, arith, Bool-cases, inl, inr,
}
use renet.Base.Outcome.{Result, ok, err}
use renet.Packet.{Bytes}
use renet.Netcode.Limits.{mac_bytes}
use renet.Netcode.Error.{◌>>=◌, map_err, NetcodeError, io_failure, write_zero}
use renet.Netcode.Io.{Writer, to_le_bytes}
use renet.Netcode.Io.Cursors.{write_all-fits, write_all-full, length-to_le_bytes, writer-eq}
use renet.Netcode.Crypto.{Ciphers, encrypt_in_place, nonce_of}
use renet.Netcode.Crypto.Opening.{joined, encrypt_with-body}
use renet.Netcode.PacketType.{sequence_bytes_required, encode_prefix}
use renet.Netcode.PacketType.Sequence.{sequence_bytes}
use renet.Netcode.Packet.{Packet, id, additional_data}
use renet.Netcode.Packet.Layout.{body, write-body}
use renet.Netcode.Packet.Write.{cursor, write, write_sequence}
use renet.Netcode.Packet.Encode.{or_crypto_error, seal, encode_after, encode_sealed}

-- The first byte and the sequence.
abbrev pub head_of : Packet → ℕ → Bytes
head_of p s = encode_prefix (id p) s ∷ to_le_bytes (sequence_bytes_required s) s

abbrev pub sealed_length : Packet → ℕ → ℕ
sealed_length p s = 1 + sequence_bytes_required s + length (body p) + mac_bytes

take_all : (n : ℕ) (bs : Bytes) → length bs ≤ n → take n bs ≡ bs
take_all zero [] h = refl
take_all zero (b ∷ bs) h = absurd (omega arith)
take_all (suc n) [] h = refl
take_all (suc n) (b ∷ bs) h = ap (λ l. b ∷ l) (take_all n bs (omega arith))

write_sequence-fits :
    (s : ℕ) (w : Writer)
    → s < 2 ^ 64
    → sequence_bytes_required s ≤ w.room
    → write_sequence s w ≡ record {
      written = w.written ++ to_le_bytes (sequence_bytes_required s) s;
      room = w.room - sequence_bytes_required s;
    }
unfolding write_sequence
write_sequence-fits s w h fits =
    let size = length-to_le_bytes (sequence_bytes_required s) s in
    rw (sequence_bytes s h) (
      writer-eq (ap (λ bs. w.written ++ bs) (take_all w.room _ (omega (arith, size, fits))))
        (omega (arith, size)))

abbrev after_head : Packet → ℕ → ℕ → Writer
after_head p capacity s = record {
  written = head_of p s;
  room = capacity - 1 - sequence_bytes_required s;
}

-- The text, enciphered.
abbrev pub cipher_of : Ciphers → Bytes → ℕ → Bytes → Bytes → Result Bytes NetcodeError
cipher_of c bs s key aad = or_crypto_error (joined (c.chacha.encrypt key (nonce_of s) aad bs))

seal-fits :
    (c : Ciphers) (capacity s : ℕ) (key aad start bs : Bytes) (room : ℕ)
    → length start + length bs + mac_bytes ≤ capacity
    → seal c capacity s key aad (length start) (record { written = start ++ bs; room = room })
      ≡ (cipher_of c bs s key aad >>= λ sealed. ok (start ++ sealed))
unfolding seal encrypt_in_place
seal-fits c capacity s key aad start bs room fits =
    let small : ltb capacity (length (start ++ bs) + mac_bytes) ≡ false =
      ground (arith, length-append start bs, fits) in
    rw (small, drop-append start bs (length start) refl, take-append start bs (length start) refl)
      (ap (λ o. or_crypto_error o >>= λ sealed. ok (start ++ sealed))
        (encrypt_with-body c.chacha bs (nonce_of s) key aad))

seal-full :
    (c : Ciphers) (capacity s : ℕ) (key aad : Bytes) (start : ℕ) (w : Writer)
    → capacity < length w.written + mac_bytes
    → seal c capacity s key aad start w ≡ err (io_failure write_zero)
unfolding seal
seal-full c capacity s key aad start w full =
    let large : ltb capacity (length w.written + mac_bytes) ≡ true = ground (arith, full) in
    rw large refl

module _ (c : Ciphers) (p : Packet) (capacity protocol_id s : ℕ) (key : Bytes)
    (h : s < 2 ^ 64) where
  -- In a buffer with the room, the packet is its head and its enciphered text.
  pub encode_sealed-fits :
      sealed_length p s ≤ capacity
      → encode_sealed c p capacity protocol_id s key ≡ (
          cipher_of c (body p) s key (additional_data (encode_prefix (id p) s) protocol_id)
          >>= λ sealed. ok (head_of p s ++ sealed))
  unfolding encode_sealed encode_after
  encode_sealed-fits fits =
      let aad = additional_data (encode_prefix (id p) s) protocol_id in
      let size = length-to_le_bytes (sequence_bytes_required s) s in
      ap
        (λ x.
          map_err io_failure x
          >>= encode_after c p capacity protocol_id s key (encode_prefix (id p) s))
        (write_all-fits (encode_prefix (id p) s ∷ []) (cursor capacity) (omega (arith, fits)))
      ∙ ap
          (λ head.
            map_err io_failure (write p head) >>= seal c capacity s key aad (length head.written))
          (write_sequence-fits s _ h (omega (arith, fits)))
      ∙ ap (λ x. map_err io_failure x >>= seal c capacity s key aad (length (head_of p s)))
          (write-body p (after_head p capacity s)
            ∙ write_all-fits (body p) (after_head p capacity s) (omega (arith, size, fits)))
      ∙ seal-fits c capacity s key aad (head_of p s) (body p) _ (omega (arith, size, fits))

  no_room :
      (aad : Bytes) (head : Writer)
      → capacity < length head.written + length (body p) + mac_bytes
      → (map_err io_failure (write p head) >>= seal c capacity s key aad (length head.written))
        ≡ err (io_failure write_zero)
  no_room aad head full = elim (Bool-cases (leb (length (body p)) head.room)) [
    | inl fits ↦
        ap (λ x. map_err io_failure x >>= seal c capacity s key aad (length head.written))
          (write-body p head ∙ write_all-fits (body p) head (ground (arith, fits)))
        ∙ seal-full c capacity s key aad (length head.written) _
            (omega (arith, full, length-append head.written (body p)))
    | inr over ↦
        ap (λ x. map_err io_failure x >>= seal c capacity s key aad (length head.written))
          (write-body p head ∙ write_all-full (body p) head (ground (arith, over)))
  ]

  long_head :
      (w : Writer)
      → capacity ≤ length w.written + w.room
      → capacity < length w.written + sequence_bytes_required s + length (body p) + mac_bytes
      → capacity < length (write_sequence s w).written + length (body p) + mac_bytes
  unfolding write_sequence
  long_head w room full =
      let bs = take (sequence_bytes_required s) (to_le_bytes 8 s) in
      let size : length bs ≡ sequence_bytes_required s =
        ap length (sequence_bytes s h) ∙ length-to_le_bytes (sequence_bytes_required s) s in
      omega
        (arith, room, full, size, length-append w.written (take w.room bs), length-take w.room bs)

  -- Without the room, it is an error.
  pub encode_sealed-full :
      capacity < sealed_length p s
      → encode_sealed c p capacity protocol_id s key ≡ err (io_failure write_zero)
  unfolding encode_sealed encode_after
  encode_sealed-full full =
      let prefix = encode_prefix (id p) s in
      let rest = encode_after c p capacity protocol_id s key prefix in
      let aad = additional_data prefix protocol_id in
      elim (Bool-cases (leb 1 capacity)) [
        | inl some_room ↦
            ap (λ x. map_err io_failure x >>= rest)
              (write_all-fits (prefix ∷ []) (cursor capacity) (ground (arith, some_room)))
            ∙ no_room aad (write_sequence s _)
                (long_head _ (ground (arith, some_room)) (omega (arith, full)))
        | inr nothing ↦
            ap (λ x. map_err io_failure x >>= rest)
              (write_all-full (prefix ∷ []) (cursor capacity) (ground (arith, nothing)))
      ]
