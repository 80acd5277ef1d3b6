-- ===== src/Netcode/Packet/Panics.antt =====
-- When `Packet::decode` of renetcode/src/packet.rs panics.
use renet.Base.{
  ℕ, ◌+◌, ◌/◌, ◌%◌, ◌<◌, ◌≤◌, ◌≡◌, ◌↔◌, ◌≢◌, ◌⊎◌, inl, inr, refl, sym, ap, ◌∙◌, true, false, Option,
  none, some, length, length-drop, take, drop, get_or, ltb, leb, ltb→lt, not_ltb→le, arith,
  Bool-cases,
}
use renet.Base.Outcome.{Outcome, returns, panics, ◌>>=◌, Result, ok, err}
use renet.Packet.{Bytes}
use renet.Netcode.Limits.{mac_bytes}
use renet.Netcode.Error.{IoError}
use renet.Netcode.Io.{from_le_bytes, read_bytes}
use renet.Netcode.Crypto.{Ciphers, dencrypted_in_place, decrypt_with}
use renet.Netcode.PacketType.{PacketType, from_u8}
use renet.Netcode.Replay.{ReplayProtection}
use renet.Netcode.Packet.{additional_data}
use renet.Netcode.Packet.Read.{read_sequence}
use renet.Netcode.Packet.Opened.{is_request, sealed_type}
use renet.Netcode.Packet.Decode.{
  Decoded, is_duplicate, decode_opened, decode_sequence, decode_sealed, decode,
}

abbrev sequence_length : Bytes → ℕ
sequence_length buffer = get_or buffer 0 0 / 16

abbrev sequence_at : Bytes → ℕ
sequence_at buffer = from_le_bytes (take (sequence_length buffer) (drop 1 buffer))

-- A header of a sealed packet that says a sequence of more than 8 bytes, or one that leaves less
-- than the 16 bytes of a tag after it and that the replay protection does not have.
abbrev pub IsMalformed : Bytes → PacketType → Option ReplayProtection → Type 0
IsMalformed buffer t rp =
    (8 < sequence_length buffer)
    ⊎ ((sequence_length buffer ≤ 8)
        × (length buffer < 1 + sequence_length buffer + mac_bytes)
        × (is_duplicate t (sequence_at buffer) rp ≡ false))

-- The packet is of a sealed type.
abbrev pub IsSealed : Bytes → PacketType → Type 0
IsSealed buffer t =
    (2 + mac_bytes ≤ length buffer)
    × (from_u8 (get_or buffer 0 0 % 16) ≡ ok t)
    × (is_request t ≡ false)

opened-returns :
    (t : PacketType) (s : ℕ) (rp : Option ReplayProtection) (o : Option Bytes)
    → decode_opened t s rp o ≢ panics
opened-returns t s rp none = λ e. cc e
opened-returns t s rp (some text) = λ e. cc e

text-panics :
    (c : Ciphers) (t : PacketType) (s : ℕ) (rp : Option ReplayProtection) (text key aad : Bytes)
    → ((dencrypted_in_place c text s key aad >>= λ o. decode_opened t s rp o) ≡ panics)
      ↔ (length text < mac_bytes)
unfolding dencrypted_in_place decrypt_with
text-panics c t s rp text key aad = elim (Bool-cases (ltb (length text) mac_bytes)) [
  | inl short ↦ (λ _. ltb→lt (length text) mac_bytes short, λ _. rw short refl)
  | inr long ↦ (
    λ e. absurd (opened-returns t s rp _ (rw long at e)),
    λ short. absurd (omega (arith, short, not_ltb→le (length text) mac_bytes long)),
  )
]

sequence-panics :
    (c : Ciphers) (t : PacketType) (aad key : Bytes) (rp : Option ReplayProtection) (s : ℕ)
    (text : Bytes)
    → (decode_sequence c t aad key rp (ok (s, text)) ≡ panics)
      ↔ ((is_duplicate t s rp ≡ false) × (length text < mac_bytes))
sequence-panics c t aad key rp s text = elim (Bool-cases (is_duplicate t s rp)) [
  | inl again ↦
      (λ e. absurd (cc (rw (again, decode_sequence) at e)), λ (f, _). absurd (cc (sym again ∙ f)))
  | inr fresh ↦
      rw (fresh, decode_sequence)
        (
          λ e. (refl, (text-panics c t s rp text key aad).0 e),
          λ (_, short). (text-panics c t s rp text key aad).1 short,
        )
]

read_sequence-short :
    (n : ℕ) (src : Bytes)
    → n ≤ 8
    → n ≤ length src
    → read_sequence n src ≡ returns (ok (from_le_bytes (take n src), drop n src))
unfolding read_sequence
read_sequence-short n src h k =
    let short : ltb 8 n ≡ false = ground (arith, h) in
    let there : leb n (length src) ≡ true = ground (arith, k) in
    let q : read_bytes n src ≡ ok (take n src, drop n src) = rw (there, read_bytes) refl in
    rw short (
      ap
        (λ (r : Result (Bytes × Bytes) IoError).
          returns (elim r [ err e ↦ err e | ok x ↦ ok (from_le_bytes (x.0), x.1) ]))
        q)

read_sequence-long : (n : ℕ) (src : Bytes) → 8 < n → read_sequence n src ≡ panics
unfolding read_sequence
read_sequence-long n src h = let long : ltb 8 n ≡ true = ground (arith, h) in rw long refl

sealed-panics :
    (c : Ciphers) (t : PacketType) (buffer : Bytes) (protocol_id : ℕ) (key : Bytes)
    (rp : Option ReplayProtection)
    → 2 + mac_bytes ≤ length buffer
    → (decode_sealed c t buffer protocol_id key rp ≡ panics) ↔ IsMalformed buffer t rp
unfolding decode_sealed
sealed-panics c t buffer protocol_id key rp long =
    let n = sequence_length buffer in
    let src = drop 1 buffer in
    let aad = additional_data (get_or buffer 0 0) protocol_id in
    let size = length-drop 1 buffer in
    let go_on : Result (ℕ × Bytes) IoError → Outcome Decoded =
      λ r. decode_sequence c t aad key rp r in
    elim (Bool-cases (ltb 8 n)) [
      | inl over ↦
          let many : 8 < n = ltb→lt 8 n over in
          (λ _. inl many, λ _. ap (λ x. x >>= go_on) (read_sequence-long n src many))
      | inr few ↦
          let q : (read_sequence n src >>= go_on)
              ≡ decode_sequence c t aad key rp (ok (sequence_at buffer, drop n src)) =
            ap (λ x. x >>= go_on)
              (read_sequence-short n src (not_ltb→le 8 n few)
                (omega (arith, long, size, not_ltb→le 8 n few))) in
          let (there, back) = sequence-panics c t aad key rp (sequence_at buffer) (drop n src) in
          let rest = length-drop n src in
          (
            λ e.
                let (fresh, short) = there (sym q ∙ e) in
                inr (
                  not_ltb→le 8 n few,
                  omega (arith, short, rest, size, not_ltb→le 8 n few, long),
                  fresh,
                ),
            λ bad. elim bad [
              | inl many ↦ absurd (omega (arith, many, not_ltb→le 8 n few))
              | inr (_, short, fresh) ↦ q ∙ back (fresh, omega (arith, short, rest, size))
            ],
          )
    ]

-- With a key, on a buffer of a sealed type and of 18 bytes at least, the decoding panics exactly if
-- the header is malformed, whatever the cipher does: if the length of the sequence in it is more
-- than 8, or if less than the 16 bytes of a tag follow the sequence and the replay protection does
-- not refuse it before.
pub decode-IsMalformed :
    (c : Ciphers) (buffer : Bytes) (protocol_id : ℕ) (key : Bytes) (t : PacketType)
    (rp : Option ReplayProtection)
    → IsSealed buffer t
    → (decode c buffer protocol_id (some key) rp ≡ panics) ↔ IsMalformed buffer t rp
unfolding decode
decode-IsMalformed c buffer protocol_id key t rp (long, e, f) =
    let enough : ltb (length buffer) (2 + mac_bytes) ≡ false = ground (arith, long) in
    rw (enough, e, sealed_type c buffer protocol_id key rp t f)
      (sealed-panics c t buffer protocol_id key rp long)
