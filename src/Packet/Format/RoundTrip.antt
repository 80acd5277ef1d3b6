-- ===== src/Packet/Format/RoundTrip.antt =====
-- `to_bytes` and `from_bytes` of renet/src/packet.rs, one after the other.
use renet.Base.{
  ℕ, ◌-◌, ◌%◌, ◌^◌, ◌≤◌, ◌<◌, ◌≡◌, refl, sym, ap, ◌∙◌, subst, Bool, true, false, List, [], ◌∷◌,
  append-nil, ltb, leb, ◌==◌, ◌||◌, if◌then◌else◌, length, All, arith, inl, inr, ◌⊎◌,
}
use renet.Base.Outcome.{returns, ok, err}
use renet.Error.{buffer_too_short, empty_slice, slice_size_above_limit}
use renet.Packet.{
  Payload, Slice, Packet, small_reliable, small_unreliable, unreliable_slice, reliable_slice, ack,
}
use renet.Packet.Wire.{Octets, ReadsBack, put, put_varint, give, fail, get}
use renet.Packet.Wire.Encoded.{
  Gets, Encoded, Puts-nothing, Encoded-then, Encoded-last, u8-Encoded, u16-Encoded, varint-Encoded,
  prefixed_then, prefixed_last,
}
use renet.Packet.Format.{
  rev_onto, written_of, read_of, put_messages, put_payloads, put_slice, put_acks, put_packet,
  to_bytes, get_messages, get_payloads, checked_slice, get_slice, get_acks, get_small_reliable,
  get_small_unreliable, get_reliable_slice, get_unreliable_slice, get_ack, get_arm, get_packet,
  from_bytes,
}
use renet.Packet.Format.Ranges.{IsEncodableAcks, acks-Encoded}

abbrev pub IsEncodableMessage : ℕ × Payload → Type 0
IsEncodableMessage (message_id, message) = (message_id < 2 ^ 62) × (length message < 2 ^ 62)

abbrev pub IsEncodablePayload : Payload → Type 0
IsEncodablePayload message = length message < 2 ^ 62

pub record IsEncodableSlice (slice : Slice) : Type 0 where
  pub id : slice.message_id < 2 ^ 62
  pub index : slice.slice_index < 2 ^ 62
  pub some_slices : 0 < slice.num_slices
  pub max_slices : slice.num_slices ≤ 1000000

-- Numbers have 62 bits, a channel id 8 and a number of messages 16; a slice is one of a million at
-- most, and that of a reliable channel has from 1 to 1200 bytes; the acks are not empty.
abbrev pub IsEncodable : Packet → Type 0
IsEncodable (small_reliable s c ms) =
    (s < 2 ^ 62) × (c < 2 ^ 8) × (length ms < 2 ^ 16) × All IsEncodableMessage ms
IsEncodable (small_unreliable s c ms) =
    (s < 2 ^ 62) × (c < 2 ^ 8) × (length ms < 2 ^ 16) × All IsEncodablePayload ms
IsEncodable (reliable_slice s c slice) =
    (s < 2 ^ 62)
    × (c < 2 ^ 8)
    × IsEncodableSlice slice
    × (0 < length slice.payload)
    × (length slice.payload ≤ 1200)
IsEncodable (unreliable_slice s c slice) =
    (s < 2 ^ 62) × (c < 2 ^ 8) × IsEncodableSlice slice × (length slice.payload < 2 ^ 62)
IsEncodable (ack s rs) = (s < 2 ^ 62) × IsEncodableAcks rs

module _ (o : Octets) (r : ReadsBack o) where
  messages-Encoded :
      (ms : List (ℕ × Payload))
      → All IsEncodableMessage ms
      → Encoded (put_messages o ms) (get_messages o (length ms)) ms
  unfolding put_messages get_messages
  messages-Encoded [] a = ([], Puts-nothing, λ rest. refl)
  messages-Encoded ((id, m) ∷ ms) a =
      Encoded-then (put_varint o id) _ (get o.get_varint) _ id _ (varint-Encoded o r id a.0.0) (
        prefixed_then o r m (put_messages o ms) _ _ a.0.1 (
          Encoded-last (put_messages o ms) (get_messages o (length ms)) _ ms _
            (messages-Encoded ms a.1) (λ rest. refl)))

  payloads-Encoded :
      (ms : List Payload)
      → All IsEncodablePayload ms
      → Encoded (put_payloads o ms) (get_payloads o (length ms)) ms
  unfolding put_payloads get_payloads
  payloads-Encoded [] a = ([], Puts-nothing, λ rest. refl)
  payloads-Encoded (m ∷ ms) a = prefixed_then o r m (put_payloads o ms) _ _ a.0 (
      Encoded-last (put_payloads o ms) (get_payloads o (length ms)) _ ms _ (payloads-Encoded ms a.1)
        (λ rest. refl))

  -- The checks of a slice that is read pass.
  slice-Encoded :
      (is_reliable : Bool) (slice : Slice)
      → IsEncodableSlice slice
      → length slice.payload < 2 ^ 62
      → ((is_reliable ≡ false) ⊎ ((0 < length slice.payload) × (length slice.payload ≤ 1200)))
      → Encoded (put_slice o slice) (get_slice o is_reliable) slice
  unfolding put_slice get_slice checked_slice
  slice-Encoded is_reliable slice e b k =
      Encoded-then (put_varint o slice.message_id) _ (get o.get_varint) _ slice.message_id _
        (varint-Encoded o r slice.message_id e.id)
        (Encoded-then (put_varint o slice.slice_index) _ (get o.get_varint) _ slice.slice_index _
          (varint-Encoded o r slice.slice_index e.index)
          (Encoded-then (put_varint o slice.num_slices) _ (get o.get_varint) _ slice.num_slices _
            (varint-Encoded o r slice.num_slices (omega (arith, e.max_slices)))
            (let valid : ((slice.num_slices == 0) || ltb 1000000 slice.num_slices) ≡ false =
                ground (arith, e.some_slices, e.max_slices) in
              rw valid (prefixed_last o r slice.payload _ slice b (checked is_reliable k)))))
    where
      checked :
          (is_reliable : Bool)
          → ((is_reliable ≡ false) ⊎ ((0 < length slice.payload) × (length slice.payload ≤ 1200)))
          → Gets
              (if is_reliable
                then (if length slice.payload == 0
                    then fail empty_slice
                    else if ltb 1200 (length slice.payload)
                    then fail slice_size_above_limit
                    else give slice)
                else give slice)
              []
              slice
      checked false k rest = refl
      checked true (inl q) rest = absurd (cc q)
      checked true (inr (l, u)) rest =
          let a : (length slice.payload == 0) ≡ false = ground (arith, l) in
          let b : ltb 1200 (length slice.payload) ≡ false = ground (arith, u) in rw (a, b) refl

  packet-Encoded : (p : Packet) → IsEncodable p → Encoded (put_packet o p) (get_packet o) p
  unfolding put_packet get_packet get_arm get_small_reliable get_small_unreliable get_reliable_slice
      get_unreliable_slice get_ack
  packet-Encoded (small_reliable s c ms) e =
      let n : length ms % 2 ^ 16 ≡ length ms = omega (arith, e.2) in
      Encoded-then (put (o.u8 0)) _ (get o.get_u8) _ 0 _ (u8-Encoded o r 0 (omega arith)) (
        Encoded-then (put_varint o s) _ (get o.get_varint) _ s _ (varint-Encoded o r s e.0) (
          Encoded-then (put (o.u8 c)) _ (get o.get_u8) _ c _ (u8-Encoded o r c e.1) (
            Encoded-then (put (o.u16 (length ms % 2 ^ 16))) _ (get o.get_u16) _ (length ms % 2 ^ 16)
              _ (u16-Encoded o r (length ms % 2 ^ 16) (omega (arith, n, e.2)))
              (Encoded-last (put_messages o ms) (get_messages o (length ms % 2 ^ 16)) _ ms _
                (subst (λ z. Encoded (put_messages o ms) (get_messages o z) ms) (sym n)
                  (messages-Encoded ms e.3))
                (λ rest. refl)))))
  packet-Encoded (small_unreliable s c ms) e =
      let n : length ms % 2 ^ 16 ≡ length ms = omega (arith, e.2) in
      Encoded-then (put (o.u8 1)) _ (get o.get_u8) _ 1 _ (u8-Encoded o r 1 (omega arith)) (
        Encoded-then (put_varint o s) _ (get o.get_varint) _ s _ (varint-Encoded o r s e.0) (
          Encoded-then (put (o.u8 c)) _ (get o.get_u8) _ c _ (u8-Encoded o r c e.1) (
            Encoded-then (put (o.u16 (length ms % 2 ^ 16))) _ (get o.get_u16) _ (length ms % 2 ^ 16)
              _ (u16-Encoded o r (length ms % 2 ^ 16) (omega (arith, n, e.2)))
              (Encoded-last (put_payloads o ms) (get_payloads o (length ms % 2 ^ 16)) _ ms _
                (subst (λ z. Encoded (put_payloads o ms) (get_payloads o z) ms) (sym n)
                  (payloads-Encoded ms e.3))
                (λ rest. refl)))))
  packet-Encoded (reliable_slice s c slice) e =
      Encoded-then (put (o.u8 2)) _ (get o.get_u8) _ 2 _ (u8-Encoded o r 2 (omega arith)) (
        Encoded-then (put_varint o s) _ (get o.get_varint) _ s _ (varint-Encoded o r s e.0) (
          Encoded-then (put (o.u8 c)) _ (get o.get_u8) _ c _ (u8-Encoded o r c e.1) (
            Encoded-last (put_slice o slice) (get_slice o true) _ slice _
              (slice-Encoded true slice e.2 (omega (arith, e.4)) (inr (e.3, e.4))) (λ rest. refl))))
  packet-Encoded (unreliable_slice s c slice) e =
      Encoded-then (put (o.u8 3)) _ (get o.get_u8) _ 3 _ (u8-Encoded o r 3 (omega arith)) (
        Encoded-then (put_varint o s) _ (get o.get_varint) _ s _ (varint-Encoded o r s e.0) (
          Encoded-then (put (o.u8 c)) _ (get o.get_u8) _ c _ (u8-Encoded o r c e.1) (
            Encoded-last (put_slice o slice) (get_slice o false) _ slice _
              (slice-Encoded false slice e.2 e.3 (inl refl)) (λ rest. refl))))
  packet-Encoded (ack s rs) e =
      Encoded-then (put (o.u8 4)) _ (get o.get_u8) _ 4 _ (u8-Encoded o r 4 (omega arith)) (
        Encoded-then (put_varint o s) _ (get o.get_varint) _ s _ (varint-Encoded o r s e.0) (
          Encoded-last (put_acks o (rev_onto rs [])) (get_acks o) _ rs _ (acks-Encoded o r rs e.1)
            (λ rest. refl)))

  -- A packet within the format's bounds has an encoding that `from_bytes` reads as that packet.
  -- `to_bytes` writes just this encoding when the buffer has room for it, never panics, and returns
  -- the error of a short buffer when it has not.
  pub from_bytes-to_bytes :
      (cap : ℕ) (p : Packet)
      → IsEncodable p
      → (bs : Payload) × (to_bytes o cap p
          ≡ (if leb (length bs) cap then returns (ok bs) else returns (err buffer_too_short)))
        × (from_bytes o bs ≡ ok p)
  unfolding to_bytes from_bytes
  from_bytes-to_bytes cap p e =
      let (bs, h, k) = packet-Encoded p e in
      (
        bs,
        ap written_of (h (record { written = []; left = cap }))
            ∙ written (leb (length bs) cap) bs (cap - length bs),
        ap read_of (ap (get_packet o) (sym (append-nil bs)) ∙ k []),
      )
    where
      written :
          (c : Bool) (bs : Payload) (n : ℕ)
          → written_of (
              if c
              then returns (ok (record { written = bs; left = n }))
              else returns (err buffer_too_short))
            ≡ (if c then returns (ok bs) else returns (err buffer_too_short))
      written true bs n = refl
      written false bs n = refl
