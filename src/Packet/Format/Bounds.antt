-- ===== src/Packet/Format/Bounds.antt =====
-- `from_bytes` of renet/src/packet.rs on any bytes.
use renet.Base.{
  ℕ, zero, suc, ◌+◌, ◌-◌, ◌^◌, ◌≤◌, ◌<◌, ◌≡◌, subst, Bool, true, false, List, ltb, ◌==◌, ◌||◌,
  if◌then◌else◌, length, arith, inl, inr, Bool-cases, Option-cases, not_ltb→le,
}
use renet.Base.Word.{add_u64, add_u64-eq, sub_u64, sub_u64-eq}
use renet.Base.Outcome.{Result, ok, err}
use renet.Error.{SerializationError, empty_slice, slice_size_above_limit}
use renet.Packet.{
  Bytes, Payload, Range, Slice, Packet, small_reliable, small_unreliable, unreliable_slice,
  reliable_slice, ack,
}
use renet.Packet.Wire.{Octets, HasBounds, Get, give, fail, get, ◌>>=◌, get_bytes_with_varint_length}
use renet.Packet.Format.{
  read_of, get_messages, get_payloads, checked_slice, get_slice, get_ranges, get_acks,
  get_small_reliable, get_small_unreliable, get_reliable_slice, get_unreliable_slice, get_ack,
  get_arm, get_packet, from_bytes,
}
use renet.Connection.Acks.Ranges.{Separated, IsWellFormed, Separated-mono}

abbrev pub IsSane : Packet → Type 0
IsSane (small_reliable s c ms) = s < 2 ^ 62
IsSane (small_unreliable s c ms) = s < 2 ^ 62
IsSane (unreliable_slice s c slice) =
    (s < 2 ^ 62) × (0 < slice.num_slices) × (slice.num_slices ≤ 1000000)
IsSane (reliable_slice s c slice) =
    (s < 2 ^ 62)
    × (0 < slice.num_slices)
    × (slice.num_slices ≤ 1000000)
    × (0 < length slice.payload)
    × (length slice.payload ≤ 1200)
IsSane (ack s rs) = (s < 2 ^ 62) × IsWellFormed rs × (0 < length rs)

-- The value that is read, if one is, satisfies `P`.
abbrev Reads : {A : Type 0} → (A → Type 0) → Result (A × Bytes) SerializationError → Type 0
Reads P (ok x) = P x.0
Reads P (err e) = Unit {0}

Reads-bind :
    {A B : Type 0} (Q : A → Type 0) (P : B → Type 0) (g : Get A) (f : A → Get B) (b : Bytes)
    → Reads Q (g b)
    → ((a : A) → Q a → (b : Bytes) → Reads P (f a b))
    → Reads P ((g >>= f) b)
Reads-bind {A = A} Q P g f b h k = go (g b) h
  where
    go :
        (r : Result (A × Bytes) SerializationError)
        → Reads Q r
        → Reads P (elim r [ err e ↦ err e | ok x ↦ f x.0 x.1 ])
    go (ok x) h = k x.0 h x.1
    go (err e) h = tt

Reads-any :
    {A B : Type 0} (P : B → Type 0) (g : Get A) (f : A → Get B) (b : Bytes)
    → ((a : A) (b : Bytes) → Reads P (f a b))
    → Reads P ((g >>= f) b)
Reads-any {A = A} P g f b k = Reads-bind (λ _. Unit {0}) P g f b (any (g b)) (λ a _ b. k a b)
  where
    any : (r : Result (A × Bytes) SerializationError) → Reads (λ _. Unit {0}) r
    any (ok x) = tt
    any (err e) = tt

module _ (o : Octets) (h : HasBounds o) where
  varint-Reads : (b : Bytes) → Reads (λ n. n < 2 ^ 62) (get o.get_varint b)
  varint-Reads b = elim (Option-cases (o.get_varint b)) [
    | inl e ↦ rw (e, get) tt
    | inr (x, e) ↦ rw (e, get) (h b x.1 x.0 e)
  ]

  with_varint :
      {B : Type 0} (P : B → Type 0) (f : ℕ → Get B) (b : Bytes)
      → ((n : ℕ) → n < 2 ^ 62 → (b : Bytes) → Reads P (f n b))
      → Reads P ((get o.get_varint >>= f) b)
  with_varint P f b k = Reads-bind (λ n. n < 2 ^ 62) P (get o.get_varint) f b (varint-Reads b) k

  abbrev IsSlice : Bool → Slice → Type 0
  IsSlice true s =
      (0 < s.num_slices)
      × (s.num_slices ≤ 1000000)
      × (0 < length s.payload)
      × (length s.payload ≤ 1200)
  IsSlice false s = (0 < s.num_slices) × (s.num_slices ≤ 1000000)

  get_slice-Reads :
      (is_reliable : Bool) (b : Bytes) → Reads (IsSlice is_reliable) (get_slice o is_reliable b)
  unfolding get_slice checked_slice
  get_slice-Reads is_reliable b = Reads-any (IsSlice is_reliable) (get o.get_varint) _ b (λ id b.
      Reads-any (IsSlice is_reliable) (get o.get_varint) _ b (λ i b.
        Reads-any (IsSlice is_reliable) (get o.get_varint) _ b (λ n b.
          elim (Bool-cases ((n == 0) || ltb 1000000 n)) [
            | inl bad ↦ rw bad tt
            | inr good ↦ rw good (
                Reads-any (IsSlice is_reliable) (get_bytes_with_varint_length o) _ b
                  (λ m b. checked is_reliable id i n m b (ground arith) (ground arith)))
          ])))
    where
      checked :
          (is_reliable : Bool) (id i n : ℕ) (m b : Bytes)
          → 0 < n
          → n ≤ 1000000
          → Reads (IsSlice is_reliable) (
              (if is_reliable
                  then (if length m == 0
                      then fail empty_slice
                      else if ltb 1200 (length m)
                      then fail slice_size_above_limit
                      else give (record {
                        message_id = id;
                        slice_index = i;
                        num_slices = n;
                        payload = m;
                      }))
                  else give
                      (record { message_id = id; slice_index = i; num_slices = n; payload = m }))
                b)
      checked false id i n m b l u = (l, u)
      checked true id i n m b l u = elim (Bool-cases (length m == 0)) [
        | inl none_ ↦ rw none_ tt
        | inr more ↦ elim (Bool-cases (ltb 1200 (length m))) [
          | inl over ↦ rw (more, over) tt
          | inr fits ↦ rw (more, fits) (l, u, ground arith, ground arith)
        ]
      ]

  ranges-Reads :
      (remaining n : ℕ) (acc : List Range) (b : Bytes)
      → n < 2 ^ 62
      → Separated n acc
      → 0 < length acc
      → Reads (λ rs. IsWellFormed rs × (0 < length rs)) (get_ranges o remaining n acc b)
  unfolding get_ranges
  ranges-Reads zero n acc b l w k = (Separated-mono 0 n acc (omega arith) w, k)
  ranges-Reads (suc remaining) n acc b l w k =
      with_varint (λ rs. IsWellFormed rs × (0 < length rs)) _ b
        (λ gap g b. elim (Bool-cases (ltb n (add_u64 2 gap))) [
          | inl bad ↦ rw bad tt
          | inr good ↦ rw good (
              with_varint (λ rs. IsWellFormed rs × (0 < length rs)) _ b
                (λ size s b. elim (Bool-cases (ltb (sub_u64 (sub_u64 n gap) 2) size)) [
                  | inl bad ↦ rw bad tt
                  | inr good' ↦ rw good' (
                      let a = add_u64-eq 2 gap (omega (arith, g)) in
                      let c : 2 + gap ≤ n = ground (arith, good, a) in
                      let d = sub_u64-eq n gap (omega (arith, c)) (omega (arith, l)) in
                      let e =
                        sub_u64-eq (sub_u64 n gap) 2 (omega (arith, c, d)) (omega (arith, l, d)) in
                      let z : size ≤ n - gap - 2 = ground (arith, good', e, d) in
                      let f =
                        sub_u64-eq (sub_u64 (sub_u64 n gap) 2) size (omega (arith, z, e, d))
                          (omega (arith, l, e, d)) in
                      let q = add_u64-eq (sub_u64 (sub_u64 n gap) 2) 1 (omega (arith, l, e, d)) in
                      ranges-Reads remaining (sub_u64 (sub_u64 (sub_u64 n gap) 2) size) _ b
                        (omega (arith, f, e, d, l))
                        (
                          omega arith,
                          omega (arith, f, q, e, d, z),
                          omega (arith, q, e, d, l),
                          Separated-mono (suc (add_u64 (sub_u64 (sub_u64 n gap) 2) 1)) n acc
                              (omega (arith, q, e, d, c)) w,
                        )
                        (omega arith))
                ]))
        ])

  acks-Reads : (b : Bytes) → Reads (λ rs. IsWellFormed rs × (0 < length rs)) (get_acks o b)
  unfolding get_acks
  acks-Reads b =
      with_varint (λ rs. IsWellFormed rs × (0 < length rs)) _ b
        (λ end l b.
          with_varint (λ rs. IsWellFormed rs × (0 < length rs)) _ b
            (λ size s b.
              Reads-any (λ rs. IsWellFormed rs × (0 < length rs)) (get o.get_varint) _ b
                (λ remaining b. elim (Bool-cases (ltb end size)) [
                  | inl bad ↦ rw bad tt
                  | inr good ↦ rw good (
                      let z : size ≤ end = not_ltb→le end size good in
                      let f = sub_u64-eq end size z (omega (arith, l)) in
                      let q = add_u64-eq end 1 (omega (arith, l)) in
                      ranges-Reads remaining (sub_u64 end size) _ b (omega (arith, f, l))
                        (omega arith, omega (arith, f, q), omega (arith, q, l), tt) (omega arith))
                ])))

  arm-Reads : (kind : ℕ) (b : Bytes) → Reads IsSane (get_arm o kind b)
  unfolding get_arm get_small_reliable get_small_unreliable get_reliable_slice get_unreliable_slice
      get_ack
  arm-Reads kind b = elim (Bool-cases (kind == 0)) [
    | inl e ↦ rw e (
        with_varint IsSane _ b (λ s l b. Reads-any IsSane (get o.get_u8) _ b (λ c b.
          Reads-any IsSane (get o.get_u16) _ b
            (λ n b. Reads-any IsSane (get_messages o n) _ b (λ ms b. l)))))
    | inr e0 ↦ elim (Bool-cases (kind == 1)) [
      | inl e ↦
          rw (e0, e)
            (with_varint IsSane _ b (λ s l b. Reads-any IsSane (get o.get_u8) _ b (λ c b.
              Reads-any IsSane (get o.get_u16) _ b
                (λ n b. Reads-any IsSane (get_payloads o n) _ b (λ ms b. l)))))
      | inr e1 ↦ elim (Bool-cases (kind == 2)) [
        | inl e ↦
            rw (e0, e1, e)
              (with_varint IsSane _ b (λ s l b. Reads-any IsSane (get o.get_u8) _ b (λ c b.
                Reads-bind (IsSlice true) IsSane (get_slice o true) _ b (get_slice-Reads true b)
                  (λ sl v b. (l, v.0, v.1, v.2, v.3)))))
        | inr e2 ↦ elim (Bool-cases (kind == 3)) [
          | inl e ↦
              rw (e0, e1, e2, e)
                (with_varint IsSane _ b (λ s l b. Reads-any IsSane (get o.get_u8) _ b (λ c b.
                  Reads-bind (IsSlice false) IsSane (get_slice o false) _ b
                    (get_slice-Reads false b) (λ sl v b. (l, v.0, v.1)))))
          | inr e3 ↦ elim (Bool-cases (kind == 4)) [
            | inl e ↦
                rw (e0, e1, e2, e3, e)
                  (with_varint IsSane _ b (λ s l b.
                    Reads-bind (λ rs. IsWellFormed rs × (0 < length rs)) IsSane (get_acks o) _ b
                      (acks-Reads b) (λ rs v b. (l, v.0, v.1))))
            | inr e4 ↦ rw (e0, e1, e2, e3, e4) tt
          ]
        ]
      ]
    ]
  ]

  -- Whatever the bytes, a packet that `from_bytes` returns has a sequence of 62 bits. If it acks, its
  -- ranges are not empty, ascend, have gaps between them, and there is one at least. If it is a
  -- slice, it is one of a million at most, and that of a reliable channel has from 1 to 1200 bytes.
  pub from_bytes-IsSane : (b : Payload) (p : Packet) → from_bytes o b ≡ ok p → IsSane p
  unfolding from_bytes get_packet
  from_bytes-IsSane b p e =
      go (get_packet o b) (Reads-any IsSane (get o.get_u8) (get_arm o) b arm-Reads) e
    where
      go :
          (r : Result (Packet × Bytes) SerializationError)
          → Reads IsSane r
          → read_of r ≡ ok p
          → IsSane p
      go (ok x) h q = subst IsSane (let s : x.0 ≡ p = cc q in s) h
      go (err x) h q = absurd (cc q)
