-- ===== src/Channel/Reliable/Send/Sends.antt =====
-- One message in the loop of `get_packets_to_send` of renet/src/channel/reliable.rs.
use native.Mathlib.Nat.{mod-lt}
use renet.Base.{
  ℕ, zero, suc, ◌+◌, ◌-◌, ◌%◌, ◌≤◌, ◌<◌, ◌≡◌, refl, ◌∙◌, Bool, true, false, Option, none, some,
  List, [], ◌∷◌, ◌++◌, arith, ltb, ◌==◌, if◌then◌else◌, length, length-append, get_elem?, set,
  length-set, All, All-append, Bool-cases, inl, inr, subst, not_ltb→le,
}
use renet.Base.Flags.{trues, get_elem?_lt}
use renet.Base.Word.{add_u64, add_u64-eq, sub_u64, sub_u64-eq, mul_u64, mul_u64-eq}
use renet.Base.Outcome.{returns, ◌>>=◌, unwrap, Returns, Returns-bind}
use renet.Packet.{Bytes, reliable_slice, sequence}
use renet.Channel.Pieces.{
  IsSliced, piece, piece_end, piece_end_bounds, length-piece, slice_range-piece,
}
use renet.Channel.Reliable.Send.{
  SlicedMessage, UnackedMessage, small, sliced, Sending, sent_recently, push_small, send_small,
  push_slice, send_slice, send_slices, send_unacked,
}
use renet.Channel.Reliable.Send.Loop.{
  Genuine, Numbered-append, bytes_of-append, Gathered, push_small-Gathered,
}

-- A message was last sent at some time up to `now`, or never.
abbrev pub IsPast : ℕ → Option ℕ → Type 0
IsPast now none = Unit {0}
IsPast now (some t) = t ≤ now

pub record UnackedSlices (sent : List Bytes) (now id : ℕ) (u : SlicedMessage) : Type 0 where
  pub known : get_elem? sent id ≡ some u.message
  pub long : 1200 < length u.message
  pub cut : IsSliced u.message u.num_slices
  pub flags : length u.acked ≡ u.num_slices
  pub counted : u.num_acked_slices ≡ trues u.acked
  pub open_ : trues u.acked < u.num_slices
  pub times : length u.last_sent ≡ u.num_slices
  pub past : All (IsPast now) u.last_sent

-- What the sender knows of an unacked message.
abbrev pub IsUnacked : List Bytes → ℕ → ℕ → UnackedMessage → Type 0
IsUnacked sent now id (small m last_sent) =
    (get_elem? sent id ≡ some m) × (length m ≤ 1200) × IsPast now last_sent
IsUnacked sent now id (sliced u) = UnackedSlices sent now id u

All-set :
    {A : Type 0} (P : A → Type 0) (xs : List A) (i : ℕ) (v : A)
    → P v
    → All P xs
    → All P (set xs i v)
All-set P [] i v p h = tt
All-set P (x ∷ xs) zero v p h = (p, h.1)
All-set P (x ∷ xs) (suc i) v p h = (h.0, All-set P xs i v p h.1)

All-get :
    {A : Type 0} (P : A → Type 0) (xs : List A) (i : ℕ) (v : A)
    → All P xs
    → get_elem? xs i ≡ some v
    → P v
All-get P [] i v h e = cc
All-get P (x ∷ xs) zero v h e = subst P (ground arith) h.0
All-get P (x ∷ xs) (suc i) v h e = All-get P xs i v h.1 e

module _ (sent : List Bytes) (from budget : ℕ) (varint_len : ℕ → ℕ) (c r t : ℕ) where
  abbrev pub Step : {A : Type 0} → (A → Type 0) → Sending × A → Type 0
  Step P (st, a) = Gathered sent from budget st × P a

  sent_recently-Returns :
      (o : Option ℕ) → IsPast t o → Returns (λ _. Unit {0}) (sent_recently varint_len c r t o)
  unfolding sent_recently
  sent_recently-Returns none h = (false, refl, tt)
  sent_recently-Returns (some l) h = (ltb (t - l) r, ground arith, tt)

  spent-Gathered :
      (st : Sending) (n : ℕ)
      → n ≤ st.available_bytes
      → Gathered sent from budget st
      → Gathered sent from
          (budget - n)
          (record st { available_bytes = sub_u64 st.available_bytes n })
  spent-Gathered st n h g = record {
    genuine = g.genuine;
    smalls = g.smalls;
    numbered = g.numbered;
    next = g.next;
    spent = omega (arith, g.spent, sub_u64-eq st.available_bytes n h g.word);
    word = omega (arith, g.word, sub_u64-eq st.available_bytes n h g.word);
  }

  -- The small message goes out unless it was sent recently.
  small_due :
      (id : ℕ) (m : Bytes) (l : Option ℕ) (st : Sending) (recent : Bool)
      → IsUnacked sent t id (small m l)
      → Gathered sent from budget st
      → length m ≤ st.available_bytes
      → Step (IsUnacked sent t id) (
          if recent then (st, small m l) else (
            push_small varint_len c r t id m
                (record st { available_bytes = sub_u64 st.available_bytes (length m) }),
            small m (some t),
          ))
  small_due id m l st true u g h = (g, u)
  small_due id m l st false u g h = (
    push_small-Gathered sent from varint_len c r t
        (record st { available_bytes = sub_u64 st.available_bytes (length m) }) (budget - length m)
        budget id m (u.0, u.1) (omega (arith, g.spent, h)) (spent-Gathered st (length m) h g),
    (u.0, u.1, omega arith),
  )

  send_small-Step :
      (id : ℕ) (m : Bytes) (l : Option ℕ) (st : Sending)
      → IsUnacked sent t id (small m l)
      → Gathered sent from budget st
      → Returns (Step (IsUnacked sent t id)) (send_small varint_len c r t id m l st)
  unfolding send_small
  send_small-Step id m l st u g = elim (Bool-cases (ltb st.available_bytes (length m))) [
    | inl short ↦ rw short ((st, small m l), refl, (g, u))
    | inr fits ↦ rw fits (
        Returns-bind (λ _. Unit {0}) (Step (IsUnacked sent t id)) (sent_recently varint_len c r t l)
          _ (sent_recently-Returns l u.2)
          (λ recent _. (
            _,
            refl,
            small_due id m l st recent u g (not_ltb→le st.available_bytes (length m) fits),
          )))
  ]

  -- The packet of slice `i`, once it is known where the slice ends.
  slice_sent :
      (id i : ℕ) (u : SlicedMessage) (st : Sending)
      → UnackedSlices sent t id u
      → i < u.num_slices
      → 1200 ≤ st.available_bytes
      → Gathered sent from budget st
      → Step (UnackedSlices sent t id) (
        record st {
          available_bytes = sub_u64 st.available_bytes (length (piece u.message u.num_slices i));
          packets =
              st.packets
              ++ (reliable_slice st.packet_sequence c (record {
                message_id = id;
                slice_index = i;
                num_slices = u.num_slices;
                payload = piece u.message u.num_slices i;
              })
                  ∷ []);
          packet_sequence = add_u64 st.packet_sequence 1;
        },
        record u {
          last_sent = set u.last_sent i (some t);
          next_slice_to_send = add_u64 i (1 % u.num_slices);
        },
      )
  unfolding sequence add_u64
  slice_sent id i u st v h a g =
      let payload = piece u.message u.num_slices i in
      let p = reliable_slice st.packet_sequence c (record {
        message_id = id;
        slice_index = i;
        num_slices = u.num_slices;
        payload = payload;
      }) in
      let ends = piece_end_bounds u.message u.num_slices i v.cut h in
      let len = length-piece u.message u.num_slices i v.cut h in
      let left =
        sub_u64-eq st.available_bytes (length payload) (omega (arith, len, ends, a)) g.word in
      (
        record {
          genuine = All-append (Genuine sent) st.packets (p ∷ []) g.genuine (
            record {
              message = u.message;
              known = v.known;
              long = v.long;
              cut = v.cut;
              index = h;
              payload = refl;
            },
            tt,
          );
          smalls = g.smalls;
          numbered = Numbered-append from st.packets p g.numbered g.next;
          next = omega (arith, length-append st.packets (p ∷ []), g.next);
          spent = omega (arith, bytes_of-append st.packets (p ∷ []), g.spent, left, len, ends, a);
          word = omega (arith, g.word, left);
        },
        record {
          known = v.known;
          long = v.long;
          cut = v.cut;
          flags = v.flags;
          counted = v.counted;
          open_ = v.open_;
          times = length-set u.last_sent i (some t) ∙ v.times;
          past = All-set (IsPast t) u.last_sent i (some t) (omega arith) v.past;
        },
      )

  end-eq :
      (u : SlicedMessage) (i : ℕ)
      → IsSliced u.message u.num_slices
      → i < u.num_slices
      → (if i == sub_u64 u.num_slices 1 then length u.message else mul_u64 (add_u64 i 1) 1200)
        ≡ piece_end u.message u.num_slices i
  end-eq u i s h = rw (
    sub_u64-eq u.num_slices 1 (omega arith) (omega arith),
    add_u64-eq i 1 (omega arith),
    mul_u64-eq (i + 1) 1200 (omega arith),
  )

  push_slice-Step :
      (id i : ℕ) (u : SlicedMessage) (st : Sending)
      → UnackedSlices sent t id u
      → i < u.num_slices
      → 1200 ≤ st.available_bytes
      → Gathered sent from budget st
      → Returns (Step (UnackedSlices sent t id)) (push_slice varint_len c r t id i u st)
  unfolding push_slice
  push_slice-Step id i u st v h a g =
      rw
        (
          mul_u64-eq i 1200 (omega (arith, v.cut)),
          end-eq u i v.cut h,
          slice_range-piece u.message u.num_slices i v.cut h,
        )
        (_, refl, slice_sent id i u st v h a g)

  send_slice-Step :
      (id i : ℕ) (u : SlicedMessage) (st : Sending)
      → UnackedSlices sent t id u
      → i < u.num_slices
      → 1200 ≤ st.available_bytes
      → Gathered sent from budget st
      → Returns (Step (UnackedSlices sent t id)) (send_slice varint_len c r t id i u st)
  unfolding send_slice
  send_slice-Step id i u st v h a g =
      let (acked, e) = get_elem?_lt u.acked i (omega (arith, v.flags)) in
      let (last, e') = get_elem?_lt u.last_sent i (omega (arith, v.times)) in
      rw (e, unwrap)
        (elim acked
          as (λ b. Returns (Step (UnackedSlices sent t id)) (
            if b
            then returns (st, u)
            else (unwrap (get_elem? u.last_sent i) >>= λ last_sent.
                sent_recently varint_len c r t last_sent >>= λ recent.
                if recent then returns (st, u) else push_slice varint_len c r t id i u st))) [
                  | true ↦ ((st, u), refl, (g, v))
                  | false ↦
                      rw (e', unwrap)
                        (Returns-bind (λ _. Unit {0}) (Step (UnackedSlices sent t id))
                          (sent_recently varint_len c r t last)
                          (λ recent.
                            if recent
                            then returns (st, u)
                            else push_slice varint_len c r t id i u st)
                          (sent_recently-Returns last
                            (All-get (IsPast t) u.last_sent i last v.past e'))
                          (elim [
                            | true ↦ λ _. ((st, u), refl, (g, v))
                            | false ↦ λ _. push_slice-Step id i u st v h a g
                          ]))
                ])

  send_slices-Step :
      (id start left i : ℕ) (u : SlicedMessage) (st : Sending)
      → UnackedSlices sent t id u
      → Gathered sent from budget st
      → Returns (Step (UnackedSlices sent t id)) (send_slices varint_len c r t id start left i u st)
  unfolding send_slices
  send_slices-Step id start zero i u st v g = ((st, u), refl, (g, v))
  send_slices-Step id start (suc left) i u st v g =
      elim (Bool-cases (ltb st.available_bytes 1200)) [
        | inl short ↦ rw (short, send_slices) ((st, u), refl, (g, v))
        | inr enough ↦
            rw (enough, send_slices)
              (Returns-bind (Step (UnackedSlices sent t id)) (Step (UnackedSlices sent t id))
                (send_slice varint_len c r t id (add_u64 start i % u.num_slices) u st) _
                (send_slice-Step id (add_u64 start i % u.num_slices) u st v
                  (mod-lt (add_u64 start i) v.cut.positive)
                  (not_ltb→le st.available_bytes 1200 enough) g)
                (λ (st', u') (g', v'). send_slices-Step id start left (add_u64 i 1) u' st' v' g'))
      ]

  pub send_unacked-Step :
      (id : ℕ) (u : UnackedMessage) (st : Sending)
      → IsUnacked sent t id u
      → Gathered sent from budget st
      → Returns (Step (IsUnacked sent t id)) (send_unacked varint_len c r t id u st)
  unfolding send_unacked
  send_unacked-Step id (small m l) st v g = send_small-Step id m l st v g
  send_unacked-Step id (sliced u) st v g =
      Returns-bind (Step (UnackedSlices sent t id)) (Step (IsUnacked sent t id))
        (send_slices varint_len c r t id u.next_slice_to_send u.num_slices 0 u st) _
        (send_slices-Step id u.next_slice_to_send u.num_slices 0 u st v g)
        (λ (st', u') h. ((st', sliced u'), refl, h))
