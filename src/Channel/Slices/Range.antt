-- ===== src/Channel/Slices/Range.antt =====
-- What a peer can make the slice constructor of renet/src/channel/slice_constructor.rs do, with any
-- indices and sizes of slices.
use renet.Base.{
  ℕ, ◌+◌, ◌-◌, ◌*◌, ◌^◌, ◌≤◌, ◌<◌, ◌≡◌, ◌≢◌, ◌⊎◌, ◌↔◌, refl, sym, ap, ◌∙◌, subst, Bool, true, false,
  Option, none, some, ◌++◌, arith, ◌==◌, leb, ==_iff, ==_false, length, length-append, length-take,
  length-drop, take, drop, get_elem?, get_elem?-some-lt, set, length-set, length-replicate,
  Bool-cases, Option-cases, inl, inr,
}
use renet.Base.Flags.{trues, trues-set, trues-le-length, trues-replicate, get_elem?_lt}
use renet.Base.Word.{add_u64-eq, sub_u64, sub_u64-eq, mul_u64, mul_u64-eq}
use renet.Base.Outcome.{returns, panics, Returns, Returns-bind, ◌>>=◌, Result}
use renet.Error.{ChannelError}
use renet.Packet.{Bytes}
use renet.Channel.Slices.Resize.{length-resize}
use renet.Channel.Slices.Store.{written, store_last, store_inner}
use renet.Channel.Slices.{
  SliceConstructor, new, resize, has_valid_size, store, finish, process_slice,
}

-- A constructor that was fed any slices.
pub data Fed (id n : ℕ) : SliceConstructor → Type 0 where
  fresh_constructor : Fed id n (new id n)
  fed :
      {c c' : SliceConstructor} {r : Result (Option Bytes) ChannelError} (i : ℕ) (b : Bytes)
      → Fed id n c
      → process_slice c i b ≡ returns (c', r)
      → Fed id n c'

record Sized (n : ℕ) (c : SliceConstructor) : Type 0 where
  slices : c.num_slices ≡ n
  flags : length c.received ≡ n
  counted : c.num_received_slices ≡ trues c.received
  room : trues c.received < n → (n - 1) * 1200 ≤ length c.sliced_data

finish-Sized : (n : ℕ) (c : SliceConstructor) → Sized n c → Sized n (finish c).0
unfolding finish
finish-Sized n c v = elim (Bool-cases (c.num_received_slices == c.num_slices)) [
  | inr some_left ↦ rw some_left v
  | inl all ↦ rw all (record {
    slices = v.slices;
    flags = v.flags;
    counted = v.counted;
    room = λ less. absurd (
        omega
          (arith, (==_iff c.num_received_slices c.num_slices).0 all, v.slices, v.counted, less));
  })
]

-- What `store` leaves.
written-Sized :
    (n i : ℕ) (c : SliceConstructor) (xs b : Bytes) (start end : ℕ)
    → n ≤ 2 ^ 50
    → Sized n c
    → get_elem? c.received i ≡ some false
    → start + length b ≡ end
    → end ≤ length xs
    → (n - 1) * 1200 ≤ length xs
    → Sized n (written c i xs b start end)
written-Sized n i c xs b start end small v e at_end inside enough =
    let t = trues-set c.received i e in
    let l = length-set c.received i true in
    let le = trues-le-length (set c.received i true) in
    record {
      slices = v.slices;
      flags = l ∙ v.flags;
      counted = omega (arith, t, l, le, v.flags, v.counted, add_u64-eq c.num_received_slices 1);
      room = λ less. omega (
        arith,
        length-append (take start xs) (b ++ drop end xs),
        length-append b (drop end xs),
        length-take start xs,
        length-drop end xs,
        at_end,
        inside,
        enough,
      );
    }

-- The call panics for a slice out of range, or it returns a constructor of this kind.
abbrev Answers : ℕ → SliceConstructor → ℕ → Bytes → Type 0
Answers n c i b =
    (process_slice c i b ≡ panics) × (n ≤ i) × (length b ≡ 1200)
    ⊎ Returns (λ x. Sized n x.0) (process_slice c i b) × ((n ≤ i) × (length b ≡ 1200) → ⊥)

module _ (n i : ℕ) (c : SliceConstructor) (b : Bytes) (positive : 1 ≤ n) (small : n ≤ 2 ^ 50)
    (v : Sized n c) where
  less : get_elem? c.received i ≡ some false → trues c.received < n
  less e = omega (
    arith,
    trues-set c.received i e,
    trues-le-length (set c.received i true),
    length-set c.received i true,
    v.flags,
  )

  store-Sized :
      (is_last : Bool)
      → (i == sub_u64 c.num_slices 1) ≡ is_last
      → has_valid_size is_last b ≡ true
      → i < n
      → get_elem? c.received i ≡ some false
      → Returns (Sized n) (store c i b is_last)
  store-Sized true last size h e =
      let q : i + 1 ≡ n =
        omega (
          arith,
          (==_iff i (sub_u64 c.num_slices 1)).0 last,
          v.slices,
          sub_u64-eq c.num_slices 1,
        ) in
      let l = length-resize c.sliced_data (i * 1200 + length b) 0 in
      (
        _,
        store_last c i b (omega (arith, v.slices, q)) (omega arith) (ground (arith, size)),
        written-Sized n i c (resize c.sliced_data (i * 1200 + length b) 0) b (i * 1200)
            (i * 1200 + length b) small v e refl (omega (arith, l)) (omega (arith, l, q)),
      )
  store-Sized false inner size h e =
      let q : i ≢ n - 1 = λ q. absurd (
        cc (
          inner,
          (==_iff i (sub_u64 c.num_slices 1)).1
              (omega (arith, q, v.slices, sub_u64-eq c.num_slices 1)),
        )) in
      let full : length b ≡ 1200 = ground (arith, size) in
      let room = v.room (less e) in
      (
        _,
        store_inner c i b (omega arith) full (omega (arith, room, q)),
        written-Sized n i c c.sliced_data b (i * 1200) ((i + 1) * 1200) small v e
            (omega (arith, full)) (omega (arith, room, q)) room,
      )

  finished :
      Returns (Sized n) (store c i b (i == sub_u64 c.num_slices 1))
      → Returns
          (λ x. Sized n x.0)
          (store c i b (i == sub_u64 c.num_slices 1) >>= λ c'. returns (finish c'))
  finished r =
      Returns-bind (Sized n) (λ x. Sized n x.0) _ (λ c'. returns (finish c')) r
        (λ c' w. (_, refl, finish-Sized n c' w))

  in_range : (seen : Bool) → get_elem? c.received i ≡ some seen → i < n
  in_range seen e = omega (arith, get_elem?-some-lt c.received i seen e, v.flags)

  past : get_elem? c.received i ≡ none → n ≤ i
  past e = elim (Bool-cases (leb n i)) [
    | inl h ↦ ground (arith, h)
    | inr h ↦
        let (x, q) = get_elem?_lt c.received i (ground (arith, h, v.flags)) in absurd (cc (e, q))
  ]

  -- A slice out of range is not the last one, so that its size is the full one.
  size_past : n ≤ i → has_valid_size (i == sub_u64 c.num_slices 1) b ≡ (length b == 1200)
  size_past h =
      ap (λ l. has_valid_size l b)
        (==_false i (sub_u64 c.num_slices 1)
          (λ e. omega (arith, e, h, v.slices, sub_u64-eq c.num_slices 1)))

  process_slice-Answers : Answers n c i b
  unfolding process_slice
  process_slice-Answers =
      let last = i == sub_u64 c.num_slices 1 in
      elim (Bool-cases (has_valid_size last b)) [
        | inr wrong ↦ rw wrong (
            inr (
              (_, refl, v),
              λ h. absurd (cc (wrong, size_past h.0, (==_iff (length b) 1200).1 h.1)),
            ))
        | inl right ↦ rw right (elim (Option-cases (get_elem? c.received i)) [
          | inl e ↦
              rw e
                (inl (refl, past e, (==_iff (length b) 1200).0 (sym (size_past (past e)) ∙ right)))
          | inr (true, e) ↦
              rw e (inr ((_, refl, finish-Sized n c v), λ h. omega (arith, h.0, in_range true e)))
          | inr (false, e) ↦ rw e (
              inr (
                finished (store-Sized last refl right (in_range false e) e),
                λ h. omega (arith, h.0, in_range false e),
              ))
        ])
      ]

Fed-Sized : (id n : ℕ) (c : SliceConstructor) → 1 ≤ n → n ≤ 2 ^ 50 → Fed id n c → Sized n c
unfolding new
Fed-Sized id n _ positive small fresh_constructor = record {
  slices = refl;
  flags = length-replicate n false;
  counted = sym (trues-replicate n);
  room = λ less. omega (arith, mul_u64-eq n 1200, length-replicate {A = ℕ} (mul_u64 n 1200) 0);
}
Fed-Sized id n _ positive small (fed {c} {c'} {r} i b f e) =
    elim (process_slice-Answers n i c b positive small (Fed-Sized id n c positive small f)) [
      | inl (p, _, _) ↦ absurd (cc (p, e))
      | inr ((x, q, w), _) ↦
          let same : Path (SliceConstructor × Result (Option Bytes) ChannelError) x (c', r) =
            cc (q, e) in
          subst (λ z. Sized n z.0) same w
    ]

-- Of a constructor for 1 to 2^50 slices that was fed any slices: `process_slice` panics exactly for a
-- slice of full size whose index is not below the number of slices.
pub process_slice-panics_iff :
    (id n i : ℕ) (c : SliceConstructor) (b : Bytes)
    → 1 ≤ n
    → n ≤ 2 ^ 50
    → Fed id n c
    → (process_slice c i b ≡ panics) ↔ ((n ≤ i) × (length b ≡ 1200))
process_slice-panics_iff id n i c b positive small f =
    elim (process_slice-Answers n i c b positive small (Fed-Sized id n c positive small f)) [
      | inl (p, q, q') ↦ (λ _. (q, q'), λ _. p)
      | inr ((x, q, w), inside) ↦ (λ p. absurd (cc (p, q)), λ h. absurd (inside h))
    ]
