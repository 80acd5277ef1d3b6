-- ===== src/Channel/Slices/Assemble.antt =====
-- What a slice constructor holds while it puts one message together.
use renet.Base.{
  ℕ, suc, ◌+◌, ◌-◌, ◌*◌, ◌/◌, ◌≤◌, ◌<◌, ◌≡◌, ◌≢◌, refl, sym, ◌∙◌, true, false, some, arith, ◌==◌,
  ==_iff, ==_false, length, get_elem?, set, length-set, get_elem?-set_ne, length-replicate,
  replicate, zero, subst,
}
use native.Mathlib.Decide.{ℕ_discrete, dec_lt}
use renet.Base.Flags.{trues, trues-replicate, trues-le-length, trues-set, trues_full}
use renet.Base.Word.{add_u64, add_u64-eq, mul_u64-eq, mul_u64}
use renet.Base.Outcome.{Outcome, returns}
use renet.Packet.{Bytes}
use renet.Channel.Splice.{get_elem?-splice, length-splice, get_elem?_past, get_elem?-ext}
use renet.Channel.Pieces.{IsSliced, piece, length-piece, get_elem?-piece}
use renet.Channel.Slices.Resize.{get_elem?-resize, length-resize}
use renet.Channel.Slices.Store.{written, store_last, store_inner}
use renet.Channel.Slices.{SliceConstructor, new, resize, store}

-- The constructor holds the received slices of the message `m` of `n` slices.
pub record Assembles (m : Bytes) (n : ℕ) (c : SliceConstructor) : Type 0 where
  pub count : c.num_slices ≡ n
  pub flags : length c.received ≡ n
  pub counted : c.num_received_slices ≡ trues c.received
  pub room : (n - 1) * 1200 ≤ length c.sliced_data
  pub size : length c.sliced_data ≤ n * 1200
  pub agrees :
      (k : ℕ)
      → get_elem? c.received (k / 1200) ≡ some true
      → get_elem? c.sliced_data k ≡ get_elem? m k

flag_false : (n i : ℕ) → get_elem? (replicate n false) i ≢ some true
flag_false zero i e = cc
flag_false (suc n) zero e = cc
flag_false (suc n) (suc i) e = flag_false n i e

pub new-Assembles : (m : Bytes) (n id : ℕ) → IsSliced m n → Assembles m n (new id n)
unfolding new
new-Assembles m n id s =
    let len = length-replicate {A = ℕ} (mul_u64 n 1200) 0 in
    record {
      count = refl;
      flags = length-replicate n false;
      counted = sym (trues-replicate n);
      room = omega (arith, len, mul_u64-eq n 1200);
      size = omega (arith, len, mul_u64-eq n 1200);
      agrees = λ k e. absurd (flag_false n (k / 1200) e);
    }

module _ (m : Bytes) (n i k : ℕ) (c : SliceConstructor) (s : IsSliced m n)
    (a : Assembles m n c) where
  inner_agrees :
      i < n
      → i ≢ n - 1
      → get_elem? (set c.received i true) (k / 1200) ≡ some true
      → get_elem?
          (written c i c.sliced_data (piece m n i) (i * 1200) ((i + 1) * 1200)).sliced_data
          k
        ≡ get_elem? m k
  inner_agrees h ne e =
      let sp =
        get_elem?-splice c.sliced_data (piece m n i) (i * 1200) ((i + 1) * 1200) k
          (ground (arith, length-piece m n i s h)) (omega (arith, a.room)) in
      elim (ℕ_discrete (k / 1200) i) [
        | yes q ↦ ground (arith, sp, get_elem?-piece m n i k)
        | no q ↦ ground (arith, sp, a.agrees k, get_elem?-set_ne c.received i (k / 1200) true)
      ]

  last_agrees :
      (xs : Bytes)
      → xs ≡ resize c.sliced_data (length m) 0
      → i + 1 ≡ n
      → get_elem? (set c.received i true) (k / 1200) ≡ some true
      → get_elem? (written c i xs (piece m n i) (i * 1200) (length m)).sliced_data k ≡ get_elem? m k
  last_agrees xs q le e =
      let len : length xs ≡ length m = rw q (length-resize c.sliced_data (length m) 0) in
      let sp =
        get_elem?-splice xs (piece m n i) (i * 1200) (length m) k
          (ground (arith, length-piece m n i s (omega arith))) (omega arith) in
      elim (ℕ_discrete (k / 1200) i) [
        | yes q ↦
            ground (arith, sp, get_elem?-piece m n i k, get_elem?_past xs k, get_elem?_past m k)
        | no ne ↦ ground (
          arith,
          sp,
          a.agrees k,
          get_elem?-set_ne c.received i (k / 1200) true,
          get_elem?-resize c.sliced_data (length m) 0 k,
          get_elem?_past xs k,
          get_elem?_past m k,
          q,
        )
      ]

-- The constructor took slice `i`.
abbrev pub Stored : Bytes → ℕ → ℕ → SliceConstructor → Outcome SliceConstructor → Type 0
Stored m n i c o =
    (c' : SliceConstructor) × (o ≡ returns c')
    × Assembles m n c'
    × (c'.received ≡ set c.received i true)
    × (c'.message_id ≡ c.message_id)

module _ (m : Bytes) (n i : ℕ) (c : SliceConstructor) (s : IsSliced m n) (a : Assembles m n c) where
  counted-set :
      get_elem? c.received i ≡ some false
      → add_u64 c.num_received_slices 1 ≡ trues (set c.received i true)
  counted-set f = omega (
    arith,
    trues-set c.received i f,
    trues-le-length c.received,
    a.counted,
    a.flags,
    add_u64-eq c.num_received_slices 1,
  )

  store-inner_Stored :
      i < n
      → i ≢ n - 1
      → get_elem? c.received i ≡ some false
      → Stored m n i c (store c i (piece m n i) false)
  store-inner_Stored h ne f =
      let b = piece m n i in
      let l = length-piece m n i s h in
      let fits : i * 1200 + length b ≡ (i + 1) * 1200 = ground arith in
      (
        written c i c.sliced_data b (i * 1200) ((i + 1) * 1200),
        store_inner c i b (omega arith) (omega arith) (omega (arith, a.room)),
        record {
          count = a.count;
          flags = length-set c.received i true ∙ a.flags;
          counted = counted-set f;
          room = omega (
            arith,
            length-splice c.sliced_data b (i * 1200) ((i + 1) * 1200) fits (omega (arith, a.room)),
            a.room,
          );
          size = omega (
            arith,
            length-splice c.sliced_data b (i * 1200) ((i + 1) * 1200) fits (omega (arith, a.room)),
            a.size,
          );
          agrees = λ k e. inner_agrees m n i k c s a h ne e;
        },
        refl,
        refl,
      )

  store-last_Stored :
      i + 1 ≡ n
      → get_elem? c.received i ≡ some false
      → Stored m n i c (store c i (piece m n i) true)
  store-last_Stored e f =
      let b = piece m n i in
      let fits : i * 1200 + length b ≡ length m =
        ground (arith, length-piece m n i s (omega arith)) in
      let xs = resize c.sliced_data (length m) 0 in
      let len : length xs ≡ length m = length-resize c.sliced_data (length m) 0 in
      let sp = length-splice xs b (i * 1200) (length m) fits (omega arith) in
      (
        written c i xs b (i * 1200) (length m),
        subst
            (λ z.
              store c i b true ≡ returns (written c i (resize c.sliced_data z 0) b (i * 1200) z))
            fits (store_last c i b (a.count ∙ sym e) (omega arith) (omega arith)),
        record {
          count = a.count;
          flags = length-set c.received i true ∙ a.flags;
          counted = counted-set f;
          room = omega (arith, sp, len, s.over);
          size = omega (arith, sp, len, s.within);
          agrees = λ k q. last_agrees m n i k c s a xs refl e q;
        },
        refl,
        refl,
      )

  pub store-Stored :
      i < n
      → get_elem? c.received i ≡ some false
      → Stored m n i c (store c i (piece m n i) (i == n - 1))
  store-Stored h f = elim (ℕ_discrete i (n - 1)) [
    | yes e ↦ rw ((==_iff i (n - 1)).1 e) (store-last_Stored (omega arith) f)
    | no ne ↦ rw (==_false i (n - 1) ne) (store-inner_Stored h ne f)
  ]

  -- All slices are there, so the data is the message.
  pub assembled : trues c.received ≡ n → c.sliced_data ≡ m
  assembled full = get_elem?-ext c.sliced_data m λ k. elim (dec_lt k (n * 1200)) [
    | yes inside ↦
        a.agrees k (trues_full c.received (k / 1200) (full ∙ sym a.flags) (omega (arith, a.flags)))
    | no outside ↦
        get_elem?_past c.sliced_data k (omega (arith, a.size))
        ∙ sym (get_elem?_past m k (omega (arith, s.within)))
  ]
