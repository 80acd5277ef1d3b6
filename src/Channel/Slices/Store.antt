-- ===== src/Channel/Slices/Store.antt =====
-- What `store` does with a slice of a message, at its exact ranges.
use renet.Base.{
  ℕ, ◌+◌, ◌-◌, ◌*◌, ◌^◌, ◌≤◌, ◌<◌, ◌≡◌, refl, true, false, ◌++◌, arith, length, set, take, drop,
}
use renet.Base.Word.{add_u64, add_u64-eq, sub_u64-eq, mul_u64-eq}
use renet.Base.Outcome.{returns}
use renet.Packet.{Bytes}
use renet.Channel.Slices.Resize.{length-resize}
use renet.Channel.Slices.{SliceConstructor, resize, copy_from_slice, store}

-- The constructor with the bytes written from `start` to `end` over `xs`.
abbrev pub written : SliceConstructor → ℕ → Bytes → Bytes → ℕ → ℕ → SliceConstructor
written c i xs b start end = record c {
  num_received_slices = add_u64 c.num_received_slices 1;
  received = set c.received i true;
  sliced_data = take start xs ++ (b ++ drop end xs);
}

copy-returns :
    (xs b : Bytes) (start end : ℕ)
    → start + length b ≡ end
    → end ≤ length xs
    → copy_from_slice xs start end b ≡ returns (take start xs ++ (b ++ drop end xs))
unfolding copy_from_slice
copy-returns xs b start end e h = ground arith

pub store_last :
    (c : SliceConstructor) (i : ℕ) (b : Bytes)
    → c.num_slices ≡ i + 1
    → i < 2 ^ 50
    → length b ≤ 1200
    → store c i b true
      ≡ returns (
          written c i
            (resize c.sliced_data (i * 1200 + length b) 0)
            b
            (i * 1200)
            (i * 1200 + length b))
unfolding store
store_last c i b e h l = rw (
  e,
  sub_u64-eq (i + 1) 1 (omega arith) (omega arith),
  let p : i + 1 - 1 ≡ i = omega arith in p,
  mul_u64-eq i 1200 (omega arith),
  add_u64-eq (i * 1200) (length b) (omega arith),
  copy-returns (resize c.sliced_data (i * 1200 + length b) 0) b (i * 1200) (i * 1200 + length b)
      refl (omega (arith, length-resize c.sliced_data (i * 1200 + length b) 0)),
)

pub store_inner :
    (c : SliceConstructor) (i : ℕ) (b : Bytes)
    → i < 2 ^ 50
    → length b ≡ 1200
    → (i + 1) * 1200 ≤ length c.sliced_data
    → store c i b false ≡ returns (written c i c.sliced_data b (i * 1200) ((i + 1) * 1200))
unfolding store
store_inner c i b h l k = rw (
  mul_u64-eq i 1200 (omega arith),
  add_u64-eq i 1 (omega arith),
  mul_u64-eq (i + 1) 1200 (omega arith),
  copy-returns c.sliced_data b (i * 1200) ((i + 1) * 1200) (omega arith) k,
)
