-- ===== src/Channel/Pieces.antt =====
-- How a message is cut into slices of `SLICE_SIZE` bytes, which the send channels of
-- renet/src/channel do. `Bytes::slice` shares the bytes of the message, as a part of the list.
use renet.Base.{
  ℕ, ◌+◌, ◌-◌, ◌*◌, ◌/◌, ◌^◌, ◌≤◌, ◌<◌, ◌≡◌, ◌&&◌, arith, if◌then◌else◌, leb, ◌==◌, length,
  get_elem?, take, drop, length-take, length-drop,
}
use renet.Base.Outcome.{Outcome, returns, panics}
use renet.Packet.{Bytes, slice_size}
use renet.Channel.Splice.{get_elem?-take, get_elem?-drop}

-- `message.slice(start..end)`, which panics out of bounds.
unfoldable pub slice_range : Bytes → ℕ → ℕ → Outcome Bytes
slice_range m start end =
    if leb start end && leb end (length m)
    then returns (take (end - start) (drop start m))
    else panics

-- `len.div_ceil(SLICE_SIZE)`.
abbrev pub div_ceil_slices : ℕ → ℕ
div_ceil_slices len = (len + (slice_size - 1)) / slice_size

-- A message of `n` slices, of which the last is not empty. The bound leaves room for `n * 1200`.
pub record IsSliced (m : Bytes) (n : ℕ) : Type 0 where
  pub positive : 0 < n
  pub over : (n - 1) * 1200 < length m
  pub within : length m ≤ n * 1200
  pub small : n < 2 ^ 48

pub div_ceil-IsSliced :
    (m : Bytes) → 0 < length m → length m < 2 ^ 58 → IsSliced m (div_ceil_slices (length m))
div_ceil-IsSliced m h b = omega arith

abbrev pub piece_end : Bytes → ℕ → ℕ → ℕ
piece_end m n i = if i == n - 1 then length m else (i + 1) * 1200

-- The payload of slice `i` of the `n` slices of a message.
unfoldable pub piece : Bytes → ℕ → ℕ → Bytes
piece m n i = take (piece_end m n i - i * 1200) (drop (i * 1200) m)

pub piece_end_bounds :
    (m : Bytes) (n i : ℕ)
    → IsSliced m n
    → i < n
    → (i * 1200 < piece_end m n i)
      × (piece_end m n i ≤ length m)
      × (piece_end m n i ≤ i * 1200 + 1200)
piece_end_bounds m n i s h = ground arith

pub length-piece :
    (m : Bytes) (n i : ℕ) → IsSliced m n → i < n → i * 1200 + length (piece m n i) ≡ piece_end m n i
unfolding piece
length-piece m n i s h =
    let b = piece_end_bounds m n i s h in
    omega (
      arith,
      length-take (piece_end m n i - i * 1200) (drop (i * 1200) m),
      length-drop (i * 1200) m,
    )

pub get_elem?-piece :
    (m : Bytes) (n i k : ℕ)
    → i * 1200 ≤ k
    → k < piece_end m n i
    → get_elem? (piece m n i) (k - i * 1200) ≡ get_elem? m k
unfolding piece
get_elem?-piece m n i k h l = ground (
  arith,
  get_elem?-take (piece_end m n i - i * 1200) (drop (i * 1200) m) (k - i * 1200),
  get_elem?-drop (i * 1200) m (k - i * 1200),
)

-- The range that the senders take is the piece.
pub slice_range-piece :
    (m : Bytes) (n i : ℕ)
    → IsSliced m n
    → i < n
    → slice_range m (i * 1200) (piece_end m n i) ≡ returns (piece m n i)
unfolding slice_range piece
slice_range-piece m n i s h = ground (arith, piece_end_bounds m n i s h)
