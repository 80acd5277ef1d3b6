-- ===== src/Channel/Slices.antt =====
-- The slice constructor of renet/src/channel/slice_constructor.rs. Logging is left out.
pub mod Resize
pub mod Store
pub mod Assemble
pub mod Progress
pub mod Feed
pub mod Range
mod Tests
use renet.Base.{
  ℕ, ◌+◌, ◌-◌, Bool, true, false, ◌&&◌, not, Option, none, some, List, ◌++◌, if◌then◌else◌, ltb,
  leb, ◌==◌, length, get_elem?, set, take, drop, replicate,
}
use renet.Base.Word.{add_u64, sub_u64, mul_u64}
use renet.Base.Outcome.{Outcome, returns, panics, Result, ok, err, ◌>>=◌, unwrap}
use renet.Error.{ChannelError, invalid_slice_message}
use renet.Packet.{Bytes, slice_size}

pub record SliceConstructor : Type 0 where
  pub message_id : ℕ
  pub num_slices : ℕ
  pub num_received_slices : ℕ
  pub received : List Bool
  pub sliced_data : Bytes

unfoldable pub new : ℕ → ℕ → SliceConstructor
new message_id num_slices = record {
  message_id = message_id;
  num_slices = num_slices;
  num_received_slices = 0;
  received = replicate num_slices false;
  sliced_data = replicate (mul_u64 num_slices slice_size) 0;
}

-- `Vec::resize`.
unfoldable pub resize : Bytes → ℕ → ℕ → Bytes
resize xs len v = if leb len (length xs) then take len xs else xs ++ replicate (len - length xs) v

-- `xs[start..end].copy_from_slice(bytes)`, which panics if the range is out of bounds or has
-- another length than the bytes.
unfoldable pub copy_from_slice : Bytes → ℕ → ℕ → Bytes → Outcome Bytes
copy_from_slice xs start end bytes =
    if leb start end && leb end (length xs) && (end - start == length bytes)
    then returns (take start xs ++ (bytes ++ drop end xs))
    else panics

-- The early returns on the size of a slice.
abbrev pub has_valid_size : Bool → Bytes → Bool
has_valid_size is_last bytes =
    if is_last then leb (length bytes) slice_size else length bytes == slice_size

-- The branch for a slice that was not received before.
unfoldable pub store : SliceConstructor → ℕ → Bytes → Bool → Outcome SliceConstructor
store c slice_index bytes is_last = do
  let last_end = add_u64 (mul_u64 (sub_u64 c.num_slices 1) slice_size) (length bytes)
  let sized = if is_last then resize c.sliced_data last_end 0 else c.sliced_data
  let start = mul_u64 slice_index slice_size
  let end = if is_last then last_end else mul_u64 (add_u64 slice_index 1) slice_size
  copied ← copy_from_slice sized start end bytes
  returns (record c {
    num_received_slices = add_u64 c.num_received_slices 1;
    received = set c.received slice_index true;
    sliced_data = copied;
  })

-- `std::mem::take` leaves the constructor without data.
unfoldable pub finish : SliceConstructor → SliceConstructor × Result (Option Bytes) ChannelError
finish c =
    if c.num_received_slices == c.num_slices
    then (record c { sliced_data = List.[] }, ok (some c.sliced_data))
    else (c, ok none)

unfoldable pub process_slice :
    SliceConstructor → ℕ → Bytes → Outcome (SliceConstructor × Result (Option Bytes) ChannelError)
process_slice c slice_index bytes =
    let is_last = slice_index == sub_u64 c.num_slices 1 in
    if has_valid_size is_last bytes
    then (do
      seen ← unwrap (get_elem? c.received slice_index)
      stored ← if seen then returns c else store c slice_index bytes is_last
      returns (finish stored))
    else returns (c, err invalid_slice_message)
