-- ===== src/Packet.antt =====
-- The packets of renet/src/packet.rs. A byte is a number, and `Bytes` a list of them.
pub mod Codec
pub mod Wire
pub mod Format
use renet.Base.{ℕ, List}

abbrev pub Bytes : Type 0
Bytes = List ℕ

-- A `Payload` is one serialized packet.
abbrev pub Payload : Type 0
Payload = Bytes

abbrev pub slice_size : ℕ
slice_size = 1200

pub record Slice : Type 0 where
  pub message_id : ℕ
  pub slice_index : ℕ
  pub num_slices : ℕ
  pub payload : Bytes

-- `Range<u64>`, which holds `start` and does not hold `end`.
pub record Range : Type 0 where
  pub start : ℕ
  pub end : ℕ

pub data Packet : Type 0 where
  small_reliable : (sequence channel_id : ℕ) → (messages : List (ℕ × Bytes)) → Packet
  small_unreliable : (sequence channel_id : ℕ) → (messages : List Bytes) → Packet
  unreliable_slice : (sequence channel_id : ℕ) → (slice : Slice) → Packet
  reliable_slice : (sequence channel_id : ℕ) → (slice : Slice) → Packet
  ack : (sequence : ℕ) → (ack_ranges : List Range) → Packet

unfoldable pub sequence : Packet → ℕ
sequence (small_reliable s c ms) = s
sequence (small_unreliable s c ms) = s
sequence (unreliable_slice s c sl) = s
sequence (reliable_slice s c sl) = s
sequence (ack s rs) = s
