-- ===== src/Netcode/PacketType.antt =====
-- `PacketType` of renetcode/src/packet.rs, and the first byte of a packet.
pub mod Sequence
use renet.Base.{ℕ, ◌+◌, ◌*◌, ◌/◌, ◌%◌, ◌^◌, Bool, true, false, ◌==◌, if◌then◌else◌}
use renet.Base.Outcome.{Result, ok, err}
use renet.Netcode.Error.{NetcodeError, invalid_packet_type}
use Prim.Native.Nat.{zero, suc, bit_or}

pub data PacketType : Type 0 where
  connection_request : PacketType
  connection_denied : PacketType
  challenge : PacketType
  response : PacketType
  keep_alive : PacketType
  payload : PacketType
  disconnect : PacketType

-- `packet_type as u8`.
abbrev pub number : PacketType → ℕ
number connection_request = 0
number connection_denied = 1
number challenge = 2
number response = 3
number keep_alive = 4
number payload = 5
number disconnect = 6

unfoldable pub from_u8 : ℕ → Result PacketType NetcodeError
from_u8 value =
    if value == 0
    then ok connection_request
    else if value == 1
    then ok connection_denied
    else if value == 2
    then ok challenge
    else if value == 3
    then ok response
    else if value == 4
    then ok keep_alive
    else if value == 5
    then ok payload
    else if value == 6
    then ok disconnect
    else err invalid_packet_type

abbrev pub apply_replay_protection : PacketType → Bool
apply_replay_protection keep_alive = true
apply_replay_protection payload = true
apply_replay_protection disconnect = true
apply_replay_protection _ = false

-- The loop from the highest byte down; a mask selects one byte of the sequence.
unfoldable pub bytes_required_loop : ℕ → ℕ → ℕ
bytes_required_loop zero sequence = 0
bytes_required_loop (suc i) sequence =
    let rest = bytes_required_loop i sequence in
    if (sequence / 256 ^ i) % 256 == 0 then rest else suc i

unfoldable pub sequence_bytes_required : ℕ → ℕ
sequence_bytes_required sequence = bytes_required_loop 8 sequence

unfoldable pub encode_prefix : ℕ → ℕ → ℕ
encode_prefix value sequence = bit_or value (sequence_bytes_required sequence % 256 * 16 % 256)

-- The type and the number of bytes of the sequence.
abbrev pub decode_prefix : ℕ → ℕ × ℕ
decode_prefix value = (value % 16, value / 16)
