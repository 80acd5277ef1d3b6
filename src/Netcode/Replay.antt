-- ===== src/Netcode/Replay.antt =====
-- The replay protection of renetcode/src/replay_protection.rs.
pub mod Window
mod Tests
use renet.Base.{
  ℕ, ◌+◌, ◌%◌, ◌^◌, ◌-◌, Bool, true, false, List, if◌then◌else◌, ltb, leb, ◌==◌, get_or, set,
  replicate,
}
use renet.Base.Word.{add_u64}

abbrev pub buffer_size : ℕ
buffer_size = 256

abbrev pub empty : ℕ
empty = 2 ^ 64 - 1

pub record ReplayProtection : Type 0 where
  pub most_recent_sequence : ℕ
  pub received_packet : List ℕ

unfoldable pub new : ReplayProtection
new = record { most_recent_sequence = 0; received_packet = replicate buffer_size empty }

-- The index is below 256, the length of the array, so that no read is out of range.
abbrev pub slot : ReplayProtection → ℕ → ℕ
slot p sequence = get_or p.received_packet (sequence % buffer_size) empty

unfoldable pub already_received : ReplayProtection → ℕ → Bool
already_received p sequence =
    if leb (add_u64 sequence buffer_size) p.most_recent_sequence
    then true
    else if slot p sequence == empty
    then false
    else leb sequence (slot p sequence)

unfoldable pub advance_sequence : ReplayProtection → ℕ → ReplayProtection
advance_sequence p sequence = record {
  most_recent_sequence =
      if ltb p.most_recent_sequence sequence then sequence else p.most_recent_sequence;
  received_packet = set p.received_packet (sequence % buffer_size) sequence;
}
