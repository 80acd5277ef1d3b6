-- ===== src/Netcode/Packet/Decode.antt =====
-- `Packet::decode` of renetcode/src/packet.rs.
use renet.Base.{
  ℕ, ◌+◌, ◌-◌, Bool, false, Option, none, some, ◌&&◌, if◌then◌else◌, ltb, length, take, drop,
  get_or,
}
use renet.Base.Outcome.{Outcome, returns, ◌>>=◌, Result, ok, err}
use renet.Packet.{Bytes}
use renet.Netcode.Limits.{mac_bytes}
use renet.Netcode.Error.{
  NetcodeError, unavailable_private_key, packet_too_small, duplicated_sequence, crypto_failure,
  io_failure, IoError,
}
use renet.Netcode.Crypto.{Ciphers, dencrypted_in_place}
use renet.Netcode.PacketType.{PacketType, from_u8, apply_replay_protection, decode_prefix}
use renet.Netcode.Replay.{ReplayProtection, already_received, advance_sequence}
use renet.Netcode.Packet.{Packet, additional_data}
use renet.Netcode.Packet.Read.{read, read_sequence}

-- The result, and the replay protection, which the call may have changed even if it fails.
pub record Decoded : Type 0 where
  pub result : Result (ℕ × Packet) NetcodeError
  pub replay_protection : Option ReplayProtection

abbrev pub fails : NetcodeError → Option ReplayProtection → Decoded
fails e rp = record { result = err e; replay_protection = rp }

abbrev pub reads_as : ℕ → Result Packet IoError → Result (ℕ × Packet) NetcodeError
reads_as sequence (ok p) = ok (sequence, p)
reads_as sequence (err e) = err (io_failure e)

abbrev pub is_duplicate : PacketType → ℕ → Option ReplayProtection → Bool
is_duplicate t sequence none = false
is_duplicate t sequence (some rp) = apply_replay_protection t && already_received rp sequence

abbrev pub advance : PacketType → ℕ → Option ReplayProtection → Option ReplayProtection
advance t sequence none = none
advance t sequence (some rp) =
    if apply_replay_protection t then some (advance_sequence rp sequence) else some rp

-- The buffer from `read_pos` on, deciphered.
abbrev pub decode_opened : PacketType → ℕ → Option ReplayProtection → Option Bytes → Outcome Decoded
decode_opened t sequence rp none = returns (fails crypto_failure rp)
decode_opened t sequence rp (some text) = returns (record {
  result = reads_as sequence (read t (take (length text - mac_bytes) text));
  replay_protection = advance t sequence rp;
})

abbrev pub decode_sequence :
    Ciphers
    → PacketType
    → Bytes
    → Bytes
    → Option ReplayProtection
    → Result (ℕ × Bytes) IoError
    → Outcome Decoded
decode_sequence c t aad key rp (err e) = returns (fails (io_failure e) rp)
decode_sequence c t aad key rp (ok (sequence, text)) =
    if is_duplicate t sequence rp
    then returns (fails duplicated_sequence rp)
    else (dencrypted_in_place c text sequence key aad >>= λ o. decode_opened t sequence rp o)

unfoldable pub decode_sealed :
    Ciphers → PacketType → Bytes → ℕ → Bytes → Option ReplayProtection → Outcome Decoded
decode_sealed c t buffer protocol_id key rp =
    let prefix = get_or buffer 0 0 in
    read_sequence ((decode_prefix prefix).1) (drop 1 buffer) >>= λ r.
    decode_sequence c t (additional_data prefix protocol_id) key rp r

abbrev pub decode_as :
    Ciphers
    → Bytes
    → ℕ
    → Option Bytes
    → Option ReplayProtection
    → Result PacketType NetcodeError
    → Outcome Decoded
decode_as c buffer protocol_id key rp (err e) = returns (fails e rp)
decode_as c buffer protocol_id key rp (ok PacketType.connection_request) = returns (record {
  result = reads_as 0 (read PacketType.connection_request (drop 1 buffer));
  replay_protection = rp;
})
decode_as c buffer protocol_id none rp (ok t) = returns (fails unavailable_private_key rp)
decode_as c buffer protocol_id (some key) rp (ok t) = decode_sealed c t buffer protocol_id key rp

-- The first byte is there, since the buffer has 18 bytes at least.
unfoldable pub decode :
    Ciphers → Bytes → ℕ → Option Bytes → Option ReplayProtection → Outcome Decoded
decode c buffer protocol_id private_key rp =
    if ltb (length buffer) (2 + mac_bytes)
    then returns (fails packet_too_small rp)
    else decode_as c buffer protocol_id private_key rp
        (from_u8 ((decode_prefix (get_or buffer 0 0)).0))
