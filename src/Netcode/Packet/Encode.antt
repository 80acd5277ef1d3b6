-- ===== src/Netcode/Packet/Encode.antt =====
-- `Packet::encode` of renetcode/src/packet.rs.
use renet.Base.{
  ℕ, ◌+◌, Option, none, some, [], ◌∷◌, ◌++◌, if◌then◌else◌, ltb, length, take, drop, replicate,
}
use renet.Base.Outcome.{Result, ok, err}
use renet.Packet.{Bytes}
use renet.Netcode.Limits.{mac_bytes}
use renet.Netcode.Error.{
  ◌>>=◌, map_err, write_zero, NetcodeError, unavailable_private_key, crypto_failure, io_failure,
}
use renet.Netcode.Io.{Writer, write_all}
use renet.Netcode.Crypto.{Ciphers, encrypt_in_place}
use renet.Netcode.PacketType.{encode_prefix}
use renet.Netcode.Packet.{Packet, id, is_connection_request, additional_data}
use renet.Netcode.Packet.Write.{cursor, write, write_sequence}

unfoldable pub encode_plain : Packet → ℕ → Result Bytes NetcodeError
encode_plain p capacity = do
  writer ← map_err io_failure (write_all (encode_prefix (id p) 0 ∷ []) (cursor capacity))
  writer ← map_err io_failure (write p writer)
  ok writer.written

abbrev pub or_crypto_error : Option Bytes → Result Bytes NetcodeError
or_crypto_error none = err crypto_failure
or_crypto_error (some bs) = ok bs

-- From the position `start` after the sequence on, the text is sealed; the room for the tag, which
-- the tag overwrites, is written as zeros.
unfoldable pub seal : Ciphers → ℕ → ℕ → Bytes → Bytes → ℕ → Writer → Result Bytes NetcodeError
seal c capacity sequence private_key aad start writer =
    if ltb capacity (length writer.written + mac_bytes)
    then err (io_failure write_zero)
    else (or_crypto_error (
          encrypt_in_place c (drop start writer.written ++ replicate mac_bytes 0) sequence
            private_key aad)
        >>= λ sealed. ok (take start writer.written ++ sealed))

-- What follows the first byte.
unfoldable pub encode_after :
    Ciphers → Packet → ℕ → ℕ → ℕ → Bytes → ℕ → Writer → Result Bytes NetcodeError
encode_after c p capacity protocol_id sequence private_key prefix writer =
    let head = write_sequence sequence writer in
    map_err io_failure (write p head)
    >>= seal c capacity sequence private_key (additional_data prefix protocol_id)
        (length head.written)

unfoldable pub encode_sealed : Ciphers → Packet → ℕ → ℕ → ℕ → Bytes → Result Bytes NetcodeError
encode_sealed c p capacity protocol_id sequence private_key =
    let prefix = encode_prefix (id p) sequence in
    map_err io_failure (write_all (prefix ∷ []) (cursor capacity))
    >>= encode_after c p capacity protocol_id sequence private_key prefix

-- The packet's bytes, of a buffer of this capacity.
unfoldable pub encode : Ciphers → Packet → ℕ → ℕ → Option (ℕ × Bytes) → Result Bytes NetcodeError
encode c p capacity protocol_id crypto_info =
    if is_connection_request p then encode_plain p capacity else elim crypto_info [
      | none ↦ err unavailable_private_key
      | some (sequence, private_key) ↦ encode_sealed c p capacity protocol_id sequence private_key
    ]
