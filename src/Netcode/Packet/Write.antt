-- ===== src/Netcode/Packet/Write.antt =====
-- `Packet::write` and `write_sequence` of renetcode/src/packet.rs.
use renet.Base.{ℕ, ◌-◌, [], ◌++◌, length, take}
use renet.Base.Outcome.{Result, ok}
use renet.Netcode.Error.{IoError, ◌>>=◌}
use renet.Netcode.Io.{to_le_bytes, Writer, write_all}
use renet.Netcode.PacketType.{sequence_bytes_required}
use renet.Netcode.Packet.{
  Packet, connection_request, connection_denied, challenge, response, keep_alive, payload,
  disconnect,
}

-- A cursor at the start of a buffer.
abbrev pub cursor : ℕ → Writer
cursor capacity = record { written = []; room = capacity }

unfoldable pub write : Packet → Writer → Result Writer IoError
write (connection_request version protocol_id expire_timestamp xnonce private_data) writer = do
  writer ← write_all version writer
  writer ← write_all (to_le_bytes 8 protocol_id) writer
  writer ← write_all (to_le_bytes 8 expire_timestamp) writer
  writer ← write_all xnonce writer
  write_all private_data writer
write (challenge token_sequence token_data) writer = do
  writer ← write_all (to_le_bytes 8 token_sequence) writer
  write_all token_data writer
write (response token_sequence token_data) writer = do
  writer ← write_all (to_le_bytes 8 token_sequence) writer
  write_all token_data writer
write (keep_alive client_index max_clients) writer = do
  writer ← write_all (to_le_bytes 4 client_index) writer
  write_all (to_le_bytes 4 max_clients) writer
write (payload p) writer = write_all p writer
write connection_denied writer = ok writer
write disconnect writer = ok writer

-- `Write::write` of the lower bytes of the sequence: what there is no room for is left out.
unfoldable pub write_sequence : ℕ → Writer → Writer
write_sequence seq w =
    let bs = take (sequence_bytes_required seq) (to_le_bytes 8 seq) in
    record { written = w.written ++ take w.room bs; room = w.room - length bs }
