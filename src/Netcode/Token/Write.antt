-- ===== src/Netcode/Token/Write.antt =====
-- The writing of connect tokens, renetcode/src/token.rs.
use renet.Base.{◌^◌, ◌%◌, Option, none, some, List, [], ◌∷◌, length}
use renet.Base.Outcome.{Result, ok}
use renet.Packet.{Bytes}
use renet.Netcode.Limits.{address_ipv4, address_ipv6}
use renet.Netcode.Error.{IoError, ◌>>=◌}
use renet.Netcode.Io.{to_le_bytes, Writer, write_all}
use renet.Netcode.Address.{SocketAddr, v4, v6}
use renet.Netcode.Token.{Hosts, ConnectToken, PrivateConnectToken}

-- The iterator `flatten`.
abbrev pub flatten : {A : Type 0} → List (Option A) → List A
flatten [] = []
flatten (none ∷ os) = flatten os
flatten (some a ∷ os) = a ∷ flatten os

unfoldable pub write_octets : Bytes → Writer → Result Writer IoError
write_octets [] writer = ok writer
write_octets (i ∷ octets) writer = do
  writer ← write_all (to_le_bytes 1 i) writer
  write_octets octets writer

unfoldable pub write_host : SocketAddr → Writer → Result Writer IoError
write_host (v4 octets port) writer = do
  writer ← write_all (to_le_bytes 1 address_ipv4) writer
  writer ← write_octets octets writer
  write_all (to_le_bytes 2 port) writer
write_host (v6 octets port flowinfo scope_id) writer = do
  writer ← write_all (to_le_bytes 1 address_ipv6) writer
  writer ← write_octets octets writer
  write_all (to_le_bytes 2 port) writer

unfoldable pub write_hosts : List SocketAddr → Writer → Result Writer IoError
write_hosts [] writer = ok writer
write_hosts (host ∷ hosts) writer = do writer ← write_host host writer; write_hosts hosts writer

unfoldable pub write_server_addresses : Hosts → Writer → Result Writer IoError
write_server_addresses server_addresses writer = do
  writer ← write_all (to_le_bytes 4 (length (flatten server_addresses) % 2 ^ 32)) writer
  write_hosts (flatten server_addresses) writer

unfoldable pub write : ConnectToken → Writer → Result Writer IoError
write token writer = do
  writer ← write_all (to_le_bytes 8 token.client_id) writer
  writer ← write_all token.version_info writer
  writer ← write_all (to_le_bytes 8 token.protocol_id) writer
  writer ← write_all (to_le_bytes 8 token.create_timestamp) writer
  writer ← write_all (to_le_bytes 8 token.expire_timestamp) writer
  writer ← write_all token.xnonce writer
  writer ← write_all token.private_data writer
  writer ← write_all (to_le_bytes 4 token.timeout_seconds) writer
  writer ← write_server_addresses token.server_addresses writer
  writer ← write_all token.client_to_server_key writer
  write_all token.server_to_client_key writer

unfoldable pub write_private : PrivateConnectToken → Writer → Result Writer IoError
write_private token writer = do
  writer ← write_all (to_le_bytes 8 token.client_id) writer
  writer ← write_all (to_le_bytes 4 token.timeout_seconds) writer
  writer ← write_server_addresses token.server_addresses writer
  writer ← write_all token.client_to_server_key writer
  writer ← write_all token.server_to_client_key writer
  write_all token.user_data writer
