-- ===== src/Netcode/Token/Read.antt =====
-- The reading of connect tokens, renetcode/src/token.rs.
use renet.Base.{
  ℕ, zero, suc, ◌-◌, Bool, true, false, Option, none, some, [], ◌∷◌, ◌++◌, if◌then◌else◌, ◌==◌,
  replicate, min,
}
use renet.Base.Outcome.{Result, ok, err}
use renet.Packet.{Bytes}
use renet.Netcode.Limits.{
  version_info, address_none, address_ipv4, address_ipv6, xnonce_bytes, connect_token_private_bytes,
  key_bytes, user_data_bytes,
}
use renet.Netcode.Error.{IoError, invalid_data, NetcodeError, invalid_version, io_failure, map_err}
use renet.Netcode.Io.{
  Read, give, ◌>>=◌, read_u8, read_u16, read_u32, read_u64, read_i32, read_bytes,
}
use renet.Netcode.Address.{SocketAddr, v4, v6, same_bytes}
use renet.Netcode.Token.{Hosts, ConnectToken, PrivateConnectToken}

abbrev pub fail : {A : Type 0} → IoError → Read A
fail e src = err e

unfoldable pub read_v4 : Read (Option SocketAddr)
read_v4 = do ip ← read_bytes 4; port ← read_u16; give (some (v4 ip port))

-- An address of version 6 is read without flow information and scope.
unfoldable pub read_v6 : Read (Option SocketAddr)
read_v6 = do ip ← read_bytes 16; port ← read_u16; give (some (v6 ip port 0 0))

unfoldable pub read_typed : ℕ → Read (Option SocketAddr)
read_typed host_type =
    if host_type == address_ipv4
    then read_v4
    else if host_type == address_ipv6
    then read_v6
    else if host_type == address_none
    then give none
    else fail invalid_data

-- So many places of the array, one after the other.
unfoldable pub read_hosts : ℕ → Read Hosts
read_hosts zero = give []
read_hosts (suc n) = do
  host_type ← read_u8
  server_address ← read_typed host_type
  server_addresses ← read_hosts n
  give (server_address ∷ server_addresses)

abbrev pub is_empty : Hosts → Bool
is_empty [] = true
is_empty (_ ∷ _) = false

-- The places that are not read are `None`.
abbrev pub filled : ℕ → Hosts → Read Hosts
filled n hosts =
    let server_addresses : Hosts = hosts ++ replicate (32 - n) none in
    if is_empty server_addresses then fail invalid_data else give server_addresses

unfoldable pub read_server_addresses : Read Hosts
read_server_addresses = do
  num_server_addresses ← read_u32
  hosts ← read_hosts (min num_server_addresses 32)
  filled (min num_server_addresses 32) hosts

-- What follows the version.
unfoldable pub read_after : ℕ → Bytes → Read ConnectToken
read_after client_id version = do
  protocol_id ← read_u64
  create_timestamp ← read_u64
  expire_timestamp ← read_u64
  xnonce ← read_bytes xnonce_bytes
  private_data ← read_bytes connect_token_private_bytes
  timeout_seconds ← read_i32
  server_addresses ← read_server_addresses
  client_to_server_key ← read_bytes key_bytes
  server_to_client_key ← read_bytes key_bytes
  give (record {
    client_id = client_id;
    version_info = version;
    protocol_id = protocol_id;
    create_timestamp = create_timestamp;
    expire_timestamp = expire_timestamp;
    xnonce = xnonce;
    server_addresses = server_addresses;
    client_to_server_key = client_to_server_key;
    server_to_client_key = server_to_client_key;
    private_data = private_data;
    timeout_seconds = timeout_seconds;
  })

unfoldable pub read_version : Read (ℕ × Bytes)
read_version = do client_id ← read_u64; version ← read_bytes 13; give (client_id, version)

abbrev pub checked :
    Result ((ℕ × Bytes) × Bytes) IoError → Result (ConnectToken × Bytes) NetcodeError
checked (err e) = err (io_failure e)
checked (ok ((client_id, version), src)) =
    if same_bytes version version_info
    then map_err io_failure (read_after client_id version src)
    else err invalid_version

unfoldable pub read : Bytes → Result (ConnectToken × Bytes) NetcodeError
read src = checked (read_version src)

unfoldable pub read_private : Read PrivateConnectToken
read_private = do
  client_id ← read_u64
  timeout_seconds ← read_i32
  server_addresses ← read_server_addresses
  client_to_server_key ← read_bytes key_bytes
  server_to_client_key ← read_bytes key_bytes
  user_data ← read_bytes user_data_bytes
  give (record {
    client_id = client_id;
    timeout_seconds = timeout_seconds;
    server_addresses = server_addresses;
    client_to_server_key = client_to_server_key;
    server_to_client_key = server_to_client_key;
    user_data = user_data;
  })
