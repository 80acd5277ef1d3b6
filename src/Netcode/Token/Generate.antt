-- ===== src/Netcode/Token/Generate.antt =====
-- The generation and the encryption of connect tokens, renetcode/src/token.rs.
use renet.Base.{
  ℕ, ◌-◌, Option, none, some, List, [], ◌∷◌, ◌++◌, map, if◌then◌else◌, ltb, length, replicate,
}
use renet.Base.Word.{add_u64}
use renet.Base.Outcome.{Outcome, returns, panics, Result, ok, err}
use renet.Packet.{Bytes}
use renet.Netcode.Limits.{version_info, connect_token_private_bytes, as_secs}
use renet.Netcode.Error.{
  ◌>>=◌, map_err, IoError, TokenGenerationError, max_host_count, no_server_address_available,
  crypto_error, io_error,
}
use renet.Netcode.Crypto.{Ciphers, encrypt_in_place_xnonce, dencrypted_in_place_xnonce}
use renet.Netcode.Address.{SocketAddr}
use renet.Netcode.Token.{Hosts, ConnectToken, PrivateConnectToken, Random, additional_data}
use renet.Netcode.Token.Write.{write_private}
use renet.Netcode.Token.Read.{read_private}

abbrev pub or_random : Option Bytes → Bytes → Bytes
or_random none random = random
or_random (some chosen) random = chosen

abbrev pub hosts_of : List SocketAddr → Hosts
hosts_of addresses = map some addresses ++ replicate (32 - length addresses) none

unfoldable pub generate_private :
    Random
    → ℕ
    → ℕ
    → List SocketAddr
    → Option Bytes
    → Result PrivateConnectToken TokenGenerationError
generate_private r client_id timeout_seconds [] user_data = err no_server_address_available
generate_private r client_id timeout_seconds (host ∷ hosts) user_data =
    if ltb 32 (length (host ∷ hosts))
    then err max_host_count
    else ok (record {
      client_id = client_id;
      timeout_seconds = timeout_seconds;
      server_addresses = hosts_of (host ∷ hosts);
      client_to_server_key = r.client_to_server_key;
      server_to_client_key = r.server_to_client_key;
      user_data = or_random user_data r.user_data;
    })

abbrev pub or_crypto_error : Option Bytes → Result Bytes TokenGenerationError
or_crypto_error none = err crypto_error
or_crypto_error (some bs) = ok bs

-- The buffer of 1024 bytes is zero where the token is not written.
unfoldable pub encode :
    Ciphers → PrivateConnectToken → ℕ → ℕ → Bytes → Bytes → Result Bytes TokenGenerationError
encode c token protocol_id expire_timestamp xnonce private_key = do
  writer ←
      map_err io_error
        (write_private token (record { written = []; room = connect_token_private_bytes }))
  or_crypto_error (
      encrypt_in_place_xnonce c (writer.written ++ replicate writer.room 0) xnonce private_key
        (additional_data protocol_id expire_timestamp))

abbrev pub token_of :
    Result (PrivateConnectToken × Bytes) IoError → Result PrivateConnectToken TokenGenerationError
token_of (ok x) = ok (x.0)
token_of (err e) = err (io_error e)

abbrev pub decode_from :
    Outcome (Option Bytes) → Outcome (Result PrivateConnectToken TokenGenerationError)
decode_from panics = panics
decode_from (returns none) = returns (err crypto_error)
decode_from (returns (some buffer)) = returns (token_of (read_private buffer))

unfoldable pub decode :
    Ciphers
    → Bytes
    → ℕ
    → ℕ
    → Bytes
    → Bytes
    → Outcome (Result PrivateConnectToken TokenGenerationError)
decode c buffer protocol_id expire_timestamp xnonce private_key = decode_from (
    dencrypted_in_place_xnonce c buffer xnonce private_key
      (additional_data protocol_id expire_timestamp))

unfoldable pub generate :
    Ciphers
    → Random
    → ℕ
    → ℕ
    → ℕ
    → ℕ
    → ℕ
    → List SocketAddr
    → Option Bytes
    → Bytes
    → Result ConnectToken TokenGenerationError
generate c r current_time protocol_id expire_seconds client_id timeout_seconds server_addresses
      user_data private_key =
    do
      token ← generate_private r client_id timeout_seconds server_addresses user_data
      private_data ←
          encode c token protocol_id (add_u64 (as_secs current_time) expire_seconds) r.xnonce
            private_key
      ok (record {
        client_id = client_id;
        version_info = version_info;
        protocol_id = protocol_id;
        create_timestamp = as_secs current_time;
        expire_timestamp = add_u64 (as_secs current_time) expire_seconds;
        xnonce = r.xnonce;
        server_addresses = token.server_addresses;
        client_to_server_key = token.client_to_server_key;
        server_to_client_key = token.server_to_client_key;
        private_data = private_data;
        timeout_seconds = timeout_seconds;
      })
