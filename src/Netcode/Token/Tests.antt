-- ===== src/Netcode/Token/Tests.antt =====
-- Connect tokens that are written, read, encrypted and decrypted (renetcode/src/token.rs).
use renet.Base.{
  ℕ, zero, suc, All, ◌<◌, ◌-◌, ◌≡◌, ◌++◌, ◌∙◌, refl, List, [], ◌∷◌, length, replicate, arith,
}
use renet.Base.Outcome.{returns, ok}
use renet.Packet.{Bytes}
use renet.Netcode.Limits.{version_info}
use renet.Netcode.Crypto.{encrypt_in_place_xnonce, encrypt_with}
use renet.Netcode.Crypto.Toy.{toys, toy-Opens}
use renet.Netcode.Io.{Writer}
use renet.Netcode.Io.Cursors.{write_all-fits}
use renet.Netcode.Address.{SocketAddr, v4, v6}
use renet.Netcode.Packet.Write.{cursor}
use renet.Netcode.Token.{ConnectToken, PrivateConnectToken}
use renet.Netcode.Token.Layout.{IsHost}
use renet.Netcode.Token.Write.{
  write, write_private, write_server_addresses, write_hosts, write_host, write_octets,
}
use renet.Netcode.Token.Read.{read}
use renet.Netcode.Token.Generate.{hosts_of, encode, decode}
use renet.Netcode.Token.RoundTrip.{IsToken, read-write, token_bytes, write-token_bytes}
use renet.Netcode.Token.Sealed.{IsPrivateToken, text_of, decode-encode_private}

abbrev hosts : List SocketAddr
hosts = v4 (127 ∷ 0 ∷ 0 ∷ 1 ∷ []) 5000 ∷ v6 (replicate 16 7) 80 0 0 ∷ []

abbrev token : ConnectToken
token = record {
  client_id = 9;
  version_info = version_info;
  protocol_id = 7;
  create_timestamp = 100;
  expire_timestamp = 400;
  xnonce = replicate 24 1;
  server_addresses = hosts_of hosts;
  client_to_server_key = replicate 32 2;
  server_to_client_key = replicate 32 3;
  private_data = replicate 1024 4;
  timeout_seconds = 15;
}

sevens : (n : ℕ) → All (λ b. b < 256) (replicate n 7)
sevens zero = tt
sevens (suc n) = (omega arith, sevens n)

abbrev local_octets : All (λ b. b < 256) (127 ∷ 0 ∷ 0 ∷ 1 ∷ [])
local_octets = (omega arith, (omega arith, (omega arith, (omega arith, tt))))

hosts-IsHost : All IsHost hosts
hosts-IsHost = ((refl, local_octets, omega arith), ((refl, sevens 16, omega arith, refl, refl), tt))

token-IsToken : IsToken token hosts
token-IsToken = record {
  client_id = omega arith;
  version = refl;
  protocol_id = omega arith;
  create_timestamp = omega arith;
  expire_timestamp = omega arith;
  xnonce = refl;
  addresses = (refl, hosts-IsHost, omega arith);
  client_to_server_key = refl;
  server_to_client_key = refl;
  private_data = refl;
  timeout_seconds = omega arith;
}

-- The token, written into a buffer of 1300 bytes.
abbrev written : Writer
written = record {
  written = token_bytes token hosts;
  room = 1300 - length (token_bytes token hosts);
}

writes_token : write token (cursor 1300) ≡ ok written
writes_token =
    write-token_bytes token hosts refl hosts-IsHost (omega arith) (cursor 1300)
    ∙ write_all-fits (token_bytes token hosts) (cursor 1300) (omega arith)

read-write_example : read (written.written ++ (5 ∷ [])) ≡ ok (token, 5 ∷ [])
read-write_example = read-write token hosts 1300 written (5 ∷ []) token-IsToken writes_token

abbrev private_token : PrivateConnectToken
private_token = record {
  client_id = 9;
  timeout_seconds = 15;
  server_addresses = hosts_of hosts;
  client_to_server_key = replicate 32 2;
  server_to_client_key = replicate 32 3;
  user_data = replicate 256 4;
}

private_token-IsPrivateToken : IsPrivateToken private_token hosts
private_token-IsPrivateToken = record {
  client_id = omega arith;
  timeout_seconds = omega arith;
  addresses = (refl, hosts-IsHost, omega arith);
  client_to_server_key = refl;
  server_to_client_key = refl;
  user_data = refl;
}

abbrev sealed_token : Bytes
sealed_token = text_of private_token hosts ++ replicate 16 203

encrypts_token : encode toys private_token 7 400 (replicate 24 1) (replicate 32 5) ≡ ok sealed_token
unfolding encode encrypt_in_place_xnonce encrypt_with write_private write_server_addresses
    write_hosts write_host write_octets
encrypts_token = refl

decode-encode_private_example :
    decode toys sealed_token 7 400 (replicate 24 1) (replicate 32 5) ≡ returns (ok private_token)
decode-encode_private_example =
    decode-encode_private toys private_token hosts 7 400 (replicate 24 1) (replicate 32 5)
      sealed_token toy-Opens private_token-IsPrivateToken encrypts_token
