-- ===== src/Netcode/Server/Tests.antt =====
-- Runs of a server of renetcode/src/server.rs with a toy cipher.
use renet.Base.{refl, false, none, [], ◌∷◌, replicate}
use renet.Base.Outcome.{WhenReturns, Returns}
use renet.Netcode.Crypto.Toy.{toys}
use renet.Netcode.Address.{SocketAddr, v4}
use renet.Netcode.Server.{NetcodeServer, ServerConfig, ServerAuthentication}
use renet.Netcode.Server.Lookup.{find_client_mut_by_addr, get_pending}
use renet.Netcode.Server.Process.{process_packet}
use renet.Netcode.Server.Strangers.{stranger-Returns}
use renet.Netcode.Server.Consistent.{IsConsistent}
use renet.Netcode.Server.Consistent.Runs.{
  receive, tick, tick_client, kick, limit, serve, serve-IsConsistent,
}

abbrev remote : SocketAddr
remote = v4 (10 ∷ 0 ∷ 0 ∷ 1 ∷ []) 4000

abbrev config : ServerConfig
config = record {
  current_time = 0;
  max_clients = 2;
  protocol_id = 7;
  public_addresses = remote ∷ [];
  authentication = ServerAuthentication.unsecure;
}

serve-IsConsistent_example : WhenReturns IsConsistent (
    serve toys
      (3 ∷ [])
      config
      (receive remote (replicate 20 33) ∷ tick 5 ∷ tick_client 9 ∷ kick 9 ∷ limit 3 ∷ []))
serve-IsConsistent_example =
    serve-IsConsistent toys (3 ∷ []) config
      (receive remote (replicate 20 33) ∷ tick 5 ∷ tick_client 9 ∷ kick 9 ∷ limit 3 ∷ [])

abbrev empty_server : NetcodeServer
empty_server = record {
  clients = none ∷ none ∷ [];
  pending_clients = [];
  connect_token_entries = none ∷ none ∷ [];
  protocol_id = 7;
  connect_key = [];
  max_clients = 2;
  challenge_sequence = 0;
  challenge_key = [];
  public_addresses = remote ∷ [];
  current_time = 0;
  global_sequence = 0;
  secure = false;
}

-- A disconnect packet of a client that the server does not know.
stranger-Returns_example :
    Returns (λ _. Unit {0}) (process_packet toys empty_server remote (replicate 20 22))
unfolding find_client_mut_by_addr get_pending
stranger-Returns_example = stranger-Returns toys empty_server remote (replicate 20 22) refl refl
