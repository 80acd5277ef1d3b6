-- ===== src/Netcode/Server/Consistent/Runs.antt =====
-- Sequences of calls of a server of renetcode/src/server.rs.
use renet.Base.{
  ℕ, zero, suc, ◌≢◌, none, some, List, [], ◌∷◌, replicate, get_elem?, ltb, Bool-cases, inl, inr,
  arith,
}
use renet.Base.Outcome.{Outcome, returns, ◌>>=◌, WhenReturns, WhenReturns-bind}
use renet.Packet.{Bytes}
use renet.Netcode.Limits.{max_clients_allowed}
use renet.Netcode.Crypto.{Ciphers}
use renet.Netcode.Address.{SocketAddr}
use renet.Netcode.Server.{
  Connection, NetcodeServer, ServerConfig, ServerResult, new, set_max_clients,
}
use renet.Netcode.Server.Process.{process_packet}
use renet.Netcode.Server.Update.{generate_payload_packet, update, update_client, disconnect}
use renet.Netcode.Server.Consistent.{IsConsistent}
use renet.Netcode.Server.Consistent.Packets.{process_packet-IsConsistent}
use renet.Netcode.Server.Consistent.Updates.{
  update-IsConsistent, generate_payload_packet-IsConsistent, update_client-IsConsistent,
  disconnect-IsConsistent,
}

-- A call of the server.
pub data Call : Type 0 where
  receive : (addr : SocketAddr) (buffer : Bytes) → Call
  send : (client_id : ℕ) (payload : Bytes) → Call
  tick : (duration : ℕ) → Call
  tick_client : (client_id : ℕ) → Call
  kick : (client_id : ℕ) → Call
  limit : (max_clients : ℕ) → Call

-- The server after the call.
unfoldable pub call : Ciphers → NetcodeServer → Call → Outcome NetcodeServer
call c server (receive addr buffer) = process_packet c server addr buffer >>= λ x. returns (x.0)
call c server (send client_id payload) =
    returns ((generate_payload_packet c server client_id payload).0)
call c server (tick duration) = returns (update server duration)
call c server (tick_client client_id) = returns ((update_client c server client_id).0)
call c server (kick client_id) = returns ((disconnect c server client_id).0)
call c server (limit max_clients) = returns (set_max_clients server max_clients)

unfoldable pub run : Ciphers → NetcodeServer → List Call → Outcome NetcodeServer
run c server [] = returns server
run c server (k ∷ ks) = call c server k >>= λ server. run c server ks

-- A server that is made, and then called.
unfoldable pub serve : Ciphers → Bytes → ServerConfig → List Call → Outcome NetcodeServer
serve c challenge_key config ks = new challenge_key config >>= λ server. run c server ks

call-IsConsistent :
    (c : Ciphers) (server : NetcodeServer) (k : Call)
    → IsConsistent server
    → WhenReturns IsConsistent (call c server k)
unfolding call set_max_clients
call-IsConsistent c server (receive addr buffer) h =
    WhenReturns-bind (λ (x : NetcodeServer × ServerResult). IsConsistent x.0) IsConsistent
      (process_packet c server addr buffer) (λ x. returns (x.0))
      (process_packet-IsConsistent c server addr buffer h) (λ x k. k)
call-IsConsistent c server (send client_id payload) h =
    generate_payload_packet-IsConsistent c server client_id payload h
call-IsConsistent c server (tick duration) h = update-IsConsistent server duration h
call-IsConsistent c server (tick_client client_id) h =
    update_client-IsConsistent c server client_id h
call-IsConsistent c server (kick client_id) h = disconnect-IsConsistent c server client_id h
call-IsConsistent c server (limit max_clients) h = h

run-IsConsistent :
    (c : Ciphers) (server : NetcodeServer) (ks : List Call)
    → IsConsistent server
    → WhenReturns IsConsistent (run c server ks)
unfolding run
run-IsConsistent c server [] h = h
run-IsConsistent c server (k ∷ ks) h =
    WhenReturns-bind IsConsistent IsConsistent (call c server k) (λ server. run c server ks)
      (call-IsConsistent c server k h) (λ server' h'. run-IsConsistent c server' ks h')

no_client : (n i : ℕ) (c : Connection) → get_elem? (replicate n none) i ≢ some (some c)
no_client zero i c = λ e. cc e
no_client (suc n) zero c = λ e. cc e
no_client (suc n) (suc i) c = no_client n i c

new-IsConsistent :
    (challenge_key : Bytes) (config : ServerConfig)
    → WhenReturns IsConsistent (new challenge_key config)
unfolding new
new-IsConsistent challenge_key config =
    elim (Bool-cases (ltb max_clients_allowed config.max_clients)) [
      | inl many ↦ rw many tt
      | inr few ↦ rw few (
        λ i j c d h. absurd (no_client config.max_clients i c h),
        λ i c h. absurd (no_client config.max_clients i c h),
        tt,
        omega arith,
      )
    ]

-- In every server that is made and then called, if the calls return: no two clients are connected
-- from one address, every client in a slot is connected, every pending client waits for a response
-- under its own address, and there are at most 4096 pending clients.
pub serve-IsConsistent :
    (c : Ciphers) (challenge_key : Bytes) (config : ServerConfig) (ks : List Call)
    → WhenReturns IsConsistent (serve c challenge_key config ks)
unfolding serve
serve-IsConsistent c challenge_key config ks =
    WhenReturns-bind IsConsistent IsConsistent (new challenge_key config)
      (λ server. run c server ks) (new-IsConsistent challenge_key config)
      (λ server h. run-IsConsistent c server ks h)
