-- ===== src/Netcode/Server/Consistent/Clients.antt =====
-- Packets of connected clients keep the clients of renetcode/src/server.rs consistent.
use renet.Base.{ℕ, ◌≡◌, refl, ◌∙◌, Option, none, some, set}
use renet.Base.Outcome.{WhenReturns, WhenReturns-all, Result, ok, err}
use renet.Packet.{Bytes}
use renet.Netcode.Error.{NetcodeError}
use renet.Netcode.Crypto.{Ciphers}
use renet.Netcode.Address.{SocketAddr}
use renet.Netcode.Packet.{Packet}
use renet.Netcode.Packet.Decode.{decode}
use renet.Netcode.Server.{Connection, ConnectionState, NetcodeServer}
use renet.Netcode.Server.Process.{
  connected_packet, packet_in_state, protected, client_decoded, process_client,
}
use renet.Netcode.Server.Consistent.{
  Holds, IsConsistent, IsPlaceable, set-IsDistinct, set-IsConnected, same-IsPlaceable,
}
use renet.Netcode.Server.Consistent.Requests.{Keeps}

-- A write into a slot.
pub set-IsConsistent :
    (server : NetcodeServer) (slot : ℕ) (v : Option Connection)
    → IsConsistent server
    → IsPlaceable server.clients slot v
    → IsConsistent (record server { clients = set server.clients slot v })
set-IsConsistent server slot v (d, c, p, l) q =
    (set-IsDistinct server.clients slot v d q, set-IsConnected server.clients slot v c q, p, l)

module _ (server : NetcodeServer) (addr : SocketAddr) (slot : ℕ) (client : Connection)
    (h : IsConsistent server) (held : Holds server.clients slot client) where
  -- The client in its slot, changed but for its address and its state.
  pub changed-IsConsistent :
      (client' : Connection)
      → client'.addr ≡ client.addr
      → client'.state ≡ client.state
      → IsConsistent (record server { clients = set server.clients slot (some client') })
  changed-IsConsistent client' a s =
      set-IsConsistent server slot (some client') h (
        same-IsPlaceable server.clients slot client client' (h.0) held a (s ∙ h.1 slot client held))

  connected_packet-Keeps :
      (client' : Connection) (p : Packet)
      → client'.addr ≡ client.addr
      → client'.state ≡ client.state
      → Keeps (connected_packet server addr slot client' p)
  unfolding connected_packet
  connected_packet-Keeps client' Packet.disconnect a s = set-IsConsistent server slot none h tt
  connected_packet-Keeps client' (Packet.payload p) a s = changed-IsConsistent _ a s
  connected_packet-Keeps client' (Packet.keep_alive _ _) a s = changed-IsConsistent _ a s
  connected_packet-Keeps client' Packet.connection_denied a s = changed-IsConsistent _ a s
  connected_packet-Keeps client' (Packet.challenge _ _) a s = changed-IsConsistent _ a s
  connected_packet-Keeps client' (Packet.response _ _) a s = changed-IsConsistent _ a s
  connected_packet-Keeps client' (Packet.connection_request _ _ _ _ _) a s =
      changed-IsConsistent _ a s

  packet_in_state-Keeps :
      (t : ConnectionState) (client' : Connection) (p : Packet)
      → client'.addr ≡ client.addr
      → client'.state ≡ client.state
      → Keeps (packet_in_state t server addr slot client' p)
  packet_in_state-Keeps ConnectionState.connected client' p a s =
      connected_packet-Keeps client' p a s
  packet_in_state-Keeps ConnectionState.disconnected client' p a s = changed-IsConsistent _ a s
  packet_in_state-Keeps ConnectionState.pending_response client' p a s = changed-IsConsistent _ a s

  client_decoded-Keeps :
      (client' : Connection) (r : Result (ℕ × Packet) NetcodeError)
      → client'.addr ≡ client.addr
      → client'.state ≡ client.state
      → Keeps (client_decoded server addr slot client' r)
  client_decoded-Keeps client' (err e) a s = changed-IsConsistent _ a s
  client_decoded-Keeps client' (ok (_, packet)) a s = packet_in_state-Keeps _ _ packet a s

  pub process_client-Keeps :
      (c : Ciphers) (buffer : Bytes)
      → WhenReturns Keeps (process_client c server addr buffer slot client)
  unfolding process_client
  process_client-Keeps c buffer =
      WhenReturns-all Keeps (decode c buffer _ _ _) _
        (λ d. client_decoded-Keeps (protected client d) d.result refl refl)
