-- ===== src/Netcode/Server/Consistent/Requests.antt =====
-- Connection requests keep the clients of renetcode/src/server.rs consistent.
use renet.Base.{
  ℕ, suc, ◌≤◌, ◌≡◌, refl, Bool, true, false, Option, none, some, length, leb, ◌==◌, ◌&&◌, ◌||◌, not,
  arith, Bool-cases, Option-cases, inl, inr,
}
use renet.Base.Outcome.{WhenReturns, WhenReturns-all, Result, ok, err}
use renet.Packet.{Bytes}
use renet.Netcode.Limits.{version_info, max_pending_clients, as_secs}
use renet.Netcode.Error.{NetcodeError, TokenGenerationError}
use renet.Netcode.Crypto.{Ciphers}
use renet.Netcode.Address.{SocketAddr, same_bytes}
use renet.Netcode.Token.{PrivateConnectToken}
use renet.Netcode.Token.Generate
use renet.Netcode.Server.{Connection, ConnectTokenEntry, NetcodeServer, Pending}
use renet.Netcode.Server.Entries.{
  Search, look_all, start, add_or_compare, find_or_add_connect_token_entry,
}
use renet.Netcode.Server.Lookup.{
  find_client_by_id, find_client_mut_by_addr, connected_clients, get_pending, remove_pending,
  put_pending, is_some,
}
use renet.Netcode.Server.Lookup.Waiting.{
  get_pending-All, put_pending-All, remove_pending-All, length-put_pending-some, length-put_pending,
  length-remove_pending,
}
use renet.Netcode.Server.Request.{
  Reply, send_globally, deny, fresh_connection, touched, insert_pending, challenge_encoded,
  send_challenge, in_host_list, entered, entry_of, request_with, request_decoded,
  handle_connection_request,
}
use renet.Netcode.Server.Consistent.{IsConsistent, IsPending}

-- The reply leaves the server consistent.
abbrev pub Keeps : Reply → Type 0
Keeps r = IsConsistent r.0

-- There is room for one more pending client, unless the address has one.
abbrev HasRoom : Pending → SocketAddr → Type 0
HasRoom pending addr =
    (get_pending pending addr ≡ none) → suc (length pending) ≤ max_pending_clients

pub send_globally-Keeps :
    (server : NetcodeServer) (addr : SocketAddr) (r : Result Bytes NetcodeError)
    → IsConsistent server
    → Keeps (send_globally server addr r)
send_globally-Keeps server addr (err e) h = h
send_globally-Keeps server addr (ok payload) h = h

-- Without the pending client of the address.
pub removed-IsConsistent :
    (server : NetcodeServer) (addr : SocketAddr)
    → IsConsistent server
    → IsConsistent (record server { pending_clients = remove_pending server.pending_clients addr })
removed-IsConsistent server addr (d, c, p, l) = (
  d,
  c,
  remove_pending-All IsPending server.pending_clients addr p,
  omega (arith, l, length-remove_pending server.pending_clients addr),
)

deny-Keeps :
    (c : Ciphers) (server : NetcodeServer) (addr : SocketAddr) (token : PrivateConnectToken)
    → IsConsistent server
    → Keeps (deny c server addr token)
unfolding deny
deny-Keeps c server addr token h =
    send_globally-Keeps
      (record server { pending_clients = remove_pending server.pending_clients addr }) addr _
      (removed-IsConsistent server addr h)

touched-IsPending :
    (server : NetcodeServer) (addr : SocketAddr) (o : Option Connection) (c : Connection)
    → ((d : Connection) → o ≡ some d → IsPending (addr, d))
    → IsPending (addr, c)
    → IsPending (addr, touched server o c)
touched-IsPending server addr none c h p = p
touched-IsPending server addr (some d) c h p = h d refl

length-inserted :
    (pending : Pending) (addr : SocketAddr) (v : Connection)
    → HasRoom pending addr
    → length pending ≤ max_pending_clients
    → length (put_pending pending addr v) ≤ max_pending_clients
length-inserted pending addr v room h = elim (Option-cases (get_pending pending addr)) [
  | inl absent ↦ omega (arith, room absent, length-put_pending pending addr v)
  | inr (c, there) ↦ omega (arith, h, length-put_pending-some pending addr c v there)
]

insert_pending-IsConsistent :
    (server : NetcodeServer) (addr : SocketAddr) (expire_timestamp : ℕ)
    (token : PrivateConnectToken)
    → HasRoom server.pending_clients addr
    → IsConsistent server
    → IsConsistent (insert_pending server addr expire_timestamp token)
unfolding insert_pending
insert_pending-IsConsistent server addr expire_timestamp token room (d, c, p, l) =
    let fresh = fresh_connection server addr expire_timestamp token in
    let pending = touched server (get_pending server.pending_clients addr) fresh in
    (
      d,
      c,
      put_pending-All IsPending server.pending_clients addr pending p (
          touched-IsPending server addr _ fresh
            (λ d e. get_pending-All IsPending server.pending_clients addr d p e) (refl, refl)),
      length-inserted server.pending_clients addr pending room l,
    )

challenge_encoded-Keeps :
    (server : NetcodeServer) (addr : SocketAddr) (expire_timestamp : ℕ)
    (token : PrivateConnectToken) (r : Result Bytes NetcodeError)
    → HasRoom server.pending_clients addr
    → IsConsistent server
    → Keeps (challenge_encoded server addr expire_timestamp token r)
challenge_encoded-Keeps server addr t token (err e) room h = h
challenge_encoded-Keeps server addr t token (ok payload) room h =
    insert_pending-IsConsistent _ addr t token room h

entered-Keeps :
    (c : Ciphers) (addr : SocketAddr) (expire_timestamp : ℕ) (token : PrivateConnectToken)
    (server : NetcodeServer) (added : Bool)
    → HasRoom server.pending_clients addr
    → IsConsistent server
    → Keeps (entered c addr expire_timestamp token (server, added))
unfolding send_challenge
entered-Keeps c addr t token server false room h = h
entered-Keeps c addr t token server true room h =
    elim (Bool-cases (leb server.max_clients (connected_clients server.clients))) [
      | inl full ↦ rw full (deny-Keeps c server addr token h)
      | inr free ↦ rw free (challenge_encoded-Keeps _ addr t token _ room h)
    ]

added-Keeps :
    (c : Ciphers) (addr : SocketAddr) (expire_timestamp : ℕ) (token : PrivateConnectToken)
    (server : NetcodeServer) (e : ConnectTokenEntry) (s : Search) (o : Option ConnectTokenEntry)
    → HasRoom server.pending_clients addr
    → IsConsistent server
    → Keeps (entered c addr expire_timestamp token (add_or_compare server e s o))
added-Keeps c addr t token server e s none room h = entered-Keeps c addr t token _ true room h
added-Keeps c addr t token server e s (some x) room h = entered-Keeps c addr t token server _ room h

room_of :
    (pending : Pending) (addr : SocketAddr)
    → (not (is_some (get_pending pending addr)) && leb max_pending_clients (length pending)) ≡ false
    → HasRoom pending addr
room_of pending addr e absent = ground (arith, rw absent at e)

request_with-Keeps :
    (c : Ciphers) (server : NetcodeServer) (addr : SocketAddr) (expire_timestamp : ℕ)
    (private_data : Bytes) (token : PrivateConnectToken)
    → IsConsistent server
    → Keeps (request_with c server addr expire_timestamp private_data token)
unfolding request_with find_or_add_connect_token_entry
request_with-Keeps c server addr t private_data token h =
    let e = entry_of server addr private_data in
    let s = look_all e 0 server.connect_token_entries start in
    let strangers =
      server.secure && not (in_host_list token.server_addresses server.public_addresses) in
    let known =
      is_some (find_client_by_id server.clients token.client_id)
      || is_some (find_client_mut_by_addr server.clients addr) in
    let crowded =
      not (is_some (get_pending server.pending_clients addr))
      && leb max_pending_clients (length server.pending_clients) in
    elim (Bool-cases strangers) [
      | inl yes_strangers ↦ rw yes_strangers h
      | inr listed ↦ rw listed (elim (Bool-cases known) [
        | inl connected ↦ rw connected h
        | inr unknown ↦ rw unknown (elim (Bool-cases crowded) [
          | inl full ↦ rw full h
          | inr room ↦ rw room (
              added-Keeps c addr t token server e s s.matching_entry
                (room_of server.pending_clients addr room) h)
        ])
      ])
    ]

request_decoded-Keeps :
    (c : Ciphers) (server : NetcodeServer) (addr : SocketAddr) (expire_timestamp : ℕ)
    (private_data : Bytes) (r : Result PrivateConnectToken TokenGenerationError)
    → IsConsistent server
    → Keeps (request_decoded c server addr expire_timestamp private_data r)
request_decoded-Keeps c server addr t private_data (err e) h = h
request_decoded-Keeps c server addr t private_data (ok token) h =
    request_with-Keeps c server addr t private_data token h

pub handle_connection_request-Keeps :
    (c : Ciphers) (server : NetcodeServer) (addr : SocketAddr) (version : Bytes)
    (protocol_id expire_timestamp : ℕ) (xnonce private_data : Bytes)
    → IsConsistent server
    → WhenReturns Keeps (
        handle_connection_request c server addr version protocol_id expire_timestamp xnonce
          private_data)
unfolding handle_connection_request
handle_connection_request-Keeps c server addr version protocol_id t xnonce private_data h =
    elim (Bool-cases (same_bytes version version_info)) [
      | inr wrong ↦ rw wrong h
      | inl right ↦ rw right (elim (Bool-cases (protocol_id == server.protocol_id)) [
        | inr other ↦ rw other h
        | inl same ↦ rw same (elim (Bool-cases (leb t (as_secs server.current_time))) [
          | inl late ↦ rw late h
          | inr early ↦ rw early (
              WhenReturns-all Keeps
                (Generate.decode c private_data server.protocol_id t xnonce server.connect_key) _
                (λ r. request_decoded-Keeps c server addr t private_data r h))
        ])
      ])
    ]
