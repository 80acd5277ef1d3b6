-- ===== src/Netcode/Handshake/Answering.antt =====
-- What a server answers to a client that connects (renetcode/src/server.rs).
use renet.Base.{
  ℕ, ◌<◌, ◌≤◌, ◌≡◌, refl, ap, ◌∙◌, true, false, Option, none, some, List, ◌&&◌, not, ==_refl, leb,
  ltb, length, arith,
}
use renet.Base.Outcome.{returns, ◌>>=◌, ok}
use renet.Base.Word.{add_u64}
use renet.Packet.{Bytes}
use renet.Netcode.Limits.{version_info, max_pending_clients, as_secs}
use renet.Netcode.Error.{NetcodeError}
use renet.Netcode.Error
use renet.Netcode.Crypto.{Ciphers}
use renet.Netcode.Address.{SocketAddr}
use renet.Netcode.Token.{PrivateConnectToken}
use renet.Netcode.Token.Generate
use renet.Netcode.Packet.{Packet}
use renet.Netcode.Packet.Decode.{Decoded, decode}
use renet.Netcode.Packet.Challenge.{generate_challenge}
use renet.Netcode.Server.{Connection, ConnectTokenEntry, NetcodeServer, packet_to_send}
use renet.Netcode.Server.Entries.{
  Search, look_all, start, add_or_compare, find_or_add_connect_token_entry,
}
use renet.Netcode.Server.Lookup.{
  find_client_by_id, find_client_mut_by_addr, connected_clients, get_pending, put_pending,
}
use renet.Netcode.Server.Request.{
  Reply, encode_with, insert_pending, challenge_encoded, send_challenge, in_host_list, entered,
  entry_of, request_with, request_decoded, handle_connection_request, fresh_connection, touched,
}
use renet.Netcode.Server.Process.{
  new_decoded, process_new, process_packet_internal, or_nothing, process_packet,
}

-- The server admits the client: it knows neither its id nor its address, the token is good, its
-- host list has the server, it was not used from elsewhere, and there is room.
pub record Admits (c : Ciphers) (server : NetcodeServer) (addr : SocketAddr) (expire_timestamp : ℕ)
    (xnonce private_data : Bytes) (token : PrivateConnectToken) : Type 0 where
  pub decoded :
      Generate.decode c private_data server.protocol_id expire_timestamp xnonce server.connect_key
      ≡ returns (ok token)
  pub early : as_secs server.current_time < expire_timestamp
  pub listed :
      (server.secure && not (in_host_list token.server_addresses server.public_addresses)) ≡ false
  pub new_id : find_client_by_id server.clients token.client_id ≡ none
  pub new_addr : find_client_mut_by_addr server.clients addr ≡ none
  pub not_pending : get_pending server.pending_clients addr ≡ none
  pub few_pending : length server.pending_clients < max_pending_clients
  pub added : (find_or_add_connect_token_entry server (entry_of server addr private_data)).1 ≡ true
  pub places : connected_clients server.clients < server.max_clients

entry_kept :
    (server : NetcodeServer) (e : ConnectTokenEntry) (s : Search) (o : Option ConnectTokenEntry)
    → (add_or_compare server e s o).1 ≡ true
    → (entries : List (Option ConnectTokenEntry)) × (add_or_compare server e s o
        ≡ (record server { connect_token_entries = entries }, true))
entry_kept server e s none h = (_, refl)
entry_kept server e s (some x) h = (server.connect_token_entries, ap (λ b. (server, b)) h)

-- The server after it challenged the client: the token's entry, two sequences and the pending
-- client have changed.
abbrev pub challenging :
    NetcodeServer
    → List (Option ConnectTokenEntry)
    → SocketAddr
    → ℕ
    → PrivateConnectToken
    → NetcodeServer
challenging server entries addr expire_timestamp token = record server {
  connect_token_entries = entries;
  challenge_sequence = add_u64 server.challenge_sequence 1;
  global_sequence = add_u64 server.global_sequence 1;
  pending_clients =
      put_pending server.pending_clients addr (fresh_connection server addr expire_timestamp token);
}

abbrev pended :
    NetcodeServer
    → List (Option ConnectTokenEntry)
    → SocketAddr
    → ℕ
    → PrivateConnectToken
    → Bytes
    → Option Connection
    → Reply
pended server entries addr expire_timestamp token bytes found = (
  record server {
    connect_token_entries = entries;
    challenge_sequence = add_u64 server.challenge_sequence 1;
    global_sequence = add_u64 server.global_sequence 1;
    pending_clients =
        put_pending server.pending_clients addr
          (touched server found (fresh_connection server addr expire_timestamp token));
  },
  ok (packet_to_send addr bytes),
)

module _ (c : Ciphers) (server : NetcodeServer) (addr : SocketAddr) (expire_timestamp : ℕ)
    (xnonce private_data : Bytes) (token : PrivateConnectToken)
    (admits : Admits c server addr expire_timestamp xnonce private_data token) where
  request-entered :
      request_with c server addr expire_timestamp private_data token
      ≡ entered c addr expire_timestamp token
          (find_or_add_connect_token_entry server (entry_of server addr private_data))
  unfolding request_with
  request-entered =
      let full : leb max_pending_clients (length server.pending_clients) ≡ false =
        ground (arith, admits.few_pending) in
      rw (admits.listed, admits.new_id, admits.new_addr, admits.not_pending, full) refl

  -- Both packets of the answer were encoded.
  module _ (challenge : Packet) (b1 b2 : Bytes)
      (made : generate_challenge c token.client_id token.user_data
          (add_u64 server.challenge_sequence 1)
          server.challenge_key
        ≡ ok challenge)
      (encoded : encode_with c server challenge server.global_sequence token.server_to_client_key
        ≡ ok b2) where
    request-challenged :
        (entries : List (Option ConnectTokenEntry)) × (request_with c server addr expire_timestamp
            private_data token
          ≡ (challenging server entries addr expire_timestamp token, ok (packet_to_send addr b2)))
    unfolding find_or_add_connect_token_entry send_challenge insert_pending
    request-challenged =
        let e = entry_of server addr private_data in
        let s = look_all e 0 server.connect_token_entries start in
        let (entries, kept) = entry_kept server e s s.matching_entry admits.added in
        let room : leb server.max_clients (connected_clients server.clients) ≡ false =
          ground (arith, admits.places) in
        (
          entries,
          request-entered
              ∙ ap (entered c addr expire_timestamp token) kept
              ∙ rw room (
                  let server' = record server {
                    connect_token_entries = entries;
                    challenge_sequence = add_u64 server.challenge_sequence 1;
                  } in
                  ap
                    (λ r. challenge_encoded server' addr expire_timestamp token (
                      Error.◌>>=◌ r (λ packet.
                        encode_with c server' packet server'.global_sequence
                          token.server_to_client_key)))
                    made
                  ∙ ap (challenge_encoded server' addr expire_timestamp token) encoded
                  ∙ ap (pended server entries addr expire_timestamp token b2) admits.not_pending),
        )

    -- The request itself, as a packet that arrived.
    pub request_answered :
        (bytes : Bytes) (d : Decoded)
        → 18 ≤ length bytes
        → decode c bytes server.protocol_id none none ≡ returns d
        → d.result
          ≡ ok (
            0,
            Packet.connection_request version_info server.protocol_id expire_timestamp xnonce
                private_data,
          )
        → (entries : List (Option ConnectTokenEntry)) × (process_packet c server addr bytes
            ≡ returns
                (challenging server entries addr expire_timestamp token, packet_to_send addr b2))
    unfolding process_packet process_packet_internal process_new handle_connection_request
    request_answered bytes d long arrives request =
        let (entries, answered) = request-challenged in
        let short : ltb (length bytes) 18 ≡ false = ground (arith, long) in
        let late : leb expire_timestamp (as_secs server.current_time) ≡ false =
          ground (arith, admits.early) in
        (
          entries,
          rw (short, admits.new_addr, admits.not_pending)
              (ap
                  (λ d.
                    (d >>= λ d. new_decoded c server addr d.result) >>= λ r. returns (or_nothing r))
                  arrives
                ∙ ap (λ r. new_decoded c server addr r >>= λ r. returns (or_nothing r)) request
                ∙ rw (==_refl server.protocol_id, late)
                    (ap
                        (λ x.
                          (x >>= λ r.
                          returns (request_decoded c server addr expire_timestamp private_data r))
                          >>= λ r. returns (or_nothing r))
                        admits.decoded
                      ∙ ap (λ r. returns (or_nothing r)) answered)),
        )
