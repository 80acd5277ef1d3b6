-- ===== src/Netcode/Server/Strangers.antt =====
-- Packets from addresses that a server of renetcode/src/server.rs does not know.
use renet.Base.{
  ℕ, ◌+◌, ◌≡◌, refl, sym, subst, true, false, Option, none, some, length, length-take, drop, leb,
  ltb, ◌==◌, arith, Bool-cases, inl, inr,
}
use renet.Base.Outcome.{Outcome, returns, Returns, Returns-bind, Result, ok, err}
use renet.Packet.{Bytes}
use renet.Netcode.Limits.{
  version_info, connect_token_private_bytes, xnonce_bytes, mac_bytes, as_secs,
}
use renet.Netcode.Error.{NetcodeError, IoError}
use renet.Netcode.Io.{Read, give, read_bytes, read_u64}
use renet.Netcode.Io
use renet.Netcode.Crypto.{Ciphers, dencrypted_in_place_xnonce, decrypt_with}
use renet.Netcode.Address.{SocketAddr, same_bytes}
use renet.Netcode.PacketType.{PacketType}
use renet.Netcode.Token.Generate
use renet.Netcode.Packet.{Packet}
use renet.Netcode.Packet.Read.{read, read_connection_request, value_of}
use renet.Netcode.Packet.Decode.{Decoded, decode, decode_as, reads_as}
use renet.Netcode.Server.{NetcodeServer}
use renet.Netcode.Server.Lookup.{find_client_mut_by_addr, get_pending}
use renet.Netcode.Server.Request.{handle_connection_request}
use renet.Netcode.Server.Process.{
  new_decoded, process_new, process_from, process_packet_internal, or_nothing, process_packet,
}

-- What a read gives, if it succeeds, has the property.
abbrev WhenOk : {A E : Type 0} → (A → Type 0) → Result A E → Type 0
WhenOk P (ok a) = P a
WhenOk P (err e) = Unit

WhenOk-bind :
    {A B : Type 0} (P : A × Bytes → Type 0) (Q : B × Bytes → Type 0) (r : Read A) (f : A → Read B)
    (src : Bytes)
    → WhenOk P (r src)
    → ((a : A) (rest : Bytes) → P (a, rest) → WhenOk Q (f a rest))
    → WhenOk Q ((Io.◌>>=◌ r f) src)
WhenOk-bind {A} {B} P Q r f src p k = go (r src) p
  where
    go :
        (x : Result (A × Bytes) IoError)
        → WhenOk P x
        → WhenOk Q (elim x [ err e ↦ err e | ok x ↦ f x.0 x.1 ])
    go (ok (a, rest)) p = k a rest p
    go (err e) p = tt

WhenOk-any : {A : Type 0} (r : Result A IoError) → WhenOk (λ (_ : A). Unit {0}) r
WhenOk-any (ok a) = tt
WhenOk-any (err e) = tt

read_bytes-size :
    (n : ℕ) (src : Bytes) → WhenOk (λ (x : Bytes × Bytes). length x.0 ≡ n) (read_bytes n src)
read_bytes-size n src = elim (Bool-cases (leb n (length src))) [
  | inl there ↦ rw (there, read_bytes) (ground (arith, length-take n src))
  | inr short ↦ rw (short, read_bytes) tt
]

-- A connection request with private data of its size.
abbrev IsRequest : Packet → Type 0
IsRequest (Packet.connection_request v i t x d) = length d ≡ connect_token_private_bytes
IsRequest _ = true ≡ false

read_connection_request-length :
    (src : Bytes) → WhenOk (λ (x : Packet × Bytes). IsRequest x.0) (read_connection_request src)
unfolding read_connection_request
read_connection_request-length src =
    let P = λ (x : Packet × Bytes). IsRequest x.0 in
    WhenOk-bind (λ _. Unit {0}) P (read_bytes 13) _ src (WhenOk-any _)
      (λ v src _.
        WhenOk-bind (λ _. Unit {0}) P read_u64 _ src (WhenOk-any _)
          (λ i src _.
            WhenOk-bind (λ _. Unit {0}) P read_u64 _ src (WhenOk-any _)
              (λ t src _.
                WhenOk-bind (λ _. Unit {0}) P (read_bytes xnonce_bytes) _ src (WhenOk-any _)
                  (λ x src _.
                    WhenOk-bind (λ (y : Bytes × Bytes). length y.0 ≡ connect_token_private_bytes) P
                      (read_bytes connect_token_private_bytes) _ src
                      (read_bytes-size connect_token_private_bytes src) (λ d rest s. s)))))

-- Without a key, the decoding returns, and gives nothing but connection requests.
abbrev GivesRequest : Decoded → Type 0
GivesRequest d = WhenOk (λ (x : ℕ × Packet). IsRequest (x.1)) d.result

value_of-IsRequest :
    (r : Result (Packet × Bytes) IoError)
    → WhenOk (λ (x : Packet × Bytes). IsRequest x.0) r
    → WhenOk (λ (x : ℕ × Packet). IsRequest x.1) (reads_as 0 (value_of r))
value_of-IsRequest (ok (p, rest)) h = h
value_of-IsRequest (err e) h = tt

decode_as-GivesRequest :
    (c : Ciphers) (buffer : Bytes) (protocol_id : ℕ) (r : Result PacketType NetcodeError)
    → Returns GivesRequest (decode_as c buffer protocol_id none none r)
unfolding read
decode_as-GivesRequest c buffer protocol_id (err e) = (_, refl, tt)
decode_as-GivesRequest c buffer protocol_id (ok PacketType.connection_request) = (
  _,
  refl,
  value_of-IsRequest (read_connection_request (drop 1 buffer))
      (read_connection_request-length (drop 1 buffer)),
)
decode_as-GivesRequest c buffer protocol_id (ok PacketType.connection_denied) = (_, refl, tt)
decode_as-GivesRequest c buffer protocol_id (ok PacketType.challenge) = (_, refl, tt)
decode_as-GivesRequest c buffer protocol_id (ok PacketType.response) = (_, refl, tt)
decode_as-GivesRequest c buffer protocol_id (ok PacketType.keep_alive) = (_, refl, tt)
decode_as-GivesRequest c buffer protocol_id (ok PacketType.payload) = (_, refl, tt)
decode_as-GivesRequest c buffer protocol_id (ok PacketType.disconnect) = (_, refl, tt)

decode-GivesRequest :
    (c : Ciphers) (buffer : Bytes) (protocol_id : ℕ)
    → Returns GivesRequest (decode c buffer protocol_id none none)
unfolding decode
decode-GivesRequest c buffer protocol_id = elim (Bool-cases (ltb (length buffer) (2 + mac_bytes))) [
  | inl small ↦ rw small (_, refl, tt)
  | inr enough ↦ rw enough (decode_as-GivesRequest c buffer protocol_id _)
]

abbrev Total : {A : Type 0} → Outcome A → Type 0
Total o = Returns (λ _. Unit {0}) o

decode_from-Total : (o : Option Bytes) → Total (Generate.decode_from (returns o))
decode_from-Total none = (_, refl, tt)
decode_from-Total (some bs) = (_, refl, tt)

token-Total :
    (c : Ciphers) (private_data : Bytes) (protocol_id t : ℕ) (xnonce key : Bytes)
    → length private_data ≡ connect_token_private_bytes
    → Total (Generate.decode c private_data protocol_id t xnonce key)
unfolding Generate.decode dencrypted_in_place_xnonce decrypt_with
token-Total c private_data protocol_id t xnonce key size =
    let long : ltb (length private_data) mac_bytes ≡ false = ground (arith, size) in
    rw long (decode_from-Total _)

request-Total :
    (c : Ciphers) (server : NetcodeServer) (addr : SocketAddr) (version : Bytes) (protocol_id t : ℕ)
    (xnonce private_data : Bytes)
    → length private_data ≡ connect_token_private_bytes
    → Total (handle_connection_request c server addr version protocol_id t xnonce private_data)
unfolding handle_connection_request
request-Total c server addr version protocol_id t xnonce private_data size =
    elim (Bool-cases (same_bytes version version_info)) [
      | inr wrong ↦ rw wrong (_, refl, tt)
      | inl right ↦ rw right (elim (Bool-cases (protocol_id == server.protocol_id)) [
        | inr other ↦ rw other (_, refl, tt)
        | inl same ↦ rw same (elim (Bool-cases (leb t (as_secs server.current_time))) [
          | inl late ↦ rw late (_, refl, tt)
          | inr early ↦ rw early (
              Returns-bind (λ _. Unit {0}) (λ _. Unit {0})
                (Generate.decode c private_data server.protocol_id t xnonce server.connect_key) _
                (token-Total c private_data server.protocol_id t xnonce server.connect_key size)
                (λ r _. (_, refl, tt)))
        ])
      ])
    ]

new_decoded-Total :
    (c : Ciphers) (server : NetcodeServer) (addr : SocketAddr)
    (r : Result (ℕ × Packet) NetcodeError)
    → WhenOk (λ (x : ℕ × Packet). IsRequest x.1) r
    → Total (new_decoded c server addr r)
new_decoded-Total c server addr (err e) h = (_, refl, tt)
new_decoded-Total c server addr (ok (_, Packet.connection_request v i t x d)) h =
    request-Total c server addr v i t x d h
new_decoded-Total c server addr (ok (_, Packet.connection_denied)) h = absurd (cc h)
new_decoded-Total c server addr (ok (_, Packet.challenge _ _)) h = absurd (cc h)
new_decoded-Total c server addr (ok (_, Packet.response _ _)) h = absurd (cc h)
new_decoded-Total c server addr (ok (_, Packet.keep_alive _ _)) h = absurd (cc h)
new_decoded-Total c server addr (ok (_, Packet.payload _)) h = absurd (cc h)
new_decoded-Total c server addr (ok (_, Packet.disconnect)) h = absurd (cc h)

internal-Total :
    (c : Ciphers) (server : NetcodeServer) (addr : SocketAddr) (buffer : Bytes)
    → find_client_mut_by_addr server.clients addr ≡ none
    → get_pending server.pending_clients addr ≡ none
    → Total (process_packet_internal c server addr buffer)
unfolding process_packet_internal process_new
internal-Total c server addr buffer unknown absent =
    elim (Bool-cases (ltb (length buffer) (2 + mac_bytes))) [
      | inl small ↦ rw small (_, refl, tt)
      | inr enough ↦
          let q : process_from c server addr buffer (find_client_mut_by_addr server.clients addr)
                (get_pending server.pending_clients addr)
              ≡ process_new c server addr buffer =
            cc (unknown, absent) in
          rw enough (
            subst Total (sym q) (
              Returns-bind GivesRequest (λ _. Unit {0})
                (decode c buffer server.protocol_id none none) _
                (decode-GivesRequest c buffer server.protocol_id)
                (λ d h. new_decoded-Total c server addr d.result h)))
    ]

-- Whatever packet arrives from an address that no client is connected from or pending at, the call
-- returns: in particular the `unreachable!` for packets other than connection requests is not
-- reached.
pub stranger-Returns :
    (c : Ciphers) (server : NetcodeServer) (addr : SocketAddr) (buffer : Bytes)
    → find_client_mut_by_addr server.clients addr ≡ none
    → get_pending server.pending_clients addr ≡ none
    → Returns (λ _. Unit {0}) (process_packet c server addr buffer)
unfolding process_packet
stranger-Returns c server addr buffer unknown absent =
    Returns-bind (λ _. Unit {0}) (λ _. Unit {0}) (process_packet_internal c server addr buffer)
      (λ r. returns (or_nothing r)) (internal-Total c server addr buffer unknown absent)
      (λ r _. (_, refl, tt))
