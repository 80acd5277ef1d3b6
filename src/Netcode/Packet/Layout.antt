-- ===== src/Netcode/Packet/Layout.antt =====
-- The bytes of a packet's fields, written and read (renetcode/src/packet.rs).
use renet.Base.{◌^◌, ◌<◌, ◌≡◌, refl, sym, ap, ◌∙◌, [], ◌++◌, append-nil, length}
use renet.Base.Outcome.{ok}
use renet.Packet.{Bytes}
use renet.Netcode.Limits.{xnonce_bytes, connect_token_private_bytes, challenge_token_bytes}
use renet.Netcode.Io.{to_le_bytes, Writer, write_all, Read, give, read_u32, read_u64, read_bytes}
use renet.Netcode.Io
use renet.Netcode.Io.Cursors.{
  Reads, Reads-bind, Reads-last, read_bytes-Reads, read_word-Reads, write_all-nothing, write_before,
}
use renet.Netcode.Packet.{
  Packet, packet_type, connection_request, connection_denied, challenge, response, keep_alive,
  payload, disconnect,
}
use renet.Netcode.Packet.Write.{write}
use renet.Netcode.Packet.Read.{
  read, value_of, read_connection_request, read_challenge, read_response, read_keep_alive,
}

-- The arrays have their sizes, and the numbers their widths.
abbrev pub HasSizes : Packet → Type 0
HasSizes (connection_request version protocol_id expire_timestamp xnonce private_data) =
    (length version ≡ 13)
    × (protocol_id < 2 ^ 64)
    × (expire_timestamp < 2 ^ 64)
    × (length xnonce ≡ xnonce_bytes)
    × (length private_data ≡ connect_token_private_bytes)
HasSizes (challenge token_sequence token_data) =
    (token_sequence < 2 ^ 64) × (length token_data ≡ challenge_token_bytes)
HasSizes (response token_sequence token_data) =
    (token_sequence < 2 ^ 64) × (length token_data ≡ challenge_token_bytes)
HasSizes (keep_alive client_index max_clients) = (client_index < 2 ^ 32) × (max_clients < 2 ^ 32)
HasSizes (payload p) = Unit
HasSizes connection_denied = Unit
HasSizes disconnect = Unit

abbrev pub body : Packet → Bytes
body (connection_request version protocol_id expire_timestamp xnonce private_data) =
    version
    ++ (to_le_bytes 8 protocol_id ++ (to_le_bytes 8 expire_timestamp ++ (xnonce ++ private_data)))
body (challenge token_sequence token_data) = to_le_bytes 8 token_sequence ++ token_data
body (response token_sequence token_data) = to_le_bytes 8 token_sequence ++ token_data
body (keep_alive client_index max_clients) = to_le_bytes 4 client_index ++ to_le_bytes 4 max_clients
body (payload p) = p
body connection_denied = []
body disconnect = []

pub write-body : (p : Packet) (w : Writer) → write p w ≡ write_all (body p) w
unfolding write
write-body (connection_request v i t x d) w =
    let times = to_le_bytes 8 t ++ (x ++ d) in
    write_before v (to_le_bytes 8 i ++ times) _ w (λ w.
      write_before (to_le_bytes 8 i) times _ w
        (λ w. write_before (to_le_bytes 8 t) (x ++ d) _ w (λ w. write_before x d _ w (λ w. refl))))
write-body (challenge s d) w = write_before (to_le_bytes 8 s) d _ w (λ w. refl)
write-body (response s d) w = write_before (to_le_bytes 8 s) d _ w (λ w. refl)
write-body (keep_alive i m) w = write_before (to_le_bytes 4 i) (to_le_bytes 4 m) _ w (λ w. refl)
write-body (payload p) w = refl
write-body connection_denied w = sym (write_all-nothing w)
write-body disconnect w = sym (write_all-nothing w)

whole : (r : Read Packet) (p : Packet) → Reads r (body p) p → value_of (r (body p)) ≡ ok p
whole r p h = ap value_of (ap r (sym (append-nil (body p))) ∙ h [])

read_tail :
    (token_data : Bytes) (make : Bytes → Packet)
    → length token_data ≡ challenge_token_bytes
    → Reads
        (Io.◌>>=◌ (read_bytes challenge_token_bytes) (λ d. give (make d)))
        token_data
        (make token_data)
read_tail d make h =
    Reads-last (read_bytes challenge_token_bytes) (λ d. give (make d)) d d (make d)
      (read_bytes-Reads challenge_token_bytes d h) (λ rest. refl)

pub read-body : (p : Packet) → HasSizes p → read (packet_type p) (body p) ≡ ok p
unfolding read read_connection_request read_challenge read_response read_keep_alive
read-body (connection_request v i t x d) (hv, hi, ht, hx, hd) =
    let times = to_le_bytes 8 t ++ (x ++ d) in
    whole read_connection_request (connection_request v i t x d) (
      Reads-bind (read_bytes 13) _ v (to_le_bytes 8 i ++ times) v _ (read_bytes-Reads 13 v hv) (
        Reads-bind read_u64 _ (to_le_bytes 8 i) times i _ (read_word-Reads 8 i hi) (
          Reads-bind read_u64 _ (to_le_bytes 8 t) (x ++ d) t _ (read_word-Reads 8 t ht) (
            Reads-bind (read_bytes xnonce_bytes) _ x d x _ (read_bytes-Reads xnonce_bytes x hx) (
              Reads-last (read_bytes connect_token_private_bytes) _ d d _
                (read_bytes-Reads connect_token_private_bytes d hd) (λ rest. refl))))))
read-body (challenge s d) (hs, hd) = whole read_challenge (challenge s d) (
    Reads-bind read_u64 _ (to_le_bytes 8 s) d s _ (read_word-Reads 8 s hs)
      (read_tail d (challenge s) hd))
read-body (response s d) (hs, hd) = whole read_response (response s d) (
    Reads-bind read_u64 _ (to_le_bytes 8 s) d s _ (read_word-Reads 8 s hs)
      (read_tail d (response s) hd))
read-body (keep_alive i m) (hi, hm) = whole read_keep_alive (keep_alive i m) (
    Reads-bind read_u32 _ (to_le_bytes 4 i) (to_le_bytes 4 m) i _ (read_word-Reads 4 i hi)
      (Reads-last read_u32 _ (to_le_bytes 4 m) m _ (read_word-Reads 4 m hm) (λ rest. refl)))
read-body (payload p) h = refl
read-body connection_denied h = refl
read-body disconnect h = refl
