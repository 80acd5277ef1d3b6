-- ===== src/Netcode/Token/Layout.antt =====
-- The server addresses of a connect token, written and read (renetcode/src/token.rs).
use renet.Base.{
  ℕ, zero, suc, ◌-◌, ◌*◌, ◌%◌, ◌^◌, ◌<◌, ◌≤◌, ◌≡◌, refl, sym, ap, ◌∙◌, subst, Option, none, some,
  List, [], ◌∷◌, ◌++◌, map, length, length-append, replicate, All, min, arith,
}
use renet.Packet.{Bytes}
use renet.Netcode.Error.{◌>>=◌}
use renet.Netcode.Io.{
  to_le_bytes, Writer, write_all, Read, give, read_u8, read_u16, read_u32, read_bytes,
}
use renet.Netcode.Io
use renet.Netcode.Io.Cursors.{
  Reads, Reads-bind, Reads-last, read_bytes-Reads, read_word-Reads, Writes, Writes-bind,
  write_before, write_all-nothing, length-to_le_bytes,
}
use renet.Netcode.Address.{SocketAddr, v4, v6}
use renet.Netcode.Token.{Hosts}
use renet.Netcode.Token.Generate.{hosts_of}
use renet.Netcode.Token.Write.{
  flatten, write_octets, write_host, write_hosts, write_server_addresses,
}
use renet.Netcode.Token.Read.{
  read_v4, read_v6, read_typed, read_hosts, filled, read_server_addresses,
}

abbrev IsOctet : ℕ → Type 0
IsOctet b = b < 256

-- The octets and the port have their sizes; a flow and a scope, which are not written, are 0.
abbrev pub IsHost : SocketAddr → Type 0
IsHost (v4 octets port) = (length octets ≡ 4) × All IsOctet octets × (port < 2 ^ 16)
IsHost (v6 octets port flowinfo scope_id) =
    (length octets ≡ 16) × All IsOctet octets × (port < 2 ^ 16) × (flowinfo ≡ 0) × (scope_id ≡ 0)

abbrev pub host_bytes : SocketAddr → Bytes
host_bytes (v4 octets port) = (1 ∷ []) ++ (octets ++ to_le_bytes 2 port)
host_bytes (v6 octets port _ _) = (2 ∷ []) ++ (octets ++ to_le_bytes 2 port)

abbrev pub hosts_bytes : List SocketAddr → Bytes
hosts_bytes [] = []
hosts_bytes (host ∷ hosts) = host_bytes host ++ hosts_bytes hosts

abbrev pub addresses_bytes : List SocketAddr → Bytes
addresses_bytes hosts = to_le_bytes 4 (length hosts) ++ hosts_bytes hosts

write_octets-Writes : (octets : Bytes) → All IsOctet octets → Writes (write_octets octets) octets
unfolding write_octets
write_octets-Writes [] h w = sym (write_all-nothing w)
write_octets-Writes (b ∷ bs) h w =
    let small : b % 256 ≡ b = omega (arith, h.0) in
    ap (λ n. write_all (n ∷ []) w >>= write_octets bs) small
    ∙ write_before (b ∷ []) bs (write_octets bs) w (write_octets-Writes bs (h.1))

write_host-Writes : (host : SocketAddr) → IsHost host → Writes (write_host host) (host_bytes host)
unfolding write_host
write_host-Writes (v4 octets port) h w = write_before (1 ∷ []) (octets ++ to_le_bytes 2 port) _ w (
    Writes-bind (write_octets octets) (write_all (to_le_bytes 2 port)) octets (to_le_bytes 2 port)
      (write_octets-Writes octets (h.1)) (λ w. refl))
write_host-Writes (v6 octets port _ _) h w =
    write_before (2 ∷ []) (octets ++ to_le_bytes 2 port) _ w (
      Writes-bind (write_octets octets) (write_all (to_le_bytes 2 port)) octets (to_le_bytes 2 port)
        (write_octets-Writes octets (h.1)) (λ w. refl))

write_hosts-Writes :
    (hosts : List SocketAddr) → All IsHost hosts → Writes (write_hosts hosts) (hosts_bytes hosts)
unfolding write_hosts
write_hosts-Writes [] h w = sym (write_all-nothing w)
write_hosts-Writes (host ∷ hosts) h w =
    Writes-bind (write_host host) (write_hosts hosts) (host_bytes host) (hosts_bytes hosts)
      (write_host-Writes host (h.0)) (write_hosts-Writes hosts (h.1)) w

flatten-none : (n : ℕ) → flatten {A = SocketAddr} (replicate n none) ≡ []
flatten-none zero = refl
flatten-none (suc n) = flatten-none n

flatten-map :
    (hosts : List SocketAddr) (n : ℕ) → flatten (map some hosts ++ replicate n none) ≡ hosts
flatten-map [] n = flatten-none n
flatten-map (host ∷ hosts) n = ap (λ l. host ∷ l) (flatten-map hosts n)

pub write_server_addresses-Writes :
    (hosts : List SocketAddr)
    → All IsHost hosts
    → length hosts ≤ 32
    → Writes (write_server_addresses (hosts_of hosts)) (addresses_bytes hosts)
unfolding write_server_addresses
write_server_addresses-Writes hosts h few w =
    let few' : length hosts % 2 ^ 32 ≡ length hosts = omega (arith, few) in
    ap (λ (l : List SocketAddr). write_all (to_le_bytes 4 (length l % 2 ^ 32)) w >>= write_hosts l)
      (flatten-map hosts (32 - length hosts))
    ∙ ap (λ n. write_all (to_le_bytes 4 n) w >>= write_hosts hosts) few'
    ∙ write_before (to_le_bytes 4 (length hosts)) (hosts_bytes hosts) (write_hosts hosts) w
        (write_hosts-Writes hosts h)

read_v4-Reads :
    (octets : Bytes) (port : ℕ)
    → length octets ≡ 4
    → port < 2 ^ 16
    → Reads read_v4 (octets ++ to_le_bytes 2 port) (some (v4 octets port))
unfolding read_v4
read_v4-Reads octets port h k =
    Reads-bind (read_bytes 4) _ octets (to_le_bytes 2 port) octets _ (read_bytes-Reads 4 octets h)
      (Reads-last read_u16 _ (to_le_bytes 2 port) port _ (read_word-Reads 2 port k) (λ rest. refl))

read_v6-Reads :
    (octets : Bytes) (port : ℕ)
    → length octets ≡ 16
    → port < 2 ^ 16
    → Reads read_v6 (octets ++ to_le_bytes 2 port) (some (v6 octets port 0 0))
unfolding read_v6
read_v6-Reads octets port h k =
    Reads-bind (read_bytes 16) _ octets (to_le_bytes 2 port) octets _ (read_bytes-Reads 16 octets h)
      (Reads-last read_u16 _ (to_le_bytes 2 port) port _ (read_word-Reads 2 port k) (λ rest. refl))

-- The first address and the others.
read_more :
    (n type : ℕ) (bs cs : Bytes) (host : Option SocketAddr) (hosts : Hosts)
    → type < 256
    → Reads (read_typed type) bs host
    → Reads (read_hosts n) cs hosts
    → Reads (read_hosts (suc n)) ((type % 256 ∷ []) ++ (bs ++ cs)) (host ∷ hosts)
unfolding read_hosts
read_more n type bs cs host hosts small h k =
    Reads-bind read_u8 _ (type % 256 ∷ []) (bs ++ cs) type _ (read_word-Reads 1 type small) (
      Reads-bind (read_typed type) _ bs cs host _ h
        (Reads-last (read_hosts n) _ cs hosts _ k (λ rest. refl)))

read_hosts-Reads :
    (hosts : List SocketAddr)
    → All IsHost hosts
    → Reads (read_hosts (length hosts)) (hosts_bytes hosts) (map some hosts)
unfolding read_hosts read_typed
read_hosts-Reads [] h = λ rest. refl
read_hosts-Reads (v4 octets port ∷ hosts) ((h, _, k), hs) =
    read_more (length hosts) 1 (octets ++ to_le_bytes 2 port) (hosts_bytes hosts)
      (some (v4 octets port)) (map some hosts) (omega arith) (read_v4-Reads octets port h k)
      (read_hosts-Reads hosts hs)
read_hosts-Reads (v6 octets port flowinfo scope_id ∷ hosts) ((h, _, k, f, s), hs) =
    let same : v6 octets port 0 0 ≡ v6 octets port flowinfo scope_id = cc (f, s) in
    subst
      (λ x.
        Reads (read_hosts (suc (length hosts)))
          (hosts_bytes (v6 octets port flowinfo scope_id ∷ hosts)) (some x ∷ map some hosts))
      same
      (read_more (length hosts) 2 (octets ++ to_le_bytes 2 port) (hosts_bytes hosts)
        (some (v6 octets port 0 0)) (map some hosts) (omega arith) (read_v6-Reads octets port h k)
        (read_hosts-Reads hosts hs))

filled-Reads :
    (hosts : List SocketAddr) → Reads (filled (length hosts) (map some hosts)) [] (hosts_of hosts)
filled-Reads [] rest = refl
filled-Reads (host ∷ hosts) rest = refl

pub read_server_addresses-Reads :
    (hosts : List SocketAddr)
    → All IsHost hosts
    → length hosts ≤ 32
    → Reads read_server_addresses (addresses_bytes hosts) (hosts_of hosts)
unfolding read_server_addresses
read_server_addresses-Reads hosts h few =
    let n = length hosts in
    let all_of : min n 32 ≡ n = omega (arith, few) in
    Reads-bind read_u32 _ (to_le_bytes 4 n) (hosts_bytes hosts) n _
      (read_word-Reads 4 n (omega (arith, few)))
      (subst (λ m. Reads (Io.◌>>=◌ (read_hosts m) (filled m)) (hosts_bytes hosts) (hosts_of hosts))
        (sym all_of)
        (Reads-last (read_hosts n) (filled n) (hosts_bytes hosts) (map some hosts) (hosts_of hosts)
          (read_hosts-Reads hosts h) (filled-Reads hosts)))

-- An address takes 19 bytes at most.
pub length-hosts_bytes :
    (hosts : List SocketAddr) → All IsHost hosts → length (hosts_bytes hosts) ≤ 19 * length hosts
length-hosts_bytes [] h = omega arith
length-hosts_bytes (v4 octets port ∷ hosts) ((h, _, _), hs) =
    let bytes = octets ++ to_le_bytes 2 port in
    omega (
      arith,
      length-append bytes (hosts_bytes hosts),
      length-append octets (to_le_bytes 2 port),
      length-to_le_bytes 2 port,
      h,
      length-hosts_bytes hosts hs,
    )
length-hosts_bytes (v6 octets port _ _ ∷ hosts) ((h, _, _, _, _), hs) =
    let bytes = octets ++ to_le_bytes 2 port in
    omega (
      arith,
      length-append bytes (hosts_bytes hosts),
      length-append octets (to_le_bytes 2 port),
      length-to_le_bytes 2 port,
      h,
      length-hosts_bytes hosts hs,
    )
