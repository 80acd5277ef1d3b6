-- ===== src/Netcode/Server/Lookup.antt =====
-- The look-ups of renetcode/src/server.rs: connected clients by id and by address, and the pending
-- clients.
pub mod Found
pub mod Waiting
use renet.Base.{
  ℕ, zero, suc, ◌-◌, Bool, true, false, Option, none, some, List, [], ◌∷◌, if◌then◌else◌, ◌==◌, ltb,
}
use renet.Base.Outcome.{Outcome, returns, panics, ◌>>=◌}
use renet.Packet.{Bytes}
use renet.Netcode.Address.{SocketAddr, same_addr}
use renet.Netcode.Server.{Connection, Slots, Pending, NetcodeServer}

-- `find_client_by_id` and `find_client_mut_by_id`.
unfoldable pub find_client_by_id : Slots → ℕ → Option Connection
find_client_by_id [] client_id = none
find_client_by_id (none ∷ clients) client_id = find_client_by_id clients client_id
find_client_by_id (some c ∷ clients) client_id =
    let rest = find_client_by_id clients client_id in
    if c.client_id == client_id then some c else rest

-- The next slot.
abbrev pub after : Option ℕ → Option ℕ
after none = none
after (some i) = some (suc i)

unfoldable pub find_client_slot_by_id : Slots → ℕ → Option ℕ
find_client_slot_by_id [] client_id = none
find_client_slot_by_id (none ∷ clients) client_id = after (find_client_slot_by_id clients client_id)
find_client_slot_by_id (some c ∷ clients) client_id =
    let rest = find_client_slot_by_id clients client_id in
    if c.client_id == client_id then some 0 else after rest

abbrev pub after_found : Option (ℕ × Connection) → Option (ℕ × Connection)
after_found none = none
after_found (some (i, c)) = some (suc i, c)

unfoldable pub find_client_mut_by_addr : Slots → SocketAddr → Option (ℕ × Connection)
find_client_mut_by_addr [] addr = none
find_client_mut_by_addr (none ∷ clients) addr = after_found (find_client_mut_by_addr clients addr)
find_client_mut_by_addr (some c ∷ clients) addr =
    let rest = find_client_mut_by_addr clients addr in
    if same_addr c.addr addr then some (0, c) else after_found rest

-- `clients.iter().position(|c| c.is_none())`.
unfoldable pub free_slot : Slots → Option ℕ
free_slot [] = none
free_slot (none ∷ clients) = some 0
free_slot (some _ ∷ clients) = after (free_slot clients)

unfoldable pub connected_clients : Slots → ℕ
connected_clients [] = 0
connected_clients (none ∷ clients) = connected_clients clients
connected_clients (some _ ∷ clients) = suc (connected_clients clients)

unfoldable pub clients_id : Slots → List ℕ
clients_id [] = []
clients_id (none ∷ clients) = clients_id clients
clients_id (some c ∷ clients) = c.client_id ∷ clients_id clients

unfoldable pub clients_slot_from : ℕ → Slots → List ℕ
clients_slot_from i [] = []
clients_slot_from i (none ∷ clients) = clients_slot_from (suc i) clients
clients_slot_from i (some _ ∷ clients) = i ∷ clients_slot_from (suc i) clients

unfoldable pub clients_slot : Slots → List ℕ
clients_slot clients = clients_slot_from 0 clients

unfoldable pub get_pending : Pending → SocketAddr → Option Connection
get_pending [] addr = none
get_pending ((a, c) ∷ pending) addr =
    let rest = get_pending pending addr in if same_addr a addr then some c else rest

unfoldable pub remove_pending : Pending → SocketAddr → Pending
remove_pending [] addr = []
remove_pending ((a, c) ∷ pending) addr =
    let rest = remove_pending pending addr in if same_addr a addr then rest else (a, c) ∷ rest

-- The value of a key that the map has; the last entry of a key that it does not have.
unfoldable pub put_pending : Pending → SocketAddr → Connection → Pending
put_pending [] addr v = (addr, v) ∷ []
put_pending ((a, c) ∷ pending) addr v =
    let rest = put_pending pending addr v in
    if same_addr a addr then (a, v) ∷ pending else (a, c) ∷ rest

abbrev pub user_data_of : Option Connection → Option Bytes
user_data_of none = none
user_data_of (some c) = some c.user_data

unfoldable pub user_data : NetcodeServer → ℕ → Option Bytes
user_data server client_id = user_data_of (find_client_by_id server.clients client_id)

abbrev pub addr_of : Option Connection → Option SocketAddr
addr_of none = none
addr_of (some c) = some c.addr

unfoldable pub client_addr : NetcodeServer → ℕ → Option SocketAddr
client_addr server client_id = addr_of (find_client_by_id server.clients client_id)

abbrev pub is_some : {A : Type 0} → Option A → Bool
is_some none = false
is_some (some _) = true

unfoldable pub is_client_connected : NetcodeServer → ℕ → Bool
is_client_connected server client_id = is_some (find_client_slot_by_id server.clients client_id)

abbrev pub time_since : ℕ → Option Connection → Outcome (Option ℕ)
time_since current_time none = returns none
time_since current_time (some c) =
    if ltb current_time c.last_packet_received_time
    then panics
    else returns (some (current_time - c.last_packet_received_time))

unfoldable pub time_since_last_received_packet : NetcodeServer → ℕ → Outcome (Option ℕ)
time_since_last_received_packet server client_id =
    time_since server.current_time (find_client_by_id server.clients client_id)

-- A write through the reference that the look-up by id gives.
unfoldable pub put_client_by_id : Slots → ℕ → Connection → Slots
put_client_by_id [] client_id v = []
put_client_by_id (none ∷ clients) client_id v = none ∷ put_client_by_id clients client_id v
put_client_by_id (some c ∷ clients) client_id v =
    let rest = put_client_by_id clients client_id v in
    if c.client_id == client_id then some v ∷ clients else some c ∷ rest
