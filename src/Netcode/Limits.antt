-- ===== src/Netcode/Limits.antt =====
-- The constants of renetcode/src/lib.rs. Durations are numbers of nanoseconds.
use renet.Base.{ℕ, ◌*◌, ◌/◌, [], ◌∷◌}
use renet.Packet.{Bytes}

-- The ASCII bytes of "NETCODE 1.02", and a zero.
abbrev pub version_info : Bytes
version_info = 78 ∷ 69 ∷ 84 ∷ 67 ∷ 79 ∷ 68 ∷ 69 ∷ 32 ∷ 49 ∷ 46 ∷ 48 ∷ 50 ∷ 0 ∷ []

abbrev pub max_clients_allowed : ℕ
max_clients_allowed = 1024

abbrev pub max_pending_clients : ℕ
max_pending_clients = max_clients_allowed * 4

abbrev pub address_none : ℕ
address_none = 0

abbrev pub address_ipv4 : ℕ
address_ipv4 = 1

abbrev pub address_ipv6 : ℕ
address_ipv6 = 2

abbrev pub connect_token_private_bytes : ℕ
connect_token_private_bytes = 1024

abbrev pub max_packet_bytes : ℕ
max_packet_bytes = 1400

abbrev pub max_payload_bytes : ℕ
max_payload_bytes = 1300

abbrev pub key_bytes : ℕ
key_bytes = 32

abbrev pub mac_bytes : ℕ
mac_bytes = 16

abbrev pub user_data_bytes : ℕ
user_data_bytes = 256

abbrev pub challenge_token_bytes : ℕ
challenge_token_bytes = 300

abbrev pub xnonce_bytes : ℕ
xnonce_bytes = 24

abbrev pub from_secs : ℕ → ℕ
from_secs s = s * 1000000000

abbrev pub as_secs : ℕ → ℕ
as_secs d = d / 1000000000

-- 250 milliseconds.
abbrev pub send_rate : ℕ
send_rate = 250000000
