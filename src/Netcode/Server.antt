-- ===== src/Netcode/Server.antt =====
-- `NetcodeServer` of renetcode/src/server.rs: its state, and what it looks up.
pub mod Entries
pub mod Lookup
pub mod Request
pub mod Process
pub mod Update
pub mod Consistent
pub mod Strangers
mod Tests
use renet.Base.{
  ℕ, ◌*◌, Bool, true, false, Option, none, some, List, [], ◌∷◌, ◌==◌, if◌then◌else◌, ltb, replicate,
  min,
}
use renet.Base.Outcome.{Outcome, returns, panics}
use renet.Packet.{Bytes}
use renet.Netcode.Limits.{max_clients_allowed, key_bytes}
use renet.Netcode.Address.{SocketAddr}
use renet.Netcode.Replay.{ReplayProtection}

pub data ConnectionState : Type 0 where
  disconnected : ConnectionState
  pending_response : ConnectionState
  connected : ConnectionState

pub record Connection : Type 0 where
  pub confirmed : Bool
  pub client_id : ℕ
  pub state : ConnectionState
  pub send_key : Bytes
  pub receive_key : Bytes
  pub user_data : Bytes
  pub addr : SocketAddr
  pub last_packet_received_time : ℕ
  pub last_packet_send_time : ℕ
  pub timeout_seconds : ℕ
  pub sequence : ℕ
  pub expire_timestamp : ℕ
  pub replay_protection : ReplayProtection

pub record ConnectTokenEntry : Type 0 where
  pub time : ℕ
  pub address : SocketAddr
  pub mac : Bytes

abbrev pub Slots : Type 0
Slots = List (Option Connection)

-- The `HashMap` from addresses, as the list of its entries.
abbrev pub Pending : Type 0
Pending = List (SocketAddr × Connection)

-- `out`, a buffer that each call overwrites, is left out.
pub record NetcodeServer : Type 0 where
  pub clients : Slots
  pub pending_clients : Pending
  pub connect_token_entries : List (Option ConnectTokenEntry)
  pub protocol_id : ℕ
  pub connect_key : Bytes
  pub max_clients : ℕ
  pub challenge_sequence : ℕ
  pub challenge_key : Bytes
  pub public_addresses : List SocketAddr
  pub current_time : ℕ
  pub global_sequence : ℕ
  pub secure : Bool

pub data ServerResult : Type 0 where
  nothing : ServerResult
  packet_to_send : (addr : SocketAddr) (payload : Bytes) → ServerResult
  payload : (client_id : ℕ) (payload : Bytes) → ServerResult
  client_connected : (client_id : ℕ) (addr : SocketAddr) (user_data payload : Bytes) → ServerResult
  client_disconnected : (client_id : ℕ) (addr : SocketAddr) (payload : Option Bytes) → ServerResult

pub data ServerAuthentication : Type 0 where
  secure : (private_key : Bytes) → ServerAuthentication
  unsecure : ServerAuthentication

pub record ServerConfig : Type 0 where
  pub current_time : ℕ
  pub max_clients : ℕ
  pub protocol_id : ℕ
  pub public_addresses : List SocketAddr
  pub authentication : ServerAuthentication

abbrev key_of : ServerAuthentication → Bytes
key_of (secure private_key) = private_key
key_of unsecure = replicate key_bytes 0

abbrev is_secure : ServerAuthentication → Bool
is_secure (secure _) = true
is_secure unsecure = false

-- `challenge_key` is what `generate_random_bytes` gives.
unfoldable pub new : Bytes → ServerConfig → Outcome NetcodeServer
new challenge_key config =
    if ltb max_clients_allowed config.max_clients
    then panics
    else returns (record {
      clients = replicate config.max_clients none;
      pending_clients = [];
      connect_token_entries = replicate (max_clients_allowed * 2) none;
      protocol_id = config.protocol_id;
      connect_key = key_of config.authentication;
      max_clients = config.max_clients;
      challenge_sequence = 0;
      challenge_key = challenge_key;
      public_addresses = config.public_addresses;
      current_time = config.current_time;
      global_sequence = 0;
      secure = is_secure config.authentication;
    })

unfoldable pub set_max_clients : NetcodeServer → ℕ → NetcodeServer
set_max_clients server max_clients = record server {
  max_clients = min max_clients max_clients_allowed;
}
