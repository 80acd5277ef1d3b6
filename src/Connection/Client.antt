-- ===== src/Connection/Client.antt =====
-- `RenetClient` of renet/src/remote_connection.rs: its state and its own operations. The statistics
-- and the round trip time, which are floats that only `network_info` reads, are left out.
pub mod Sending
pub mod Receiving
pub mod Ticks
mod Tests
pub mod Status
pub mod Pending
use renet.Base.{ℕ, Bool, true, false, Option, none, some, List, [], ◌∷◌, ◌++◌, if◌then◌else◌}
use renet.Base.Map.{Map, get, insert, contains_key}
use renet.Base.Outcome.{Outcome, returns, panics, ◌>>=◌, Result, ok, err}
use renet.Error.{
  DisconnectReason, transport, disconnected_by_client, send_channel_error, ChannelError,
}
use renet.Packet.{Bytes, Range}
use renet.Channel.Config.{ChannelConfig, SendType, unreliable, reliable_ordered, reliable_unordered}
use renet.Channel.Reliable
use renet.Channel.Reliable.Send.{SendChannelReliable}
use renet.Channel.Reliable.Receive.{ReceiveChannelReliable}
use renet.Channel.Unreliable
use renet.Channel.Unreliable.Send.{SendChannelUnreliable}
use renet.Channel.Unreliable.Receive.{ReceiveChannelUnreliable}
use renet.Connection.Process.{PacketSentInfo}

pub record ConnectionConfig : Type 0 where
  pub available_bytes_per_tick : ℕ
  pub server_channels_config : List ChannelConfig
  pub client_channels_config : List ChannelConfig

pub record PacketSent : Type 0 where
  pub sent_at : ℕ
  pub info : PacketSentInfo

pub data ChannelOrder : Type 0 where
  reliable_order : ℕ → ChannelOrder
  unreliable_order : ℕ → ChannelOrder

pub data RenetConnectionStatus : Type 0 where
  connected : RenetConnectionStatus
  connecting : RenetConnectionStatus
  disconnected : (reason : DisconnectReason) → RenetConnectionStatus

pub record RenetClient : Type 0 where
  pub packet_sequence : ℕ
  pub current_time : ℕ
  pub sent_packets : Map PacketSent
  pub pending_acks : List Range
  pub channel_send_order : List ChannelOrder
  pub send_unreliable_channels : Map SendChannelUnreliable
  pub receive_unreliable_channels : Map ReceiveChannelUnreliable
  pub send_reliable_channels : Map SendChannelReliable
  pub receive_reliable_channels : Map ReceiveChannelReliable
  pub available_bytes_per_tick : ℕ
  pub connection_status : RenetConnectionStatus

-- `insert` with the `assert!` that nothing was there.
unfoldable pub insert_new : {V : Type 0} → Map V → ℕ → V → Outcome (Map V)
insert_new m k v = if contains_key m k then panics else returns (insert m k v)

-- The two arms of the reliable send types are one in the source.
unfoldable pub add_send_reliable : RenetClient → ChannelConfig → ℕ → Outcome RenetClient
add_send_reliable c config resend_time = do
  channels ←
      insert_new c.send_reliable_channels config.channel_id
        (Reliable.Send.new config.channel_id resend_time config.max_memory_usage_bytes)
  returns (record c {
    send_reliable_channels = channels;
    channel_send_order = c.channel_send_order ++ (reliable_order config.channel_id ∷ []);
  })

unfoldable pub add_send_unreliable : RenetClient → ChannelConfig → Outcome RenetClient
add_send_unreliable c config = do
  channels ←
      insert_new c.send_unreliable_channels config.channel_id
        (Unreliable.Send.new config.channel_id config.max_memory_usage_bytes)
  returns (record c {
    send_unreliable_channels = channels;
    channel_send_order = c.channel_send_order ++ (unreliable_order config.channel_id ∷ []);
  })

unfoldable pub add_send_channel : RenetClient → ChannelConfig → Outcome RenetClient
add_send_channel c config = elim config.send_type [
  | unreliable ↦ add_send_unreliable c config
  | reliable_ordered resend_time ↦ add_send_reliable c config resend_time
  | reliable_unordered resend_time ↦ add_send_reliable c config resend_time
]

unfoldable pub add_receive_reliable : RenetClient → ChannelConfig → Bool → Outcome RenetClient
add_receive_reliable c config ordered = do
  channels ←
      insert_new c.receive_reliable_channels config.channel_id
        (Reliable.Receive.new config.max_memory_usage_bytes ordered)
  returns (record c { receive_reliable_channels = channels })

unfoldable pub add_receive_unreliable : RenetClient → ChannelConfig → Outcome RenetClient
add_receive_unreliable c config = do
  channels ←
      insert_new c.receive_unreliable_channels config.channel_id
        (Unreliable.Receive.new config.channel_id config.max_memory_usage_bytes)
  returns (record c { receive_unreliable_channels = channels })

unfoldable pub add_receive_channel : RenetClient → ChannelConfig → Outcome RenetClient
add_receive_channel c config = elim config.send_type [
  | unreliable ↦ add_receive_unreliable c config
  | reliable_ordered _ ↦ add_receive_reliable c config true
  | reliable_unordered _ ↦ add_receive_reliable c config false
]

unfoldable pub add_channels :
    (RenetClient → ChannelConfig → Outcome RenetClient)
    → RenetClient
    → List ChannelConfig
    → Outcome RenetClient
add_channels add c [] = returns c
add_channels add c (config ∷ configs) = add c config >>= λ c'. add_channels add c' configs

unfoldable pub from_channels : ℕ → List ChannelConfig → List ChannelConfig → Outcome RenetClient
from_channels available_bytes_per_tick send_channels_config receive_channels_config =
    let fresh : RenetClient = record {
      packet_sequence = 0;
      current_time = 0;
      sent_packets = [];
      pending_acks = [];
      channel_send_order = [];
      send_unreliable_channels = [];
      receive_unreliable_channels = [];
      send_reliable_channels = [];
      receive_reliable_channels = [];
      available_bytes_per_tick = available_bytes_per_tick;
      connection_status = connecting;
    } in
    add_channels add_send_channel fresh send_channels_config >>= λ c.
    add_channels add_receive_channel c receive_channels_config

unfoldable pub new : ConnectionConfig → Outcome RenetClient
new config =
    from_channels config.available_bytes_per_tick config.client_channels_config
      config.server_channels_config

unfoldable pub new_from_server : ConnectionConfig → Outcome RenetClient
new_from_server config =
    from_channels config.available_bytes_per_tick config.server_channels_config
      config.client_channels_config

unfoldable pub is_connected : RenetClient → Bool
is_connected c = elim c.connection_status [
  | connected ↦ true
  | connecting ↦ false
  | disconnected _ ↦ false
]

unfoldable pub is_connecting : RenetClient → Bool
is_connecting c = elim c.connection_status [
  | connected ↦ false
  | connecting ↦ true
  | disconnected _ ↦ false
]

unfoldable pub is_disconnected : RenetClient → Bool
is_disconnected c = elim c.connection_status [
  | connected ↦ false
  | connecting ↦ false
  | disconnected _ ↦ true
]

unfoldable pub disconnect_reason : RenetClient → Option DisconnectReason
disconnect_reason c = elim c.connection_status [
  | connected ↦ none
  | connecting ↦ none
  | disconnected reason ↦ some reason
]

unfoldable pub set_connected : RenetClient → RenetClient
set_connected c = if is_disconnected c then c else record c { connection_status = connected }

unfoldable pub set_connecting : RenetClient → RenetClient
set_connecting c = if is_disconnected c then c else record c { connection_status = connecting }

unfoldable pub disconnect_with_reason : RenetClient → DisconnectReason → RenetClient
disconnect_with_reason c reason =
    if is_disconnected c then c else record c { connection_status = disconnected reason }

unfoldable pub disconnect : RenetClient → RenetClient
disconnect c = disconnect_with_reason c disconnected_by_client

unfoldable pub disconnect_due_to_transport : RenetClient → RenetClient
disconnect_due_to_transport c = disconnect_with_reason c transport

unfoldable pub channel_available_memory : RenetClient → ℕ → Outcome ℕ
channel_available_memory c channel_id = elim (get c.send_reliable_channels channel_id) [
  | some channel ↦ returns (Reliable.Send.available_memory channel)
  | none ↦ elim (get c.send_unreliable_channels channel_id) [
    | some channel ↦ returns (Unreliable.Send.available_memory channel)
    | none ↦ panics
  ]
]

unfoldable pub can_send_message : RenetClient → ℕ → ℕ → Outcome Bool
can_send_message c channel_id size_bytes = elim (get c.send_reliable_channels channel_id) [
  | some channel ↦ returns (Reliable.Send.can_send_message channel size_bytes)
  | none ↦ elim (get c.send_unreliable_channels channel_id) [
    | some channel ↦ returns (Unreliable.Send.can_send_message channel size_bytes)
    | none ↦ panics
  ]
]
