-- ===== src/Error.antt =====
-- The error values of renet/src/error.rs and of renet/src/packet.rs.
use renet.Base.{ℕ}

pub data SerializationError : Type 0 where
  buffer_too_short : SerializationError
  invalid_num_slices : SerializationError
  slice_size_above_limit : SerializationError
  empty_slice : SerializationError
  invalid_ack_range : SerializationError
  invalid_packet_type : SerializationError

pub data ChannelError : Type 0 where
  reliable_channel_max_memory_reached : ChannelError
  invalid_slice_message : ChannelError

pub data DisconnectReason : Type 0 where
  transport : DisconnectReason
  disconnected_by_client : DisconnectReason
  disconnected_by_server : DisconnectReason
  packet_serialization : SerializationError → DisconnectReason
  packet_deserialization : SerializationError → DisconnectReason
  received_invalid_channel_id : ℕ → DisconnectReason
  send_channel_error : ℕ → ChannelError → DisconnectReason
  receive_channel_error : ℕ → ChannelError → DisconnectReason

pub data ClientNotFound : Type 0 where
  client_not_found : ClientNotFound
