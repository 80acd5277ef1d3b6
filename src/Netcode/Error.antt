-- ===== src/Netcode/Error.antt =====
-- The error values of renetcode: renetcode/src/error.rs, and those of client.rs and token.rs.
use renet.Base.Outcome.{Result, ok, err}

pub data IoError : Type 0 where
  unexpected_eof : IoError
  write_zero : IoError
  invalid_data : IoError

pub data DisconnectReason : Type 0 where
  connect_token_expired : DisconnectReason
  connection_timed_out : DisconnectReason
  connection_response_timed_out : DisconnectReason
  connection_request_timed_out : DisconnectReason
  connection_denied : DisconnectReason
  disconnected_by_client : DisconnectReason
  disconnected_by_server : DisconnectReason

pub data TokenGenerationError : Type 0 where
  max_host_count : TokenGenerationError
  crypto_error : TokenGenerationError
  io_error : IoError → TokenGenerationError
  no_server_address_available : TokenGenerationError

pub data NetcodeError : Type 0 where
  unavailable_private_key : NetcodeError
  invalid_packet_type : NetcodeError
  invalid_protocol_id : NetcodeError
  invalid_version : NetcodeError
  packet_too_small : NetcodeError
  payload_above_limit : NetcodeError
  duplicated_sequence : NetcodeError
  no_more_servers : NetcodeError
  expired : NetcodeError
  disconnected : DisconnectReason → NetcodeError
  crypto_failure : NetcodeError
  not_in_host_list : NetcodeError
  client_not_found : NetcodeError
  client_not_connected : NetcodeError
  io_failure : IoError → NetcodeError
  token_generation : TokenGenerationError → NetcodeError

-- `?` on a result, and on one whose error is converted.
infixl 5 ◌>>=◌
abbrev pub ◌>>=◌ : {A B E : Type 0} → Result A E → (A → Result B E) → Result B E
ok a >>= f = f a
err e >>= f = err e

abbrev pub map_err : {A E F : Type 0} → (E → F) → Result A E → Result A F
map_err f (ok a) = ok a
map_err f (err e) = err (f e)
