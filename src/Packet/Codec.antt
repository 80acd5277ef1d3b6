-- ===== src/Packet/Codec.antt =====
-- `Packet::to_bytes` and `Packet::from_bytes` of renet/src/packet.rs, as a connection uses them.
use renet.Base.Outcome.{Outcome, Result}
use renet.Error.{SerializationError}
use renet.Packet.{Packet, Payload}
use renet.Packet.Wire.{Octets}
use renet.Packet.Format.{to_bytes, from_bytes}

pub record Codec : Type 0 where
  pub encode : Packet → Outcome (Result Payload SerializationError)
  pub decode : Payload → Result Packet SerializationError

-- The codec of packets over a layout of numbers; a packet is written into a buffer of 1400 bytes.
abbrev pub packet_codec : Octets → Codec
packet_codec o = record { encode = to_bytes o 1400; decode = from_bytes o }
