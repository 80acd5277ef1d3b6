-- ===== src/Lib.antt =====
-- Models and proofs for renet, a library for multiplayer games: reliable and unreliable message
-- channels over packets that may be lost, repeated and reordered, a client and a server of such
-- connections, and renetcode, the encrypted connections of a client and a server under them.
--
-- The parts, and how they interact:
--   * Base: the helpers of all files. Base/Outcome is a call that returns or panics; Base/Map is the
--     `BTreeMap` and `HashMap` with number keys; Base/Word is 64-bit arithmetic.
--   * Error, Packet: the values of renet/src/error.rs and renet/src/packet.rs. Packet/Codec is the
--     interface through which a connection serializes packets; Packet/Format, over Packet/Wire, has
--     `to_bytes` (`put_packet`) and `from_bytes` (`get_packet`), which fill it.
--   * Channel/Config: renet/src/channel/mod.rs.
--   * Channel/Slices: `SliceConstructor` of renet/src/channel/slice_constructor.rs, which puts a message
--     together. Channel/Pieces is how a sender cuts it.
--   * Channel/Reliable/Send and Channel/Reliable/Receive: renet/src/channel/reliable.rs. The loop of
--     `get_packets_to_send` is `send_all`, with `send_small` and `send_slices` for its two arms, and
--     its variables are the record `Sending`.
--   * Channel/Unreliable/Send and Channel/Unreliable/Receive: renet/src/channel/unreliable.rs.
--   * Connection/Acks: `add_pending_ack` and `acked_largest` of renet/src/remote_connection.rs.
--   * Connection/Process: what a connection does with the packets of one reliable channel.
--   * Connection/Delivery: two peers that are joined by one reliable ordered channel, as a step
--     relation in which any packet ever sent may arrive at any time, any number of times, or never.
--   * Connection/Client: `RenetClient` of renet/src/remote_connection.rs. Sending has `send_message` and
--     `get_packets_to_send`, Receiving `process_packet` and `receive_message`, Ticks `update`.
--   * Server: `RenetServer` of renet/src/server.rs, and Server/Local its local client.
--   * Netcode/Error, Netcode/Limits, Netcode/Io, Netcode/Crypto: renetcode/src/error.rs, the constants of
--     lib.rs, serialize.rs and crypto.rs. Netcode/Address is `SocketAddr`.
--   * Netcode/PacketType, Netcode/Packet: renetcode/src/packet.rs, with `encode` and `decode` in Encode and
--     Decode.
--   * Netcode/Token: renetcode/src/token.rs, with the writing, the reading and the generation of tokens.
--   * Netcode/Client: `NetcodeClient` of renetcode/src/client.rs. Receive has `process_packet`, Update
--     `update` and the payloads; Protocol is its state machine and Runs its sequences of calls.
--   * Netcode/Server: `NetcodeServer` of renetcode/src/server.rs. Request has
--     `handle_connection_request`, Process `process_packet`, Update the other calls; Consistent has the
--     invariant of its clients.
--   * Netcode/Handshake: the packets with which such a client and such a server connect: what the client
--     sends and hears (Asking), what the server answers (Answering, Responding), and all four
--     (Connecting).
--   * Netcode/Replay: renetcode/src/replay_protection.rs.
--
-- A method that changes its object takes the object and returns it changed, with its result. A call
-- that can panic is an `Outcome`; a `Result` or an `Option` is the value it is. Bytes are numbers,
-- and `u64` and `usize` arithmetic wraps at 2^64, as in a release build; times count nanoseconds, and
-- a negative difference of two times panics, as `Duration` does. A `BTreeMap` is the list of its
-- entries by ascending key, and a `HashMap` is the same, which fixes one of its orders.
--
-- Bounds: a memory limit is below 2^59 and a message shorter than 2^58 bytes, so that no sum of sizes
-- wraps. `advance_oldest` runs on fuel, the number of received ids, of which each round removes one;
-- all other loops are structural.
--
-- Parameters: the crate octets, as `varint_len` and as the layout of numbers in Packet/Wire. What is
-- relied on are the laws `ReadsBack` (a number that was written is read back) and `HasBounds` (a varint
-- has 62 bits); Packet/Wire/Layout is a layout for which they hold.
--
-- The ciphers of the crate chacha20poly1305 are the record `Aead` of Netcode/Crypto; what is relied on is
-- `Opens`: a tag has 16 bytes, and what was enciphered is deciphered to the same text with the same
-- key, nonce and additional data; and `Seals`: a text of less than 2^32 bytes is enciphered without an
-- error. Netcode/Crypto/Toy is a cipher for which both hold. What `generate_random_bytes` gives is an
-- argument. The arrays of fixed size are lists of bytes, and an `i32` is its bit pattern; sums of times,
-- which overflow after some hundred thousand million years, are not bounded.
--
-- Not modelled: floating point statistics (renet/src/connection_stats.rs and rtt), log lines, the texts
-- of errors, the transports renet_netcode and renet_steam, which pass packets to sockets, the Bevy
-- plugin, the visualizer, the demos and the examples.
pub mod Base
pub mod Error
pub mod Packet
pub mod Connection
pub mod Netcode
pub mod Server
pub mod Channel
