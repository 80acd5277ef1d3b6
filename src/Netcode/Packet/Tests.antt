-- ===== src/Netcode/Packet/Tests.antt =====
-- Runs of the packets of renetcode/src/packet.rs with a toy cipher.
use renet.Base.{◌^◌, ◌≡◌, ◌↔◌, ◌<◌, ◌≤◌, refl, none, some, [], ◌∷◌, ◌%◌, replicate, arith}
use renet.Base.Outcome.{returns, panics, ok}
use renet.Base.Word.{add_u64}
use renet.Packet.{Bytes}
use renet.Netcode.Limits.{max_packet_bytes}
use renet.Netcode.Crypto.{encrypt_in_place, encrypt_with}
use renet.Netcode.Crypto.Toy.{toys, toy-Opens, toy-Seals}
use renet.Netcode.PacketType.{
  PacketType, from_u8, encode_prefix, sequence_bytes_required, bytes_required_loop,
}
use renet.Netcode.PacketType.Sequence.{sequence_bytes_required_iff}
use renet.Netcode.Replay.{new, already_received}
use renet.Netcode.Packet.{keep_alive}
use renet.Netcode.Packet.Write.{write, write_sequence}
use renet.Netcode.Packet.Encode.{encode, encode_sealed, encode_after, seal}
use renet.Netcode.Packet.Decode.{decode}
use renet.Netcode.Packet.RoundTrip.{seen, decode-encode}
use renet.Netcode.Packet.Fits.{Fits, encode-Fits}
use renet.Netcode.Packet.Panics.{IsMalformed, decode-IsMalformed}

abbrev key : Bytes
key = 1 ∷ 2 ∷ 3 ∷ []

-- A keep alive packet with sequence 300.
abbrev sent : Bytes
sent =
    36 ∷ 44 ∷ 1 ∷ 3 ∷ 0 ∷ 0 ∷ 0 ∷ 16 ∷ 0 ∷ 0 ∷ 0 ∷ 84 ∷ 84 ∷ 84 ∷ 84 ∷ 84 ∷ 84 ∷ 84 ∷ 84 ∷ 84 ∷ 84
    ∷ 84 ∷ 84 ∷ 84 ∷ 84 ∷ 84 ∷ 84 ∷ []

encodes : encode toys (keep_alive 3 16) max_packet_bytes 7 (some (300, key)) ≡ ok sent
unfolding encode encode_sealed encode_after seal encrypt_in_place encrypt_with encode_prefix
    sequence_bytes_required bytes_required_loop write write_sequence
encodes = refl

decode-encode_example :
    decode toys sent 7 (some key) (some new) ≡ returns (seen (keep_alive 3 16) 300 (some new))
unfolding new already_received add_u64
decode-encode_example =
    decode-encode toys (keep_alive 3 16) max_packet_bytes 7 300 key sent (some new) toy-Opens
      (omega arith, omega arith) (omega arith) refl encodes (omega arith)

-- A keep alive packet that says it has 9 bytes of sequence.
abbrev nine_bytes : Bytes
nine_bytes = 148 ∷ replicate 17 0

nine_bytes_type : from_u8 (148 % 16) ≡ ok PacketType.keep_alive
unfolding from_u8
nine_bytes_type = refl

decode-IsMalformed_example :
    (decode toys nine_bytes 7 (some key) none ≡ panics)
    ↔ IsMalformed nine_bytes PacketType.keep_alive none
decode-IsMalformed_example =
    decode-IsMalformed toys nine_bytes 7 key PacketType.keep_alive none
      (omega arith, nine_bytes_type, refl)

sequence_bytes_required_iff_example : (sequence_bytes_required 300 ≤ 2) ↔ (300 < 256 ^ 2)
sequence_bytes_required_iff_example = sequence_bytes_required_iff 300 2 (omega arith)

encode-Fits_example :
    Fits (keep_alive 3 16) 300 (encode toys (keep_alive 3 16) max_packet_bytes 7 (some (300, key)))
encode-Fits_example =
    encode-Fits toys (keep_alive 3 16) 7 300 key toy-Opens toy-Seals (omega arith, omega arith) tt
      (omega arith)
