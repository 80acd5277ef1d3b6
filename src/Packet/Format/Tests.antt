-- ===== src/Packet/Format/Tests.antt =====
-- Packets that are written and read with a simple layout of numbers.
use renet.Base.{◌≡◌, refl, [], ◌∷◌, leb, if◌then◌else◌, length, arith}
use renet.Base.Outcome.{returns, ok, err}
use renet.Error.{buffer_too_short}
use renet.Packet.{Payload, Packet, ack, reliable_slice}
use renet.Packet.Wire.Layout.{octets, octets-ReadsBack, octets-HasBounds}
use renet.Packet.Format.{
  to_bytes, from_bytes, get_packet, get_arm, get_reliable_slice, get_slice, checked_slice,
}
use renet.Packet.Format.Bounds.{IsSane, from_bytes-IsSane}
use renet.Packet.Format.RoundTrip.{from_bytes-to_bytes}

abbrev acks : Packet
acks = ack 77 (record { start = 20010; end = 20020 } ∷ record { start = 20035; end = 20040 } ∷ [])

from_bytes-to_bytes_example :
    (bs : Payload) × (to_bytes octets 1400 acks
      ≡ (if leb (length bs) 1400 then returns (ok bs) else returns (err buffer_too_short)))
    × (from_bytes octets bs ≡ ok acks)
from_bytes-to_bytes_example = from_bytes-to_bytes octets octets-ReadsBack 1400 acks (
  omega arith,
  record {
    not_empty = omega arith;
    count = omega arith;
    well_formed = omega arith;
    ends = (omega arith, (omega arith, tt));
  },
)

abbrev slice : Packet
slice =
    reliable_slice 5 0
      (record { message_id = 9; slice_index = 1; num_slices = 3; payload = 7 ∷ 8 ∷ [] })

from_bytes-IsSane_example : IsSane slice
unfolding from_bytes get_packet get_arm get_reliable_slice get_slice checked_slice
from_bytes-IsSane_example =
    from_bytes-IsSane octets octets-HasBounds (2 ∷ 5 ∷ 0 ∷ 9 ∷ 1 ∷ 3 ∷ 2 ∷ 7 ∷ 8 ∷ []) slice refl
