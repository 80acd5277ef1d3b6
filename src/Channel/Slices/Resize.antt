-- ===== src/Channel/Slices/Resize.antt =====
-- What `resize` does to the bytes.
use renet.Base.{
  ℕ, ◌-◌, ◌<◌, ◌≡◌, arith, length, get_elem?, replicate, length-append, length-take,
  length-replicate,
}
use renet.Packet.{Bytes}
use renet.Channel.Splice.{get_elem?-append, get_elem?-take}
use renet.Channel.Slices.{resize}

-- What `resize` leaves in place, and the length that it gives.
pub get_elem?-resize :
    (xs : Bytes) (len v k : ℕ)
    → k < len
    → k < length xs
    → get_elem? (resize xs len v) k ≡ get_elem? xs k
unfolding resize
get_elem?-resize xs len v k h l =
    ground (arith, get_elem?-take len xs k, get_elem?-append xs (replicate (len - length xs) v) k)

pub length-resize : (xs : Bytes) (len v : ℕ) → length (resize xs len v) ≡ len
unfolding resize
length-resize xs len v = ground (
  arith,
  length-take len xs,
  length-append xs (replicate (len - length xs) v),
  length-replicate (len - length xs) v,
)
