-- ===== src/Connection/Client/Ticks.antt =====
-- `update` of `RenetClient`.
pub mod Lost
use renet.Base.{
  ℕ, ◌+◌, ◌-◌, ◌*◌, ◌^◌, Bool, true, false, Option, none, some, List, [], ◌∷◌, ltb, leb,
  if◌then◌else◌,
}
use renet.Base.Map.{Map, remove}
use renet.Base.Outcome.{Outcome, returns, panics, ◌>>=◌}
use renet.Channel.Unreliable.Receive.{ReceiveChannelUnreliable, discard_incomplete_old_slices}
use renet.Connection.Client.{PacketSent, RenetClient}

-- A `Duration` is less than 2^64 seconds, and its `+` panics beyond.
abbrev pub max_duration : ℕ
max_duration = 2 ^ 64 * 1000000000

abbrev pub discard_after : ℕ
discard_after = 3000000000

unfoldable pub discard_slices :
    ℕ → Map ReceiveChannelUnreliable → Outcome (Map ReceiveChannelUnreliable)
discard_slices current_time [] = returns []
discard_slices current_time ((channel_id, channel) ∷ rest) = do
  channel' ← discard_incomplete_old_slices channel current_time
  rest' ← discard_slices current_time rest
  returns ((channel_id, channel') ∷ rest')

-- The sequences of the packets that are lost, up to the first that is not.
unfoldable pub lost_packets : ℕ → Map PacketSent → Outcome (List ℕ)
lost_packets current_time [] = returns []
lost_packets current_time ((s, sent_packet) ∷ rest) =
    let more = lost_packets current_time rest in
    if ltb current_time sent_packet.sent_at
    then panics
    else if leb discard_after (current_time - sent_packet.sent_at)
    then (more >>= λ lost. returns (s ∷ lost))
    else returns []

unfoldable pub remove_all : {V : Type 0} → Map V → List ℕ → Map V
remove_all m [] = m
remove_all m (k ∷ ks) = remove_all (remove m k) ks

unfoldable pub update : RenetClient → ℕ → Outcome RenetClient
update c duration =
    let current_time = c.current_time + duration in
    if ltb current_time max_duration
    then (do
      channels ← discard_slices current_time c.receive_unreliable_channels
      lost ← lost_packets current_time c.sent_packets
      returns (record c {
        current_time = current_time;
        receive_unreliable_channels = channels;
        sent_packets = remove_all c.sent_packets lost;
      }))
    else panics
