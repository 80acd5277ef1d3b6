-- ===== src/Channel/Unreliable/Tests.antt =====
-- An unreliable receiver with a complete message and an incomplete one.
use renet.Base.{◌≡◌, refl, true, false, [], ◌∷◌, ◌++◌, replicate, arith}
use renet.Base.Map.{contains_key, get, insert}
use renet.Base.Outcome.{returns, Returns, ok}
use renet.Channel.Slices
use renet.Channel.Slices.{SliceConstructor}
use renet.Channel.Unreliable.Receive.{
  ReceiveChannelUnreliable, process_message, process_slice, slice_into, slice_done,
  discard_incomplete_old_slices,
}
use renet.Channel.Unreliable.Receive.Memory.{AccountsInv, process_message-AccountsInv}
use renet.Channel.Unreliable.Receive.Runs.{
  Drops, fresh_receiver, time_passes, slice_comes, run-Drops,
}
use renet.Base.Word.{add_u64, sub_u64, mul_u64}
use renet.Packet.{Slice}
use renet.Channel.Unreliable.Receive

abbrev channel : ReceiveChannelUnreliable
channel = record {
  channel_id = 0;
  messages = (1 ∷ 2 ∷ []) ∷ [];
  slices = (6, Slices.new 6 2) ∷ [];
  slices_last_received = (6, 1000) ∷ [];
  max_memory_usage_bytes = 5000;
  memory_usage_bytes = 2402;
}

channel-AccountsInv : AccountsInv 2000 channel
unfolding contains_key Slices.new
channel-AccountsInv = record {
  ascending = (tt, tt);
  times_ascending = (tt, tt);
  paired = ((omega arith, refl), tt);
  accounts = refl;
  limit = omega arith;
  room = omega arith;
}

process_message-AccountsInv_example :
    AccountsInv 2000 (process_message channel (9 ∷ []))
    × ((process_message channel (9 ∷ [])).messages ≡ channel.messages ++ ((9 ∷ []) ∷ []))
process_message-AccountsInv_example =
    process_message-AccountsInv 2000 channel (9 ∷ []) (omega arith) channel-AccountsInv

-- The first of two slices arrives, and four seconds pass.
abbrev first_slice : Slice
first_slice = record { message_id = 6; slice_index = 0; num_slices = 2; payload = replicate 1200 7 }

abbrev waiting : ReceiveChannelUnreliable
waiting = record {
  channel_id = 0;
  messages = [];
  slices =
      (
        6,
        record {
          message_id = 6;
          num_slices = 2;
          num_received_slices = 1;
          received = true ∷ false ∷ [];
          sliced_data = replicate 1200 7 ++ replicate 1200 0;
        },
      )
      ∷ [];
  slices_last_received = (6, 0) ∷ [];
  max_memory_usage_bytes = 5000;
  memory_usage_bytes = 2400;
}

first_arrives : process_slice (Receive.new 0 5000) first_slice 0 ≡ returns (waiting, ok tt)
unfolding process_slice slice_into slice_done get insert Receive.new Slices.new Slices.process_slice
    Slices.store Slices.copy_from_slice Slices.finish add_u64 sub_u64 mul_u64
first_arrives = refl

run-Drops_example :
    Returns (Drops 4000000000 waiting) (discard_incomplete_old_slices waiting 4000000000)
run-Drops_example = run-Drops 0 5000 4000000000 waiting (
    time_passes 4000000000 (omega arith)
      (slice_comes first_slice (waiting, ok tt) fresh_receiver first_arrives))
