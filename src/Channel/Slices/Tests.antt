-- ===== src/Channel/Slices/Tests.antt =====
-- A message of three slices, and the theorems at it.
use renet.Base.{
  ℕ, ◌≡◌, refl, true, none, some, List, [], ◌∷◌, arith, length, length-replicate, replicate, ◌<◌,
  ◌≤◌, ◌↔◌, ◌++◌, Option, false,
}
use renet.Base.Outcome.{returns, panics, Result, ok}
use renet.Error.{ChannelError}
use renet.Packet.{Bytes}
use renet.Channel.Pieces.{IsSliced}
use renet.Channel.Slices.{
  SliceConstructor, new, process_slice, store, resize, copy_from_slice, finish,
}
use renet.Channel.Slices.Feed.{feed, mem, feed_complete, feed_missing}
use renet.Channel.Slices.Range.{fresh_constructor, fed, process_slice-panics_iff}
use renet.Base.Word.{add_u64, sub_u64, mul_u64}

abbrev message : Bytes
message = replicate 2500 7

length-message : length message ≡ 2500
length-message = length-replicate {A = ℕ} 2500 7

message-IsSliced : IsSliced message 3
message-IsSliced = omega (arith, length-message)

abbrev order : List ℕ
order = 2 ∷ 0 ∷ 2 ∷ 1 ∷ []

order_complete : (j : ℕ) → j < 3 → mem j order ≡ true
order_complete j h = ground arith

feed_complete_example : feed message 3 (new 5 3) order ≡ returns (ok (some message))
feed_complete_example =
    feed_complete message 3 5 order message-IsSliced (omega arith) order_complete

feed_missing_example : feed message 3 (new 5 3) (2 ∷ 0 ∷ 2 ∷ []) ≡ returns (ok none)
feed_missing_example =
    feed_missing message 3 5 1 (2 ∷ 0 ∷ 2 ∷ []) message-IsSliced (omega arith) (omega arith) refl

-- After the last slice, of 100 bytes, a slice with the index 3 arrives.
abbrev fed_last : SliceConstructor × Result (Option Bytes) ChannelError
fed_last = (
  record {
    message_id = 5;
    num_slices = 3;
    num_received_slices = 1;
    received = false ∷ false ∷ true ∷ [];
    sliced_data = replicate 2400 0 ++ replicate 100 9;
  },
  ok none,
)

last_arrives : process_slice (new 5 3) 2 (replicate 100 9) ≡ returns fed_last
unfolding process_slice new store resize copy_from_slice finish sub_u64 add_u64 mul_u64
last_arrives = refl

process_slice-panics_iff_example :
    (process_slice fed_last.0 3 (replicate 1200 0) ≡ panics)
    ↔ ((3 ≤ 3) × (length (replicate {A = ℕ} 1200 0) ≡ 1200))
process_slice-panics_iff_example =
    process_slice-panics_iff 5 3 3 fed_last.0 (replicate 1200 0) (omega arith) (omega arith)
      (fed 2 (replicate 100 9) fresh_constructor last_arrives)
