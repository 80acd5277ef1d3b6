-- ===== src/Channel/Reliable/Send/Accounts.antt =====
-- `send_message` of renet/src/channel/reliable.rs, and the invariant of a sender.
use renet.Base.{
  ℕ, suc, ◌+◌, ◌^◌, ◌≤◌, ◌<◌, ◌≡◌, ◌≢◌, ==_iff, ==_false, refl, sym, ◌∙◌, ap, false, Option, none,
  some, List, [], ◌∷◌, ◌++◌, arith, length, get_elem?, Bool-cases, inl, inr, ltb, length-append,
  get_elem?-append_left, get_elem?-append_length, not_ltb→le, replicate, length-replicate, zero,
  get_elem?-some-lt, All, All-imp, Option-cases, if◌then◌else◌, ◌/◌, ltb→lt,
}
use renet.Base.Flags.{trues-replicate}
use renet.Base.Word.{IsU64, add_u64, add_u64-eq}
use renet.Base.Map.{get, insert, get-insert}
use renet.Base.Map.Order.{Ascending, insert-Ascending}
use renet.Base.Map.Sum.{total, total-insert}
use renet.Base.Map.Entries.{Entries, Entries-insert, Entries-imp, Entries-get}
use renet.Base.Outcome.{Result, ok, err}
use renet.Error.{ChannelError}
use renet.Packet.{Bytes}
use renet.Channel.Pieces.{div_ceil-IsSliced}
use renet.Channel.Reliable.Send.{
  UnackedMessage, small, sliced, SendChannelReliable, new, new_sliced, send_message,
}
use renet.Channel.Reliable.Send.Sends.{IsPast, UnackedSlices, IsUnacked}

abbrev pub message_of : UnackedMessage → Bytes
message_of (small m l) = m
message_of (sliced u) = u.message

abbrev pub size_of : UnackedMessage → ℕ
size_of u = length (message_of u)

pub record SenderInv (sent : List Bytes) (now : ℕ) (ch : SendChannelReliable) : Type 0 where
  pub next : ch.next_reliable_message_id ≡ length sent
  pub words : IsU64 (length sent)
  pub entries : Entries (IsUnacked sent now) ch.unacked_messages
  pub ascending : Ascending ch.unacked_messages
  pub accounts : ch.memory_usage_bytes ≡ total size_of ch.unacked_messages
  pub limit : ch.memory_usage_bytes ≤ ch.max_memory_usage_bytes
  pub room : ch.max_memory_usage_bytes < 2 ^ 59

pub new-SenderInv : (id resend max : ℕ) → max < 2 ^ 59 → SenderInv [] 0 (new id resend max)
unfolding new
new-SenderInv id resend max h = omega arith

IsPast-mono : (now now' : ℕ) (o : Option ℕ) → now ≤ now' → IsPast now o → IsPast now' o
IsPast-mono now now' none h p = tt
IsPast-mono now now' (some t) h p = omega arith

pub known-append :
    (sent : List Bytes) (m : Bytes) (id : ℕ) (x : Bytes)
    → get_elem? sent id ≡ some x
    → get_elem? (sent ++ (m ∷ [])) id ≡ some x
known-append sent m id x e =
    get_elem?-append_left sent (m ∷ []) id (get_elem?-some-lt sent id x e) ∙ e

pub IsUnacked-later :
    (sent : List Bytes) (now now' id : ℕ) (u : UnackedMessage)
    → now ≤ now'
    → IsUnacked sent now id u
    → IsUnacked sent now' id u
IsUnacked-later sent now now' id (small m l) h p = (p.0, p.1, IsPast-mono now now' l h p.2)
IsUnacked-later sent now now' id (sliced u) h p = record {
  known = p.known;
  long = p.long;
  cut = p.cut;
  flags = p.flags;
  counted = p.counted;
  open_ = p.open_;
  times = p.times;
  past = All-imp (IsPast now) (IsPast now') u.last_sent (λ o. IsPast-mono now now' o h) p.past;
}

IsUnacked-append :
    (sent : List Bytes) (m : Bytes) (now id : ℕ) (u : UnackedMessage)
    → IsUnacked sent now id u
    → IsUnacked (sent ++ (m ∷ [])) now id u
IsUnacked-append sent m now id (small x l) p = (known-append sent m id x p.0, p.1, p.2)
IsUnacked-append sent m now id (sliced u) p = record {
  known = known-append sent m id u.message p.known;
  long = p.long;
  cut = p.cut;
  flags = p.flags;
  counted = p.counted;
  open_ = p.open_;
  times = p.times;
  past = p.past;
}

pub message_of_lem :
    (sent : List Bytes) (now id : ℕ) (u : UnackedMessage)
    → IsUnacked sent now id u
    → get_elem? sent id ≡ some (message_of u)
message_of_lem sent now id (small m l) p = p.0
message_of_lem sent now id (sliced u) p = p.known

-- An unacked message has an id that was given out.
unacked_known :
    (sent : List Bytes) (now id : ℕ) (u : UnackedMessage)
    → IsUnacked sent now id u
    → id < length sent
unacked_known sent now id u p =
    get_elem?-some-lt sent id (message_of u) (message_of_lem sent now id u p)

get-next :
    (sent : List Bytes) (now : ℕ) (ch : SendChannelReliable)
    → SenderInv sent now ch
    → get ch.unacked_messages (length sent) ≡ none
get-next sent now ch v = elim (Option-cases (get ch.unacked_messages (length sent))) [
  | inl e ↦ e
  | inr (u, e) ↦ absurd (
      omega (
        arith,
        unacked_known sent now (length sent) u
            (Entries-get (IsUnacked sent now) ch.unacked_messages (length sent) u v.entries e),
      ))
]

All-replicate-none : (now n : ℕ) → All (IsPast now) (replicate n none)
All-replicate-none now zero = tt
All-replicate-none now (suc n) = (tt, All-replicate-none now n)

new_sliced-UnackedSlices :
    (sent : List Bytes) (now id : ℕ) (m : Bytes)
    → get_elem? sent id ≡ some m
    → 1200 < length m
    → length m < 2 ^ 58
    → UnackedSlices sent now id (new_sliced m)
unfolding new_sliced
new_sliced-UnackedSlices sent now id m e h b =
    let n : ℕ = (length m + 1199) / 1200 in
    record {
      known = e;
      long = h;
      cut = div_ceil-IsSliced m (omega arith) b;
      flags = length-replicate n false;
      counted = sym (trues-replicate n);
      open_ = omega (arith, trues-replicate n);
      times = length-replicate n none;
      past = All-replicate-none now n;
    }

-- The entry that `send_message` makes.
abbrev entry : Bytes → UnackedMessage
entry m = if ltb 1200 (length m) then sliced (new_sliced m) else small m none

entry-IsUnacked :
    (sent : List Bytes) (now id : ℕ) (m : Bytes)
    → get_elem? sent id ≡ some m
    → length m < 2 ^ 58
    → IsUnacked sent now id (entry m) × (size_of (entry m) ≡ length m)
entry-IsUnacked sent now id m e b = elim (Bool-cases (ltb 1200 (length m))) [
  | inl long ↦ rw long (
    new_sliced-UnackedSlices sent now id m e (ltb→lt 1200 (length m) long) b,
    unfold new_sliced in refl,
  )
  | inr short ↦ rw short ((e, not_ltb→le 1200 (length m) short, tt), refl)
]

entry-message : (m : Bytes) → message_of (entry m) ≡ m
unfolding new_sliced
entry-message m = elim (Bool-cases (ltb 1200 (length m))) [
  | inl long ↦ rw long refl
  | inr short ↦ rw short refl
]

accepted :
    (sent : List Bytes) (now : ℕ) (m : Bytes) (ch : SendChannelReliable)
    → SenderInv sent now ch
    → length sent + 1 < 2 ^ 64
    → length m < 2 ^ 58
    → ch.memory_usage_bytes + length m ≤ ch.max_memory_usage_bytes
    → SenderInv (sent ++ (m ∷ [])) now (record ch {
      memory_usage_bytes = add_u64 ch.memory_usage_bytes (length m);
      unacked_messages = insert ch.unacked_messages ch.next_reliable_message_id (entry m);
      next_reliable_message_id = add_u64 ch.next_reliable_message_id 1;
    })
accepted sent now m ch v w b fits =
    let id = ch.next_reliable_message_id in
    let sum = add_u64-eq ch.memory_usage_bytes (length m) (omega (arith, v.limit, v.room)) in
    let len = length-append sent (m ∷ []) in
    let at_id : get_elem? (sent ++ (m ∷ [])) id ≡ some m =
      ap (get_elem? (sent ++ (m ∷ []))) v.next ∙ get_elem?-append_length sent m in
    let e = entry-IsUnacked (sent ++ (m ∷ [])) now id m at_id b in
    let free : get ch.unacked_messages id ≡ none =
      ap (get ch.unacked_messages) v.next ∙ get-next sent now ch v in
    record {
      next = omega (arith, add_u64-eq id 1, v.next, len);
      words = omega (arith, len);
      entries =
          Entries-insert (IsUnacked (sent ++ (m ∷ [])) now) ch.unacked_messages id (entry m) e.0 (
            Entries-imp (IsUnacked sent now) (IsUnacked (sent ++ (m ∷ [])) now) ch.unacked_messages
              (IsUnacked-append sent m now) v.entries);
      ascending = insert-Ascending ch.unacked_messages id (entry m) v.ascending;
      accounts =
          omega (
            arith,
            sum,
            v.accounts,
            e.1,
            total-insert size_of ch.unacked_messages id (entry m) free,
          );
      limit = omega (arith, sum, fits);
      room = v.room;
    }

-- There was memory for the message, which is now kept under the next id, beside the others.
pub record Stores (sent : List Bytes) (now : ℕ) (m : Bytes) (ch ch' : SendChannelReliable)
    : Type 0 where
  pub inv : SenderInv (sent ++ (m ∷ [])) now ch'
  pub fits : ch.memory_usage_bytes + length m ≤ ch.max_memory_usage_bytes
  pub kept :
      (u : UnackedMessage) × (get ch'.unacked_messages (length sent) ≡ some u) × (message_of u ≡ m)
  pub others :
      (id : ℕ) → id ≢ length sent → get ch'.unacked_messages id ≡ get ch.unacked_messages id

-- A message that is accepted gets the next id and is unacked; one that is refused changes nothing.
abbrev pub Accepts :
    List Bytes
    → ℕ
    → Bytes
    → SendChannelReliable
    → SendChannelReliable × Result (Unit {0}) ChannelError
    → Type 0
Accepts sent now m ch (ch', ok _) = Stores sent now m ch ch'
Accepts sent now m ch (ch', err e) =
    (ch' ≡ ch) × (ch.max_memory_usage_bytes < ch.memory_usage_bytes + length m)

-- With less than 2^64 - 1 messages sent before and a message shorter than 2^58 bytes: `send_message`
-- accepts exactly the messages for which there is memory left. An accepted message is kept under the
-- next id, no other entry changes, and the sender's invariant holds with it; a refused one changes
-- nothing.
pub send_message-Accepts :
    (sent : List Bytes) (now : ℕ) (m : Bytes) (ch : SendChannelReliable)
    → SenderInv sent now ch
    → length sent + 1 < 2 ^ 64
    → length m < 2 ^ 58
    → Accepts sent now m ch (send_message ch m)
unfolding send_message
send_message-Accepts sent now m ch v w b =
    let sum = add_u64-eq ch.memory_usage_bytes (length m) (omega (arith, v.limit, v.room)) in
    elim (Bool-cases (ltb ch.max_memory_usage_bytes (add_u64 ch.memory_usage_bytes (length m)))) [
      | inl full ↦ rw full (refl, ground (arith, sum))
      | inr fits ↦
          let room : ch.memory_usage_bytes + length m ≤ ch.max_memory_usage_bytes =
            ground (arith, sum) in
          let id = ch.next_reliable_message_id in
          rw fits (record {
            inv = accepted sent now m ch v w b room;
            fits = room;
            kept = (
              entry m,
              get-insert ch.unacked_messages id (length sent) (entry m)
                  ∙ rw ((==_iff id (length sent)).1 v.next) refl,
              entry-message m,
            );
            others = λ j other.
                get-insert ch.unacked_messages id j (entry m)
                ∙ rw (==_false id j (λ e. other (sym e ∙ v.next))) refl;
          })
    ]

pub SenderInv-later :
    (sent : List Bytes) (now now' : ℕ) (ch : SendChannelReliable)
    → now ≤ now'
    → SenderInv sent now ch
    → SenderInv sent now' ch
SenderInv-later sent now now' ch h v = record {
  next = v.next;
  words = v.words;
  entries =
      Entries-imp (IsUnacked sent now) (IsUnacked sent now') ch.unacked_messages
        (λ id u. IsUnacked-later sent now now' id u h) v.entries;
  ascending = v.ascending;
  accounts = v.accounts;
  limit = v.limit;
  room = v.room;
}
