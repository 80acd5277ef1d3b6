-- ===== src/Channel/Unreliable/Receive/Discard.antt =====
-- `discard_incomplete_old_slices`.
use renet.Base.{
  ℕ, ◌+◌, ◌≤◌, ◌≡◌, ◌≢◌, refl, sym, ap, ◌∙◌, true, false, Option, none, some, List, [], ◌∷◌, ◌==◌,
  ==_iff, ==_false, arith, inl, inr, Bool-cases, Option-cases,
}
use renet.Base.Word.{sub_u64, sub_u64-eq, mul_u64, mul_u64-eq}
use renet.Base.Map.{Map, get, remove, contains_key, contains_key-get}
use renet.Base.Map.Order.{remove-Ascending}
use renet.Base.Map.Sum.{total-remove}
use renet.Base.Map.Entries.{Entries, Entries-imp}
use renet.Base.Outcome.{unwrap, Returns, Returns-bind}
use renet.Channel.Slices.{SliceConstructor}
use renet.Channel.Unreliable.Receive.{
  ReceiveChannelUnreliable, lost_messages, discard_messages, discard_incomplete_old_slices,
}
use renet.Channel.Unreliable.Receive.Memory.{
  slice_bytes, AccountsInv, IdsFrom, IdsFrom-remove, contains-remove, lost_messages-IdsFrom,
}

-- What is left in a map without a key has other keys.
pub Entries-remove_other :
    (P : ℕ → ℕ → Type 0) (m : Map ℕ) (k : ℕ)
    → Entries P m
    → Entries (λ j v. P j v × (j ≢ k)) (remove m k)
unfolding remove
Entries-remove_other P [] k e = tt
Entries-remove_other P ((j, w) ∷ m) k e = elim (Bool-cases (j == k)) [
  | inl same ↦ rw same (Entries-remove_other P m k e.1)
  | inr other ↦
      rw other ((e.0, λ q. absurd (cc ((==_iff j k).1 q, other))), Entries-remove_other P m k e.1)
]

pub contained :
    (m : Map SliceConstructor) (k : ℕ)
    → contains_key m k ≡ true
    → (c : SliceConstructor) × (get m k ≡ some c)
contained m k h = elim (Option-cases (get m k)) [
  | inl e ↦ absurd (
      cc (
        contains_key-get m k ∙ ap (λ (o : Option _). elim o [ none ↦ false | some _ ↦ true ]) e,
        h,
      ))
  | inr x ↦ x
]

-- Without one incomplete message.
without : ReceiveChannelUnreliable → ℕ → SliceConstructor → ReceiveChannelUnreliable
without ch id c = record ch {
  slices_last_received = remove ch.slices_last_received id;
  slices = remove ch.slices id;
  memory_usage_bytes = sub_u64 ch.memory_usage_bytes (mul_u64 c.num_slices 1200);
}

without-AccountsInv :
    (now id : ℕ) (ch : ReceiveChannelUnreliable) (c : SliceConstructor)
    → get ch.slices id ≡ some c
    → AccountsInv now ch
    → AccountsInv now (without ch id c)
unfolding without
without-AccountsInv now id ch c e v =
    let t = total-remove slice_bytes ch.slices id c v.ascending e in
    let m = mul_u64-eq c.num_slices 1200 (omega (arith, t, v.accounts, v.limit, v.room)) in
    let s =
      sub_u64-eq ch.memory_usage_bytes (mul_u64 c.num_slices 1200) (omega (arith, m, t, v.accounts))
        (omega (arith, v.limit, v.room)) in
    record {
      ascending = remove-Ascending ch.slices id v.ascending;
      times_ascending = remove-Ascending ch.slices_last_received id v.times_ascending;
      paired =
          Entries-imp (λ j t. ((t ≤ now) × (contains_key ch.slices j ≡ true)) × (j ≢ id))
            (λ j t. (t ≤ now) × (contains_key (remove ch.slices id) j ≡ true))
            (remove ch.slices_last_received id)
            (λ j t p.
              (p.0.0, contains-remove ch.slices id j ∙ rw (==_false id j (λ q. p.1 (sym q))) p.0.1))
            (Entries-remove_other (λ j t. (t ≤ now) × (contains_key ch.slices j ≡ true))
              ch.slices_last_received id v.paired);
      accounts = omega (arith, s, m, t, v.accounts);
      limit = omega (arith, s, v.limit);
      room = v.room;
    }

discard_messages-Returns :
    (now n : ℕ) (ids : List ℕ) (ch : ReceiveChannelUnreliable)
    → IdsFrom n ch.slices ids
    → AccountsInv now ch
    → Returns (λ ch'. AccountsInv now ch' × (ch'.messages ≡ ch.messages)) (discard_messages ch ids)
unfolding discard_messages without
discard_messages-Returns now n [] ch i v = (ch, refl, (v, refl))
discard_messages-Returns now n (id ∷ ids) ch i v =
    let (c, e) = contained ch.slices id i.1 in
    let (ch', q, r) =
      discard_messages-Returns now (id + 1) ids (without ch id c)
        (IdsFrom-remove (id + 1) id ch.slices ids (omega arith) i.2)
        (without-AccountsInv now id ch c e v) in
    rw (e, unwrap) (ch', q, r)

AccountsInv-later :
    (now now' : ℕ) (ch : ReceiveChannelUnreliable)
    → now ≤ now'
    → AccountsInv now ch
    → AccountsInv now' ch
AccountsInv-later now now' ch h v = record {
  ascending = v.ascending;
  times_ascending = v.times_ascending;
  paired =
      Entries-imp (λ id t. (t ≤ now) × (contains_key ch.slices id ≡ true))
        (λ id t. (t ≤ now') × (contains_key ch.slices id ≡ true)) ch.slices_last_received
        (λ id t p. (omega (arith, p.0, h), p.1)) v.paired;
  accounts = v.accounts;
  limit = v.limit;
  room = v.room;
}

-- With the accounts in order and a clock that does not run backwards, `discard_incomplete_old_slices`
-- gives the memory of what it discards back, no more and no less, and leaves the complete messages
-- alone.
pub discard-Returns :
    (now now' : ℕ) (ch : ReceiveChannelUnreliable)
    → now ≤ now'
    → AccountsInv now ch
    → Returns
        (λ ch'. AccountsInv now' ch' × (ch'.messages ≡ ch.messages))
        (discard_incomplete_old_slices ch now')
unfolding discard_incomplete_old_slices
discard-Returns now now' ch h v =
    Returns-bind (IdsFrom 0 ch.slices) (λ ch'. AccountsInv now' ch' × (ch'.messages ≡ ch.messages))
      (lost_messages ch.slices_last_received now') (discard_messages ch)
      (lost_messages-IdsFrom now' 0 ch.slices ch.slices_last_received v.times_ascending (
        Entries-imp (λ id t. (t ≤ now) × (contains_key ch.slices id ≡ true))
          (λ id t. (0 ≤ id) × (t ≤ now') × (contains_key ch.slices id ≡ true))
          ch.slices_last_received (λ id t p. (omega arith, omega (arith, p.0, h), p.1)) v.paired))
      (λ ids i. discard_messages-Returns now' 0 ids ch i (AccountsInv-later now now' ch h v))
