-- ===== src/Connection/Client/Ticks/Lost.antt =====
-- Which packets `update` of `RenetClient` gives up.
use renet.Base.{
  ℕ, ◌+◌, ◌-◌, ◌≤◌, ◌<◌, ◌≡◌, refl, sym, ◌∙◌, Bool, true, false, Option, none, some, List, [], ◌∷◌,
  ltb, leb, ◌==◌, if◌then◌else◌, arith, inl, inr, Bool-cases,
}
use renet.Base.Map.{Map, get, remove, get-remove}
use renet.Base.Map.Entries.{Entries, Entries-imp}
use renet.Base.Outcome.{returns, Returns}
use renet.Channel.Unreliable.Receive.{ReceiveChannelUnreliable}
use renet.Connection.Client.{PacketSent, RenetClient}
use renet.Connection.Client.Ticks.{
  max_duration, discard_after, discard_slices, lost_packets, remove_all, update,
}

-- Packets were sent in the order of their sequences, none of them before `t`.
abbrev pub Rising : ℕ → Map PacketSent → Type 0
Rising t [] = Unit {0}
Rising t ((s, p) ∷ m) = (t ≤ p.sent_at) × Rising p.sent_at m

abbrev pub is_lost : ℕ → PacketSent → Bool
is_lost now p = leb discard_after (now - p.sent_at)

-- What is left of an entry.
abbrev pub kept : ℕ → Option PacketSent → Option PacketSent
kept now none = none
kept now (some p) = if is_lost now p then none else some p

abbrev mem : ℕ → List ℕ → Bool
mem k [] = false
mem k (x ∷ xs) = if x == k then true else mem k xs

get-remove_all :
    {V : Type 0} (m : Map V) (ks : List ℕ) (k : ℕ)
    → get (remove_all m ks) k ≡ (if mem k ks then none else get m k)
unfolding remove_all
get-remove_all m [] k = refl
get-remove_all m (x ∷ ks) k = ground (arith, get-remove_all (remove m x) ks k, get-remove m x k)

recent_kept :
    (now t k : ℕ) (m : Map PacketSent)
    → now - t < discard_after
    → Rising t m
    → kept now (get m k) ≡ get m k
unfolding get
recent_kept now t k [] h r = refl
recent_kept now t k ((s, p) ∷ m) h r = elim (Bool-cases (s == k)) [
  | inl same ↦ rw same (ground arith)
  | inr other ↦ rw other (recent_kept now p.sent_at k m (omega (arith, r.0, h)) r.1)
]

abbrev Finds : ℕ → Map PacketSent → List ℕ → Type 0
Finds now m lost = (k : ℕ) → (if mem k lost then none else get m k) ≡ kept now (get m k)

lost_packets-Finds :
    (now t : ℕ) (m : Map PacketSent)
    → Rising t m
    → Entries (λ s p. p.sent_at ≤ now) m
    → Returns (Finds now m) (lost_packets now m)
unfolding lost_packets get
lost_packets-Finds now t [] r e = ([], refl, λ k. refl)
lost_packets-Finds now t ((s, p) ∷ m) r e =
    let (lost, q, f) = lost_packets-Finds now p.sent_at m r.1 e.1 in
    let late : ltb now p.sent_at ≡ false = ground (arith, e.0) in
    elim (Bool-cases (is_lost now p)) [
      | inl old ↦
          rw (late, old, q)
            (
              s ∷ lost,
              refl,
              λ k. elim (Bool-cases (s == k)) [
                | inl same ↦ rw (same, old) refl
                | inr other ↦ rw other (f k)
              ],
            )
      | inr fresh ↦
          rw (late, fresh)
            (
              [],
              refl,
              λ k. elim (Bool-cases (s == k)) [
                | inl same ↦ rw (same, fresh) refl
                | inr other ↦ rw other (sym (recent_kept now p.sent_at k m (ground arith) r.1))
              ],
            )
    ]

-- `update` gives up exactly the packets that were sent three seconds ago or longer, whatever their
-- number: as the packets were sent in the order of their sequences, none of those that it does not
-- look at is lost. It returns when the discarding of the unreliable channels returns, and keeps
-- everything but these channels, the clock and the packets.
pub update-Finds :
    (c : RenetClient) (duration t : ℕ) (channels : Map ReceiveChannelUnreliable)
    → c.current_time + duration < max_duration
    → Rising t c.sent_packets
    → Entries (λ s p. p.sent_at ≤ c.current_time) c.sent_packets
    → discard_slices (c.current_time + duration) c.receive_unreliable_channels ≡ returns channels
    → Returns
        (λ c'.
          ((k : ℕ)
            → get c'.sent_packets k ≡ kept (c.current_time + duration) (get c.sent_packets k))
          × (c' ≡ record c {
            current_time = c.current_time + duration;
            receive_unreliable_channels = channels;
            sent_packets = c'.sent_packets;
          }))
        (update c duration)
unfolding update
update-Finds c duration t channels h r e d =
    let now = c.current_time + duration in
    let (lost, q, f) = lost_packets-Finds now t c.sent_packets r (
      Entries-imp (λ s p. p.sent_at ≤ c.current_time) (λ s p. p.sent_at ≤ now) c.sent_packets
        (λ s p l. omega (arith, l)) e) in
    let early : ltb now max_duration ≡ true = ground (arith, h) in
    rw (early, d, q) (_, refl, ((λ k. get-remove_all c.sent_packets lost k ∙ f k), refl))
