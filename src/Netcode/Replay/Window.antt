-- ===== src/Netcode/Replay/Window.antt =====
-- Sequences that arrive at the replay protection of renetcode/src/replay_protection.rs.
use renet.Base.{
  ℕ, ◌+◌, ◌%◌, ◌^◌, ◌≤◌, ◌<◌, ◌≡◌, ◌≢◌, true, false, List, [], ◌∷◌, arith, ltb, ◌==◌, length,
  length-set, length-replicate, ◌∙◌, ==_iff, ap, get_or, All, ◌⊎◌, get_or-set_self, get_or-set_ne,
  get_or-replicate, if◌then◌else◌, Bool-cases, inl, inr,
}
use renet.Base.Word.{add_u64-eq}
use renet.Netcode.Replay.{ReplayProtection, empty, slot, new, already_received, advance_sequence}

-- `decode` drops a packet that was already received, and otherwise advances the protection.
unfoldable pub accept : ReplayProtection → List ℕ → ReplayProtection
accept p [] = p
accept p (s ∷ ss) = if already_received p s then accept p ss else accept (advance_sequence p s) ss

-- Sequences that leave room for `sequence + 256`.
abbrev pub IsSequence : ℕ → Type 0
IsSequence s = s + 256 < 2 ^ 64

abbrev pub IsProtection : ReplayProtection → Type 0
IsProtection p = length p.received_packet ≡ 256

new-IsProtection : IsProtection new
unfolding new
new-IsProtection = length-replicate 256 empty

advance-IsProtection :
    (p : ReplayProtection) (s : ℕ) → IsProtection p → IsProtection (advance_sequence p s)
unfolding advance_sequence
advance-IsProtection p s v = length-set p.received_packet (s % 256) s ∙ v

-- What the slot of `s` holds once `t` is advanced to.
slot-advance :
    (p : ReplayProtection) (t s : ℕ)
    → IsProtection p
    → slot (advance_sequence p t) s ≡ (if t % 256 == s % 256 then t else slot p s)
unfolding advance_sequence
slot-advance p t s v = elim (Bool-cases (t % 256 == s % 256)) [
  | inl e ↦
      rw (e, ← (==_iff (t % 256) (s % 256)).0 e)
        (get_or-set_self p.received_packet (t % 256) t empty (omega arith))
  | inr e ↦ rw e (get_or-set_ne p.received_packet (t % 256) (s % 256) t empty (ground arith))
]

-- `s` was advanced to: its slot holds a sequence that is as new.
record IsSeen (p : ReplayProtection) (s : ℕ) : Type 0 where
  filled : slot p s ≢ empty
  bound : s ≤ slot p s

seen_refused : (p : ReplayProtection) (s : ℕ) → IsSeen p s → already_received p s ≡ true
unfolding already_received
seen_refused p s v = ground arith

advance-IsSeen :
    (p : ReplayProtection) (s : ℕ) → IsProtection p → IsSequence s → IsSeen (advance_sequence p s) s
advance-IsSeen p s v h = let e = slot-advance p s s v in ground arith

slot-congruent : (p : ReplayProtection) (s t : ℕ) → t % 256 ≡ s % 256 → slot p t ≡ slot p s
slot-congruent p s t e = ap (λ i. get_or p.received_packet i empty) e

-- A later sequence that is accepted does not make the protection forget.
IsSeen-advance :
    (p : ReplayProtection) (s t : ℕ)
    → IsProtection p
    → IsSequence t
    → already_received p t ≡ false
    → IsSeen p s
    → IsSeen (advance_sequence p t) s
unfolding already_received
IsSeen-advance p s t v h fresh seen =
    let e = slot-advance p t s v in
    elim (Bool-cases (t % 256 == s % 256)) [
      | inl same ↦
          let c = slot-congruent p s t ((==_iff (t % 256) (s % 256)).0 same) in
          let f : slot (advance_sequence p t) s ≡ t = e ∙ rw same in
          record { filled = rw f (omega arith); bound = rw f (ground arith) }
      | inr other ↦
          let f : slot (advance_sequence p t) s ≡ slot p s = e ∙ rw other in
          record { filled = rw f seen.filled; bound = rw f seen.bound }
    ]

accept-IsSeen :
    (p : ReplayProtection) (s : ℕ) (ss : List ℕ)
    → IsProtection p
    → All IsSequence ss
    → IsSeen p s
    → IsSeen (accept p ss) s
unfolding accept
accept-IsSeen p s [] v h seen = seen
accept-IsSeen p s (t ∷ ts) v h seen = elim (Bool-cases (already_received p t)) [
  | inl old ↦ rw old (accept-IsSeen p s ts v h.1 seen)
  | inr fresh ↦ rw fresh (
      accept-IsSeen (advance_sequence p t) s ts (advance-IsProtection p t v) h.1
        (IsSeen-advance p s t v h.0 fresh seen))
]

-- A sequence that was advanced to is refused from then on, whatever packets arrive after it. All
-- sequences are below 2^64 - 256.
pub advance-refused :
    (p : ReplayProtection) (s : ℕ) (ss : List ℕ)
    → IsProtection p
    → IsSequence s
    → All IsSequence ss
    → already_received (accept (advance_sequence p s) ss) s ≡ true
advance-refused p s ss v hs hss = seen_refused (accept (advance_sequence p s) ss) s (
    accept-IsSeen (advance_sequence p s) s ss (advance-IsProtection p s v) hss
      (advance-IsSeen p s v hs))

-- What the slot of a sequence holds that never arrived.
record IsUnseen (p : ReplayProtection) (s : ℕ) : Type 0 where
  array : length p.received_packet ≡ 256
  holds :
      (slot p s ≡ empty)
      ⊎ (slot p s ≢ s) × (slot p s % 256 ≡ s % 256) × (slot p s ≤ p.most_recent_sequence)

new-IsUnseen : (s : ℕ) → IsUnseen new s
unfolding new
new-IsUnseen s = record {
  array = length-replicate 256 empty;
  holds = inl (get_or-replicate 256 (s % 256) empty);
}

most_recent-advance :
    (p : ReplayProtection) (t : ℕ)
    → (p.most_recent_sequence ≤ (advance_sequence p t).most_recent_sequence)
      × (t ≤ (advance_sequence p t).most_recent_sequence)
unfolding advance_sequence
most_recent-advance p t = ground arith

IsUnseen-advance :
    (p : ReplayProtection) (s t : ℕ) → t ≢ s → IsUnseen p s → IsUnseen (advance_sequence p t) s
IsUnseen-advance p s t ne u =
    let e = slot-advance p t s u.array in
    let m = most_recent-advance p t in
    record {
      array = advance-IsProtection p t u.array;
      holds = elim (Bool-cases (t % 256 == s % 256)) [
        | inl same ↦
            let f : slot (advance_sequence p t) s ≡ t = e ∙ rw same in
            inr (rw f ne, rw f ((==_iff (t % 256) (s % 256)).0 same), rw f m.1)
        | inr other ↦
            let f : slot (advance_sequence p t) s ≡ slot p s = e ∙ rw other in
            rw f (elim u.holds [ inl none_ ↦ inl none_ | inr (a, b, c) ↦ inr (a, b, omega arith) ])
      ];
    }

accept-IsUnseen :
    (p : ReplayProtection) (s : ℕ) (ss : List ℕ)
    → All (λ t. t ≢ s) ss
    → IsUnseen p s
    → IsUnseen (accept p ss) s
unfolding accept
accept-IsUnseen p s [] h u = u
accept-IsUnseen p s (t ∷ ts) h u = elim (Bool-cases (already_received p t)) [
  | inl old ↦ rw old (accept-IsUnseen p s ts h.1 u)
  | inr fresh ↦
      rw fresh (accept-IsUnseen (advance_sequence p t) s ts h.1 (IsUnseen-advance p s t h.0 u))
]

unseen_accepted :
    (p : ReplayProtection) (s : ℕ)
    → IsSequence s
    → IsUnseen p s
    → already_received p s ≡ ltb (s + 255) p.most_recent_sequence
unfolding already_received
unseen_accepted p s h u = ground (arith, add_u64-eq s 256)

-- From a fresh protection, a sequence below 2^64 - 256 that did not arrive is refused exactly when the most recent
-- one is 256 or more ahead of it.
pub accept-fresh :
    (ss : List ℕ) (s : ℕ)
    → IsSequence s
    → All (λ t. t ≢ s) ss
    → already_received (accept new ss) s ≡ ltb (s + 255) (accept new ss).most_recent_sequence
accept-fresh ss s h ne =
    unseen_accepted (accept new ss) s h (accept-IsUnseen new s ss ne (new-IsUnseen s))
