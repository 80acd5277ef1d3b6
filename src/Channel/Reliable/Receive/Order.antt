-- ===== src/Channel/Reliable/Receive/Order.antt =====
-- The loop of an unordered channel's `receive_message`.
use renet.Base.{
  ℕ, zero, suc, ◌+◌, ◌^◌, ◌≤◌, ◌<◌, ◌≡◌, refl, true, false, [], ◌∷◌, ltb, leb, ◌&&◌, ◌||◌, ◌==◌,
  ==_iff, if◌then◌else◌, arith, inl, inr, Bool-cases, length,
}
use renet.Base.Word.{add_u64, add_u64-eq}
use renet.Base.Map.{Map, remove, contains_key, contains_key-get, get-remove}
use renet.Channel.Reliable.Receive.{advance_oldest}

length-remove_le : (m : Map (Unit {0})) (k : ℕ) → length (remove m k) ≤ length m
unfolding remove
length-remove_le [] k = omega arith
length-remove_le ((j, v) ∷ m) k = ground (arith, length-remove_le m k)

length-remove :
    (m : Map (Unit {0})) (k : ℕ) → contains_key m k ≡ true → length (remove m k) < length m
unfolding remove contains_key
length-remove [] k h = absurd (cc h)
length-remove ((j, v) ∷ m) k h = ground (arith, length-remove m k, length-remove_le m k)

contains-remove :
    (m : Map (Unit {0})) (k j : ℕ)
    → contains_key (remove m k) j ≡ (if k == j then false else contains_key m j)
contains-remove m k j =
    ground (arith, contains_key-get (remove m k) j, get-remove m k j, contains_key-get m j)

-- The oldest id and the ids that are left, from those before.
pub record Advanced (received : Map (Unit {0})) (oldest : ℕ) (r : Map (Unit {0}) × ℕ) : Type 0 where
  pub from : oldest ≤ r.1
  pub stops : contains_key r.0 r.1 ≡ false
  pub before :
      (j : ℕ) → contains_key received j ≡ ((leb oldest j && ltb j r.1) || contains_key r.0 j)
  pub after : (j : ℕ) → ((leb oldest j && ltb j r.1) && contains_key r.0 j) ≡ false

-- The loop that moves the oldest pending id ends within as many rounds as there are received ids.
-- Then the oldest pending id is not among them; every id that was passed was received; and exactly
-- the ids that were passed are forgotten.
pub advance_oldest-Advanced :
    (fuel : ℕ) (received : Map (Unit {0})) (oldest : ℕ)
    → length received ≤ fuel
    → oldest + fuel < 2 ^ 64
    → Advanced received oldest (advance_oldest fuel received oldest)
unfolding advance_oldest
advance_oldest-Advanced zero [] oldest h b = record {
  from = omega arith;
  stops = unfold contains_key in refl;
  before = λ j. ground arith;
  after = λ j. ground arith;
}
advance_oldest-Advanced zero (x ∷ m) oldest h b = absurd (omega (arith, h))
advance_oldest-Advanced (suc fuel) m oldest h b = elim (Bool-cases (contains_key m oldest)) [
  | inl there ↦
      let l = length-remove m oldest there in
      let s = add_u64-eq oldest 1 (omega (arith, b)) in
      let a =
        advance_oldest-Advanced fuel (remove m oldest) (add_u64 oldest 1) (omega (arith, l, h))
          (omega (arith, s, b)) in
      rw (there, advance_oldest)
        (record {
          from = omega (arith, a.from, s);
          stops = a.stops;
          before = λ j.
              ground
                (arith, a.before j, contains-remove m oldest j, s, there, a.from, ==_iff oldest j);
          after = λ j. ground (arith, a.after j, a.before j, contains-remove m oldest j, s, a.from);
        })
  | inr gone ↦
      rw (gone, advance_oldest)
        (record {
          from = omega arith;
          stops = gone;
          before = λ j. ground arith;
          after = λ j. ground arith;
        })
]
