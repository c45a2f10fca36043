-- ===== src/Inner/Receive/Numbers/Seen.antt =====
-- The tests of `read_packet` for a packet that it drops, by the number of the packet.
use mini_udp.Prelude.{
  ℕ, zero, suc, ◌+◌, ◌≤◌, ◌<◌, ◌≡◌, refl, ◌∙◌, arith, Bool, true, false, ◌||◌, is_some, List,
  contains, inl, inr, lt_or_le, or_true,
}
use mini_udp.Word.{wrapping_sub}
use mini_udp.Serial.{wrapping_gt}
use mini_udp.Serial.Order.{wrapping_gt_ahead, wrapping_gt_behind}
use mini_udp.Ring
use mini_udp.Ring.{RingBuffer}
use mini_udp.Ring.Window.{get_out}
use mini_udp.Ack.{num_items}
use mini_udp.Inner.Receive.Numbers.{id_of, IsKnown}

module _ {T : Type 0} (ns : List ℕ) (high : ℕ) (r : RingBuffer T) (b : IsKnown ns high r)
    (n : ℕ) where
  abbrev pub in_buffer_or_old : Bool
  in_buffer_or_old =
      is_some (Ring.get num_items r (id_of n))
      || wrapping_gt (wrapping_sub r.newest 31) (id_of n) 64

  -- A number that has arrived, at most 95 before the newest.
  pub seen_again :
      ((j : ℕ) → contains ns j ≡ true → j ≤ n + 95) → contains ns n ≡ true → in_buffer_or_old ≡ true
  seen_again late h =
      let newest = b.newest in
      let before : n < high = elim (lt_or_le n high) [
        | inl lt ↦ lt
        | inr le ↦ absurd (grind (arith, h, b.ahead n le))
      ] in
      let last : high ≤ n + 96 = reach high b.newest_came in
      elim (lt_or_le (n + 32) high) [
        | inr le ↦ or_true _ _ (b.window n before le ∙ h)
        | inl lt ↦
            rw
              (wrapping_gt_ahead (wrapping_sub r.newest 31) (id_of n) 64 (omega arith) (omega arith)
                (omega arith) (omega arith) (omega arith))
              (or_right _)
      ]
    where
      reach : (m : ℕ) → ((k : ℕ) → m ≡ suc k → contains ns k ≡ true) → m ≤ n + 96
      reach zero came = omega arith
      reach (suc k) came = omega (arith, late k (came k refl))

      or_right : (x : Bool) → (x || true) ≡ true
      or_right true = refl
      or_right false = refl

  -- A number that has not, when all that are 32 or more before it have.
  module _ (sent : (j : ℕ) → j + 32 ≤ n → contains ns j ≡ true) (h : contains ns n ≡ false) where
    pub recent : high ≤ n + 32
    recent = elim (lt_or_le (n + 32) high) [
      | inl lt ↦ absurd (grind (arith, h, b.old n lt))
      | inr le ↦ le
    ]

    pub near : n < high + 32
    near = elim (lt_or_le n (high + 32)) [
      | inl lt ↦ lt
      | inr le ↦ absurd (grind (arith, b.ahead high (omega arith), sent high le))
    ]

    pub unseen : in_buffer_or_old ≡ false
    unseen =
        let newest = b.newest in
        let from = recent in
        let to = near in
        let absent : is_some (Ring.get num_items r (id_of n)) ≡ false = elim (lt_or_le n high) [
          | inl lt ↦ b.window n lt from ∙ h
          | inr le ↦ rw (get_out num_items r (id_of n) (omega arith)) refl
        ] in
        rw
          (
            absent,
            wrapping_gt_behind (wrapping_sub r.newest 31) (id_of n) 64 (omega arith) (omega arith)
                (omega arith) (omega arith),
          )
          refl
