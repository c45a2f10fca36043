-- ===== src/Ring/Retain.antt =====
-- mini_udp/src/ring_buffer.rs: `retain`. The closure may change the item and what it has captured:
-- it takes the captured state, and returns its answer, the item and the new state.
pub mod Outcome
use mini_udp.Prelude.{
  ℕ, ◌-◌, ◌%◌, Bool, true, false, ltb, if◌then◌else◌, Option, none, some, List, [], ◌∷◌,
}
use mini_udp.Word.{wrapping_add, wrapping_sub}
use mini_udp.Serial.{wrapping_range}
use mini_udp.Ring.{RingBuffer, slot, set_slot}

module _ {T S : Type 0} (num_items : ℕ) (f : S → ℕ → T → Bool × T × S) where
  -- `&& let Some(value) = ... && !f(index, value)`, and `take` if all of it holds.
  unfoldable pub retain_item : RingBuffer T → S → ℕ → Option T → RingBuffer T × S
  retain_item r s index none = (r, s)
  retain_item r s index (some value) =
      let (keep, value', s') = f s index value in
      (set_slot r (index % num_items) (if keep then some value' else none), s')

  unfoldable pub retain_at : RingBuffer T → S → ℕ → RingBuffer T × S
  unfolding retain_item
  retain_at r s index =
      let i = wrapping_sub r.newest index in
      if ltb i num_items then retain_item r s index (slot r (index % num_items)) else (r, s)

  unfoldable pub retain_in : RingBuffer T → S → List ℕ → RingBuffer T × S
  retain_in r s [] = (r, s)
  retain_in r s (index ∷ is) = let (r', s') = retain_at r s index in retain_in r' s' is

  unfoldable pub retain : RingBuffer T → S → RingBuffer T × S
  unfolding retain_in
  retain r s =
      retain_in r s
        (wrapping_range (wrapping_sub r.newest (num_items - 1)) (wrapping_add r.newest 1))
